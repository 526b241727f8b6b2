-- ===== src/Creator/Running.antt =====
-- pkg/creator/creator.go: update and newEpoch, which call each other through createUnit.
use consensus_go.Base.{
  ℕ, zero, suc, ◌+◌, ◌%◌, ◌^◌, ◌≡◌, ◌<◌, ◌∙◌, ◌||◌, List, [], ◌∷◌, Option, none, some, arith, ltb,
  ◌==◌, length, replicate, length-set, length-map, length-replicate, Bool-cases, inl, inr, All,
}
use consensus_go.Gomel.Unit.{UnitInterface, slot, creator, epoch_id, level_from_parents}
use consensus_go.Creator.State.{
  CreatorConfig, Services, Creator, is_older, update_candidates, reset_epoch, new_for_epoch,
  create_unit, new_epoch, skip_epoch, try_finishing, finish_update, update, update_all,
}
use consensus_go.Creator.Candidates.{
  IsCounted, place_candidate-IsCounted, new_for_epoch-IsCounted, reset_epoch-IsCounted,
  IsCounted-level,
}

module _ {U P X : Type 0} ⦃i : UnitInterface U⦄ (conf : CreatorConfig) where
  -- The state between two operations of the creator.
  pub record IsRunning (s : Creator U P X) : Type 0 where
    pub counts : IsCounted conf s
    pub sized : length s.candidates ≡ conf.n_proc

module _ {U P X : Type 0} ⦃i : UnitInterface U⦄ (conf : CreatorConfig) (services : Services U P X)
    (made : (epoch : ℕ) (ps : List (Option U)) (level : ℕ) (payload rs : List ℕ)
      → creator (services.make_unit epoch ps level payload rs) < conf.n_proc)
    (few : conf.n_proc < 2 ^ 16) where
  update_candidates-IsRunning :
      (u : U) (s : Creator U P X)
      → creator u < conf.n_proc
      → IsRunning conf s
      → IsRunning conf (update_candidates conf u s)
  unfolding update_candidates
  update_candidates-IsRunning u s own v = elim (Bool-cases (epoch_id u == s.epoch)) [
    | inr other ↦ rw other v
    | inl same ↦ rw same (elim (Bool-cases (is_older (slot s.candidates (creator u)) u)) [
      | inr newer ↦ rw newer v
      | inl older ↦ rw older (record {
        counts =
            place_candidate-IsCounted conf u s (omega (arith, own, v.sized))
              (omega (arith, v.sized)) older v.counts;
        sized = length-set s.candidates (creator u) (some u) ∙ v.sized;
      })
    ])
  ]

  -- What the functions that take update need of it.
  abbrev Keeps : (U → Creator U P X → Creator U P X) → Type 0
  Keeps next =
      (u : U) (s : Creator U P X)
      → creator u < conf.n_proc
      → IsRunning conf s
      → IsRunning conf (next u s)

  new_epoch-IsRunning :
      (next : U → Creator U P X → Creator U P X) (epoch : ℕ) (payload : List ℕ) (s : Creator U P X)
      → Keeps next
      → IsRunning conf s
      → IsRunning conf (new_epoch conf services next epoch payload s)
  unfolding new_epoch create_unit reset_epoch
  new_epoch-IsRunning next epoch payload s keeps v =
      keeps _ _ (made epoch (replicate conf.n_proc none) 0 payload _) (record {
        counts =
            let c = reset_epoch-IsCounted conf s in
            record {
              up_to = c.up_to;
              counted = c.counted;
              reached = c.reached;
              level_counted = c.level_counted;
            };
        sized = length-map s.candidates (λ u. none) ∙ v.sized;
      })

  with_proof-IsRunning :
      (p : P) (s : Creator U P X) → IsRunning conf s → IsRunning conf (record s { epoch_proof = p })
  with_proof-IsRunning p s v = record {
    counts =
        let c = v.counts in
        record {
          up_to = c.up_to;
          counted = c.counted;
          reached = c.reached;
          level_counted = c.level_counted;
        };
    sized = v.sized;
  }

  try_finishing-IsRunning :
      (next : U → Creator U P X → Creator U P X) (u : U) (s : Creator U P X)
      (built : Option (List ℕ) × P)
      → Keeps next
      → creator u < conf.n_proc
      → IsRunning conf s
      → IsRunning conf (try_finishing conf services next u s built)
  try_finishing-IsRunning next u s (none, p) keeps own v =
      update_candidates-IsRunning u _ own (with_proof-IsRunning p s v)
  try_finishing-IsRunning next u s (some payload, p) keeps own v =
      new_epoch-IsRunning next ((s.epoch + 1) % 2 ^ 32) payload _ keeps (with_proof-IsRunning p s v)

  finish_update-IsRunning :
      (next : U → Creator U P X → Creator U P X) (u : U) (s : Creator U P X)
      → Keeps next
      → creator u < conf.n_proc
      → IsRunning conf s
      → IsRunning conf (finish_update conf services next u s (skip_epoch conf services next u s))
  finish_update-IsRunning next u s keeps own v = elim (Bool-cases (ltb s.epoch (epoch_id u))) [
    | inr same ↦
        rw same
          (try_finishing-IsRunning next u s (services.try_building s.epoch_proof u) keeps own v)
    | inl newer ↦ elim (Bool-cases (services.verify s.epoch_proof u)) [
      | inr invalid ↦ rw (newer, invalid) v
      | inl valid ↦
          rw (newer, valid)
            (try_finishing-IsRunning next u _ (services.try_building _ u) keeps own
              (new_epoch-IsRunning next (epoch_id u) (i.preunit u).payload s keeps v))
    ]
  ]

  update-IsRunning : (fuel : ℕ) → Keeps (update conf services fuel)
  unfolding update
  update-IsRunning zero u s own v = v
  update-IsRunning (suc fuel) u s own v =
      elim (Bool-cases (s.frozen (creator u) || ltb (epoch_id u) s.epoch)) [
        | inl ignored ↦ rw ignored v
        | inr taken ↦
            rw taken (
              finish_update-IsRunning (update conf services fuel) u s (update-IsRunning fuel) own v)
      ]

  update_all-IsRunning :
      (fuel : ℕ) (us : List U) (s : Creator U P X)
      → All (λ u. creator u < conf.n_proc) us
      → IsRunning conf s
      → IsRunning conf (update_all conf services fuel us s)
  unfolding update_all
  update_all-IsRunning fuel [] s owns v = v
  update_all-IsRunning fuel (u ∷ us) s (own, owns) v =
      update_all-IsRunning fuel us (update conf services fuel u s) owns
        (update-IsRunning fuel u s own v)

  -- Whatever units a creator takes from the belt after it started, and whatever epochs it begins and dealing units
  -- it makes meanwhile, as long as no parent is frozen, the level that it keeps by counters is the
  -- level that LevelFromParents computes from its candidates, and it has one candidate slot for each process. The
  -- creators of the units taken and made are below the number of processes, which is below 2^16, and the quorum is the positive
  -- minimal quorum for that number.
  pub update_all-level :
      (minimal_quorum : ℕ → ℕ) (fuel : ℕ) (us : List U) (epoch : ℕ) (payload : List ℕ)
      (unstarted : P) (world : X)
      → conf.quorum ≡ minimal_quorum conf.n_proc
      → 0 < conf.quorum
      → All (λ u. creator u < conf.n_proc) us
      → let started =
          new_epoch conf services
            (update conf services fuel)
            epoch
            payload
            (new_for_epoch conf epoch unstarted world) in
        let s = update_all conf services fuel us started in
        (s.level ≡ level_from_parents minimal_quorum s.candidates)
        × (length s.candidates ≡ conf.n_proc)
  update_all-level minimal_quorum fuel us epoch payload unstarted world q positive owns =
      let v = update_all-IsRunning fuel us _ owns (
        new_epoch-IsRunning (update conf services fuel) epoch payload
          (new_for_epoch conf epoch unstarted world) (update-IsRunning fuel)
          (record {
            counts = new_for_epoch-IsCounted conf epoch unstarted world;
            sized = unfold new_for_epoch in length-replicate conf.n_proc none;
          })) in
      (
        IsCounted-level conf minimal_quorum _ (omega (arith, v.sized)) (rw v.sized q) positive
            v.counts,
        v.sized,
      )
