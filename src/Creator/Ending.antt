-- ===== src/Creator/Ending.antt =====
-- pkg/creator/creator.go: update calls newEpoch, which calls update on the dealing unit that it makes.
use consensus_go.Base.{
  ℕ, suc, ◌+◌, ◌%◌, ◌^◌, ◌≡◌, refl, ap, ◌∙◌, false, ◌||◌, List, Option, none, some, arith, ltb,
  if◌then◌else◌, replicate, Bool-cases, inl, inr,
}
use consensus_go.Gomel.Unit.{UnitInterface, creator, epoch_id}
use consensus_go.Creator.State.{
  CreatorConfig, Services, Creator, reset_epoch, create_unit, new_epoch, try_finishing,
  finish_update, update,
}

module _ {U P X : Type 0} ⦃i : UnitInterface U⦄ (conf : CreatorConfig) (services : Services U P X)
    (own_epoch : (epoch : ℕ) (ps : List (Option U)) (level : ℕ) (payload rs : List ℕ)
      → epoch_id (services.make_unit epoch ps level payload rs) ≡ epoch)
    (regular : (epoch : ℕ) (ps : List (Option U)) (payload rs : List ℕ) (p : P)
      → (services.try_building p (services.make_unit epoch ps 0 payload rs)).0 ≡ none) where
  abbrev Update : Type 0
  Update = U → Creator U P X → Creator U P X

  settled-try_finishing :
      (next next' : Update) (u : U) (s : Creator U P X) (built : Option (List ℕ) × P)
      → built.0 ≡ none
      → try_finishing conf services next u s built ≡ try_finishing conf services next' u s built
  settled-try_finishing next next' u s (none, p) e = refl
  settled-try_finishing next next' u s (some payload, p) e = absurd (ground (arith, e))

  -- A unit of the current epoch that completes no proof begins no epoch, so its update takes one level of calls.
  settled-update :
      (f g : ℕ) (u : U) (s : Creator U P X)
      → epoch_id u ≡ s.epoch
      → (services.try_building s.epoch_proof u).0 ≡ none
      → update conf services (suc f) u s ≡ update conf services (suc g) u s
  unfolding update
  settled-update f g u s e none_built =
      let same : ltb s.epoch (epoch_id u) ≡ false = ground arith in
      let built = services.try_building s.epoch_proof u in
      rw same (
        ap (λ rest. if s.frozen (creator u) || ltb (epoch_id u) s.epoch then s else rest)
          (settled-try_finishing (update conf services f) (update conf services g) u s built
            none_built))

  new_epoch-update :
      (f g epoch : ℕ) (payload : List ℕ) (s : Creator U P X)
      → new_epoch conf services (update conf services (suc f)) epoch payload s
        ≡ new_epoch conf services (update conf services (suc g)) epoch payload s
  unfolding new_epoch create_unit reset_epoch
  new_epoch-update f g epoch payload s =
      settled-update f g _ _
        (own_epoch epoch (replicate conf.n_proc none) 0 payload
          (services.rs_data 0 (replicate conf.n_proc none) epoch s.world))
        (regular epoch (replicate conf.n_proc none) payload
          (services.rs_data 0 (replicate conf.n_proc none) epoch s.world)
          (services.proof_builder epoch))

  try_finishing-update :
      (f g : ℕ) (u : U) (s : Creator U P X) (built : Option (List ℕ) × P)
      → try_finishing conf services (update conf services (suc f)) u s built
        ≡ try_finishing conf services (update conf services (suc g)) u s built
  try_finishing-update f g u s (none, p) = refl
  try_finishing-update f g u s (some payload, p) =
      new_epoch-update f g ((s.epoch + 1) % 2 ^ 32) payload _

  finish_update-update :
      (f g : ℕ) (u : U) (s : Creator U P X) (t : Option (Creator U P X))
      → finish_update conf services (update conf services (suc f)) u s t
        ≡ finish_update conf services (update conf services (suc g)) u s t
  finish_update-update f g u s none = refl
  finish_update-update f g u s (some r) =
      try_finishing-update f g u r (services.try_building r.epoch_proof u)

  -- The calls of update, newEpoch and createUnit end: two levels of update are enough for any unit and any
  -- state, more change nothing. It is assumed that unit.New gives a unit the epoch that it is
  -- called with, and that TryBuilding builds nothing from a unit of level 0.
  pub update_enough :
      (fuel : ℕ) (u : U) (s : Creator U P X)
      → update conf services (2 + fuel) u s ≡ update conf services 2 u s
  unfolding update
  update_enough fuel u s =
      let e : 2 + fuel ≡ suc (suc fuel) = omega arith in
      rw e (elim (Bool-cases (ltb s.epoch (epoch_id u))) [
        | inr same ↦ rw same (
            ap (λ rest. if s.frozen (creator u) || ltb (epoch_id u) s.epoch then s else rest)
              (finish_update-update fuel 0 u s (some s)))
        | inl newer ↦ elim (Bool-cases (services.verify s.epoch_proof u)) [
          | inr invalid ↦ rw (newer, invalid) refl
          | inl valid ↦
              rw (newer, valid)
                (ap (λ rest. if s.frozen (creator u) || ltb (epoch_id u) s.epoch then s else rest)
                  (ap
                      (λ r.
                        finish_update conf services (update conf services (suc fuel)) u s (some r))
                      (new_epoch-update fuel 0 (epoch_id u) (i.preunit u).payload s)
                    ∙ finish_update-update fuel 0 u s (
                        some (
                          new_epoch conf services (update conf services 1) (epoch_id u)
                            (i.preunit u).payload s))))
        ]
      ])
