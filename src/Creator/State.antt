-- ===== src/Creator/State.antt =====
-- pkg/creator/creator.go: the creator's state and its operations.
use consensus_go.Base.{
  ℕ, zero, suc, ◌+◌, ◌-◌, ◌%◌, ◌^◌, Bool, true, false, ◌||◌, List, [], ◌∷◌, map, Option, none, some,
  ltb, leb, ◌==◌, if◌then◌else◌, replicate, set,
}
use consensus_go.Gomel.Unit.{UnitInterface, slot, height, creator, epoch_id, predecessor}
use consensus_go.Creator.Consistent.{make_consistent}

-- What a creator reads of the configuration; `quorum` is MinimalQuorum of the number of processes.
pub record CreatorConfig : Type 0 where
  pub pid : ℕ
  pub n_proc : ℕ
  pub quorum : ℕ
  pub can_skip_level : Bool
  pub last_level : ℕ
  pub number_of_epochs : ℕ

-- What a creator is given: the data source, if there is one, the functions rsData and send, unit.New with the
-- creator's own id and key, and the builder of epoch proofs, whose state is a `P`. `X` is the world outside.
pub record Services (U P X : Type 0) : Type 0 where
  pub get_data : Option (X → List ℕ × X)
  pub rs_data : ℕ → List (Option U) → ℕ → X → List ℕ
  pub make_unit : ℕ → List (Option U) → ℕ → List ℕ → List ℕ → U
  pub send : U → X → X
  pub proof_builder : ℕ → P
  pub verify : P → U → Bool
  pub try_building : P → U → Option (List ℕ) × P
  pub build_share : P → U → List ℕ

-- The levels of `max_lvl` are counted one higher: 0 is Go's -1. The channel of last timing units is the list
-- of what waits in it.
pub record Creator (U P X : Type 0) : Type 0 where
  pub epoch : ℕ
  pub epoch_done : Bool
  pub candidates : List (Option U)
  pub max_lvl : ℕ
  pub on_max_lvl : ℕ
  pub level : ℕ
  pub frozen : ℕ → Bool
  pub epoch_proof : P
  pub last_timing : List U
  pub world : X

module _ {U : Type 0} ⦃i : UnitInterface U⦄ where
  abbrev pub is_older : Option U → U → Bool
  is_older none u = true
  is_older (some prev) u = ltb (i.level prev) (i.level u)

module _ {U P X : Type 0} ⦃i : UnitInterface U⦄ where
  -- The counters after a candidate was replaced by a unit of level `l`.
  abbrev pub on_max_after : ℕ → Creator U P X → ℕ
  on_max_after l s =
      if ltb s.max_lvl (l + 1)
      then 1
      else if l + 1 == s.max_lvl
      then (s.on_max_lvl + 1) % 2 ^ 16
      else s.on_max_lvl

  abbrev pub max_after : ℕ → Creator U P X → ℕ
  max_after l s = if ltb s.max_lvl (l + 1) then l + 1 else s.max_lvl

  abbrev pub place_candidate : CreatorConfig → U → Creator U P X → Creator U P X
  place_candidate conf u s = record s {
    candidates = set s.candidates (creator u) (some u);
    max_lvl = max_after (i.level u) s;
    on_max_lvl = on_max_after (i.level u) s;
    level =
        if leb conf.quorum (on_max_after (i.level u) s)
        then max_after (i.level u) s
        else max_after (i.level u) s - 1;
  }

  -- NewForEpoch; `unstarted` is the epoch proof of a creator that has not started, Go's nil.
  unfoldable pub new_for_epoch : CreatorConfig → ℕ → P → X → Creator U P X
  new_for_epoch conf epoch unstarted world = record {
    epoch = epoch;
    epoch_done = false;
    candidates = replicate conf.n_proc none;
    max_lvl = 0;
    on_max_lvl = 0;
    level = 0;
    frozen = λ pid. false;
    epoch_proof = unstarted;
    last_timing = [];
    world = world;
  }

  unfoldable pub update_candidates : CreatorConfig → U → Creator U P X → Creator U P X
  update_candidates conf u s =
      if epoch_id u == s.epoch
      then (if is_older (slot s.candidates (creator u)) u then place_candidate conf u s else s)
      else s

  unfoldable pub reset_epoch : Creator U P X → Creator U P X
  reset_epoch s = record s {
    candidates = map (λ u. none) s.candidates;
    max_lvl = 0;
    on_max_lvl = 0;
    level = 0;
  }

  module _ (conf : CreatorConfig) (services : Services U P X) where
    -- createUnit; `update` is the creator's update, which takes the new unit.
    unfoldable pub create_unit :
        (U → Creator U P X → Creator U P X)
        → List (Option U)
        → ℕ
        → List ℕ
        → Creator U P X
        → Creator U P X
    create_unit update parents level payload s =
        let u =
          services.make_unit s.epoch parents level payload
            (services.rs_data level parents s.epoch s.world) in
        update u (record s { world = services.send u s.world })

    unfoldable pub new_epoch :
        (U → Creator U P X → Creator U P X) → ℕ → List ℕ → Creator U P X → Creator U P X
    new_epoch update epoch payload s =
        create_unit update (replicate conf.n_proc none) 0 payload
          (record (reset_epoch (record s { epoch = epoch; epoch_done = false })) {
            epoch_proof = services.proof_builder epoch;
          })

    -- The part of update for a newer epoch: `none` is the early return.
    abbrev pub skip_epoch :
        (U → Creator U P X → Creator U P X) → U → Creator U P X → Option (Creator U P X)
    skip_epoch update u s =
        if ltb s.epoch (epoch_id u)
        then (if services.verify s.epoch_proof u
            then some (new_epoch update (epoch_id u) (i.preunit u).payload s)
            else none)
        else some s

    -- The last part of update: a proof that could be built, or a candidate.
    abbrev pub try_finishing :
        (U → Creator U P X → Creator U P X)
        → U
        → Creator U P X
        → Option (List ℕ) × P
        → Creator U P X
    try_finishing update u s (none, proof) =
        update_candidates conf u (record s { epoch_proof = proof })
    try_finishing update u s (some payload, proof) =
        new_epoch update ((s.epoch + 1) % 2 ^ 32) payload (record s { epoch_proof = proof })

    abbrev pub finish_update :
        (U → Creator U P X → Creator U P X)
        → U
        → Creator U P X
        → Option (Creator U P X)
        → Creator U P X
    finish_update update u s none = s
    finish_update update u s (some t) =
        try_finishing update u t (services.try_building t.epoch_proof u)

    -- update, with fuel for the units that it creates itself.
    unfoldable pub update : ℕ → U → Creator U P X → Creator U P X
    update zero u s = s
    update (suc fuel) u s =
        let rest = finish_update (update fuel) u s (skip_epoch (update fuel) u s) in
        if s.frozen (creator u) || ltb (epoch_id u) s.epoch then s else rest

    -- `none` is a panic: our own candidate is missing.
    abbrev pub is_above : Creator U P X → Option U → Option Bool
    is_above s none = none
    is_above s (some own) = some (ltb (i.level own) s.level)

    unfoldable pub ready : Creator U P X → Option Bool
    ready s = if s.epoch_done then some false else is_above s (slot s.candidates conf.pid)

    -- The loop of getParentsForLevel: down the predecessors to a level below `level`.
    unfoldable pub drop_to : ℕ → ℕ → Option U → Option U
    drop_to fuel level none = none
    drop_to zero level (some u) = none
    drop_to (suc fuel) level (some u) =
        let rest = drop_to fuel level (predecessor u) in
        if leb level (i.level u) then rest else some u

    abbrev pub drop_candidate : ℕ → Option U → Option U
    drop_candidate level none = none
    drop_candidate level (some u) = drop_to (height u + 1) level (some u)

    unfoldable pub get_parents : Creator U P X → List (Option U)
    get_parents s = make_consistent s.candidates

    unfoldable pub get_parents_for_level : ℕ → Creator U P X → List (Option U)
    get_parents_for_level level s = make_consistent (map (drop_candidate level) s.candidates)

    abbrev pub parents_above : Creator U P X → Option U → Option (List (Option U) × ℕ)
    parents_above s none = none
    parents_above s (some own) = some (get_parents_for_level (i.level own + 1) s, i.level own + 1)

    unfoldable pub build_parents : Creator U P X → Option (List (Option U) × ℕ)
    build_parents s =
        if conf.can_skip_level
        then some (get_parents s, s.level)
        else parents_above s (slot s.candidates conf.pid)

    -- The loop of getData that drains the channel of last timing units.
    unfoldable pub drain_timing : List U → Creator U P X → List ℕ × Creator U P X
    drain_timing [] s = ([], record s { last_timing = [] })
    drain_timing (t ∷ ts) s =
        let rest = drain_timing ts s in
        if epoch_id t == s.epoch
        then (
          if s.epoch + 1 == conf.number_of_epochs then [] else services.build_share s.epoch_proof t,
          record s { epoch_done = true; last_timing = ts },
        )
        else rest

    abbrev pub read_source : Option (X → List ℕ × X) → Creator U P X → List ℕ × Creator U P X
    read_source none s = ([], s)
    read_source (some source) s = ((source s.world).0, record s { world = (source s.world).1 })

    unfoldable pub get_unit_data : ℕ → Creator U P X → List ℕ × Creator U P X
    get_unit_data level s =
        if leb level conf.last_level
        then read_source services.get_data s
        else drain_timing s.last_timing s

    -- One round of the loop in CreateUnits, after `ready`.
    abbrev pub produce_unit :
        ℕ → Creator U P X → Option (List (Option U) × ℕ) → Option (Creator U P X)
    produce_unit fuel s none = none
    produce_unit fuel s (some (parents, level)) =
        let (payload, t) = get_unit_data level s in
        some (create_unit (update fuel) parents level payload t)

    abbrev pub produce_if :
        (Creator U P X → Option (Creator U P X))
        → Creator U P X
        → Option Bool
        → Option (Creator U P X)
        → Option (Creator U P X)
    produce_if again s none made = none
    produce_if again s (some false) made = some s
    produce_if again s (some true) none = none
    produce_if again s (some true) (some t) = again t

    -- The loop itself: `none` is a panic, and running out of rounds leaves the state as it is then.
    unfoldable pub produce : ℕ → ℕ → Creator U P X → Option (Creator U P X)
    produce fuel zero s = some s
    produce fuel (suc rounds) s =
        produce_if (produce fuel rounds) s (ready s) (produce_unit fuel s (build_parents s))

    unfoldable pub update_all : ℕ → List U → Creator U P X → Creator U P X
    update_all fuel [] s = s
    update_all fuel (u ∷ us) s = update_all fuel us (update fuel u s)

    -- What CreateUnits does when units come from the belt: it takes all that wait there, then produces.
    unfoldable pub take_belt : ℕ → ℕ → List U → Creator U P X → Option (Creator U P X)
    take_belt fuel rounds us s = produce fuel rounds (update_all fuel us s)

    abbrev pub freeze_at : ℕ → Creator U P X → Option U → Option (Option U × Creator U P X)
    freeze_at pid s none = none
    freeze_at pid s (some own) = some (
      slot (i.parents own) pid,
      record s {
        candidates = set s.candidates pid (slot (i.parents own) pid);
        frozen = λ q. if q == pid then true else s.frozen q;
      },
    )

    unfoldable pub freeze_parent : ℕ → Creator U P X → Option (Option U × Creator U P X)
    freeze_parent pid s = freeze_at pid s (slot s.candidates conf.pid)
