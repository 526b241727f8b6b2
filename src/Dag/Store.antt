-- ===== src/Dag/Store.antt =====
-- pkg/dag/dag.go: the state of a dag and the operations that read it.
use consensus_go.Base.{
  ℕ, ◌≡◌, Bool, List, [], Option, none, some, leb, ◌==◌, if◌then◌else◌, length, All,
}
use consensus_go.Base.Int.{ℤ}
use consensus_go.Base.Outcome.{Outcome, ok}
use consensus_go.Gomel.Hash.{Hash}
use consensus_go.Gomel.Id.{decode_id}
use consensus_go.Gomel.Unit.{UnitInterface, height, creator, hash}
use consensus_go.Dag.Slots.{Slotted, new_slotted, get}
use consensus_go.Dag.Bag.{Bag, get_one, get_many, get_all}
use consensus_go.Dag.Fibers.{
  FiberMap, IsFiberMap, new_fiber_map, get_fiber, units_in, units_at, above_heights,
}

-- The checks and the hooks of a Go dag are arguments of the operations that run them.
pub record Store (U : Type 0) : Type 0 where
  pub n_proc : ℕ
  pub epoch : ℕ
  pub units : Bag U
  pub level_units : FiberMap U
  pub height_units : FiberMap U
  pub max_units : Slotted U

-- New, with the epoch length for the first size of the fiber maps.
unfoldable pub new_store : {U : Type 0} → ℕ → ℕ → ℕ → Store U
new_store n_proc epoch epoch_length = record {
  n_proc = n_proc;
  epoch = epoch;
  units = [];
  level_units = new_fiber_map n_proc epoch_length;
  height_units = new_fiber_map n_proc epoch_length;
  max_units = new_slotted n_proc;
}

module _ {U : Type 0} where
  -- IsQuorum; `minimal_quorum` is crypto.MinimalQuorum.
  unfoldable pub is_quorum : (ℕ → ℕ) → Store U → ℕ → Bool
  is_quorum minimal_quorum d number = leb (minimal_quorum d.n_proc) number

  abbrev pub fiber_or_new : ℕ → Option (Slotted U) → Slotted U
  fiber_or_new n none = new_slotted n
  fiber_or_new n (some su) = su

  unfoldable pub units_on_level : Store U → ℕ → Slotted U
  units_on_level d level = fiber_or_new d.n_proc (get_fiber d.level_units level)

  unfoldable pub units_above : {E : Type 0} → Store U → Option (List ℤ) → Outcome E (List U)
  units_above d none = ok (get_all d.units)
  units_above d (some heights) = above_heights d.height_units heights

  abbrev pub get_unit : Store U → Hash → Option U
  get_unit d h = get_one d.units h

  abbrev pub get_units : Store U → List (Option Hash) → List (Option U)
  get_units d hashes = get_many d.units hashes

  unfoldable pub get_by_id : Store U → ℕ → List U
  get_by_id d n =
      let (h, c, e) = decode_id n in
      if e == d.epoch then units_in (get_fiber d.height_units h) c else []

-- The indexes of a dag agree with the units in them.
module _ {U : Type 0} ⦃i : UnitInterface U⦄ where
  -- A unit at its height and creator, and at its level and creator, found by its hash.
  abbrev pub IsPlaced : Bag U → ℕ → ℕ → U → Type 0
  IsPlaced bag h c u = (height u ≡ h) × (creator u ≡ c) × (get_one bag (hash u) ≡ some u)

  abbrev pub IsLevelled : Bag U → ℕ → ℕ → U → Type 0
  IsLevelled bag l c u = (i.level u ≡ l) × (creator u ≡ c) × (get_one bag (hash u) ≡ some u)

  pub record IsCoherent (d : Store U) : Type 0 where
    pub heights_shape : IsFiberMap d.height_units
    pub levels_shape : IsFiberMap d.level_units
    pub heights_width : d.height_units.width ≡ d.n_proc
    pub levels_width : d.level_units.width ≡ d.n_proc
    pub max_width : length d.max_units ≡ d.n_proc
    pub heights_placed : (h c : ℕ) → All (IsPlaced d.units h c) (units_at d.height_units h c)
    pub levels_placed : (l c : ℕ) → All (IsLevelled d.units l c) (units_at d.level_units l c)
    pub max_placed : (c : ℕ) → All (λ u. creator u ≡ c) (get d.max_units c)
