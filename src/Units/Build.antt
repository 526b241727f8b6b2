-- ===== src/Units/Build.antt =====
-- pkg/unit/free_unit.go and unit_in_dag.go: making units and embedding them into a dag.
use consensus_go.Base.{
  ℕ, zero, suc, ◌+◌, ◌-◌, ◌^◌, Bool, true, false, not, List, [], ◌∷◌, Option, none, some, ◌==◌,
  if◌then◌else◌, length, is_empty, get_or,
}
use consensus_go.Base.Int.{ℤ, pos, negsuc, ltb_ℤ, inc, pos_part}
use consensus_go.Gomel.Hash.{Hash}
use consensus_go.Gomel.Id.{id}
use consensus_go.Gomel.Preunit.{Preunit, dealing, equal, compute_hash}
use consensus_go.Gomel.Unit.{
  slot, maximal_by_pid, level_from_parents, predecessor, crown_from_parents,
}
use consensus_go.Dag.Slots.{Slotted, get}
use consensus_go.Units.Node.{
  Node, Floors, free_unit, unit_in_dag, no_floors, floor_at, list_parents, list_units, object,
  preunit_of, forking_height, node_unit,
}

-- A floor is stored where it is not just the parent.
abbrev pub differs : List Node → Option Node → Bool
differs [] p = false
differs (m ∷ []) none = true
differs (m ∷ []) (some p) = not (equal (preunit_of m) (preunit_of p))
differs (m ∷ m' ∷ ms) p = true

-- The loop of computeFloor, over `count` processes from `pid` on.
unfoldable pub floors_from : List (Option Node) → ℕ → ℕ → Floors
floors_from parents pid zero = no_floors
floors_from parents pid (suc count) =
    let maximal = maximal_by_pid parents pid in
    let rest = floors_from parents (pid + 1) count in
    if differs maximal (slot parents pid) then floor_at pid (list_units maximal) rest else rest

unfoldable pub compute_floor : Preunit → List (Option Node) → Floors
compute_floor pu parents = if dealing pu then no_floors else floors_from parents 0 (length parents)

-- FromPreunit. `r` is the identity of the new object, and `minimal_quorum` crypto.MinimalQuorum.
unfoldable pub from_preunit : (ℕ → ℕ) → ℕ → Preunit → List (Option Node) → Node
from_preunit minimal_quorum r pu parents =
    free_unit r pu (list_parents parents) (level_from_parents minimal_quorum parents)
      (compute_floor pu parents)

-- New, for a creator that has a parent slot; Go panics on any other. `sign` is the private key's Sign and
-- `shake` is sha3.ShakeSum128; the height is one above the
-- predecessor's in the crown, so it is not negative.
unfoldable pub new_unit :
    (List ℕ → Hash) → (Hash → List ℕ) → ℕ → ℕ → ℕ → List (Option Node) → ℕ → List ℕ → List ℕ → Node
new_unit shake sign r creator epoch parents level payload rs_payload =
    let crown = crown_from_parents shake parents in
    let height = pos_part (inc (get_or crown.heights creator (negsuc 0))) in
    let hash = compute_hash shake (id (pos height) creator epoch) crown payload rs_payload in
    let pu : Preunit = record {
      creator = creator;
      epoch_id = epoch;
      height = height;
      signature = sign hash;
      hash = hash;
      crown = crown;
      payload = payload;
      rs_payload = rs_payload;
    } in
    free_unit r pu (list_parents parents) level (compute_floor pu parents)

abbrev pub max_int32 : ℤ
max_int32 = pos (2 ^ 31 - 1)

unfoldable pub is_among : Node → List Node → Bool
is_among u [] = false
is_among u (v ∷ vs) = let rest = is_among u vs in if object v == object u then true else rest

abbrev pub below_predecessor : List Node → Node → Option ℤ → ℤ
below_predecessor maxes p none = max_int32
below_predecessor maxes p (some fh) =
    if is_among p maxes
    then fh
    else if ltb_ℤ fh (pos (preunit_of p).height)
    then fh
    else pos (preunit_of p).height

abbrev pub inherited : List Node → Option Node → ℤ
inherited maxes none = max_int32
inherited maxes (some p) = below_predecessor maxes p (forking_height p)

-- computeForkingHeight.
unfoldable pub compute_forking_height : Node → Slotted Node → ℤ
compute_forking_height u max_units =
    let maxes = get max_units (preunit_of u).creator in
    if dealing (preunit_of u)
    then (if is_empty maxes then max_int32 else negsuc 0)
    else inherited maxes (predecessor u)

-- Embed.
unfoldable pub embed : ℕ → Node → Slotted Node → Node
embed r u max_units = unit_in_dag r u (compute_forking_height u max_units)
