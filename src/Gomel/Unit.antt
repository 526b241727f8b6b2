-- ===== src/Gomel/Unit.antt =====
-- pkg/gomel/unit.go and crown.go: the Unit interface and the functions that are written against it.
use consensus_go.Base.{
  ℕ, zero, suc, ◌+◌, ◌%◌, ◌^◌, Bool, true, false, List, [], ◌∷◌, ◌++◌, map, Option, none, some,
  ◌==◌, ltb, leb, if◌then◌else◌, length, set,
}
use consensus_go.Base.Int.{ℤ, pos, negsuc}
use consensus_go.Gomel.Hash.{Hash, combine_hashes, zero_hash}
use consensus_go.Gomel.Preunit.{Preunit, Crown, equal}

-- The methods of gomel.Unit. `preunit` gathers those of the embedded Preunit, and `same` is Go's
-- `==` on two interface values (identity of the objects).
pub record UnitInterface (U : Type 0) : Type 0 where
  pub preunit : U → Preunit
  pub parents : U → List (Option U)
  pub level : U → ℕ
  pub above_within_proc : U → U → Bool
  pub floor : U → ℕ → List U
  pub same : U → U → Bool

-- A slice of units read out of range panics; its callers stay in range, and `none` is also nil.
abbrev pub slot {ℓ} : {A : Type ℓ} → List (Option A) → ℕ → Option A
slot [] i = none
slot (p ∷ ps) zero = p
slot (p ∷ ps) (suc i) = slot ps i

module _ {U : Type 0} ⦃i : UnitInterface U⦄ where
  abbrev pub height : U → ℕ
  height u = (i.preunit u).height

  abbrev pub creator : U → ℕ
  creator u = (i.preunit u).creator

  abbrev pub epoch_id : U → ℕ
  epoch_id u = (i.preunit u).epoch_id

  abbrev pub hash : U → Hash
  hash u = (i.preunit u).hash

  -- The loop of Above over the floor.
  unfoldable pub any_above : List U → U → Bool
  any_above [] v = false
  any_above (w ∷ ws) v = let rest = any_above ws v in if i.above_within_proc w v then true else rest

  unfoldable pub above : Option U → Option U → Bool
  above none v = false
  above (some u) none = false
  above (some u) (some v) =
      if equal (i.preunit u) (i.preunit v) then true else any_above (i.floor u (creator v)) v

  -- The loop of LevelFromParents: the highest level so far, and how many parents are on it.
  unfoldable pub count_level : List (Option U) → ℕ → ℕ → ℕ × ℕ
  count_level [] level on_level = (level, on_level)
  count_level (none ∷ ps) level on_level = count_level ps level on_level
  count_level (some p ∷ ps) level on_level =
      count_level ps (if ltb level (i.level p) then i.level p else level) (
        if i.level p == level
        then (on_level + 1) % 2 ^ 16
        else if ltb level (i.level p)
        then 1
        else on_level)

  -- `minimal_quorum` is crypto.MinimalQuorum.
  unfoldable pub level_from_parents : (ℕ → ℕ) → List (Option U) → ℕ
  level_from_parents minimal_quorum parents =
      let (level, on_level) = count_level parents 0 0 in
      if leb (minimal_quorum (length parents % 2 ^ 16)) on_level then level + 1 else level

  -- The inner loop of MaximalByPid, over `maximal` from the index `ix` on: whether `w` is found to be
  -- comparable, and the index that it replaces.
  unfoldable pub find_comparable : U → List U → ℕ → Bool × Option ℕ
  find_comparable w [] ix = (false, none)
  find_comparable w (v ∷ vs) ix =
      let rest = find_comparable w vs (ix + 1) in
      if above (some w) (some v)
      then (true, some ix)
      else if above (some v) (some w)
      then (true, none)
      else rest

  abbrev pub place : U → List U → Bool × Option ℕ → List U
  place w maximal (false, ri) = maximal ++ (w ∷ [])
  place w maximal (true, none) = maximal
  place w maximal (true, some ix) = set maximal ix w

  unfoldable pub merge_floor : List U → List U → List U
  merge_floor [] maximal = maximal
  merge_floor (w ∷ ws) maximal = merge_floor ws (place w maximal (find_comparable w maximal 0))

  unfoldable pub merge_parents : List (Option U) → ℕ → List U → List U
  merge_parents [] pid maximal = maximal
  merge_parents (none ∷ ps) pid maximal = merge_parents ps pid maximal
  merge_parents (some p ∷ ps) pid maximal =
      merge_parents ps pid (merge_floor (i.floor p pid) maximal)

  abbrev pub maximal_from : Option U → List (Option U) → ℕ → List U
  maximal_from none parents pid = []
  maximal_from (some p) parents pid = merge_parents parents pid (p ∷ [])

  unfoldable pub maximal_by_pid : List (Option U) → ℕ → List U
  maximal_by_pid parents pid = maximal_from (slot parents pid) parents pid

  unfoldable pub predecessor : U → Option U
  predecessor u = slot (i.parents u) (creator u)

  unfoldable pub below_any : U → List (Option U) → Bool
  below_any u [] = false
  below_any u (v ∷ vs) = let rest = below_any u vs in if above v (some u) then true else rest

  abbrev pub to_hash : Option U → Option Hash
  to_hash none = none
  to_hash (some u) = some (hash u)

  unfoldable pub to_hashes : List (Option U) → List (Option Hash)
  to_hashes = map to_hash

  abbrev pub crown_height : Option U → ℤ
  crown_height none = negsuc 0
  crown_height (some u) = pos (height u)

  abbrev pub crown_hash : Option U → Option Hash
  crown_hash none = some zero_hash
  crown_hash (some u) = some (hash u)

  unfoldable pub crown_from_parents : (List ℕ → Hash) → List (Option U) → Crown
  crown_from_parents shake parents = record {
    heights = map crown_height parents;
    control_hash = combine_hashes shake (map crown_hash parents);
  }
