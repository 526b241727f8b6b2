-- ===== src/Units/Node.antt =====
-- pkg/unit/free_unit.go and unit_in_dag.go: units as trees, and the methods of gomel.Unit on them.
use consensus_go.Base.{
  ℕ, zero, suc, Bool, true, false, not, List, [], ◌∷◌, Option, none, some, ltb, ◌==◌, if◌then◌else◌,
}
use consensus_go.Base.Int.{ℤ, pos, ltb_ℤ}
use consensus_go.Gomel.Hash.{Hash, hash_eq}
use consensus_go.Gomel.Preunit.{Preunit}
use consensus_go.Gomel.Unit.{UnitInterface}

-- The first argument of a node is the identity of its object. A free unit has a preunit, parents, a level
-- and the floors that differ from its parents; a unit in a dag wraps a unit and has a forking height.
mutual
  pub data Node : Type 0 where
    free_unit : ℕ → Preunit → Parents → ℕ → Floors → Node
    unit_in_dag : ℕ → Node → ℤ → Node

  pub data Parents : Type 0 where
    no_parents : Parents
    nil_parent : Parents → Parents
    parent : Node → Parents → Parents

  pub data Floors : Type 0 where
    no_floors : Floors
    floor_at : ℕ → Parents → Floors → Floors

unfoldable pub parents_list : Parents → List (Option Node)
parents_list no_parents = []
parents_list (nil_parent ps) = none ∷ parents_list ps
parents_list (parent u ps) = some u ∷ parents_list ps

unfoldable pub list_parents : List (Option Node) → Parents
list_parents [] = no_parents
list_parents (none ∷ ps) = nil_parent (list_parents ps)
list_parents (some u ∷ ps) = parent u (list_parents ps)

unfoldable pub units_list : Parents → List Node
units_list no_parents = []
units_list (nil_parent ps) = units_list ps
units_list (parent u ps) = u ∷ units_list ps

unfoldable pub list_units : List Node → Parents
list_units [] = no_parents
list_units (u ∷ us) = parent u (list_units us)

unfoldable pub object : Node → ℕ
object (free_unit r pu ps l fl) = r
object (unit_in_dag r u fh) = r

unfoldable pub preunit_of : Node → Preunit
preunit_of (free_unit r pu ps l fl) = pu
preunit_of (unit_in_dag r u fh) = preunit_of u

unfoldable pub parents_of : Node → Parents
parents_of (free_unit r pu ps l fl) = ps
parents_of (unit_in_dag r u fh) = parents_of u

unfoldable pub level_of : Node → ℕ
level_of (free_unit r pu ps l fl) = l
level_of (unit_in_dag r u fh) = level_of u

-- Floor: the stored floor of the process, or the parent itself.
unfoldable pub parent_floor : Parents → ℕ → List Node
parent_floor no_parents pid = []
parent_floor (nil_parent ps) zero = []
parent_floor (parent u ps) zero = u ∷ []
parent_floor (nil_parent ps) (suc pid) = parent_floor ps pid
parent_floor (parent u ps) (suc pid) = parent_floor ps pid

unfoldable pub find_floor : Floors → Parents → ℕ → List Node
find_floor no_floors ps pid = parent_floor ps pid
find_floor (floor_at k us fl) ps pid =
    let rest = find_floor fl ps pid in if k == pid then units_list us else rest

unfoldable pub floor_of : Node → ℕ → List Node
floor_of (free_unit r pu ps l fl) pid = find_floor fl ps pid
floor_of (unit_in_dag r u fh) pid = floor_of u pid

-- The loop of AboveWithinProc: the hash of the first unit down the predecessors that is not higher than
-- `h`, if there is one.
unfoldable mutual
  pub walk : Node → ℕ → Option Hash
  walk (free_unit r pu ps l fl) h =
      let below = walk_parents ps pu.creator h in if ltb h pu.height then below else some pu.hash
  walk (unit_in_dag r u fh) h = walk u h

  pub walk_parents : Parents → ℕ → ℕ → Option Hash
  walk_parents no_parents pid h = none
  walk_parents (nil_parent ps) zero h = none
  walk_parents (nil_parent ps) (suc pid) h = walk_parents ps pid h
  walk_parents (parent u ps) zero h = walk u h
  walk_parents (parent u ps) (suc pid) h = walk_parents ps pid h

abbrev pub is_hash : Option Hash → Hash → Bool
is_hash none h = false
is_hash (some k) h = hash_eq k h

-- AboveWithinProc of a free unit.
unfoldable pub free_above : Node → Preunit → Bool
free_above u v =
    if (preunit_of u).creator == v.creator then is_hash (walk u v.height) v.hash else false

-- The forking height of a unit in a dag; a free unit has none.
abbrev pub forking_height : Node → Option ℤ
forking_height (free_unit r pu ps l fl) = none
forking_height (unit_in_dag r u fh) = some fh

unfoldable pub common_forking_height : ℤ → ℤ → ℤ
common_forking_height a b = if ltb_ℤ a b then a else b

abbrev pub not_above_fork : ℤ → Option ℤ → ℕ → Bool
not_above_fork fh none h = false
not_above_fork fh (some fh') h = not (ltb_ℤ (common_forking_height fh fh') (pos h))

unfoldable pub above_within_proc : Node → Node → Bool
above_within_proc (free_unit r pu ps l fl) v = free_above (free_unit r pu ps l fl) (preunit_of v)
above_within_proc (unit_in_dag r u fh) v =
    let rest = above_within_proc u v in
    if ltb (preunit_of u).height (preunit_of v).height
    then false
    else if (preunit_of u).creator == (preunit_of v).creator
    then (if not_above_fork fh (forking_height v) (preunit_of v).height then true else rest)
    else false

instance abbrev pub node_unit : UnitInterface Node
node_unit = record {
  preunit = preunit_of;
  parents = λ u. parents_list (parents_of u);
  level = level_of;
  above_within_proc = above_within_proc;
  floor = floor_of;
  same = λ u v. object u == object v;
}
