-- ===== src/Tests/Chains.antt =====
-- A dag of one process, whose units form a chain, for the tests.
use consensus_go.Base.{
  ℕ, zero, suc, ◌-◌, refl, sym, subst, List, [], ◌∷◌, Option, none, some, arith, leb, ◌==◌,
  if◌then◌else◌,
}
use consensus_go.Base.Int.{pos, negsuc}
use consensus_go.Base.Outcome.{Outcome, ok, err, panic}
use consensus_go.Gomel.Preunit.{Preunit, equal}
use consensus_go.Gomel.Hash.{hash_eq}
use consensus_go.Gomel.Unit.{UnitInterface, above, any_above}
use consensus_go.Dag.Slots.{new_slotted}
use consensus_go.Dag.Bag.{get_one, add}
use consensus_go.Dag.Fibers.{find, store, store_new, new_fiber_map, get_fiber, extend_by}
use consensus_go.Dag.Fibers.Growth.{grown, append_unit, add_unit}
use consensus_go.Dag.Store.{Store, new_store, IsCoherent}
use consensus_go.Dag.Adding.{insert_embedded, update_maximal, not_below}
use consensus_go.Dag.Insertion.{IsInsertable, insert_embedded-Inserted, new_store-IsCoherent}

-- The unit of height `u`: its level is its height, and its parent the unit below it.
abbrev pub below : ℕ → List (Option ℕ)
below zero = none ∷ []
below (suc n) = some n ∷ []

abbrev pub link : ℕ → Preunit
link u = record {
  creator = 0;
  epoch_id = 0;
  height = u;
  signature = [];
  hash = u ∷ [];
  crown = record { heights = (if u == 0 then negsuc 0 else pos (u - 1)) ∷ []; control_hash = [] };
  payload = [];
  rs_payload = [];
}

abbrev pub floor_below : ℕ → ℕ → List ℕ
floor_below zero pid = []
floor_below (suc n) pid = if pid == 0 then n ∷ [] else []

instance abbrev pub link_unit : UnitInterface ℕ
link_unit = record {
  preunit = link;
  parents = below;
  level = λ u. u;
  above_within_proc = λ u v. leb v u;
  floor = floor_below;
  same = λ u v. u == v;
}

abbrev pub or_empty : Outcome ℕ (Store ℕ) → Store ℕ
or_empty (ok d) = d
or_empty (err e) = new_store 1 0 3
or_empty panic = new_store 1 0 3

-- The dag of the units below `n`, made by inserting them in turn.
unfoldable pub chain : ℕ → Store ℕ
chain zero = new_store 1 0 3
chain (suc n) = or_empty (insert_embedded n (chain n))

chain-suc-IsCoherent :
    (n : ℕ) → IsCoherent (chain n) → IsInsertable (chain n) n → IsCoherent (chain (suc n))
unfolding chain
chain-suc-IsCoherent n v w =
    let (d', e, after) = insert_embedded-Inserted {E = ℕ} (chain n) n v w in
    subst (λ o. IsCoherent (or_empty o)) (sym e) after.coherent

chain-0-IsInsertable : IsInsertable (chain 0) 0
unfolding chain new_store new_fiber_map store_new store new_slotted insert_embedded add_unit
    extend_by grown append_unit get_fiber find update_maximal not_below above equal any_above
    get_one add hash_eq
chain-0-IsInsertable = record {
  known_creator = omega arith;
  height_near = omega arith;
  level_near = omega arith;
  new_hash = refl;
}

pub chain-1-IsInsertable : IsInsertable (chain 1) 1
unfolding chain new_store new_fiber_map store_new store new_slotted insert_embedded add_unit
    extend_by grown append_unit get_fiber find update_maximal not_below above equal any_above
    get_one add hash_eq
chain-1-IsInsertable = record {
  known_creator = omega arith;
  height_near = omega arith;
  level_near = omega arith;
  new_hash = refl;
}

chain-2-IsInsertable : IsInsertable (chain 2) 2
unfolding chain new_store new_fiber_map store_new store new_slotted insert_embedded add_unit
    extend_by grown append_unit get_fiber find update_maximal not_below above equal any_above
    get_one add hash_eq
chain-2-IsInsertable = record {
  known_creator = omega arith;
  height_near = omega arith;
  level_near = omega arith;
  new_hash = refl;
}

chain-3-IsInsertable : IsInsertable (chain 3) 3
unfolding chain new_store new_fiber_map store_new store new_slotted insert_embedded add_unit
    extend_by grown append_unit get_fiber find update_maximal not_below above equal any_above
    get_one add hash_eq
chain-3-IsInsertable = record {
  known_creator = omega arith;
  height_near = omega arith;
  level_near = omega arith;
  new_hash = refl;
}

chain-0-IsCoherent : IsCoherent (chain 0)
unfolding chain
chain-0-IsCoherent = new_store-IsCoherent 1 0 3

pub chain-1-IsCoherent : IsCoherent (chain 1)
chain-1-IsCoherent = chain-suc-IsCoherent 0 chain-0-IsCoherent chain-0-IsInsertable

pub chain-2-IsCoherent : IsCoherent (chain 2)
chain-2-IsCoherent = chain-suc-IsCoherent 1 chain-1-IsCoherent chain-1-IsInsertable

pub chain-4-IsCoherent : IsCoherent (chain 4)
chain-4-IsCoherent =
    chain-suc-IsCoherent 3 (chain-suc-IsCoherent 2 chain-2-IsCoherent chain-2-IsInsertable)
      chain-3-IsInsertable
