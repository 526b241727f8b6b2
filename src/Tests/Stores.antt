-- ===== src/Tests/Stores.antt =====
-- pkg/dag at concrete inputs.
use consensus_go.Base.{ℕ, ◌≡◌, ◌≢◌, ◌↔◌, refl, [], ◌∷◌, none, some}
use consensus_go.Base.Int.{pos, negsuc}
use consensus_go.Base.Outcome.{ok, panic}
use consensus_go.Gomel.Preunit.{Preunit, equal}
use consensus_go.Gomel.Hash.{hash_eq}
use consensus_go.Gomel.Unit.{above, any_above, predecessor}
use consensus_go.Dag.Slots.{new_slotted}
use consensus_go.Dag.Bag.{get_one, add}
use consensus_go.Dag.Fibers.{
  find, store, store_new, new_fiber_map, get_fiber, extend_by, get_units_at, get_from,
}
use consensus_go.Dag.Fibers.Growth.{grown, append_unit, add_unit}
use consensus_go.Dag.Store.{Store, new_store, get_unit}
use consensus_go.Dag.Adding.{
  insert_embedded, update_maximal, not_below, decode_parents, pick_parents,
}
use consensus_go.Dag.Insertion.{Inserted, insert_embedded-Inserted}
use consensus_go.Dag.Parents.{AreParents, decode_parents_iff, decode_parents-panic_iff}
use consensus_go.Dag.Check.{
  basic_correctness, count_parents, AreByProcess, FollowsPredecessor, basic_correctness_sound,
}
use consensus_go.Tests.Chains.{link, chain, link_unit, chain-1-IsInsertable, chain-1-IsCoherent}

insert_embedded-Inserted_example :
    (d' : Store ℕ) × (insert_embedded {E = ℕ} 1 (chain 1) ≡ ok d') × Inserted (chain 1) 1 d'
insert_embedded-Inserted_example =
    insert_embedded-Inserted (chain 1) 1 chain-1-IsCoherent chain-1-IsInsertable

decode_parents_iff_example : (decode_parents (chain 2) (link 2) ≡ ok (some 1 ∷ [])) ↔ (
    (get_unit (chain 2) (2 ∷ []) ≡ none)
    × (1 ≡ (chain 2).height_units.width)
    × AreParents (chain 2).height_units 0 (pos 1 ∷ []) (some 1 ∷ []))
decode_parents_iff_example = decode_parents_iff (chain 2) (link 2) (some 1 ∷ [])

decoded : decode_parents (chain 2) (link 2) ≡ ok (some 1 ∷ [])
unfolding decode_parents get_units_at get_from pick_parents chain new_store new_fiber_map store_new
    store new_slotted insert_embedded add_unit extend_by grown append_unit get_fiber find
    update_maximal not_below above equal any_above get_one add hash_eq
decoded = refl

-- A preunit of one process too many.
abbrev wide : Preunit
wide = record (link 2) { crown = record { heights = pos 1 ∷ (negsuc 0 ∷ []); control_hash = [] } }

decode_parents-panic_iff_example :
    (decode_parents (chain 2) wide ≡ panic) ↔ (2 ≢ (chain 2).height_units.width)
unfolding chain new_store new_fiber_map store_new store new_slotted insert_embedded add_unit
    extend_by grown append_unit get_fiber find update_maximal not_below above equal any_above
    get_one add hash_eq
decode_parents-panic_iff_example = decode_parents-panic_iff (chain 2) wide refl

basic_correctness_sound_example :
    (1 ≡ (chain 2).n_proc)
    × AreByProcess {U = ℕ} ⦃i = link_unit⦄ 0 (some 1 ∷ [])
    × FollowsPredecessor {U = ℕ} ⦃i = link_unit⦄ 2 (predecessor 2)
unfolding basic_correctness count_parents predecessor chain new_store new_fiber_map store_new store
    new_slotted insert_embedded add_unit extend_by grown append_unit get_fiber find update_maximal
    not_below above equal any_above get_one add hash_eq
basic_correctness_sound_example = basic_correctness_sound 2 (chain 2) refl
