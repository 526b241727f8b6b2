-- ===== src/Tests/Epochs.antt =====
-- The orderer's theorems, with lists of units as dags.
use consensus_go.Base.{
  Bool, ℕ, ◌≡◌, refl, true, false, List, [], ◌∷◌, Option, none, some, arith, if◌then◌else◌, take,
}
use consensus_go.Base.Int.{ℤ}
use consensus_go.Base.Outcome.{Outcome, ok}
use consensus_go.Gomel.Hash.{Hash, hash_eq}
use consensus_go.Gomel.Preunit.{Preunit}
use consensus_go.Gomel.Unit.{hash}
use consensus_go.Orderer.State.{EpochInterface, Epoch, Orderer}
use consensus_go.Orderer.Operations.{insert, units_by_id}
use consensus_go.Orderer.Timing.{Timing, handle_timing_rounds}
use consensus_go.Orderer.Rounds.{handle_timing_rounds_in_order, handle_timing_rounds_disorder}
use consensus_go.Orderer.Lookup.{holding, IsStored, insert-units_by_hash}
use consensus_go.Orderer.Dags.{dag_parts, dag_parts-Holds}
use consensus_go.Creator.Proofs.{ProofError, epoch_proof}
use consensus_go.Dag.Store.{Store, new_store}
use consensus_go.Dag.Adding.{AddError, insert_embedded}
use consensus_go.Units.Node.{Node, free_unit, no_parents, no_floors, node_unit}
use consensus_go.Units.Build.{embed}
use consensus_go.Tests.Sharing.{number_key}
use consensus_go.Tests.Buffering.{value_or, is_ok-value_or}
use consensus_go.Tests.Briefs.{Brief, brief, brief_preunit, brief_unit}

abbrev find_unit : List Brief → Hash → Option Brief
find_unit [] h = none
find_unit (u ∷ us) h = if hash_eq (hash u) h then some u else find_unit us h

abbrev units_over : List Brief → Option (List ℤ) → Outcome ProofError (List Brief)
units_over us none = ok us
units_over us (some hs) = ok (take 1 us)

abbrev list_parts : EpochInterface Brief ProofError (List Brief)
list_parts = record {
  create = λ epoch. [];
  add_to_adder = λ source pus us. ok (us, []);
  insert_unit = λ u us. ok (u ∷ us);
  unit_by_hash = find_unit;
  units_by_id = λ us id. [];
  units_over = units_over;
  maximal = λ us. us ∷ [];
  data_to_include = λ us ps level. ok [];
}

abbrev epoch_of : ℕ → List Brief → Epoch (List Brief)
epoch_of id us = record { id = id; parts = us; more_closed = false }

abbrev insert_once : Orderer (List Brief)
insert_once = holding (epoch_of 0 (brief 0 0 0 ∷ [])) none []

-- creator.EpochProof with a key.
abbrev proof_of : Preunit → Outcome ProofError Bool
proof_of pu = epoch_proof number_key pu true

abbrev waiting : Timing Brief (List Brief)
waiting = record {
  orderer = insert_once;
  current_epoch = 0;
  last_timing = [];
  preblocks = [];
  ticking = true;
}

abbrev round_of : ℕ → ℕ → List Brief
round_of epoch level = brief 1 epoch level ∷ brief 0 epoch level ∷ []

handle_timing_rounds_in_order_example :
    (t' : Timing Brief (List Brief)) × (handle_timing_rounds list_parts 9 2
        (round_of 0 3 ∷ round_of 1 2 ∷ [])
        waiting
      ≡ ok t')
    × (t'.preblocks ≡ round_of 0 3 ∷ round_of 1 2 ∷ [])
    × (t'.orderer ≡ insert_once)
    × (t'.last_timing ≡ [])
    × (t'.ticking ≡ true)
handle_timing_rounds_in_order_example =
    handle_timing_rounds_in_order list_parts 9 2 (round_of 0 3 ∷ round_of 1 2 ∷ []) waiting (
      0,
      omega arith,
      (brief 0 0 3, refl, refl, omega arith),
      (1, omega arith, (brief 0 1 2, refl, refl, omega arith), tt),
    )

handle_timing_rounds_disorder_example :
    (t' : Timing Brief (List Brief)) × (handle_timing_rounds list_parts 9 2
        (round_of 1 2 ∷ round_of 0 3 ∷ round_of 0 4 ∷ [])
        waiting
      ≡ ok t')
    × (t'.preblocks ≡ round_of 1 2 ∷ round_of 0 4 ∷ [])
handle_timing_rounds_disorder_example =
    handle_timing_rounds_disorder list_parts 9 2 (round_of 1 2) (round_of 0 3) (round_of 0 4) 0 1
      waiting (omega arith) (omega arith) (brief 0 1 2, refl, refl, omega arith)
      (brief 0 0 3, refl, refl, omega arith) (brief 0 0 4, refl, refl, omega arith)

-- An epoch with the dag of pkg/dag, and no hooks.
abbrev node_parts : EpochInterface Node (AddError Node) (Store Node × ℕ)
node_parts = dag_parts 2 3 [] [] 0 (λ source pus d. ok (d, [])) (λ d ps level. ok [])

abbrev node_epoch : ℕ → Epoch (Store Node × ℕ)
node_epoch id = record { id = id; parts = (new_store 2 id 3, 0); more_closed = false }

abbrev dealing_node : Node
dealing_node = free_unit 7 (brief_preunit (brief 0 2 0)) no_parents 0 no_floors

abbrev dag_after : Store Node × ℕ
dag_after = value_or (new_store 2 2 3, 0) (node_parts.insert_unit dealing_node (new_store 2 2 3, 0))

taken_in : node_parts.insert_unit dealing_node (new_store 2 2 3, 0) ≡ ok dag_after
unfolding consensus_go.Dag.Adding.insert insert_embedded embed new_store
    consensus_go.Dag.Fibers.new_fiber_map consensus_go.Dag.Fibers.store_new
    consensus_go.Dag.Fibers.store consensus_go.Dag.Slots.new_slotted
    consensus_go.Dag.Fibers.Growth.add_unit consensus_go.Dag.Fibers.extend_by
    consensus_go.Dag.Fibers.Growth.grown consensus_go.Dag.Fibers.Growth.append_unit
    consensus_go.Dag.Fibers.get_fiber consensus_go.Dag.Fibers.find
    consensus_go.Units.Node.preunit_of consensus_go.Units.Node.level_of
taken_in =
    is_ok-value_or (new_store 2 2 3, 0) (node_parts.insert_unit dealing_node (new_store 2 2 3, 0))
      refl

insert-units_by_hash_example :
    IsStored node_parts 0 dealing_node (holding (node_epoch 2) (some (node_epoch 1)) [])
unfolding consensus_go.Units.Node.preunit_of
insert-units_by_hash_example =
    (insert-units_by_hash node_parts 0
        (dag_parts-Holds 2 3 [] [] 0 (λ source pus d. ok (d, [])) (λ d ps level. ok []))
        dealing_node (node_epoch 2) (node_epoch 1) [] dag_after (omega arith)).1
      refl refl taken_in
