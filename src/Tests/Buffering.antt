-- ===== src/Tests/Buffering.antt =====
-- The adder's theorems on small dags.
use consensus_go.Base.{
  ℕ, zero, suc, ◌≡◌, ◌<◌, ◌⊎◌, inl, refl, All, Bool, true, false, List, [], ◌∷◌, Option, none, some,
  arith, if◌then◌else◌, ◌==◌, map,
}
use consensus_go.Base.Int.{ℤ, pos, negsuc}
use consensus_go.Base.Outcome.{Outcome, ok, err, panic}
use consensus_go.Gomel.Hash.{hash_eq, combine_hashes, joined_hashes}
use consensus_go.Gomel.Id.{id}
use consensus_go.Gomel.Preunit.{Preunit, unit_id, equal}
use consensus_go.Dag.Slots.{new_slotted}
use consensus_go.Dag.Bag.{get_one, add}
use consensus_go.Dag.Fibers.{
  new_fiber_map, store, store_new, find, get_fiber, get_from, get_units_at, extend_by,
}
use consensus_go.Dag.Fibers.Growth.{add_unit, append_unit, grown}
use consensus_go.Gomel.Unit.{above, any_above, to_hashes}
use consensus_go.Dag.Store.{Store, new_store}
use consensus_go.Dag.Adding.{
  AddError, decode_parents, pick_parents, run_checks, not_below, update_maximal, insert_embedded,
}
use consensus_go.Adder.State.{WaitingPreunit, AddingError, Adder, AdderServices}
use consensus_go.Adder.Waiting.{
  add_preunits, add_all, check_correctness, add_to_waiting, check_parents, check_if_missing,
  register_missing, fetch_from, request_ids, found_parent, send_if_ready,
}
use consensus_go.Adder.Ready.{remove_failed, mark_failed, try_adding, notify, remove, handle_ready}
use consensus_go.Adder.Removal.{Has, Descends, IsGone, remove_failed_endless, remove_failed_returns}
use consensus_go.Adder.Counting.{needs}
use consensus_go.Adder.Steps.{new_adder, start, step, adds, Reach-missing_parents}
use consensus_go.Adder.Insertion.{IsInserted, handle_ready-IsInserted, handle_ready_ambiguous}
use consensus_go.Tests.Briefs.{Brief, brief, brief_unit}

abbrev store_or_empty : Outcome (AddError Brief) (Store Brief) → Store Brief
store_or_empty (ok d) = d
store_or_empty (err e) = new_store 1 0 3
store_or_empty panic = new_store 1 0 3

-- A preunit of epoch 0 with the heights of its parents.
abbrev named : ℕ → ℕ → List ℤ → Preunit
named author height heights = record {
  creator = author;
  epoch_id = 0;
  height = height;
  signature = [];
  hash = author ∷ height ∷ [];
  crown = record { heights = heights; control_hash = [] };
  payload = [];
  rs_payload = [];
}

abbrev easy : AdderServices Brief ℕ
easy = record {
  fetch_interval = 5;
  gossip_above = 50;
  shake = λ bs. [];
  verify_signature = λ pu. true;
  build_unit = λ pu ps. brief pu.creator pu.epoch_id pu.height;
  checks = [];
  embed = λ u maxes. u;
  disambiguate = λ us pu. (none, none);
  resolve = λ e pu source. e;
}

abbrev waiting_for : Preunit → List ℕ → WaitingPreunit
waiting_for pu children = record {
  pu = pu;
  id = 0;
  source = 0;
  missing_parents = pos 0;
  waiting_parents = pos 0;
  children = children;
  failed = false;
}

abbrev unused : WaitingPreunit
unused = waiting_for (named 0 0 []) []

abbrev with_objects : Store Brief → (ℕ → WaitingPreunit) → Adder Brief
with_objects d objects = record (new_adder easy d unused) { objects = objects; allocated = 2 }

-- Two preunits of different processes that each name the other as a parent.
abbrev circle : Adder Brief
circle = with_objects (new_store 2 0 3) (λ r.
    if r == 0
    then waiting_for (named 0 5 (pos 4 ∷ pos 7 ∷ [])) (1 ∷ [])
    else waiting_for (named 1 7 (pos 5 ∷ pos 6 ∷ [])) (0 ∷ []))

circle-Has : (r : ℕ) → r < 2 → Has (λ q. q < 2) (circle.objects r).children
circle-Has zero h = inl (omega arith)
circle-Has (suc zero) h = inl (omega arith)
circle-Has (suc (suc r)) h = absurd (omega arith)

remove_failed_endless_example : remove_failed 9 0 circle ≡ none
remove_failed_endless_example =
    remove_failed_endless (λ q. q < 2) circle 9 0 circle-Has (omega arith)

-- A preunit and its child.
abbrev line_objects : ℕ → WaitingPreunit
line_objects zero = waiting_for (named 0 0 (negsuc 0 ∷ [])) (1 ∷ [])
line_objects (suc r) = unused

abbrev line : Adder Brief
line = with_objects (new_store 1 0 3) line_objects

abbrev rank : ℕ → ℕ
rank zero = 1
rank (suc r) = 0

remove_failed_returns_example :
    (s' : Adder Brief) × (remove_failed 2 0 line ≡ some s')
    × (s'.objects ≡ line.objects)
    × ((q : ℕ) → Descends line.objects 0 q → IsGone (line.objects q) s')
remove_failed_returns_example = remove_failed_returns rank line 2 0 lower (omega arith)
  where
    lower : (q : ℕ) → All (λ c. rank c < rank q) (line.objects q).children
    lower zero = (omega arith, tt)
    lower (suc q) = tt

abbrev empty_adder : Adder Brief
empty_adder = new_adder easy (new_store 2 0 3) unused

-- The value of a call that returns.
abbrev pub is_ok : {F A : Type 0} → Outcome F A → Bool
is_ok (ok a) = true
is_ok (err e) = false
is_ok panic = false

abbrev pub value_or : {F A : Type 0} → A → Outcome F A → A
value_or d (ok a) = a
value_or d (err e) = d
value_or d panic = d

pub is_ok-value_or :
    {F A : Type 0} (d : A) (m : Outcome F A) → is_ok m ≡ true → m ≡ ok (value_or d m)
is_ok-value_or d (ok a) e = refl
is_ok-value_or d (err f) e = absurd (ground (arith, e))
is_ok-value_or d panic e = absurd (ground (arith, e))

abbrev adder_or : Adder Brief → Option (Adder Brief) → Adder Brief
adder_or d none = d
adder_or d (some s) = s

abbrev is_done : {F : Type 0} → Outcome F (Option (Adder Brief)) → Bool
is_done (ok (some s)) = true
is_done (ok none) = false
is_done (err e) = false
is_done panic = false

is_done-adder_or :
    {F : Type 0} (d : Adder Brief) (m : Outcome F (Option (Adder Brief)))
    → is_done m ≡ true
    → m ≡ ok (some (adder_or d (value_or none m)))
is_done-adder_or d (ok (some s)) e = refl
is_done-adder_or d (ok none) e = absurd (ground (arith, e))
is_done-adder_or d (err f) e = absurd (ground (arith, e))
is_done-adder_or d panic e = absurd (ground (arith, e))

abbrev circle_preunits : List Preunit
circle_preunits = named 0 5 (pos 4 ∷ pos 7 ∷ []) ∷ named 1 7 (pos 5 ∷ pos 6 ∷ []) ∷ []

-- The two preunits of the circle are taken in by AddPreunits.
abbrev taking_in : List (Option (AddingError Brief)) × Adder Brief
taking_in = value_or ([], empty_adder) (add_preunits easy 9 0 circle_preunits empty_adder)

abbrev taken_in : Adder Brief
taken_in = taking_in.1

taken_in-circle : map (λ r. (taken_in.objects r).children) (0 ∷ 1 ∷ []) ≡ (1 ∷ []) ∷ (0 ∷ []) ∷ []
unfolding add_preunits add_all get_one new_store check_correctness add_to_waiting check_parents
    new_slotted check_if_missing unit_id id register_missing fetch_from request_ids add hash_eq
    found_parent send_if_ready new_fiber_map store store_new
taken_in-circle = refl

circle_accepted : is_ok (add_preunits easy 9 0 circle_preunits empty_adder) ≡ true
unfolding add_preunits add_all get_one new_store check_correctness add_to_waiting check_parents
    new_slotted check_if_missing unit_id id register_missing fetch_from request_ids add hash_eq
    found_parent send_if_ready new_fiber_map store store_new
circle_accepted = refl

two_exist : 1 < taken_in.allocated
unfolding add_preunits add_all get_one new_store check_correctness add_to_waiting check_parents
    new_slotted check_if_missing unit_id id register_missing fetch_from request_ids add hash_eq
    found_parent send_if_ready new_fiber_map store store_new
two_exist = omega arith

Reach-missing_parents_example :
    (taken_in.objects 1).missing_parents ≡ pos (needs 1 taken_in.missing)
Reach-missing_parents_example =
    Reach-missing_parents easy {d = new_store 2 0 3} {unused = unused}
      (step start
        (adds 9 0 circle_preunits taking_in.0 (is_ok-value_or ([], empty_adder) _ circle_accepted)))
      1 two_exist

-- A dealing preunit, ready for its worker.
abbrev ready_adder : Adder Brief
ready_adder = with_objects (new_store 1 0 3) (λ r. waiting_for (named 0 0 (negsuc 0 ∷ [])) [])

abbrev finished_adder : Adder Brief
finished_adder = adder_or ready_adder (value_or none (handle_ready easy 2 0 ready_adder))

worker_returns : is_done (handle_ready easy 2 0 ready_adder) ≡ true
unfolding handle_ready try_adding decode_parents get_one new_store get_units_at new_fiber_map
    get_from pick_parents hash_eq combine_hashes run_checks insert_embedded add_unit append_unit
    get_fiber find notify remove remove_failed send_if_ready not_below update_maximal add grown
    extend_by store store_new new_slotted joined_hashes equal above any_above to_hashes
worker_returns = refl

handle_ready-IsInserted_example :
    (finished_adder.dag ≡ ready_adder.dag) ⊎ IsInserted easy 0 ready_adder finished_adder.dag
handle_ready-IsInserted_example =
    handle_ready-IsInserted easy 2 0 ready_adder finished_adder
      (is_done-adder_or ready_adder _ worker_returns)

-- A dag with two dealing units of one process, and a preunit above either.
abbrev forked_adder : Adder Brief
forked_adder =
    with_objects
      (store_or_empty (
        insert_embedded {E = AddError Brief} (brief 0 1 0)
          (store_or_empty (insert_embedded {E = AddError Brief} (brief 0 0 0) (new_store 1 0 3)))))
      (λ r. waiting_for (named 0 1 (pos 0 ∷ [])) [])

handle_ready_ambiguous_example :
    (handle_ready easy 2 0 forked_adder ≡ ok (remove_failed 2 0 (mark_failed easy 0 forked_adder)))
    × ((s' : Adder Brief)
        → handle_ready easy 2 0 forked_adder ≡ ok (some s')
        → s'.dag ≡ forked_adder.dag)
unfolding decode_parents get_one new_store get_units_at new_fiber_map get_from pick_parents hash_eq
    combine_hashes insert_embedded add_unit append_unit get_fiber find not_below update_maximal add
    grown extend_by store store_new new_slotted joined_hashes equal above any_above to_hashes
handle_ready_ambiguous_example =
    handle_ready_ambiguous easy 2 0 forked_adder ((brief 0 0 0 ∷ brief 0 1 0 ∷ []) ∷ []) refl
