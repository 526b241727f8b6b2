-- ===== src/Adder/Waiting.antt =====
-- pkg/adder/adder.go, waiting_preunit.go and missing_preunit.go: from AddPreunits to a ready preunit.
use consensus_go.Base.{
  ℕ, zero, suc, ◌+◌, ◌-◌, Bool, true, false, not, ◌&&◌, List, [], ◌∷◌, ◌++◌, map, Option, none,
  some, ltb, leb, ◌==◌, if◌then◌else◌, length,
}
use consensus_go.Base.Int.{ℤ, pos, negsuc, ltb_ℤ, eq_ℤ, inc, dec}
use consensus_go.Base.Outcome.{Outcome, ok, panic, ◌>>=◌}
use consensus_go.Gomel.Id.{id}
use consensus_go.Gomel.Preunit.{Preunit, unit_id}
use consensus_go.Gomel.Unit.{UnitInterface}
use consensus_go.Dag.Bag.{get_one, add}
use consensus_go.Dag.Store.{Store, get_unit}
use consensus_go.Dag.View.{max_heights}
use consensus_go.Adder.Maps.{lookup, insert, erase}
use consensus_go.Adder.State.{
  MissingPreunit, gossip, fetch, AddingError, duplicate_unit, duplicate_preunit, unknown_parents,
  invalid_creator, invalid_epoch, invalid_signature, Adder, AdderServices, change,
}

abbrev pub needed_by_or_none : Option MissingPreunit → List ℕ
needed_by_or_none none = []
needed_by_or_none (some mp) = mp.needed_by

abbrev pub requested_at : Option MissingPreunit → Option ℕ
requested_at none = none
requested_at (some mp) = mp.requested

-- The heights from `h` down to the one above `m`.
abbrev pub heights_down : ℕ → ℤ → List ℕ
heights_down zero m = if ltb_ℤ m (pos 0) then 0 ∷ [] else []
heights_down (suc h) m = if ltb_ℤ m (pos (suc h)) then suc h ∷ heights_down h m else []

abbrev pub heights_between : ℤ → ℤ → List ℕ
heights_between (negsuc h) m = []
heights_between (pos h) m = heights_down h m

abbrev pub is_due : ℕ → ℕ → Option ℕ → Bool
is_due now interval none = true
is_due now interval (some t) = ltb interval (now - t)

abbrev pub request_at : ℕ → ℕ → Option MissingPreunit → MissingPreunit
request_at now interval mp = record {
  needed_by = needed_by_or_none mp;
  requested = if is_due now interval (requested_at mp) then some now else requested_at mp;
}

-- Whether a map has an entry.
abbrev pub is_some : {A : Type 0} → Option A → Bool
is_some none = false
is_some (some a) = true

module _ {U : Type 0} where
  unfoldable pub register_missing : ℕ → ℕ → Adder U → Adder U
  register_missing id r s = record s {
    missing =
        insert id
          (record {
            needed_by = needed_by_or_none (lookup id s.missing) ++ (r ∷ []);
            requested = requested_at (lookup id s.missing);
          })
          s.missing;
  }

  -- A parent above the dag: it is waiting, or it is missing.
  abbrev pub wait_for : ℕ → ℕ → Option ℕ → Adder U → Adder U
  wait_for id r none s =
      register_missing id r
        (change r (λ wp. record wp { missing_parents = inc wp.missing_parents }) s)
  wait_for id r (some par) s =
      change par (λ wp. record wp { children = wp.children ++ (r ∷ []) })
        (change r (λ wp. record wp { waiting_parents = inc wp.waiting_parents }) s)

  abbrev pub check_parent : ℕ → ℕ → Bool → Adder U → Adder U
  check_parent id r above s = if above then wait_for id r (lookup id s.waiting_by_id) s else s

  -- The loop of checkParents; reading a height of a process that the dag does not have is a panic.
  unfoldable pub check_parents :
      {E : Type 0} → ℕ → ℕ → List ℤ → List ℤ → ℕ → Adder U → Outcome E (Adder U)
  check_parents epoch r [] maxes creator s = ok s
  check_parents epoch r (h ∷ hs) [] creator s = panic
  check_parents epoch r (h ∷ hs) (m ∷ ms) creator s =
      check_parents epoch r hs ms (creator + 1) (check_parent (id h creator epoch) r (ltb_ℤ m h) s)

  -- The loop of checkIfMissing over the children.
  unfoldable pub found_parent : List ℕ → Adder U → Adder U
  found_parent [] s = s
  found_parent (c ∷ cs) s = found_parent cs (
      change c
        (λ wp. record wp {
          missing_parents = dec wp.missing_parents;
          waiting_parents = inc wp.waiting_parents;
        })
        s)

  abbrev pub take_missing : ℕ → ℕ → Option MissingPreunit → Adder U → Adder U
  take_missing id r none s = change r (λ wp. record wp { children = [] }) s
  take_missing id r (some mp) s =
      let t =
        found_parent mp.needed_by (change r (λ wp. record wp { children = mp.needed_by }) s) in
      record t { missing = erase id t.missing }

  unfoldable pub check_if_missing : ℕ → ℕ → Adder U → Adder U
  check_if_missing id r s = take_missing id r (lookup id s.missing) s

  -- sendIfReady
  unfoldable pub send_if_ready : ℕ → Adder U → Adder U
  send_if_ready r s =
      if eq_ℤ (s.objects r).waiting_parents (pos 0) && eq_ℤ (s.objects r).missing_parents (pos 0)
      then (if s.finished then s else record s { ready = s.ready ++ (r ∷ []) })
      else s

  -- The inner loop of fetchMissing: the missing preunits and what is to be requested.
  unfoldable pub request_ids : ℕ → ℕ → List ℕ → Adder U → List ℕ → Adder U × List ℕ
  request_ids now interval [] s to_request = (s, to_request)
  request_ids now interval (n ∷ ns) s to_request =
      let mp = lookup n s.missing in
      let waits = is_some (lookup n s.waiting_by_id) in
      request_ids now interval ns
        (if waits
          then s
          else record s { missing = insert n (request_at now interval mp) s.missing })
        (if waits
          then to_request
          else if is_due now interval (requested_at mp)
          then to_request ++ (n ∷ [])
          else to_request)

  abbrev pub request_some : ℕ → List ℕ → Adder U → Adder U
  request_some source [] s = s
  request_some source (id ∷ ids) s = record s { requests = fetch source (id ∷ ids) ∷ s.requests }

  -- The outer loop, which ends early with a request for gossip.
  unfoldable pub fetch_from :
      {E : Type 0}
      → AdderServices U E
      → ℕ
      → ℕ
      → ℕ
      → List ℤ
      → List ℤ
      → ℕ
      → Adder U × List ℕ
      → Outcome (AddingError U) (Adder U)
  fetch_from sv now epoch source [] maxes creator (s, to_request) =
      ok (request_some source to_request s)
  fetch_from sv now epoch source (h ∷ hs) [] creator (s, to_request) = panic
  fetch_from sv now epoch source (h ∷ hs) (m ∷ ms) creator (s, to_request) =
      let r =
        request_ids now sv.fetch_interval
          (map (λ k. id (pos k) creator epoch) (heights_between h m)) s to_request in
      let rest = fetch_from sv now epoch source hs ms (creator + 1) r in
      if ltb sv.gossip_above (length r.1)
      then ok (record r.0 { requests = gossip source ∷ r.0.requests })
      else rest

  -- A fork is reported with the preunit that waits under the same id.
  abbrev pub report_fork : Preunit → Option ℕ → Adder U → Adder U
  report_fork pu none s = s
  report_fork pu (some r) s = record s { forks = (pu, (s.objects r).pu) ∷ s.forks }

  -- The new object, in both maps.
  abbrev pub new_waiting : Preunit → ℕ → Adder U → Adder U
  new_waiting pu source s = record s {
    objects = λ q.
        if q == s.allocated
        then record {
          pu = pu;
          id = unit_id pu;
          source = source;
          missing_parents = pos 0;
          waiting_parents = pos 0;
          children = [];
          failed = false;
        }
        else s.objects q;
    allocated = s.allocated + 1;
    waiting = add s.waiting pu.hash s.allocated;
    waiting_by_id = insert (unit_id pu) s.allocated s.waiting_by_id;
  }

module _ {U E : Type 0} ⦃i : UnitInterface U⦄ (sv : AdderServices U E) where
  -- The end of addToWaiting for the object `r`.
  abbrev pub start_waiting :
      ℕ → Preunit → ℕ → ℕ → Adder U → Outcome (AddingError U) (Option (AddingError U) × Adder U)
  start_waiting now pu source r s =
      let t = check_if_missing (unit_id pu) r s in
      if ltb_ℤ (pos 0) (t.objects r).missing_parents
      then (fetch_from sv now pu.epoch_id source pu.crown.heights (max_heights s.dag.max_units) 0
            (t, [])
          >>= λ t'. ok (some (unknown_parents (t'.objects r).missing_parents), t'))
      else ok (none, send_if_ready r t)

  abbrev pub add_new :
      ℕ
      → Preunit
      → ℕ
      → Option ℕ
      → Option U
      → Adder U
      → Outcome (AddingError U) (Option (AddingError U) × Adder U)
  add_new now pu source (some r) u s = ok (some (duplicate_preunit (s.objects r).pu), s)
  add_new now pu source none (some u) s = ok (some (duplicate_unit u), s)
  add_new now pu source none none s =
      let t = new_waiting pu source (report_fork pu (lookup (unit_id pu) s.waiting_by_id) s) in
      check_parents pu.epoch_id s.allocated pu.crown.heights (max_heights s.dag.max_units) 0 t
      >>= λ t'. start_waiting now pu source s.allocated t'

  unfoldable pub add_to_waiting :
      ℕ → Preunit → ℕ → Adder U → Outcome (AddingError U) (Option (AddingError U) × Adder U)
  add_to_waiting now pu source s =
      add_new now pu source (get_one s.waiting pu.hash) (get_unit s.dag pu.hash) s

  unfoldable pub check_correctness : Preunit → Store U → Option (AddingError U)
  check_correctness pu d =
      if leb d.n_proc pu.creator
      then some invalid_creator
      else if not (pu.epoch_id == d.epoch)
      then some invalid_epoch
      else if not (sv.verify_signature pu)
      then some invalid_signature
      else none

  abbrev pub check_new : Preunit → Store U → Option U → Option (AddingError U)
  check_new pu d (some u) = some (duplicate_unit u)
  check_new pu d none = check_correctness pu d

  abbrev pub add_checked :
      ℕ
      → ℕ
      → Preunit
      → Option (AddingError U)
      → Adder U
      → Outcome (AddingError U) (Option (AddingError U) × Adder U)
  add_checked now source pu (some e) s = ok (some e, s)
  add_checked now source pu none s = add_to_waiting now pu source s

  -- AddPreunits: all preunits are checked against the dag `d` as it is at the start, then those that passed are
  -- added in turn. `now` is the time of the call; Go answers nil for a slice with no error.
  unfoldable pub add_all :
      ℕ
      → ℕ
      → Store U
      → List Preunit
      → Adder U
      → Outcome (AddingError U) (List (Option (AddingError U)) × Adder U)
  add_all now source d [] s = ok ([], s)
  add_all now source d (pu ∷ pus) s =
      add_checked now source pu (check_new pu d (get_unit d pu.hash)) s >>= λ r.
      add_all now source d pus r.1 >>= λ q. ok (r.0 ∷ q.0, q.1)

  unfoldable pub add_preunits :
      ℕ
      → ℕ
      → List Preunit
      → Adder U
      → Outcome (AddingError U) (List (Option (AddingError U)) × Adder U)
  add_preunits now source pus s = add_all now source s.dag pus s
