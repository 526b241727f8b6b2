-- ===== src/Adder/Steps.antt =====
-- pkg/adder: any sequence of calls of AddPreunits and runs of the workers.
use consensus_go.Base.{ℕ, ◌≡◌, ◌<◌, refl, Bool, true, false, not, List, [], Option, some, arith}
use consensus_go.Base.Int.{pos}
use consensus_go.Base.Outcome.{Outcome, ok, err, panic, Post, post_bind, post_if, post_ok}
use consensus_go.Gomel.Hash.{hash_eq, combine_hashes}
use consensus_go.Gomel.Preunit.{Preunit}
use consensus_go.Gomel.Unit.{UnitInterface, to_hashes}
use consensus_go.Dag.Store.{Store}
use consensus_go.Dag.Adding.{AddError, decode_parents, run_checks}
use consensus_go.Adder.State.{WaitingPreunit, AddingError, Adder, AdderServices}
use consensus_go.Adder.Waiting.{add_preunits}
use consensus_go.Adder.Ready.{
  parents_or_error, build_checked, mark_failed, try_adding, handle_ready,
}
use consensus_go.Adder.Counting.{needs, IsCounted, same-IsCounted}
use consensus_go.Adder.Kept.{
  IfCounted, remove-IsCounted, add_all-IsCounted, insert_checked-IsCounted, mark_failed-IsCounted,
}

module _ {U E : Type 0} ⦃i : UnitInterface U⦄ (sv : AdderServices U E) where
  build_checked-IsCounted :
      (r : ℕ) (pu : Preunit) (source : ℕ) (ps : List (Option U)) (failed : Bool) (s : Adder U)
      → IsCounted s
      → Post (build_checked sv r pu source (ps, failed) s) IsCounted
  build_checked-IsCounted r pu source ps true s v = mark_failed-IsCounted sv r s v
  build_checked-IsCounted r pu source ps false s v =
      post_if (not (hash_eq (combine_hashes sv.shake (to_hashes ps)) pu.crown.control_hash)) _ _
        IsCounted
        (same-IsCounted (mark_failed sv r s) _ (λ q. refl) (λ q. refl) refl
          (mark_failed-IsCounted sv r s v))
        (insert_checked-IsCounted sv r (sv.build_unit pu ps)
          (sv.resolve (run_checks sv.checks (sv.build_unit pu ps) s.dag)
            (i.preunit (sv.build_unit pu ps)) source)
          s v)

  handle_ready-IsCounted :
      (fuel r : ℕ) (s : Adder U) → IsCounted s → Post (handle_ready sv fuel r s) IfCounted
  unfolding handle_ready try_adding
  handle_ready-IsCounted fuel r s v =
      let wp = s.objects r in
      post_bind (try_adding sv r s) _ IsCounted IfCounted
        (post_bind (parents_or_error sv wp.pu wp.source (decode_parents s.dag wp.pu)) _
          (λ q. Unit {0}) IsCounted (post_any _)
          (λ q x. build_checked-IsCounted r wp.pu wp.source q.0 q.1 s v))
        (λ t x. remove-IsCounted fuel r t x)
    where
      post_any : {A : Type 0} (m : Outcome (AddError U) A) → Post m (λ d. Unit {0})
      post_any (ok d) = tt
      post_any (err e) = tt
      post_any panic = tt

  -- A call of AddPreunits, or a run of a worker on any preunit, that returned.
  pub data Step : Adder U → Adder U → Type 0 where
    adds :
        (now source : ℕ) (pus : List Preunit) (errors : List (Option (AddingError U)))
        {s s' : Adder U}
        → add_preunits sv now source pus s ≡ ok (errors, s')
        → Step s s'
    handles : (fuel r : ℕ) {s s' : Adder U} → handle_ready sv fuel r s ≡ ok (some s') → Step s s'

  -- What New makes for a dag.
  abbrev pub new_adder : Store U → WaitingPreunit → Adder U
  new_adder d unused = record {
    dag = d;
    objects = λ r. unused;
    allocated = 0;
    waiting = [];
    waiting_by_id = [];
    missing = [];
    ready = [];
    finished = false;
    forks = [];
    requests = [];
  }

  pub data Reach (d : Store U) (unused : WaitingPreunit) : Adder U → Type 0 where
    start : Reach d unused (new_adder d unused)
    step : {s s' : Adder U} → Reach d unused s → Step s s' → Reach d unused s'

  Step-IsCounted : {s s' : Adder U} → Step s s' → IsCounted s → IsCounted s'
  unfolding add_preunits
  Step-IsCounted {s} {s'} (adds now source pus errors e) v =
      post_ok (add_preunits sv now source pus s) (λ q. IsCounted q.1) (errors, s')
        (add_all-IsCounted sv now source s.dag pus s v) e
  Step-IsCounted {s} {s'} (handles fuel r e) v =
      post_ok (handle_ready sv fuel r s) IfCounted (some s') (handle_ready-IsCounted fuel r s v) e

  -- After any sequence of calls of AddPreunits and runs of the workers, from New on, the counter
  -- missingParents of every waiting preunit, removed ones included, is the number of times that it stands in the
  -- lists neededBy of the missing preunits; in particular it is never negative.
  pub Reach-missing_parents :
      {d : Store U} {unused : WaitingPreunit} {s : Adder U}
      → Reach d unused s
      → (r : ℕ) → r < s.allocated
      → (s.objects r).missing_parents ≡ pos (needs r s.missing)
  Reach-missing_parents r q low = (counts r).counted q low
    where
      counts :
          {d : Store U} {unused : WaitingPreunit} {s : Adder U} → Reach d unused s → IsCounted s
      counts start = record { counted = λ q h. absurd (omega arith); fresh = λ q h. refl }
      counts (step r m) = Step-IsCounted m (counts r)
