-- ===== src/Adder/Kept.antt =====
-- pkg/adder: every operation of the adder keeps the counters of missing parents right.
use consensus_go.Base.{
  ℕ, zero, suc, ◌+◌, ◌≡◌, refl, sym, ap, ◌∙◌, Bool, true, false, ◌&&◌, List, [], ◌∷◌, ◌++◌, map,
  Option, none, some, arith, ltb, ◌==◌, if◌then◌else◌, length, Bool-cases, inl, inr,
}
use consensus_go.Base.Int.{ℤ, pos, ltb_ℤ, eq_ℤ, dec}
use consensus_go.Base.Outcome.{Outcome, ok, err, panic, Post, post_bind, post_if}
use consensus_go.Gomel.Id.{id}
use consensus_go.Gomel.Preunit.{Preunit, unit_id}
use consensus_go.Gomel.Unit.{UnitInterface}
use consensus_go.Dag.View.{max_heights}
use consensus_go.Dag.Bag.{get_one}
use consensus_go.Dag.Store.{Store, get_unit}
use consensus_go.Dag.Adding.{AddError, insert_embedded}
use consensus_go.Adder.Maps.{lookup, insert}
use consensus_go.Adder.State.{WaitingPreunit, AddingError, Adder, AdderServices, change}
use consensus_go.Adder.Waiting.{
  requested_at, check_parents, check_if_missing, send_if_ready, is_due, request_at, is_some,
  request_ids, request_some, heights_between, fetch_from, report_fork, new_waiting, start_waiting,
  add_new, add_to_waiting, check_new, add_checked, add_all,
}
use consensus_go.Adder.Ready.{
  forget, each, remove_failed, notify, remove, insert_checked, mark_failed,
}
use consensus_go.Adder.Counting.{
  needs-insert, IsCounted, same-IsCounted, change-kept, check_parents-IsCounted,
  take_missing-IsCounted,
}

module _ {U : Type 0} where
  if-allocated :
      (b : Bool) (s t : Adder U)
      → s.allocated ≡ t.allocated
      → s.allocated ≡ (if b then s else t).allocated
  if-allocated true s t e = refl
  if-allocated false s t e = e

  if-IsCounted :
      (b : Bool) (s t : Adder U)
      → IsCounted s
      → IsCounted t
      → t.allocated ≡ s.allocated
      → IsCounted (if b then s else t) × ((if b then s else t).allocated ≡ s.allocated)
  if-IsCounted true s t v w e = (v, refl)
  if-IsCounted false s t v w e = (w, e)

  request_ids-IsCounted :
      (now interval : ℕ) (ns : List ℕ) (s : Adder U) (to_request : List ℕ)
      → IsCounted s
      → IsCounted (request_ids now interval ns s to_request).0
        × ((request_ids now interval ns s to_request).0.allocated ≡ s.allocated)
  unfolding request_ids
  request_ids-IsCounted now interval [] s to_request v = (v, refl)
  request_ids-IsCounted now interval (n ∷ ns) s to_request v =
      let asked = record s {
        missing = insert n (request_at now interval (lookup n s.missing)) s.missing;
      } in
      let kept =
        same-IsCounted s asked (λ q. refl)
          (λ q.
            omega
              (arith, needs-insert q n (request_at now interval (lookup n s.missing)) s.missing))
          refl v in
      let waits = is_some (lookup n s.waiting_by_id) in
      let (w, e) = if-IsCounted waits s asked v kept refl in
      let (x, d) =
        request_ids-IsCounted now interval ns (if waits then s else asked)
          (if waits
            then to_request
            else if is_due now interval (requested_at (lookup n s.missing))
            then to_request ++ (n ∷ [])
            else to_request)
          w in
      (x, d ∙ e)

  request_some-IsCounted :
      (source : ℕ) (ns : List ℕ) (s : Adder U) → IsCounted s → IsCounted (request_some source ns s)
  request_some-IsCounted source [] s v = v
  request_some-IsCounted source (n ∷ ns) s v = same-IsCounted s _ (λ q. refl) (λ q. refl) refl v

  fetch_from-IsCounted :
      {E : Type 0} (sv : AdderServices U E) (now epoch source : ℕ) (hs ms : List ℤ) (creator : ℕ)
      (s : Adder U) (to_request : List ℕ)
      → IsCounted s
      → Post (fetch_from sv now epoch source hs ms creator (s, to_request)) IsCounted
  unfolding fetch_from
  fetch_from-IsCounted sv now epoch source [] ms creator s to_request v =
      request_some-IsCounted source to_request s v
  fetch_from-IsCounted sv now epoch source (h ∷ hs) [] creator s to_request v = tt
  fetch_from-IsCounted sv now epoch source (h ∷ hs) (m ∷ ms) creator s to_request v =
      let ids = map (λ k. id (pos k) creator epoch) (heights_between h m) in
      let r = request_ids now sv.fetch_interval ids s to_request in
      let (w, e) = request_ids-IsCounted now sv.fetch_interval ids s to_request v in
      elim (Bool-cases (ltb sv.gossip_above (length r.1))) [
        | inl many ↦ rw many (same-IsCounted r.0 _ (λ q. refl) (λ q. refl) refl w)
        | inr few ↦ rw few (fetch_from-IsCounted sv now epoch source hs ms (creator + 1) r.0 r.1 w)
      ]

  send_if_ready-IsCounted : (r : ℕ) (s : Adder U) → IsCounted s → IsCounted (send_if_ready r s)
  unfolding send_if_ready
  send_if_ready-IsCounted r s v =
      let sent = record s { ready = s.ready ++ (r ∷ []) } in
      let w =
        (if-IsCounted s.finished s sent v (same-IsCounted s sent (λ q. refl) (λ q. refl) refl v)
          refl).0 in
      (if-IsCounted
        (eq_ℤ (s.objects r).waiting_parents (pos 0) && eq_ℤ (s.objects r).missing_parents (pos 0))
        (if s.finished then s else sent) s w v (if-allocated s.finished s sent refl)).0

  report_fork-IsCounted :
      (pu : Preunit) (o : Option ℕ) (s : Adder U) → IsCounted s → IsCounted (report_fork pu o s)
  report_fork-IsCounted pu none s v = v
  report_fork-IsCounted pu (some r) s v = same-IsCounted s _ (λ q. refl) (λ q. refl) refl v

  new_waiting-IsCounted :
      (pu : Preunit) (source : ℕ) (s : Adder U) → IsCounted s → IsCounted (new_waiting pu source s)
  new_waiting-IsCounted pu source s v = record {
    counted = λ r h. elim (Bool-cases (r == s.allocated)) [
      | inl hit ↦ rw hit (ap pos (sym (v.fresh r (ground arith))))
      | inr miss ↦ rw miss (v.counted r (ground arith))
    ];
    fresh = λ r h. v.fresh r (omega arith);
  }

  forget-IsCounted : (r : ℕ) (s : Adder U) → IsCounted s → IsCounted (forget r s)
  forget-IsCounted r s v = same-IsCounted s _ (λ q. refl) (λ q. refl) refl v

  notify-IsCounted : (cs : List ℕ) (s : Adder U) → IsCounted s → IsCounted (notify cs s)
  unfolding notify
  notify-IsCounted [] s v = v
  notify-IsCounted (c ∷ cs) s v =
      let f : WaitingPreunit → WaitingPreunit =
        λ wp. record wp { waiting_parents = dec wp.waiting_parents } in
      notify-IsCounted cs _ (
        send_if_ready-IsCounted c (change c f s) (
          same-IsCounted s (change c f s) (λ q. change-kept c q f s (λ wp. refl)) (λ q. refl) refl
            v))

  abbrev pub IfCounted : Option (Adder U) → Type 0
  IfCounted none = Unit
  IfCounted (some s) = IsCounted s

  each-IsCounted :
      (f : ℕ → Adder U → Option (Adder U)) (cs : List ℕ) (o : Option (Adder U))
      → ((c : ℕ) (s : Adder U) → IsCounted s → IfCounted (f c s))
      → IfCounted o
      → IfCounted (each f cs o)
  each-IsCounted f [] o k v = v
  each-IsCounted f (c ∷ cs) none k v = tt
  each-IsCounted f (c ∷ cs) (some s) k v = each-IsCounted f cs (f c s) k (k c s v)

  remove_failed-IsCounted :
      (fuel r : ℕ) (s : Adder U) → IsCounted s → IfCounted (remove_failed fuel r s)
  unfolding remove_failed
  remove_failed-IsCounted zero r s v = tt
  remove_failed-IsCounted (suc fuel) r s v =
      each-IsCounted (remove_failed fuel) (s.objects r).children (some (forget r s))
        (remove_failed-IsCounted fuel) (forget-IsCounted r s v)

  pub remove-IsCounted : (fuel r : ℕ) (s : Adder U) → IsCounted s → IfCounted (remove fuel r s)
  unfolding remove
  remove-IsCounted fuel r s v =
      either (s.objects r).failed (remove_failed fuel r s)
        (some (notify (s.objects r).children (forget r s))) (remove_failed-IsCounted fuel r s v)
        (notify-IsCounted (s.objects r).children (forget r s) (forget-IsCounted r s v))
    where
      either :
          (b : Bool) (o q : Option (Adder U))
          → IfCounted o
          → IfCounted q
          → IfCounted (if b then o else q)
      either true o q x y = x
      either false o q x y = y

module _ {U E : Type 0} ⦃i : UnitInterface U⦄ (sv : AdderServices U E) where
  start_waiting-IsCounted :
      (now : ℕ) (pu : Preunit) (source r : ℕ) (s : Adder U)
      → IsCounted s
      → Post (start_waiting sv now pu source r s) (λ q. IsCounted q.1)
  unfolding check_if_missing
  start_waiting-IsCounted now pu source r s v =
      let t = check_if_missing (unit_id pu) r s in
      let w = (take_missing-IsCounted (unit_id pu) r (lookup (unit_id pu) s.missing) s refl v).0 in
      post_if (ltb_ℤ (pos 0) (t.objects r).missing_parents) _ (ok (none, send_if_ready r t))
        (λ q. IsCounted q.1)
        (post_bind
          (fetch_from sv now pu.epoch_id source pu.crown.heights (max_heights s.dag.max_units) 0
            (t, []))
          _ IsCounted (λ q. IsCounted q.1)
          (fetch_from-IsCounted sv now pu.epoch_id source pu.crown.heights
            (max_heights s.dag.max_units) 0 t [] w)
          (λ t' x. x))
        (send_if_ready-IsCounted r t w)

  add_new-IsCounted :
      (now : ℕ) (pu : Preunit) (source : ℕ) (o : Option ℕ) (u : Option U) (s : Adder U)
      → IsCounted s
      → Post (add_new sv now pu source o u s) (λ q. IsCounted q.1)
  add_new-IsCounted now pu source (some r) u s v = v
  add_new-IsCounted now pu source none (some u) s v = v
  add_new-IsCounted now pu source none none s v =
      let told = report_fork pu (lookup (unit_id pu) s.waiting_by_id) s in
      let t = new_waiting pu source told in
      let kept = report_fork-allocated (lookup (unit_id pu) s.waiting_by_id) in
      post_bind
        (check_parents pu.epoch_id s.allocated pu.crown.heights (max_heights s.dag.max_units) 0 t) _
        (λ q. IsCounted q × (q.allocated ≡ t.allocated)) (λ q. IsCounted q.1)
        (check_parents-IsCounted (AddingError U) pu.epoch_id s.allocated pu.crown.heights
          (max_heights s.dag.max_units) 0 t (omega (arith, kept))
          (new_waiting-IsCounted pu source told
            (report_fork-IsCounted pu (lookup (unit_id pu) s.waiting_by_id) s v)))
        (λ q x. start_waiting-IsCounted now pu source s.allocated q x.0)
    where
      report_fork-allocated : (o : Option ℕ) → (report_fork pu o s).allocated ≡ s.allocated
      report_fork-allocated none = refl
      report_fork-allocated (some r) = refl

  add_checked-IsCounted :
      (now source : ℕ) (pu : Preunit) (e : Option (AddingError U)) (s : Adder U)
      → IsCounted s
      → Post (add_checked sv now source pu e s) (λ q. IsCounted q.1)
  unfolding add_to_waiting
  add_checked-IsCounted now source pu (some e) s v = v
  add_checked-IsCounted now source pu none s v =
      add_new-IsCounted now pu source (get_one s.waiting pu.hash) (get_unit s.dag pu.hash) s v

  pub add_all-IsCounted :
      (now source : ℕ) (d : Store U) (pus : List Preunit) (s : Adder U)
      → IsCounted s
      → Post (add_all sv now source d pus s) (λ q. IsCounted q.1)
  unfolding add_all
  add_all-IsCounted now source d [] s v = v
  add_all-IsCounted now source d (pu ∷ pus) s v =
      post_bind (add_checked sv now source pu (check_new sv pu d (get_unit d pu.hash)) s) _
        (λ q. IsCounted q.1) (λ q. IsCounted q.1)
        (add_checked-IsCounted now source pu (check_new sv pu d (get_unit d pu.hash)) s v)
        (λ r x.
          post_bind (add_all sv now source d pus r.1) _ (λ q. IsCounted q.1) (λ q. IsCounted q.1)
            (add_all-IsCounted now source d pus r.1 x) (λ q y. y))

  pub mark_failed-IsCounted : (r : ℕ) (s : Adder U) → IsCounted s → IsCounted (mark_failed sv r s)
  mark_failed-IsCounted r s v =
      same-IsCounted s _ (λ q. change-kept r q (λ wp. record wp { failed = true }) s (λ wp. refl))
        (λ q. refl) refl v

  pub insert_checked-IsCounted :
      (r : ℕ) (u : U) (e : Option E) (s : Adder U)
      → IsCounted s
      → Post (insert_checked sv r u e s) IsCounted
  insert_checked-IsCounted r u (some e) s v = mark_failed-IsCounted r s v
  insert_checked-IsCounted r u none s v =
      post_bind (insert_embedded (sv.embed u s.dag.max_units) s.dag) _ (λ d. Unit {0}) IsCounted
        (post_any _) (λ d x. same-IsCounted s (record s { dag = d }) (λ q. refl) (λ q. refl) refl v)
    where
      post_any : (m : Outcome (AddError U) (Store U)) → Post m (λ d. Unit {0})
      post_any (ok d) = tt
      post_any (err e) = tt
      post_any panic = tt
