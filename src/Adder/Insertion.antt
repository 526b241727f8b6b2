-- ===== src/Adder/Insertion.antt =====
-- pkg/adder/adder.go: what handleReady puts into the dag.
use consensus_go.Base.{
  ℕ, zero, suc, ◌≡◌, ◌⊎◌, inl, inr, refl, sym, subst, ◌∙◌, ◌==◌, Bool, true, false, ◌&&◌, List, [],
  ◌∷◌, Option, none, some, arith, if◌then◌else◌, Bool-cases,
}
use consensus_go.Base.Int.{pos, eq_ℤ, dec}
use consensus_go.Base.Outcome.{Outcome, ok, err, panic, ◌>>=◌, Post, post_bind, post_ok}
use consensus_go.Gomel.Hash.{hash_eq, hash_eq_iff, combine_hashes}
use consensus_go.Gomel.Unit.{UnitInterface, to_hashes}
use consensus_go.Dag.Store.{Store}
use consensus_go.Dag.Adding.{
  AddError, ambiguous_parents, unknown_parents, duplicate_unit, decode_parents, run_checks,
  insert_embedded,
}
use consensus_go.Adder.State.{Adder, AdderServices, change}
use consensus_go.Adder.Waiting.{send_if_ready}
use consensus_go.Adder.Ready.{
  forget, each, remove_failed, notify, remove, parents_or_error, mark_failed, insert_checked,
  build_checked, try_adding, handle_ready,
}

module _ {U : Type 0} where
  abbrev DagIs : Store U → Option (Adder U) → Type 0
  DagIs d none = Unit
  DagIs d (some s) = s.dag ≡ d

  each-DagIs :
      (d : Store U) (f : ℕ → Adder U → Option (Adder U)) (cs : List ℕ) (o : Option (Adder U))
      → ((c : ℕ) (s : Adder U) → s.dag ≡ d → DagIs d (f c s))
      → DagIs d o
      → DagIs d (each f cs o)
  each-DagIs d f [] o k v = v
  each-DagIs d f (c ∷ cs) none k v = tt
  each-DagIs d f (c ∷ cs) (some s) k v = each-DagIs d f cs (f c s) k (k c s v)

  remove_failed-DagIs :
      (d : Store U) (fuel r : ℕ) (s : Adder U) → s.dag ≡ d → DagIs d (remove_failed fuel r s)
  unfolding remove_failed
  remove_failed-DagIs d zero r s e = tt
  remove_failed-DagIs d (suc fuel) r s e =
      each-DagIs d (remove_failed fuel) (s.objects r).children (some (forget r s))
        (remove_failed-DagIs d fuel) e

  if-dag : (b : Bool) (s t : Adder U) → s.dag ≡ t.dag → (if b then s else t).dag ≡ t.dag
  if-dag true s t e = e
  if-dag false s t e = refl

  send_if_ready-dag : (r : ℕ) (s : Adder U) → (send_if_ready r s).dag ≡ s.dag
  unfolding send_if_ready
  send_if_ready-dag r s =
      if-dag
        (eq_ℤ (s.objects r).waiting_parents (pos 0) && eq_ℤ (s.objects r).missing_parents (pos 0)) _
        s (if-dag s.finished s _ refl)

  notify-dag : (cs : List ℕ) (s : Adder U) → (notify cs s).dag ≡ s.dag
  unfolding notify
  notify-dag [] s = refl
  notify-dag (c ∷ cs) s =
      let t = change c (λ wp. record wp { waiting_parents = dec wp.waiting_parents }) s in
      notify-dag cs (send_if_ready c t) ∙ send_if_ready-dag c t

  either-DagIs :
      (d : Store U) (b : Bool) (o q : Option (Adder U))
      → DagIs d o
      → DagIs d q
      → DagIs d (if b then o else q)
  either-DagIs d true o q x y = x
  either-DagIs d false o q x y = y

  remove-DagIs : (fuel r : ℕ) (s : Adder U) → DagIs s.dag (remove fuel r s)
  unfolding remove
  remove-DagIs fuel r s =
      either-DagIs s.dag (s.objects r).failed (remove_failed fuel r s)
        (some (notify (s.objects r).children (forget r s)))
        (remove_failed-DagIs s.dag fuel r s refl) (notify-dag (s.objects r).children (forget r s))

module _ {U E : Type 0} ⦃i : UnitInterface U⦄ (sv : AdderServices U E) where
  -- A unit that was built for the preunit went through every step and into the dag.
  pub record IsInserted (r : ℕ) (s : Adder U) (d : Store U) : Type 0 where
    pub parents : List (Option U)
    pub decoded : decode_parents s.dag (s.objects r).pu ≡ ok parents
    pub same_hash :
        combine_hashes sv.shake (to_hashes parents) ≡ (s.objects r).pu.crown.control_hash
    pub passed :
        sv.resolve
          (run_checks sv.checks (sv.build_unit (s.objects r).pu parents) s.dag)
          (i.preunit (sv.build_unit (s.objects r).pu parents))
          (s.objects r).source
        ≡ none
    pub inserted :
        insert_embedded {E = AddError U}
          (sv.embed (sv.build_unit (s.objects r).pu parents) s.dag.max_units)
          s.dag
        ≡ ok d

  insert_checked-dag :
      (r : ℕ) (parents : List (Option U)) (s : Adder U) (o : Option E)
      → decode_parents s.dag (s.objects r).pu ≡ ok parents
      → combine_hashes sv.shake (to_hashes parents) ≡ (s.objects r).pu.crown.control_hash
      → sv.resolve
          (run_checks sv.checks (sv.build_unit (s.objects r).pu parents) s.dag)
          (i.preunit (sv.build_unit (s.objects r).pu parents))
          (s.objects r).source
        ≡ o
      → Post
          (insert_checked sv r (sv.build_unit (s.objects r).pu parents) o s)
          (λ t. (t.dag ≡ s.dag) ⊎ IsInserted r s t.dag)
  insert_checked-dag r parents s (some e) d h p = inl refl
  insert_checked-dag r parents s none d h p =
      placed
        (insert_embedded (sv.embed (sv.build_unit (s.objects r).pu parents) s.dag.max_units) s.dag)
        refl
    where
      placed :
          (m : Outcome (AddError U) (Store U))
          → insert_embedded
              (sv.embed (sv.build_unit (s.objects r).pu parents) s.dag.max_units)
              s.dag
            ≡ m
          → Post
              (m >>= λ d'. ok (record s { dag = d' }))
              (λ t. (t.dag ≡ s.dag) ⊎ IsInserted r s t.dag)
      placed (ok d') e =
          inr (record { parents = parents; decoded = d; same_hash = h; passed = p; inserted = e })
      placed (err e') e = tt
      placed panic e = tt

  try_adding-dag :
      (r : ℕ) (s : Adder U) → Post (try_adding sv r s) (λ t. (t.dag ≡ s.dag) ⊎ IsInserted r s t.dag)
  unfolding try_adding
  try_adding-dag r s = built (decode_parents s.dag (s.objects r).pu) refl
    where
      built :
          (m : Outcome (AddError U) (List (Option U)))
          → decode_parents s.dag (s.objects r).pu ≡ m
          → Post
              (parents_or_error sv (s.objects r).pu (s.objects r).source m >>= λ ps.
                build_checked sv r (s.objects r).pu (s.objects r).source ps s)
              (λ t. (t.dag ≡ s.dag) ⊎ IsInserted r s t.dag)
      built panic e = tt
      built (err (ambiguous_parents uss)) e = inl refl
      built (err (unknown_parents n)) e = inl refl
      built (err (duplicate_unit u)) e = inl refl
      built (ok ps) e =
          elim (Bool-cases (
            hash_eq (combine_hashes sv.shake (to_hashes ps)) (s.objects r).pu.crown.control_hash)) [
              | inr other ↦ rw other (inl refl)
              | inl same ↦ rw same (
                  insert_checked-dag r ps s _ e
                    ((hash_eq_iff (combine_hashes sv.shake (to_hashes ps))
                        (s.objects r).pu.crown.control_hash).0
                      same)
                    refl)
            ]

  abbrev AddedIn : ℕ → Adder U → Option (Adder U) → Type 0
  AddedIn r s none = Unit
  AddedIn r s (some s') = (s'.dag ≡ s.dag) ⊎ IsInserted r s s'.dag

  -- When a worker is done with a ready preunit, the dag is as it was, or it has grown by exactly one call of Insert, on
  -- the unit that was built from the preunit and the parents that DecodeParents answered, whose hashes combine
  -- to the control hash of the preunit's crown; and no check of the dag failed on that unit, unless the alerter resolved
  -- the error.
  pub handle_ready-IsInserted :
      (fuel r : ℕ) (s s' : Adder U)
      → handle_ready sv fuel r s ≡ ok (some s')
      → (s'.dag ≡ s.dag) ⊎ IsInserted r s s'.dag
  unfolding handle_ready
  handle_ready-IsInserted fuel r s s' e =
      post_ok (handle_ready sv fuel r s) (AddedIn r s) (some s')
        (post_bind (try_adding sv r s) _ (λ t. (t.dag ≡ s.dag) ⊎ IsInserted r s t.dag) (AddedIn r s)
          (try_adding-dag r s) (λ t x. removed t (remove fuel r t) (remove-DagIs fuel r t) x))
        e
    where
      removed :
          (t : Adder U) (o : Option (Adder U))
          → DagIs t.dag o
          → (t.dag ≡ s.dag) ⊎ IsInserted r s t.dag
          → AddedIn r s o
      removed t none k x = tt
      removed t (some q) k (inl same) = inl (k ∙ same)
      removed t (some q) k (inr new) = inr (subst (IsInserted r s) (sym k) new)

  -- A preunit with ambiguous parents is never added, whatever the alerter answers about the parents: it is
  -- marked as failed and removed with its descendants, and the dag stays as it is.
  pub handle_ready_ambiguous :
      (fuel r : ℕ) (s : Adder U) (possible : List (List U))
      → decode_parents s.dag (s.objects r).pu ≡ err (ambiguous_parents possible)
      → (handle_ready sv fuel r s ≡ ok (remove_failed fuel r (mark_failed sv r s)))
        × ((s' : Adder U) → handle_ready sv fuel r s ≡ ok (some s') → s'.dag ≡ s.dag)
  unfolding handle_ready try_adding remove
  handle_ready_ambiguous fuel r s possible e =
      let here : (r == r) ≡ true = ground arith in
      let done : handle_ready sv fuel r s ≡ ok (remove_failed fuel r (mark_failed sv r s)) =
        rw (e, here) refl in
      (
        done,
        λ s' k.
            let same : remove_failed fuel r (mark_failed sv r s) ≡ some s' =
              ground (arith, done, k) in
            let kept = remove_failed-DagIs s.dag fuel r (mark_failed sv r s) refl in
            rw same at kept,
      )
