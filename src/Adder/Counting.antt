-- ===== src/Adder/Counting.antt =====
-- pkg/adder/waiting_preunit.go and missing_preunit.go: the number of missing parents.
use consensus_go.Base.{
  ℕ, ◌+◌, ◌-◌, ◌≡◌, ◌<◌, ◌≤◌, refl, sym, subst, ap, ◌∙◌, Bool, true, false, List, [], ◌∷◌, ◌++◌,
  Option, none, some, arith, ◌==◌, if◌then◌else◌, Bool-cases, inl, inr,
}
use consensus_go.Base.Int.{ℤ, pos, ltb_ℤ, inc, dec}
use consensus_go.Base.Outcome.{Post, post_weaken}
use consensus_go.Gomel.Id.{id}
use consensus_go.Adder.Maps.{lookup, insert, erase}
use consensus_go.Adder.State.{WaitingPreunit, MissingPreunit, Adder, change}
use consensus_go.Adder.Waiting.{
  needed_by_or_none, requested_at, register_missing, wait_for, check_parent, check_parents,
  found_parent, take_missing,
}

abbrev pub count : ℕ → List ℕ → ℕ
count r [] = 0
count r (q ∷ qs) = (if q == r then 1 else 0) + count r qs

-- How often an object stands among those that need a missing preunit.
abbrev pub needs : ℕ → List (ℕ × MissingPreunit) → ℕ
needs r [] = 0
needs r ((id, mp) ∷ m) = count r mp.needed_by + needs r m

count-append : (r : ℕ) (xs ys : List ℕ) → count r (xs ++ ys) ≡ count r xs + count r ys
count-append r [] ys = omega arith
count-append r (x ∷ xs) ys = omega (arith, count-append r xs ys)

pub needs-insert :
    (r id : ℕ) (mp : MissingPreunit) (m : List (ℕ × MissingPreunit))
    → needs r (insert id mp m) + count r (needed_by_or_none (lookup id m))
      ≡ needs r m + count r mp.needed_by
needs-insert r id mp [] = omega arith
needs-insert r id mp ((j, mq) ∷ m) = elim (Bool-cases (j == id)) [
  | inl hit ↦ rw hit (omega arith)
  | inr miss ↦ rw miss (omega (arith, needs-insert r id mp m))
]

needs-erase :
    (r id : ℕ) (m : List (ℕ × MissingPreunit))
    → needs r (erase id m) + count r (needed_by_or_none (lookup id m)) ≡ needs r m
needs-erase r id [] = omega arith
needs-erase r id ((j, mq) ∷ m) = elim (Bool-cases (j == id)) [
  | inl hit ↦ rw hit (omega arith)
  | inr miss ↦ rw miss (omega (arith, needs-erase r id m))
]

count_up :
    (q r : ℕ) (a : ℤ) (n n' : ℕ)
    → a ≡ pos n
    → n' ≡ n + (if r == q then 1 else 0)
    → (if q == r then inc a else a) ≡ pos n'
count_up q r a n n' e h = elim (Bool-cases (q == r)) [
  | inl hit ↦ rw (hit, e) (ground arith)
  | inr miss ↦ rw (miss, e) (ground arith)
]

count_down :
    (q c : ℕ) (a : ℤ) (n k : ℕ)
    → a ≡ pos n
    → (if c == q then 1 else 0) + k ≤ n
    → (if q == c then dec a else a) ≡ pos (n - (if c == q then 1 else 0))
count_down q c a n k e h = elim (Bool-cases (q == c)) [
  | inl hit ↦ rw (hit, e) (ground arith)
  | inr miss ↦ rw (miss, e) (ground arith)
]

module _ {U : Type 0} where
  -- The counter of every object tells how often it stands among those that need a missing preunit, and objects
  -- that are not made yet do not stand there.
  pub record IsCounted (s : Adder U) : Type 0 where
    pub counted :
        (r : ℕ) → r < s.allocated → (s.objects r).missing_parents ≡ pos (needs r s.missing)
    pub fresh : (r : ℕ) → s.allocated ≤ r → needs r s.missing ≡ 0

  -- What keeps the counters and the needs keeps the invariant.
  pub same-IsCounted :
      (s t : Adder U)
      → ((r : ℕ) → (t.objects r).missing_parents ≡ (s.objects r).missing_parents)
      → ((r : ℕ) → needs r t.missing ≡ needs r s.missing)
      → t.allocated ≡ s.allocated
      → IsCounted s
      → IsCounted t
  same-IsCounted s t objects needed e v = record {
    counted = λ r h. objects r ∙ v.counted r (omega arith) ∙ ap pos (sym (needed r));
    fresh = λ r h. needed r ∙ v.fresh r (omega arith);
  }

  register_missing-needs :
      (r q id : ℕ) (s : Adder U)
      → needs q (register_missing id r s).missing ≡ needs q s.missing + (if r == q then 1 else 0)
  unfolding register_missing
  register_missing-needs r q id s = omega (
    arith,
    needs-insert q id
        (record {
          needed_by = needed_by_or_none (lookup id s.missing) ++ (r ∷ []);
          requested = requested_at (lookup id s.missing);
        })
        s.missing,
    count-append q (needed_by_or_none (lookup id s.missing)) (r ∷ []),
  )

  change-missing :
      (r q : ℕ) (f : WaitingPreunit → WaitingPreunit) (g : ℤ → ℤ) (s : Adder U)
      → ((wp : WaitingPreunit) → (f wp).missing_parents ≡ g wp.missing_parents)
      → ((change r f s).objects q).missing_parents
        ≡ (if q == r then g (s.objects q).missing_parents else (s.objects q).missing_parents)
  change-missing r q f g s e = elim (Bool-cases (q == r)) [
    | inl hit ↦ rw hit (e (s.objects q))
    | inr miss ↦ rw miss refl
  ]

  -- A write to other fields.
  pub change-kept :
      (r q : ℕ) (f : WaitingPreunit → WaitingPreunit) (s : Adder U)
      → ((wp : WaitingPreunit) → (f wp).missing_parents ≡ wp.missing_parents)
      → ((change r f s).objects q).missing_parents ≡ (s.objects q).missing_parents
  change-kept r q f s e = ground (arith, change-missing r q f (λ n. n) s e)

  wait_for-IsCounted :
      (id r : ℕ) (w : Option ℕ) (s : Adder U)
      → r < s.allocated
      → IsCounted s
      → IsCounted (wait_for id r w s)
  unfolding register_missing
  wait_for-IsCounted id r none s h v =
      let t = change r (λ wp. record wp { missing_parents = inc wp.missing_parents }) s in
      record {
        counted = λ q low.
            let e =
              change-missing r q (λ wp. record wp { missing_parents = inc wp.missing_parents }) inc
                s (λ wp. refl) in
            let n = register_missing-needs r q id t in
            e
            ∙ count_up q r (s.objects q).missing_parents (needs q s.missing) _ (v.counted q low) n;
        fresh =
            λ q high. let n = register_missing-needs r q id t in ground (arith, n, v.fresh q high);
      }
  wait_for-IsCounted id r (some par) s h v =
      let t = change r (λ wp. record wp { waiting_parents = inc wp.waiting_parents }) s in
      same-IsCounted s _
        (λ q.
          change-kept par q (λ wp. record wp { children = wp.children ++ (r ∷ []) }) t (λ wp. refl)
          ∙ change-kept r q (λ wp. record wp { waiting_parents = inc wp.waiting_parents }) s
              (λ wp. refl))
        (λ q. refl) refl v

  wait_for-allocated :
      (id r : ℕ) (w : Option ℕ) (s : Adder U) → (wait_for id r w s).allocated ≡ s.allocated
  unfolding register_missing
  wait_for-allocated id r none s = refl
  wait_for-allocated id r (some par) s = refl

  check_parent-IsCounted :
      (id r : ℕ) (above : Bool) (s : Adder U)
      → r < s.allocated
      → IsCounted s
      → IsCounted (check_parent id r above s)
        × ((check_parent id r above s).allocated ≡ s.allocated)
  check_parent-IsCounted id r false s h v = (v, refl)
  check_parent-IsCounted id r true s h v = (
    wait_for-IsCounted id r (lookup id s.waiting_by_id) s h v,
    wait_for-allocated id r (lookup id s.waiting_by_id) s,
  )

  pub check_parents-IsCounted :
      (E : Type 0) (epoch r : ℕ) (hs ms : List ℤ) (creator : ℕ) (s : Adder U)
      → r < s.allocated
      → IsCounted s
      → Post
          (check_parents {E = E} epoch r hs ms creator s)
          (λ t. IsCounted t × (t.allocated ≡ s.allocated))
  unfolding check_parents
  check_parents-IsCounted E epoch r [] ms creator s h v = (v, refl)
  check_parents-IsCounted E epoch r (k ∷ hs) [] creator s h v = tt
  check_parents-IsCounted E epoch r (k ∷ hs) (m ∷ ms) creator s h v =
      let t = check_parent (id k creator epoch) r (ltb_ℤ m k) s in
      let (w, e) = check_parent-IsCounted (id k creator epoch) r (ltb_ℤ m k) s h v in
      post_weaken (check_parents {E = E} epoch r hs ms (creator + 1) t)
        (λ q. IsCounted q × (q.allocated ≡ t.allocated))
        (λ q. IsCounted q × (q.allocated ≡ s.allocated))
        (check_parents-IsCounted E epoch r hs ms (creator + 1) t (omega (arith, e)) w)
        (λ q x. (x.0, x.1 ∙ e))

  -- The loop of checkIfMissing takes one from the counter of each child.
  found_parent-counted :
      (cs : List ℕ) (s : Adder U) (r n : ℕ)
      → (s.objects r).missing_parents ≡ pos n
      → count r cs ≤ n
      → ((found_parent cs s).objects r).missing_parents ≡ pos (n - count r cs)
  unfolding found_parent
  found_parent-counted [] s r n e h = e ∙ ap pos (omega arith)
  found_parent-counted (c ∷ cs) s r n e h =
      let f : WaitingPreunit → WaitingPreunit = λ wp. record wp {
        missing_parents = dec wp.missing_parents;
        waiting_parents = inc wp.waiting_parents;
      } in
      let one =
        change-missing c r f dec s (λ wp. refl)
        ∙ count_down r c (s.objects r).missing_parents n (count r cs) e h in
      found_parent-counted cs (change c f s) r (n - (if c == r then 1 else 0)) one (omega arith)
      ∙ ap pos (omega arith)

  found_parent-kept :
      (cs : List ℕ) (s : Adder U)
      → ((found_parent cs s).allocated ≡ s.allocated) × ((found_parent cs s).missing ≡ s.missing)
  unfolding found_parent
  found_parent-kept [] s = (refl, refl)
  found_parent-kept (c ∷ cs) s = found_parent-kept cs (
      change c
        (λ wp. record wp {
          missing_parents = dec wp.missing_parents;
          waiting_parents = inc wp.waiting_parents;
        })
        s)

  pub take_missing-IsCounted :
      (id r : ℕ) (o : Option MissingPreunit) (s : Adder U)
      → o ≡ lookup id s.missing
      → IsCounted s
      → IsCounted (take_missing id r o s) × ((take_missing id r o s).allocated ≡ s.allocated)
  take_missing-IsCounted id r none s e v = (
    same-IsCounted s _ (λ q. change-kept r q (λ wp. record wp { children = [] }) s (λ wp. refl))
        (λ q. refl) refl v,
    refl,
  )
  take_missing-IsCounted id r (some mp) s e v =
      let t = change r (λ wp. record wp { children = mp.needed_by }) s in
      let (same, kept) = found_parent-kept mp.needed_by t in
      let erased : (q : ℕ)
          → needs q (erase id (found_parent mp.needed_by t).missing) + count q mp.needed_by
            ≡ needs q s.missing =
        λ q. rw kept (
          subst
            (λ o. needs q (erase id s.missing) + count q (needed_by_or_none o) ≡ needs q s.missing)
            (sym e) (needs-erase q id s.missing)) in
      (
        record {
          counted = λ q low.
              let before =
                change-kept r q (λ wp. record wp { children = mp.needed_by }) s (λ wp. refl)
                ∙ v.counted q (omega (arith, same)) in
              found_parent-counted mp.needed_by t q (needs q s.missing) before
                (omega (arith, erased q))
              ∙ ap pos (omega (arith, erased q));
          fresh = λ q high. omega (arith, erased q, v.fresh q (omega (arith, same)));
        },
        same,
      )
