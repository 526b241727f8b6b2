-- ===== src/Creator/Consistency.antt =====
-- pkg/creator/creator.go and pkg/dag/check/parental_compliance.go: MakeConsistent against ParentConsistency.
use consensus_go.Base.{
  ℕ, zero, suc, ◌+◌, ◌≡◌, ◌<◌, ◌≤◌, refl, sym, subst, ap, ◌∙◌, true, false, List, [], ◌∷◌, Option,
  none, some, arith, ltb, ◌==◌, if◌then◌else◌, length, set, length-set, Bool-cases, inl, inr, All,
}
use consensus_go.Gomel.Unit.{UnitInterface, slot}
use consensus_go.Dag.Store.{Store}
use consensus_go.Dag.Check.{lower_than, consistent_with, consistent_from, parent_consistency}
use consensus_go.Creator.Consistent.{replaces, raise_by, raise_from, raise_all, make_consistent}

slot-set {ℓ} :
    {A : Type ℓ} (xs : List (Option A)) (k j : ℕ) (v : Option A)
    → k < length xs
    → slot (set xs k v) j ≡ (if j == k then v else slot xs j)
slot-set [] k j v h = absurd (omega arith)
slot-set (x ∷ xs) zero zero v h = refl
slot-set (x ∷ xs) zero (suc j) v h = ground arith
slot-set (x ∷ xs) (suc k) zero v h = ground arith
slot-set (x ∷ xs) (suc k) (suc j) v h = ground (arith, slot-set xs k j v)

slot-ge {ℓ} : {A : Type ℓ} (xs : List (Option A)) (k : ℕ) → length xs ≤ k → slot xs k ≡ none
slot-ge [] k h = refl
slot-ge (x ∷ xs) zero h = absurd (omega arith)
slot-ge (x ∷ xs) (suc k) h = slot-ge xs k (omega arith)

module _ {U : Type 0} ⦃i : UnitInterface U⦄ where
  -- The level of a unit, one higher, and 0 where there is none.
  abbrev pub rung : Option U → ℕ
  rung none = 0
  rung (some u) = i.level u + 1

  -- The k-th parents of the parents are not on a higher level than the k-th parent.
  abbrev pub IsConsistentAt : ℕ → List (Option U) → Type 0
  IsConsistentAt k ps =
      (j : ℕ) (p : U) → slot ps j ≡ some p → rung (slot (i.parents p) k) ≤ rung (slot ps k)

  abbrev pub IsConsistent : List (Option U) → Type 0
  IsConsistent ps = (k : ℕ) → IsConsistentAt k ps

  -- `P` are the units of a dag: their parents are in the dag too, are consistent, and are on no higher levels.
  pub record IsSound (P : U → Type 0) : Type 0 where
    pub consistent : (w : U) → P w → IsConsistent (i.parents w)
    pub below : (w : U) (k : ℕ) → P w → rung (slot (i.parents w) k) ≤ i.level w + 1
    pub closed : (w q : U) (k : ℕ) → P w → slot (i.parents w) k ≡ some q → P q

  abbrev pub AreIn : (U → Type 0) → List (Option U) → Type 0
  AreIn P ps = (j : ℕ) (p : U) → slot ps j ≡ some p → P p

  module _ (P : U → Type 0) (sound : IsSound P) where
    -- After the first `k` rounds of the outer loop and `j` rounds of the inner one.
    record IsRaised (k j : ℕ) (ps : List (Option U)) : Type 0 where
      stay_in : AreIn P ps
      done : (m : ℕ) → m < k → IsConsistentAt m ps
      here :
          (l : ℕ) (p : U)
          → l < j
          → slot ps l ≡ some p
          → rung (slot (i.parents p) k) ≤ rung (slot ps k)

    replaces-rung :
        (v u : Option U)
        → (replaces v u ≡ true → rung v ≤ rung u) × (replaces v u ≡ false → rung u ≤ rung v)
    replaces-rung none u = (λ e. omega arith, λ e. cc)
    replaces-rung (some v) none = (λ e. cc, λ e. omega arith)
    replaces-rung (some v) (some u) = (λ e. ground arith, λ e. ground arith)

    -- Replacing the parent at `k` by the k-th parent of the parent at `j`.
    set-IsRaised :
        (k j : ℕ) (ps : List (Option U)) (p : U)
        → k < length ps
        → slot ps j ≡ some p
        → rung (slot ps k) ≤ rung (slot (i.parents p) k)
        → IsRaised k j ps
        → IsRaised k (j + 1) (set ps k (slot (i.parents p) k))
    set-IsRaised k j ps p inside at_j up v = record {
      stay_in = λ l q e. elim (Bool-cases (l == k)) [
        | inl hit ↦
            sound.closed p q k (v.stay_in j p at_j)
              (ground (arith, slot-set ps k l (slot (i.parents p) k) inside))
        | inr miss ↦ v.stay_in l q (ground (arith, slot-set ps k l (slot (i.parents p) k) inside))
      ];
      done = λ m low l q e. elim (Bool-cases (l == k)) [
        | inl hit ↦
            let grand : slot (i.parents p) k ≡ some q =
              ground (arith, slot-set ps k l (slot (i.parents p) k) inside) in
            let other : slot (set ps k (slot (i.parents p) k)) m ≡ slot ps m =
              ground (arith, slot-set ps k m (slot (i.parents p) k) inside) in
            rw other (
              omega
                (arith, sound.consistent p (v.stay_in j p at_j) m k q grand, v.done m low j p at_j))
        | inr miss ↦
            let kept : slot ps l ≡ some q =
              ground (arith, slot-set ps k l (slot (i.parents p) k) inside) in
            let other : slot (set ps k (slot (i.parents p) k)) m ≡ slot ps m =
              ground (arith, slot-set ps k m (slot (i.parents p) k) inside) in
            rw other (v.done m low l q kept)
      ];
      here = λ l q low e.
          let new : slot (set ps k (slot (i.parents p) k)) k ≡ slot (i.parents p) k =
            ground (arith, slot-set ps k k (slot (i.parents p) k) inside) in
          elim (Bool-cases (l == k)) [
            | inl hit ↦
                let grand : slot (i.parents p) k ≡ some q =
                  ground (arith, slot-set ps k l (slot (i.parents p) k) inside) in
                rw (new, grand)
                  (omega (arith, sound.below q k (sound.closed p q k (v.stay_in j p at_j) grand)))
            | inr miss ↦
                let kept : slot ps l ≡ some q =
                  ground (arith, slot-set ps k l (slot (i.parents p) k) inside) in
                rw new (earlier l q low kept)
          ];
    }
      where
        earlier :
            (l : ℕ) (q : U)
            → l < j + 1
            → slot ps l ≡ some q
            → rung (slot (i.parents q) k) ≤ rung (slot (i.parents p) k)
        earlier l q low kept = elim (Bool-cases (l == j)) [
          | inl last ↦
              let same : l ≡ j = ground arith in
              let e : some q ≡ some p = sym kept ∙ ap (slot ps) same ∙ at_j in ground (arith, e)
          | inr before ↦ omega (arith, v.here l q (ground arith) kept)
        ]

    keep-IsRaised :
        (k j : ℕ) (ps : List (Option U))
        → ((p : U) → slot ps j ≡ some p → rung (slot (i.parents p) k) ≤ rung (slot ps k))
        → IsRaised k j ps
        → IsRaised k (j + 1) ps
    keep-IsRaised k j ps at_j v = record {
      stay_in = v.stay_in;
      done = v.done;
      here = λ l q low e. elim (Bool-cases (l == j)) [
        | inl last ↦ let same : l ≡ j = ground arith in at_j q (sym (ap (slot ps) same) ∙ e)
        | inr before ↦ v.here l q (ground arith) e
      ];
    }

    raise_by-IsRaised :
        (k j : ℕ) (ps : List (Option U)) (p : Option U)
        → k < length ps
        → slot ps j ≡ p
        → IsRaised k j ps
        → IsRaised k (j + 1) (raise_by ps k p)
    raise_by-IsRaised k j ps none inside e v = keep-IsRaised k j ps (λ p h. absurd (ground arith)) v
    raise_by-IsRaised k j ps (some p) inside e v =
        elim (Bool-cases (replaces (slot ps k) (slot (i.parents p) k))) [
          | inl up ↦ rw up (
              set-IsRaised k j ps p inside e
                ((replaces-rung (slot ps k) (slot (i.parents p) k)).0 up) v)
          | inr stay ↦ rw stay (
              keep-IsRaised k j ps
                (λ q h.
                  let same : some p ≡ some q = sym e ∙ h in
                  let low = (replaces-rung (slot ps k) (slot (i.parents p) k)).1 stay in
                  ground (arith, same))
                v)
        ]

    length-raise_by :
        (ps : List (Option U)) (k : ℕ) (p : Option U) → length (raise_by ps k p) ≡ length ps
    length-raise_by ps k none = refl
    length-raise_by ps k (some p) =
        elim (Bool-cases (replaces (slot ps k) (slot (i.parents p) k))) [
          | inl up ↦ rw up (length-set ps k (slot (i.parents p) k))
          | inr stay ↦ rw stay refl
        ]

    raise_from-IsRaised :
        (k j count : ℕ) (ps : List (Option U))
        → k < length ps
        → IsRaised k j ps
        → IsRaised k (j + count) (raise_from k j count ps)
          × (length (raise_from k j count ps) ≡ length ps)
    unfolding raise_from
    raise_from-IsRaised k j zero ps inside v = let e : j + 0 ≡ j = omega arith in rw e (v, refl)
    raise_from-IsRaised k j (suc count) ps inside v =
        let l = length-raise_by ps k (slot ps j) in
        let (a, b) =
          raise_from-IsRaised k (j + 1) count (raise_by ps k (slot ps j)) (omega (arith, l))
            (raise_by-IsRaised k j ps (slot ps j) inside refl v) in
        let e : j + suc count ≡ j + 1 + count = omega arith in rw e (a, b ∙ l)

    next-IsRaised :
        (k n : ℕ) (ps : List (Option U)) → length ps ≤ n → IsRaised k n ps → IsRaised (k + 1) 0 ps
    next-IsRaised k n ps short v = record {
      stay_in = v.stay_in;
      done = λ m low l q e. elim (Bool-cases (m == k)) [
        | inl last ↦
            let same : m ≡ k = ground arith in
            subst (λ x. rung (slot (i.parents q) x) ≤ rung (slot ps x)) (sym same)
              (v.here l q (inside l q e) e)
        | inr before ↦ v.done m (ground arith) l q e
      ];
      here = λ l q low e. absurd (omega arith);
    }
      where
        inside : (l : ℕ) (q : U) → slot ps l ≡ some q → l < n
        inside l q e = elim (Bool-cases (ltb l (length ps))) [
          | inl low ↦ ground arith
          | inr past ↦ let none_there = slot-ge ps l (ground arith) in absurd (ground arith)
        ]

    raise_all-IsRaised :
        (n k count : ℕ) (ps : List (Option U))
        → length ps ≡ n
        → k + count ≤ n
        → IsRaised k 0 ps
        → IsRaised (k + count) 0 (raise_all n k count ps)
          × (length (raise_all n k count ps) ≡ length ps)
    unfolding raise_all
    raise_all-IsRaised n k zero ps l h v = let e : k + 0 ≡ k = omega arith in rw e (v, refl)
    raise_all-IsRaised n k (suc count) ps l h v =
        let (a, b) = raise_from-IsRaised k 0 n ps (omega arith) v in
        let (c, d) =
          raise_all-IsRaised n (k + 1) count (raise_from k 0 n ps) (b ∙ l) (omega arith) (
            next-IsRaised k n (raise_from k 0 n ps) (omega (arith, b, l))
              (subst (λ x. IsRaised k x (raise_from k 0 n ps)) (omega arith) a)) in
        let e : k + suc count ≡ k + 1 + count = omega arith in rw e (c, d ∙ b)

    make_consistent-IsConsistent :
        (ps : List (Option U))
        → AreIn P ps
        → ((k : ℕ) → k < length ps → IsConsistentAt k (make_consistent ps))
          × (length (make_consistent ps) ≡ length ps)
    unfolding make_consistent
    make_consistent-IsConsistent ps known =
        let (v, l) = raise_all-IsRaised (length ps) 0 (length ps) ps refl (omega arith) (record {
          stay_in = known;
          done = λ m low. absurd (omega arith);
          here = λ m q low. absurd (omega arith);
        }) in
        (λ k low. v.done k (omega arith), l)

    lower_than-rung : (a b : Option U) → rung b ≤ rung a → lower_than a b ≡ false
    lower_than-rung none none h = refl
    lower_than-rung none (some b) h = absurd (omega arith)
    lower_than-rung (some a) none h = refl
    lower_than-rung (some a) (some b) h = ground arith

    abbrev IsLowAt : Option U → ℕ → Option U → Type 0
    IsLowAt mine k none = Unit
    IsLowAt mine k (some p) = rung (slot (i.parents p) k) ≤ rung mine

    consistent_with-All :
        (mine : Option U) (k : ℕ) (ps : List (Option U))
        → All (IsLowAt mine k) ps
        → consistent_with mine k ps ≡ true
    unfolding consistent_with
    consistent_with-All mine k [] v = refl
    consistent_with-All mine k (none ∷ ps) (_, v) = consistent_with-All mine k ps v
    consistent_with-All mine k (some p ∷ ps) (low, v) =
        rw (lower_than-rung mine (slot (i.parents p) k) low) (consistent_with-All mine k ps v)

    slots-All :
        (mine : Option U) (k : ℕ) (ps : List (Option U))
        → ((j : ℕ) (p : U) → slot ps j ≡ some p → rung (slot (i.parents p) k) ≤ rung mine)
        → All (IsLowAt mine k) ps
    slots-All mine k [] h = tt
    slots-All mine k (none ∷ ps) h = (tt, slots-All mine k ps (λ j p e. h (suc j) p e))
    slots-All mine k (some p ∷ ps) h = (h zero p refl, slots-All mine k ps (λ j q e. h (suc j) q e))

    consistent_from-All :
        (ps : List (Option U)) (k count : ℕ)
        → ((m : ℕ) → k ≤ m → m < k + count → IsConsistentAt m ps)
        → consistent_from ps k count ≡ true
    unfolding consistent_from
    consistent_from-All ps k zero h = refl
    consistent_from-All ps k (suc count) h =
        rw
          (consistent_with-All (slot ps k) k ps
            (slots-All (slot ps k) k ps (h k (omega arith) (omega arith))))
          (consistent_from-All ps (k + 1) count (λ m low high. h m (omega arith) (omega arith)))

    -- MakeConsistent makes any choice of parents in a sound dag consistent in one pass: where every unit of the dag
    -- passes the parent consistency rule, is on no lower level than its parents and has them in the dag, a unit, in
    -- the dag or not, whose parents are units of the dag adjusted by MakeConsistent, passes the check
    -- ParentConsistency of a dag with as many processes.
    pub make_consistent_lem :
        (ps : List (Option U)) (u : U) (d : Store U)
        → AreIn P ps
        → i.parents u ≡ make_consistent ps
        → length ps ≡ d.n_proc
        → parent_consistency u d ≡ none
    unfolding parent_consistency
    make_consistent_lem ps u d known e l =
        let (v, _) = make_consistent-IsConsistent ps known in
        let passes : consistent_from (i.parents u) 0 d.n_proc ≡ true =
          rw e (
            consistent_from-All (make_consistent ps) 0 d.n_proc
              (λ m low high. v m (omega arith))) in
        rw passes refl
