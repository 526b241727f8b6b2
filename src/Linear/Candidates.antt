-- ===== src/Linear/Candidates.antt =====
-- pkg/linear/crp.go: the candidates of a level, and a rule for the loop over them.
use consensus_go.Base.{
  ℕ, ◌+◌, ◌≡◌, refl, Bool, true, false, List, [], ◌∷◌, ◌++◌, map, Option, none, some, arith,
  Bool-cases, inl, inr, ◌⊎◌, All, All-mono, All-append, is_empty,
}
use consensus_go.Gomel.Hash.{Hash, less_than}
use consensus_go.Gomel.Unit.{UnitInterface, hash}
use consensus_go.Dag.Slots.{Slotted, get, get-new_slotted}
use consensus_go.Dag.Fibers.{get_fiber, units_at}
use consensus_go.Dag.Store.{Store, IsCoherent, units_on_level}
use consensus_go.Linear.Votes.{RandomBytes, Ensures, ensures_bind, ensures_any, ensures_if}
use consensus_go.Linear.Sort.{sort_slice, insert}
use consensus_go.Linear.Crp.{
  units_of, default_permutation, prioritized, random_permutation, work_through, work_suffix,
  split_processes, crp_iterate,
}

module _ {A : Type 0} (less : A → A → Bool) (P : A → Type 0) where
  insert-All : (a : A) (bs : List A) → P a → All P bs → All P (insert less a bs)
  unfolding insert
  insert-All a [] p v = (p, tt)
  insert-All a (b ∷ bs) p (q, v) = elim (Bool-cases (less b a)) [
    | inl before ↦ rw before (q, insert-All a bs p v)
    | inr after ↦ rw after (p, (q, v))
  ]

  pub sort_slice-All : (xs : List A) → All P xs → All P (sort_slice less xs)
  unfolding sort_slice
  sort_slice-All [] v = tt
  sort_slice-All (a ∷ xs) (p, v) = insert-All a (sort_slice less xs) p (sort_slice-All xs v)

module _ {U : Type 0} ⦃i : UnitInterface U⦄ where
  -- The units that CRPIterate hands out are of the level.
  abbrev pub IsOnLevel : ℕ → U → Type 0
  IsOnLevel level u = i.level u ≡ level

  get-units_on_level :
      (d : Store U) (level c : ℕ) → get (units_on_level d level) c ≡ units_at d.level_units level c
  unfolding units_on_level get_fiber units_at
  get-units_on_level d level c = ground (arith, get-new_slotted {U = U} d.n_proc c)

  pub get-IsOnLevel :
      (d : Store U) (level c : ℕ)
      → IsCoherent d
      → All (IsOnLevel level) (get (units_on_level d level) c)
  get-IsOnLevel d level c v = rw (get-units_on_level d level c) (
      All-mono _ (IsOnLevel level) (units_at d.level_units level c) (λ u h. h.0)
        (v.levels_placed level c))

  units_of-All :
      (P : U → Type 0) (su : Slotted U) (pids : List ℕ)
      → ((c : ℕ) → All P (get su c))
      → All P (units_of su pids)
  unfolding units_of
  units_of-All P su [] h = tt
  units_of-All P su (c ∷ pids) h =
      All-append P (get su c) (units_of su pids) (h c) (units_of-All P su pids h)

  module _ (shake : List ℕ → Hash) (rs : RandomBytes) where
    abbrev OfUnit : (U → Type 0) → Hash × U → Type 0
    OfUnit P (h, u) = P u

    map-OfUnit :
        (P : U → Type 0) (f : U → Hash) (us : List U)
        → All P us
        → All (OfUnit P) (map (λ u. (f u, u)) us)
    map-OfUnit P f [] v = tt
    map-OfUnit P f (u ∷ us) (p, v) = (p, map-OfUnit P f us v)

    OfUnit-map :
        (P : U → Type 0) (es : List (Hash × U)) → All (OfUnit P) es → All P (map (λ e. e.1) es)
    OfUnit-map P [] v = tt
    OfUnit-map P ((h, u) ∷ es) (p, v) = (p, OfUnit-map P es v)

    prioritized-All :
        (P : U → Type 0) (su : Slotted U) (level : ℕ) (pids : List ℕ)
        → ((c : ℕ) → All P (get su c))
        → Ensures (prioritized shake rs su level pids) (All (OfUnit P))
    unfolding prioritized
    prioritized-All P su level [] h = tt
    prioritized-All P su level (c ∷ pids) h =
        ensures_if (is_empty (get su c)) _ _ _ (λ _. prioritized-All P su level pids h)
          λ _. ensures_bind (rs c (level + 5)) _ _ _ (ensures_any _) λ bytes _.
            ensures_bind (prioritized shake rs su level pids) _ _ _
              (prioritized-All P su level pids h)
              λ es v.
                All-append (OfUnit P) (map (λ u. (shake (bytes ++ hash u), u)) (get su c)) es
                  (map-OfUnit P (λ u. shake (bytes ++ hash u)) (get su c) (h c)) v

    random_permutation-All :
        (P : U → Type 0) (d : Store U) (level : ℕ) (pids : List ℕ)
        → ((c : ℕ) → All P (get (units_on_level d level) c))
        → Ensures (random_permutation shake rs d level pids) (All P)
    unfolding random_permutation
    random_permutation-All P d level pids h =
        ensures_bind (prioritized shake rs (units_on_level d level) level pids) _ _ _
          (prioritized-All P (units_on_level d level) level pids h)
          λ es v.
            OfUnit-map P (sort_slice (λ a b. less_than a.0 b.0) es)
              (sort_slice-All (λ a b. less_than a.0 b.0) (OfUnit P) es v)

  -- The rule of the loop: the work keeps `Going` while it asks for more, and reaches `Done` when it stops.
  module _ {S : Type 0} (work : U → S → Option (S × Bool)) (P : U → Type 0)
      (Going Done : S → Type 0)
      (step : (u : U) (s : S)
        → P u
        → Going s
        → Ensures (work u s) (λ r. (r.1 ≡ true → Going r.0) × (r.1 ≡ false → Done r.0))) where
    work_through_rule :
        (us : List U) (s : S)
        → All P us
        → Going s
        → Ensures
            (work_through work us s)
            (λ r. (r.1 ≡ true → Going r.0) × (r.1 ≡ false → Done r.0))
    unfolding work_through
    work_through_rule [] s v g = (λ _. g, λ e. cc)
    work_through_rule (u ∷ us) s (p, v) g =
        ensures_bind (work u s) _ _ _ (step u s p g) λ (s', more) h.
          ensures_if more _ _ _ (λ e. work_through_rule us s' v (h.0 e))
            (λ e. (λ t. cc, λ _. h.1 e))

    pub crp_iterate_rule :
        (shake : List ℕ → Hash) (rs : RandomBytes) (d : Store U) (prefix level : ℕ) (tu : Option ℕ)
        (s : S)
        → ((c : ℕ) → All P (get (units_on_level d level) c))
        → Going s
        → Ensures (crp_iterate shake rs d prefix level tu work s) (λ r. Going r.0 ⊎ Done r.0)
    unfolding crp_iterate default_permutation
    crp_iterate_rule shake rs d prefix level tu s h g =
        let split = split_processes d.n_proc prefix level tu in
        let by_hash : U → U → Bool = λ u v. less_than (hash u) (hash v) in
        let front = units_of (units_on_level d level) split.0 in
        ensures_bind (work_through work (sort_slice by_hash front) s) _ _ _
          (work_through_rule (sort_slice by_hash front) s
            (sort_slice-All by_hash P front (units_of-All P (units_on_level d level) split.0 h)) g)
          λ (s', more) r.
            ensures_if more _ _ _
              (λ e.
                suffix_rule (random_permutation shake rs d level split.1) s'
                  (random_permutation-All shake rs P d level split.1 h) (r.0 e))
              (λ e. inr (r.1 e))
      where
        both :
            (t : S) (more : Bool)
            → (more ≡ true → Going t) × (more ≡ false → Done t)
            → Going t ⊎ Done t
        both t true r = inl (r.0 refl)
        both t false r = inr (r.1 refl)

        suffix_rule :
            (us : Option (List U)) (t : S)
            → Ensures us (All P)
            → Going t
            → Ensures (work_suffix work us t) (λ r. Going r.0 ⊎ Done r.0)
        suffix_rule none t v g' = inl g'
        suffix_rule (some us) t v g' =
            ensures_bind (work_through work us t) _ _ _ (work_through_rule us t v g')
              λ (t', more) r. both t' more r
