-- ===== src/Linear/Layers.antt =====
-- pkg/linear/timing_round.go: the layers of a round, and the sorted units of the layers.
use consensus_go.Base.{
  ℕ, zero, suc, ◌+◌, ◌≡◌, ◌<◌, ◌≤◌, refl, sym, subst, Bool, true, false, List, [], ◌∷◌, ◌++◌,
  Option, arith, leb, length, take, Bool-cases, inl, inr, ◌⊎◌, All, All-mono, All-append,
}
use consensus_go.Gomel.Hash.{Hash, hash_eq, hash_eq_iff, hash_eq_refl, xor, less_than}
use consensus_go.Gomel.Unit.{UnitInterface, hash}
use consensus_go.Linear.Sort.{sort_slice}
use consensus_go.Linear.Candidates.{sort_slice-All}
use consensus_go.Linear.TimingRound.{append_layer, sort_layers}
use consensus_go.Linear.Once.{count_hash, count_layers, count_hash-append, count_hash-sort_slice}
use consensus_go.Linear.Accounted.{IsAccounted-mono, AreAccounted}

module _ {U : Type 0} ⦃i : UnitInterface U⦄ where
  append_layer-suc :
      (us : List U) (layers : List (List U)) (l : ℕ) (u : U)
      → append_layer (us ∷ layers) (suc l) u ≡ us ∷ append_layer layers l u
  unfolding append_layer
  append_layer-suc us layers l u = elim (Bool-cases (leb (length layers) l)) [
    | inl past ↦
        let e : leb (suc (length layers)) (suc l) ≡ true = ground arith in rw (e, past) refl
    | inr inside ↦
        let e : leb (suc (length layers)) (suc l) ≡ false = ground arith in rw (e, inside) refl
  ]

  append_layer-zero :
      (us : List U) (layers : List (List U)) (u : U)
      → append_layer (us ∷ layers) zero u ≡ (us ++ (u ∷ [])) ∷ layers
  unfolding append_layer
  append_layer-zero us layers u =
      let e : leb (suc (length layers)) 0 ≡ false = ground arith in rw e refl

  -- The units with the hash `h` in the first layers.
  abbrev pub count_first : Hash → ℕ → List (List U) → ℕ
  count_first h k layers = count_layers h (take k layers)

  pub count_first_mono :
      (h : Hash) (k j : ℕ) (layers : List (List U))
      → k ≤ j
      → count_first h k layers ≤ count_first h j layers
  count_first_mono h zero j layers l = omega arith
  count_first_mono h (suc k) zero layers l = absurd (omega arith)
  count_first_mono h (suc k) (suc j) [] l = omega arith
  count_first_mono h (suc k) (suc j) (us ∷ layers) l =
      omega (arith, count_first_mono h k j layers (omega arith))

  pub count_first-append_layer :
      (h : Hash) (k l : ℕ) (layers : List (List U)) (u : U)
      → count_first h k layers ≤ count_first h k (append_layer layers l u)
  unfolding append_layer
  count_first-append_layer h zero l layers u = omega arith
  count_first-append_layer h (suc k) l [] u = omega arith
  count_first-append_layer h (suc k) zero (us ∷ layers) u =
      ground (arith, count_hash-append h us (u ∷ []))
  count_first-append_layer h (suc k) (suc l) (us ∷ layers) u =
      rw (append_layer-suc us layers l u) (omega (arith, count_first-append_layer h k l layers u))

  pub length-append_layer :
      (l : ℕ) (layers : List (List U)) (u : U) → length layers ≤ length (append_layer layers l u)
  unfolding append_layer
  length-append_layer l [] u = omega arith
  length-append_layer zero (us ∷ layers) u = ground arith
  length-append_layer (suc l) (us ∷ layers) u =
      rw (append_layer-suc us layers l u) (omega (arith, length-append_layer l layers u))

  -- A unit whose layer is at most one past the last stands in that layer.
  pub append_layer-here :
      (l : ℕ) (layers : List (List U)) (u : U)
      → l ≤ length layers
      → (l < length (append_layer layers l u))
        × (1 ≤ count_first (hash u) (suc l) (append_layer layers l u))
  unfolding append_layer
  append_layer-here zero [] u v = ground (arith, hash_eq_refl (hash u))
  append_layer-here (suc l) [] u v = absurd (omega arith)
  append_layer-here zero (us ∷ layers) u v =
      ground (arith, count_hash-append (hash u) us (u ∷ []), hash_eq_refl (hash u))
  append_layer-here (suc l) (us ∷ layers) u v =
      let (a, b) = append_layer-here l layers u (omega arith) in
      rw (append_layer-suc us layers l u) (omega arith, omega arith)

  module _ (ts : List (Option U)) where
    -- The parents of the units of each layer are accounted for by `P` and the layers before.
    abbrev pub IsLayered : (Hash → Type 0) → List (List U) → Type 0
    IsLayered P [] = Unit
    IsLayered P (us ∷ layers) =
        All (AreAccounted ts P) us × IsLayered (λ h. P h ⊎ (1 ≤ count_hash h us)) layers

    AreAccounted-All :
        (P Q : Hash → Type 0) (us : List U)
        → ((h : Hash) → P h → Q h)
        → All (AreAccounted ts P) us
        → All (AreAccounted ts Q) us
    AreAccounted-All P Q us f =
        All-mono _ _ us λ u. All-mono _ _ (i.parents u) λ p. IsAccounted-mono ts P Q p f

    widen :
        (P Q R S : Hash → Type 0)
        → ((h : Hash) → P h → Q h)
        → ((h : Hash) → R h → S h)
        → (h : Hash) → P h ⊎ R h
        → Q h ⊎ S h
    widen P Q R S f g h (inl p) = inl (f h p)
    widen P Q R S f g h (inr r) = inr (g h r)

    IsLayered-mono :
        (P Q : Hash → Type 0) (layers : List (List U))
        → ((h : Hash) → P h → Q h)
        → IsLayered P layers
        → IsLayered Q layers
    IsLayered-mono P Q [] f v = tt
    IsLayered-mono P Q (us ∷ layers) f (v, vs) = (
      AreAccounted-All P Q us f v,
      IsLayered-mono (λ h. P h ⊎ (1 ≤ count_hash h us)) (λ h. Q h ⊎ (1 ≤ count_hash h us)) layers
          (widen P Q (λ h. 1 ≤ count_hash h us) (λ h. 1 ≤ count_hash h us) f (λ h e. e)) vs,
    )

    pub append_layer-IsLayered :
        (P : Hash → Type 0) (l : ℕ) (layers : List (List U)) (u : U)
        → l ≤ length layers
        → AreAccounted ts (λ h. P h ⊎ (1 ≤ count_first h l layers)) u
        → IsLayered P layers
        → IsLayered P (append_layer layers l u)
    unfolding append_layer
    append_layer-IsLayered P zero [] u l a v =
        ((All-mono _ _ (i.parents u) (λ p. IsAccounted-mono ts _ P p (λ h. only h)) a, tt), tt)
      where
        only : (h : Hash) → P h ⊎ (1 ≤ 0) → P h
        only h (inl p) = p
        only h (inr e) = absurd (omega arith)
    append_layer-IsLayered P (suc l) [] u b a v = absurd (omega arith)
    append_layer-IsLayered P zero (us ∷ layers) u l a (v, vs) =
        subst (IsLayered P) (sym (append_layer-zero us layers u)) (
          All-append (AreAccounted ts P) us (u ∷ []) v
              (All-mono _ _ (i.parents u) (λ p. IsAccounted-mono ts _ P p (λ h. only h)) a, tt),
          IsLayered-mono _ _ layers
              (widen P P (λ h. 1 ≤ count_hash h us) (λ h. 1 ≤ count_hash h (us ++ (u ∷ [])))
                (λ h e. e) (λ h e. omega (arith, count_hash-append h us (u ∷ []))))
              vs,
        )
      where
        only : (h : Hash) → P h ⊎ (1 ≤ 0) → P h
        only h (inl p) = p
        only h (inr e) = absurd (omega arith)
    append_layer-IsLayered P (suc l) (us ∷ layers) u b a (v, vs) =
        subst (IsLayered P) (sym (append_layer-suc us layers l u)) (
          v,
          append_layer-IsLayered (λ h. P h ⊎ (1 ≤ count_hash h us)) l layers u (omega arith)
              (All-mono _ _ (i.parents u) (λ p. IsAccounted-mono ts _ _ p (λ h. split h)) a) vs,
        )
      where
        split :
            (h : Hash)
            → P h ⊎ (1 ≤ count_hash h us + count_first h l layers)
            → (P h ⊎ (1 ≤ count_hash h us)) ⊎ (1 ≤ count_first h l layers)
        split h (inl p) = inl (inl p)
        split h (inr e) = elim (Bool-cases (leb 1 (count_hash h us))) [
          | inl here ↦ inl (inr (ground arith))
          | inr later ↦ inr (ground arith)
        ]

    -- Each unit stands behind its parents, but for those that `P` accounts for.
    abbrev pub FollowsParents : (Hash → Type 0) → List U → Type 0
    FollowsParents P [] = Unit
    FollowsParents P (u ∷ us) = AreAccounted ts P u × FollowsParents (λ h. P h ⊎ (hash u ≡ h)) us

    FollowsParents-mono :
        (P Q : Hash → Type 0) (us : List U)
        → ((h : Hash) → P h → Q h)
        → FollowsParents P us
        → FollowsParents Q us
    FollowsParents-mono P Q [] f v = tt
    FollowsParents-mono P Q (u ∷ us) f (v, vs) = (
      All-mono _ _ (i.parents u) (λ p. IsAccounted-mono ts P Q p f) v,
      FollowsParents-mono (λ h. P h ⊎ (hash u ≡ h)) (λ h. Q h ⊎ (hash u ≡ h)) us
          (widen P Q (λ h. hash u ≡ h) (λ h. hash u ≡ h) f (λ h e. e)) vs,
    )

    append-FollowsParents :
        (P : Hash → Type 0) (us vs : List U)
        → All (AreAccounted ts P) us
        → FollowsParents (λ h. P h ⊎ (1 ≤ count_hash h us)) vs
        → FollowsParents P (us ++ vs)
    append-FollowsParents P [] vs v w = FollowsParents-mono _ P vs only w
      where
        only : (h : Hash) → P h ⊎ (1 ≤ 0) → P h
        only h (inl p) = p
        only h (inr e) = absurd (omega arith)
    append-FollowsParents P (u ∷ us) vs (v, rest) w = (
      v,
      append-FollowsParents (λ h. P h ⊎ (hash u ≡ h)) us vs
          (AreAccounted-All P (λ h. P h ⊎ (hash u ≡ h)) us (λ h e. inl e) rest)
          (FollowsParents-mono _ _ vs split w),
    )
      where
        split :
            (h : Hash)
            → P h ⊎ (1 ≤ count_hash h (u ∷ us))
            → (P h ⊎ (hash u ≡ h)) ⊎ (1 ≤ count_hash h us)
        split h (inl p) = inl (inl p)
        split h (inr e) = elim (Bool-cases (hash_eq (hash u) h)) [
          | inl hit ↦ inl (inr ((hash_eq_iff (hash u) h).0 hit))
          | inr miss ↦ inr (ground arith)
        ]

    pub sort_layers-FollowsParents :
        (P : Hash → Type 0) (total : Hash) (layers : List (List U))
        → IsLayered P layers
        → FollowsParents P (sort_layers total layers)
    unfolding sort_layers
    sort_layers-FollowsParents P total [] v = tt
    sort_layers-FollowsParents P total (us ∷ layers) (v, vs) =
        let less : U → U → Bool = λ a b. less_than (xor total (hash a)) (xor total (hash b)) in
        append-FollowsParents P (sort_slice less us) (sort_layers total layers)
          (sort_slice-All less (AreAccounted ts P) us v)
          (FollowsParents-mono _ _ (sort_layers total layers)
            (widen P P (λ h. 1 ≤ count_hash h us) (λ h. 1 ≤ count_hash h (sort_slice less us))
              (λ h e. e) (λ h e. omega (arith, count_hash-sort_slice less h us)))
            (sort_layers-FollowsParents (λ h. P h ⊎ (1 ≤ count_hash h us)) total layers vs))
