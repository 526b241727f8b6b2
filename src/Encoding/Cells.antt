-- ===== src/Encoding/Cells.antt =====
-- pkg/encoding/public.go: the loops of sortChunk over epochs and layers.
use consensus_go.Base.{
  ℕ, zero, suc, ◌+◌, ◌≡◌, ◌≢◌, ◌<◌, ◌≤◌, ◌↔◌, refl, ap₂, ◌∙◌, Bool, true, false, ◌&&◌, List, [],
  ◌∷◌, ◌++◌, none, some, leb, ◌-◌, ◌%◌, ◌^◌, arith, ltb, ◌==◌, if◌then◌else◌, Bool-cases, inl, inr,
  ◌⊎◌, All,
}
use consensus_go.Base.Int.{ℤ, pos, negsuc, ltb_ℤ, eq_ℤ}
use consensus_go.Gomel.Unit.{UnitInterface, epoch_id}
use consensus_go.Encoding.Chunk.{
  layer_of, select, select_layers, select_epochs, layer_count, max_epoch, min_epoch, sort_by_layers,
  sort_chunk, compute_layers, start_layers,
}
use consensus_go.Encoding.Sorting.{IsPos, start_layers-AreLayers, compute_layers-known}
use mathlib.Core.List.{Perm, perm_middle}
use mathlib.Core.List.Perm

module _ {U : Type 0} ⦃i : UnitInterface U⦄ where
  module _ (ls : List (U × ℤ)) where
    abbrev in_cell : ℕ → ℕ → U → Bool
    in_cell e k u = epoch_id u == e && eq_ℤ (layer_of ls u) (pos k)

    select-cons :
        (e k : ℕ) (u : U) (us : List U)
        → select ls e k (u ∷ us)
          ≡ (if in_cell e k u then u ∷ select ls e k us else select ls e k us)
    unfolding select
    select-cons e k u us = refl

    -- A unit that is in none of the cells does not show.
    select_layers-miss :
        (e k l count : ℕ) (u : U) (us : List U)
        → layer_of ls u ≡ pos k
        → (epoch_id u ≢ e) ⊎ (k < l)
        → select_layers ls e l count (u ∷ us) ≡ select_layers ls e l count us
    unfolding select_layers
    select_layers-miss e k l zero u us h out = refl
    select_layers-miss e k l (suc count) u us h out =
        ap₂ (λ a b. a ++ b) (select-cons e l u us ∙ outside out)
          (select_layers-miss e k (l + 1) count u us h (later out))
      where
        outside :
            (epoch_id u ≢ e) ⊎ (k < l)
            → (if in_cell e l u then u ∷ select ls e l us else select ls e l us) ≡ select ls e l us
        outside (inl other) = rw h (ground arith)
        outside (inr low) = rw h (ground arith)

        later : (epoch_id u ≢ e) ⊎ (k < l) → (epoch_id u ≢ e) ⊎ (k < l + 1)
        later (inl other) = inl other
        later (inr low) = inr (omega arith)

    -- A unit of the epoch shows once.
    select_layers-hit :
        (e k l count : ℕ) (u : U) (us : List U)
        → epoch_id u ≡ e
        → layer_of ls u ≡ pos k
        → l ≤ k
        → k < l + count
        → Perm (select_layers ls e l count (u ∷ us)) (u ∷ select_layers ls e l count us)
    unfolding select_layers
    select_layers-hit e k l zero u us he hk low high = absurd (omega arith)
    select_layers-hit e k l (suc count) u us he hk low high = elim (Bool-cases (k == l)) [
      | inl here ↦
          let cell : in_cell e l u ≡ true = rw hk (ground arith) in
          let rest = select_layers-miss e k (l + 1) count u us hk (inr (ground arith)) in
          rw (select-cons e l u us, cell, rest) (Perm.refl _)
      | inr there ↦
          let cell : in_cell e l u ≡ false = rw hk (ground arith) in
          rw (select-cons e l u us, cell)
            (Perm.trans
              (Perm.append_left (select ls e l us)
                (select_layers-hit e k (l + 1) count u us he hk (ground arith) (omega arith)))
              (perm_middle (select ls e l us) _))
    ]

    -- The units of `count` epochs from `epoch` on.
    abbrev epochs_from : ℕ → ℕ → ℕ → List U → List U
    epochs_from epoch zero layers us = []
    epochs_from epoch (suc count) layers us =
        select_layers ls epoch 0 layers us ++ epochs_from (epoch + 1) count layers us

    -- The loop goes through the epochs up to the last and ends, unless the last is the largest uint32.
    select_epochs-ends :
        (n rounds low top m : ℕ) (us : List U)
        → low + n ≡ top + 1
        → top < 2 ^ 32 - 1
        → n < rounds
        → select_epochs ls rounds low top m us ≡ some (epochs_from low n m us)
    unfolding select_epochs
    select_epochs-ends n zero low top m us e h f = absurd (omega arith)
    select_epochs-ends zero (suc rounds) low top m us e h f =
        let past : leb low top ≡ false = ground arith in rw past refl
    select_epochs-ends (suc n) (suc rounds) low top m us e h f =
        let inside : leb low top ≡ true = ground arith in
        let next : (low + 1) % 2 ^ 32 ≡ low + 1 = omega arith in
        let rest = select_epochs-ends n rounds (low + 1) top m us (omega arith) h (omega arith) in
        rw (inside, next, rest) refl

    -- Up to the largest uint32 the loop never ends.
    select_epochs-endless :
        (rounds epoch m : ℕ) (us : List U)
        → epoch < 2 ^ 32
        → select_epochs ls rounds epoch (2 ^ 32 - 1) m us ≡ none
    unfolding select_epochs
    select_epochs-endless zero epoch m us h = refl
    select_epochs-endless (suc rounds) epoch m us h =
        let inside : leb epoch (2 ^ 32 - 1) ≡ true = ground arith in
        let rest = select_epochs-endless rounds ((epoch + 1) % 2 ^ 32) m us (omega arith) in
        rw (inside, rest) refl

    epochs_from-miss :
        (low n m k : ℕ) (u : U) (us : List U)
        → layer_of ls u ≡ pos k
        → epoch_id u < low
        → epochs_from low n m (u ∷ us) ≡ epochs_from low n m us
    epochs_from-miss low zero m k u us h out = refl
    epochs_from-miss low (suc n) m k u us h out =
        ap₂ (λ a b. a ++ b) (select_layers-miss low k 0 m u us h (inl (λ e. omega arith)))
          (epochs_from-miss (low + 1) n m k u us h (omega arith))

    epochs_from-hit :
        (low n m k : ℕ) (u : U) (us : List U)
        → low ≤ epoch_id u
        → epoch_id u < low + n
        → layer_of ls u ≡ pos k
        → k < m
        → Perm (epochs_from low n m (u ∷ us)) (u ∷ epochs_from low n m us)
    epochs_from-hit low zero m k u us a b h c = absurd (omega arith)
    epochs_from-hit low (suc n) m k u us a b h c = elim (Bool-cases (epoch_id u == low)) [
      | inl here ↦ rw (epochs_from-miss (low + 1) n m k u us h (ground arith)) (
          Perm.append_right _
            (select_layers-hit low k 0 m u us (ground arith) h (omega arith) (omega arith)))
      | inr there ↦ rw (select_layers-miss low k 0 m u us h (inl (λ e. ground arith))) (
          Perm.trans
            (Perm.append_left (select_layers ls low 0 m us)
              (epochs_from-hit (low + 1) n m k u us (ground arith) (omega arith) h c))
            (perm_middle (select_layers ls low 0 m us) _))
    ]

    abbrev IsInRange : ℕ → ℕ → ℕ → U → Type 0
    IsInRange low n m u =
        (low ≤ epoch_id u) × (epoch_id u < low + n) × ((k : ℕ) × (layer_of ls u ≡ pos k) × (k < m))

    select_layers-nil : (e l count : ℕ) → select_layers ls e l count [] ≡ []
    unfolding select_layers select
    select_layers-nil e l zero = refl
    select_layers-nil e l (suc count) = select_layers-nil e (l + 1) count

    epochs_from-nil : (low n m : ℕ) → epochs_from low n m [] ≡ []
    epochs_from-nil low zero m = refl
    epochs_from-nil low (suc n) m = rw (select_layers-nil low 0 m) (epochs_from-nil (low + 1) n m)

    epochs_from-Perm :
        (low n m : ℕ) (us : List U) → All (IsInRange low n m) us → Perm (epochs_from low n m us) us
    epochs_from-Perm low n m [] v = rw (epochs_from-nil low n m) (Perm.refl [])
    epochs_from-Perm low n m (u ∷ us) ((a, b, (k, h, c)), v) =
        Perm.trans (epochs_from-hit low n m k u us a b h c)
          (Perm.cons u (epochs_from-Perm low n m us v))

    min_epoch-bounds :
        (us : List U) (e : ℕ) → (min_epoch us e ≤ e) × All (λ u. min_epoch us e ≤ epoch_id u) us
    unfolding min_epoch
    min_epoch-bounds [] e = (omega arith, tt)
    min_epoch-bounds (u ∷ us) e =
        let (a, v) = min_epoch-bounds us (if ltb (epoch_id u) e then epoch_id u else e) in
        (ground arith, (ground arith, v))

    max_epoch-bounds :
        (us : List U) (e : ℕ) → (e ≤ max_epoch us e) × All (λ u. epoch_id u ≤ max_epoch us e) us
    unfolding max_epoch
    max_epoch-bounds [] e = (omega arith, tt)
    max_epoch-bounds (u ∷ us) e =
        let (a, v) = max_epoch-bounds us (if ltb e (epoch_id u) then epoch_id u else e) in
        (ground arith, (ground arith, v))

    abbrev IsCounted : ℕ → ℤ → Type 0
    IsCounted m (pos k) = k < m
    IsCounted m (negsuc k) = Unit

    IsCounted-larger :
        (m : ℕ) (h c : ℤ) → IsCounted m (if ltb_ℤ h c then c else h) → IsCounted m h × IsCounted m c
    IsCounted-larger m (pos h) (pos c) v = (ground arith, ground arith)
    IsCounted-larger m (pos h) (negsuc c) v = (ground arith, tt)
    IsCounted-larger m (negsuc h) (pos c) v = (tt, ground arith)
    IsCounted-larger m (negsuc h) (negsuc c) v = (tt, tt)

    layer_count-IsCounted :
        (us : List U) (h : ℤ)
        → IsCounted (layer_count ls us h) h
          × All (λ u. IsCounted (layer_count ls us h) (layer_of ls u)) us
    unfolding layer_count
    layer_count-IsCounted [] (pos n) = (omega arith, tt)
    layer_count-IsCounted [] (negsuc n) = (tt, tt)
    layer_count-IsCounted (u ∷ us) h =
        let (a, v) =
          layer_count-IsCounted us (if ltb_ℤ h (layer_of ls u) then layer_of ls u else h) in
        let (b, c) = IsCounted-larger _ h (layer_of ls u) a in (b, (c, v))

    layer_in : (m : ℕ) (l : ℤ) → IsPos l → IsCounted m l → (k : ℕ) × (l ≡ pos k) × (k < m)
    layer_in m (pos k) p c = (k, refl, c)
    layer_in m (negsuc k) p c = absurd p

    All-IsInRange :
        (low n m top : ℕ) (us : List U)
        → top < low + n
        → All (λ u. low ≤ epoch_id u) us
        → All (λ u. epoch_id u ≤ top) us
        → All (λ u. IsPos (layer_of ls u)) us
        → All (λ u. IsCounted m (layer_of ls u)) us
        → All (IsInRange low n m) us
    All-IsInRange low n m top [] h a b p c = tt
    All-IsInRange low n m top (u ∷ us) h (a, as') (b, bs) (p, ps) (c, cs) = (
      (a, omega arith, layer_in m (layer_of ls u) p c),
      All-IsInRange low n m top us h as' bs ps cs,
    )

    max_epoch-lt :
        (us : List U) (e bound : ℕ)
        → e < bound
        → All (λ u. epoch_id u < bound) us
        → max_epoch us e < bound
    unfolding max_epoch
    max_epoch-lt [] e bound h v = h
    max_epoch-lt (u ∷ us) e bound h (a, v) =
        max_epoch-lt us (if ltb e (epoch_id u) then epoch_id u else e) bound (ground arith) v

    sort_by_layers-Perm :
        (rounds : ℕ) (us : List U)
        → All (λ u. epoch_id u < 2 ^ 32 - 1) us
        → 2 ^ 32 ≤ rounds
        → All (λ u. IsPos (layer_of ls u)) us
        → (xs : List U) × (sort_by_layers ls rounds us ≡ some xs) × Perm xs us
    unfolding sort_by_layers
    sort_by_layers-Perm rounds [] small enough v = ([], refl, Perm.refl [])
    sort_by_layers-Perm rounds (u ∷ us) small enough v =
        let low = min_epoch-bounds (u ∷ us) (epoch_id u) in
        let top = max_epoch-bounds (u ∷ us) (epoch_id u) in
        let last : max_epoch (u ∷ us) (epoch_id u) < 2 ^ 32 - 1 =
          max_epoch-lt (u ∷ us) (epoch_id u) (2 ^ 32 - 1) small.0 small in
        let count = max_epoch (u ∷ us) (epoch_id u) + 1 - min_epoch (u ∷ us) (epoch_id u) in
        let layers = layer_count ls (u ∷ us) (negsuc 0) in
        (
          epochs_from (min_epoch (u ∷ us) (epoch_id u)) count layers (u ∷ us),
          select_epochs-ends count rounds _ _ layers (u ∷ us) (omega (arith, low.0, top.0)) last
              (omega (arith, last, enough)),
          epochs_from-Perm _ _ _ (u ∷ us) (
              All-IsInRange _ _ _ (max_epoch (u ∷ us) (epoch_id u)) (u ∷ us)
                (omega (arith, low.0, top.0)) low.1 top.1 v
                (layer_count-IsCounted (u ∷ us) (negsuc 0)).1),
        )

  -- Where `same` tells the units apart and no unit is of epoch 2^32-1 or above, sortChunk returns and only rearranges:
  -- the units that it answers with are the units of the chunk, each as often as there, for any depth of at least 1
  -- that computeLayer may go to; 2^32 rounds of its loop over epochs are enough.
  pub sort_chunk-perm :
      (rounds fuel : ℕ) (us : List U)
      → ((u v : U) → (i.same u v ≡ true) ↔ (u ≡ v))
      → All (λ u. epoch_id u < 2 ^ 32 - 1) us
      → 2 ^ 32 ≤ rounds
      → (xs : List U) × (sort_chunk rounds (suc fuel) us ≡ some xs) × Perm xs us
  unfolding sort_chunk layer_of
  sort_chunk-perm rounds fuel us same_iff small enough =
      sort_by_layers-Perm (compute_layers (suc fuel) us (start_layers us [])) rounds us small enough
        (compute_layers-known same_iff fuel us (start_layers us [])
          (start_layers-AreLayers same_iff us [] (λ w. tt))).1

  -- On a chunk with a first unit of epoch 2^32-1, and no epoch that is no uint32, sortChunk does not return: no number
  -- of rounds of its loop over epochs is enough, since the counter wraps.
  pub sort_chunk_endless :
      (rounds fuel : ℕ) (u : U) (us : List U)
      → epoch_id u ≡ 2 ^ 32 - 1
      → All (λ v. epoch_id v < 2 ^ 32) us
      → sort_chunk rounds fuel (u ∷ us) ≡ none
  unfolding sort_chunk sort_by_layers
  sort_chunk_endless rounds fuel u us e small =
      let ls = compute_layers fuel (u ∷ us) (start_layers (u ∷ us) []) in
      let start : epoch_id u < 2 ^ 32 = omega arith in
      let low = min_epoch-bounds ls (u ∷ us) (epoch_id u) in
      let top = max_epoch-bounds ls (u ∷ us) (epoch_id u) in
      let bounded = max_epoch-lt ls (u ∷ us) (epoch_id u) (2 ^ 32) start (start, small) in
      let last : max_epoch (u ∷ us) (epoch_id u) ≡ 2 ^ 32 - 1 = omega (arith, top.0, bounded) in
      rw last (select_epochs-endless ls rounds _ _ (u ∷ us) (omega (arith, low.0)))
