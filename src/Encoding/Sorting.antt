-- ===== src/Encoding/Sorting.antt =====
-- pkg/encoding/public.go: which units sortChunk leaves in a chunk.
use consensus_go.Base.{
  ℕ, zero, suc, ◌≡◌, ◌↔◌, refl, sym, ◌∙◌, true, false, List, [], ◌∷◌, Option, none, some, arith,
  if◌then◌else◌, Bool-cases, inl, inr, All,
}
use consensus_go.Base.Int.{ℤ, pos, negsuc, ltb_ℤ, eq_ℤ, inc}
use consensus_go.Gomel.Unit.{UnitInterface}
use consensus_go.Encoding.Chunk.{
  layer_of, set_layer, max_parent_layer, compute_layer, start_layers, compute_layers,
}

abbrev pub IsPos : ℤ → Type 0
IsPos (pos n) = Unit
IsPos (negsuc n) = ⊥

-- A layer, or the mark of a unit whose layer is not known.
abbrev IsLayer : ℤ → Type 0
IsLayer (pos n) = Unit
IsLayer (negsuc n) = n ≡ 0

IsPos-larger : (h c : ℤ) → IsPos h → IsPos (if ltb_ℤ h c then c else h)
IsPos-larger (pos h) (pos c) v = ground arith
IsPos-larger (pos h) (negsuc c) v = ground arith
IsPos-larger (negsuc h) c v = absurd v

IsPos-inc : (h : ℤ) → IsPos h → IsPos (inc h)
IsPos-inc (pos h) v = ground arith
IsPos-inc (negsuc h) v = absurd v

IsLayer-known : (h : ℤ) → IsLayer h → eq_ℤ h (negsuc 0) ≡ false → IsPos h
IsLayer-known (pos n) v e = tt
IsLayer-known (negsuc n) v e = absurd (ground arith)

IsPos-IsLayer : (h : ℤ) → IsPos h → IsLayer h
IsPos-IsLayer (pos n) v = tt
IsPos-IsLayer (negsuc n) v = absurd v

module _ {U : Type 0} ⦃i : UnitInterface U⦄
    (same_iff : (u v : U) → (i.same u v ≡ true) ↔ (u ≡ v)) where
  layer_of-set_layer :
      (ls : List (U × ℤ)) (u : U) (l : ℤ) (w : U)
      → layer_of (set_layer ls u l) w ≡ (if i.same u w then l else layer_of ls w)
  unfolding layer_of set_layer
  layer_of-set_layer [] u l w = refl
  layer_of-set_layer ((v, k) ∷ ls) u l w = elim (Bool-cases (i.same v u)) [
    | inl hit ↦ rw hit (
        let e : v ≡ u = (same_iff v u).0 hit in
        rw e
          (elim (Bool-cases (i.same u w)) [ inl here ↦ rw here refl | inr there ↦ rw there refl ]))
    | inr miss ↦ rw miss (elim (Bool-cases (i.same v w)) [
      | inl here ↦ rw here (elim (Bool-cases (i.same u w)) [
        | inl also ↦
            let e : v ≡ w = (same_iff v w).0 here in
            let f : u ≡ w = (same_iff u w).0 also in
            let g : i.same v u ≡ true = (same_iff v u).1 (e ∙ sym f) in cc (g, miss)
        | inr other ↦ rw other refl
      ])
      | inr there ↦ rw there (layer_of-set_layer ls u l w)
    ])
  ]

  abbrev pub AreLayers : List (U × ℤ) → Type 0
  AreLayers ls = (w : U) → IsLayer (layer_of ls w)

  -- Layers that are known stay known.
  pub record Computes (ls ls' : List (U × ℤ)) : Type 0 where
    layers : AreLayers ls'
    still_known : (w : U) → IsPos (layer_of ls w) → IsPos (layer_of ls' w)

  set_layer-Computes :
      (ls : List (U × ℤ)) (u : U) (l : ℤ) → IsPos l → AreLayers ls → Computes ls (set_layer ls u l)
  set_layer-Computes ls u l p v = record {
    layers = λ w. elim (Bool-cases (i.same u w)) [
      | inl hit ↦ rw (layer_of-set_layer ls u l w, hit) (IsPos-IsLayer l p)
      | inr miss ↦ rw (layer_of-set_layer ls u l w, miss) (v w)
    ];
    still_known = λ w e. elim (Bool-cases (i.same u w)) [
      | inl hit ↦ rw (layer_of-set_layer ls u l w, hit) p
      | inr miss ↦ rw (layer_of-set_layer ls u l w, miss) e
    ];
  }

  Computes-trans : (a b c : List (U × ℤ)) → Computes a b → Computes b c → Computes a c
  Computes-trans a b c x y = record {
    layers = y.layers;
    still_known = λ w e. y.still_known w (x.still_known w e);
  }

  Computes-refl : (a : List (U × ℤ)) → AreLayers a → Computes a a
  Computes-refl a v = record { layers = v; still_known = λ w e. e }

  max_parent_layer-Computes :
      (layer : U → List (U × ℤ) → ℤ × List (U × ℤ)) (ps : List (Option U)) (h : ℤ)
      (ls : List (U × ℤ))
      → ((u : U) (ks : List (U × ℤ)) → AreLayers ks → Computes ks (layer u ks).1)
      → IsPos h
      → AreLayers ls
      → IsPos (max_parent_layer layer ps h ls).0 × Computes ls (max_parent_layer layer ps h ls).1
  unfolding max_parent_layer
  max_parent_layer-Computes layer [] h ls f p v = (p, Computes-refl ls v)
  max_parent_layer-Computes layer (none ∷ ps) h ls f p v =
      max_parent_layer-Computes layer ps h ls f p v
  max_parent_layer-Computes layer (some u ∷ ps) h ls f p v =
      let a = f u ls v in
      let (q, b) =
        max_parent_layer-Computes layer ps (if ltb_ℤ h (layer u ls).0 then (layer u ls).0 else h)
          (layer u ls).1 f (IsPos-larger h (layer u ls).0 p) a.layers in
      (q, Computes-trans ls (layer u ls).1 _ a b)

  compute_layer-Computes :
      (fuel : ℕ) (u : U) (ls : List (U × ℤ))
      → AreLayers ls
      → Computes ls (compute_layer fuel u ls).1
  unfolding compute_layer
  compute_layer-Computes zero u ls v = Computes-refl ls v
  compute_layer-Computes (suc fuel) u ls v =
      let (p, a) =
        max_parent_layer-Computes (compute_layer fuel) (i.parents u) (pos 0) ls
          (compute_layer-Computes fuel) tt v in
      elim (Bool-cases (eq_ℤ (layer_of ls u) (negsuc 0))) [
        | inl open' ↦
            rw open' (Computes-trans ls _ _ a (set_layer-Computes _ u _ (IsPos-inc _ p) a.layers))
        | inr known ↦ rw known (Computes-refl ls v)
      ]

  compute_layer-IsPos :
      (fuel : ℕ) (u : U) (ls : List (U × ℤ))
      → AreLayers ls
      → IsPos (compute_layer (suc fuel) u ls).0
  unfolding compute_layer
  compute_layer-IsPos fuel u ls v = elim (Bool-cases (eq_ℤ (layer_of ls u) (negsuc 0))) [
    | inl open' ↦ rw open' (
        IsPos-inc _
          (max_parent_layer-Computes (compute_layer fuel) (i.parents u) (pos 0) ls
            (compute_layer-Computes fuel) tt v).0)
    | inr known ↦ rw known (IsLayer-known (layer_of ls u) (v u) known)
  ]

  pub start_layers-AreLayers :
      (us : List U) (ls : List (U × ℤ)) → AreLayers ls → AreLayers (start_layers us ls)
  unfolding start_layers
  start_layers-AreLayers [] ls v = v
  start_layers-AreLayers (u ∷ us) ls v = start_layers-AreLayers us (set_layer ls u (negsuc 0)) λ w.
      elim (Bool-cases (i.same u w)) [
        | inl hit ↦ rw (layer_of-set_layer ls u (negsuc 0) w, hit) refl
        | inr miss ↦ rw (layer_of-set_layer ls u (negsuc 0) w, miss) (v w)
      ]

  -- After computeLayer for each of the units, the layers of all of them are known.
  pub compute_layers-known :
      (fuel : ℕ) (us : List U) (ls : List (U × ℤ))
      → AreLayers ls
      → Computes ls (compute_layers (suc fuel) us ls)
        × All (λ u. IsPos (layer_of (compute_layers (suc fuel) us ls) u)) us
  unfolding compute_layers
  compute_layers-known fuel [] ls v = (Computes-refl ls v, tt)
  compute_layers-known fuel (u ∷ us) ls v =
      let a = compute_layer-Computes (suc fuel) u ls v in
      let p = compute_layer-IsPos fuel u ls v in
      let l : ℤ = (compute_layer (suc fuel) u ls).0 in
      let ls' : List (U × ℤ) = (compute_layer (suc fuel) u ls).1 in
      let b = set_layer-Computes ls' u l p a.layers in
      let (c, rest) = compute_layers-known fuel us (set_layer ls' u l) b.layers in
      let here : IsPos (layer_of (set_layer ls' u l) u) =
        rw (layer_of-set_layer ls' u l u, (same_iff u u).1 refl) p in
      (Computes-trans ls _ _ a (Computes-trans ls' _ _ b c), (c.still_known u here, rest))
