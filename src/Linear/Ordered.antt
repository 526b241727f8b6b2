-- ===== src/Linear/Ordered.antt =====
-- pkg/linear/timing_round.go: which units a round orders.
use consensus_go.Base.{
  ℕ, zero, suc, ◌+◌, ◌≡◌, ◌≤◌, refl, ltb, true, false, List, [], ◌∷◌, Option, none, some, arith,
  leb, length, Bool-cases, inl, inr, ◌⊎◌, All, All-append,
}
use consensus_go.Gomel.Hash.{Hash, xor, less_than}
use consensus_go.Gomel.Unit.{UnitInterface, hash, above}
use consensus_go.Dag.Bag.{get_one, add}
use consensus_go.Linear.Sort.{sort_slice}
use consensus_go.Linear.Candidates.{sort_slice-All}
use consensus_go.Linear.TimingRound.{
  Search, already_ordered, visit_parents, append_layer, dfs, antichain_layers, sort_layers,
  merge_layers, ordered_units, or_false, last_tu, ordered_after, below_timing_unit,
}

module _ {U : Type 0} ⦃i : UnitInterface U⦄ where
  abbrev pub AllLayers : (U → Type 0) → List (List U) → Type 0
  AllLayers P layers = All (All P) layers

  pub append_layer-All :
      (P : U → Type 0) (layers : List (List U)) (layer : ℕ) (u : U)
      → AllLayers P layers
      → P u
      → AllLayers P (append_layer layers layer u)
  unfolding append_layer
  append_layer-All P [] layer u v p =
      let e : leb 0 layer ≡ true = ground arith in rw e ((p, tt), tt)
  append_layer-All P (us ∷ layers) zero u (v, vs) p =
      let e : leb (suc (length layers)) 0 ≡ false = ground arith in
      rw e (All-append P us (u ∷ []) v (p, tt), vs)
  append_layer-All P (us ∷ layers) (suc layer) u (v, vs) p =
      let rest = append_layer-All P layers layer u vs p in
      elim (Bool-cases (leb (length layers) layer)) [
        | inl past ↦
            let e : leb (suc (length layers)) (suc layer) ≡ true = ground arith in
            rw e (v, rw past at rest)
        | inr inside ↦
            let e : leb (suc (length layers)) (suc layer) ≡ false = ground arith in
            rw e (v, rw inside at rest)
      ]

  -- The level of a unit, one higher, and 0 where there is none.
  abbrev pub rank_of : Option U → ℕ
  rank_of none = 0
  rank_of (some u) = i.level u + 1

  -- A unit that a round may order: its timing unit, or one that no earlier timing unit is above.
  abbrev pub IsNew : U → List (Option U) → U → Type 0
  IsNew tu ts u = (u ≡ tu) ⊎ All (λ t. above t (some u) ≡ false) ts

  below_timing_unit-All :
      (u : U) (ts : List (Option U))
      → below_timing_unit u ts ≡ false
      → All (λ t. above t (some u) ≡ false) ts
  unfolding below_timing_unit
  below_timing_unit-All u [] h = tt
  below_timing_unit-All u (t ∷ ts) h = elim (Bool-cases (below_timing_unit u ts)) [
    | inl below ↦ absurd (ground (arith, (rw below at h)))
    | inr free ↦ (rw free at h, below_timing_unit-All u ts free)
  ]

  visit_parents-New :
      (P : U → Type 0) (visit : U → Search U → Search U) (ts : List (Option U))
      (ps : List (Option U)) (layer : ℕ) (s : Search U)
      → ((p : U) (t : Search U)
          → already_ordered p ts ≡ false
          → AllLayers P t.layers
          → AllLayers P (visit p t).layers)
      → AllLayers P s.layers
      → AllLayers P (visit_parents visit ts ps layer s).1.layers
  unfolding visit_parents
  visit_parents-New P visit ts [] layer s h v = v
  visit_parents-New P visit ts (none ∷ ps) layer s h v = visit_parents-New P visit ts ps layer s h v
  visit_parents-New P visit ts (some p ∷ ps) layer s h v =
      elim (Bool-cases (already_ordered p ts)) [
        | inl old ↦ rw old (visit_parents-New P visit ts ps layer s h v)
        | inr new ↦ rw new (elim (Bool-cases (or_false (get_one s.seen (hash p)))) [
          | inl seen ↦ rw seen (visit_parents-New P visit ts ps _ s h v)
          | inr unseen ↦ rw unseen (visit_parents-New P visit ts ps _ (visit p s) h (h p s new v))
        ])
      ]

  pub sort_layers-All :
      (P : U → Type 0) (total : Hash) (layers : List (List U))
      → AllLayers P layers
      → All P (sort_layers total layers)
  unfolding sort_layers
  sort_layers-All P total [] v = tt
  sort_layers-All P total (us ∷ layers) (v, vs) =
      All-append P (sort_slice (λ u v. less_than (xor total (hash u)) (xor total (hash v))) us)
        (sort_layers total layers)
        (sort_slice-All (λ u v. less_than (xor total (hash u)) (xor total (hash v))) P us v)
        (sort_layers-All P total layers vs)

  -- A unit above another is on no lower level, and no earlier timing unit is on a higher level than the last.
  module _ (tu : U) (ts : List (Option U))
      (upward : (u v : U) → above (some u) (some v) ≡ true → i.level v ≤ i.level u)
      (last_highest : All (λ t. rank_of t ≤ rank_of (last_tu ts)) ts) where
    higher-New :
        (u : U) (n : ℕ) (rest : List (Option U))
        → n ≤ i.level u
        → All (λ t. rank_of t ≤ n) rest
        → All (λ t. above t (some u) ≡ false) rest
    unfolding above
    higher-New u n [] h v = tt
    higher-New u n (none ∷ rest) h (w, v) = (refl, higher-New u n rest h v)
    higher-New u n (some t ∷ rest) h (w, v) = (
      elim (Bool-cases (above (some t) (some u))) [
        | inl up ↦ absurd (omega (arith, upward t u up))
        | inr not_up ↦ not_up
      ],
      higher-New u n rest h v,
    )

    already_ordered-New :
        (u : U) → already_ordered u ts ≡ false → All (λ t. above t (some u) ≡ false) ts
    unfolding already_ordered
    already_ordered-New u = from_last (last_tu ts) refl
      where
        from_last :
            (o : Option U)
            → last_tu ts ≡ o
            → ordered_after u ts o ≡ false
            → All (λ t. above t (some u) ≡ false) ts
        from_last none e h = higher-New u 0 ts (omega arith) (rw e at last_highest)
        from_last (some l) e h = elim (Bool-cases (ltb (i.level l) (i.level u))) [
          | inl higher ↦ higher-New u (i.level l + 1) ts (ground arith) (rw e at last_highest)
          | inr low ↦ below_timing_unit-All u ts (rw low at h)
        ]

    dfs-New :
        (fuel : ℕ) (u : U) (s : Search U)
        → IsNew tu ts u
        → AllLayers (IsNew tu ts) s.layers
        → AllLayers (IsNew tu ts) (dfs fuel ts u s).layers
    unfolding dfs
    dfs-New zero u s n v = v
    dfs-New (suc fuel) u s n v =
        append_layer-All (IsNew tu ts) _ _ u
          (visit_parents-New (IsNew tu ts) (dfs fuel ts) ts (i.parents u) 0
            (record s { seen = add s.seen (hash u) true })
            (λ p t new w. dfs-New fuel p t (inr (already_ordered-New p new)) w) v)
          n

    -- Where a unit above another is on no lower level than it, and no earlier timing unit is on a higher level than the
    -- last of them (there is none if the last is nil), every unit that a round puts into the order is its timing unit,
    -- or one that no earlier timing unit is above.
    pub ordered_units-IsNew : (fuel : ℕ) → All (IsNew tu ts) (ordered_units fuel tu ts)
    unfolding ordered_units merge_layers antichain_layers
    ordered_units-IsNew fuel = sort_layers-All (IsNew tu ts) _ _ (dfs-New fuel tu _ (inl refl) tt)
