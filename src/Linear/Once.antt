-- ===== src/Linear/Once.antt =====
-- pkg/linear/timing_round.go: how often a round orders a hash.
use consensus_go.Base.{
  ℕ, zero, suc, ◌+◌, ◌≡◌, ◌≤◌, refl, ◌∙◌, subst, Bool, true, false, List, [], ◌∷◌, ◌++◌, Option,
  none, some, arith, if◌then◌else◌, Bool-cases, inl, inr,
}
use consensus_go.Gomel.Hash.{Hash, hash_eq, hash_eq_iff, hash_eq_refl, xor, less_than, zero_hash}
use consensus_go.Gomel.Unit.{UnitInterface, hash}
use consensus_go.Dag.Bag.{get_one, add, get_one-add}
use consensus_go.Linear.Sort.{sort_slice, insert}
use consensus_go.Linear.TimingRound.{
  Search, already_ordered, visit_parents, append_layer, finish_unit, dfs, antichain_layers,
  sort_layers, merge_layers, ordered_units, xor_layers, or_false,
}

module _ {U : Type 0} ⦃i : UnitInterface U⦄ where
  -- How many of the units have the hash `h`.
  abbrev pub count_hash : Hash → List U → ℕ
  count_hash h [] = 0
  count_hash h (u ∷ us) = (if hash_eq (hash u) h then 1 else 0) + count_hash h us

  abbrev pub count_layers : Hash → List (List U) → ℕ
  count_layers h [] = 0
  count_layers h (us ∷ layers) = count_hash h us + count_layers h layers

  pub count_hash-append :
      (h : Hash) (us vs : List U) → count_hash h (us ++ vs) ≡ count_hash h us + count_hash h vs
  count_hash-append h [] vs = omega arith
  count_hash-append h (u ∷ us) vs = omega (arith, count_hash-append h us vs)

  count_hash-insert :
      (less : U → U → Bool) (h : Hash) (u : U) (us : List U)
      → count_hash h (insert less u us) ≡ count_hash h (u ∷ us)
  unfolding insert
  count_hash-insert less h u [] = refl
  count_hash-insert less h u (v ∷ us) = ground (arith, count_hash-insert less h u us)

  pub count_hash-sort_slice :
      (less : U → U → Bool) (h : Hash) (us : List U)
      → count_hash h (sort_slice less us) ≡ count_hash h us
  unfolding sort_slice
  count_hash-sort_slice less h [] = refl
  count_hash-sort_slice less h (u ∷ us) =
      omega
        (arith, count_hash-insert less h u (sort_slice less us), count_hash-sort_slice less h us)

  pub count_hash-sort_layers :
      (total h : Hash) (layers : List (List U))
      → count_hash h (sort_layers total layers) ≡ count_layers h layers
  unfolding sort_layers
  count_hash-sort_layers total h [] = refl
  count_hash-sort_layers total h (us ∷ layers) = omega (
    arith,
    count_hash-append h (sort_slice (λ u v. less_than (xor total (hash u)) (xor total (hash v))) us)
        (sort_layers total layers),
    count_hash-sort_slice (λ u v. less_than (xor total (hash u)) (xor total (hash v))) h us,
    count_hash-sort_layers total h layers,
  )

  pub count_layers-append_layer :
      (h : Hash) (layers : List (List U)) (layer : ℕ) (u : U)
      → count_layers h (append_layer layers layer u)
        ≡ count_layers h layers + (if hash_eq (hash u) h then 1 else 0)
  unfolding append_layer
  count_layers-append_layer h [] layer u = ground arith
  count_layers-append_layer h (us ∷ layers) zero u = ground (arith, count_hash-append h us (u ∷ []))
  count_layers-append_layer h (us ∷ layers) (suc layer) u =
      ground (arith, count_layers-append_layer h layers layer u)

  abbrev pub is_seen : Hash → Search U → Bool
  is_seen h s = or_false (get_one s.seen h)

  -- Each hash is in the layers at most once, and only if it was seen.
  abbrev AtMostOnce : Search U → Type 0
  AtMostOnce s = (h : Hash) → count_layers h s.layers ≤ (if is_seen h s then 1 else 0)

  -- A part of the search: nothing that was seen before it is added to the layers by it.
  record Explores (s t : Search U) : Type 0 where
    once : AtMostOnce t
    still_seen : (h : Hash) → is_seen h s ≡ true → is_seen h t ≡ true
    same_count : (h : Hash) → is_seen h s ≡ true → count_layers h t.layers ≡ count_layers h s.layers

  Explores-refl : (s : Search U) → AtMostOnce s → Explores s s
  Explores-refl s v = record { once = v; still_seen = λ h e. e; same_count = λ h e. refl }

  Explores-trans : (s t r : Search U) → Explores s t → Explores t r → Explores s r
  Explores-trans s t r a b = record {
    once = b.once;
    still_seen = λ h e. b.still_seen h (a.still_seen h e);
    same_count = λ h e. b.same_count h (a.still_seen h e) ∙ a.same_count h e;
  }

  visit_parents-Explores :
      (visit : U → Search U → Search U) (ts : List (Option U)) (ps : List (Option U)) (layer : ℕ)
      (s : Search U)
      → ((p : U) (t : Search U)
          → is_seen (hash p) t ≡ false
          → AtMostOnce t
          → Explores t (visit p t))
      → AtMostOnce s
      → Explores s (visit_parents visit ts ps layer s).1
  unfolding visit_parents
  visit_parents-Explores visit ts [] layer s h v = Explores-refl s v
  visit_parents-Explores visit ts (none ∷ ps) layer s h v =
      visit_parents-Explores visit ts ps layer s h v
  visit_parents-Explores visit ts (some p ∷ ps) layer s h v =
      elim (Bool-cases (already_ordered p ts)) [
        | inl old ↦ rw old (visit_parents-Explores visit ts ps layer s h v)
        | inr new ↦ rw new (elim (Bool-cases (is_seen (hash p) s)) [
          | inl seen ↦ rw seen (visit_parents-Explores visit ts ps _ s h v)
          | inr unseen ↦ rw unseen (
              let a = h p s unseen v in
              Explores-trans s (visit p s) _ a
                (visit_parents-Explores visit ts ps _ (visit p s) h a.once))
        ])
      ]

  pub is_seen-mark :
      (u : U) (s : Search U) (h : Hash)
      → is_seen h (record s { seen = add s.seen (hash u) true })
        ≡ (if hash_eq (hash u) h then true else is_seen h s)
  is_seen-mark u s h = ground (arith, get_one-add s.seen (hash u) true h)

  -- Marking a unit, exploring its parents and adding it is exploring, if it was not seen.
  around-Explores :
      (u : U) (s : Search U) (r : ℕ × Search U)
      → is_seen (hash u) s ≡ false
      → AtMostOnce s
      → Explores (record s { seen = add s.seen (hash u) true }) r.1
      → Explores s (finish_unit u r)
  around-Explores u s (layer, t) e v a = record {
    once = λ h. elim (Bool-cases (hash_eq (hash u) h)) [
      | inl hit ↦
          let same : hash u ≡ h = (hash_eq_iff (hash u) h).0 hit in
          subst
            (λ k. count_layers k (append_layer t.layers layer u) ≤ (if is_seen k t then 1 else 0))
            same
            (ground
              (arith, none_yet, now_seen, count_layers-append_layer (hash u) t.layers layer u))
      | inr miss ↦ ground (arith, a.once h, count_layers-append_layer h t.layers layer u)
    ];
    still_seen = λ h k. a.still_seen h (ground (arith, is_seen-mark u s h));
    same_count = λ h k. ground (
      arith,
      a.same_count h,
      is_seen-mark u s h,
      differs h k,
      count_layers-append_layer h t.layers layer u,
    );
  }
    where
      marked : is_seen (hash u) (record s { seen = add s.seen (hash u) true }) ≡ true
      marked = ground (arith, is_seen-mark u s (hash u), hash_eq_refl (hash u))

      now_seen : is_seen (hash u) t ≡ true
      now_seen = a.still_seen (hash u) marked

      none_yet : count_layers (hash u) t.layers ≡ 0
      none_yet = ground (arith, a.same_count (hash u) marked, v (hash u))

      differs : (h : Hash) → is_seen h s ≡ true → hash_eq (hash u) h ≡ false
      differs h k = elim (Bool-cases (hash_eq (hash u) h)) [
        | inl hit ↦ let same : hash u ≡ h = (hash_eq_iff (hash u) h).0 hit in cc (e, k, same)
        | inr miss ↦ miss
      ]

  marked-AtMostOnce :
      (u : U) (s : Search U)
      → AtMostOnce s
      → AtMostOnce (record s { seen = add s.seen (hash u) true })
  marked-AtMostOnce u s v h = ground (arith, v h, is_seen-mark u s h)

  dfs-Explores :
      (fuel : ℕ) (ts : List (Option U)) (u : U) (s : Search U)
      → is_seen (hash u) s ≡ false
      → AtMostOnce s
      → Explores s (dfs fuel ts u s)
  unfolding dfs
  dfs-Explores zero ts u s e v = Explores-refl s v
  dfs-Explores (suc fuel) ts u s e v = around-Explores u s _ e v (
      visit_parents-Explores (dfs fuel ts) ts (i.parents u) 0
        (record s { seen = add s.seen (hash u) true })
        (λ p t unseen once. dfs-Explores fuel ts p t unseen once) (marked-AtMostOnce u s v))

  -- No hash is ordered twice in one round, whatever the timing unit and the earlier ones.
  pub ordered_units_once :
      (fuel : ℕ) (tu : U) (ts : List (Option U)) (h : Hash)
      → count_hash h (ordered_units fuel tu ts) ≤ 1
  unfolding ordered_units merge_layers antichain_layers get_one
  ordered_units_once fuel tu ts h = ground (
    arith,
    count_hash-sort_layers (xor_layers zero_hash (antichain_layers fuel tu ts)) h
        (antichain_layers fuel tu ts),
    (dfs-Explores fuel ts tu (record { layer_of = []; seen = []; layers = [] }) refl
          (λ k. omega arith)).once
        h,
  )
