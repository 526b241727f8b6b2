-- ===== src/Linear/Advance.antt =====
-- pkg/linear/timing_round.go: the state of the search in getAntichainLayers, and a part of it.
use consensus_go.Base.{
  ℕ, suc, ◌+◌, ◌≡◌, ◌<◌, ◌≤◌, refl, true, false, List, ◌∷◌, Option, some, arith, ltb, if◌then◌else◌,
  length, Bool-cases, inl, inr, ◌⊎◌, All,
}
use consensus_go.Gomel.Hash.{Hash}
use consensus_go.Gomel.Unit.{UnitInterface, hash}
use consensus_go.Dag.Bag.{get_one}
use consensus_go.Linear.TimingRound.{Search, already_ordered, visit_parents}
use consensus_go.Linear.Once.{is_seen}
use consensus_go.Linear.Accounted.{IsAccounted}
use consensus_go.Linear.Layers.{count_first, IsLayered}

abbrev pub NoHash : Hash → Type 0
NoHash h = ⊥

module _ {U : Type 0} ⦃i : UnitInterface U⦄ where
  -- A hash whose layer is known, and one whose layer is below `k`.
  abbrev pub HasLayer : Search U → Hash → Type 0
  HasLayer s h = (l : ℕ) × (get_one s.layer_of h ≡ some l)

  abbrev pub IsUnder : Search U → ℕ → Hash → Type 0
  IsUnder s k h = (l : ℕ) × (get_one s.layer_of h ≡ some l) × (l < k)

  -- The state of the search in the loop, after a parent.
  abbrev pub reached : (U → Search U → Search U) → U → Search U → Search U
  reached visit p s = if is_seen (hash p) s then s else visit p s

  pub visit_parents-new :
      (ts : List (Option U)) (visit : U → Search U → Search U) (p : U) (ps : List (Option U))
      (layer l : ℕ) (s : Search U)
      → already_ordered p ts ≡ false
      → get_one (reached visit p s).layer_of (hash p) ≡ some l
      → visit_parents visit ts (some p ∷ ps) layer s
        ≡ visit_parents visit ts ps (if ltb layer (l + 1) then l + 1 else layer) (reached visit p s)
  unfolding visit_parents
  visit_parents-new ts visit p ps layer l s new e = rw (new, e) refl

  module _ (rank : Hash → ℕ) (ts : List (Option U)) where
    pub record IsSound (s : Search U) : Type 0 where
      pub only_seen : (h : Hash) (l : ℕ) → get_one s.layer_of h ≡ some l → is_seen h s ≡ true
      pub located :
          (h : Hash) (l : ℕ)
          → get_one s.layer_of h ≡ some l
          → (l < length s.layers) × (1 ≤ count_first h (suc l) s.layers)
      pub layered : IsLayered ts NoHash s.layers

    abbrev pub IsSettled : ℕ → Search U → Type 0
    IsSettled r s = (h : Hash) → is_seen h s ≡ true → rank h < r → HasLayer s h

    -- A part of the search: what it sees it gives a layer, and no layer changes.
    pub record Advances (s t : Search U) : Type 0 where
      pub kept : (h : Hash) (l : ℕ) → get_one s.layer_of h ≡ some l → get_one t.layer_of h ≡ some l
      pub settled : (h : Hash) → is_seen h t ≡ true → (is_seen h s ≡ true) ⊎ HasLayer t h
      pub longer : length s.layers ≤ length t.layers
      pub still_seen : (h : Hash) → is_seen h s ≡ true → is_seen h t ≡ true
      pub sound : IsSound t

    pub Advances-refl : (s : Search U) → IsSound s → Advances s s
    Advances-refl s v = record {
      kept = λ h l e. e;
      settled = λ h e. inl e;
      longer = omega arith;
      still_seen = λ h e. e;
      sound = v;
    }

    pub Advances-trans : (s t r : Search U) → Advances s t → Advances t r → Advances s r
    Advances-trans s t r a b = record {
      kept = λ h l e. b.kept h l (a.kept h l e);
      settled = λ h e. elim (b.settled h e) [
        | inl in_t ↦ elim (a.settled h in_t) [
          | inl in_s ↦ inl in_s
          | inr (l, has) ↦ inr (l, b.kept h l has)
        ]
        | inr has ↦ inr has
      ];
      longer = omega (arith, a.longer, b.longer);
      still_seen = λ h e. b.still_seen h (a.still_seen h e);
      sound = b.sound;
    }

    pub Advances-IsSettled : (r : ℕ) (s t : Search U) → IsSettled r s → Advances s t → IsSettled r t
    Advances-IsSettled r s t v a h e low = elim (a.settled h e) [
      | inl before ↦ let (l, has) = v h before low in (l, a.kept h l has)
      | inr has ↦ has
    ]

    abbrev pub VisitsWell : (U → Search U → Search U) → ℕ → Type 0
    VisitsWell visit r =
        (p : U) (t : Search U)
        → rank (hash p) < r
        → is_seen (hash p) t ≡ false
        → IsSettled r t
        → IsSound t
        → Advances t (visit p t) × HasLayer (visit p t) (hash p)

    -- What the loop over the parents answers: a layer above theirs, at most one past the last layer.
    pub record Handles (s : Search U) (layer : ℕ) (ps : List (Option U)) (r : ℕ × Search U)
        : Type 0 where
      pub advances : Advances s r.1
      pub higher : layer ≤ r.0
      pub fits : layer ≤ length s.layers → r.0 ≤ length r.1.layers
      pub under : All (IsAccounted ts (IsUnder r.1 r.0)) ps

    pub reached-Advances :
        (visit : U → Search U → Search U) (r : ℕ) (p : U) (s : Search U)
        → VisitsWell visit r
        → rank (hash p) < r
        → IsSettled r s
        → IsSound s
        → Advances s (reached visit p s) × HasLayer (reached visit p s) (hash p)
    reached-Advances visit r p s w low v c = elim (Bool-cases (is_seen (hash p) s)) [
      | inl seen ↦ rw seen (Advances-refl s c, v (hash p) seen low)
      | inr unseen ↦ rw unseen (w p s low unseen v c)
    ]

    -- One more parent, of a known layer, before the others.
    pub Handles-cons :
        (s t : Search U) (layer l : ℕ) (p : U) (ps : List (Option U)) (r : ℕ × Search U)
        → Advances s t
        → get_one t.layer_of (hash p) ≡ some l
        → Handles t (if ltb layer (l + 1) then l + 1 else layer) ps r
        → Handles s layer (some p ∷ ps) r
    Handles-cons s t layer l p ps r a e b = record {
      advances = Advances-trans s t r.1 a b.advances;
      higher = ground (arith, b.higher);
      fits = λ f. b.fits (ground (arith, a.longer, (a.sound.located (hash p) l e).0));
      under = (inr (l, b.advances.kept (hash p) l e, ground (arith, b.higher)), b.under);
    }
