-- ===== src/Linear/Below.antt =====
-- pkg/linear/timing_round.go: the parents of the units that a round orders.
use consensus_go.Base.{ℕ, ◌≡◌, ◌<◌, ◌≤◌, refl, true, false, List, ◌∷◌, Option, some, ◌⊎◌, All}
use consensus_go.Gomel.Hash.{Hash}
use consensus_go.Gomel.Unit.{UnitInterface, hash}
use consensus_go.Linear.TimingRound.{Search, already_ordered, visit_parents}
use consensus_go.Linear.Once.{count_layers, is_seen}
use consensus_go.Linear.Ordered.{AllLayers}
use consensus_go.Linear.Accounted.{IsAccounted, IsIn, AreAccounted}

module _ {U : Type 0} ⦃i : UnitInterface U⦄ where
  module _ (rank : Hash → ℕ) (ts : List (Option U)) where
    -- What was seen, of a rank below `r`, is in the layers.
    abbrev IsSettled : ℕ → Search U → Type 0
    IsSettled r s = (h : Hash) → is_seen h s ≡ true → rank h < r → IsIn s.layers h

    -- A part of the search: what it sees it puts into the layers, with its parents.
    record Completes (s t : Search U) : Type 0 where
      kept : (h : Hash) → count_layers h s.layers ≤ count_layers h t.layers
      settled : (h : Hash) → is_seen h t ≡ true → (is_seen h s ≡ true) ⊎ IsIn t.layers h
      closed : AllLayers (AreAccounted ts (IsIn t.layers)) t.layers

    abbrev IsClosed : Search U → Type 0
    IsClosed s = AllLayers (AreAccounted ts (IsIn s.layers)) s.layers

    -- What a visit of an unseen parent needs, and what it does.
    abbrev VisitsWell : (U → Search U → Search U) → ℕ → Type 0
    VisitsWell visit r =
        (p : U) (t : Search U)
        → rank (hash p) < r
        → is_seen (hash p) t ≡ false
        → IsSettled r t
        → IsClosed t
        → Completes t (visit p t) × IsIn (visit p t).layers (hash p)

    -- What the loop over the parents answers, with the search so far.
    abbrev Handles : Search U → List (Option U) → ℕ × Search U → Type 0
    Handles s ps r = Completes s r.1 × All (IsAccounted ts (IsIn r.1.layers)) ps

    pub visit_parents-old :
        (visit : U → Search U → Search U) (p : U) (ps : List (Option U)) (layer : ℕ) (s : Search U)
        → already_ordered p ts ≡ true
        → visit_parents visit ts (some p ∷ ps) layer s ≡ visit_parents visit ts ps layer s
    unfolding visit_parents
    visit_parents-old visit p ps layer s old = rw old refl
