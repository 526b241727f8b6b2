-- ===== src/Linear/Accounted.antt =====
-- pkg/linear/timing_round.go: parents that were ordered earlier, or are among given hashes.
use consensus_go.Base.{
  ℕ, ◌≡◌, ◌<◌, ◌≤◌, true, List, Option, none, some, inl, inr, ◌⊎◌, All, All-mono,
}
use consensus_go.Gomel.Hash.{Hash}
use consensus_go.Gomel.Unit.{UnitInterface, hash}
use consensus_go.Dag.Bag.{add}
use consensus_go.Linear.TimingRound.{Search, already_ordered}
use consensus_go.Linear.Once.{count_layers}
use consensus_go.Linear.Ordered.{AllLayers}

module _ {U : Type 0} ⦃i : UnitInterface U⦄ where
  -- A parent of lower rank.
  abbrev pub IsLower : (Hash → ℕ) → ℕ → Option U → Type 0
  IsLower rank r none = Unit
  IsLower rank r (some p) = rank (hash p) < r

  -- A parent that was ordered earlier, or whose hash is among those that `In` holds of.
  abbrev pub IsAccounted : List (Option U) → (Hash → Type 0) → Option U → Type 0
  IsAccounted ts In none = Unit
  IsAccounted ts In (some p) = (already_ordered p ts ≡ true) ⊎ In (hash p)

  pub IsAccounted-mono :
      (ts : List (Option U)) (P Q : Hash → Type 0) (p : Option U)
      → ((h : Hash) → P h → Q h)
      → IsAccounted ts P p
      → IsAccounted ts Q p
  IsAccounted-mono ts P Q none f a = tt
  IsAccounted-mono ts P Q (some p) f (inl old) = inl old
  IsAccounted-mono ts P Q (some p) f (inr new) = inr (f (hash p) new)

  abbrev pub IsIn : List (List U) → Hash → Type 0
  IsIn layers h = 1 ≤ count_layers h layers

  -- The parents of all units in the layers are accounted for by `In`.
  abbrev pub AreAccounted : List (Option U) → (Hash → Type 0) → U → Type 0
  AreAccounted ts In u = All (IsAccounted ts In) (i.parents u)

  pub AreAccounted-mono :
      (ts : List (Option U)) (P Q : Hash → Type 0) (layers : List (List U))
      → ((h : Hash) → P h → Q h)
      → AllLayers (AreAccounted ts P) layers
      → AllLayers (AreAccounted ts Q) layers
  AreAccounted-mono ts P Q layers f =
      All-mono _ _ layers
        λ us. All-mono _ _ us λ u. All-mono _ _ (i.parents u) λ p. IsAccounted-mono ts P Q p f

  abbrev pub mark : U → Search U → Search U
  mark u s = record s { seen = add s.seen (hash u) true }
