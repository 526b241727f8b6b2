-- ===== src/Linear/TimingRound.antt =====
-- pkg/linear/timing_round.go: the units that a timing unit brings into the order.
use consensus_go.Base.{
  ℕ, zero, suc, ◌+◌, Bool, true, false, List, [], ◌∷◌, ◌++◌, Option, none, some, ltb, leb,
  if◌then◌else◌, length, set, get_or,
}
use consensus_go.Gomel.Hash.{Hash, less_than, xor, zero_hash}
use consensus_go.Gomel.Unit.{UnitInterface, hash, above}
use consensus_go.Dag.Bag.{Bag, get_one, add}
use consensus_go.Linear.Sort.{sort_slice}

-- The variables that dfs shares.
pub record Search (U : Type 0) : Type 0 where
  pub layer_of : Bag ℕ
  pub seen : Bag Bool
  pub layers : List (List U)

-- A map that misses a key reads as the zero value.
abbrev pub or_zero : Option ℕ → ℕ
or_zero none = 0
or_zero (some n) = n

abbrev pub or_false : Option Bool → Bool
or_false none = false
or_false (some b) = b

module _ {U : Type 0} ⦃i : UnitInterface U⦄ where
  -- The last of the earlier timing units; reading the last of none panics, and the slice has a fixed
  -- length that is not 0.
  unfoldable pub last_tu : List (Option U) → Option U
  last_tu [] = none
  last_tu (t ∷ []) = t
  last_tu (t ∷ t' ∷ ts) = last_tu (t' ∷ ts)

  -- The loop over the earlier timing units; its order does not matter for the answer.
  unfoldable pub below_timing_unit : U → List (Option U) → Bool
  below_timing_unit u [] = false
  below_timing_unit u (t ∷ ts) =
      let rest = below_timing_unit u ts in if rest then true else above t (some u)

  abbrev pub ordered_after : U → List (Option U) → Option U → Bool
  ordered_after u ts none = false
  ordered_after u ts (some last) =
      if ltb (i.level last) (i.level u) then false else below_timing_unit u ts

  -- checkIfAlreadyOrdered.
  unfoldable pub already_ordered : U → List (Option U) → Bool
  already_ordered u ts = ordered_after u ts (last_tu ts)

  -- The loop of dfs over the parents. `layer` is `minLayerBelow + 1`, and `visit` the recursive call.
  unfoldable pub visit_parents :
      (U → Search U → Search U) → List (Option U) → List (Option U) → ℕ → Search U → ℕ × Search U
  visit_parents visit ts [] layer s = (layer, s)
  visit_parents visit ts (none ∷ ps) layer s = visit_parents visit ts ps layer s
  visit_parents visit ts (some p ∷ ps) layer s =
      let s' = if or_false (get_one s.seen (hash p)) then s else visit p s in
      let l = or_zero (get_one s'.layer_of (hash p)) + 1 in
      let rest = visit_parents visit ts ps (if ltb layer l then l else layer) s' in
      let skip = visit_parents visit ts ps layer s in if already_ordered p ts then skip else rest

  unfoldable pub append_layer : List (List U) → ℕ → U → List (List U)
  append_layer layers layer u =
      if leb (length layers) layer
      then layers ++ ((u ∷ []) ∷ [])
      else set layers layer (get_or layers layer [] ++ (u ∷ []))

  abbrev pub finish_unit : U → ℕ × Search U → Search U
  finish_unit u (layer, s) = record s {
    layer_of = add s.layer_of (hash u) layer;
    layers = append_layer s.layers layer u;
  }

  -- dfs, with fuel for its depth.
  unfoldable pub dfs : ℕ → List (Option U) → U → Search U → Search U
  dfs zero ts u s = s
  dfs (suc fuel) ts u s = finish_unit u (
      visit_parents (dfs fuel ts) ts (i.parents u) 0 (record s { seen = add s.seen (hash u) true }))

  unfoldable pub antichain_layers : ℕ → U → List (Option U) → List (List U)
  antichain_layers fuel tu ts =
      (dfs fuel ts tu (record { layer_of = []; seen = []; layers = [] })).layers

  unfoldable pub xor_units : Hash → List U → Hash
  xor_units total [] = total
  xor_units total (u ∷ us) = xor_units (xor total (hash u)) us

  unfoldable pub xor_layers : Hash → List (List U) → Hash
  xor_layers total [] = total
  xor_layers total (us ∷ layers) = xor_layers (xor_units total us) layers

  -- The tiebreaker of a unit is the xor of its hash with the xor of all.
  unfoldable pub sort_layers : Hash → List (List U) → List U
  sort_layers total [] = []
  sort_layers total (us ∷ layers) =
      sort_slice (λ u v. less_than (xor total (hash u)) (xor total (hash v))) us
      ++ sort_layers total layers

  unfoldable pub merge_layers : List (List U) → List U
  merge_layers layers = sort_layers (xor_layers zero_hash layers) layers

  unfoldable pub ordered_units : ℕ → U → List (Option U) → List U
  ordered_units fuel tu ts = merge_layers (antichain_layers fuel tu ts)
