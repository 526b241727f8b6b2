-- ===== src/Encoding/Chunk.antt =====
-- pkg/encoding/public.go: the order in which a chunk's units are written.
use consensus_go.Base.{
  ℕ, zero, suc, ◌+◌, ◌%◌, ◌^◌, leb, ◌&&◌, List, [], ◌∷◌, ◌++◌, Option, none, some, ltb, ◌==◌,
  if◌then◌else◌,
}
use consensus_go.Base.Int.{ℤ, pos, negsuc, ltb_ℤ, eq_ℤ, inc}
use consensus_go.Gomel.Unit.{UnitInterface, epoch_id}

module _ {U : Type 0} ⦃i : UnitInterface U⦄ where
  -- The Go map from units to layers: a missing unit, and nil, reads as 0.
  unfoldable pub layer_of : List (U × ℤ) → U → ℤ
  layer_of [] u = pos 0
  layer_of ((v, l) ∷ ls) u = if i.same v u then l else layer_of ls u

  unfoldable pub set_layer : List (U × ℤ) → U → ℤ → List (U × ℤ)
  set_layer [] u l = (u, l) ∷ []
  set_layer ((v, k) ∷ ls) u l = if i.same v u then (v, l) ∷ ls else (v, k) ∷ set_layer ls u l

  -- The loop over the parents, with the recursive call as an argument.
  unfoldable pub max_parent_layer :
      (U → List (U × ℤ) → ℤ × List (U × ℤ)) → List (Option U) → ℤ → List (U × ℤ) → ℤ × List (U × ℤ)
  max_parent_layer layer [] highest ls = (highest, ls)
  max_parent_layer layer (none ∷ ps) highest ls = max_parent_layer layer ps highest ls
  max_parent_layer layer (some p ∷ ps) highest ls =
      let (cl, ls') = layer p ls in
      max_parent_layer layer ps (if ltb_ℤ highest cl then cl else highest) ls'

  -- computeLayer, with fuel for the depth of the recursion.
  unfoldable pub compute_layer : ℕ → U → List (U × ℤ) → ℤ × List (U × ℤ)
  compute_layer zero u ls = (layer_of ls u, ls)
  compute_layer (suc fuel) u ls =
      let below = max_parent_layer (compute_layer fuel) (i.parents u) (pos 0) ls in
      if eq_ℤ (layer_of ls u) (negsuc 0)
      then (inc below.0, set_layer below.1 u (inc below.0))
      else (layer_of ls u, ls)

  unfoldable pub start_layers : List U → List (U × ℤ) → List (U × ℤ)
  start_layers [] ls = ls
  start_layers (u ∷ us) ls = start_layers us (set_layer ls u (negsuc 0))

  unfoldable pub compute_layers : ℕ → List U → List (U × ℤ) → List (U × ℤ)
  compute_layers fuel [] ls = ls
  compute_layers fuel (u ∷ us) ls =
      let (l, ls') = compute_layer fuel u ls in compute_layers fuel us (set_layer ls' u l)

  -- The inner loop: the units of one epoch and layer, in their order in the chunk.
  unfoldable pub select : List (U × ℤ) → ℕ → ℕ → List U → List U
  select ls epoch layer [] = []
  select ls epoch layer (u ∷ us) =
      let rest = select ls epoch layer us in
      if epoch_id u == epoch && eq_ℤ (layer_of ls u) (pos layer) then u ∷ rest else rest

  -- `count` layers from `layer` on.
  unfoldable pub select_layers : List (U × ℤ) → ℕ → ℕ → ℕ → List U → List U
  select_layers ls epoch layer zero us = []
  select_layers ls epoch layer (suc count) us =
      select ls epoch layer us ++ select_layers ls epoch (layer + 1) count us

  abbrev pub and_then : List U → Option (List U) → Option (List U)
  and_then us none = none
  and_then us (some rest) = some (us ++ rest)

  -- The loop over the epochs up to `top`, whose counter is a uint32, with fuel for its rounds: `none` is a loop that
  -- has not ended.
  unfoldable pub select_epochs : List (U × ℤ) → ℕ → ℕ → ℕ → ℕ → List U → Option (List U)
  select_epochs ls zero epoch top layers us = none
  select_epochs ls (suc rounds) epoch top layers us =
      let rest = select_epochs ls rounds ((epoch + 1) % 2 ^ 32) top layers us in
      if leb epoch top then and_then (select_layers ls epoch 0 layers us) rest else some []

  -- The largest layer, one more than it, as a count: -1 gives no layer.
  unfoldable pub layer_count : List (U × ℤ) → List U → ℤ → ℕ
  layer_count ls [] (pos n) = suc n
  layer_count ls [] (negsuc n) = 0
  layer_count ls (u ∷ us) highest =
      layer_count ls us (if ltb_ℤ highest (layer_of ls u) then layer_of ls u else highest)

  unfoldable pub max_epoch : List U → ℕ → ℕ
  max_epoch [] e = e
  max_epoch (u ∷ us) e = max_epoch us (if ltb e (epoch_id u) then epoch_id u else e)

  unfoldable pub min_epoch : List U → ℕ → ℕ
  min_epoch [] e = e
  min_epoch (u ∷ us) e = min_epoch us (if ltb (epoch_id u) e then epoch_id u else e)

  unfoldable pub sort_by_layers : List (U × ℤ) → ℕ → List U → Option (List U)
  sort_by_layers ls rounds [] = some []
  sort_by_layers ls rounds (u ∷ us) =
      select_epochs ls rounds (min_epoch (u ∷ us) (epoch_id u)) (max_epoch (u ∷ us) (epoch_id u))
        (layer_count ls (u ∷ us) (negsuc 0)) (u ∷ us)

  -- sortChunk, with fuel for its loop over epochs and for the depth of computeLayer.
  unfoldable pub sort_chunk : ℕ → ℕ → List U → Option (List U)
  sort_chunk rounds fuel units =
      sort_by_layers (compute_layers fuel units (start_layers units [])) rounds units
