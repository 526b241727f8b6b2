-- ===== src/Dag/View.antt =====
-- pkg/gomel/daginfo.go: the heights of MaxView.
use consensus_go.Base.{List, [], ◌∷◌, map, if◌then◌else◌}
use consensus_go.Base.Int.{ℤ, pos, negsuc, ltb_ℤ}
use consensus_go.Gomel.Unit.{UnitInterface, height}
use consensus_go.Dag.Slots.{Slotted}

module _ {U : Type 0} ⦃i : UnitInterface U⦄ where
  -- The height of the highest of the maximal units of a process, from `h` on.
  abbrev pub top_height : ℤ → List U → ℤ
  top_height h [] = h
  top_height h (u ∷ us) = top_height (if ltb_ℤ h (pos (height u)) then pos (height u) else h) us

  abbrev pub max_heights : Slotted U → List ℤ
  max_heights maximal = map (λ us. top_height (negsuc 0) us) maximal
