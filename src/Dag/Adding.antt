-- ===== src/Dag/Adding.antt =====
-- pkg/dag/adding.go: decoding the parents of a preunit, checking a unit and inserting it.
use consensus_go.Base.{ℕ, List, [], ◌∷◌, ◌++◌, Option, none, some, ltb, if◌then◌else◌}
use consensus_go.Base.Int.{ℤ, negsuc, eq_ℤ}
use consensus_go.Base.Outcome.{Outcome, ok, err, panic, ◌>>=◌}
use consensus_go.Gomel.Preunit.{Preunit}
use consensus_go.Gomel.Unit.{UnitInterface, height, creator, hash, above}
use consensus_go.Dag.Slots.{Slotted, get, put}
use consensus_go.Dag.Bag.{add}
use consensus_go.Dag.Fibers.{get_units_at}
use consensus_go.Dag.Fibers.Growth.{add_unit}
use consensus_go.Dag.Store.{Store, get_unit}

-- pkg/gomel/errors.go: what adding a unit may answer.
pub data AddError (U : Type 0) : Type 0 where
  duplicate_unit : U → AddError U
  unknown_parents : ℕ → AddError U
  ambiguous_parents : List (List U) → AddError U

module _ {U : Type 0} where
  -- One round of the loop over the possible parents; reading the first of none panics.
  abbrev pub pick_parent : List (List U) → List U → Outcome (AddError U) (Option U)
  pick_parent possible [] = panic
  pick_parent possible (u ∷ []) = ok (some u)
  pick_parent possible (u ∷ v ∷ us) = err (ambiguous_parents possible)

  unfoldable pub pick_parents :
      List (List U) → List ℤ → List (List U) → Outcome (AddError U) (List (Option U))
  pick_parents possible [] uss = ok []
  pick_parents possible (h ∷ hs) [] = panic
  pick_parents possible (h ∷ hs) (us ∷ uss) =
      let rest = pick_parents possible hs uss in
      (if eq_ℤ h (negsuc 0) then ok none else pick_parent possible us) >>= λ p.
      rest >>= λ ps. ok (p ∷ ps)

  abbrev pub decode_new : Store U → List ℤ → Option U → Outcome (AddError U) (List (Option U))
  decode_new d heights (some u) = err (duplicate_unit u)
  decode_new d heights none = get_units_at d.height_units heights >>= λ r.
      if ltb 0 r.1 then err (unknown_parents r.1) else pick_parents r.0 heights r.0

  unfoldable pub decode_parents : Store U → Preunit → Outcome (AddError U) (List (Option U))
  decode_parents d pu = decode_new d pu.crown.heights (get_unit d pu.hash)

  -- Check: the first error of the checks in their order.
  unfoldable pub run_checks : {E : Type 0} → List (U → Store U → Option E) → U → Store U → Option E
  run_checks [] u d = none
  run_checks (check ∷ checks) u d =
      let rest = run_checks checks u d in elim (check u d) [ some e ↦ some e | none ↦ rest ]

  -- The hooks act on a world of their own.
  unfoldable pub run_hooks : {X : Type 0} → List (U → X → X) → U → X → X
  run_hooks [] u x = x
  run_hooks (hook ∷ hooks) u x = run_hooks hooks u (hook u x)

module _ {U : Type 0} ⦃i : UnitInterface U⦄ where
  -- The loop of updateMaximal: the units that `u` is not above.
  unfoldable pub not_below : U → List U → List U
  not_below u [] = []
  not_below u (v ∷ vs) =
      let rest = not_below u vs in if above (some u) (some v) then rest else v ∷ rest

  unfoldable pub update_maximal : U → Slotted U → Slotted U
  update_maximal u maxes = put maxes (creator u) (not_below u (get maxes (creator u)) ++ (u ∷ []))

  -- The updates of Insert between the hooks, on a unit that is embedded already.
  unfoldable pub insert_embedded : {E : Type 0} → U → Store U → Outcome E (Store U)
  insert_embedded u d = add_unit d.height_units (height u) (creator u) u >>= λ heights.
      add_unit d.level_units (i.level u) (creator u) u >>= λ levels. ok (record d {
        units = add d.units (hash u) u;
        level_units = levels;
        height_units = heights;
        max_units = update_maximal u d.max_units;
      })

  -- Insert; `embed` is unit.Embed, which reads the maximal units only.
  unfoldable pub insert :
      {E X : Type 0}
      → (U → Slotted U → U)
      → List (U → X → X)
      → List (U → X → X)
      → U
      → Store U × X
      → Outcome E (Store U × X)
  insert embed pre post u (d, x) =
      let u' = embed u d.max_units in
      insert_embedded u' d >>= λ d'. ok (d', run_hooks post u' (run_hooks pre u' x))
