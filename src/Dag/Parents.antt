-- ===== src/Dag/Parents.antt =====
-- pkg/dag/adding.go: the parents that DecodeParents finds.
use consensus_go.Base.{
  ℕ, ◌+◌, ◌≡◌, ◌≢◌, ◌↔◌, refl, ap, List, [], ◌∷◌, Option, none, some, arith, length,
}
use consensus_go.Base.Int.{ℤ, pos, negsuc}
use consensus_go.Base.Outcome.{ok, panic}
use consensus_go.Gomel.Preunit.{Preunit}
use consensus_go.Gomel.Unit.{UnitInterface, height, creator, hash}
use consensus_go.Dag.Fibers.{FiberMap, units_at, get_from, get_units_at}
use consensus_go.Dag.Store.{Store, IsCoherent, get_unit}
use consensus_go.Dag.Adding.{pick_parents, decode_parents}

module _ {U : Type 0} where
  -- What one height of a crown stands for: no parent at -1, and otherwise the only unit of the process
  -- at that height.
  abbrev pub IsParentAt : FiberMap U → ℕ → ℤ → Option U → Type 0
  IsParentAt fm pid h none = h ≡ negsuc 0
  IsParentAt fm pid (pos n) (some u) = units_at fm n pid ≡ u ∷ []
  IsParentAt fm pid (negsuc n) (some u) = ⊥

  -- The same for each height, the processes counted from `pid` on.
  abbrev pub AreParents : FiberMap U → ℕ → List ℤ → List (Option U) → Type 0
  AreParents fm pid [] [] = Unit
  AreParents fm pid [] (p ∷ ps) = ⊥
  AreParents fm pid (h ∷ hs) [] = ⊥
  AreParents fm pid (h ∷ hs) (p ∷ ps) = IsParentAt fm pid h p × AreParents fm (pid + 1) hs ps

  pick_parents-AreParents :
      (fm : FiberMap U) (possible : List (List U)) (pid : ℕ) (hs : List ℤ) (ps : List (Option U))
      → pick_parents possible hs (get_from fm pid hs).0 ≡ ok ps
      → AreParents fm pid hs ps
  unfolding pick_parents get_from units_at
  pick_parents-AreParents fm possible pid [] [] e = tt
  pick_parents-AreParents fm possible pid [] (p ∷ ps) e = cc
  pick_parents-AreParents fm possible pid (h ∷ hs) [] e = ground arith
  pick_parents-AreParents fm possible pid (pos n ∷ hs) (p ∷ ps) e =
      ground (arith, pick_parents-AreParents fm possible (pid + 1) hs ps)
  pick_parents-AreParents fm possible pid (negsuc n ∷ hs) (p ∷ ps) e =
      ground (arith, pick_parents-AreParents fm possible (pid + 1) hs ps)

  AreParents-pick_parents :
      (fm : FiberMap U) (possible : List (List U)) (pid : ℕ) (hs : List ℤ) (ps : List (Option U))
      → AreParents fm pid hs ps
      → ((get_from fm pid hs).1 ≡ 0) × (pick_parents possible hs (get_from fm pid hs).0 ≡ ok ps)
  unfolding pick_parents get_from units_at
  AreParents-pick_parents fm possible pid [] [] v = (refl, refl)
  AreParents-pick_parents fm possible pid [] (p ∷ ps) v = absurd v
  AreParents-pick_parents fm possible pid (h ∷ hs) [] v = absurd v
  AreParents-pick_parents fm possible pid (h ∷ hs) (none ∷ ps) (here, v) =
      ground (arith, AreParents-pick_parents fm possible (pid + 1) hs ps v)
  AreParents-pick_parents fm possible pid (pos n ∷ hs) (some u ∷ ps) (here, v) =
      ground (arith, AreParents-pick_parents fm possible (pid + 1) hs ps v)
  AreParents-pick_parents fm possible pid (negsuc n ∷ hs) (some u ∷ ps) (here, v) = absurd here

  -- DecodeParents answers with a list of parents exactly when the preunit is new, its crown has a height
  -- for each process, and the list has no parent where the height is -1 and otherwise the only unit of
  -- the process at that height.
  pub decode_parents_iff :
      (d : Store U) (pu : Preunit) (ps : List (Option U))
      → (decode_parents d pu ≡ ok ps) ↔ (
          (get_unit d pu.hash ≡ none)
          × (length pu.crown.heights ≡ d.height_units.width)
          × AreParents d.height_units 0 pu.crown.heights ps)
  unfolding decode_parents get_units_at
  decode_parents_iff d pu ps = (sound, complete)
    where
      sound :
          decode_parents d pu ≡ ok ps
          → (get_unit d pu.hash ≡ none)
            × (length pu.crown.heights ≡ d.height_units.width)
            × AreParents d.height_units 0 pu.crown.heights ps
      sound e = ground (
        arith,
        pick_parents-AreParents d.height_units (get_from d.height_units 0 pu.crown.heights).0 0
            pu.crown.heights ps,
      )

      complete :
          (get_unit d pu.hash ≡ none)
            × (length pu.crown.heights ≡ d.height_units.width)
            × AreParents d.height_units 0 pu.crown.heights ps
          → decode_parents d pu ≡ ok ps
      complete (fresh, l, v) = ground (
        arith,
        AreParents-pick_parents d.height_units (get_from d.height_units 0 pu.crown.heights).0 0
            pu.crown.heights ps v,
      )

  pick_parents-ne-panic :
      (fm : FiberMap U) (possible : List (List U)) (pid : ℕ) (hs : List ℤ)
      → (get_from fm pid hs).1 ≡ 0
      → pick_parents possible hs (get_from fm pid hs).0 ≢ panic
  unfolding pick_parents get_from
  pick_parents-ne-panic fm possible pid [] known e = cc
  pick_parents-ne-panic fm possible pid (pos n ∷ hs) known e =
      ground (arith, pick_parents-ne-panic fm possible (pid + 1) hs)
  pick_parents-ne-panic fm possible pid (negsuc n ∷ hs) known e =
      ground (arith, pick_parents-ne-panic fm possible (pid + 1) hs)

  -- DecodeParents panics on a preunit that is new exactly when its crown has another number of heights
  -- than the dag has processes.
  pub decode_parents-panic_iff :
      (d : Store U) (pu : Preunit)
      → get_unit d pu.hash ≡ none
      → (decode_parents d pu ≡ panic) ↔ (length pu.crown.heights ≢ d.height_units.width)
  unfolding decode_parents get_units_at
  decode_parents-panic_iff d pu fresh = (only, whenever)
    where
      only : decode_parents d pu ≡ panic → length pu.crown.heights ≢ d.height_units.width
      only e l = ground (
        arith,
        pick_parents-ne-panic d.height_units (get_from d.height_units 0 pu.crown.heights).0 0
            pu.crown.heights,
      )

      whenever : length pu.crown.heights ≢ d.height_units.width → decode_parents d pu ≡ panic
      whenever ne = ground arith

module _ {U : Type 0} ⦃i : UnitInterface U⦄ where
  -- A parent is the process's own unit, at the height that the crown gives, and in the dag.
  abbrev IsOwnUnit : Store U → ℕ → ℤ → Option U → Type 0
  IsOwnUnit d pid h none = h ≡ negsuc 0
  IsOwnUnit d pid h (some u) =
      (creator u ≡ pid) × (pos (height u) ≡ h) × (get_unit d (hash u) ≡ some u)

  abbrev AreOwnUnits : Store U → ℕ → List ℤ → List (Option U) → Type 0
  AreOwnUnits d pid [] [] = Unit
  AreOwnUnits d pid [] (p ∷ ps) = ⊥
  AreOwnUnits d pid (h ∷ hs) [] = ⊥
  AreOwnUnits d pid (h ∷ hs) (p ∷ ps) = IsOwnUnit d pid h p × AreOwnUnits d (pid + 1) hs ps

  AreParents-AreOwnUnits :
      (d : Store U) (pid : ℕ) (hs : List ℤ) (ps : List (Option U))
      → IsCoherent d
      → AreParents d.height_units pid hs ps
      → AreOwnUnits d pid hs ps
  AreParents-AreOwnUnits d pid [] [] v a = tt
  AreParents-AreOwnUnits d pid [] (p ∷ ps) v a = absurd a
  AreParents-AreOwnUnits d pid (h ∷ hs) [] v a = absurd a
  AreParents-AreOwnUnits d pid (h ∷ hs) (none ∷ ps) v (here, a) =
      (here, AreParents-AreOwnUnits d (pid + 1) hs ps v a)
  AreParents-AreOwnUnits d pid (negsuc n ∷ hs) (some u ∷ ps) v (here, a) = absurd here
  AreParents-AreOwnUnits d pid (pos n ∷ hs) (some u ∷ ps) v (here, a) =
      let (placed, _) = rw here at (v.heights_placed n pid) in
      ((placed.1, ap pos placed.0, placed.2), AreParents-AreOwnUnits d (pid + 1) hs ps v a)

  -- In a dag whose indexes agree, the parents that DecodeParents answers with are units of that dag: the
  -- i-th is created by the i-th process at the i-th height of the crown, and is missing at -1 only.
  decode_parents-AreOwnUnits :
      (d : Store U) (pu : Preunit) (ps : List (Option U))
      → IsCoherent d
      → decode_parents d pu ≡ ok ps
      → AreOwnUnits d 0 pu.crown.heights ps
  decode_parents-AreOwnUnits d pu ps v e =
      AreParents-AreOwnUnits d 0 pu.crown.heights ps v ((decode_parents_iff d pu ps).0 e).2
