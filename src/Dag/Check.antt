-- ===== src/Dag/Check.antt =====
-- pkg/dag/check: the rules that a unit must keep to enter a dag.
use consensus_go.Base.{
  ℕ, zero, suc, ◌+◌, ◌≡◌, ◌<◌, refl, ap, Bool, true, false, not, List, [], ◌∷◌, Option, none, some,
  arith, ltb, leb, ◌==◌, if◌then◌else◌, length, Option-cases, inl, inr,
}
use consensus_go.Gomel.Preunit.{equal, dealing}
use consensus_go.Gomel.Unit.{UnitInterface, height, creator, slot, predecessor}
use consensus_go.Dag.Slots.{get}
use consensus_go.Dag.Store.{Store}

-- gomel.ComplianceError, by its message.
pub data ComplianceError : Type 0 where
  wrong_number_of_parents parent_of_wrong_creator no_predecessor non_prime : ComplianceError
  level_differs_from_height unit_is_fork inconsistent_parents self_forking parent_is_forker :
      ComplianceError

module _ {U : Type 0} ⦃i : UnitInterface U⦄ where
  -- The loop of BasicCorrectness over the parents, from the process `pid` on: the number of parents, or
  -- none if one of them is by another process.
  unfoldable pub count_parents : ℕ → List (Option U) → Option ℕ
  count_parents pid [] = some 0
  count_parents pid (none ∷ ps) = count_parents (pid + 1) ps
  count_parents pid (some p ∷ ps) =
      let rest = count_parents (pid + 1) ps in
      if creator p == pid then elim rest [ none ↦ none | some n ↦ some (n + 1) ] else none

  abbrev pub check_predecessor : U → Option U → Option ℕ → Option ComplianceError
  check_predecessor u p none = some parent_of_wrong_creator
  check_predecessor u none (some n) = if ltb 0 n then some no_predecessor else none
  check_predecessor u (some p) (some n) =
      if leb (i.level u) (i.level p) then some non_prime else none

  unfoldable pub basic_correctness : U → Store U → Option ComplianceError
  basic_correctness u d =
      if length (i.parents u) == d.n_proc
      then check_predecessor u (predecessor u) (count_parents 0 (i.parents u))
      else some wrong_number_of_parents

  unfoldable pub no_level_skipping : U → Store U → Option ComplianceError
  no_level_skipping u d = if i.level u == height u then none else some level_differs_from_height

  abbrev pub check_height : List U → ℕ → Option ComplianceError
  check_height [] h = none
  check_height (max ∷ ms) h = if leb h (height max) then some unit_is_fork else none

  unfoldable pub no_forks : U → Store U → Option ComplianceError
  no_forks u d = check_height (get d.max_units (creator u)) (height u)

  -- ParentConsistency at one process and one parent: what the parent has of that process is not on a
  -- higher level than what the unit has.
  abbrev pub lower_than : Option U → Option U → Bool
  lower_than mine none = false
  lower_than none (some theirs) = true
  lower_than (some mine) (some theirs) = ltb (i.level mine) (i.level theirs)

  unfoldable pub consistent_with : Option U → ℕ → List (Option U) → Bool
  consistent_with mine pid [] = true
  consistent_with mine pid (none ∷ ps) = consistent_with mine pid ps
  consistent_with mine pid (some p ∷ ps) =
      let rest = consistent_with mine pid ps in
      if lower_than mine (slot (i.parents p) pid) then false else rest

  unfoldable pub consistent_from : List (Option U) → ℕ → ℕ → Bool
  consistent_from parents pid zero = true
  consistent_from parents pid (suc count) =
      let rest = consistent_from parents (pid + 1) count in
      if consistent_with (slot parents pid) pid parents then rest else false

  unfoldable pub parent_consistency : U → Store U → Option ComplianceError
  parent_consistency u d =
      if consistent_from (i.parents u) 0 d.n_proc then none else some inconsistent_parents

  -- hasForkingEvidence; the parent is there where the floor has one unit.
  abbrev pub evidence_in : List U → Option U → Bool
  evidence_in [] p = false
  evidence_in (f ∷ []) none = true
  evidence_in (f ∷ []) (some p) = not (equal (i.preunit f) (i.preunit p))
  evidence_in (f ∷ f' ∷ fs) p = true

  unfoldable pub has_forking_evidence : U → ℕ → Bool
  has_forking_evidence u c =
      if dealing (i.preunit u) then false else evidence_in (i.floor u c) (slot (i.parents u) c)

  unfoldable pub no_self_forking_evidence : U → Store U → Option ComplianceError
  no_self_forking_evidence u d =
      if has_forking_evidence u (creator u) then some self_forking else none

  -- The inner loop of ForkerMuting: whether `p` has evidence against the creator of another parent.
  unfoldable pub mutes_none : U → List (Option U) → Bool
  mutes_none p [] = true
  mutes_none p (none ∷ qs) = mutes_none p qs
  mutes_none p (some q ∷ qs) =
      let rest = mutes_none p qs in
      if i.same p q then rest else if has_forking_evidence p (creator q) then false else rest

  unfoldable pub all_mute_none : List (Option U) → List (Option U) → Bool
  all_mute_none [] qs = true
  all_mute_none (none ∷ ps) qs = all_mute_none ps qs
  all_mute_none (some p ∷ ps) qs =
      let rest = all_mute_none ps qs in if mutes_none p qs then rest else false

  unfoldable pub forker_muting : U → Store U → Option ComplianceError
  forker_muting u d =
      if all_mute_none (i.parents u) (i.parents u) then none else some parent_is_forker

  -- Every parent is created by the process of its place, counted from `pid`.
  abbrev pub AreByProcess : ℕ → List (Option U) → Type 0
  AreByProcess pid [] = Unit
  AreByProcess pid (none ∷ ps) = AreByProcess (pid + 1) ps
  AreByProcess pid (some p ∷ ps) = (creator p ≡ pid) × AreByProcess (pid + 1) ps

  abbrev pub AllMissing : List (Option U) → Type 0
  AllMissing [] = Unit
  AllMissing (none ∷ ps) = AllMissing ps
  AllMissing (some p ∷ ps) = ⊥

  -- A unit stands above its predecessor, or has no parents.
  abbrev pub FollowsPredecessor : U → Option U → Type 0
  FollowsPredecessor u none = AllMissing (i.parents u)
  FollowsPredecessor u (some p) = i.level p < i.level u

  count_parents-AreByProcess :
      (pid n : ℕ) (ps : List (Option U)) → count_parents pid ps ≡ some n → AreByProcess pid ps
  unfolding count_parents
  count_parents-AreByProcess pid n [] e = tt
  count_parents-AreByProcess pid n (none ∷ ps) e = count_parents-AreByProcess (pid + 1) n ps e
  count_parents-AreByProcess pid n (some p ∷ ps) e =
      elim (Option-cases (count_parents (pid + 1) ps)) [
        | inl stop ↦ absurd (ground arith)
        | inr (m, more) ↦ (ground arith, count_parents-AreByProcess (pid + 1) m ps more)
      ]

  count_parents-AllMissing :
      (pid : ℕ) (ps : List (Option U)) → count_parents pid ps ≡ some 0 → AllMissing ps
  unfolding count_parents
  count_parents-AllMissing pid [] e = tt
  count_parents-AllMissing pid (none ∷ ps) e = count_parents-AllMissing (pid + 1) ps e
  count_parents-AllMissing pid (some p ∷ ps) e = ground arith

  passes :
      (u : U) (p : Option U) (c : Option ℕ)
      → count_parents 0 (i.parents u) ≡ c
      → check_predecessor u p c ≡ none
      → AreByProcess 0 (i.parents u) × FollowsPredecessor u p
  passes u p none counted e = absurd (ground arith)
  passes u none (some n) counted e =
      let zero_parents : n ≡ 0 = ground arith in
      (
        count_parents-AreByProcess 0 n (i.parents u) counted,
        count_parents-AllMissing 0 (i.parents u) (rw counted (ap some zero_parents)),
      )
  passes u (some p) (some n) counted e =
      (count_parents-AreByProcess 0 n (i.parents u) counted, ground arith)

  -- A unit that passes BasicCorrectness has a parent slot for each process of the dag, each parent is
  -- created by the process of its slot, and the unit is on a higher level than its predecessor, or has no
  -- parents at all.
  pub basic_correctness_sound :
      (u : U) (d : Store U)
      → basic_correctness u d ≡ none
      → (length (i.parents u) ≡ d.n_proc)
        × AreByProcess 0 (i.parents u)
        × FollowsPredecessor u (predecessor u)
  unfolding basic_correctness
  basic_correctness_sound u d e = (ground arith, both.0, both.1)
    where
      both : AreByProcess 0 (i.parents u) × FollowsPredecessor u (predecessor u)
      both = passes u (predecessor u) (count_parents 0 (i.parents u)) refl (ground arith)
