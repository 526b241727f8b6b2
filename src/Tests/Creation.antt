-- ===== src/Tests/Creation.antt =====
-- The creator's theorems at small committees.
use consensus_go.Base.{
  List, Option, ◌⊎◌, inl, inr, false, ℕ, zero, suc, ◌+◌, ◌≡◌, ◌≤◌, refl, true, false, [], ◌∷◌, none,
  some, arith, length, ◌==◌, if◌then◌else◌,
}
use consensus_go.Gomel.Unit.{UnitInterface, slot, level_from_parents}
use consensus_go.Dag.Store.{new_store}
use consensus_go.Dag.Check.{parent_consistency}
use consensus_go.Creator.Consistent.{make_consistent, raise_all, raise_from}
use consensus_go.Creator.Consistency.{IsConsistent, IsSound, AreIn, rung, make_consistent_lem}
use consensus_go.Creator.State.{
  CreatorConfig, Services, Creator, new_for_epoch, new_epoch, update, update_all, freeze_parent,
}
use consensus_go.Creator.Running.{update_all-level}
use consensus_go.Creator.Ending.{update_enough}
use consensus_go.Creator.Freezing.{freeze_parent-level}
use consensus_go.Tests.Briefs.{Brief, brief, brief_preunit, brief_unit}
use consensus_go.Tests.Chains.{link_unit}
use consensus_go.Tests.Samples.{Sample, first_prime, second_prime, second_dealing, sample_unit}

abbrev pair_config : CreatorConfig
pair_config = record {
  pid = 0;
  n_proc = 2;
  quorum = 2;
  can_skip_level = true;
  last_level = 5;
  number_of_epochs = 3;
}

-- Proofs and the world are numbers; a unit on level 9 completes a proof.
abbrev brief_services : Services Brief ℕ ℕ
brief_services = record {
  get_data = none;
  rs_data = λ level ps epoch world. [];
  make_unit = λ epoch ps level payload rs. brief 0 epoch level;
  send = λ u world. world + 1;
  proof_builder = λ epoch. epoch;
  verify = λ p u. true;
  try_building = λ p u. if u.on_level == 9 then (some (7 ∷ []), p) else (none, p);
  build_share = λ p u. [];
}

abbrev running : Creator Brief ℕ ℕ
running = update_all pair_config brief_services 2 (brief 1 0 0 ∷ brief 1 0 1 ∷ brief 1 1 0 ∷ []) (
    new_epoch pair_config brief_services (update pair_config brief_services 2) 0 []
      (new_for_epoch pair_config 0 0 0))

update_all-level_example :
    (running.level ≡ level_from_parents (λ n. 2) running.candidates)
    × (length running.candidates ≡ 2)
update_all-level_example =
    update_all-level pair_config brief_services (λ epoch ps level payload rs. omega arith)
      (omega arith) (λ n. 2) 2 (brief 1 0 0 ∷ brief 1 0 1 ∷ brief 1 1 0 ∷ []) 0 [] 0 0 refl
      (omega arith) (omega arith)

update_enough_example :
    update pair_config brief_services 5 (brief 1 0 9) (new_for_epoch pair_config 0 0 0)
    ≡ update pair_config brief_services 2 (brief 1 0 9) (new_for_epoch pair_config 0 0 0)
update_enough_example =
    update_enough pair_config brief_services (λ epoch ps level payload rs. refl)
      (λ epoch ps payload rs p. refl) 3 (brief 1 0 9) (new_for_epoch pair_config 0 0 0)

-- A dealing unit of each of two processes, a unit of the second above both, and a unit of the first above
-- these two, which is not in the dag yet.
data Corner : Type 0 where
  left right top made : Corner

abbrev corner_parents : Corner → List (Option Corner)
corner_parents left = none ∷ none ∷ []
corner_parents right = none ∷ none ∷ []
corner_parents top = some left ∷ some right ∷ []
corner_parents made = some left ∷ some top ∷ []

abbrev corner_level : Corner → ℕ
corner_level left = 0
corner_level right = 0
corner_level top = 1
corner_level made = 1

abbrev corner_unit : UnitInterface Corner
corner_unit = record {
  preunit = λ u. brief_preunit (brief 0 0 (corner_level u));
  parents = corner_parents;
  level = corner_level;
  above_within_proc = λ u v. false;
  floor = λ u pid. [];
  same = λ u v. corner_level u == corner_level v;
}

abbrev IsOld : Corner → Type 0
IsOld left = Unit
IsOld right = Unit
IsOld top = Unit
IsOld made = ⊥

bare : (k : ℕ) → rung ⦃i = corner_unit⦄ (slot (corner_parents left) k) ≡ 0
bare zero = refl
bare (suc zero) = refl
bare (suc (suc k)) = refl

no_corner : (k : ℕ) (p : Corner) → slot (corner_parents left) k ≡ some p → ⊥
no_corner zero p e = absurd (ground (arith, e))
no_corner (suc zero) p e = absurd (ground (arith, e))
no_corner (suc (suc k)) p e = absurd (ground (arith, e))

is_left_or_right :
    (k : ℕ) (p : Corner) → slot (corner_parents top) k ≡ some p → (p ≡ left) ⊎ (p ≡ right)
is_left_or_right zero p e = inl (ground (arith, e))
is_left_or_right (suc zero) p e = inr (ground (arith, e))
is_left_or_right (suc (suc k)) p e = absurd (ground (arith, e))

corner-IsSound : IsSound ⦃i = corner_unit⦄ IsOld
corner-IsSound = record { consistent = consistent; below = below_top; closed = closed }
  where
    consistent : (w : Corner) → IsOld w → IsConsistent ⦃i = corner_unit⦄ (corner_parents w)
    consistent left _ k j p e = absurd (no_corner j p e)
    consistent right _ k j p e = absurd (no_corner j p e)
    consistent top _ k j p e = elim (is_left_or_right j p e) [
      | inl l ↦ rw (l, bare k) (omega arith)
      | inr r ↦ rw (r, bare k) (omega arith)
    ]
    consistent made not_old k j p e = absurd not_old

    below_top :
        (w : Corner) (k : ℕ)
        → IsOld w
        → rung ⦃i = corner_unit⦄ (slot (corner_parents w) k) ≤ corner_level w + 1
    below_top left k _ = rw (bare k) (omega arith)
    below_top right k _ = rw (bare k) (omega arith)
    below_top top zero _ = omega arith
    below_top top (suc zero) _ = omega arith
    below_top top (suc (suc k)) _ = omega arith
    below_top made k not_old = absurd not_old

    closed : (w q : Corner) (k : ℕ) → IsOld w → slot (corner_parents w) k ≡ some q → IsOld q
    closed left q k _ e = absurd (no_corner k q e)
    closed right q k _ e = absurd (no_corner k q e)
    closed top q k _ e = elim (is_left_or_right k q e) [ inl l ↦ rw l tt | inr r ↦ rw r tt ]
    closed made q k not_old e = absurd not_old

-- The unit is made of the one candidate of the second process; MakeConsistent adds the parent of that.
make_consistent_lem_example :
    parent_consistency {U = Corner} ⦃i = corner_unit⦄ made (new_store 2 0 3) ≡ none
unfolding make_consistent raise_all raise_from new_store
make_consistent_lem_example =
    make_consistent_lem ⦃i = corner_unit⦄ IsOld corner-IsSound (none ∷ some top ∷ []) made
      (new_store 2 0 3) known refl refl
  where
    known : AreIn ⦃i = corner_unit⦄ IsOld (none ∷ some top ∷ [])
    known zero p e = absurd (ground (arith, e))
    known (suc zero) p e = let same : p ≡ top = ground (arith, e) in rw same tt
    known (suc (suc j)) p e = absurd (ground (arith, e))

abbrev pair_top : Creator Sample ℕ ℕ
pair_top = record {
  epoch = 0;
  epoch_done = false;
  candidates = some first_prime ∷ some second_prime ∷ [];
  max_lvl = 2;
  on_max_lvl = 2;
  level = 2;
  frozen = λ pid. false;
  epoch_proof = 0;
  last_timing = [];
  world = 0;
}

abbrev sample_services : Services Sample ℕ ℕ
sample_services = record {
  get_data = none;
  rs_data = λ level ps epoch world. [];
  make_unit = λ epoch ps level payload rs. first_prime;
  send = λ u world. world + 1;
  proof_builder = λ epoch. epoch;
  verify = λ p u. true;
  try_building = λ p u. (none, p);
  build_share = λ p u. [];
}

freeze_parent-level_example :
    (t : Creator Sample ℕ ℕ) × (freeze_parent pair_config sample_services 1 pair_top
      ≡ some (some second_dealing, t))
    × (t.candidates ≡ some first_prime ∷ some second_dealing ∷ [])
    × (t.level ≡ level_from_parents (λ n. 2) t.candidates + 1)
freeze_parent-level_example =
    freeze_parent-level pair_config sample_services (λ n. 2) pair_top 1 first_prime refl
      (omega arith) (omega arith) refl (omega arith) refl refl (omega arith)
      (record {
        up_to = omega arith;
        counted = refl;
        reached = λ h. omega arith;
        level_counted = refl;
      })
