-- ===== src/Linear/Decisions.antt =====
-- pkg/linear/super_majority_deciding.go: what a decision rests on.
use consensus_go.Base.{
  ℕ, zero, suc, ◌+◌, ◌-◌, ◌≡◌, ◌≢◌, ◌<◌, ◌≤◌, refl, ap, true, false, List, [], ◌∷◌, Option, none,
  some, arith, inl, inr, ◌⊎◌,
}
use consensus_go.Base.Int.{ℤ, pos}
use consensus_go.Gomel.Unit.{UnitInterface}
use consensus_go.Dag.Bag.{Bag}
use consensus_go.Dag.Slots.{Slotted}
use consensus_go.Dag.Store.{Store, units_on_level}
use consensus_go.Linear.Votes.{
  Vote, popular, unpopular, undecided, VoteConfig, RandomBytes, common_at, first_voting_round,
  Ensures, ensures_bind, ensures_mono, ensures_any, ensures_if, ensures_some,
}
use consensus_go.Linear.Decider.{
  Decider, max_decide_level, is_undecided, decide, agrees, decide_primes, decide_level,
  decide_levels, decide_unit_is_popular,
}

-- No decision is tried above the level of the dag, and none that rests on a coin is tried on its two
-- highest levels.
pub max_decide_level_bounds :
    (uc_level prefix dag_max : ℕ)
    → (max_decide_level uc_level prefix dag_max ≤ dag_max)
      × (uc_level + prefix < max_decide_level uc_level prefix dag_max
          → max_decide_level uc_level prefix dag_max + 2 ≤ dag_max)
unfolding max_decide_level
max_decide_level_bounds uc_level prefix dag_max = ground arith

module _ {U : Type 0} ⦃i : UnitInterface U⦄ (minimal_quorum : ℕ → ℕ) (conf : VoteConfig)
    (rs : RandomBytes) (d : Store U) where
  -- A vote that is undecided, or is the common vote.
  abbrev pub IsCommon : Option Vote → Vote → Type 0
  IsCommon common v = (v ≡ undecided) ⊎ (common ≡ some v)

  agrees-IsCommon :
      (common : Option Vote) (v : Vote)
      → Ensures (agrees minimal_quorum conf rs d common v) (λ same. same ≡ true → common ≡ some v)
  agrees-IsCommon none popular = tt
  agrees-IsCommon none unpopular = tt
  agrees-IsCommon none undecided = λ e. cc
  agrees-IsCommon (some popular) popular = λ e. refl
  agrees-IsCommon (some _) undecided = λ e. cc
  agrees-IsCommon (some unpopular) unpopular = λ e. refl
  agrees-IsCommon (some unpopular) popular = λ e. cc
  agrees-IsCommon (some undecided) popular = λ e. cc
  agrees-IsCommon (some popular) unpopular = λ e. cc
  agrees-IsCommon (some undecided) unpopular = λ e. cc

  decide_primes-IsCommon :
      (uc : U) (common : Option Vote) (vs : List U) (memo : Bag Vote)
      → Ensures
          (decide_primes minimal_quorum conf rs d uc common vs memo)
          (λ r. IsCommon common r.0)
  unfolding decide_primes
  decide_primes-IsCommon uc common [] memo = inl refl
  decide_primes-IsCommon uc common (u ∷ us) memo =
      ensures_bind (decide minimal_quorum conf rs d uc u memo) _ _ _ (ensures_any _) λ (v, memo') _.
        ensures_bind (agrees minimal_quorum conf rs d common v) _ _ _ (agrees-IsCommon common v)
          λ same h.
            ensures_if same _ _ _ (λ e. inr (h e)) (λ _. decide_primes-IsCommon uc common us memo')

  decide_level-IsCommon :
      (uc : U) (common : Option Vote) (su : Slotted U) (memo : Bag Vote)
      → Ensures (decide_level minimal_quorum conf rs d uc common su memo) (λ r. IsCommon common r.0)
  unfolding decide_level
  decide_level-IsCommon uc common [] memo = inl refl
  decide_level-IsCommon uc common (vs ∷ su) memo =
      ensures_bind (decide_primes minimal_quorum conf rs d uc common vs memo) _ _ _
        (decide_primes-IsCommon uc common vs memo)
        λ (v, memo') h.
          ensures_if (is_undecided v) _ _ _ (λ _. decide_level-IsCommon uc common su memo') (λ _. h)

  -- A decision for the candidate `uc`: made at a level of the given range, where it is the common vote,
  -- and remembered.
  abbrev pub IsDecision : U → ℕ → ℕ → (Vote × ℤ) × Decider U → Type 0
  IsDecision uc start end ((v, level), smd) =
      (smd.candidate ≡ uc)
      × (((v ≡ undecided) × (smd.decision ≡ undecided))
          ⊎ ((l : ℕ) × (level ≡ pos l)
              × (start ≤ l)
              × (l < end)
              × (common_at conf rs uc l ≡ some v)
              × (smd.decision ≡ v)))

  widen :
      (uc : U) (start start' end end' : ℕ) (r : (Vote × ℤ) × Decider U)
      → start ≤ start'
      → end' ≤ end
      → IsDecision uc start' end' r
      → IsDecision uc start end r
  widen uc start start' end end' r low high (e, inl none_yet) = (e, inl none_yet)
  widen uc start start' end end' r low high (e, inr (l, at, from, to, c, kept)) =
      (e, inr (l, at, omega arith, omega arith, c, kept))

  decided-IsDecision :
      (uc : U) (level count : ℕ) (v : Vote) (smd : Decider U)
      → IsCommon (common_at conf rs uc level) v
      → is_undecided v ≡ false
      → smd.candidate ≡ uc
      → smd.decision ≡ v
      → IsDecision uc level (level + suc count) ((v, pos level), smd)
  decided-IsDecision uc level count v smd (inl e) ne c k = absurd (ground arith)
  decided-IsDecision uc level count v smd (inr common) ne c k =
      (c, inr (level, refl, omega arith, omega arith, common, k))

  decide_levels-IsDecision :
      (level count : ℕ) (smd : Decider U)
      → smd.decision ≡ undecided
      → Ensures
          (decide_levels minimal_quorum conf rs d level count smd)
          (IsDecision smd.candidate level (level + count))
  unfolding decide_levels
  decide_levels-IsDecision level zero smd e = (refl, inl (refl, e))
  decide_levels-IsDecision level (suc count) smd e =
      ensures_bind
        (decide_level minimal_quorum conf rs d smd.candidate (common_at conf rs smd.candidate level)
          (units_on_level d level) smd.memo)
        _ _ _
        (decide_level-IsCommon smd.candidate (common_at conf rs smd.candidate level)
          (units_on_level d level) smd.memo)
        λ (v, memo') h.
          ensures_if (is_undecided v) _ _ _
            (λ _.
              ensures_mono
                (decide_levels minimal_quorum conf rs d (level + 1) count
                  (record smd { memo = memo' }))
                _ _ (decide_levels-IsDecision (level + 1) count (record smd { memo = memo' }) e)
                (λ r.
                  widen smd.candidate level (level + 1) (level + suc count) (level + 1 + count) r
                    (omega arith) (omega arith)))
            (λ ne.
              decided-IsDecision smd.candidate level count v
                (record smd { decision = v; decision_level = pos level; memo = [] }) h ne refl refl)

  -- A first decision on a candidate is made at a level from two above the candidate's up to the level of
  -- the dag, where it is the common vote; it is remembered, and every later call answers with it again, but
  -- with the level 0.
  pub decide_unit_is_popular-final :
      (dag_max later : ℕ) (smd : Decider U) (v : Vote) (level : ℤ) (smd' : Decider U)
      → smd.decision ≡ undecided
      → decide_unit_is_popular minimal_quorum conf rs d dag_max smd ≡ some ((v, level), smd')
      → v ≢ undecided
      → ((l : ℕ) × (level ≡ pos l)
          × (i.level smd.candidate + 2 ≤ l)
          × (l ≤ dag_max)
          × (common_at conf rs smd.candidate l ≡ some v))
        × (decide_unit_is_popular minimal_quorum conf rs d later smd' ≡ some ((v, pos 0), smd'))
  unfolding decide_unit_is_popular
  decide_unit_is_popular-final dag_max later smd v level smd' open' e ne =
      let start = i.level smd.candidate + first_voting_round + 1 in
      let top = max_decide_level (i.level smd.candidate) conf.deterministic_prefix dag_max in
      let fresh : decide_levels minimal_quorum conf rs d start (top + 1 - start) smd
          ≡ some ((v, level), smd') =
        let test : is_undecided smd.decision ≡ true = ap is_undecided open' in rw test at e in
      finish (top + 1 - start)
        (omega (
          arith,
          max_decide_level_bounds (i.level smd.candidate) conf.deterministic_prefix dag_max,
        ))
        (ensures_some (decide_levels minimal_quorum conf rs d start (top + 1 - start) smd)
          (IsDecision smd.candidate start (start + (top + 1 - start))) ((v, level), smd')
          (decide_levels-IsDecision start (top + 1 - start) smd open') fresh)
    where
      first : ℕ
      first = i.level smd.candidate + first_voting_round + 1

      finish :
          (count : ℕ)
          → (0 < count → first + count ≤ dag_max + 1)
          → IsDecision smd.candidate first (first + count) ((v, level), smd')
          → ((l : ℕ) × (level ≡ pos l)
              × (i.level smd.candidate + 2 ≤ l)
              × (l ≤ dag_max)
              × (common_at conf rs smd.candidate l ≡ some v))
            × (decide_unit_is_popular minimal_quorum conf rs d later smd' ≡ some ((v, pos 0), smd'))
      finish count fits (same, inl none_yet) = absurd (ne none_yet.0)
      finish count fits (same, inr (l, at, from, to, common, kept)) =
          ((l, at, omega arith, omega arith, common), ground arith)
