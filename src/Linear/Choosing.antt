-- ===== src/Linear/Choosing.antt =====
-- pkg/linear/extender.go: what NextRound leaves behind.
use consensus_go.Base.{
  ℕ, ◌+◌, ◌-◌, ◌≡◌, refl, Bool, true, false, List, [], ◌∷◌, ◌++◌, Option, arith, none, some, leb,
  inl, inr, ◌⊎◌,
}
use consensus_go.Gomel.Hash.{Hash}
use consensus_go.Gomel.Unit.{UnitInterface, hash}
use consensus_go.Dag.Bag.{get_one, add}
use consensus_go.Dag.Store.{Store, IsCoherent}
use consensus_go.Linear.Votes.{
  Vote, popular, unpopular, undecided, RandomBytes, ◌>>=◌, Ensures, ensures_bind, ensures_any,
  ensures_if, ensures_some,
}
use consensus_go.Linear.Crp.{crp_iterate}
use consensus_go.Linear.Decider.{decide_unit_is_popular}
use consensus_go.Linear.Extender.{
  Extender, ExtenderConfig, next_level, creator_of, decider_or_new, shift_last, apply_decision,
  try_candidate, levels_count, next_round,
}
use consensus_go.Linear.Candidates.{IsOnLevel, get-IsOnLevel, crp_iterate_rule}

module _ {U : Type 0} ⦃i : UnitInterface U⦄ where
  -- The timing units are as they were before the round.
  abbrev Keeps : Extender U → Extender U × Bool → Type 0
  Keeps ext (ext', decided) =
      (decided ≡ false) × (ext'.current_tu ≡ ext.current_tu) × (ext'.last_tus ≡ ext.last_tus)

  -- A unit of the level is the new timing unit, and the old one has joined the last ones.
  abbrev Chooses : ℕ → Extender U → Extender U × Bool → Type 0
  Chooses level ext (ext', decided) =
      (decided ≡ true)
      × ((uc : U) × (ext'.current_tu ≡ some uc) × (i.level uc ≡ level))
      × (shift_last ext.last_tus ext.current_tu ≡ some ext'.last_tus)

  -- The level to choose on after a timing unit: the first to order, or one above.
  abbrev pub IsNextAfter : ℕ → Option U → ℕ → Type 0
  IsNextAfter start none level = level ≡ start
  IsNextAfter start (some w) level = level ≡ i.level w + 1

  -- The first of a list has gone, and `tu` stands behind the rest.
  abbrev pub IsShifted : List (Option U) → Option U → List (Option U) → Type 0
  IsShifted ts tu ts' =
      (t : Option U) × (rest : List (Option U)) × (ts ≡ t ∷ rest) × (ts' ≡ rest ++ (tu ∷ []))

  -- A timing unit was chosen on the level after that of the one before.
  abbrev pub IsChosen : ℕ → Extender U → Extender U × Bool → Type 0
  IsChosen start ext (ext', decided) =
      (decided ≡ true)
      × ((uc : U) × (ext'.current_tu ≡ some uc) × IsNextAfter start ext.current_tu (i.level uc))
      × IsShifted ext.last_tus ext.current_tu ext'.last_tus

  next_level-IsNextAfter :
      (start : ℕ) (tu : Option U) (level : ℕ)
      → level ≡ next_level start tu
      → IsNextAfter start tu level
  unfolding next_level
  next_level-IsNextAfter start none level e = e
  next_level-IsNextAfter start (some w) level e = e

  shift_last-IsShifted :
      (ts : List (Option U)) (tu : Option U) (ts' : List (Option U))
      → shift_last ts tu ≡ some ts'
      → IsShifted ts tu ts'
  shift_last-IsShifted [] tu ts' e = absurd (ground (arith, e))
  shift_last-IsShifted (t ∷ rest) tu ts' e = (t, rest, refl, ground (arith, e))

  Chooses-IsChosen :
      (start : ℕ) (ext ext' : Extender U) (decided : Bool)
      → Chooses (next_level start ext.current_tu) ext (ext', decided)
      → IsChosen start ext (ext', decided)
  Chooses-IsChosen start ext ext' decided (d, (uc, e, l), shifted) = (
    d,
    (uc, e, next_level-IsNextAfter start ext.current_tu (i.level uc) l),
    shift_last-IsShifted ext.last_tus ext.current_tu ext'.last_tus shifted,
  )

  apply_decision_rule :
      (level : ℕ) (ext ext' : Extender U) (uc : U) (v : Vote)
      → i.level uc ≡ level
      → Keeps ext (ext', false)
      → Ensures (apply_decision uc v (ext', false)) (λ r.
        (r.1 ≡ true → Keeps ext r.0) × (r.1 ≡ false → Keeps ext r.0 ⊎ Chooses level ext r.0))
  apply_decision_rule level ext ext' uc unpopular l k = (λ _. k, λ e. cc)
  apply_decision_rule level ext ext' uc undecided l k = (λ e. cc, λ _. inl k)
  apply_decision_rule level ext ext' uc popular l (_, same, kept) =
      shifted (shift_last ext'.last_tus ext'.current_tu) refl
    where
      shifted :
          (o : Option (List (Option U)))
          → shift_last ext'.last_tus ext'.current_tu ≡ o
          → Ensures {A = (Extender U × Bool) × Bool}
              (o >>= λ last. some (
                (
                  record {
                    deciders = [];
                    last_tus = last;
                    current_tu = some uc;
                    last_decide_result = true;
                  },
                  true,
                ),
                false,
              ))
              (λ r.
                (r.1 ≡ true → Keeps ext r.0)
                × (r.1 ≡ false → Keeps ext r.0 ⊎ Chooses level ext r.0))
      shifted none e = tt
      shifted (some last) e = (λ t. cc, λ _. inr (refl, (uc, refl, l), rw (← same, ← kept) e))

  module _ (minimal_quorum : ℕ → ℕ) (shake : List ℕ → Hash) (conf : ExtenderConfig)
      (rs : RandomBytes) (d : Store U) where
    -- What a call of NextRound answers and leaves: either no timing unit, with the earlier ones as they
    -- were, or a new one.
    abbrev pub IsRound : Extender U → Bool → Extender U → Type 0
    IsRound ext decided ext' =
        Keeps ext (ext', decided) ⊎ IsChosen conf.order_start_level ext (ext', decided)

    try_candidate_rule :
        (level dag_max : ℕ) (ext : Extender U) (uc : U) (s : Extender U × Bool)
        → i.level uc ≡ level
        → Keeps ext s
        → Ensures (try_candidate minimal_quorum shake conf rs d dag_max uc s) (λ r.
          (r.1 ≡ true → Keeps ext r.0) × (r.1 ≡ false → Keeps ext r.0 ⊎ Chooses level ext r.0))
    unfolding try_candidate
    try_candidate_rule level dag_max ext uc (ext', decided) l (e, same, kept) = rw e (
        ensures_bind
          (decide_unit_is_popular minimal_quorum conf.votes rs d dag_max
            (decider_or_new uc (get_one ext'.deciders (hash uc))))
          _ _ _ (ensures_any _)
          λ ((v, decided_on), smd) _.
            apply_decision_rule level ext
              (record ext' { deciders = add ext'.deciders (hash uc) smd }) uc v l
              (refl, same, kept))

    next_round-Ensures :
        (ext : Extender U)
        → IsCoherent d
        → Ensures (next_round minimal_quorum shake conf rs d ext) (λ r. IsRound ext r.0 r.1)
    unfolding next_round
    next_round-Ensures ext v =
        let level = next_level conf.order_start_level ext.current_tu in
        let count = levels_count d.max_units 0 in
        ensures_if (leb count conf.order_start_level) _ _ _ (λ _. inl (refl, refl, refl))
          λ _.
            ensures_if (leb count (level + conf.first_deciding_round)) _ _ _
              (λ _. inl (refl, refl, refl))
              λ _.
                ensures_bind
                  (crp_iterate shake rs d conf.crp_fixed_prefix level (creator_of ext.current_tu)
                    (try_candidate minimal_quorum shake conf rs d (count - 1))
                    (record ext { last_decide_result = false }, false))
                  _ _ _
                  (crp_iterate_rule (try_candidate minimal_quorum shake conf rs d (count - 1))
                    (IsOnLevel level) (Keeps ext) (λ s. Keeps ext s ⊎ Chooses level ext s)
                    (λ u s l g. try_candidate_rule level (count - 1) ext u s l g) shake rs d
                    conf.crp_fixed_prefix level (creator_of ext.current_tu)
                    (record ext { last_decide_result = false }, false)
                    (λ c. get-IsOnLevel d level c v) (refl, refl, refl))
                  λ ((ext', decided), present) r. flat ext' decided r
      where
        flat :
            (ext' : Extender U) (decided : Bool)
            → Keeps ext (ext', decided)
              ⊎ (Keeps ext (ext', decided)
                  ⊎ Chooses (next_level conf.order_start_level ext.current_tu) ext (ext', decided))
            → IsRound ext decided ext'
        flat ext' decided (inl k) = inl k
        flat ext' decided (inr (inl k)) = inl k
        flat ext' decided (inr (inr r)) =
            inr (Chooses-IsChosen conf.order_start_level ext ext' decided r)

    -- On a dag whose indexes agree, a call of NextRound that does not panic either answers that no timing
    -- unit can be chosen yet, and keeps the timing units, or chooses a unit exactly on the next level (the
    -- first level to order, or one above the last timing unit), drops the oldest of the last timing
    -- units and appends the previous one to them.
    pub next_round-IsRound :
        (ext ext' : Extender U) (decided : Bool)
        → IsCoherent d
        → next_round minimal_quorum shake conf rs d ext ≡ some (decided, ext')
        → IsRound ext decided ext'
    next_round-IsRound ext ext' decided v =
        ensures_some (next_round minimal_quorum shake conf rs d ext) (λ r. IsRound ext r.0 r.1)
          (decided, ext') (next_round-Ensures ext v)
