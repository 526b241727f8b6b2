-- ===== src/Linear/Extender.antt =====
-- pkg/linear/extender.go: choosing the timing units, level by level.
use consensus_go.Base.{
  ℕ, ◌+◌, ◌-◌, Bool, true, false, List, [], ◌∷◌, ◌++◌, Option, none, some, ltb, leb, if◌then◌else◌,
  replicate,
}
use consensus_go.Gomel.Hash.{Hash}
use consensus_go.Gomel.Unit.{UnitInterface, creator, hash}
use consensus_go.Dag.Bag.{Bag, get_one, add}
use consensus_go.Dag.Slots.{Slotted}
use consensus_go.Dag.Store.{Store}
use consensus_go.Linear.Votes.{Vote, popular, unpopular, undecided, VoteConfig, RandomBytes, ◌>>=◌}
use consensus_go.Linear.Decider.{Decider, new_decider, decide_unit_is_popular}
use consensus_go.Linear.Crp.{crp_iterate}

pub record Extender (U : Type 0) : Type 0 where
  pub deciders : Bag (Decider U)
  pub last_tus : List (Option U)
  pub current_tu : Option U
  pub last_decide_result : Bool

pub record ExtenderConfig : Type 0 where
  pub votes : VoteConfig
  pub first_deciding_round : ℕ
  pub order_start_level : ℕ
  pub crp_fixed_prefix : ℕ

unfoldable pub new_extender : {U : Type 0} → ExtenderConfig → Extender U
new_extender conf = record {
  deciders = [];
  last_tus = replicate conf.votes.zero_vote_round none;
  current_tu = none;
  last_decide_result = false;
}

module _ {U : Type 0} ⦃i : UnitInterface U⦄ where
  -- dagMaxLevel, counted one higher: 0 is Go's -1.
  unfoldable pub max_level_of : List U → ℕ → ℕ
  max_level_of [] n = n
  max_level_of (v ∷ vs) n = max_level_of vs (if ltb n (i.level v + 1) then i.level v + 1 else n)

  unfoldable pub levels_count : Slotted U → ℕ → ℕ
  levels_count [] n = n
  levels_count (us ∷ su) n = levels_count su (max_level_of us n)

  -- The level that the next timing unit is chosen on.
  unfoldable pub next_level : ℕ → Option U → ℕ
  next_level order_start none = order_start
  next_level order_start (some u) = i.level u + 1

  abbrev pub creator_of : Option U → Option ℕ
  creator_of none = none
  creator_of (some u) = some (creator u)

  abbrev pub decider_or_new : U → Option (Decider U) → Decider U
  decider_or_new uc none = new_decider uc
  decider_or_new uc (some smd) = smd

  -- `lastTUs = append(lastTUs[1:], currentTU)`; slicing an empty slice panics.
  abbrev pub shift_last : List (Option U) → Option U → Option (List (Option U))
  shift_last [] tu = none
  shift_last (t ∷ ts) tu = some (ts ++ (tu ∷ []))

  -- After a decision on `uc`: the new state, and whether to go on with the next candidate. The second
  -- component of the state says whether a timing unit was chosen.
  abbrev pub apply_decision : U → Vote → Extender U × Bool → Option ((Extender U × Bool) × Bool)
  apply_decision uc popular (ext, decided) = shift_last ext.last_tus ext.current_tu >>= λ last.
      some (
        (
          record {
            deciders = [];
            last_tus = last;
            current_tu = some uc;
            last_decide_result = true;
          },
          true,
        ),
        false,
      )
  apply_decision uc undecided s = some (s, false)
  apply_decision uc unpopular s = some (s, true)

  module _ (minimal_quorum : ℕ → ℕ) (shake : List ℕ → Hash) (conf : ExtenderConfig)
      (rs : RandomBytes) (d : Store U) where
    -- The function that NextRound hands to CRPIterate. The decider is a shared object: its new state
    -- stands in the map.
    unfoldable pub try_candidate : ℕ → U → Extender U × Bool → Option ((Extender U × Bool) × Bool)
    try_candidate dag_max uc (ext, decided) =
        decide_unit_is_popular minimal_quorum conf.votes rs d dag_max
          (decider_or_new uc (get_one ext.deciders (hash uc)))
        >>= λ (decision, smd).
            apply_decision uc decision.0
              (record ext { deciders = add ext.deciders (hash uc) smd }, decided)

    -- NextRound: whether a new timing unit was chosen, and the state.
    unfoldable pub next_round : Extender U → Option (Bool × Extender U)
    next_round ext =
        let ext₀ = record ext { last_decide_result = false } in
        let count = levels_count d.max_units 0 in
        let level = next_level conf.order_start_level ext.current_tu in
        let search_level =
          (crp_iterate shake rs d conf.crp_fixed_prefix level (creator_of ext.current_tu)
              (try_candidate (count - 1)) (ext₀, false)
            >>= λ ((ext', decided), _). some (decided, ext')) in
        if leb count conf.order_start_level
        then some (false, ext₀)
        else if leb count (level + conf.first_deciding_round)
        then some (false, ext₀)
        else search_level
