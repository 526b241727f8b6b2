-- ===== src/Linear/Decider.antt =====
-- pkg/linear/super_majority_deciding.go: deciding whether a unit is popular.
use consensus_go.Base.{
  ℕ, zero, suc, ◌+◌, ◌-◌, ◌%◌, ◌^◌, Bool, false, not, List, [], ◌∷◌, Option, some, ltb,
  if◌then◌else◌,
}
use consensus_go.Base.Int.{ℤ, pos, negsuc}
use consensus_go.Gomel.Unit.{UnitInterface, creator}
use consensus_go.Dag.Bag.{Bag}
use consensus_go.Dag.Slots.{Slotted}
use consensus_go.Dag.Store.{Store, is_quorum, units_on_level}
use consensus_go.Linear.Votes.{
  Vote, popular, unpopular, undecided, vote_eq, VotingResult, VoteConfig, RandomBytes, ◌>>=◌,
  or_common, super_majority, vote_using_prime_ancestors, common_at, vote_using, first_voting_round,
}

pub record Decider (U : Type 0) : Type 0 where
  pub candidate : U
  pub memo : Bag Vote
  pub decision : Vote
  pub decision_level : ℤ

unfoldable pub new_decider : {U : Type 0} → U → Decider U
new_decider uc = record {
  candidate = uc;
  memo = [];
  decision = undecided;
  decision_level = negsuc 0;
}

-- getMaxDecideLevel: `dag_max < deterministic + 2` is Go's `dagMaxLevel-2 < deterministicLevel`.
unfoldable pub max_decide_level : ℕ → ℕ → ℕ → ℕ
max_decide_level uc_level prefix dag_max =
    let deterministic = uc_level + prefix in
    if ltb dag_max (deterministic + 2)
    then (if ltb dag_max deterministic then dag_max else deterministic)
    else dag_max - 2

-- The counts of decide after one vote; a vote that is undecided changes nothing.
abbrev pub count_vote : Vote → VotingResult → VotingResult
count_vote popular r = record r { for_popular = (r.for_popular + 1) % 2 ^ 16 }
count_vote unpopular r = record r { for_unpopular = (r.for_unpopular + 1) % 2 ^ 16 }
count_vote undecided r = r

abbrev pub is_undecided : Vote → Bool
is_undecided v = vote_eq v undecided

-- Whether decide finishes after a vote: at a quorum, or, after a vote that is undecided, where all
-- remaining processes could not make one. `quorum` is IsQuorum, `remaining` is in uint16.
abbrev pub finishes : (ℕ → Bool) → ℕ → Vote → VotingResult → Bool
finishes quorum remaining undecided r = is_undecided (
    super_majority quorum (record {
      for_popular = (r.for_popular + remaining) % 2 ^ 16;
      for_unpopular = (r.for_unpopular + remaining) % 2 ^ 16;
    }))
finishes quorum remaining v r = not (is_undecided (super_majority quorum (count_vote v r)))

module _ {U : Type 0} ⦃i : UnitInterface U⦄ where
  -- `minimal_quorum` is crypto.MinimalQuorum.
  module _ (minimal_quorum : ℕ → ℕ) (conf : VoteConfig) (rs : RandomBytes) (d : Store U) where
    -- The closure of decide.
    unfoldable pub deciding_voter :
        U
        → Option Vote
        → U
        → VotingResult × Bag Vote
        → Option ((Vote × Bool) × (VotingResult × Bag Vote))
    deciding_voter uc common w (r, memo) = vote_using conf rs uc w memo >>= λ (v, memo').
        or_common common v >>= λ v'. some (
          (
            v',
            finishes (is_quorum minimal_quorum d)
                ((d.n_proc + 2 ^ 16 + 2 ^ 16 - creator w - 1) % 2 ^ 16) v' r,
          ),
          (count_vote v' r, memo'),
        )

    unfoldable pub decide : U → U → Bag Vote → Option (Vote × Bag Vote)
    decide uc u memo =
        vote_using_prime_ancestors (deciding_voter uc (common_at conf rs uc (i.level u - 1))) u
          (record { for_popular = 0; for_unpopular = 0 }, memo)
        >>= λ (r, (_, memo')). some (super_majority (is_quorum minimal_quorum d) r, memo')

    -- The loop over the primes of one process: the first decision that is the common vote.
    abbrev pub agrees : Option Vote → Vote → Option Bool
    agrees common undecided = some false
    agrees common v = common >>= λ c. some (vote_eq v c)

    unfoldable pub decide_primes : U → Option Vote → List U → Bag Vote → Option (Vote × Bag Vote)
    decide_primes uc common [] memo = some (undecided, memo)
    decide_primes uc common (v ∷ vs) memo = decide uc v memo >>= λ (decision, memo').
        let rest = decide_primes uc common vs memo' in
        agrees common decision >>= λ same. if same then some (decision, memo') else rest

    -- Iterate over the processes of a level; it stops at a decision.
    unfoldable pub decide_level : U → Option Vote → Slotted U → Bag Vote → Option (Vote × Bag Vote)
    decide_level uc common [] memo = some (undecided, memo)
    decide_level uc common (primes ∷ su) memo =
        decide_primes uc common primes memo >>= λ (decision, memo').
        let rest = decide_level uc common su memo' in
        if is_undecided decision then rest else some (decision, memo')

    -- The loop over the levels, `count` of them from `level` on.
    unfoldable pub decide_levels : ℕ → ℕ → Decider U → Option ((Vote × ℤ) × Decider U)
    decide_levels level zero smd = some ((undecided, negsuc 0), smd)
    decide_levels level (suc count) smd =
        decide_level smd.candidate (common_at conf rs smd.candidate level) (units_on_level d level)
          smd.memo
        >>= λ (decision, memo').
            let rest = decide_levels (level + 1) count (record smd { memo = memo' }) in
            if is_undecided decision
            then rest
            else some (
              (decision, pos level),
              record smd { decision = decision; decision_level = pos level; memo = [] },
            )

    -- DecideUnitIsPopular. A decision that was made before is answered with level 0: the named result
    -- is returned before it is set.
    unfoldable pub decide_unit_is_popular : ℕ → Decider U → Option ((Vote × ℤ) × Decider U)
    decide_unit_is_popular dag_max smd =
        let start = i.level smd.candidate + first_voting_round + 1 in
        let fresh =
          decide_levels start
            (max_decide_level (i.level smd.candidate) conf.deterministic_prefix dag_max + 1 - start)
            smd in
        if is_undecided smd.decision then fresh else some ((smd.decision, pos 0), smd)
