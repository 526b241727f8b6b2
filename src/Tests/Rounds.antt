-- ===== src/Tests/Rounds.antt =====
-- pkg/linear at concrete inputs.
use consensus_go.Base.{
  ℕ, zero, suc, ◌+◌, ◌≡◌, ◌≤◌, refl, true, [], ◌∷◌, ◌++◌, none, some, arith, length, All, min,
}
use consensus_go.Base.Int.{pos}
use consensus_go.Gomel.Hash.{Hash}
use consensus_go.Gomel.Unit.{hash, height, predecessor, above}
use consensus_go.Linear.Primes.{IsFirstOn, IsHigher, prime_ancestor-IsFirstOn}
use consensus_go.Dag.Bag.{get_one}
use consensus_go.Linear.Votes.{
  prime_ancestor, popular, unpopular, undecided, VoteConfig, RandomBytes, common_at, vote_at,
  plain_vote_at,
}
use consensus_go.Linear.Memo.{Agree, Remembers, vote_at-Agree}
use consensus_go.Linear.TimingRound.{ordered_units}
use consensus_go.Linear.Once.{count_hash, ordered_units_once}
use consensus_go.Linear.Ordered.{IsNew, ordered_units-IsNew}
use consensus_go.Linear.Crp.{range, split_processes}
use consensus_go.Linear.Rotation.{split_processes-perm}
use consensus_go.Linear.Decider.{Decider, new_decider, decide_unit_is_popular}
use consensus_go.Linear.Decisions.{decide_unit_is_popular-final}
use consensus_go.Linear.Extender.{Extender, ExtenderConfig, new_extender, next_round}
use consensus_go.Linear.Choosing.{IsRound, next_round-IsRound}
use consensus_go.Tests.Chains.{chain, link_unit, chain-4-IsCoherent}
use mathlib.Core.List.{Perm}
use consensus_go.Tests.Samples.{
  Sample, first_dealing, second_dealing, first_prime, second_prime, third_prime, sample_unit,
  sample_hash-injective,
}

abbrev config : VoteConfig
config = record { zero_vote_round = 3; deterministic_prefix = 10 }

abbrev some_bytes : RandomBytes
some_bytes pid level = some ((pid + level) ∷ [])

vote_at-Agree_example :
    Agree
      (Remembers config some_bytes first_dealing sample_hash-injective)
      (plain_vote_at config some_bytes first_dealing 2 third_prime tt)
      (vote_at config some_bytes first_dealing 2 third_prime [])
unfolding get_one
vote_at-Agree_example =
    vote_at-Agree config some_bytes first_dealing sample_hash-injective 2 third_prime [] refl
      (λ u v e. absurd (ground arith))

ordered_units_once_example :
    count_hash (hash second_dealing) (ordered_units 3 third_prime (none ∷ (none ∷ []))) ≤ 1
ordered_units_once_example =
    ordered_units_once 3 third_prime (none ∷ (none ∷ [])) (hash second_dealing)

sample-upward :
    (u v : Sample) → above (some u) (some v) ≡ true → sample_unit.level v ≤ sample_unit.level u
unfolding above consensus_go.Gomel.Preunit.equal consensus_go.Gomel.Unit.any_above
    consensus_go.Gomel.Hash.hash_eq
sample-upward first_dealing first_dealing h = omega arith
sample-upward first_dealing second_dealing h = omega arith
sample-upward first_dealing first_prime h = absurd (ground (arith, h))
sample-upward first_dealing second_prime h = absurd (ground (arith, h))
sample-upward first_dealing third_prime h = absurd (ground (arith, h))
sample-upward second_dealing first_dealing h = omega arith
sample-upward second_dealing second_dealing h = omega arith
sample-upward second_dealing first_prime h = absurd (ground (arith, h))
sample-upward second_dealing second_prime h = absurd (ground (arith, h))
sample-upward second_dealing third_prime h = absurd (ground (arith, h))
sample-upward first_prime first_dealing h = omega arith
sample-upward first_prime second_dealing h = omega arith
sample-upward first_prime first_prime h = omega arith
sample-upward first_prime second_prime h = omega arith
sample-upward first_prime third_prime h = absurd (ground (arith, h))
sample-upward second_prime first_dealing h = omega arith
sample-upward second_prime second_dealing h = omega arith
sample-upward second_prime first_prime h = omega arith
sample-upward second_prime second_prime h = omega arith
sample-upward second_prime third_prime h = absurd (ground (arith, h))
sample-upward third_prime first_dealing h = omega arith
sample-upward third_prime second_dealing h = omega arith
sample-upward third_prime first_prime h = omega arith
sample-upward third_prime second_prime h = omega arith
sample-upward third_prime third_prime h = omega arith

ordered_units-IsNew_example :
    All
      (IsNew third_prime (none ∷ (some first_dealing ∷ [])))
      (ordered_units 3 third_prime (none ∷ (some first_dealing ∷ [])))
unfolding consensus_go.Linear.TimingRound.last_tu
ordered_units-IsNew_example =
    ordered_units-IsNew third_prime (none ∷ (some first_dealing ∷ [])) sample-upward
      (omega arith, (omega arith, tt)) 3

split_processes-perm_example :
    Perm ((split_processes 7 3 5 (some 4)).0 ++ (split_processes 7 3 5 (some 4)).1) (range 0 7)
    × (length (split_processes 7 3 5 (some 4)).0 ≡ min 3 7)
split_processes-perm_example =
    split_processes-perm 7 3 5 (some 4) (omega arith) (omega arith) (omega arith)

abbrev extender_config : ExtenderConfig
extender_config = record {
  votes = config;
  first_deciding_round = 2;
  order_start_level = 0;
  crp_fixed_prefix = 1;
}

abbrev start : Extender ℕ
start = new_extender extender_config

-- The dealing unit is chosen.
abbrev after : Extender ℕ
after = record {
  deciders = [];
  last_tus = none ∷ (none ∷ (none ∷ []));
  current_tu = some 0;
  last_decide_result = true;
}

next_round_run :
    next_round (λ n. n) (λ bs. bs) extender_config some_bytes (chain 4) start ≡ some (true, after)
unfolding next_round new_extender range split_processes chain new_decider decide_unit_is_popular
    get_one vote_at consensus_go.Dag.Adding.insert_embedded consensus_go.Dag.Fibers.Growth.add_unit
    consensus_go.Dag.Fibers.Growth.append_unit consensus_go.Dag.Fibers.get_fiber
    consensus_go.Dag.Fibers.find consensus_go.Dag.Fibers.Growth.grown
    consensus_go.Dag.Store.new_store consensus_go.Dag.Fibers.new_fiber_map
    consensus_go.Dag.Fibers.store_new consensus_go.Dag.Fibers.store
    consensus_go.Dag.Fibers.extend_by consensus_go.Dag.Adding.update_maximal
    consensus_go.Dag.Slots.new_slotted consensus_go.Dag.Adding.not_below consensus_go.Dag.Bag.add
    consensus_go.Dag.Store.is_quorum consensus_go.Dag.Store.units_on_level
    consensus_go.Gomel.Hash.hash_eq consensus_go.Gomel.Preunit.equal consensus_go.Gomel.Unit.above
    consensus_go.Gomel.Unit.any_above consensus_go.Gomel.Unit.predecessor
    consensus_go.Linear.Decider.decide consensus_go.Linear.Decider.decide_level
    consensus_go.Linear.Decider.decide_levels consensus_go.Linear.Decider.decide_primes
    consensus_go.Linear.Decider.deciding_voter consensus_go.Linear.Decider.max_decide_level
    consensus_go.Linear.Votes.coin_toss consensus_go.Linear.Votes.common_vote
    consensus_go.Linear.Votes.descend consensus_go.Linear.Votes.initial_vote
    consensus_go.Linear.Votes.prime_ancestor consensus_go.Linear.Votes.super_majority
    consensus_go.Linear.Votes.unanimous consensus_go.Linear.Votes.vote_below
    consensus_go.Linear.Votes.vote_floor consensus_go.Linear.Votes.vote_parents
    consensus_go.Linear.Votes.vote_using consensus_go.Linear.Votes.vote_using_prime_ancestors
    consensus_go.Linear.Extender.levels_count consensus_go.Linear.Extender.max_level_of
    consensus_go.Gomel.Hash.less_than consensus_go.Linear.Crp.crp_iterate
    consensus_go.Linear.Crp.default_permutation consensus_go.Linear.Crp.prioritized
    consensus_go.Linear.Crp.random_permutation consensus_go.Linear.Crp.units_of
    consensus_go.Linear.Crp.work_through consensus_go.Linear.Extender.next_level
    consensus_go.Linear.Extender.try_candidate consensus_go.Linear.Sort.insert
    consensus_go.Linear.Sort.sort_slice
next_round_run = refl

next_round-IsRound_example :
    IsRound (λ n. n) (λ bs. bs) extender_config some_bytes (chain 4) start true after
next_round-IsRound_example =
    next_round-IsRound (λ n. n) (λ bs. bs) extender_config some_bytes (chain 4) start after true
      chain-4-IsCoherent next_round_run

abbrev decided : Decider ℕ
decided = record { candidate = 0; memo = []; decision = popular; decision_level = pos 2 }

decide_run :
    decide_unit_is_popular (λ n. n) config some_bytes (chain 4) 3 (new_decider 0)
    ≡ some ((popular, pos 2), decided)
unfolding chain new_decider decide_unit_is_popular get_one vote_at
    consensus_go.Dag.Adding.insert_embedded consensus_go.Dag.Fibers.Growth.add_unit
    consensus_go.Dag.Fibers.Growth.append_unit consensus_go.Dag.Fibers.get_fiber
    consensus_go.Dag.Fibers.find consensus_go.Dag.Fibers.Growth.grown
    consensus_go.Dag.Store.new_store consensus_go.Dag.Fibers.new_fiber_map
    consensus_go.Dag.Fibers.store_new consensus_go.Dag.Fibers.store
    consensus_go.Dag.Fibers.extend_by consensus_go.Dag.Adding.update_maximal
    consensus_go.Dag.Slots.new_slotted consensus_go.Dag.Adding.not_below consensus_go.Dag.Bag.add
    consensus_go.Dag.Store.is_quorum consensus_go.Dag.Store.units_on_level
    consensus_go.Gomel.Hash.hash_eq consensus_go.Gomel.Preunit.equal consensus_go.Gomel.Unit.above
    consensus_go.Gomel.Unit.any_above consensus_go.Gomel.Unit.predecessor
    consensus_go.Linear.Decider.decide consensus_go.Linear.Decider.decide_level
    consensus_go.Linear.Decider.decide_levels consensus_go.Linear.Decider.decide_primes
    consensus_go.Linear.Decider.deciding_voter consensus_go.Linear.Decider.max_decide_level
    consensus_go.Linear.Votes.coin_toss consensus_go.Linear.Votes.common_vote
    consensus_go.Linear.Votes.descend consensus_go.Linear.Votes.initial_vote
    consensus_go.Linear.Votes.prime_ancestor consensus_go.Linear.Votes.super_majority
    consensus_go.Linear.Votes.unanimous consensus_go.Linear.Votes.vote_below
    consensus_go.Linear.Votes.vote_floor consensus_go.Linear.Votes.vote_parents
    consensus_go.Linear.Votes.vote_using consensus_go.Linear.Votes.vote_using_prime_ancestors
decide_run = refl

decide_unit_is_popular-final_example :
    ((l : ℕ) × (pos 2 ≡ pos l)
      × (0 + 2 ≤ l)
      × (l ≤ 3)
      × (common_at {U = ℕ} ⦃i = link_unit⦄ config some_bytes 0 l ≡ some popular))
    × (decide_unit_is_popular (λ n. n) config some_bytes (chain 4) 8 decided
        ≡ some ((popular, pos 0), decided))
unfolding new_decider
decide_unit_is_popular-final_example =
    decide_unit_is_popular-final (λ n. n) config some_bytes (chain 4) 3 8 (new_decider 0) popular
      (pos 2) decided refl decide_run (λ e. cc)

-- The rank of a sample is its number.
abbrev rank_of : Hash → ℕ
rank_of [] = 0
rank_of (n ∷ ns) = n

drops : (v : ℕ) → IsHigher (height v) (predecessor v)
unfolding predecessor
drops zero = tt
drops (suc n) = omega arith

prime_ancestor-IsFirstOn_example : IsFirstOn {U = ℕ} ⦃i = link_unit⦄ 3 (prime_ancestor 3 4)
prime_ancestor-IsFirstOn_example = prime_ancestor-IsFirstOn drops 3 4 (omega arith)
