-- ===== src/Linear/Votes.antt =====
-- pkg/linear/unanimous_voting.go: votes on whether a unit is popular.
use consensus_go.Base.{
  ℕ, zero, suc, ◌+◌, ◌-◌, ◌%◌, ◌^◌, ◌≡◌, refl, Bool, true, false, ◌&&◌, ◌||◌, List, [], ◌∷◌, Option,
  none, some, leb, ◌==◌, if◌then◌else◌, length,
}
use consensus_go.Gomel.Hash.{Hash}
use consensus_go.Gomel.Unit.{UnitInterface, height, creator, hash, above, predecessor}
use consensus_go.Dag.Bag.{Bag, get_one, add}

pub data Vote : Type 0 where
  popular unpopular undecided : Vote

pub Vote-discrete : Discrete Vote
Vote-discrete = hlevel

abbrev pub vote_eq : Vote → Vote → Bool
vote_eq popular popular = true
vote_eq unpopular unpopular = true
vote_eq undecided undecided = true
vote_eq _ _ = false

-- Two counts in uint16.
pub record VotingResult : Type 0 where
  pub for_popular : ℕ
  pub for_unpopular : ℕ

-- `none` is a panic: a coin toss for which there are no random bytes.
infixl 5 ◌>>=◌
abbrev pub ◌>>=◌ : {A B : Type 0} → Option A → (A → Option B) → Option B
none >>= f = none
some a >>= f = f a

-- A statement about the value of a computation, if it does not panic.
abbrev pub Ensures : {A : Type 0} → Option A → (A → Type 0) → Type 0
Ensures none P = Unit
Ensures (some a) P = P a

pub ensures_bind :
    {A B : Type 0} (m : Option A) (f : A → Option B) (Q : A → Type 0) (P : B → Type 0)
    → Ensures m Q
    → ((a : A) → Q a → Ensures (f a) P)
    → Ensures (m >>= f) P
ensures_bind none f Q P q k = tt
ensures_bind (some a) f Q P q k = k a q

pub ensures_mono :
    {A : Type 0} (m : Option A) (P Q : A → Type 0)
    → Ensures m P
    → ((a : A) → P a → Q a)
    → Ensures m Q
ensures_mono none P Q p k = tt
ensures_mono (some a) P Q p k = k a p

pub ensures_any : {A : Type 0} (m : Option A) → Ensures m (λ _. Unit {0})
ensures_any none = tt
ensures_any (some a) = tt

pub ensures_if :
    {A : Type 0} (b : Bool) (x y : Option A) (P : A → Type 0)
    → (b ≡ true → Ensures x P)
    → (b ≡ false → Ensures y P)
    → Ensures (if b then x else y) P
ensures_if true x y P p q = p refl
ensures_if false x y P p q = q refl

pub ensures_some :
    {A : Type 0} (m : Option A) (P : A → Type 0) (a : A) → Ensures m P → m ≡ some a → P a
ensures_some m P a p e = rw e at p

abbrev pub first_voting_round : ℕ
first_voting_round = 1

-- The random source: the bytes for a process and a level; nil is `none`.
abbrev pub RandomBytes : Type 0
RandomBytes = ℕ → ℕ → Option (List ℕ)

-- `RandomBytes(uc.Creator(), level)[0]&1 == 0`
abbrev pub first_even : Option (List ℕ) → Option Bool
first_even none = none
first_even (some []) = none
first_even (some (b ∷ bs)) = some (b % 2 == 0)

unfoldable pub coin_toss : RandomBytes → ℕ → ℕ → Option Bool
coin_toss rs pid level = first_even (rs pid level)

-- What a voter is configured with.
pub record VoteConfig : Type 0 where
  pub zero_vote_round : ℕ
  pub deterministic_prefix : ℕ

-- CommonVote, with the round as a difference of levels that stops at 0.
unfoldable pub common_vote : VoteConfig → RandomBytes → ℕ → ℕ → ℕ → Option Vote
common_vote conf rs pid uc_level level =
    let round = level - uc_level in
    if leb round first_voting_round
    then some undecided
    else if leb round conf.deterministic_prefix
    then (if round == conf.zero_vote_round then some unpopular else some popular)
    else (coin_toss rs pid (level + 1) >>= λ heads. some (if heads then popular else unpopular))

-- superMajority, given IsQuorum.
unfoldable pub super_majority : (ℕ → Bool) → VotingResult → Vote
super_majority is_quorum votes =
    if is_quorum votes.for_popular
    then popular
    else if is_quorum votes.for_unpopular
    then unpopular
    else undecided

abbrev pub or_common : Option Vote → Vote → Option Vote
or_common common undecided = common
or_common common v = some v

abbrev pub tally : VotingResult → Bool → Bool → VotingResult
tally r ones zeros = record {
  for_popular = if ones then (r.for_popular + 1) % 2 ^ 16 else r.for_popular;
  for_unpopular = if zeros then (r.for_unpopular + 1) % 2 ^ 16 else r.for_unpopular;
}

-- The last vote, set to undecided by the first vote that differs, which ends the loop.
abbrev pub compare_last : Vote → Option Vote → (Vote × Bool) × Option Vote
compare_last v none = ((v, false), some v)
compare_last v (some l) = if vote_eq l v then ((v, false), some l) else ((v, true), some undecided)

abbrev pub last_or_undecided : Option Vote → Vote
last_or_undecided none = undecided
last_or_undecided (some v) = v

-- The look into the memo, and the deferred write to it.
abbrev pub memoized :
    Hash → Bag Vote → Option Vote → Option (Vote × Bag Vote) → Option (Vote × Bag Vote)
memoized h memo (some v) compute = some (v, memo)
memoized h memo none compute = compute >>= λ (v, memo'). some (v, add memo' h v)

module _ {U : Type 0} ⦃i : UnitInterface U⦄ where
  unfoldable pub initial_vote : U → U → Vote
  initial_vote uc u = if above (some u) (some uc) then popular else unpopular

  -- The loop that looks for a prime ancestor: down the predecessors while their level is at least
  -- `u_level - 1`. The fuel is the height of the unit that it starts at.
  unfoldable pub descend : ℕ → ℕ → U → Option U → U
  descend fuel u_level v none = v
  descend zero u_level v (some p) = v
  descend (suc fuel) u_level v (some p) =
      let rest = descend fuel u_level p (predecessor p) in
      if leb u_level (i.level p + 1) then rest else v

  unfoldable pub prime_ancestor : ℕ → U → U
  prime_ancestor u_level v =
      if leb u_level (i.level v + 1) then descend (height v) u_level v (predecessor v) else v

  module _ {S : Type 0} (voter : U → S → Option ((Vote × Bool) × S)) where
    -- The loop over one floor: whether there were votes of either kind, and whether to finish.
    unfoldable pub vote_floor : ℕ → List U → Bool → Bool → S → Option ((Bool × Bool × Bool) × S)
    vote_floor u_level [] ones zeros s = some ((ones, zeros, false), s)
    vote_floor u_level (v ∷ vs) ones zeros s =
        let w = prime_ancestor u_level v in
        let skip = vote_floor u_level vs ones zeros s in
        let count =
          (voter w s >>= λ ((vote, finish), s').
          let ones' = ones || vote_eq vote popular in
          let zeros' = zeros || vote_eq vote unpopular in
          let rest = vote_floor u_level vs ones' zeros' s' in
          if finish || ones' && zeros' then some ((ones', zeros', finish), s') else rest) in
        if i.level w + 1 == u_level then count else skip

    -- The loop over the processes, `count` of them from `pid` on.
    unfoldable pub vote_parents : U → ℕ → ℕ → VotingResult → S → Option (VotingResult × S)
    vote_parents u zero pid r s = some (r, s)
    vote_parents u (suc count) pid r s =
        vote_floor (i.level u) (i.floor u pid) false false s >>= λ ((ones, zeros, finish), s').
        let r' = tally r ones zeros in
        let rest = vote_parents u count (pid + 1) r' s' in if finish then some (r', s') else rest

    unfoldable pub vote_using_prime_ancestors : U → S → Option (VotingResult × S)
    vote_using_prime_ancestors u s =
        vote_parents u (length (i.parents u)) 0 (record { for_popular = 0; for_unpopular = 0 }) s

  -- The closure of VoteUsing: `vote` is the recursive call, the state holds the last vote.
  unfoldable pub unanimous :
      {M : Type 0}
      → (U → M → Option (Vote × M))
      → Option Vote
      → U
      → Option Vote × M
      → Option ((Vote × Bool) × (Option Vote × M))
  unanimous vote common w (last, memo) = vote w memo >>= λ (v, memo'). or_common common v >>= λ v'.
      some ((compare_last v' last).0, ((compare_last v' last).1, memo'))

  module _ (conf : VoteConfig) (rs : RandomBytes) (uc : U) where
    abbrev pub common_at : ℕ → Option Vote
    common_at level = common_vote conf rs (creator uc) (i.level uc) level

    -- The body of VoteUsing from the second round on.
    unfoldable pub vote_below :
        {M : Type 0} → (U → M → Option (Vote × M)) → U → M → Option (Vote × M)
    vote_below vote u memo =
        vote_using_prime_ancestors (unanimous vote (common_at (i.level u - 1))) u (none, memo)
        >>= λ (r, (last, memo')). some (last_or_undecided last, memo')

    -- VoteUsing at a unit `rounds` levels above the candidate, with the memo of earlier votes.
    unfoldable pub vote_at : ℕ → U → Bag Vote → Option (Vote × Bag Vote)
    vote_at zero u memo = some (undecided, memo)
    vote_at (suc zero) u memo =
        memoized (hash u) memo (get_one memo (hash u)) (some (initial_vote uc u, memo))
    vote_at (suc (suc rounds)) u memo =
        let compute = vote_below (vote_at (suc rounds)) u memo in
        memoized (hash u) memo (get_one memo (hash u)) compute

    unfoldable pub vote_using : U → Bag Vote → Option (Vote × Bag Vote)
    vote_using u memo = vote_at (i.level u - i.level uc) u memo

    -- The same vote with nothing remembered.
    unfoldable pub plain_vote_at : ℕ → U → Unit {0} → Option (Vote × Unit {0})
    plain_vote_at zero u m = some (undecided, m)
    plain_vote_at (suc zero) u m = some (initial_vote uc u, m)
    plain_vote_at (suc (suc rounds)) u m = vote_below (plain_vote_at (suc rounds)) u m
