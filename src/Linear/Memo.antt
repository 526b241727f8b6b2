-- ===== src/Linear/Memo.antt =====
-- pkg/linear/unanimous_voting.go: VoteUsing with and without its memo.
use consensus_go.Base.{
  ℕ, zero, suc, ◌+◌, ◌-◌, ◌≡◌, refl, sym, ap, ◌∙◌, subst, Bool, true, false, ◌&&◌, ◌||◌, List, [],
  ◌∷◌, Option, none, some, arith, ◌==◌, ==_iff, if◌then◌else◌, length, Bool-cases, inl, inr,
}
use consensus_go.Gomel.Hash.{hash_eq, hash_eq_iff}
use consensus_go.Gomel.Unit.{UnitInterface, hash}
use consensus_go.Dag.Bag.{Bag, get_one, add, get_one-add}
use consensus_go.Linear.Votes.{
  Vote, popular, unpopular, vote_eq, VotingResult, VoteConfig, RandomBytes, ◌>>=◌, tally, or_common,
  compare_last, last_or_undecided, prime_ancestor, vote_floor, vote_parents,
  vote_using_prime_ancestors, unanimous, common_at, vote_below, memoized, vote_at, plain_vote_at,
}

-- Two computations over related states agree: both panic, or both give one value and related states.
abbrev pub Agree : {A S T : Type 0} → (S → T → Type 0) → Option (A × S) → Option (A × T) → Type 0
Agree R none none = Unit
Agree R none (some _) = ⊥
Agree R (some _) none = ⊥
Agree R (some (a, s)) (some (b, t)) = (a ≡ b) × R s t

Agree-bind :
    {A B S T S' T' : Type 0} (R : S → T → Type 0) (R' : S' → T' → Type 0) (x : Option (A × S))
    (y : Option (A × T)) (f : A × S → Option (B × S')) (g : A × T → Option (B × T'))
    → Agree R x y
    → ((a : A) (s : S) (t : T) → R s t → Agree R' (f (a, s)) (g (a, t)))
    → Agree R' (x >>= f) (y >>= g)
Agree-bind R R' none none f g r k = tt
Agree-bind R R' none (some y) f g r k = absurd r
Agree-bind R R' (some x) none f g r k = absurd r
Agree-bind R R' (some (a, s)) (some (b, t)) f g (e, r) k =
    subst (λ c. Agree R' (f (a, s)) (g (c, t))) e (k a s t r)

Agree-if :
    {A S T : Type 0} (R : S → T → Type 0) (b : Bool) (x z : Option (A × S)) (y w : Option (A × T))
    → Agree R x y
    → Agree R z w
    → Agree R (if b then x else z) (if b then y else w)
Agree-if R true x z y w p q = p
Agree-if R false x z y w p q = q

module _ {U : Type 0} ⦃i : UnitInterface U⦄ where
  module _ {S T : Type 0} (R : S → T → Type 0) (f : U → S → Option ((Vote × Bool) × S))
      (g : U → T → Option ((Vote × Bool) × T)) (u_level : ℕ)
      (voters_agree : (w : U) (s : S) (t : T)
        → i.level w + 1 ≡ u_level
        → R s t
        → Agree R (f w s) (g w t)) where
    vote_floor-Agree :
        (vs : List U) (ones zeros : Bool) (s : S) (t : T)
        → R s t
        → Agree R (vote_floor f u_level vs ones zeros s) (vote_floor g u_level vs ones zeros t)
    unfolding vote_floor
    vote_floor-Agree [] ones zeros s t r = (refl, r)
    vote_floor-Agree (v ∷ vs) ones zeros s t r =
        let w = prime_ancestor u_level v in
        elim (Bool-cases (i.level w + 1 == u_level)) [
          | inl below ↦ rw below (
              Agree-bind R R (f w s) (g w t) _ _ (voters_agree w s t ((==_iff _ _).0 below) r)
                λ (vote, finish) s' t' r'.
                  Agree-if R
                    (finish || (ones || vote_eq vote popular) && (zeros || vote_eq vote unpopular))
                    _ _ _ _ (refl, r')
                    (vote_floor-Agree vs (ones || vote_eq vote popular)
                      (zeros || vote_eq vote unpopular) s' t' r'))
          | inr other ↦ rw other (vote_floor-Agree vs ones zeros s t r)
        ]

  module _ {S T : Type 0} (R : S → T → Type 0) (f : U → S → Option ((Vote × Bool) × S))
      (g : U → T → Option ((Vote × Bool) × T)) (u : U)
      (voters_agree : (w : U) (s : S) (t : T)
        → i.level w + 1 ≡ i.level u
        → R s t
        → Agree R (f w s) (g w t)) where
    vote_parents-Agree :
        (count pid : ℕ) (r : VotingResult) (s : S) (t : T)
        → R s t
        → Agree R (vote_parents f u count pid r s) (vote_parents g u count pid r t)
    unfolding vote_parents
    vote_parents-Agree zero pid r s t h = (refl, h)
    vote_parents-Agree (suc count) pid r s t h =
        Agree-bind R R (vote_floor f (i.level u) (i.floor u pid) false false s)
          (vote_floor g (i.level u) (i.floor u pid) false false t) _ _
          (vote_floor-Agree R f g (i.level u) voters_agree (i.floor u pid) false false s t h)
          λ (ones, zeros, finish) s' t' h'.
            Agree-if R finish _ _ _ _ (refl, h')
              (vote_parents-Agree count (pid + 1) (tally r ones zeros) s' t' h')

    pub vote_using_prime_ancestors-Agree :
        (s : S) (t : T)
        → R s t
        → Agree R (vote_using_prime_ancestors f u s) (vote_using_prime_ancestors g u t)
    unfolding vote_using_prime_ancestors
    vote_using_prime_ancestors-Agree s t h = vote_parents-Agree (length (i.parents u)) 0 _ s t h

  module _ (conf : VoteConfig) (rs : RandomBytes) (uc : U)
      (hash_injective : (u w : U) → hash u ≡ hash w → u ≡ w) where
    abbrev rounds_above : U → ℕ
    rounds_above u = i.level u - i.level uc

    -- Every vote in a memo is the vote of each unit with its hash.
    abbrev pub IsSound : Bag Vote → Type 0
    IsSound memo =
        (u : U) (v : Vote)
        → get_one memo (hash u) ≡ some v
        → plain_vote_at conf rs uc (i.level u - i.level uc) u tt ≡ some (v, tt)

    abbrev pub Remembers : Unit {0} → Bag Vote → Type 0
    Remembers _ memo = IsSound memo

    abbrev SameLast : Option Vote × Unit {0} → Option Vote × Bag Vote → Type 0
    SameLast s t = (s.0 ≡ t.0) × IsSound t.1

    compare-Agree :
        (o last : Option Vote) (s : Unit {0}) (memo : Bag Vote)
        → IsSound memo
        → Agree SameLast
            (o >>= λ v. some ((compare_last v last).0, ((compare_last v last).1, s)))
            (o >>= λ v. some ((compare_last v last).0, ((compare_last v last).1, memo)))
    compare-Agree none last s memo h = tt
    compare-Agree (some v) last s memo h = (refl, (refl, h))

    unanimous-Agree :
        (vote : U → Unit {0} → Option (Vote × Unit {0}))
        (vote' : U → Bag Vote → Option (Vote × Bag Vote)) (common : Option Vote) (w : U)
        (s : Option Vote × Unit {0}) (t : Option Vote × Bag Vote)
        → SameLast s t
        → Agree Remembers (vote w s.1) (vote' w t.1)
        → Agree SameLast (unanimous vote common w s) (unanimous vote' common w t)
    unfolding unanimous
    unanimous-Agree vote vote' common w (last, m) (last', memo) (e, _) h =
        Agree-bind Remembers SameLast (vote w m) (vote' w memo) _ _ h
          λ v s t r. rw (← e) (compare-Agree (or_common common v) last s t r)

    vote_below-Agree :
        (vote : U → Unit {0} → Option (Vote × Unit {0}))
        (vote' : U → Bag Vote → Option (Vote × Bag Vote)) (u : U) (memo : Bag Vote)
        → IsSound memo
        → ((w : U) (s : Unit {0}) (t : Bag Vote)
            → i.level w + 1 ≡ i.level u
            → IsSound t
            → Agree Remembers (vote w s) (vote' w t))
        → Agree Remembers (vote_below conf rs uc vote u tt) (vote_below conf rs uc vote' u memo)
    unfolding vote_below
    vote_below-Agree vote vote' u memo h below =
        let common : Option Vote = common_at conf rs uc (i.level u - 1) in
        Agree-bind SameLast Remembers
          (vote_using_prime_ancestors (unanimous vote common) u (none, tt))
          (vote_using_prime_ancestors (unanimous vote' common) u (none, memo)) _ _
          (vote_using_prime_ancestors-Agree SameLast (unanimous vote common)
            (unanimous vote' common) u
            (λ w s t l r. unanimous-Agree vote vote' common w s t r (below w s.1 t.1 l r.1))
            (none, tt) (none, memo) (refl, h))
          λ r s t same. (ap last_or_undecided same.0, same.1)

    add-IsSound :
        (u : U) (v : Vote) (memo : Bag Vote)
        → plain_vote_at conf rs uc (i.level u - i.level uc) u tt ≡ some (v, tt)
        → IsSound memo
        → IsSound (add memo (hash u) v)
    add-IsSound u v memo plain sound w x e = elim (Bool-cases (hash_eq (hash u) (hash w))) [
      | inl hit ↦
          let same : u ≡ w = hash_injective u w ((hash_eq_iff (hash u) (hash w)).0 hit) in
          let value : v ≡ x = ground (arith, get_one-add memo (hash u) v (hash w), e, hit) in
          subst (λ a. plain_vote_at conf rs uc (i.level a - i.level uc) a tt ≡ some (x, tt)) same
            (rw (← value) plain)
      | inr miss ↦ sound w x (ground (arith, get_one-add memo (hash u) v (hash w), e, miss))
    ]

    memoized-Agree :
        (u : U) (memo : Bag Vote) (seen : Option Vote) (plain : Option (Vote × Unit {0}))
        (compute : Option (Vote × Bag Vote))
        → plain_vote_at conf rs uc (i.level u - i.level uc) u tt ≡ plain
        → get_one memo (hash u) ≡ seen
        → IsSound memo
        → Agree Remembers plain compute
        → Agree Remembers plain (memoized (hash u) memo seen compute)
    memoized-Agree u memo (some v) plain compute e found sound h =
        rw (sym e ∙ sound u v found) (refl, sound)
    memoized-Agree u memo none none none e found sound h = tt
    memoized-Agree u memo none none (some c) e found sound h = absurd h
    memoized-Agree u memo none (some p) none e found sound h = absurd h
    memoized-Agree u memo none (some (v, m)) (some (x, memo')) e found sound (same, sound') =
        (same, add-IsSound u x memo' (rw (← same) e) sound')

    -- Voting with a sound memo gives the vote that is computed with nothing remembered, panics exactly
    -- when that does, and leaves a sound memo behind. (Units with one hash are one unit.)
    pub vote_at-Agree :
        (rounds : ℕ) (u : U) (memo : Bag Vote)
        → i.level u - i.level uc ≡ rounds
        → IsSound memo
        → Agree Remembers (plain_vote_at conf rs uc rounds u tt) (vote_at conf rs uc rounds u memo)
    unfolding vote_at plain_vote_at
    vote_at-Agree zero u memo l sound = (refl, sound)
    vote_at-Agree (suc zero) u memo l sound =
        memoized-Agree u memo (get_one memo (hash u)) (plain_vote_at conf rs uc (suc zero) u tt) _
          (rw l refl) refl sound (refl, sound)
    vote_at-Agree (suc (suc rounds)) u memo l sound =
        memoized-Agree u memo (get_one memo (hash u))
          (plain_vote_at conf rs uc (suc (suc rounds)) u tt) _ (rw l refl) refl sound
          (vote_below-Agree (plain_vote_at conf rs uc (suc rounds))
            (vote_at conf rs uc (suc rounds)) u memo sound
            λ w s t below sound'. vote_at-Agree (suc rounds) w t (omega arith) sound')
