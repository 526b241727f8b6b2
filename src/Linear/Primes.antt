-- ===== src/Linear/Primes.antt =====
-- pkg/linear/unanimous_voting.go: the search for a prime ancestor in voteUsingPrimeAncestors.
use consensus_go.Base.{
  ℕ, zero, suc, ◌+◌, ◌≡◌, ◌<◌, ◌≤◌, refl, true, Option, none, some, arith, leb, Bool-cases, inl,
  inr,
}
use consensus_go.Gomel.Unit.{UnitInterface, height, predecessor}
use consensus_go.Linear.Votes.{descend, prime_ancestor}

module _ {U : Type 0} ⦃i : UnitInterface U⦄ where
  -- A unit that reaches a level, and whose predecessor, if it has one, does not.
  abbrev IsFirst : ℕ → Option U → Type 0
  IsFirst u_level none = Unit
  IsFirst u_level (some p) = i.level p + 1 < u_level

  abbrev pub IsFirstOn : ℕ → U → Type 0
  IsFirstOn u_level w = (u_level ≤ i.level w + 1) × IsFirst u_level (predecessor w)

  abbrev pub IsHigher : ℕ → Option U → Type 0
  IsHigher h none = Unit
  IsHigher h (some p) = height p < h

  module _ (drops : (v : U) → IsHigher (height v) (predecessor v)) where
    descend-IsFirstOn :
        (fuel u_level : ℕ) (v : U) (p : Option U)
        → height v ≤ fuel
        → predecessor v ≡ p
        → u_level ≤ i.level v + 1
        → IsFirstOn u_level (descend fuel u_level v p)
    unfolding descend
    descend-IsFirstOn fuel u_level v none f e l = (l, rw e tt)
    descend-IsFirstOn zero u_level v (some p) f e l =
        let low = rw e at (drops v) in absurd (omega arith)
    descend-IsFirstOn (suc fuel) u_level v (some p) f e l =
        let low = rw e at (drops v) in
        elim (Bool-cases (leb u_level (i.level p + 1))) [
          | inl on ↦
              rw on
                (descend-IsFirstOn fuel u_level p (predecessor p) (omega arith) refl (ground arith))
          | inr under ↦ rw under (l, rw e (ground arith))
        ]

    -- Where heights drop from each unit to its predecessor, the prime ancestor of a unit that reaches the
    -- level below `u_level` reaches it too, and the prime ancestor's predecessor, if there is one, does not:
    -- the height is enough fuel.
    pub prime_ancestor-IsFirstOn :
        (u_level : ℕ) (v : U)
        → u_level ≤ i.level v + 1
        → IsFirstOn u_level (prime_ancestor u_level v)
    unfolding prime_ancestor
    prime_ancestor-IsFirstOn u_level v l =
        let on : leb u_level (i.level v + 1) ≡ true = ground arith in
        rw on (descend-IsFirstOn (height v) u_level v (predecessor v) (omega arith) refl l)
