-- ===== src/Creator/Consistent.antt =====
-- pkg/creator/creator.go, MakeConsistent.
use consensus_go.Base.{
  ℕ, zero, suc, ◌+◌, Bool, true, false, List, Option, none, some, ltb, if◌then◌else◌, length, set,
}
use consensus_go.Gomel.Unit.{UnitInterface, slot}

module _ {U : Type 0} ⦃i : UnitInterface U⦄ where
  -- `parents[i] == nil || (u != nil && u.Level() > parents[i].Level())`
  abbrev pub replaces : Option U → Option U → Bool
  replaces none u = true
  replaces (some v) none = false
  replaces (some v) (some u) = ltb (i.level v) (i.level u)

  -- The inner loop's body: the parent at `k` is replaced by the parent of a parent.
  abbrev pub raise_by : List (Option U) → ℕ → Option U → List (Option U)
  raise_by ps k none = ps
  raise_by ps k (some p) =
      let u = slot (i.parents p) k in if replaces (slot ps k) u then set ps k u else ps

  -- `count` rounds of the inner loop, from `j` on.
  unfoldable pub raise_from : ℕ → ℕ → ℕ → List (Option U) → List (Option U)
  raise_from k j zero ps = ps
  raise_from k j (suc count) ps = raise_from k (j + 1) count (raise_by ps k (slot ps j))

  -- `count` rounds of the outer loop, from `k` on, over `n` parents.
  unfoldable pub raise_all : ℕ → ℕ → ℕ → List (Option U) → List (Option U)
  raise_all n k zero ps = ps
  raise_all n k (suc count) ps = raise_all n (k + 1) count (raise_from k 0 n ps)

  unfoldable pub make_consistent : List (Option U) → List (Option U)
  make_consistent ps = raise_all (length ps) 0 (length ps) ps
