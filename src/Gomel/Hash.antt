-- ===== src/Gomel/Hash.antt =====
-- pkg/gomel/hash.go: hashes as lists of bytes, their order and their exclusive or.
use Prim.Native.Nat.{bit_xor}
use consensus_go.Base.{
  ℕ, ◌≡◌, ◌≢◌, refl, Bool, true, false, List, [], ◌∷◌, ◌++◌, Option, none, some, arith, ltb, ◌==◌,
  if◌then◌else◌, length, replicate, ◌⊎◌, ◌↔◌,
}

abbrev pub Hash : Type 0
Hash = List ℕ

abbrev pub hash_length : ℕ
hash_length = 32

abbrev pub zero_hash : Hash
zero_hash = replicate 32 0

-- The loop of LessThan over two hashes, byte by byte.
unfoldable pub less_than : Hash → Hash → Bool
less_than [] k = false
less_than (x ∷ h) [] = false
less_than (x ∷ h) (y ∷ k) =
    let rest = less_than h k in if ltb x y then true else if ltb y x then false else rest

-- XOR and XOREqual.
unfoldable pub xor : Hash → Hash → Hash
xor [] k = []
xor (x ∷ h) [] = []
xor (x ∷ h) (y ∷ k) = bit_xor x y ∷ xor h k

-- Go's `==` on two arrays.
unfoldable pub hash_eq : Hash → Hash → Bool
hash_eq [] [] = true
hash_eq [] (y ∷ k) = false
hash_eq (x ∷ h) [] = false
hash_eq (x ∷ h) (y ∷ k) = let rest = hash_eq h k in if x == y then rest else false

pub hash_eq_iff : (h k : Hash) → (hash_eq h k ≡ true) ↔ (h ≡ k)
unfolding hash_eq
hash_eq_iff [] [] = (λ _. refl, λ _. refl)
hash_eq_iff [] (y ∷ k) = (λ e. cc, λ e. cc)
hash_eq_iff (x ∷ h) [] = (λ e. cc, λ e. cc)
hash_eq_iff (x ∷ h) (y ∷ k) = ground (arith, hash_eq_iff h k)

pub hash_eq_refl : (h : Hash) → hash_eq h h ≡ true
hash_eq_refl h = (hash_eq_iff h h).1 refl

-- The concatenation that CombineHashes feeds to the hash function; a missing hash counts as zeros.
unfoldable pub joined_hashes : List (Option Hash) → List ℕ
joined_hashes [] = []
joined_hashes (none ∷ hs) = zero_hash ++ joined_hashes hs
joined_hashes (some h ∷ hs) = h ++ joined_hashes hs

-- sha3.ShakeSum128 into a 32-byte array is the argument `shake`.
unfoldable pub combine_hashes : (List ℕ → Hash) → List (Option Hash) → Hash
combine_hashes shake hs = shake (joined_hashes hs)

-- The order is irreflexive.
pub less_than_irrefl : (h : Hash) → less_than h h ≡ false
unfolding less_than
less_than_irrefl [] = refl
less_than_irrefl (x ∷ h) = ground (arith, less_than_irrefl h)

-- The order is transitive on hashes of one length.
pub less_than_trans :
    (h k l : Hash)
    → length h ≡ length k
    → length k ≡ length l
    → less_than h k ≡ true
    → less_than k l ≡ true
    → less_than h l ≡ true
unfolding less_than
less_than_trans [] k l p q a b = cc
less_than_trans (x ∷ h) [] l p q a b = cc
less_than_trans (x ∷ h) (y ∷ k) [] p q a b = cc
less_than_trans (x ∷ h) (y ∷ k) (z ∷ l) p q a b = ground (arith, less_than_trans h k l)

-- Two different hashes of one length are comparable, in one direction only.
pub less_than_total :
    (h k : Hash)
    → length h ≡ length k
    → h ≢ k
    → ((less_than h k ≡ true) × (less_than k h ≡ false))
      ⊎ ((less_than h k ≡ false) × (less_than k h ≡ true))
unfolding less_than
less_than_total [] [] p ne = absurd (ne refl)
less_than_total [] (y ∷ k) p ne = absurd (omega arith)
less_than_total (x ∷ h) [] p ne = absurd (omega arith)
less_than_total (x ∷ h) (y ∷ k) p ne = ground (arith, less_than_total h k)
