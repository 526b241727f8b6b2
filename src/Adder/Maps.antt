-- ===== src/Adder/Maps.antt =====
-- Go's maps, as association lists: those with numbers as keys, and deleting from one with hashes.
use consensus_go.Base.{
  ℕ, List, [], ◌∷◌, Option, none, some, ◌==◌, if◌then◌else◌, ◌≡◌, refl, arith, Bool-cases, inl, inr,
}
use consensus_go.Gomel.Hash.{Hash, hash_eq}
use consensus_go.Dag.Bag.{Bag, get_one}

module _ {V : Type 0} where
  abbrev pub lookup : ℕ → List (ℕ × V) → Option V
  lookup k [] = none
  lookup k ((j, v) ∷ m) = if j == k then some v else lookup k m

  abbrev pub insert : ℕ → V → List (ℕ × V) → List (ℕ × V)
  insert k v [] = (k, v) ∷ []
  insert k v ((j, w) ∷ m) = if j == k then (k, v) ∷ m else (j, w) ∷ insert k v m

  -- The entry of a key goes; `insert` makes one at most.
  abbrev pub erase : ℕ → List (ℕ × V) → List (ℕ × V)
  erase k [] = []
  erase k ((j, w) ∷ m) = if j == k then m else (j, w) ∷ erase k m

  -- The same, without relying on there being one at most.
  abbrev pub erase_every : ℕ → List (ℕ × V) → List (ℕ × V)
  erase_every k [] = []
  erase_every k ((j, w) ∷ m) = if j == k then erase_every k m else (j, w) ∷ erase_every k m

  abbrev pub erase_hash : Hash → Bag V → Bag V
  erase_hash h [] = []
  erase_hash h ((k, v) ∷ m) = if hash_eq k h then erase_hash h m else (k, v) ∷ erase_hash h m

  pub lookup-erase_every : (k : ℕ) (m : List (ℕ × V)) → lookup k (erase_every k m) ≡ none
  lookup-erase_every k [] = refl
  lookup-erase_every k ((j, w) ∷ m) = elim (Bool-cases (j == k)) [
    | inl hit ↦ rw hit (lookup-erase_every k m)
    | inr miss ↦ rw (miss, miss) (lookup-erase_every k m)
  ]

  -- What is not in a map is not in it after a deletion.
  pub lookup-erase_every-none :
      (k j : ℕ) (m : List (ℕ × V)) → lookup j m ≡ none → lookup j (erase_every k m) ≡ none
  lookup-erase_every-none k j [] h = refl
  lookup-erase_every-none k j ((l, w) ∷ m) h = elim (Bool-cases (l == j)) [
    | inl found ↦ absurd (ground (arith, (rw found at h)))
    | inr other ↦
        let rest = lookup-erase_every-none k j m (rw other at h) in
        elim (Bool-cases (l == k)) [ inl hit ↦ rw hit rest | inr miss ↦ rw (miss, other) rest ]
  ]

  pub get_one-erase_hash : (k : Hash) (m : Bag V) → get_one (erase_hash k m) k ≡ none
  unfolding get_one
  get_one-erase_hash k [] = refl
  get_one-erase_hash k ((j, w) ∷ m) = elim (Bool-cases (hash_eq j k)) [
    | inl hit ↦ rw hit (get_one-erase_hash k m)
    | inr miss ↦ rw (miss, miss) (get_one-erase_hash k m)
  ]

  pub get_one-erase_hash-none :
      (k j : Hash) (m : Bag V) → get_one m j ≡ none → get_one (erase_hash k m) j ≡ none
  unfolding get_one
  get_one-erase_hash-none k j [] h = refl
  get_one-erase_hash-none k j ((l, w) ∷ m) h = elim (Bool-cases (hash_eq l j)) [
    | inl found ↦ absurd (ground (arith, (rw found at h)))
    | inr other ↦
        let rest = get_one-erase_hash-none k j m (rw other at h) in
        elim (Bool-cases (hash_eq l k)) [ inl hit ↦ rw hit rest | inr miss ↦ rw (miss, other) rest ]
  ]
