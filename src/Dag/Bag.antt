-- ===== src/Dag/Bag.antt =====
-- pkg/dag/unit_bag.go: units by their hashes.
use consensus_go.Base.{◌≡◌, refl, List, [], ◌∷◌, Option, none, some, arith, if◌then◌else◌, map}
use consensus_go.Gomel.Hash.{Hash, hash_eq, hash_eq_iff}

-- The Go map from hashes to units is an association list.
abbrev pub Bag : Type 0 → Type 0
Bag U = List (Hash × U)

module _ {U : Type 0} where
  unfoldable pub get_one : Bag U → Hash → Option U
  get_one [] h = none
  get_one ((k, u) ∷ bag) h = let later = get_one bag h in if hash_eq k h then some u else later

  unfoldable pub add : Bag U → Hash → U → Bag U
  add [] h u = (h, u) ∷ []
  add ((k, v) ∷ bag) h u =
      let later = add bag h u in if hash_eq k h then (h, u) ∷ bag else (k, v) ∷ later

  abbrev pub get_at : Bag U → Option Hash → Option U
  get_at bag none = none
  get_at bag (some h) = get_one bag h

  unfoldable pub get_many : Bag U → List (Option Hash) → List (Option U)
  get_many bag hashes = map (get_at bag) hashes

  unfoldable pub get_all : Bag U → List U
  get_all bag = map (λ entry. entry.1) bag

  pub get_one-add :
      (bag : Bag U) (h : Hash) (u : U) (k : Hash)
      → get_one (add bag h u) k ≡ (if hash_eq h k then some u else get_one bag k)
  unfolding get_one add
  get_one-add [] h u k = refl
  get_one-add ((j, v) ∷ bag) h u k =
      ground (arith, hash_eq_iff j h, hash_eq_iff h k, hash_eq_iff j k, get_one-add bag h u k)
