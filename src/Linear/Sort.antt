-- ===== src/Linear/Sort.antt =====
-- sort.Slice of Go's library, as insertion sort by a Boolean order.
use consensus_go.Base.{Bool, List, [], ◌∷◌, if◌then◌else◌, Bool-cases, inl, inr}
use mathlib.Core.List.{Perm}
use mathlib.Core.List.Perm

module _ {A : Type 0} (less : A → A → Bool) where
  unfoldable pub insert : A → List A → List A
  insert a [] = a ∷ []
  insert a (b ∷ bs) = let rest = insert a bs in if less b a then b ∷ rest else a ∷ b ∷ bs

  unfoldable pub sort_slice : List A → List A
  sort_slice [] = []
  sort_slice (a ∷ as') = insert a (sort_slice as')

  insert-perm : (a : A) (bs : List A) → Perm (insert a bs) (a ∷ bs)
  unfolding insert
  insert-perm a [] = Perm.refl (a ∷ [])
  insert-perm a (b ∷ bs) = elim (Bool-cases (less b a)) [
    | inl before ↦ rw before (Perm.trans (Perm.cons b (insert-perm a bs)) (Perm.swap a b bs))
    | inr after ↦ rw after (Perm.refl (a ∷ b ∷ bs))
  ]

  pub sort_slice-perm : (xs : List A) → Perm (sort_slice xs) xs
  unfolding sort_slice
  sort_slice-perm [] = Perm.refl []
  sort_slice-perm (a ∷ xs) =
      Perm.trans (insert-perm a (sort_slice xs)) (Perm.cons a (sort_slice-perm xs))
