-- ===== src/Dag/Slots.antt =====
-- pkg/dag/slotted_units.go: slices of units by the id of their creator.
use consensus_go.Base.{
  ℕ, zero, suc, ◌≡◌, ◌<◌, refl, Bool, List, [], ◌∷◌, arith, ◌==◌, if◌then◌else◌, length, replicate,
  get_or, set, length-set, length-replicate,
}

abbrev pub Slotted : Type 0 → Type 0
Slotted U = List (List U)

module _ {U : Type 0} where
  unfoldable pub new_slotted : ℕ → Slotted U
  new_slotted n = replicate n []

  -- Get: an id out of range has no units.
  abbrev pub get : Slotted U → ℕ → List U
  get su id = get_or su id []

  -- Set: an id out of range changes nothing.
  abbrev pub put : Slotted U → ℕ → List U → Slotted U
  put su id units = set su id units

  -- Iterate hands the slots to `work` until it returns false; `work` folds over a state.
  unfoldable pub iterate : {S : Type 0} → (List U → S → S × Bool) → Slotted U → S → S
  iterate work [] s = s
  iterate work (us ∷ su) s =
      let rest = iterate work su (work us s).0 in if (work us s).1 then rest else (work us s).0

  pub get-new_slotted : (n id : ℕ) → get (new_slotted n) id ≡ []
  unfolding new_slotted
  get-new_slotted zero id = refl
  get-new_slotted (suc n) zero = refl
  get-new_slotted (suc n) (suc id) = get-new_slotted n id

  pub length-put : (su : Slotted U) (id : ℕ) (us : List U) → length (put su id us) ≡ length su
  length-put su id us = length-set su id us

  -- What was put is what is got, at its own id; the other slots keep their units.
  pub get-put :
      (su : Slotted U) (id : ℕ) (us : List U) (other : ℕ)
      → id < length su
      → get (put su id us) other ≡ (if id == other then us else get su other)
  get-put [] id us other h = elim h [ ]
  get-put (v ∷ su) zero us zero h = refl
  get-put (v ∷ su) zero us (suc other) h = ground arith
  get-put (v ∷ su) (suc id) us zero h = ground arith
  get-put (v ∷ su) (suc id) us (suc other) h = ground (arith, get-put su id us other)

pub length-new_slotted : (U : Type 0) (n : ℕ) → length (new_slotted {U = U} n) ≡ n
unfolding new_slotted
length-new_slotted U n = length-replicate n []
