-- ===== src/Adder/Removal.antt =====
-- pkg/adder/waiting_preunit.go: when the recursion of removeFailed ends.
use consensus_go.Base.{
  ℕ, zero, suc, ◌≡◌, ◌<◌, ◌⊎◌, inl, inr, refl, sym, ap, ◌∙◌, subst, List, [], ◌∷◌, Option, none,
  some, arith, All, All-mono,
}
use consensus_go.Gomel.Hash.{Hash}
use consensus_go.Dag.Bag.{get_one}
use consensus_go.Adder.Maps.{
  lookup, lookup-erase_every, lookup-erase_every-none, get_one-erase_hash, get_one-erase_hash-none,
}
use consensus_go.Adder.State.{WaitingPreunit, Adder}
use consensus_go.Adder.Ready.{forget, each, remove_failed}

-- Some member of a list.
abbrev pub Has : (ℕ → Type 0) → List ℕ → Type 0
Has P [] = ⊥
Has P (c ∷ cs) = P c ⊎ Has P cs

-- The preunits that are reached from one by going to children, it among them.
pub data Descends (objects : ℕ → WaitingPreunit) : ℕ → ℕ → Type 0 where
  self : (r : ℕ) → Descends objects r r
  through :
      (r c q : ℕ)
      → Has (λ x. x ≡ c) (objects r).children
      → Descends objects c q
      → Descends objects r q

abbrev BelowOne : (ℕ → WaitingPreunit) → List ℕ → ℕ → Type 0
BelowOne objects cs q = (c : ℕ) × Has (λ x. x ≡ c) cs × Descends objects c q

module _ {U : Type 0} where
  -- A call that keeps the objects where it returns.
  abbrev Keeps : (ℕ → WaitingPreunit) → Option (Adder U) → Type 0
  Keeps objects none = Unit
  Keeps objects (some s) = s.objects ≡ objects

  each-Keeps :
      (f : ℕ → Adder U → Option (Adder U)) (objects : ℕ → WaitingPreunit) (cs : List ℕ)
      (o : Option (Adder U))
      → ((c : ℕ) (s : Adder U) → s.objects ≡ objects → Keeps objects (f c s))
      → Keeps objects o
      → Keeps objects (each f cs o)
  each-Keeps f objects [] o k v = v
  each-Keeps f objects (c ∷ cs) none k v = tt
  each-Keeps f objects (c ∷ cs) (some s) k v = each-Keeps f objects cs (f c s) k (k c s v)

  remove_failed-Keeps :
      (fuel r : ℕ) (objects : ℕ → WaitingPreunit) (s : Adder U)
      → s.objects ≡ objects
      → Keeps objects (remove_failed fuel r s)
  unfolding remove_failed
  remove_failed-Keeps zero r objects s e = tt
  remove_failed-Keeps (suc fuel) r objects s e =
      each-Keeps (remove_failed fuel) objects (s.objects r).children (some (forget r s))
        (λ c t h. remove_failed-Keeps fuel c objects t h) e

  each-none :
      (f : ℕ → Adder U → Option (Adder U)) (objects : ℕ → WaitingPreunit) (P : ℕ → Type 0)
      (cs : List ℕ) (o : Option (Adder U))
      → ((c : ℕ) (s : Adder U) → s.objects ≡ objects → Keeps objects (f c s))
      → ((c : ℕ) (s : Adder U) → P c → s.objects ≡ objects → f c s ≡ none)
      → Keeps objects o
      → Has P cs
      → each f cs o ≡ none
  each-none f objects P [] o k stuck v h = absurd h
  each-none f objects P (c ∷ cs) none k stuck v h = refl
  each-none f objects P (c ∷ cs) (some s) k stuck v (inl p) = rw (stuck c s p v) (each_of_none f cs)
    where
      each_of_none : (g : ℕ → Adder U → Option (Adder U)) (ds : List ℕ) → each g ds none ≡ none
      each_of_none g [] = refl
      each_of_none g (d ∷ ds) = refl
  each-none f objects P (c ∷ cs) (some s) k stuck v (inr h) =
      each-none f objects P cs (f c s) k stuck (k c s v) h

  remove_failed-none :
      (objects : ℕ → WaitingPreunit) (P : ℕ → Type 0)
      → ((r : ℕ) → P r → Has P (objects r).children)
      → (fuel r : ℕ) (s : Adder U) → P r
      → s.objects ≡ objects
      → remove_failed fuel r s ≡ none
  unfolding remove_failed
  remove_failed-none objects P child zero r s p e = refl
  remove_failed-none objects P child (suc fuel) r s p e =
      each-none (remove_failed fuel) objects P (s.objects r).children (some (forget r s))
        (λ c t h. remove_failed-Keeps fuel c objects t h)
        (λ c t q h. remove_failed-none objects P child fuel c t q h) e
        (subst (λ o. Has P (o r).children) (sym e) (child r p))

  -- removeFailed does not return for a preunit of a set in which every preunit has a child of the set: no
  -- depth of recursion is enough.
  pub remove_failed_endless :
      (P : ℕ → Type 0) (s : Adder U) (fuel r : ℕ)
      → ((q : ℕ) → P q → Has P (s.objects q).children)
      → P r
      → remove_failed fuel r s ≡ none
  remove_failed_endless P s fuel r child p = remove_failed-none s.objects P child fuel r s p refl

  -- A preunit is in neither map, by its hash nor by its id.
  abbrev pub IsGone : WaitingPreunit → Adder U → Type 0
  IsGone wp s = (get_one s.waiting wp.pu.hash ≡ none) × (lookup wp.id s.waiting_by_id ≡ none)

  -- What is in neither map does not come back.
  abbrev Shrinks : Adder U → Adder U → Type 0
  Shrinks s t =
      ((h : Hash) → get_one s.waiting h ≡ none → get_one t.waiting h ≡ none)
      × ((n : ℕ) → lookup n s.waiting_by_id ≡ none → lookup n t.waiting_by_id ≡ none)

  Shrinks-trans : (s t u : Adder U) → Shrinks s t → Shrinks t u → Shrinks s u
  Shrinks-trans s t u (a, b) (c, d) = (λ h e. c h (a h e), λ n e. d n (b n e))

  forget-Shrinks : (r : ℕ) (s : Adder U) → Shrinks s (forget r s)
  forget-Shrinks r s = (
    λ h e. get_one-erase_hash-none (s.objects r).pu.hash h s.waiting e,
    λ n e. lookup-erase_every-none (s.objects r).id n s.waiting_by_id e,
  )

  -- A call returns, keeps the objects, and the preunits of `T` are gone after it.
  abbrev Clears : (ℕ → WaitingPreunit) → Adder U → (ℕ → Type 0) → Option (Adder U) → Type 0
  Clears objects s T o =
      (t : Adder U) × (o ≡ some t)
      × (t.objects ≡ objects)
      × Shrinks s t
      × ((q : ℕ) → T q → IsGone (objects q) t)

  each-Clears :
      (f : ℕ → Adder U → Option (Adder U)) (objects : ℕ → WaitingPreunit) (Q : ℕ → Type 0)
      (cs : List ℕ) (s : Adder U)
      → ((c : ℕ) (t : Adder U)
          → Q c
          → t.objects ≡ objects
          → Clears objects t (Descends objects c) (f c t))
      → s.objects ≡ objects
      → All Q cs
      → Clears objects s (BelowOne objects cs) (each f cs (some s))
  each-Clears f objects Q [] s k e v =
      (s, refl, e, (λ h a. a, λ n a. a), λ q (c, has, d). absurd has)
  each-Clears f objects Q (c ∷ cs) s k e (q, v) =
      let (t, done, kept, less, gone) = k c s q e in
      let (u, all_done, all_kept, more, all_gone) = each-Clears f objects Q cs t k kept v in
      rw done (
        u,
        all_done,
        all_kept,
        Shrinks-trans s t u less more,
        λ p (d, has, path). elim has [
          | inl same ↦
              let (a, b) = gone p (subst (λ x. Descends objects x p) (sym same) path) in
              (more.0 (objects p).pu.hash a, more.1 (objects p).id b)
          | inr later ↦ all_gone p (d, later, path)
        ],
      )

  remove_failed-Clears :
      (objects : ℕ → WaitingPreunit) (rank : ℕ → ℕ)
      → ((r : ℕ) → All (λ c. rank c < rank r) (objects r).children)
      → (fuel r : ℕ) (s : Adder U) → rank r < fuel
      → s.objects ≡ objects
      → Clears objects s (Descends objects r) (remove_failed fuel r s)
  unfolding remove_failed
  remove_failed-Clears objects rank lower zero r s h e = absurd (omega arith)
  remove_failed-Clears objects rank lower (suc fuel) r s h e =
      let (t, done, kept, less, gone) =
        each-Clears (remove_failed fuel) objects (λ c. rank c < fuel) (objects r).children
          (forget r s) (λ c u low k. remove_failed-Clears objects rank lower fuel c u low k) e
          (All-mono (λ c. rank c < rank r) (λ c. rank c < fuel) (objects r).children
            (λ c low. omega arith) (lower r)) in
      let own : IsGone (objects r) (forget r s) =
        subst (λ o. IsGone (o r) (forget r s)) e
          (
            get_one-erase_hash (s.objects r).pu.hash s.waiting,
            lookup-erase_every (s.objects r).id s.waiting_by_id,
          ) in
      (
        t,
        ap (λ o. each (remove_failed fuel) (o r).children (some (forget r s))) e ∙ done,
        kept,
        Shrinks-trans s (forget r s) t (forget-Shrinks r s) less,
        λ q path. reached t less own gone q path,
      )
    where
      reached :
          (t : Adder U)
          → Shrinks (forget r s) t
          → IsGone (objects r) (forget r s)
          → ((q : ℕ) → BelowOne objects (objects r).children q → IsGone (objects q) t)
          → (q : ℕ) → Descends objects r q
          → IsGone (objects q) t
      reached t less own gone q (self _) =
          (less.0 (objects r).pu.hash own.0, less.1 (objects r).id own.1)
      reached t less own gone q (through _ c _ has path) = gone q (c, has, path)

  -- removeFailed returns where every child of a preunit has a lower rank than it, a fuel above the rank of the preunit
  -- being enough for its recursion. After it the preunit, its children, their children and so on are in neither map of
  -- waiting preunits, by their hashes nor by their ids, and as objects they are unchanged.
  pub remove_failed_returns :
      (rank : ℕ → ℕ) (s : Adder U) (fuel r : ℕ)
      → ((q : ℕ) → All (λ c. rank c < rank q) (s.objects q).children)
      → rank r < fuel
      → (s' : Adder U) × (remove_failed fuel r s ≡ some s')
        × (s'.objects ≡ s.objects)
        × ((q : ℕ) → Descends s.objects r q → IsGone (s.objects q) s')
  remove_failed_returns rank s fuel r lower h =
      let (t, done, kept, less, gone) = remove_failed-Clears s.objects rank lower fuel r s h refl in
      (t, done, kept, gone)
