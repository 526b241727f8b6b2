-- ===== src/Orderer/Reachable.antt =====
-- pkg/orderer/orderer.go: the calls that other parts make, one after another in any order.
use consensus_go.Base.{
  ℕ, ◌≡◌, refl, Bool, List, [], ◌∷◌, ◌⊎◌, All, Option, none, some, Bool-cases, true, inl, inr,
}
use consensus_go.Base.Outcome.{Outcome, ok, err, panic, returns_ok, Post, Ends}
use consensus_go.Gomel.Preunit.{Preunit}
use consensus_go.Gomel.Unit.{UnitInterface}
use consensus_go.Orderer.State.{
  EpochInterface, Epoch, Orderer, Which, read, get_epoch, push_epoch, new_orderer,
}
use consensus_go.Orderer.Operations.{add_preunits, finish_in, finish_found, finish_epoch, insert}
use consensus_go.Orderer.Epochs.{
  IsStarted, Found, write-IsStarted, get_epoch-Found, add_preunits-IsStarted, insert-IsStarted,
}

module _ {U E D : Type 0} ⦃i : UnitInterface U⦄ (parts : EpochInterface U E D)
    (epoch_proof : Preunit → Outcome E Bool) (pid : ℕ) where
  -- One call that changes the orderer and returns.
  pub data Step : Orderer D → Orderer D → Type 0 where
    adds :
        (source : ℕ) (pus : List Preunit) (errors : List (Option E)) {ord ord' : Orderer D}
        → add_preunits parts epoch_proof source pus ord ≡ ok (errors, ord')
        → Step ord ord'
    inserts : (u : U) {ord ord' : Orderer D} → insert parts pid u ord ≡ ok ord' → Step ord ord'
    finishes :
        (epoch : ℕ) {ord ord' : Orderer D} → finish_epoch parts epoch ord ≡ ok ord' → Step ord ord'

  -- What Start leaves: the first epoch, and nothing before it.
  abbrev pub started : Orderer D
  started = push_epoch parts 0 new_orderer

  pub data Reach : Orderer D → Type 0 where
    start : Reach started
    step : {ord ord' : Orderer D} → Reach ord → Step ord ord' → Reach ord'

  finish_in-IsStarted :
      (w : Which) (ord : Orderer D) (o : Option (Epoch D))
      → read w ord ≡ o
      → IsStarted ord
      → Post (finish_in parts w ord o) IsStarted
  finish_in-IsStarted w ord none e v = v
  finish_in-IsStarted w ord (some ep) e v = elim (Bool-cases ep.more_closed) [
    | inl twice ↦ rw twice tt
    | inr once ↦ rw once (write-IsStarted parts w ord ep ep.parts true e v)
  ]

  finish_found-IsStarted :
      (ord : Orderer D) (w : Option Which) (newer : Bool)
      → IsStarted ord
      → Post (finish_found parts ord (w, newer)) IsStarted
  finish_found-IsStarted ord none newer v = v
  finish_found-IsStarted ord (some w) newer v = finish_in-IsStarted w ord (read w ord) refl v

  finish_epoch-IsStarted :
      (epoch : ℕ) (ord : Orderer D) → IsStarted ord → Post (finish_epoch parts epoch ord) IsStarted
  unfolding finish_epoch
  finish_epoch-IsStarted epoch ord v =
      let (found, e, f) =
        returns_ok (get_epoch epoch ord) (Found epoch ord.current ord.previous)
          (get_epoch-Found E epoch ord v) in
      rw e (finish_found-IsStarted ord found.0 found.1 v)

  -- Nothing is asked of an outcome.
  Ends-always : {A : Type 0} (m : Outcome E A) → Ends Unit m (λ _. Unit {0})
  Ends-always (ok a) = tt
  Ends-always (err e) = tt
  Ends-always panic = tt

  All-always : {A : Type 0} (P : A → Type 0) → ((a : A) → P a) → (xs : List A) → All P xs
  All-always P f [] = tt
  All-always P f (x ∷ xs) = (f x, All-always P f xs)

  Step-IsStarted : {ord ord' : Orderer D} → Step ord ord' → IsStarted ord → IsStarted ord'
  Step-IsStarted {ord} (adds source pus errors e) v =
      let w =
        add_preunits-IsStarted parts Unit epoch_proof source pus ord
          (All-always _ (λ pu. Ends-always (epoch_proof pu)) pus)
          (λ ps d. Ends-always (parts.add_to_adder source ps d)) v in
      rw e at w
  Step-IsStarted {ord} (inserts u e) v =
      let w = insert-IsStarted parts Unit pid u ord (λ d. Ends-always (parts.insert_unit u d)) v in
      rw e at w
  Step-IsStarted {ord} (finishes epoch e) v =
      let w = finish_epoch-IsStarted epoch ord v in rw e at w

  pub Reach-IsStarted : {ord : Orderer D} → Reach ord → IsStarted ord
  Reach-IsStarted start = refl
  Reach-IsStarted (step r s) = Step-IsStarted s (Reach-IsStarted r)

  abbrev pub Answers : {A : Type 0} → Outcome E A → Type 0
  Answers {A} m = (a : A) × (m ≡ ok a)

  -- A call that does not return a value.
  abbrev pub Fails : {A : Type 0} → Outcome E A → Type 0
  Fails (ok a) = ⊥
  Fails (err e) = Unit
  Fails panic = Unit

  -- A preunit of the list on which EpochProof fails.
  abbrev pub HasFailing : List Preunit → Type 0
  HasFailing [] = ⊥
  HasFailing (pu ∷ pus) = Fails (epoch_proof pu) ⊎ HasFailing pus

  -- What a call of AddPreunits can fail of: EpochProof on one of its preunits, or an adder.
  abbrev pub AddFails : ℕ → List Preunit → Type 0
  AddFails source pus =
      HasFailing pus ⊎ ((ps : List Preunit) × (d : D) × Fails (parts.add_to_adder source ps d))
