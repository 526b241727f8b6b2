-- ===== src/Orderer/Epochs.antt =====
-- pkg/orderer/orderer.go: the two epochs that an orderer holds once it has started.
use consensus_go.Base.{
  ℕ, zero, suc, ◌+◌, ◌≡◌, ◌<◌, refl, sym, Bool, true, false, List, [], ◌∷◌, Option, none, some,
  arith, ltb, ◌==◌, length, take, drop, Bool-cases, inl, inr, All,
}
use consensus_go.Base.Outcome.{
  Outcome, ok, err, panic, Returns, returns_bind, Ends, ends_bind, returns_ends,
}
use consensus_go.Gomel.Id.{decode_id}
use consensus_go.Gomel.Preunit.{Preunit}
use consensus_go.Gomel.Unit.{UnitInterface, creator, epoch_id}
use consensus_go.Orderer.State.{
  EpochInterface, Epoch, Orderer, Which, latest, before, read, write, get_from, get_epoch,
  start_epoch, push_epoch, new_from, new_epoch,
}
use consensus_go.Orderer.Operations.{
  update_parts, retrieve_newer, retrieve_from, retrieve_epoch, data_or_empty, data_in, data_found,
  add_in, add_run, run_length, add_runs, add_preunits, units_by_id, max_units, rs_data, insert_in,
  insert_found, insert,
}

module _ {D : Type 0} where
  -- There is a current epoch; the previous one is older, and is missing only in epoch 0.
  abbrev pub AreEpochs : Option (Epoch D) → Option (Epoch D) → Type 0
  AreEpochs none previous = ⊥
  AreEpochs (some c) none = c.id ≡ 0
  AreEpochs (some c) (some p) = p.id < c.id

  abbrev pub IsStarted : Orderer D → Type 0
  IsStarted ord = AreEpochs ord.current ord.previous

  abbrev pub HasId : ℕ → Option (Epoch D) → Type 0
  HasId epoch none = ⊥
  HasId epoch (some ep) = ep.id ≡ epoch

  -- What getEpoch finds is an epoch of the orderer with the id that was asked for, and it says that an epoch
  -- is newer exactly if it is newer than the current one.
  abbrev pub IsFoundIn : ℕ → Option (Epoch D) → Option (Epoch D) → Option Which → Type 0
  IsFoundIn epoch c p none = Unit
  IsFoundIn epoch c p (some latest) = HasId epoch c
  IsFoundIn epoch c p (some before) = HasId epoch p

  abbrev pub SaysNewer : ℕ → Option (Epoch D) → Bool → Type 0
  SaysNewer epoch none newer = ⊥
  SaysNewer epoch (some c) newer = newer ≡ ltb c.id epoch

  abbrev pub Found : ℕ → Option (Epoch D) → Option (Epoch D) → Option Which × Bool → Type 0
  Found epoch c p r = IsFoundIn epoch c p r.0 × SaysNewer epoch c r.1

  get_from-Found :
      (E : Type 0) (epoch : ℕ) (c p : Option (Epoch D))
      → AreEpochs c p
      → Returns (get_from {E = E} epoch c p) (Found epoch c p)
  get_from-Found E epoch none p v = absurd v
  get_from-Found E epoch (some c) none v = elim (Bool-cases (ltb c.id epoch)) [
    | inl newer ↦ rw newer (tt, sym newer)
    | inr old ↦
        let same : (epoch == c.id) ≡ true = ground arith in rw (old, same) (ground arith, sym old)
  ]
  get_from-Found E epoch (some c) (some p) v = elim (Bool-cases (ltb c.id epoch)) [
    | inl newer ↦ rw newer (tt, sym newer)
    | inr old ↦ elim (Bool-cases (epoch == c.id)) [
      | inl same ↦ rw (old, same) (ground arith, sym old)
      | inr other ↦ elim (Bool-cases (epoch == p.id)) [
        | inl second ↦ rw (old, other, second) (ground arith, sym old)
        | inr neither ↦ rw (old, other, neither) (tt, sym old)
      ]
    ]
  ]

  pub get_epoch-Found :
      (E : Type 0) (epoch : ℕ) (ord : Orderer D)
      → IsStarted ord
      → Returns (get_epoch {E = E} epoch ord) (Found epoch ord.current ord.previous)
  unfolding get_epoch
  get_epoch-Found E epoch ord v = get_from-Found E epoch ord.current ord.previous v

module _ {U E D : Type 0} (parts : EpochInterface U E D) where
  -- What is done to an epoch that was found keeps its id.
  push_epoch-IsStarted :
      (epoch : ℕ) (c p : Option (Epoch D))
      → AreEpochs c p
      → SaysNewer epoch c true
      → AreEpochs (some (start_epoch parts epoch)) c
  push_epoch-IsStarted epoch none p v newer = absurd v
  push_epoch-IsStarted epoch (some c) p v newer = ground arith

  new_epoch-newer :
      (epoch : ℕ) (ord : Orderer D)
      → IsStarted ord
      → SaysNewer epoch ord.current true
      → new_epoch parts epoch ord ≡ ok (some latest, push_epoch parts epoch ord)
  unfolding new_epoch
  new_epoch-newer epoch ord v newer = there ord.current v newer
    where
      there :
          (c : Option (Epoch D))
          → AreEpochs c ord.previous
          → SaysNewer epoch c true
          → new_from parts epoch c ord ≡ ok (some latest, push_epoch parts epoch ord)
      there none v newer = refl
      there (some c) v newer = rw (← newer) refl

  AreEpochs-current :
      (c p : Option (Epoch D)) (ep : Epoch D)
      → c ≡ some ep
      → (d : D) (m : Bool) → AreEpochs c p
      → AreEpochs (some (record ep { parts = d; more_closed = m })) p
  AreEpochs-current none p ep e d m v = absurd v
  AreEpochs-current (some c) none ep e d m v = ground (arith, e)
  AreEpochs-current (some c) (some p) ep e d m v = ground (arith, e)

  AreEpochs-previous :
      (c p : Option (Epoch D)) (ep : Epoch D)
      → p ≡ some ep
      → (d : D) (m : Bool) → AreEpochs c p
      → AreEpochs c (some (record ep { parts = d; more_closed = m }))
  AreEpochs-previous none p ep e d m v = absurd v
  AreEpochs-previous (some c) none ep e d m v = absurd (ground (arith, e))
  AreEpochs-previous (some c) (some p) ep e d m v = ground (arith, e)

  pub write-IsStarted :
      (w : Which) (ord : Orderer D) (ep : Epoch D) (d : D) (m : Bool)
      → read w ord ≡ some ep
      → IsStarted ord
      → IsStarted (write w (record ep { parts = d; more_closed = m }) ord)
  write-IsStarted latest ord ep d m e v = AreEpochs-current ord.current ord.previous ep e d m v
  write-IsStarted before ord ep d m e v = AreEpochs-previous ord.current ord.previous ep e d m v

  update_parts-IsStarted :
      (X : Type 0) (w : Which) (f : D → Outcome E D) (ord : Orderer D) (o : Option (Epoch D))
      → ((d : D) → Ends X (f d) (λ _. Unit {0}))
      → read w ord ≡ o
      → IsStarted ord
      → Ends X (update_parts parts w o f ord) IsStarted
  update_parts-IsStarted X w f ord none total e v = v
  update_parts-IsStarted X w f ord (some ep) total e v =
      ends_bind X (f ep.parts) _ (λ _. Unit {0}) _ (total ep.parts)
        (λ d _. write-IsStarted w ord ep d ep.more_closed e v)

  add_in-IsStarted :
      (X : Type 0) (w : Which) (source : ℕ) (pus : List Preunit) (ord : Orderer D)
      (o : Option (Epoch D))
      → ((ps : List Preunit) (d : D) → Ends X (parts.add_to_adder source ps d) (λ _. Unit {0}))
      → read w ord ≡ o
      → IsStarted ord
      → Ends X (add_in parts w source pus ord o) (λ r. IsStarted r.1)
  add_in-IsStarted X w source pus ord none total e v = v
  add_in-IsStarted X w source pus ord (some ep) total e v =
      ends_bind X (parts.add_to_adder source pus ep.parts) _ (λ _. Unit {0}) _ (total pus ep.parts)
        (λ r _. write-IsStarted w ord ep r.0 ep.more_closed e v)

  add_run-IsStarted :
      (X : Type 0) (source : ℕ) (pus : List Preunit) (w : Option Which) (ord : Orderer D)
      → ((ps : List Preunit) (d : D) → Ends X (parts.add_to_adder source ps d) (λ _. Unit {0}))
      → IsStarted ord
      → Ends X (add_run parts source pus (w, ord)) (λ r. IsStarted r.1)
  add_run-IsStarted X source pus none ord total v = v
  add_run-IsStarted X source pus (some w) ord total v =
      add_in-IsStarted X w source pus ord (read w ord) total refl v

  retrieve_newer-IsStarted :
      (X : Type 0) (pu : Preunit) (source : ℕ) (ord : Orderer D) (w : Option Which) (proved : Bool)
      → IsStarted ord
      → SaysNewer pu.epoch_id ord.current true
      → Ends X (retrieve_newer parts pu source ord w proved) (λ r. IsStarted r.1)
  retrieve_newer-IsStarted X pu source ord w false v n = v
  retrieve_newer-IsStarted X pu source ord w true v n =
      rw (new_epoch-newer pu.epoch_id ord v n)
        (push_epoch-IsStarted pu.epoch_id ord.current ord.previous v n)

  retrieve_from-IsStarted :
      (X : Type 0) (epoch_proof : Preunit → Outcome E Bool) (pu : Preunit) (source : ℕ)
      (ord : Orderer D) (w : Option Which) (newer : Bool)
      → Ends X (epoch_proof pu) (λ _. Unit {0})
      → IsStarted ord
      → SaysNewer pu.epoch_id ord.current newer
      → Ends X (retrieve_from parts epoch_proof pu source ord (w, newer)) (λ r. IsStarted r.1)
  retrieve_from-IsStarted X epoch_proof pu source ord w false total v n = v
  retrieve_from-IsStarted X epoch_proof pu source ord w true total v n =
      ends_bind X (epoch_proof pu) _ (λ _. Unit {0}) _ total
        (λ proved _. retrieve_newer-IsStarted X pu source ord w proved v n)

  All-drop : (P : Preunit → Type 0) (n : ℕ) (pus : List Preunit) → All P pus → All P (drop n pus)
  All-drop P zero pus v = v
  All-drop P (suc n) [] v = tt
  All-drop P (suc n) (pu ∷ pus) (_, v) = All-drop P n pus v

  add_runs-IsStarted :
      (X : Type 0) (epoch_proof : Preunit → Outcome E Bool) (source size fuel processed : ℕ)
      (pus : List Preunit) (errors : List (Option E)) (ord : Orderer D)
      → All (λ pu. Ends X (epoch_proof pu) (λ _. Unit {0})) pus
      → ((ps : List Preunit) (d : D) → Ends X (parts.add_to_adder source ps d) (λ _. Unit {0}))
      → IsStarted ord
      → Ends X
          (add_runs parts epoch_proof source size fuel processed pus errors ord)
          (λ r. IsStarted r.1)
  unfolding add_runs retrieve_epoch
  add_runs-IsStarted X epoch_proof source size zero processed pus errors ord p a v = v
  add_runs-IsStarted X epoch_proof source size (suc fuel) processed [] errors ord p a v = v
  add_runs-IsStarted X epoch_proof source size (suc fuel) processed (pu ∷ pus) errors ord p a v =
      let end = run_length pu.epoch_id (pu ∷ pus) in
      ends_bind X (retrieve_epoch parts epoch_proof pu source ord) _ (λ r. IsStarted r.1) _
        (ends_bind X (get_epoch pu.epoch_id ord) _ (Found pu.epoch_id ord.current ord.previous) _
          (returns_ends X (get_epoch pu.epoch_id ord) _ (get_epoch-Found E pu.epoch_id ord v))
          (λ r f. retrieve_from-IsStarted X epoch_proof pu source ord r.0 r.1 p.0 v f.1))
        (λ r w.
          ends_bind X (add_run parts source (take end (pu ∷ pus)) r) _ (λ q. IsStarted q.1) _
            (add_run-IsStarted X source (take end (pu ∷ pus)) r.0 r.1 a w)
            (λ q z.
              add_runs-IsStarted X epoch_proof source size fuel (processed + end)
                (drop end (pu ∷ pus)) _ q.1 (All-drop _ end (pu ∷ pus) p) a z))

  pub add_preunits-IsStarted :
      (X : Type 0) (epoch_proof : Preunit → Outcome E Bool) (source : ℕ) (pus : List Preunit)
      (ord : Orderer D)
      → All (λ pu. Ends X (epoch_proof pu) (λ _. Unit {0})) pus
      → ((ps : List Preunit) (d : D) → Ends X (parts.add_to_adder source ps d) (λ _. Unit {0}))
      → IsStarted ord
      → Ends X (add_preunits parts epoch_proof source pus ord) (λ r. IsStarted r.1)
  unfolding add_preunits
  add_preunits-IsStarted X epoch_proof source pus ord p a v =
      add_runs-IsStarted X epoch_proof source (length pus) (length pus) 0 pus [] ord p a v

  pub units_by_id-Returns :
      (ids : List ℕ) (ord : Orderer D)
      → IsStarted ord
      → Returns (units_by_id parts ids ord) (λ us. Unit {0})
  unfolding units_by_id
  units_by_id-Returns [] ord v = tt
  units_by_id-Returns (id ∷ ids) ord v =
      returns_bind (get_epoch (decode_id id).2 ord) _
        (Found (decode_id id).2 ord.current ord.previous) _
        (get_epoch-Found E (decode_id id).2 ord v)
        (λ r f.
          returns_bind (units_by_id parts ids ord) _ (λ us. Unit {0}) _
            (units_by_id-Returns ids ord v) (λ us g. tt))

  pub max_units-Returns :
      (epoch : ℕ) (ord : Orderer D)
      → IsStarted ord
      → Returns (max_units parts epoch ord) (λ us. Unit {0})
  unfolding max_units
  max_units-Returns epoch ord v =
      returns_bind (get_epoch epoch ord) _ (Found epoch ord.current ord.previous) _
        (get_epoch-Found E epoch ord v) (λ r f. tt)

  data_in-Ends :
      (X : Type 0) (ps : List (Option U)) (level : ℕ) (o : Option (Epoch D))
      → ((d : D) → (parts.data_to_include d ps level ≡ panic) → X)
      → Ends X (data_in parts ps level o) (λ bs. Unit {0})
  data_in-Ends X ps level none total = tt
  data_in-Ends X ps level (some ep) total =
      answer (parts.data_to_include ep.parts ps level) (total ep.parts)
    where
      answer :
          (m : Outcome E (List ℕ))
          → (m ≡ panic → X)
          → Ends X (data_or_empty parts m) (λ bs. Unit {0})
      answer panic x = x refl
      answer (err e) x = tt
      answer (ok bs) x = tt

  data_found-Ends :
      (X : Type 0) (ps : List (Option U)) (level : ℕ) (ord : Orderer D) (w : Option Which)
      (newer : Bool)
      → ((d : D) → (parts.data_to_include d ps level ≡ panic) → X)
      → Ends X (data_found parts ps level ord (w, newer)) (λ bs. Unit {0})
  data_found-Ends X ps level ord none newer total = tt
  data_found-Ends X ps level ord (some w) newer total = data_in-Ends X ps level (read w ord) total

  pub rs_data-Ends :
      (X : Type 0) (dealing_data : ℕ → Option (List ℕ)) (level : ℕ) (ps : List (Option U))
      (epoch : ℕ) (ord : Orderer D)
      → ((d : D) → (parts.data_to_include d ps level ≡ panic) → X)
      → IsStarted ord
      → Ends X (rs_data parts dealing_data level ps epoch ord) (λ bs. Unit {0})
  unfolding rs_data
  rs_data-Ends X dealing_data level ps epoch ord total v = elim (Bool-cases (level == 0)) [
    | inl dealing ↦ rw dealing tt
    | inr later ↦ rw later (
        ends_bind X (get_epoch epoch ord) _ (Found epoch ord.current ord.previous) _
          (returns_ends X (get_epoch epoch ord) _ (get_epoch-Found E epoch ord v))
          (λ r f. data_found-Ends X ps level ord r.0 r.1 total))
  ]

module _ {U E D : Type 0} ⦃i : UnitInterface U⦄ (parts : EpochInterface U E D) where
  insert_in-IsStarted :
      (X : Type 0) (u : U) (w : Option Which) (ord : Orderer D)
      → ((d : D) → Ends X (parts.insert_unit u d) (λ _. Unit {0}))
      → IsStarted ord
      → Ends X (insert_in parts u (w, ord)) IsStarted
  insert_in-IsStarted X u none ord total v = v
  insert_in-IsStarted X u (some w) ord total v =
      update_parts-IsStarted parts X w (parts.insert_unit u) ord (read w ord) total refl v

  insert_found-IsStarted :
      (X : Type 0) (u : U) (ord : Orderer D) (w : Option Which) (newer : Bool)
      → ((d : D) → Ends X (parts.insert_unit u d) (λ _. Unit {0}))
      → IsStarted ord
      → SaysNewer (epoch_id u) ord.current newer
      → Ends X (insert_found parts u ord (w, newer)) IsStarted
  insert_found-IsStarted X u ord w false total v n = insert_in-IsStarted X u w ord total v
  insert_found-IsStarted X u ord w true total v n =
      rw (new_epoch-newer parts (epoch_id u) ord v n) (
        insert_in-IsStarted X u (some latest) (push_epoch parts (epoch_id u) ord) total
          (push_epoch-IsStarted parts (epoch_id u) ord.current ord.previous v n))

  pub insert-IsStarted :
      (X : Type 0) (pid : ℕ) (u : U) (ord : Orderer D)
      → ((d : D) → Ends X (parts.insert_unit u d) (λ _. Unit {0}))
      → IsStarted ord
      → Ends X (insert parts pid u ord) IsStarted
  unfolding insert
  insert-IsStarted X pid u ord total v = elim (Bool-cases (creator u == pid)) [
    | inr foreign ↦ rw foreign v
    | inl own ↦ rw own (
        ends_bind X (get_epoch (epoch_id u) ord) _ (Found (epoch_id u) ord.current ord.previous) _
          (returns_ends X (get_epoch (epoch_id u) ord) _ (get_epoch-Found E (epoch_id u) ord v))
          (λ r f. insert_found-IsStarted X u ord r.0 r.1 total v f.1))
  ]
