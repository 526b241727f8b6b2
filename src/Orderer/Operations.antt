-- ===== src/Orderer/Operations.antt =====
-- pkg/orderer/orderer.go and pkg/gomel/daginfo.go: what the other parts ask of the orderer.
use consensus_go.Base.{
  ℕ, zero, suc, ◌+◌, Bool, true, false, ◌&&◌, List, [], ◌∷◌, ◌++◌, map, Option, none, some, ltb,
  ◌==◌, if◌then◌else◌, length, take, drop, replicate,
}
use consensus_go.Base.Outcome.{Outcome, ok, err, panic, ◌>>=◌}
use consensus_go.Gomel.Hash.{Hash}
use consensus_go.Gomel.Id.{decode_id}
use consensus_go.Gomel.Preunit.{Preunit}
use consensus_go.Gomel.Unit.{UnitInterface, creator, epoch_id}
use consensus_go.Dag.Slots.{Slotted}
use consensus_go.Dag.View.{max_heights}
use consensus_go.Encoding.Encoder.{DagInfo}
use consensus_go.Orderer.State.{
  EpochInterface, Epoch, Orderer, Which, wants_more_units, no_more_units, read, write, get_epoch,
  new_epoch,
}

-- The inner loop of AddPreunits: how many preunits at the front are of the epoch.
abbrev pub run_length : ℕ → List Preunit → ℕ
run_length epoch [] = 0
run_length epoch (pu ∷ pus) = if pu.epoch_id == epoch then suc (run_length epoch pus) else 0

-- copy(errors[processed:], errs), and the whole slice; a slice is nil or as long as the preunits.
abbrev pub or_all : {A : Type 0} → ℕ → List (Option A) → List (Option A)
or_all n [] = replicate n none
or_all n (e ∷ es) = e ∷ es

abbrev pub copy_over : {A : Type 0} → List A → List A → List A
copy_over [] es = []
copy_over (x ∷ xs) [] = x ∷ xs
copy_over (x ∷ xs) (e ∷ es) = e ∷ copy_over xs es

module _ {U E D : Type 0} (parts : EpochInterface U E D) where
  -- A method of an epoch that may be nil.
  abbrev pub update_parts :
      Which → Option (Epoch D) → (D → Outcome E D) → Orderer D → Outcome E (Orderer D)
  update_parts w none f ord = ok ord
  update_parts w (some ep) f ord = f ep.parts >>= λ d. ok (write w (record ep { parts = d }) ord)

  abbrev pub retrieve_newer :
      Preunit → ℕ → Orderer D → Option Which → Bool → Outcome E (Option Which × Orderer D)
  retrieve_newer pu source ord w true = new_epoch parts pu.epoch_id ord
  retrieve_newer pu source ord w false =
      ok (w, record ord { gossip_requests = source ∷ ord.gossip_requests })

  -- What retrieveEpoch does for a preunit of a future epoch. `epoch_proof` is creator.EpochProof with the key, which
  -- panics on a dealing preunit with data that is too short.
  abbrev pub retrieve_from :
      (Preunit → Outcome E Bool)
      → Preunit
      → ℕ
      → Orderer D
      → Option Which × Bool
      → Outcome E (Option Which × Orderer D)
  retrieve_from epoch_proof pu source ord (w, false) = ok (w, ord)
  retrieve_from epoch_proof pu source ord (w, true) =
      epoch_proof pu >>= λ proved. retrieve_newer pu source ord w proved

  unfoldable pub retrieve_epoch :
      (Preunit → Outcome E Bool) → Preunit → ℕ → Orderer D → Outcome E (Option Which × Orderer D)
  retrieve_epoch epoch_proof pu source ord =
      get_epoch pu.epoch_id ord >>= λ found. retrieve_from epoch_proof pu source ord found

  abbrev pub add_in :
      Which
      → ℕ
      → List Preunit
      → Orderer D
      → Option (Epoch D)
      → Outcome E (Option (List (Option E)) × Orderer D)
  add_in w source pus ord none = ok (none, ord)
  add_in w source pus ord (some ep) = parts.add_to_adder source pus ep.parts >>= λ r.
      ok (some r.1, write w (record ep { parts = r.0 }) ord)

  -- The errors of the adder of the epoch, if there is one.
  abbrev pub add_run :
      ℕ → List Preunit → Option Which × Orderer D → Outcome E (Option (List (Option E)) × Orderer D)
  add_run source pus (none, ord) = ok (none, ord)
  add_run source pus (some w, ord) = add_in w source pus ord (read w ord)

  -- The errors of a run, put to their places among those of all preunits.
  abbrev pub put_errors : ℕ → ℕ → Option (List (Option E)) → List (Option E) → List (Option E)
  put_errors size processed none errors = errors
  put_errors size processed (some errs) errors =
      take processed (or_all size errors) ++ copy_over (drop processed (or_all size errors)) errs

  -- The loop of AddPreunits, with fuel for the runs of preunits of one epoch.
  unfoldable pub add_runs :
      (Preunit → Outcome E Bool)
      → ℕ
      → ℕ
      → ℕ
      → ℕ
      → List Preunit
      → List (Option E)
      → Orderer D
      → Outcome E (List (Option E) × Orderer D)
  add_runs epoch_proof source size zero processed pus errors ord = ok (errors, ord)
  add_runs epoch_proof source size (suc fuel) processed [] errors ord = ok (errors, ord)
  add_runs epoch_proof source size (suc fuel) processed (pu ∷ pus) errors ord =
      let end = run_length pu.epoch_id (pu ∷ pus) in
      retrieve_epoch epoch_proof pu source ord >>= λ found.
      add_run source (take end (pu ∷ pus)) found >>= λ (errs, ord').
      add_runs epoch_proof source size fuel (processed + end) (drop end (pu ∷ pus))
        (put_errors size processed errs errors) ord'

  unfoldable pub add_preunits :
      (Preunit → Outcome E Bool)
      → ℕ
      → List Preunit
      → Orderer D
      → Outcome E (List (Option E) × Orderer D)
  add_preunits epoch_proof source pus ord =
      add_runs epoch_proof source (length pus) (length pus) 0 pus [] ord

  abbrev pub id_in : ℕ → Option (Epoch D) → List U
  id_in id none = []
  id_in id (some ep) = parts.units_by_id ep.parts id

  abbrev pub id_found : ℕ → Orderer D → Option Which × Bool → List U
  id_found id ord (none, newer) = []
  id_found id ord (some w, newer) = id_in id (read w ord)

  unfoldable pub units_by_id : List ℕ → Orderer D → Outcome E (List U)
  units_by_id [] ord = ok []
  units_by_id (id ∷ ids) ord =
      let rest = units_by_id ids ord in
      get_epoch (decode_id id).2 ord >>= λ found. rest >>= λ us. ok (id_found id ord found ++ us)

  abbrev pub hash_in : Hash → Option (Epoch D) → Option U
  hash_in h none = none
  hash_in h (some ep) = parts.unit_by_hash ep.parts h

  abbrev pub or_else : Option U → Option U → Option U
  or_else (some u) other = some u
  or_else none other = other

  unfoldable pub units_by_hash : List Hash → Orderer D → List (Option U)
  units_by_hash hashes ord =
      map (λ h. or_else (hash_in h ord.current) (hash_in h ord.previous)) hashes

  abbrev pub maximal_in : Option (Epoch D) → Option (Slotted U)
  maximal_in none = none
  maximal_in (some ep) = some (parts.maximal ep.parts)

  abbrev pub maximal_found : Orderer D → Option Which × Bool → Option (Slotted U)
  maximal_found ord (none, newer) = none
  maximal_found ord (some w, newer) = maximal_in (read w ord)

  unfoldable pub max_units : ℕ → Orderer D → Outcome E (Option (Slotted U))
  max_units epoch ord = get_epoch epoch ord >>= λ found. ok (maximal_found ord found)

  abbrev pub finish_in : Which → Orderer D → Option (Epoch D) → Outcome E (Orderer D)
  finish_in w ord none = ok ord
  finish_in w ord (some ep) = no_more_units ep >>= λ ep'. ok (write w ep' ord)

  abbrev pub finish_found : Orderer D → Option Which × Bool → Outcome E (Orderer D)
  finish_found ord (none, newer) = ok ord
  finish_found ord (some w, newer) = finish_in w ord (read w ord)

  unfoldable pub finish_epoch : ℕ → Orderer D → Outcome E (Orderer D)
  finish_epoch epoch ord = get_epoch epoch ord >>= λ found. finish_found ord found

  abbrev pub delta_in : Option DagInfo → Option (Epoch D) → Outcome E (List U)
  delta_in none ep = ok []
  delta_in (some info) none = ok []
  delta_in (some info) (some ep) =
      if info.epoch == ep.id then parts.units_over ep.parts (some info.heights) else ok []

  abbrev pub is_before : Option DagInfo → ℕ → Bool
  is_before none epoch = false
  is_before (some info) epoch = ltb info.epoch epoch

  abbrev pub all_in : Option DagInfo → Option DagInfo → Option (Epoch D) → Outcome E (List U)
  all_in first second none = ok []
  all_in first second (some ep) =
      if is_before first ep.id && is_before second ep.id
      then parts.units_over ep.parts none
      else ok []

  unfoldable pub delta : Option DagInfo → Option DagInfo → Orderer D → Outcome E (List U)
  delta first second ord = delta_in first ord.previous >>= λ a. delta_in first ord.current >>= λ b.
      delta_in second ord.previous >>= λ c. delta_in second ord.current >>= λ d.
      all_in first second ord.current >>= λ e. ok (a ++ (b ++ (c ++ (d ++ e))))

  abbrev pub or_empty : Option (List ℕ) → List ℕ
  or_empty none = []
  or_empty (some bs) = bs

  -- An error of the random source is logged, and no data are answered.
  abbrev pub data_or_empty : Outcome E (List ℕ) → Outcome E (List ℕ)
  data_or_empty panic = panic
  data_or_empty (err e) = ok []
  data_or_empty (ok bs) = ok bs

  abbrev pub data_in : List (Option U) → ℕ → Option (Epoch D) → Outcome E (List ℕ)
  data_in ps level none = ok []
  data_in ps level (some ep) = data_or_empty (parts.data_to_include ep.parts ps level)

  abbrev pub data_found : List (Option U) → ℕ → Orderer D → Option Which × Bool → Outcome E (List ℕ)
  data_found ps level ord (none, newer) = ok []
  data_found ps level ord (some w, newer) = data_in ps level (read w ord)

  -- rsData; `dealing_data` is the factory's DealingData.
  unfoldable pub rs_data :
      (ℕ → Option (List ℕ)) → ℕ → List (Option U) → ℕ → Orderer D → Outcome E (List ℕ)
  rs_data dealing_data level ps epoch ord =
      if level == 0
      then ok (or_empty (dealing_data epoch))
      else (get_epoch epoch ord >>= λ found. data_found ps level ord found)

module _ {U E D : Type 0} ⦃i : UnitInterface U⦄ (parts : EpochInterface U E D) where
  abbrev pub insert_in : U → Option Which × Orderer D → Outcome E (Orderer D)
  insert_in u (none, ord) = ok ord
  insert_in u (some w, ord) = update_parts parts w (read w ord) (parts.insert_unit u) ord

  abbrev pub insert_found : U → Orderer D → Option Which × Bool → Outcome E (Orderer D)
  insert_found u ord (w, true) = new_epoch parts (epoch_id u) ord >>= λ made. insert_in u made
  insert_found u ord (w, false) = insert_in u (w, ord)

  -- insert, for the process `pid`.
  unfoldable pub insert : ℕ → U → Orderer D → Outcome E (Orderer D)
  insert pid u ord =
      if creator u == pid
      then (get_epoch (epoch_id u) ord >>= λ found. insert_found u ord found)
      else ok ord

  unfoldable pub max_view : Epoch D → DagInfo
  max_view ep = record { epoch = ep.id; heights = max_heights (parts.maximal ep.parts) }

  abbrev pub info_of : Option (Epoch D) → Option DagInfo
  info_of none = none
  info_of (some ep) = if wants_more_units ep then none else some (max_view ep)

  unfoldable pub get_info : Orderer D → Option DagInfo × Option DagInfo
  get_info ord = (info_of ord.previous, info_of ord.current)
