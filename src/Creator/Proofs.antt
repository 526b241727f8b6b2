-- ===== src/Creator/Proofs.antt =====
-- pkg/creator/proofs.go: the proofs that an epoch ended, and the shares they are built from.
use consensus_go.Base.{
  ℕ, ◌+◌, ◌%◌, ◌^◌, Bool, true, false, not, ◌||◌, List, [], ◌∷◌, ◌++◌, map, Option, none, some, ltb,
  leb, ◌==◌, if◌then◌else◌, length, is_empty, take, drop,
}
use consensus_go.Base.Int.{ℤ, pos, negsuc}
use consensus_go.Base.Outcome.{Outcome, ok, err, panic}
use consensus_go.Gomel.Hash.{Hash, hash_length, hash_eq}
use consensus_go.Gomel.Id.{decode_id}
use consensus_go.Gomel.Preunit.{Preunit, unit_id, put_uint, dealing}
use consensus_go.Encoding.Wire.{uint}

-- What the package uses of the threshold signatures of core-go: a key that all processes share (`S` are its
-- shares and `G` its signatures), and the wire form of both.
pub record ThresholdKey (S G : Type 0) : Type 0 where
  pub marshal_share : S → List ℕ
  pub unmarshal_share : List ℕ → Option S
  pub marshal_signature : G → List ℕ
  pub unmarshal_signature : List ℕ → Option G
  pub owner : S → ℕ
  pub threshold : ℕ
  pub create_share : List ℕ → Option S
  pub verify_share : S → List ℕ → Bool
  pub combine_shares : List S → Option G
  pub verify_signature : G → List ℕ → Bool

abbrev pub proof_length : ℕ
proof_length = hash_length + 8

pub data ProofError : Type 0 where
  malformed : ProofError

unfoldable pub encode_proof : Preunit → List ℕ
encode_proof u = put_uint 8 (unit_id u) ++ u.hash

abbrev pub located : ℕ × ℕ × ℕ → Hash → ℤ × ℕ × ℕ × Option Hash
located (height, creator, epoch) hash = (pos height, creator, epoch, some hash)

unfoldable pub decode_proof : List ℕ → ℤ × ℕ × ℕ × Option Hash
decode_proof msg =
    if length msg == proof_length
    then located (decode_id (uint (take 8 msg))) (drop 8 msg)
    else (negsuc 0, 0, 0, none)

-- The epoch that a proof names.
abbrev pub proof_epoch : ℤ × ℕ × ℕ × Option Hash → ℕ
proof_epoch (height, creator, epoch, hash) = epoch

-- data[proofLength:] panics on data that is shorter.
abbrev pub decode_with :
    {A : Type 0} → (List ℕ → Option A) → List ℕ → Option A → Outcome ProofError (A × List ℕ)
decode_with unmarshal bs none = err malformed
decode_with unmarshal bs (some a) = ok (a, take proof_length bs)

module _ {S G : Type 0} (key : ThresholdKey S G) where
  unfoldable pub encode_share : S → List ℕ → List ℕ
  encode_share share msg = msg ++ key.marshal_share share

  unfoldable pub decode_share : List ℕ → Outcome ProofError (S × List ℕ)
  decode_share bs =
      if ltb (length bs) proof_length
      then panic
      else decode_with key.unmarshal_share bs (key.unmarshal_share (drop proof_length bs))

  unfoldable pub encode_signature : G → List ℕ → List ℕ
  encode_signature sig msg = msg ++ key.marshal_signature sig

  unfoldable pub decode_signature : List ℕ → Outcome ProofError (G × List ℕ)
  decode_signature bs =
      if ltb (length bs) proof_length
      then panic
      else decode_with key.unmarshal_signature bs (key.unmarshal_signature (drop proof_length bs))

  abbrev pub proves : Preunit → Outcome ProofError (G × List ℕ) → Outcome ProofError Bool
  proves pu panic = panic
  proves pu (err e) = ok false
  proves pu (ok (sig, msg)) = ok (
      if (proof_epoch (decode_proof msg) + 1) % 2 ^ 32 == pu.epoch_id
      then key.verify_signature sig msg
      else false)

  -- EpochProof, with the key or without one.
  unfoldable pub epoch_proof : Preunit → Bool → Outcome ProofError Bool
  epoch_proof pu has_key =
      if not (dealing pu) || not has_key
      then ok false
      else if pu.epoch_id == 0
      then ok true
      else proves pu (decode_signature pu.payload)

  -- The shares that sign one message, by owner, and these by message. Go ranges over a map of shares in any
  -- order; here it is the order in which their owners came.
  abbrev pub put_share : S → List (ℕ × S) → List (ℕ × S)
  put_share share [] = (key.owner share, share) ∷ []
  put_share share ((o, s) ∷ ss) =
      if o == key.owner share then (o, share) ∷ ss else (o, s) ∷ put_share share ss

  abbrev pub shares_of : List ℕ → List (List ℕ × List (ℕ × S)) → List (ℕ × S)
  shares_of msg [] = []
  shares_of msg ((m, ss) ∷ db) = if hash_eq m msg then ss else shares_of msg db

  abbrev pub store_shares :
      List ℕ → List (ℕ × S) → List (List ℕ × List (ℕ × S)) → List (List ℕ × List (ℕ × S))
  store_shares msg new [] = (msg, new) ∷ []
  store_shares msg new ((m, ss) ∷ db) =
      if hash_eq m msg then (m, new) ∷ db else (m, ss) ∷ store_shares msg new db

  -- The part of Add after the share is stored.
  abbrev pub combine_if_enough : List (ℕ × S) → Option G
  combine_if_enough ss =
      if leb key.threshold (length ss) then key.combine_shares (map (λ p. p.1) ss) else none

  -- shareDB.Add
  unfoldable pub add_share :
      S → List ℕ → List (List ℕ × List (ℕ × S)) → Option G × List (List ℕ × List (ℕ × S))
  add_share share msg db =
      let ss = put_share share (shares_of msg db) in (combine_if_enough ss, store_shares msg ss db)

  abbrev pub encode_built :
      List ℕ
      → Option G × List (List ℕ × List (ℕ × S))
      → Option (List ℕ) × List (List ℕ × List (ℕ × S))
  encode_built msg (none, db) = (none, db)
  encode_built msg (some sig, db) = (some (encode_signature sig msg), db)

  -- A share that does not verify is reported by err.Error(), where err is nil: a panic.
  abbrev pub try_share :
      List (List ℕ × List (ℕ × S))
      → Outcome ProofError (S × List ℕ)
      → Outcome ProofError (Option (List ℕ) × List (List ℕ × List (ℕ × S)))
  try_share db panic = panic
  try_share db (err e) = ok (none, db)
  try_share db (ok (share, msg)) =
      if key.verify_share share msg then ok (encode_built msg (add_share share msg db)) else panic

  -- TryBuilding; `first_finishing` is OrderStartLevel + EpochLength.
  unfoldable pub try_building :
      ℕ
      → ℕ
      → List ℕ
      → List (List ℕ × List (ℕ × S))
      → Outcome ProofError (Option (List ℕ) × List (List ℕ × List (ℕ × S)))
  try_building first_finishing level payload db =
      if ltb level first_finishing || is_empty payload
      then ok (none, db)
      else try_share db (decode_share payload)

  abbrev pub share_data : List ℕ → Option S → List ℕ
  share_data msg none = []
  share_data msg (some share) = encode_share share msg

  unfoldable pub build_share : Preunit → List ℕ
  build_share timing_unit =
      share_data (encode_proof timing_unit) (key.create_share (encode_proof timing_unit))

  -- Verify of the proof builder for `epoch`.
  unfoldable pub verify : ℕ → Preunit → Bool → Outcome ProofError Bool
  verify epoch pu has_key =
      if (epoch + 1) % 2 ^ 32 == pu.epoch_id then epoch_proof pu has_key else ok false
