-- ===== src/Tests/Sharing.antt =====
-- The theorems on epoch proofs with a small threshold key.
use consensus_go.Base.{
  ℕ, ◌≡◌, ◌↔◌, refl, true, List, [], ◌∷◌, ◌++◌, Option, none, some, arith, length, leb, replicate,
  All,
}
use consensus_go.Base.Int.{pos, negsuc}
use consensus_go.Base.Outcome.{ok, panic}
use consensus_go.Gomel.Id.{decode_id}
use consensus_go.Gomel.Preunit.{Preunit, dealing}
use consensus_go.Encoding.Wire.{uint}
use consensus_go.Creator.Proofs.{
  ThresholdKey, decode_proof, encode_proof, decode_share, encode_signature, add_share, try_building,
  epoch_proof,
}
use consensus_go.Creator.Shares.{
  decode_proof-encode_proof, AreGenuine, IsPanic, try_building-epoch_proof, try_building_panics,
}

abbrev first_byte : List ℕ → Option ℕ
first_byte [] = none
first_byte (b ∷ bs) = some b

-- Shares and signatures are numbers, which are good for messages that are as long; the first share is the
-- signature.
abbrev pub number_key : ThresholdKey ℕ ℕ
number_key = record {
  marshal_share = λ s. s ∷ [];
  unmarshal_share = first_byte;
  marshal_signature = λ g. g ∷ [];
  unmarshal_signature = first_byte;
  owner = λ s. s;
  threshold = 1;
  create_share = λ msg. some 5;
  verify_share = λ s msg. leb s (length msg);
  combine_shares = first_byte;
  verify_signature = λ g msg. leb g (length msg);
}

first_byte-verify :
    (m shares : List ℕ) (g : ℕ)
    → All (λ s. leb s (length m) ≡ true) shares
    → first_byte shares ≡ some g
    → leb g (length m) ≡ true
first_byte-verify m [] g v e = absurd (ground (arith, e))
first_byte-verify m (s ∷ ss) g (w, v) e = ground (arith, e, w)

abbrev finishing_data : List ℕ
finishing_data = replicate 40 0 ++ (5 ∷ [])

-- The dealing unit of epoch 1 that carries the proof.
abbrev next_dealing : Preunit
next_dealing = record {
  creator = 0;
  epoch_id = 1;
  height = 0;
  signature = [];
  hash = replicate 32 1;
  crown = record { heights = negsuc 0 ∷ []; control_hash = [] };
  payload = finishing_data;
  rs_payload = [];
}

decode_proof-encode_proof_example :
    decode_proof (encode_proof next_dealing) ≡ (pos 0, 0, 1, some (replicate 32 1))
decode_proof-encode_proof_example =
    decode_proof-encode_proof next_dealing (omega arith) (omega arith) (omega arith) refl

try_building-epoch_proof_example :
    (epoch_proof number_key next_dealing true ≡ ok true)
    × AreGenuine number_key ((replicate 40 0, (5, 5) ∷ []) ∷ [])
unfolding try_building decode_share encode_signature add_share decode_proof dealing decode_id uint
try_building-epoch_proof_example =
    try_building-epoch_proof number_key 3 3 finishing_data finishing_data []
      ((replicate 40 0, (5, 5) ∷ []) ∷ []) next_dealing
      (λ m shares g v d l e. first_byte-verify m shares g v e) (λ g. refl) tt refl refl refl refl

try_building_panics_example :
    (try_building number_key 3 3 (7 ∷ []) [] ≡ panic) ↔ IsPanic number_key 3 3 (7 ∷ [])
try_building_panics_example = try_building_panics number_key 3 3 (7 ∷ []) []
