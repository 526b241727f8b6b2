-- ===== src/Tests/Wire.antt =====
-- pkg/encoding and the identifiers of pkg/gomel at concrete inputs.
use consensus_go.Base.{
  Bool, ltb, ◌&&◌, ◌-◌, ℕ, ◌↔◌, ap, ==_iff, ==_refl, ◌^◌, ◌≡◌, ◌<◌, refl, true, List, [], ◌∷◌, ◌++◌,
  none, some, arith, length, length-replicate, replicate, All,
}
use consensus_go.Base.Int.{pos, negsuc}
use consensus_go.Base.Outcome.{ok, panic}
use consensus_go.Gomel.Hash.{Hash}
use consensus_go.Tests.Briefs.{brief, brief_unit}
use consensus_go.Gomel.Preunit.{Crown, Preunit, compute_hash, unit_id, put_uint}
use consensus_go.Encoding.Chunk.{sort_chunk}
use consensus_go.Encoding.Cells.{sort_chunk-perm, sort_chunk_endless}
use consensus_go.Tests.Samples.{
  Sample, first_dealing, second_prime, third_prime, number, sample_unit, sample_hash-injective,
}
use mathlib.Core.List.{Perm}
use consensus_go.Encoding.Wire.{IsByte}
use consensus_go.Encoding.Encoder.{crown_data, encode_to_bytes, write_dag_infos, buffer_write}
use consensus_go.Encoding.Decoder.{decode_preunit, read_dag_infos}
use consensus_go.Encoding.Crowns.{crown_data_panics}
use consensus_go.Encoding.Units.{
  IsFramed, IsWireUnit, unit_bytes, decode_preunit-unit_bytes, decode_preunit-encode_to_bytes,
  decode_preunit_panics,
}
use consensus_go.Encoding.Canonical.{IsDecoded, decode_preunit-IsDecoded}
use consensus_go.Encoding.Infos.{read_dag_infos-write_dag_infos}

-- A stand-in for the hash function.
abbrev zeros : List ℕ → Hash
zeros bs = replicate 32 0

-- The second unit of the second of three processes.
abbrev sample : Preunit
sample = record {
  creator = 1;
  epoch_id = 7;
  height = 1;
  signature = replicate 64 5;
  hash = replicate 32 0;
  crown = record { heights = pos 2 ∷ (pos 0 ∷ (negsuc 0 ∷ [])); control_hash = replicate 32 9 };
  payload = 1 ∷ (2 ∷ (3 ∷ []));
  rs_payload = 4 ∷ [];
}

framed :
    (u : Preunit)
    → length u.signature ≡ 64
    → u.height < 10
    → u.creator < 10
    → u.epoch_id < 10
    → u.crown ≡ sample.crown
    → length u.payload < 10
    → length u.rs_payload < 10
    → IsFramed u
framed u s h c e k p r = record {
  height_fits_id = omega arith;
  creator_fits_id = omega arith;
  epoch_fits_id = omega arith;
  signed = s;
  crown_fits = rw k (record {
    few = omega arith;
    heights_fit = (omega arith, (omega arith, (refl, tt)));
    hash_fits = refl;
  });
  payload_fits = omega arith;
  rs_payload_fits = omega arith;
}

sample-IsFramed : IsFramed sample
sample-IsFramed =
    framed sample refl (omega arith) (omega arith) (omega arith) refl (omega arith) (omega arith)

sample-IsWireUnit : IsWireUnit zeros sample
unfolding compute_hash
sample-IsWireUnit = record { framed = sample-IsFramed; consistent = refl; hashed = refl }

decode_preunit-encode_to_bytes_example :
    (bs : List ℕ) × (encode_to_bytes (some sample) ≡ ok bs)
    × (decode_preunit zeros (bs ++ (8 ∷ [])) ≡ ok (some sample, 8 ∷ []))
decode_preunit-encode_to_bytes_example =
    decode_preunit-encode_to_bytes zeros sample (8 ∷ []) sample-IsWireUnit

-- The sample with a height that its crown does not allow.
abbrev high : Preunit
high = record sample { height = 5 }

high-IsFramed : IsFramed high
high-IsFramed =
    framed high refl (omega arith) (omega arith) (omega arith) refl (omega arith) (omega arith)

decode_preunit_panics_example : decode_preunit zeros (unit_bytes high ++ []) ≡ panic
decode_preunit_panics_example = decode_preunit_panics zeros high [] high-IsFramed refl

abbrev all_bytes : List ℕ → Bool
all_bytes [] = true
all_bytes (b ∷ bs) = ltb b 256 && all_bytes bs

all_bytes-IsByte : (bs : List ℕ) → all_bytes bs ≡ true → All IsByte bs
all_bytes-IsByte [] h = tt
all_bytes-IsByte (b ∷ bs) h = (ground (arith, h), all_bytes-IsByte bs (ground (arith, h)))

sample-IsByte : all_bytes (unit_bytes sample ++ (6 ∷ [])) ≡ true
unfolding unit_bytes unit_id put_uint consensus_go.Gomel.Id.id
    consensus_go.Encoding.Crowns.crown_bytes consensus_go.Gomel.Preunit.height_bytes
    consensus_go.Gomel.Preunit.height_code consensus_go.Encoding.Units.block_bytes
sample-IsByte = refl

decode_preunit-IsDecoded_example :
    IsDecoded zeros (unit_bytes sample ++ (6 ∷ [])) (some sample, 6 ∷ [])
decode_preunit-IsDecoded_example =
    decode_preunit-IsDecoded zeros (unit_bytes sample ++ (6 ∷ [])) (some sample, 6 ∷ [])
      (all_bytes-IsByte _ sample-IsByte)
      (decode_preunit-unit_bytes zeros sample (6 ∷ []) sample-IsWireUnit)

read_dag_infos-write_dag_infos_example :
    (bs : List ℕ) × (write_dag_infos buffer_write
        (some (record { epoch = 3; heights = pos 4 ∷ (negsuc 0 ∷ []) }))
        none
        []
      ≡ ok bs)
    × (read_dag_infos (bs ++ (6 ∷ []))
        ≡ ok ((some (record { epoch = 3; heights = pos 4 ∷ (negsuc 0 ∷ []) }), none), 6 ∷ []))
read_dag_infos-write_dag_infos_example =
    read_dag_infos-write_dag_infos (some (record { epoch = 3; heights = pos 4 ∷ (negsuc 0 ∷ []) }))
      none (6 ∷ []) (omega arith, omega arith, (omega arith, (refl, tt))) tt

-- A crown for 20000 processes.
abbrev many : Crown
many = record { heights = replicate 20_000 (negsuc 0); control_hash = replicate 32 0 }

crown_data_panics_example : crown_data many ≡ panic
crown_data_panics_example =
    crown_data_panics many (omega (arith, length-replicate 20_000 (negsuc 0)))

same_iff : (u v : Sample) → (sample_unit.same u v ≡ true) ↔ (u ≡ v)
same_iff u v = (
  λ e. sample_hash-injective u v (ap (λ n. n ∷ []) ((==_iff (number u) (number v)).0 e)),
  λ e. rw e (==_refl (number v)),
)

sort_chunk-perm_example :
    (xs : List Sample) × (sort_chunk
        (2 ^ 32)
        4
        (third_prime ∷ (first_dealing ∷ (second_prime ∷ [])))
      ≡ some xs)
    × Perm xs (third_prime ∷ (first_dealing ∷ (second_prime ∷ [])))
sort_chunk-perm_example =
    sort_chunk-perm (2 ^ 32) 3 (third_prime ∷ (first_dealing ∷ (second_prime ∷ []))) same_iff
      (omega arith, (omega arith, (omega arith, tt))) (omega arith)

-- Of the last epoch that a uint32 can name.
sort_chunk_endless_example : sort_chunk 3 2 (brief 0 (2 ^ 32 - 1) 0 ∷ brief 1 7 0 ∷ []) ≡ none
sort_chunk_endless_example =
    sort_chunk_endless 3 2 (brief 0 (2 ^ 32 - 1) 0) (brief 1 7 0 ∷ []) refl (omega arith, tt)
