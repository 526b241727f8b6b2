-- ===== src/Encoding/Decoder.antt =====
-- pkg/encoding/decoder.go. An io.Reader is the list of bytes that it still has to give.
use consensus_go.Base.{ℕ, zero, suc, List, [], ◌∷◌, Option, none, some, ltb, ◌==◌, if◌then◌else◌}
use consensus_go.Base.Int.{ℤ, pos, negsuc}
use consensus_go.Base.Outcome.{Outcome, ok, err, ◌>>=◌}
use consensus_go.Gomel.Hash.{Hash}
use consensus_go.Gomel.Preunit.{Preunit, Crown, new_preunit, max_u32}
use consensus_go.Encoding.Wire.{
  Error, read_full, uint, too_many_units, payload_too_large, rs_payload_too_large,
}
use consensus_go.Encoding.Encoder.{DagInfo, max_units_in_chunk, max_u64}

abbrev pub max_data_bytes_per_unit : ℕ
max_data_bytes_per_unit = 2_000_000

abbrev pub max_rs_data_bytes_per_unit : ℕ
max_rs_data_bytes_per_unit = 1_000_000

-- A decoder returns what it read and the rest of the stream.
abbrev pub Read : Type 0 → Type 0
Read A = Outcome Error (A × List ℕ)

unfoldable pub read_height : ℕ → ℤ
read_height code = if code == max_u32 then negsuc 0 else pos code

unfoldable pub decode_heights : ℕ → List ℕ → Read (List ℤ)
decode_heights zero src = ok ([], src)
decode_heights (suc n) src = do
  (buf, src₁) ← read_full 4 src
  (hs, src₂) ← decode_heights n src₁
  ok (read_height (uint buf) ∷ hs, src₂)

unfoldable pub decode_crown : List ℕ → Read Crown
decode_crown src = do
  (buf, src₁) ← read_full 2 src
  (hs, src₂) ← decode_heights (uint buf) src₁
  (control_hash, src₃) ← read_full 32 src₂
  ok (record { heights = hs; control_hash = control_hash }, src₃)

unfoldable pub decode_dag_info : List ℕ → Read (Option DagInfo)
decode_dag_info src = do
  (buf, src₁) ← read_full 4 src
  if uint buf == max_u32 then ok (none, src₁) else (do
    (buf₂, src₂) ← read_full 2 src₁
    (hs, src₃) ← decode_heights (uint buf₂) src₂
    ok (some (record { epoch = uint buf; heights = hs }), src₃))

-- A length of four bytes, within a limit, and as many bytes.
unfoldable pub decode_block : ℕ → Error → List ℕ → Read (List ℕ)
decode_block limit too_large src = do
  (buf, src₁) ← read_full 4 src
  if ltb limit (uint buf) then err too_large else read_full (uint buf) src₁

-- sha3.ShakeSum128 is the argument `shake` of the computation of the hash.
module _ (shake : List ℕ → Hash) where
  unfoldable pub decode_preunit_body : ℕ → List ℕ → Read (Option Preunit)
  decode_preunit_body n src = do
    (signature, src₁) ← read_full 64 src
    (crown, src₂) ← decode_crown src₁
    (payload, src₃) ← decode_block max_data_bytes_per_unit payload_too_large src₂
    (rs_payload, src₄) ← decode_block max_rs_data_bytes_per_unit rs_payload_too_large src₃
    u ← new_preunit shake n crown payload rs_payload signature
    ok (some u, src₄)

  unfoldable pub decode_preunit : List ℕ → Read (Option Preunit)
  decode_preunit src = do
    (buf, src₁) ← read_full 8 src
    if uint buf == max_u64 then ok (none, src₁) else decode_preunit_body (uint buf) src₁

  unfoldable pub decode_preunits : ℕ → List ℕ → Read (List (Option Preunit))
  decode_preunits zero src = ok ([], src)
  decode_preunits (suc n) src = do
    (u, src₁) ← decode_preunit src
    (us, src₂) ← decode_preunits n src₁
    ok (u ∷ us, src₂)

  unfoldable pub decode_chunk : List ℕ → Read (List (Option Preunit))
  decode_chunk src = do
    (buf, src₁) ← read_full 4 src
    if ltb max_units_in_chunk (uint buf)
        then err too_many_units
        else decode_preunits (uint buf) src₁

-- ReadDagInfos.
unfoldable pub read_dag_infos : List ℕ → Read (Option DagInfo × Option DagInfo)
read_dag_infos src = do
  (a, src₁) ← decode_dag_info src
  (b, src₂) ← decode_dag_info src₁
  ok ((a, b), src₂)
