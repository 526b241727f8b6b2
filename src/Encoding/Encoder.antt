-- ===== src/Encoding/Encoder.antt =====
-- pkg/encoding/encoder.go. An io.Writer is a state `W` with a Write that may fail.
use consensus_go.Base.{
  ℕ, ◌+◌, ◌*◌, ◌-◌, ◌%◌, ◌^◌, List, [], ◌∷◌, ◌++◌, Option, none, some, ltb, if◌then◌else◌, length,
  replicate, take, map,
}
use consensus_go.Base.Int.{ℤ}
use consensus_go.Base.Outcome.{Outcome, ok, err, ◌>>=◌}
use consensus_go.Gomel.Preunit.{Preunit, Crown, put_uint, height_code, unit_id, max_u32}
use consensus_go.Gomel.Unit.{UnitInterface}
use consensus_go.Encoding.Chunk.{sort_chunk}
use consensus_go.Encoding.Wire.{Error, fill, too_many_units}

abbrev pub max_units_in_chunk : ℕ
max_units_in_chunk = 1_000_000

abbrev pub max_u64 : ℕ
max_u64 = 2 ^ 64 - 1

pub record DagInfo : Type 0 where
  pub epoch : ℕ
  pub heights : List ℤ

abbrev pub height_fields : List ℤ → List (List ℕ)
height_fields = map λ h. put_uint 4 (height_code h)

-- `copy` of a slice into a zeroed array of `n` bytes.
abbrev pub copy_into : ℕ → List ℕ → List ℕ
copy_into n bs = take n bs ++ replicate (n - length bs) 0

-- The size is computed in uint16: `2 + nParents*4 + 32`.
unfoldable pub crown_data : Crown → Outcome Error (List ℕ)
crown_data c =
    let n = length c.heights % 2 ^ 16 in
    fill ((2 + n * 4 + 32) % 2 ^ 16)
      (put_uint 2 n ∷ (height_fields c.heights ++ (copy_into 32 c.control_hash ∷ [])))

-- The size is computed in uint16: `4 + 2 + nProc*4`.
unfoldable pub dag_info_data : Option DagInfo → Outcome Error (List ℕ)
dag_info_data none = ok (put_uint 4 max_u32)
dag_info_data (some info) =
    let n = length info.heights % 2 ^ 16 in
    fill ((4 + 2 + n * 4) % 2 ^ 16)
      (put_uint 4 (info.epoch % 2 ^ 32) ∷ (put_uint 2 n ∷ height_fields info.heights))

module _ {W : Type 0} (write : W → List ℕ → Outcome Error W) where
  unfoldable pub encode_crown : Crown → W → Outcome Error W
  encode_crown c w = crown_data c >>= λ bs. write w bs

  unfoldable pub encode_dag_info : Option DagInfo → W → Outcome Error W
  encode_dag_info info w = dag_info_data info >>= λ bs. write w bs

  -- The length as a uint32, then the bytes themselves if that length is not 0.
  unfoldable pub encode_block : List ℕ → W → Outcome Error W
  encode_block bs w = do
    w' ← write w (put_uint 4 (length bs % 2 ^ 32))
    if ltb 0 (length bs % 2 ^ 32) then write w' bs else ok w'

  unfoldable pub encode_unit : Option Preunit → W → Outcome Error W
  encode_unit none w = write w (put_uint 8 max_u64)
  encode_unit (some u) w = do
    w₁ ← write w (put_uint 8 (unit_id u) ++ copy_into 64 u.signature)
    w₂ ← encode_crown u.crown w₁
    w₃ ← encode_block u.payload w₂
    encode_block u.rs_payload w₃

  unfoldable pub encode_uint32 : ℕ → W → Outcome Error W
  encode_uint32 n w = write w (put_uint 4 (n % 2 ^ 32))

  unfoldable pub encode_units : List (Option Preunit) → W → Outcome Error W
  encode_units [] w = ok w
  encode_units (u ∷ us) w = do w' ← encode_unit u w; encode_units us w'

  abbrev pub encode_sorted :
      {U : Type 0} ⦃i : UnitInterface U⦄ → List U → Option (List U) → W → Option (Outcome Error W)
  encode_sorted ⦃i⦄ units none w = none
  encode_sorted ⦃i⦄ units (some sorted) w = some (do
    w' ← encode_uint32 (length units) w
    encode_units (map (λ u. some (i.preunit u)) sorted) w')

  -- `rounds` and `fuel` are for sortChunk, which may not end.
  unfoldable pub encode_chunk :
      {U : Type 0} ⦃i : UnitInterface U⦄ → ℕ → ℕ → List U → W → Option (Outcome Error W)
  encode_chunk ⦃i⦄ rounds fuel units w =
      if ltb max_units_in_chunk (length units)
      then some (err too_many_units)
      else encode_sorted units (sort_chunk rounds fuel units) w

  unfoldable pub write_dag_infos : Option DagInfo → Option DagInfo → W → Outcome Error W
  write_dag_infos a b w = do w' ← encode_dag_info a w; encode_dag_info b w'

-- bytes.Buffer: Write appends and never fails.
abbrev pub buffer_write : List ℕ → List ℕ → Outcome Error (List ℕ)
buffer_write w bs = ok (w ++ bs)

-- EncodeUnit.
unfoldable pub encode_to_bytes : Option Preunit → Outcome Error (List ℕ)
encode_to_bytes u = encode_unit buffer_write u []
