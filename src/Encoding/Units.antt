-- ===== src/Encoding/Units.antt =====
-- pkg/encoding: the bytes of a unit.
use consensus_go.Base.{
  ℕ, ◌-◌, ◌%◌, ◌^◌, ◌≡◌, ◌<◌, ◌≤◌, refl, ◌∙◌, true, false, List, [], ◌∷◌, ◌++◌, none, some, arith,
  ◌==◌, length, append-nil, append_assoc, get_elem?,
}
use consensus_go.Base.Outcome.{ok, panic, ◌>>=◌}
use consensus_go.Gomel.Hash.{Hash}
use consensus_go.Gomel.Id.{id_sum, decode_id-id}
use consensus_go.Gomel.Preunit.{
  Preunit, new_preunit, put_uint, unit_id, height_fits, compute_hash, length-put_uint,
  new_preunit_lem,
}
use consensus_go.Encoding.Wire.{
  Error, read_full-append, uint-put_uint, payload_too_large, rs_payload_too_large,
}
use consensus_go.Encoding.Encoder.{
  encode_crown, encode_block, encode_unit, encode_to_bytes, buffer_write, max_u64,
}
use consensus_go.Encoding.Decoder.{
  decode_block, decode_preunit_body, decode_preunit, max_data_bytes_per_unit,
  max_rs_data_bytes_per_unit,
}
use consensus_go.Encoding.Crowns.{
  IsWireCrown, crown_bytes, crown_data-crown_bytes, decode_crown-crown_bytes, copy_into_full,
}

-- A block of bytes behind its length.
unfoldable pub block_bytes : List ℕ → List ℕ
block_bytes bs = put_uint 4 (length bs) ++ bs

-- The bytes of a unit: identifier, signature, crown, data and random source data.
unfoldable pub unit_bytes : Preunit → List ℕ
unit_bytes u =
    put_uint 8 (unit_id u)
    ++ (u.signature ++ (crown_bytes u.crown ++ (block_bytes u.payload ++ block_bytes u.rs_payload)))

-- What the frame of a unit needs: fields within their widths and sizes within the limits. The last
-- epoch number is left out: with it the identifier of one unit is the code of nil.
pub record IsFramed (u : Preunit) : Type 0 where
  pub height_fits_id : u.height < 2 ^ 16
  pub creator_fits_id : u.creator < 2 ^ 16
  pub epoch_fits_id : u.epoch_id < 2 ^ 32 - 1
  pub signed : length u.signature ≡ 64
  pub crown_fits : IsWireCrown u.crown
  pub payload_fits : length u.payload ≤ max_data_bytes_per_unit
  pub rs_payload_fits : length u.rs_payload ≤ max_rs_data_bytes_per_unit

-- And what NewPreunit asks for: a consistent height, and the hash that the contents determine.
pub record IsWireUnit (shake : List ℕ → Hash) (u : Preunit) : Type 0 where
  pub framed : IsFramed u
  pub consistent : height_fits u.height (get_elem? u.crown.heights u.creator) ≡ true
  pub hashed : u.hash ≡ compute_hash shake (unit_id u) u.crown u.payload u.rs_payload

encode_block-block_bytes :
    (bs w : List ℕ) → length bs < 2 ^ 32 → encode_block buffer_write bs w ≡ ok (w ++ block_bytes bs)
unfolding encode_block block_bytes
encode_block-block_bytes [] w h = rw (append-nil (put_uint 4 0)) refl
encode_block-block_bytes (b ∷ bs) w h =
    let small : length (b ∷ bs) % 2 ^ 32 ≡ length (b ∷ bs) = omega arith in
    rw small (rw (append_assoc w (put_uint 4 (length (b ∷ bs))) (b ∷ bs)) (ground arith))

decode_block-block_bytes :
    (limit : ℕ) (e : Error) (bs rest : List ℕ)
    → limit < 2 ^ 32
    → length bs ≤ limit
    → decode_block limit e (block_bytes bs ++ rest) ≡ ok (bs, rest)
unfolding decode_block block_bytes
decode_block-block_bytes limit e bs rest small fits =
    rw (append_assoc (put_uint 4 (length bs)) bs rest) (
      rw (read_full-append 4 (put_uint 4 (length bs)) (bs ++ rest) (length-put_uint 4 _)) (
        rw (uint-put_uint 4 (length bs) (omega arith))
          (ground (arith, read_full-append (length bs) bs rest refl))))

unit_id_small : (u : Preunit) → IsFramed u → unit_id u < max_u64
unfolding unit_id
unit_id_small u v = omega (
  arith,
  id_sum u.height u.creator u.epoch_id v.height_fits_id v.creator_fits_id
      (omega (arith, v.epoch_fits_id)),
  v.height_fits_id,
  v.creator_fits_id,
  v.epoch_fits_id,
)

-- Encoding a unit whose fields have their sizes into a buffer succeeds and appends exactly its bytes.
pub encode_unit-sized :
    (u : Preunit) (w : List ℕ)
    → length u.signature ≡ 64
    → IsWireCrown u.crown
    → length u.payload ≤ max_data_bytes_per_unit
    → length u.rs_payload ≤ max_rs_data_bytes_per_unit
    → encode_unit buffer_write (some u) w ≡ ok (w ++ unit_bytes u)
unfolding encode_unit unit_bytes encode_crown
encode_unit-sized u w signed crown_fits fits rs_fits = rw (copy_into_full 64 u.signature signed) (
    rw (crown_data-crown_bytes u.crown crown_fits) (
      rw (encode_block-block_bytes u.payload _ (omega (arith, fits))) (
        rw (encode_block-block_bytes u.rs_payload _ (omega (arith, rs_fits))) (simp append_assoc))))

-- Encoding a framed unit into a buffer succeeds and appends exactly its bytes.
pub encode_unit-unit_bytes :
    (u : Preunit) (w : List ℕ)
    → IsFramed u
    → encode_unit buffer_write (some u) w ≡ ok (w ++ unit_bytes u)
encode_unit-unit_bytes u w v =
    encode_unit-sized u w v.signed v.crown_fits v.payload_fits v.rs_payload_fits

module _ (shake : List ℕ → Hash) (u : Preunit) (rest : List ℕ) where
  -- Decoding the bytes of a framed unit comes down to NewPreunit on its parts.
  decode_preunit-framed :
      IsFramed u
      → decode_preunit shake (unit_bytes u ++ rest) ≡ (
          new_preunit shake (unit_id u) u.crown u.payload u.rs_payload u.signature >>= λ v.
          ok (some v, rest))
  unfolding decode_preunit unit_bytes decode_preunit_body
  decode_preunit-framed v = simp append_assoc (
      rw (read_full-append 8 (put_uint 8 (unit_id u)) _ (length-put_uint 8 _)) (
        rw (uint-put_uint 8 (unit_id u) (omega (arith, unit_id_small u v))) (
          let ne : (unit_id u == max_u64) ≡ false = ground (arith, unit_id_small u v) in
          rw ne (
            rw (read_full-append 64 u.signature _ v.signed) (
              rw (decode_crown-crown_bytes u.crown _ v.crown_fits) (
                rw
                  (decode_block-block_bytes max_data_bytes_per_unit payload_too_large u.payload _
                    (omega arith) v.payload_fits)
                  (rw
                    (decode_block-block_bytes max_rs_data_bytes_per_unit rs_payload_too_large
                      u.rs_payload rest (omega arith) v.rs_payload_fits)
                    refl)))))))

  pub decode_preunit-unit_bytes :
      IsWireUnit shake u → decode_preunit shake (unit_bytes u ++ rest) ≡ ok (some u, rest)
  decode_preunit-unit_bytes v =
      decode_preunit-framed v.framed
      ∙ rw
          (new_preunit_lem {E = Error} shake u v.framed.height_fits_id v.framed.creator_fits_id
            (omega (arith, v.framed.epoch_fits_id)) v.consistent v.hashed)
          refl

  -- For every unit fit for the wire, EncodeUnit succeeds, and the decoder reads the unit back from
  -- its bytes and leaves whatever follows them.
  pub decode_preunit-encode_to_bytes :
      IsWireUnit shake u
      → (bs : List ℕ) × (encode_to_bytes (some u) ≡ ok bs)
        × (decode_preunit shake (bs ++ rest) ≡ ok (some u, rest))
  unfolding encode_to_bytes
  decode_preunit-encode_to_bytes v =
      (unit_bytes u, encode_unit-unit_bytes u [] v.framed, decode_preunit-unit_bytes v)

  -- On the bytes of a framed unit whose height is not one above its predecessor's in the crown, or
  -- whose creator the crown does not have, the decoder panics; it does not return an error.
  pub decode_preunit_panics :
      IsFramed u
      → height_fits u.height (get_elem? u.crown.heights u.creator) ≡ false
      → decode_preunit shake (unit_bytes u ++ rest) ≡ panic
  unfolding new_preunit unit_id
  decode_preunit_panics v off =
      decode_preunit-framed v
      ∙ rw
          (decode_id-id u.height u.creator u.epoch_id v.height_fits_id v.creator_fits_id
            (omega (arith, v.epoch_fits_id)))
          (rw off refl)

-- A missing unit is written as eight bytes, and read back as missing.
pub decode_preunit-encode_nil :
    (shake : List ℕ → Hash) (rest : List ℕ)
    → (bs : List ℕ) × (encode_to_bytes none ≡ ok bs)
      × (decode_preunit shake (bs ++ rest) ≡ ok (none, rest))
unfolding encode_to_bytes decode_preunit encode_unit
decode_preunit-encode_nil shake rest = (
  put_uint 8 max_u64,
  refl,
  rw (read_full-append 8 (put_uint 8 max_u64) rest (length-put_uint 8 _))
      (rw (uint-put_uint 8 max_u64 (omega arith)) refl),
)
