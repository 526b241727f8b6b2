-- ===== src/Encoding/Crowns.antt =====
-- pkg/encoding: the bytes of heights and crowns.
use consensus_go.Base.{
  ℕ, ◌+◌, ◌*◌, ◌-◌, ◌%◌, ◌^◌, ◌≡◌, ◌<◌, ◌≤◌, refl, ap, sym, ◌∙◌, List, [], ◌∷◌, ◌++◌, arith, length,
  length-append, append-nil, append_assoc, All, take-length,
}
use consensus_go.Base.Int.{ℤ, pos, negsuc}
use consensus_go.Base.Outcome.{ok, panic}
use consensus_go.Gomel.Preunit.{
  Crown, max_u32, put_uint, height_code, height_bytes, length-put_uint, length-height_bytes,
}
use consensus_go.Encoding.Wire.{
  uint, joined, fill_exact, fill_panic, read_full-append, uint-put_uint,
}
use consensus_go.Encoding.Encoder.{height_fields, copy_into, crown_data}
use consensus_go.Encoding.Decoder.{read_height, decode_heights, decode_crown}

-- A height that has a code of its own: -1, or a number below the largest uint32.
abbrev pub IsHeight : ℤ → Type 0
IsHeight (pos n) = n < max_u32
IsHeight (negsuc n) = n ≡ 0

read_height-height_code : (h : ℤ) → IsHeight h → read_height (height_code h) ≡ h
unfolding read_height height_code
read_height-height_code (pos n) v = ground arith
read_height-height_code (negsuc n) v = ground arith

height_code_bound : (h : ℤ) → height_code h < 256 ^ 4
unfolding height_code
height_code_bound (pos n) = ground arith
height_code_bound (negsuc n) = ground arith

pub read_height_bytes : (h : ℤ) → IsHeight h → read_height (uint (put_uint 4 (height_code h))) ≡ h
read_height_bytes h v =
    rw (uint-put_uint 4 (height_code h) (height_code_bound h)) (read_height-height_code h v)

pub joined-height_fields : (hs : List ℤ) → joined (height_fields hs) ≡ height_bytes hs
unfolding height_bytes
joined-height_fields [] = refl
joined-height_fields (h ∷ hs) = ap (◌++◌ (put_uint 4 (height_code h))) (joined-height_fields hs)

joined-append : (fs gs : List (List ℕ)) → joined (fs ++ gs) ≡ joined fs ++ joined gs
joined-append [] gs = refl
joined-append (f ∷ fs) gs = rw (joined-append fs gs) (sym (append_assoc f (joined fs) (joined gs)))

pub decode_heights-height_bytes :
    (hs : List ℤ) (rest : List ℕ)
    → All IsHeight hs
    → decode_heights (length hs) (height_bytes hs ++ rest) ≡ ok (hs, rest)
unfolding decode_heights height_bytes
decode_heights-height_bytes [] rest v = refl
decode_heights-height_bytes (h ∷ hs) rest (v, vs) =
    rw (append_assoc (put_uint 4 (height_code h)) (height_bytes hs) rest) (
      rw
        (read_full-append 4 (put_uint 4 (height_code h)) (height_bytes hs ++ rest)
          (length-put_uint 4 _))
        (rw (decode_heights-height_bytes hs rest vs, read_height_bytes h v) refl))

-- The bytes of a crown: the number of heights, the heights and the control hash.
unfoldable pub crown_bytes : Crown → List ℕ
crown_bytes c = put_uint 2 (length c.heights) ++ (height_bytes c.heights ++ c.control_hash)

pub record IsWireCrown (c : Crown) : Type 0 where
  pub few : length c.heights < 16376
  pub heights_fit : All IsHeight c.heights
  pub hash_fits : length c.control_hash ≡ 32

pub copy_into_full : (n : ℕ) (bs : List ℕ) → length bs ≡ n → copy_into n bs ≡ bs
copy_into_full n bs h =
    rw (← h) (
      rw (take-length bs) (let e : length bs - length bs ≡ 0 = omega arith in rw e (append-nil bs)))

crown_fields :
    (c : Crown)
    → IsWireCrown c
    → joined (
        put_uint 2 (length c.heights)
        ∷ (height_fields c.heights ++ (copy_into 32 c.control_hash ∷ [])))
      ≡ crown_bytes c
unfolding crown_bytes
crown_fields c v =
    rw
      (
        joined-append (height_fields c.heights) (copy_into 32 c.control_hash ∷ []),
        joined-height_fields c.heights,
        copy_into_full 32 c.control_hash v.hash_fits,
        append-nil c.control_hash,
      )
      refl

pub length-crown_bytes :
    (c : Crown) → IsWireCrown c → length (crown_bytes c) ≡ 2 + length c.heights * 4 + 32
unfolding crown_bytes
length-crown_bytes c v = omega (
  arith,
  length-append (put_uint 2 (length c.heights)) (height_bytes c.heights ++ c.control_hash),
  length-append (height_bytes c.heights) c.control_hash,
  length-put_uint 2 (length c.heights),
  length-height_bytes c.heights,
  v.hash_fits,
  v.few,
)

pub crown_data-crown_bytes : (c : Crown) → IsWireCrown c → crown_data c ≡ ok (crown_bytes c)
unfolding crown_data
crown_data-crown_bytes c v =
    let small : length c.heights % 2 ^ 16 ≡ length c.heights = omega (arith, v.few) in
    let size : (2 + length c.heights * 4 + 32) % 2 ^ 16 ≡ 2 + length c.heights * 4 + 32 =
      omega (arith, v.few) in
    rw (small, size)
      (fill_exact _ _ (sym (length-crown_bytes c v) ∙ ap length (sym (crown_fields c v)))
        ∙ ap ok (crown_fields c v))

pub decode_crown-crown_bytes :
    (c : Crown) (rest : List ℕ)
    → IsWireCrown c
    → decode_crown (crown_bytes c ++ rest) ≡ ok (c, rest)
unfolding decode_crown crown_bytes
decode_crown-crown_bytes c rest v =
    rw
      (
        append_assoc (put_uint 2 (length c.heights)) (height_bytes c.heights ++ c.control_hash)
            rest,
        append_assoc (height_bytes c.heights) c.control_hash rest,
      )
      (rw (read_full-append 2 (put_uint 2 (length c.heights)) _ (length-put_uint 2 _)) (
        rw (uint-put_uint 2 (length c.heights) (omega (arith, v.few))) (
          rw (decode_heights-height_bytes c.heights (c.control_hash ++ rest) v.heights_fit)
            (rw (read_full-append 32 c.control_hash rest v.hash_fits) refl))))

-- A crown of 16376 heights or more does not fit the size that is computed in 16 bits: writing it
-- panics, whatever the heights are.
pub crown_data_panics : (c : Crown) → 16376 ≤ length c.heights → crown_data c ≡ panic
unfolding crown_data
crown_data_panics c h = fill_panic _ _ (
    rw
      (
        joined-append (height_fields c.heights) (copy_into 32 c.control_hash ∷ []),
        joined-height_fields c.heights,
      )
      (omega (
        arith,
        length-append (put_uint 2 (length c.heights % 2 ^ 16))
            (height_bytes c.heights ++ (copy_into 32 c.control_hash ++ [])),
        length-append (height_bytes c.heights) (copy_into 32 c.control_hash ++ []),
        length-put_uint 2 (length c.heights % 2 ^ 16),
        length-height_bytes c.heights,
      )))
