-- ===== src/Encoding/Canonical.antt =====
-- pkg/encoding/decoder.go: which bytes the decoder accepts.
use consensus_go.Base.{
  ℕ, zero, suc, ◌^◌, ◌≡◌, ◌<◌, ◌≤◌, refl, sym, subst, true, List, [], ◌++◌, ◌⊎◌, Option, none, some,
  arith, ltb, ◌==◌, length, append_assoc, get_elem?, All, Bool-cases, inl, inr, take-append-drop,
  length-take, All-append_left, All-append_right,
}
use consensus_go.Base.Outcome.{ok, panic, Post, post_bind, post_weaken, post_ok}
use consensus_go.Gomel.Hash.{Hash}
use consensus_go.Gomel.Preunit.{
  Preunit, new_preunit, new_preunit-Builds, put_uint, unit_id, height_code, height_bytes,
  height_fits, compute_hash, Crown, max_u32,
}
use consensus_go.Encoding.Wire.{
  Error, read_full, uint, put_uint-uint, uint_bound, IsByte, payload_too_large,
  rs_payload_too_large,
}
use consensus_go.Encoding.Encoder.{max_u64, encode_to_bytes, encode_unit, encode_crown}
use consensus_go.Encoding.Decoder.{
  read_height, decode_heights, decode_crown, decode_block, decode_preunit_body, decode_preunit,
  max_data_bytes_per_unit, max_rs_data_bytes_per_unit,
}
use consensus_go.Encoding.Crowns.{crown_bytes, IsHeight, IsWireCrown, crown_data_panics}
use consensus_go.Encoding.Units.{unit_bytes, block_bytes, encode_unit-sized}

height_code-read_height : (n : ℕ) → n < 2 ^ 32 → height_code (read_height n) ≡ n
unfolding height_code read_height
height_code-read_height n h = ground arith

read_height-IsHeight : (n : ℕ) → n < 2 ^ 32 → IsHeight (read_height n)
unfolding read_height
read_height-IsHeight n h = elim (Bool-cases (n == max_u32)) [
  | inl nil ↦ rw nil refl
  | inr some_height ↦ rw some_height (ground arith)
]

-- What a decoder's success says: the stream began with the bytes of the value.
abbrev Reads : {A : Type 0} → (A → List ℕ) → List ℕ → A × List ℕ → Type 0
Reads bytes src (a, rest) = (src ≡ bytes a ++ rest) × All IsByte rest

-- A field that was read is the field that is written for its integer.
field_rewritten :
    (k : ℕ) (src buf rest : List ℕ)
    → All IsByte src
    → src ≡ buf ++ rest
    → length buf ≡ k
    → Reads (put_uint k) src (uint buf, rest) × (uint buf < 256 ^ k)
field_rewritten k src buf rest v split len =
    let bytes : All IsByte (buf ++ rest) = subst (All IsByte) split v in
    let front : All IsByte buf = All-append_left IsByte buf rest bytes in
    (
      (rw (split, ← len, put_uint-uint buf front) refl, All-append_right IsByte buf rest bytes),
      rw (← len) (uint_bound buf front),
    )

raw_Reads :
    (k : ℕ) (src : List ℕ) → Post (read_full k src) (λ r. (src ≡ r.0 ++ r.1) × (length r.0 ≡ k))
unfolding read_full
raw_Reads k src = ground (arith, take-append-drop k src, length-take k src)

read_full-Reads :
    (k : ℕ) (src : List ℕ)
    → All IsByte src
    → Post (read_full k src) (λ r. Reads (put_uint k) src (uint r.0, r.1) × (uint r.0 < 256 ^ k))
read_full-Reads k src v =
    post_weaken (read_full k src) _ _ (raw_Reads k src)
      (λ (buf, rest) (split, len). field_rewritten k src buf rest v split len)

decode_heights-Reads :
    (n : ℕ) (src : List ℕ)
    → All IsByte src
    → Post
        (decode_heights n src)
        (λ r. Reads height_bytes src r × (length r.0 ≡ n) × All IsHeight r.0)
unfolding decode_heights height_bytes
decode_heights-Reads zero src v = ((refl, v), refl, tt)
decode_heights-Reads (suc n) src v =
    post_bind (read_full 4 src) _ _ _ (read_full-Reads 4 src v) λ (buf, src₁) ((s₁, v₁), small).
      post_bind (decode_heights n src₁) _ _ _ (decode_heights-Reads n src₁ v₁)
        λ (hs, src₂) ((s₂, v₂), len, fit). (
          (
            rw (height_code-read_height (uint buf) small, s₁, s₂)
                (sym (append_assoc _ (height_bytes hs) src₂)),
            v₂,
          ),
          omega arith,
          (read_height-IsHeight (uint buf) small, fit),
        )

-- The heights fit their fields, and the control hash has its size.
abbrev IsSizedCrown : Crown → Type 0
IsSizedCrown c = All IsHeight c.heights × (length c.control_hash ≡ 32)

decode_crown-Reads :
    (src : List ℕ)
    → All IsByte src
    → Post (decode_crown src) (λ r. Reads crown_bytes src r × IsSizedCrown r.0)
unfolding decode_crown crown_bytes
decode_crown-Reads src v =
    post_bind (read_full 2 src) _ _ _ (read_full-Reads 2 src v) λ (buf, src₁) ((s₁, v₁), small).
      post_bind (decode_heights (uint buf) src₁) _ _ _ (decode_heights-Reads (uint buf) src₁ v₁)
        λ (hs, src₂) ((s₂, v₂), len, fit).
          post_bind (read_full 32 src₂) _ _ _ (raw_Reads 32 src₂) λ (h, src₃) (s₃, size). (
            (
              rw (len, s₁, s₂, s₃) (simp append_assoc),
              All-append_right IsByte h src₃ (subst (All IsByte) s₃ v₂),
            ),
            (fit, size),
          )

decode_block-Reads :
    (limit : ℕ) (e : Error) (src : List ℕ)
    → All IsByte src
    → Post (decode_block limit e src) (λ r. Reads block_bytes src r × (length r.0 ≤ limit))
unfolding decode_block block_bytes
decode_block-Reads limit e src v =
    post_bind (read_full 4 src) _ _ _ (read_full-Reads 4 src v) λ (buf, src₁) ((s₁, v₁), small).
      elim (Bool-cases (ltb limit (uint buf))) [
        | inl large ↦ rw large tt
        | inr fits ↦ rw fits (
            post_weaken (read_full (uint buf) src₁) _ _ (raw_Reads (uint buf) src₁)
              λ (bs, src₂) (s₂, len). (
                (
                  rw (len, s₁, s₂) (simp append_assoc),
                  All-append_right IsByte bs src₂ (subst (All IsByte) s₂ v₁),
                ),
                ground arith,
              ))
      ]

-- What reading the fields one after another guarantees.
abbrev IsParsed : (List ℕ → Hash) → List ℕ → Option Preunit × List ℕ → Type 0
IsParsed shake src (none, rest) = src ≡ put_uint 8 max_u64 ++ rest
IsParsed shake src (some u, rest) =
    (src ≡ unit_bytes u ++ rest)
    × (length u.payload ≤ max_data_bytes_per_unit)
    × (length u.rs_payload ≤ max_rs_data_bytes_per_unit)
    × ((length u.signature ≡ 64) × IsSizedCrown u.crown)
    × (height_fits u.height (get_elem? u.crown.heights u.creator) ≡ true)
    × (u.hash ≡ compute_hash shake (unit_id u) u.crown u.payload u.rs_payload)

decode_body-Reads :
    (shake : List ℕ → Hash) (n : ℕ) (src : List ℕ)
    → n < 2 ^ 64
    → All IsByte src
    → Post (decode_preunit_body shake n src) (IsParsed shake (put_uint 8 n ++ src))
unfolding decode_preunit_body unit_bytes
decode_body-Reads shake n src small v =
    post_bind (read_full 64 src) _ _ _ (raw_Reads 64 src) λ (signature, src₁) (s₁, signed).
      let v₁ = All-append_right IsByte signature src₁ (subst (All IsByte) s₁ v) in
      post_bind (decode_crown src₁) _ _ _ (decode_crown-Reads src₁ v₁)
        λ (crown, src₂) ((s₂, v₂), sized).
          post_bind (decode_block max_data_bytes_per_unit payload_too_large src₂) _ _ _
            (decode_block-Reads max_data_bytes_per_unit payload_too_large src₂ v₂)
            λ (payload, src₃) ((s₃, v₃), fits).
              post_bind (decode_block max_rs_data_bytes_per_unit rs_payload_too_large src₃) _ _ _
                (decode_block-Reads max_rs_data_bytes_per_unit rs_payload_too_large src₃ v₃)
                λ (rs_payload, src₄) ((s₄, v₄), rs_fits).
                  post_bind (new_preunit shake n crown payload rs_payload signature) _ _ _
                    (new_preunit-Builds Error shake n crown payload rs_payload signature small)
                    λ u (b₀, b₁, b₂, b₃, b₄, consistent, hashed). (
                      rw (b₀, b₁, b₂, b₃, b₄, s₁, s₂, s₃, s₄) (simp append_assoc),
                      rw b₂ fits,
                      rw b₃ rs_fits,
                      (rw b₄ signed, rw b₁ sized),
                      consistent,
                      hashed,
                    )

decode_preunit-Reads :
    (shake : List ℕ → Hash) (src : List ℕ)
    → All IsByte src
    → Post (decode_preunit shake src) (IsParsed shake src)
unfolding decode_preunit
decode_preunit-Reads shake src v =
    post_bind (read_full 8 src) _ _ _ (read_full-Reads 8 src v) λ (buf, src₁) ((s₁, v₁), small).
      elim (Bool-cases (uint buf == max_u64)) [
        | inl nil ↦ rw nil (let e : uint buf ≡ max_u64 = ground arith in rw (← e) s₁)
        | inr off ↦ rw off (rw s₁ (decode_body-Reads shake (uint buf) src₁ (omega arith) v₁))
      ]

-- EncodeUnit answers bytes that `src` begins with, before `rest`.
abbrev pub IsWritten : Option Preunit → List ℕ → List ℕ → Type 0
IsWritten u src rest = (bs : List ℕ) × (encode_to_bytes u ≡ ok bs) × (src ≡ bs ++ rest)

-- What the decoder guarantees of a unit that it returns.
abbrev pub IsDecoded : (List ℕ → Hash) → List ℕ → Option Preunit × List ℕ → Type 0
IsDecoded shake src (none, rest) = IsWritten none src rest
IsDecoded shake src (some u, rest) =
    (IsWritten (some u) src rest
      ⊎ ((16376 ≤ length u.crown.heights) × (encode_to_bytes (some u) ≡ panic)))
    × (length u.payload ≤ max_data_bytes_per_unit)
    × (length u.rs_payload ≤ max_rs_data_bytes_per_unit)
    × (height_fits u.height (get_elem? u.crown.heights u.creator) ≡ true)
    × (u.hash ≡ compute_hash shake (unit_id u) u.crown u.payload u.rs_payload)

IsParsed-IsDecoded :
    (shake : List ℕ → Hash) (src : List ℕ) (r : Option Preunit × List ℕ)
    → IsParsed shake src r
    → IsDecoded shake src r
unfolding encode_to_bytes encode_unit encode_crown
IsParsed-IsDecoded shake src (none, rest) e = (put_uint 8 max_u64, refl, e)
IsParsed-IsDecoded shake src (some u, rest)
      (e, fits, rs_fits, (signed, (fit, size)), consistent, hashed) =
    (
      elim (Bool-cases (ltb (length u.crown.heights) 16376)) [
        | inl few ↦
            let crown_fits : IsWireCrown u.crown = record {
              few = ground arith;
              heights_fit = fit;
              hash_fits = size;
            } in
            inl (unit_bytes u, encode_unit-sized u [] signed crown_fits fits rs_fits, e)
        | inr many ↦ inr (ground arith, rw (crown_data_panics u.crown (ground arith)) refl)
      ],
      fits,
      rs_fits,
      consistent,
      hashed,
    )

-- The wire format is canonical: if decoding a stream of bytes succeeds, the stream began with exactly the bytes that
-- EncodeUnit answers for the result (nil, or a unit), except that EncodeUnit panics on a unit of 16376 heights or
-- more; and a unit that is returned has its data within the limits, a height one above its predecessor's in the crown,
-- and the hash of its contents.
pub decode_preunit-IsDecoded :
    (shake : List ℕ → Hash) (src : List ℕ) (r : Option Preunit × List ℕ)
    → All IsByte src
    → decode_preunit shake src ≡ ok r
    → IsDecoded shake src r
decode_preunit-IsDecoded shake src r v e =
    IsParsed-IsDecoded shake src r (
      post_ok (decode_preunit shake src) (IsParsed shake src) r (decode_preunit-Reads shake src v)
        e)
