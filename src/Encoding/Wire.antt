-- ===== src/Encoding/Wire.antt =====
-- The byte streams under pkg/encoding: fixed-size buffers, io.ReadFull and little-endian integers.
use consensus_go.Base.{
  ℕ, zero, suc, ◌+◌, ◌*◌, ◌-◌, ◌/◌, ◌%◌, ◌^◌, ◌≡◌, ◌<◌, refl, ap, List, [], ◌∷◌, ◌++◌, arith, ltb,
  ◌==◌, if◌then◌else◌, length, length-append, replicate, take, drop, take-length-append,
  drop-length-append, take-append-drop, length-take, All,
}
use consensus_go.Base.Outcome.{Outcome, ok, err, panic, ◌>>=◌}
use consensus_go.Gomel.Preunit.{put_uint}
use native.Mathlib.Nat.{pow-suc}

pub data Error : Type 0 where
  eof unexpected_eof write_failed too_many_units payload_too_large rs_payload_too_large : Error

-- A buffer of `room` bytes that is filled field by field: PutUint and copy on `data[s:s+k]` panic
-- where fewer than `k` bytes are left, and what is not written stays zero.
unfoldable pub fill : {E : Type 0} → ℕ → List (List ℕ) → Outcome E (List ℕ)
fill room [] = ok (replicate room 0)
fill room (f ∷ fs) =
    let rest = (fill (room - length f) fs >>= λ bs. ok (f ++ bs)) in
    if ltb room (length f) then panic else rest

abbrev pub joined : List (List ℕ) → List ℕ
joined [] = []
joined (f ∷ fs) = f ++ joined fs

-- A buffer of the right size takes its fields one behind the other.
pub fill_exact :
    {E : Type 0} (room : ℕ) (fs : List (List ℕ))
    → room ≡ length (joined fs)
    → fill {E = E} room fs ≡ ok (joined fs)
unfolding fill
fill_exact room [] h = rw h
fill_exact {E} room (f ∷ fs) h =
    let total = length-append f (joined fs) in
    ground (arith, total, fill_exact {E = E} (room - length f) fs (omega (arith, total)))

-- A buffer that is too small for its fields is a panic.
pub fill_panic :
    {E : Type 0} (room : ℕ) (fs : List (List ℕ))
    → room < length (joined fs)
    → fill {E = E} room fs ≡ panic
unfolding fill
fill_panic room [] h = absurd (omega arith)
fill_panic {E} room (f ∷ fs) h =
    let total = length-append f (joined fs) in
    ground (arith, total, fill_panic {E = E} (room - length f) fs)

-- io.ReadFull: io.EOF at the end of the stream, io.ErrUnexpectedEOF within the request.
unfoldable pub read_full : ℕ → List ℕ → Outcome Error (List ℕ × List ℕ)
read_full n src =
    if ltb (length src) n
    then (if length src == 0 then err eof else err unexpected_eof)
    else ok (take n src, drop n src)

pub read_full-append :
    (n : ℕ) (bs rest : List ℕ) → length bs ≡ n → read_full n (bs ++ rest) ≡ ok (bs, rest)
unfolding read_full
read_full-append n bs rest h =
    rw (← h) (
      ground (arith, length-append bs rest, take-length-append bs rest, drop-length-append bs rest))

-- Reading from a stream that is too short fails.
pub read_full_short :
    (n : ℕ) (src : List ℕ) → length src < n → (e : Error) × (read_full n src ≡ err e)
unfolding read_full
read_full_short n [] h = (eof, ground arith)
read_full_short n (b ∷ src) h = (unexpected_eof, ground arith)

-- A byte slice read as a little-endian integer.
unfoldable pub uint : List ℕ → ℕ
uint [] = 0
uint (b ∷ bs) = b + 256 * uint bs

pub uint-put_uint : (k v : ℕ) → v < 256 ^ k → uint (put_uint k v) ≡ v
unfolding uint put_uint
uint-put_uint zero v h = omega arith
uint-put_uint (suc k) v h = omega (arith, uint-put_uint k (v / 256) (omega (arith, pow-suc 256 k)))

-- What a successful read says of the stream.
pub read_full_inv :
    (n : ℕ) (src : List ℕ) {bs rest : List ℕ}
    → read_full n src ≡ ok (bs, rest)
    → (src ≡ bs ++ rest) × (length bs ≡ n)
unfolding read_full
read_full_inv n src h = ground (arith, take-append-drop n src, length-take n src)

abbrev pub IsByte : ℕ → Type 0
IsByte b = b < 256

-- A byte slice is what is written for the integer that is read from it.
pub put_uint-uint : (bs : List ℕ) → All IsByte bs → put_uint (length bs) (uint bs) ≡ bs
unfolding put_uint uint
put_uint-uint [] v = refl
put_uint-uint (b ∷ bs) (v, vs) =
    let low : (b + 256 * uint bs) % 256 ≡ b = omega arith in
    let high : (b + 256 * uint bs) / 256 ≡ uint bs = omega arith in
    rw (low, high) (ap (◌∷◌ b) (put_uint-uint bs vs))

pub uint_bound : (bs : List ℕ) → All IsByte bs → uint bs < 256 ^ length bs
unfolding uint
uint_bound [] v = omega arith
uint_bound (b ∷ bs) (v, vs) = omega (arith, uint_bound bs vs, pow-suc 256 (length bs))
