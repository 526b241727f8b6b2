-- ===== src/Gomel/Preunit.antt =====
-- pkg/gomel/preunit.go and crown.go, pkg/unit/preunit.go: units without their parents.
use consensus_go.Base.{
  ℕ, zero, suc, ◌*◌, ◌-◌, ◌/◌, ◌%◌, ◌^◌, ◌≡◌, ◌<◌, refl, Bool, true, false, ◌&&◌, List, [], ◌∷◌,
  ◌++◌, Option, none, some, arith, ◌==◌, if◌then◌else◌, length, replicate, get_elem?, length-append,
  ap, inl, inr, sym, Bool-cases,
}
use consensus_go.Base.Int.{ℤ, pos, negsuc, eq_ℤ, inc}
use consensus_go.Base.Outcome.{Outcome, ok, panic, Post}
use consensus_go.Gomel.Hash.{Hash, hash_eq, combine_hashes}
use consensus_go.Gomel.Id.{id, decode_id, decode_id-id, id-decode_id, id_sum}

pub record Crown : Type 0 where
  pub heights : List ℤ
  pub control_hash : Hash

pub record Preunit : Type 0 where
  pub creator : ℕ
  pub epoch_id : ℕ
  pub height : ℕ
  pub signature : List ℕ
  pub hash : Hash
  pub crown : Crown
  pub payload : List ℕ
  pub rs_payload : List ℕ

unfoldable pub unit_id : Preunit → ℕ
unit_id u = id (pos u.height) u.creator u.epoch_id

unfoldable pub equal : Preunit → Preunit → Bool
equal u v =
    u.creator == v.creator
    && u.height == v.height
    && u.epoch_id == v.epoch_id
    && hash_eq u.hash v.hash

unfoldable pub dealing : Preunit → Bool
dealing u = u.height == 0

-- The crown with every unit missing.
unfoldable pub empty_crown : (List ℕ → Hash) → ℕ → Crown
empty_crown shake n_proc = record {
  heights = replicate n_proc (negsuc 0);
  control_hash = combine_hashes shake (replicate n_proc none);
}

-- Go's conversion `uint32(h)` of an `int`.
abbrev pub to_u32 : ℤ → ℕ
to_u32 (pos n) = n % 2 ^ 32
to_u32 (negsuc n) = 2 ^ 32 - 1 - n % 2 ^ 32

abbrev pub max_u32 : ℕ
max_u32 = 2 ^ 32 - 1

-- How a height of a crown is written: -1 as the largest uint32.
unfoldable pub height_code : ℤ → ℕ
height_code h = if eq_ℤ h (negsuc 0) then max_u32 else to_u32 h

-- Little-endian integers of `k` bytes, as encoding/binary writes and reads them.
unfoldable pub put_uint : ℕ → ℕ → List ℕ
put_uint zero v = []
put_uint (suc k) v = v % 256 ∷ put_uint k (v / 256)

unfoldable pub height_bytes : List ℤ → List ℕ
height_bytes [] = []
height_bytes (h ∷ hs) = put_uint 4 (height_code h) ++ height_bytes hs

-- What computeHash feeds to the hash function.
unfoldable pub hashed_bytes : ℕ → Crown → List ℕ → List ℕ → List ℕ
hashed_bytes n crown payload rs_payload =
    put_uint 8 n ++ (payload ++ (rs_payload ++ (height_bytes crown.heights ++ crown.control_hash)))

unfoldable pub compute_hash : (List ℕ → Hash) → ℕ → Crown → List ℕ → List ℕ → Hash
compute_hash shake n crown payload rs_payload = shake (hashed_bytes n crown payload rs_payload)

-- NewPreunit's test: `h != crown.Heights[creator]+1`, with a panic out of range.
abbrev pub height_fits : ℕ → Option ℤ → Bool
height_fits h none = false
height_fits h (some below) = eq_ℤ (pos h) (inc below)

-- NewPreunit panics on an inconsistent height, and on a creator that the crown does not have.
unfoldable pub new_preunit :
    {E : Type 0} → (List ℕ → Hash) → ℕ → Crown → List ℕ → List ℕ → List ℕ → Outcome E Preunit
new_preunit shake n crown payload rs_payload signature =
    let (h, creator, epoch) = decode_id n in
    if height_fits h (get_elem? crown.heights creator)
    then ok (record {
      creator = creator;
      epoch_id = epoch;
      height = h;
      signature = signature;
      hash = compute_hash shake n crown payload rs_payload;
      crown = crown;
      payload = payload;
      rs_payload = rs_payload;
    })
    else panic

pub length-put_uint : (k v : ℕ) → length (put_uint k v) ≡ k
unfolding put_uint
length-put_uint zero v = refl
length-put_uint (suc k) v = ap suc (length-put_uint k (v / 256))

pub length-height_bytes : (hs : List ℤ) → length (height_bytes hs) ≡ 4 * length hs
unfolding height_bytes
length-height_bytes [] = refl
length-height_bytes (h ∷ hs) = omega (
  arith,
  length-append (put_uint 4 (height_code h)) (height_bytes hs),
  length-put_uint 4 (height_code h),
  length-height_bytes hs,
)

-- A consistent preunit is what NewPreunit builds from its identifier and contents.
pub new_preunit_lem :
    {E : Type 0} (shake : List ℕ → Hash) (u : Preunit)
    → u.height < 2 ^ 16
    → u.creator < 2 ^ 16
    → u.epoch_id < 2 ^ 32
    → height_fits u.height (get_elem? u.crown.heights u.creator) ≡ true
    → u.hash ≡ compute_hash shake (unit_id u) u.crown u.payload u.rs_payload
    → new_preunit {E = E} shake (unit_id u) u.crown u.payload u.rs_payload u.signature ≡ ok u
unfolding new_preunit unit_id
new_preunit_lem shake u hh hc he fits hashed =
    rw (decode_id-id u.height u.creator u.epoch_id hh hc he) (ground arith)

-- Two preunits with in-range fields and one identifier agree in height, creator and epoch.
pub unit_id-injective :
    (u v : Preunit)
    → u.height < 2 ^ 16
    → u.creator < 2 ^ 16
    → u.epoch_id < 2 ^ 32
    → v.height < 2 ^ 16
    → v.creator < 2 ^ 16
    → v.epoch_id < 2 ^ 32
    → unit_id u ≡ unit_id v
    → (u.height ≡ v.height) × (u.creator ≡ v.creator) × (u.epoch_id ≡ v.epoch_id)
unfolding unit_id
unit_id-injective u v a b c d e f h =
    omega (
      arith,
      id_sum u.height u.creator u.epoch_id a b c,
      id_sum v.height v.creator v.epoch_id d e f,
    )

-- What NewPreunit builds, if it does not panic.
abbrev pub Builds : (List ℕ → Hash) → ℕ → Crown → List ℕ → List ℕ → List ℕ → Preunit → Type 0
Builds shake n crown payload rs_payload signature u =
    (unit_id u ≡ n)
    × (u.crown ≡ crown)
    × (u.payload ≡ payload)
    × (u.rs_payload ≡ rs_payload)
    × (u.signature ≡ signature)
    × (height_fits u.height (get_elem? u.crown.heights u.creator) ≡ true)
    × (u.hash ≡ compute_hash shake (unit_id u) u.crown u.payload u.rs_payload)

pub new_preunit-Builds :
    (E : Type 0) (shake : List ℕ → Hash) (n : ℕ) (crown : Crown)
    (payload rs_payload signature : List ℕ)
    → n < 2 ^ 64
    → Post
        (new_preunit {E = E} shake n crown payload rs_payload signature)
        (Builds shake n crown payload rs_payload signature)
unfolding new_preunit unit_id
new_preunit-Builds E shake n crown payload rs_payload signature small =
    elim (Bool-cases (height_fits (decode_id n).0 (get_elem? crown.heights (decode_id n).1))) [
      | inl fits ↦ rw fits (
        same,
        refl,
        refl,
        refl,
        refl,
        fits,
        ap (λ m. compute_hash shake m crown payload rs_payload) (sym same),
      )
      | inr off ↦ rw off tt
    ]
  where
    same : id (pos (decode_id n).0) (decode_id n).1 (decode_id n).2 ≡ n
    same = id-decode_id n small
