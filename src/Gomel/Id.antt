-- ===== src/Gomel/Id.antt =====
-- pkg/gomel/preunit.go: the number that stands for a (height, creator, epoch) triple.
use consensus_go.Base.{ℕ, ◌+◌, ◌*◌, ◌/◌, ◌%◌, ◌^◌, ◌-◌, ◌<◌, ◌≡◌, arith}
use consensus_go.Base.Int.{ℤ, pos, negsuc}

-- Go's conversion `uint64(height)` of an `int`.
abbrev pub to_u64 : ℤ → ℕ
to_u64 (pos n) = n % 2 ^ 64
to_u64 (negsuc n) = 2 ^ 64 - 1 - n % 2 ^ 64

-- `result += uint64(creator) << 16; result += uint64(epoch) << 32`, on 64 bits.
unfoldable pub id : ℤ → ℕ → ℕ → ℕ
id height creator epoch =
    ((to_u64 height + creator * 2 ^ 16 % 2 ^ 64) % 2 ^ 64 + epoch * 2 ^ 32 % 2 ^ 64) % 2 ^ 64

-- `id & (1<<16 - 1)`, twice, and what is left as a uint32.
unfoldable pub decode_id : ℕ → ℕ × ℕ × ℕ
decode_id n = (n % 2 ^ 16, n / 2 ^ 16 % 2 ^ 16, n / 2 ^ 16 / 2 ^ 16 % 2 ^ 32)

-- Decoding the identifier of a triple within its field widths (16, 16 and 32 bits) gives the
-- triple back.
pub decode_id-id :
    (height creator epoch : ℕ)
    → height < 2 ^ 16
    → creator < 2 ^ 16
    → epoch < 2 ^ 32
    → decode_id (id (pos height) creator epoch) ≡ (height, creator, epoch)
unfolding id decode_id
decode_id-id height creator epoch hh hc he = ground arith

-- Every 64-bit number is the identifier of the triple that it decodes to.
pub id-decode_id :
    (n : ℕ) → n < 2 ^ 64 → id (pos (decode_id n).0) (decode_id n).1 (decode_id n).2 ≡ n
unfolding id decode_id
id-decode_id n h = omega arith

-- The identifier stays within 64 bits.
pub id_bound : (height : ℤ) (creator epoch : ℕ) → id height creator epoch < 2 ^ 64
unfolding id
id_bound height creator epoch = omega arith

-- The identifier of an in-range triple in closed form.
pub id_sum :
    (height creator epoch : ℕ)
    → height < 2 ^ 16
    → creator < 2 ^ 16
    → epoch < 2 ^ 32
    → id (pos height) creator epoch ≡ height + creator * 2 ^ 16 + epoch * 2 ^ 32
unfolding id
id_sum height creator epoch hh hc he = omega arith
