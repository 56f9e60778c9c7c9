-- ===== src/Promote.antt =====
-- The conversions of src/zfp.c between blocks of 8-bit or 16-bit integers and blocks of 32-bit ones.
pub mod Clamp
use zfp.Prelude.{ℕ, zero, suc, ◌+◌, ◌-◌, ◌*◌, ◌/◌, ◌^◌}
use zfp.Prelude.Int.{ℤ, pos, negsuc, ◌+ℤ◌, ◌-ℤ◌, ◌*ℤ◌, min_ℤ, max_ℤ}
use zfp.BlockCache.{update}

-- The shifts of a signed integer; the one to the right keeps the sign.
abbrev pub shl : ℤ → ℕ → ℤ
shl x n = x *ℤ pos (2 ^ n)

abbrev pub shr : ℤ → ℕ → ℤ
shr (pos m) n = pos (m / 2 ^ n)
shr (negsuc m) n = negsuc (m / 2 ^ n)

-- `while (count--) *oblock++ = f(*iblock++)`, from number `i` on.
unfoldable pub convert : (ℤ → ℤ) → ℕ → ℕ → (ℕ → ℤ) → (ℕ → ℤ) → (ℕ → ℤ)
convert f zero i iblock oblock = oblock
convert f (suc count) i iblock oblock =
    convert f count (i + 1) iblock (update oblock i (f (iblock i)))

abbrev pub block_count : ℕ → ℕ
block_count dims = 2 ^ (2 * dims)

unfoldable pub promote_int8 : ℕ → (ℕ → ℤ) → (ℕ → ℤ) → (ℕ → ℤ)
promote_int8 dims = convert (λ x. shl x 23) (block_count dims) 0

unfoldable pub promote_uint8 : ℕ → (ℕ → ℤ) → (ℕ → ℤ) → (ℕ → ℤ)
promote_uint8 dims = convert (λ x. shl (x -ℤ pos 0x80) 23) (block_count dims) 0

unfoldable pub promote_int16 : ℕ → (ℕ → ℤ) → (ℕ → ℤ) → (ℕ → ℤ)
promote_int16 dims = convert (λ x. shl x 15) (block_count dims) 0

unfoldable pub promote_uint16 : ℕ → (ℕ → ℤ) → (ℕ → ℤ) → (ℕ → ℤ)
promote_uint16 dims = convert (λ x. shl (x -ℤ pos 0x8000) 15) (block_count dims) 0

unfoldable pub demote_int8 : ℕ → (ℕ → ℤ) → (ℕ → ℤ) → (ℕ → ℤ)
demote_int8 dims =
    convert (λ x. max_ℤ (negsuc 0x7f) (min_ℤ (shr x 23) (pos 0x7f))) (block_count dims) 0

unfoldable pub demote_uint8 : ℕ → (ℕ → ℤ) → (ℕ → ℤ) → (ℕ → ℤ)
demote_uint8 dims =
    convert (λ x. max_ℤ (pos 0) (min_ℤ (shr x 23 +ℤ pos 0x80) (pos 0xff))) (block_count dims) 0

unfoldable pub demote_int16 : ℕ → (ℕ → ℤ) → (ℕ → ℤ) → (ℕ → ℤ)
demote_int16 dims =
    convert (λ x. max_ℤ (negsuc 0x7fff) (min_ℤ (shr x 15) (pos 0x7fff))) (block_count dims) 0

unfoldable pub demote_uint16 : ℕ → (ℕ → ℤ) → (ℕ → ℤ) → (ℕ → ℤ)
demote_uint16 dims =
    convert (λ x. max_ℤ (pos 0) (min_ℤ (shr x 15 +ℤ pos 0x8000) (pos 0xffff))) (block_count dims) 0

-- The four pairs of functions.
pub data Small : Type 0 where
  int8 uint8 int16 uint16 : Small

abbrev pub promote : Small → ℕ → (ℕ → ℤ) → (ℕ → ℤ) → (ℕ → ℤ)
promote int8 = promote_int8
promote uint8 = promote_uint8
promote int16 = promote_int16
promote uint16 = promote_uint16

abbrev pub demote : Small → ℕ → (ℕ → ℤ) → (ℕ → ℤ) → (ℕ → ℤ)
demote int8 = demote_int8
demote uint8 = demote_uint8
demote int16 = demote_int16
demote uint16 = demote_uint16
