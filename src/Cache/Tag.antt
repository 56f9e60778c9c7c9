-- ===== src/Cache/Tag.antt =====
-- `Cache::Tag` of include/zfp/internal/array/cache.hpp: a line number and a dirty bit in one
-- 32-bit word, zero for a line that is not in use.
use zfp.Prelude.{ℕ, ◌+◌, ◌*◌, ◌^◌, ◌<◌, ◌≡◌, ◌≢◌, refl, Bool, true, false, u32, ◌!=◌, ◌>>>◌}
use zfp.Prelude.{bit_and, bit_or, arith, if◌then◌else◌}
use zfp.Prelude.Bits.{low_bits, bit_or-one}

abbrev pub TagWord : Type 0
TagWord = ℕ

-- `Tag(x, d)`
unfoldable pub new : ℕ → Bool → TagWord
new x d = u32 (2 * x + (if d then 1 else 0))

unfoldable pub index : TagWord → ℕ
index t = t >>> 1

unfoldable pub dirty : TagWord → Bool
dirty t = bit_and t 1 != 0

unfoldable pub used : TagWord → Bool
used t = t != 0

unfoldable pub mark : TagWord → TagWord
mark t = bit_or t 1

unfoldable pub clear : TagWord
clear = 0

-- The word holds both parts, for line numbers below 2 ^ 31.
pub new_parts : (x : ℕ) (d : Bool) → x < 2 ^ 31 → (index (new x d) ≡ x) × (dirty (new x d) ≡ d)
unfolding new index dirty
new_parts x true h = ground (arith, low_bits 1 (u32 (2 * x + 1)))
new_parts x false h = ground (arith, low_bits 1 (u32 (2 * x + 0)))

-- Marking sets the dirty bit and keeps the line number.
pub mark_parts : (t : TagWord) → (index (mark t) ≡ index t) × (dirty (mark t) ≡ true)
unfolding mark index dirty
mark_parts t = ground (arith, bit_or-one t, low_bits 1 (bit_or t 1))

-- A tag with a line number is in use.
pub used_of_index : (t : TagWord) → index t ≢ 0 → used t ≡ true
unfolding index used
used_of_index t h = ground arith

-- So is a dirty line.
pub used_of_dirty : (t : TagWord) → dirty t ≡ true → used t ≡ true
unfolding dirty used
used_of_dirty t h = ground (arith, low_bits 1 t)

pub index_of_unused : (t : TagWord) → used t ≡ false → index t ≡ 0
unfolding used index
index_of_unused t h = ground arith

pub clear_parts : (used clear ≡ false) × (index clear ≡ 0) × (dirty clear ≡ false)
unfolding used clear index dirty
clear_parts = (refl, refl, refl)
