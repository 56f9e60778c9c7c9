-- ===== src/Examples/Blocks.antt =====
-- Conversions of small integers in a block.
use zfp.Prelude.{ℕ, ◌≡◌, arith}
use zfp.Prelude.Int.{ℤ, pos, negsuc}
use zfp.Promote.{promote, demote, int8, uint16}
use zfp.Promote.Clamp.{IsBetween, lowest, highest, demote-promote, demote-IsBetween}

abbrev lows : ℕ → ℤ
lows a = negsuc 127

abbrev zeros : ℕ → ℤ
zeros a = pos 0

-- 61035 * 2^15, past the largest 16-bit value
abbrev large : ℕ → ℤ
large a = pos 1999994880

demote-promote_example : demote int8 2 (promote int8 2 lows zeros) zeros 15 ≡ lows 15
demote-promote_example =
    demote-promote int8 2 lows zeros zeros 15 (omega arith)
      record { least = omega arith; most = omega arith }

demote-IsBetween_example :
    IsBetween (lowest uint16) (highest uint16) (demote uint16 3 large zeros 63)
demote-IsBetween_example = demote-IsBetween uint16 3 large zeros 63 (omega arith)
