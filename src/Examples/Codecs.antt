-- ===== src/Examples/Codecs.antt =====
-- The generic codec on numbers that are stored in 32 bits.
use zfp.Prelude.{ℕ, ◌+◌, ◌-◌, ◌*◌, ◌%◌, ◌^◌, ◌≡◌, arith, ◌&&◌, leb, if◌then◌else◌, some, true}
use zfp.Codec.Generic.{encode_block4, decode_block4}
use zfp.Codec.Generic.RoundTrip.{decode_block4-encode_block4}
use zfp.Codec.Generic.Shape.{has_scalar4}
use zfp.Codec.Generic.Blocks.{encode_block4_lem, decode_block4_lem}

abbrev narrow : ℕ → ℕ
narrow e = e % 2 ^ 32

abbrev widen : ℕ → ℕ
widen i = i

abbrev memory : ℕ → ℕ
memory a = 9

abbrev block : ℕ → ℕ
block p = p + 1

encode_block4_example :
    (r : ℕ → ℕ) × (encode_block4 32 narrow widen memory (10 * 32) 118 block ≡ some (256 * 32, r))
    × ((a : ℕ)
        → r a
          ≡ (if leb 10 a && has_scalar4 118 (a - 10) then narrow (block (a - 10)) else memory a))
encode_block4_example =
    encode_block4_lem 32 narrow widen (omega arith) memory 10 118 block (omega arith)

decode_block4_example :
    (r : ℕ → ℕ) × (decode_block4 32 narrow widen memory (10 * 32) 118 block ≡ some (256 * 32, r))
    × ((a : ℕ) → r a ≡ (if has_scalar4 118 a then widen (memory (10 + a)) else block a))
decode_block4_example =
    decode_block4_lem 32 narrow widen (omega arith) memory 10 118 block (omega arith)

decode_block4-encode_block4_example :
    (written : ℕ → ℕ) × (encode_block4 32 narrow widen memory (10 * 32) 118 block
      ≡ some (256 * 32, written))
    × (read : ℕ → ℕ) × (decode_block4 32 narrow widen written (10 * 32) 118 memory
        ≡ some (256 * 32, read))
    × ((a : ℕ) → has_scalar4 118 a ≡ true → read a ≡ widen (narrow (block a)))
decode_block4-encode_block4_example =
    decode_block4-encode_block4 32 narrow widen memory 10 118 block memory (omega arith)
      (omega arith)
