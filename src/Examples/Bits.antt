-- ===== src/Examples/Bits.antt =====
-- Blocks and arrays in a bit stream.
use zfp.Prelude.{ℕ, ◌+◌, ◌*◌, ◌/◌, ◌%◌, ◌^◌, ◌-◌, ◌≤◌, ◌<◌, ◌≡◌, refl, arith, inl, List, [], ◌++◌}
use zfp.Prelude.Int.{negsuc}
use zfp.Prelude.Lists.{length}
use zfp.Coder.{digits}
use zfp.Coder.Ints.{encode_ints}
use zfp.Coder.Ints.Bounds.{Within, encode_ints-Within}
use zfp.BitStream.{
  BitStream, open_stream, flush, rewind, writer, reader, write_bits, read_bits, skip,
}
use zfp.BitStream.Value.{length-digits}
use zfp.BitStream.Writing.{Wrote, write_bits-Wrote}
use zfp.BitStream.Reading.{Ahead, read_bits-Ahead}
use zfp.BitStream.Seeking.{skip-Ahead}
use zfp.BitStream.Transfer.{bit_stream, open_stream-Wrote, rewind-flush-Ahead, flush-Wrote}
use zfp.Stream.{Params, is_reversible}
use zfp.Block.{encode_block, rev_encode_block, rev_decode_block, rev_precision}
use zfp.Block.Rate.{Framed, pbits_lem, encode_block-Framed, rev_encode_block-Framed}
use zfp.Block.Precision.{rev_precision_lem}
use zfp.Block.Lossless.{rev_decode_block-rev_encode_block}
use zfp.Compress.{whole_elements, compress1, decompress1}
use zfp.Compress.Array.{IsLossless, decompress1-compress1}

abbrev start : BitStream
start = open_stream (λ i. 0) 64

start-Wrote : Wrote start []
start-Wrote = open_stream-Wrote (λ i. 0) 64 (λ i. omega arith)

abbrev ramp : ℕ → ℕ
ramp i = i * 1000 % 2 ^ 32

ramp-IsBlock : (i : ℕ) → ramp i < 2 ^ 32
ramp-IsBlock i = omega arith

abbrev lossless_params : Params
lossless_params = record { minbits = 1; maxbits = 16658; maxprec = 64; minexp = negsuc 1074 }

lossless_params-IsLossless : IsLossless 32 lossless_params
unfolding is_reversible
lossless_params-IsLossless = record {
  word = inl refl;
  reversible = refl;
  planes = omega arith;
  most = omega arith;
  room = omega arith;
  bounded = omega arith;
}

-- Four elements are whole, and what is left is 2^32 elements.
whole_elements_test : whole_elements (2 ^ 32 + 4) ≡ 4
unfolding whole_elements
whole_elements_test = omega arith

decompress1-compress1_example :
    (decompress1 32 lossless_params
        (λ i. 7)
        (rewind (flush (compress1 32 lossless_params start ramp 6)).1)
        (λ i. 9)
        6).1
      5
    ≡ ramp 5
decompress1-compress1_example =
    decompress1-compress1 32 lossless_params start ramp (λ i. 9) (λ i. 7) 6 5 (omega arith)
      lossless_params-IsLossless ramp-IsBlock start-Wrote (omega arith) (omega arith)

rev_decode_block-rev_encode_block_example :
    let (s', bits) = rev_encode_block 32 2 start 1 16658 64 ramp in
    (written : List ℕ) × Wrote s' ([] ++ written)
    × ((last : ℕ) (r : BitStream) (rest : List ℕ) (initial : ℕ → ℕ)
        → Ahead last r (written ++ rest)
        → let out = rev_decode_block 32 2 r 1 16658 initial in
          ((a : ℕ) → a < 4 ^ 2 → out.2 a ≡ ramp a) × (out.1 ≡ bits) × Ahead last out.0 rest)
rev_decode_block-rev_encode_block_example =
    rev_decode_block-rev_encode_block 32 2 start 1 16658 64 ramp [] (inl refl) (omega arith)
      (omega arith) (omega arith) (omega arith) (omega arith) ramp-IsBlock start-Wrote

encode_block-Framed_example : Framed 500 500 [] (encode_block 32 3 start 500 500 64 ramp)
encode_block-Framed_example =
    encode_block-Framed 32 3 start 500 500 64 ramp [] (omega arith) (omega arith) start-Wrote

rev_encode_block-Framed_example : Framed 300 400 [] (rev_encode_block 32 2 start 300 400 64 ramp)
rev_encode_block-Framed_example =
    rev_encode_block-Framed 32 2 start 300 400 64 ramp [] (omega arith) (omega arith)
      (omega (arith, (pbits_lem 32).0)) (omega arith) start-Wrote

encode_ints-Within_example :
    Within writer reader (bit_stream 0) 256 100 [] (encode_ints writer 256 32 start 100 20 ramp)
encode_ints-Within_example =
    encode_ints-Within writer reader (bit_stream 0) 256 32 start 100 20 ramp [] (omega arith)
      (omega arith) (omega arith) (λ a l. ramp-IsBlock a) start-Wrote

rev_precision_lem_example :
    (rev_precision 32 ramp 16 ≤ 32)
    × ((a : ℕ)
        → a < 16
        → let p = rev_precision 32 ramp 16 in ramp a / 2 ^ (32 - p) * 2 ^ (32 - p) ≡ ramp a)
rev_precision_lem_example =
    rev_precision_lem 32 5 ramp 16 (omega arith) (omega arith) (λ a l. ramp-IsBlock a)

abbrev written : BitStream
written = (write_bits start 12345 40).1

write_bits-Wrote_example :
    ((write_bits start 12345 40).0 ≡ 12345 / 2 ^ 40) × Wrote written ([] ++ digits 40 12345)
write_bits-Wrote_example =
    write_bits-Wrote start [] 12345 40 (omega arith) (omega arith) start-Wrote

written-Wrote : Wrote written (digits 40 12345)
written-Wrote = (write_bits-Wrote start [] 12345 40 (omega arith) (omega arith) start-Wrote).1

flush-Wrote_example :
    Wrote (flush written).1 (digits 40 12345 ++ digits (flush written).0 0)
    × ((flush written).0 < 64)
    × ((flush written).1.bits ≡ 0)
    × ((length (digits 40 12345) + (flush written).0) % 64 ≡ 0)
flush-Wrote_example = flush-Wrote written (digits 40 12345) written-Wrote

rewind-flush-Ahead_example : Ahead 40 (rewind (flush written).1) (digits 40 12345)
unfolding digits
rewind-flush-Ahead_example =
    rewind-flush-Ahead written (digits 40 12345) written-Wrote
      (omega (arith, length-digits 40 12345))

parts-Ahead : Ahead 40 (rewind (flush written).1) (digits 13 12345 ++ digits 27 (12345 / 2 ^ 13))
unfolding digits
parts-Ahead =
    rewind-flush-Ahead written (digits 40 12345) written-Wrote
      (omega (arith, length-digits 40 12345))

read_bits-Ahead_example :
    ((read_bits (rewind (flush written).1) 13).0 ≡ 12345 % 2 ^ 13)
    × Ahead 40 (read_bits (rewind (flush written).1) 13).1 (digits 27 (12345 / 2 ^ 13))
read_bits-Ahead_example =
    read_bits-Ahead (rewind (flush written).1) 12345 13 (digits 27 (12345 / 2 ^ 13)) (omega arith)
      parts-Ahead

skip-Ahead_example : Ahead 40 (skip (rewind (flush written).1) 13) (digits 27 (12345 / 2 ^ 13))
skip-Ahead_example =
    skip-Ahead (rewind (flush written).1) 13 12345 (digits 27 (12345 / 2 ^ 13)) parts-Ahead
