-- ===== src/Block/Rate.antt =====
-- The number of bits of a block.
use zfp.Prelude.{
  ℕ, ◌+◌, ◌-◌, ◌^◌, ◌≤◌, ◌<◌, ◌≡◌, arith, List, ◌++◌, ltb, min, max, u32, sub32, Bool-cases, inl,
  inr, ◌==◌,
}
use mathlib.Core.Path.{subst}
use mathlib.Core.List.{append_assoc}
use native.Mathlib.Nat.{pow-le-pow_right}
use zfp.Prelude.Lists.{length}
use zfp.BitStream.Value.{length-append, length-digits}
use zfp.BitStream.Writing.{Wrote, write_bits-Wrote}
use zfp.BitStream.Transfer.{bit_stream, pad-Wrote}
use zfp.BitStream
use zfp.BitStream.{BitStream, writer, reader}
use zfp.Coder.{digits}
use zfp.Coder.Ints.{encode_ints}
use zfp.Coder.Ints.Bounds.{encode_ints-Within}
use zfp.Transform.{fwd_order}
use zfp.Transform.Order.{fwd_order-small}
use zfp.Transform.Tables.{entry, perm}
use zfp.Transform.Lossy.{fwd_xform}
use zfp.Block.{pbits, pad_to, encode_block, rev_encode_block, rev_fwd_xform, rev_precision}

-- What a block wrote, and the number that its encoder returns.
pub record Framed (minbits maxbits : ℕ) (bs : List ℕ) (r : BitStream × ℕ) : Type 0 where
  pub written : List ℕ
  pub wrote : Wrote r.0 (bs ++ written)
  pub count : r.1 ≡ length written
  pub least : minbits ≤ length written
  pub most : length written ≤ max minbits maxbits

pad_to-Framed :
    (s : BitStream) (minbits maxbits bits : ℕ) (bs written : List ℕ)
    → Wrote s (bs ++ written)
    → bits ≡ length written
    → bits ≤ maxbits
    → Framed minbits maxbits bs (pad_to s minbits bits)
unfolding pad_to
pad_to-Framed s minbits maxbits bits bs written h count few = elim (Bool-cases (ltb bits minbits)) [
  | inl short ↦
      let n = minbits - bits in
      let total : length (written ++ digits n 0) ≡ minbits =
        ground (arith, short, count, length-append written (digits n 0), length-digits n 0) in
      rw (pad_to, short)
        record {
          written = written ++ digits n 0;
          wrote =
              subst (Wrote _) (append_assoc bs written (digits n 0))
                (pad-Wrote s n (bs ++ written) h);
          count = omega (arith, total);
          least = omega (arith, total);
          most = omega (arith, total);
        }
  | inr enough ↦
      rw (pad_to, enough)
        record {
          written = written;
          wrote = h;
          count = count;
          least = ground (arith, enough, count);
          most = omega (arith, count, few);
        }
]

pub sizes : (d : ℕ) → d ≤ 4 → (1 ≤ 4 ^ d) × (4 ^ d ≤ 256)
sizes d few = (
  pow-le-pow_right {n = 4} (omega arith) {i = 0} {j = d} (omega arith),
  pow-le-pow_right {n = 4} (omega arith) {i = d} {j = 4} few,
)

-- `encode_block` writes at least `minbits` bits and no more than the larger of `minbits` and
-- `maxbits`, so exactly that many when they are equal, and returns their number, for up to four
-- dimensions and 64 bit planes.
pub encode_block-Framed :
    (width d : ℕ) (s : BitStream) (minbits maxbits maxprec : ℕ) (iblock : ℕ → ℕ) (bs : List ℕ)
    → d ≤ 4
    → maxprec ≤ 64
    → Wrote s bs
    → Framed minbits maxbits bs (encode_block width d s minbits maxbits maxprec iblock)
unfolding encode_block
encode_block-Framed width d s minbits maxbits maxprec iblock bs few some h =
    let (one, most) = sizes d few in
    let block = fwd_xform width d iblock in
    let ublock = fwd_order width (entry (perm d)) (4 ^ d) 0 block (λ i. 0) in
    let w =
      encode_ints-Within writer reader (bit_stream 0) (4 ^ d) width s maxbits maxprec ublock bs some
        one most (fwd_order-small width (entry (perm d)) (4 ^ d) block (λ i. 0)) h in
    let (s', bits) = encode_ints writer (4 ^ d) width s maxbits maxprec ublock in
    pad_to-Framed s' minbits maxbits bits bs w.written w.wrote w.count
      (omega (arith, w.count, w.within))

pub pbits_lem : (width : ℕ) → (pbits width ≤ 6) × (5 ≤ pbits width)
unfolding pbits
pbits_lem width = elim (Bool-cases (width == 32)) [
  | inl narrow ↦ rw narrow (omega arith, omega arith)
  | inr wide ↦ rw wide (omega arith, omega arith)
]

-- `rev_encode_block` writes at least `minbits` bits and no more than the larger of `minbits` and
-- `maxbits`, its precision included, and returns their number, for up to four dimensions and 64 bit
-- planes, if `maxbits` is below 2^32 and not below the bits of the precision, 5 or 6.
pub rev_encode_block-Framed :
    (width d : ℕ) (s : BitStream) (minbits maxbits maxprec : ℕ) (iblock : ℕ → ℕ) (bs : List ℕ)
    → d ≤ 4
    → maxprec ≤ 64
    → pbits width ≤ maxbits
    → maxbits < 2 ^ 32
    → Wrote s bs
    → Framed minbits maxbits bs (rev_encode_block width d s minbits maxbits maxprec iblock)
unfolding rev_encode_block
rev_encode_block-Framed width d s minbits maxbits maxprec iblock bs few some room bounded h =
    let (one, most) = sizes d few in
    let (small, _) = pbits_lem width in
    let block = rev_fwd_xform width d iblock in
    let ublock = fwd_order width (entry (perm d)) (4 ^ d) 0 block (λ i. 0) in
    let prec = max (min (rev_precision width ublock (4 ^ d)) maxprec) 1 in
    let b = pbits width in
    let (rest, wrote) =
      write_bits-Wrote s bs (prec - 1) b (omega (arith, small)) (omega (arith, some)) h in
    let (rest_value, s') = BitStream.write_bits s (prec - 1) b in
    let w =
      encode_ints-Within writer reader (bit_stream 0) (4 ^ d) width s' (sub32 maxbits b) prec ublock
        (bs ++ digits b (prec - 1)) (omega (arith, some)) one most
        (fwd_order-small width (entry (perm d)) (4 ^ d) block (λ i. 0)) wrote in
    let (s'', bits) = encode_ints writer (4 ^ d) width s' (sub32 maxbits b) prec ublock in
    let all : length (digits b (prec - 1) ++ w.written) ≡ b + length w.written =
      omega (arith, length-append (digits b (prec - 1)) w.written, length-digits b (prec - 1)) in
    let left : sub32 maxbits b ≡ maxbits - b = omega (arith, bounded, room, small) in
    pad_to-Framed s'' minbits maxbits (u32 (b + bits)) bs (digits b (prec - 1) ++ w.written)
      (subst (Wrote s'') (append_assoc bs (digits b (prec - 1)) w.written) w.wrote)
      (omega (arith, all, w.count, w.within, left, room, small, bounded))
      (omega (arith, w.count, w.within, left, room, small, bounded))
