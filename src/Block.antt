-- ===== src/Block.antt =====
-- A block of integers in a bit stream: `encode_block` of src/template/encode.c, `decode_block` of
-- src/template/decode.c, `rev_encode_block` of src/template/revencode.c and `rev_decode_block` of
-- src/template/revdecode.c, for one to four dimensions and words of 32 or 64 bits, and
-- `zfp_encode_block` and `zfp_decode_block` of src/template/encodei.c and decodei.c.
pub mod Precision
pub mod Local
pub mod Rate
pub mod Stored
pub mod Framing
pub mod Lossless
use zfp.Prelude.{
  ℕ, zero, suc, ◌+◌, ◌-◌, ◌*◌, ◌/◌, ◌%◌, ◌^◌, true, false, ltb, ◌==◌, ◌!=◌, if◌then◌else◌, min, max,
  ◌<<<◌, u32, sub32, bit_or,
}
use zfp.Coder.Ints.{encode_ints, decode_ints}
use zfp.BitStream
use zfp.BitStream.{BitStream, writer, reader}
use zfp.Transform.{
  fwd_order, inv_order, rev_fwd_xform1, rev_fwd_xform2, rev_fwd_xform3, rev_fwd_xform4,
  rev_inv_xform1, rev_inv_xform2, rev_inv_xform3, rev_inv_xform4,
}
use zfp.Transform.Tables.{entry, perm}
use zfp.Transform.Lossy.{fwd_xform, inv_xform}

-- PBITS
unfoldable pub pbits : ℕ → ℕ
pbits width = if width == 32 then 5 else 6

unfoldable pub rev_fwd_xform : ℕ → ℕ → (ℕ → ℕ) → (ℕ → ℕ)
rev_fwd_xform width d =
    if d == 1
    then rev_fwd_xform1 width
    else if d == 2
    then rev_fwd_xform2 width
    else if d == 3
    then rev_fwd_xform3 width
    else rev_fwd_xform4 width

unfoldable pub rev_inv_xform : ℕ → ℕ → (ℕ → ℕ) → (ℕ → ℕ)
rev_inv_xform width d =
    if d == 1
    then rev_inv_xform1 width
    else if d == 2
    then rev_inv_xform2 width
    else if d == 3
    then rev_inv_xform3 width
    else rev_inv_xform4 width

-- `while (n--) m |= *block++`, from number `i` on
unfoldable pub or_all : (ℕ → ℕ) → ℕ → ℕ → ℕ → ℕ
or_all block zero i m = m
or_all block (suc n) i m = or_all block n (i + 1) (bit_or m (block i))

-- `for (s = intprec; m; s /= 2)`, on fuel
unfoldable pub precision_loop : ℕ → ℕ → ℕ → ℕ → ℕ → ℕ
precision_loop width zero s m p = p
precision_loop width (suc fuel) s m p = elim (m != 0) [
  | true ↦ elim ((m <<< (s - 1)) % 2 ^ width != 0) [
    | true ↦
        precision_loop width fuel (s / 2) ((((m <<< (s - 1)) % 2 ^ width) <<< 1) % 2 ^ width)
          (p + s)
    | false ↦ precision_loop width fuel (s / 2) m p
  ]
  | false ↦ p
]

unfoldable pub rev_precision : ℕ → (ℕ → ℕ) → ℕ → ℕ
rev_precision width block n = precision_loop width width width (or_all block n 0 0) 0

-- `if (bits < minbits)`, at the end of a block.
unfoldable pub pad_to : BitStream → ℕ → ℕ → BitStream × ℕ
pad_to s minbits bits =
    if ltb bits minbits then (BitStream.pad s (minbits - bits), minbits) else (s, bits)

unfoldable pub skip_to : BitStream → ℕ → ℕ → BitStream × ℕ
skip_to s minbits bits =
    if ltb bits minbits then (BitStream.skip s (minbits - bits), minbits) else (s, bits)

unfoldable pub encode_block : ℕ → ℕ → BitStream → ℕ → ℕ → ℕ → (ℕ → ℕ) → BitStream × ℕ
encode_block width d s minbits maxbits maxprec iblock =
    let ublock = fwd_order width (entry (perm d)) (4 ^ d) 0 (fwd_xform width d iblock) (λ i. 0) in
    let (s', bits) = encode_ints writer (4 ^ d) width s maxbits maxprec ublock in
    pad_to s' minbits bits

-- The block is the third component.
unfoldable pub decode_block : ℕ → ℕ → BitStream → ℕ → ℕ → ℕ → (ℕ → ℕ) → BitStream × ℕ × (ℕ → ℕ)
decode_block width d s minbits maxbits maxprec iblock =
    let (s', ublock, bits) = decode_ints reader (4 ^ d) width s maxbits maxprec in
    let (s'', bits') = skip_to s' minbits bits in
    (s'', bits', inv_xform width d (inv_order width (entry (perm d)) (4 ^ d) 0 ublock iblock))

unfoldable pub rev_encode_block : ℕ → ℕ → BitStream → ℕ → ℕ → ℕ → (ℕ → ℕ) → BitStream × ℕ
rev_encode_block width d s minbits maxbits maxprec iblock =
    let ublock =
      fwd_order width (entry (perm d)) (4 ^ d) 0 (rev_fwd_xform width d iblock) (λ i. 0) in
    let prec = max (min (rev_precision width ublock (4 ^ d)) maxprec) 1 in
    let (rest, s') = BitStream.write_bits s (prec - 1) (pbits width) in
    let (s'', bits) =
      encode_ints writer (4 ^ d) width s' (sub32 maxbits (pbits width)) prec ublock in
    pad_to s'' minbits (u32 (pbits width + bits))

unfoldable pub rev_decode_block : ℕ → ℕ → BitStream → ℕ → ℕ → (ℕ → ℕ) → BitStream × ℕ × (ℕ → ℕ)
rev_decode_block width d s minbits maxbits iblock =
    let (p, s') = BitStream.read_bits s (pbits width) in
    let (s'', ublock, bits) =
      decode_ints reader (4 ^ d) width s' (sub32 maxbits (pbits width)) (u32 p + 1) in
    let (s₃, bits') = skip_to s'' minbits (u32 (pbits width + bits)) in
    (s₃, bits', rev_inv_xform width d (inv_order width (entry (perm d)) (4 ^ d) 0 ublock iblock))
