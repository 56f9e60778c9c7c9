-- ===== src/Compress/Array.antt =====
-- The round trip of an array in reversible mode.
use zfp.Prelude.{
  ℕ, zero, suc, ◌+◌, ◌-◌, ◌*◌, ◌/◌, ◌^◌, ◌≤◌, ◌<◌, max, ◌≡◌, refl, sym, ap, ◌∙◌, arith, List, [],
  ◌++◌, true, u32, ltb, Bool-cases, inl, inr,
}
use mathlib.Core.Path.{subst}
use mathlib.Core.List.{append_assoc, append-nil}
use zfp.Prelude.Lists.{length}
use zfp.BitStream.{BitStream, flush, rewind}
use native.Mathlib.Nat.{suc-mul}
use zfp.BitStream.Value.{length-append}
use zfp.BitStream.Writing.{Wrote}
use zfp.BitStream.Reading.{Ahead}
use zfp.BitStream.Transfer.{rewind-flush-Ahead}
use zfp.Stream.{Params, is_reversible}
use zfp.Transform.Inverse.{IsBlock}
use zfp.Block.Rate.{pbits_lem, rev_encode_block-Framed}
use zfp.Block.Framing.{IsWord}
use zfp.Block.Lossless.{rev_decode_block-rev_encode_block}
use zfp.Compress.{
  zfp_encode_block, zfp_decode_block, gather_partial1, scatter_line, encode_partial_block_strided1,
  decode_partial_block_strided1, compress_blocks, compress1, decompress_blocks, decompress1,
  whole_elements,
}
use zfp.Compress.Lines.{scatter_line_lem, gather_partial1-IsBlock, gather_partial1_lem}

-- Parameters of the reversible mode, with room for all bits of a block.
pub record IsLossless (width : ℕ) (zfp : Params) : Type 0 where
  pub word : IsWord width
  pub reversible : is_reversible zfp ≡ true
  pub planes : width ≤ zfp.maxprec
  pub most : zfp.maxprec ≤ 64
  pub room : (width + 1) * 4 + 5 ≤ zfp.maxbits
  pub bounded : zfp.maxbits < 2 ^ 32

-- The bits of a block at most.
abbrev pub block_bits : Params → ℕ
block_bits zfp = max zfp.minbits zfp.maxbits

-- A writer went from `bs` to s, and a reader that finds what it wrote restores the elements of the
-- array from x on, n of them, and leaves those before.
record Restored (limit : ℕ) (bs : List ℕ) (s : BitStream) (x n : ℕ) (array : ℕ → ℕ)
    (read : BitStream → (ℕ → ℕ) → BitStream × (ℕ → ℕ)) : Type 0 where
  written : List ℕ
  short : length written ≤ limit
  wrote : Wrote s (bs ++ written)
  back :
      (last : ℕ) (r : BitStream) (rest : List ℕ) (initial : ℕ → ℕ)
      → Ahead last r (written ++ rest)
      → let (r', out) = read r initial in
        ((j : ℕ) → x ≤ j → j < x + n → out j ≡ array j)
        × ((j : ℕ) → j < x → out j ≡ initial j)
        × Ahead last r' rest

-- A block of the array.
block_lem :
    (width : ℕ) (zfp : Params) (s : BitStream) (block : ℕ → ℕ) (bs : List ℕ)
    → IsLossless width zfp
    → IsBlock width block
    → Wrote s bs
    → (written : List ℕ) × (length written ≤ block_bits zfp)
      × Wrote (zfp_encode_block width 1 zfp s block).0 (bs ++ written)
      × ((last : ℕ) (r : BitStream) (rest : List ℕ) (initial : ℕ → ℕ)
          → Ahead last r (written ++ rest)
          → let out = zfp_decode_block width 1 zfp r initial in
            ((a : ℕ) → a < 4 → out.2 a ≡ block a) × Ahead last out.0 rest)
unfolding zfp_encode_block zfp_decode_block
block_lem width zfp s block bs p words h =
    let (written, wrote, back) =
      rev_decode_block-rev_encode_block width 1 s zfp.minbits zfp.maxbits zfp.maxprec block bs
        p.word (omega arith) (omega arith) p.planes p.room p.bounded words h in
    let f =
      rev_encode_block-Framed width 1 s zfp.minbits zfp.maxbits zfp.maxprec block bs (omega arith)
        p.most (omega (arith, p.room, (pbits_lem width).0)) p.bounded h in
    rw p.reversible (
      written,
      omega (
        arith,
        f.most,
        f.wrote.length_here,
        wrote.length_here,
        length-append bs written,
        length-append bs f.written,
      ),
      wrote,
      λ last r rest initial ahead.
          let (same, count, after) = back last r rest initial ahead in (same, after),
    )

compress_blocks-Restored :
    (width : ℕ) (zfp : Params) (array : ℕ → ℕ) (blocks x : ℕ) (s : BitStream) (bs : List ℕ)
    → IsLossless width zfp
    → IsBlock width array
    → Wrote s bs
    → Restored
        (blocks * block_bits zfp)
        bs
        (compress_blocks width zfp blocks x s array)
        x
        (4 * blocks)
        array
        (decompress_blocks width zfp blocks x)
unfolding compress_blocks decompress_blocks
compress_blocks-Restored width zfp array zero x s bs p words h = record {
  written = [];
  short = omega arith;
  wrote = subst (Wrote s) (sym (append-nil bs)) h;
  back = λ last r rest initial ahead. (λ j from to. absurd (omega arith), λ j before. refl, ahead);
}
compress_blocks-Restored width zfp array (suc blocks) x s bs p words h =
    let block : ℕ → ℕ = λ i. array (x + i) in
    let (first, few, wrote, back) = block_lem width zfp s block bs p (λ i. words (x + i)) h in
    let s' = (zfp_encode_block width 1 zfp s block).0 in
    let rest_blocks =
      compress_blocks-Restored width zfp array blocks (x + 4) s' (bs ++ first) p words wrote in
    record {
      written = first ++ rest_blocks.written;
      short = omega (
        arith,
        few,
        rest_blocks.short,
        length-append first rest_blocks.written,
        suc-mul blocks (block_bits zfp),
      );
      wrote = subst (Wrote _) (append_assoc bs first rest_blocks.written) rest_blocks.wrote;
      back = λ last r rest initial ahead.
          let (same, after) =
            back last r (rest_blocks.written ++ rest) (λ i. initial (x + i))
              (subst (Ahead last r) (append_assoc first rest_blocks.written rest) ahead) in
          let (r', bits, decoded) = zfp_decode_block width 1 zfp r (λ i. initial (x + i)) in
          let next = scatter_line 4 0 decoded x initial 1 in
          let (later, before, ends) = rest_blocks.back last r' rest next after in
          (
            λ j from to. elim (Bool-cases (ltb j (x + 4))) [
              | inl here ↦
                  before j (ground (arith, here))
                  ∙ (scatter_line_lem 4 0 decoded x initial j).0 (omega (arith, from))
                      (ground (arith, here))
                  ∙ same (j - x) (ground (arith, here, from))
                  ∙ ap array {x = x + (j - x)} {y = j} (omega (arith, from))
              | inr there ↦ later j (ground (arith, there)) (omega (arith, to))
            ],
            λ j earlier.
                before j (omega (arith, earlier))
                ∙ (scatter_line_lem 4 0 decoded x initial j).1 (omega (arith, earlier)),
            ends,
          );
    }

-- All elements of the array, with a partial block at the end.
compress1-Restored :
    (width : ℕ) (zfp : Params) (array block : ℕ → ℕ) (nx : ℕ) (s : BitStream) (bs : List ℕ)
    → nx < 2 ^ 32
    → IsLossless width zfp
    → IsBlock width array
    → Wrote s bs
    → Restored
        ((nx / 4 + 1) * block_bits zfp)
        bs
        (compress1 width zfp s array nx)
        0
        nx
        array
        (λ r initial. decompress1 width zfp block r initial nx)
unfolding compress1 decompress1 whole_elements encode_partial_block_strided1
    decode_partial_block_strided1
compress1-Restored width zfp array block nx s bs fits p words h =
    let mx = u32 nx / 4 * 4 in
    let blocks = mx / 4 in
    let all : blocks ≡ nx / 4 = omega (arith, fits) in
    let below : (mx ≡ 4 * blocks) × (mx ≤ nx) × (nx < mx + 4) = omega (arith, fits) in
    let whole = compress_blocks-Restored width zfp array blocks 0 s bs p words h in
    let s₁ = compress_blocks width zfp blocks 0 s array in
    let line : ℕ → ℕ = λ i. array (mx + i) in
    let total : (nx / 4 + 1) * block_bits zfp ≡ blocks * block_bits zfp + block_bits zfp =
      ap (λ m. m * block_bits zfp) {x = nx / 4 + 1} {y = suc blocks} (omega (arith, all))
      ∙ suc-mul blocks (block_bits zfp) in
    elim (Bool-cases (ltb mx nx)) [
      | inl more ↦
          let n = nx - mx in
          let gathered = gather_partial1-IsBlock width line n (λ i. words (mx + i)) in
          let (last_bits, few, wrote, back) =
            block_lem width zfp s₁ (gather_partial1 line n 1) (bs ++ whole.written) p gathered
              whole.wrote in
          rw more record {
            written = whole.written ++ last_bits;
            short = omega (arith, few, whole.short, length-append whole.written last_bits, total);
            wrote = subst (Wrote _) (append_assoc bs whole.written last_bits) wrote;
            back = λ last r rest initial ahead.
                let (here, before, after) =
                  whole.back last r (last_bits ++ rest) initial
                    (subst (Ahead last r) (append_assoc whole.written last_bits rest) ahead) in
                let (r', out) = decompress_blocks width zfp blocks 0 r initial in
                let (same, ends) = back last r' rest block after in
                let decoded = (zfp_decode_block width 1 zfp r' block).2 in
                (
                  λ j from to. elim (Bool-cases (ltb j mx)) [
                    | inl early ↦
                        (scatter_line_lem n 0 decoded mx out j).1 (ground (arith, early))
                        ∙ here j from (ground (arith, early))
                    | inr late ↦
                        (scatter_line_lem n 0 decoded mx out j).0 (ground (arith, late))
                          (ground (arith, to, more))
                        ∙ same (j - mx) (ground (arith, to))
                        ∙ gather_partial1_lem line n (j - mx) (ground (arith, late, to))
                        ∙ ap array {x = mx + (j - mx)} {y = j} (ground (arith, late))
                  ],
                  λ j earlier. absurd (omega arith),
                  ends,
                );
          }
      | inr none ↦ rw none record {
        written = whole.written;
        short = omega (arith, whole.short, total);
        wrote = whole.wrote;
        back = λ last r rest initial ahead.
            let (here, before, after) = whole.back last r rest initial ahead in
            (λ j from to. here j from (ground (arith, to, none)), before, after);
      }
    ]

-- A contiguous one-dimensional array of fewer than 2^32 integers of 32 or 64 bits that `compress` writes to an empty
-- stream in reversible mode, with all bit planes and room for them in a block, and that is flushed
-- and rewound, `decompress` restores, element by element, if its blocks have fewer than 2^63 bits at
-- most; what was in the memory before makes no difference.
pub decompress1-compress1 :
    (width : ℕ) (zfp : Params) (s : BitStream) (array initial block : ℕ → ℕ) (nx j : ℕ)
    → nx < 2 ^ 32
    → IsLossless width zfp
    → IsBlock width array
    → Wrote s []
    → (nx / 4 + 1) * block_bits zfp < 2 ^ 63
    → j < nx
    → (decompress1 width zfp block (rewind (flush (compress1 width zfp s array nx)).1) initial nx).1
        j
      ≡ array j
decompress1-compress1 width zfp s array initial block nx j fits p words h short inside =
    let c = compress1-Restored width zfp array block nx s [] fits p words h in
    let s' = compress1 width zfp s array nx in
    let ahead = rewind-flush-Ahead s' c.written c.wrote (omega (arith, short, c.short)) in
    let (same, before, after) =
      c.back (length c.written) (rewind (flush s').1) [] initial (
        subst (Ahead (length c.written) (rewind (flush s').1)) (sym (append-nil c.written))
          ahead) in
    same j (omega arith) (omega (arith, inside))
