-- ===== src/Compress.antt =====
-- The compression of a contiguous array of integers of one dimension: `compress` of
-- src/template/compress.c and `decompress` of src/template/decompress.c, with the functions of
-- src/template/encode1.c, encodei.c, decode1.c and decodei.c that they call for a block. An array
-- is a function from the number of an element, and a pointer is an offset into it.
pub mod Lines
pub mod Array
use zfp.Prelude.{ℕ, zero, suc, ◌+◌, ◌-◌, ◌*◌, ◌/◌, ltb, leb, ◌==◌, if◌then◌else◌, u32}
use zfp.BlockCache.{update}
use zfp.BitStream.{BitStream}
use zfp.Stream.{Params, is_reversible}
use zfp.Block.{encode_block, decode_block, rev_encode_block, rev_decode_block}

-- `zfp_encode_block`, of a copy of the block.
unfoldable pub zfp_encode_block : ℕ → ℕ → Params → BitStream → (ℕ → ℕ) → BitStream × ℕ
zfp_encode_block width d zfp s iblock =
    if is_reversible zfp
    then rev_encode_block width d s zfp.minbits zfp.maxbits zfp.maxprec iblock
    else encode_block width d s zfp.minbits zfp.maxbits zfp.maxprec iblock

unfoldable pub zfp_decode_block : ℕ → ℕ → Params → BitStream → (ℕ → ℕ) → BitStream × ℕ × (ℕ → ℕ)
zfp_decode_block width d zfp s iblock =
    if is_reversible zfp
    then rev_decode_block width d s zfp.minbits zfp.maxbits iblock
    else decode_block width d s zfp.minbits zfp.maxbits zfp.maxprec iblock

-- `pad_block`, whose cases fall through.
unfoldable pub pad_block : (ℕ → ℕ) → ℕ → ℕ → (ℕ → ℕ)
pad_block p n s =
    let p₀ = if n == 0 then update p (0 * s) 0 else p in
    let p₁ = if leb n 1 then update p₀ (1 * s) (p₀ (0 * s)) else p₀ in
    let p₂ = if leb n 2 then update p₁ (2 * s) (p₁ (1 * s)) else p₁ in
    if leb n 3 then update p₂ (3 * s) (p₂ (0 * s)) else p₂

-- `for (x = 0; x < nx; x++, p += sx) q[x] = *p`, from number x on
unfoldable pub gather_line : ℕ → ℕ → (ℕ → ℕ) → (ℕ → ℕ) → ℕ → (ℕ → ℕ)
gather_line zero x q p sx = q
gather_line (suc n) x q p sx = gather_line n (x + 1) (update q x (p (x * sx))) p sx

unfoldable pub gather_partial1 : (ℕ → ℕ) → ℕ → ℕ → (ℕ → ℕ)
gather_partial1 p nx sx = pad_block (gather_line nx 0 (λ i. 0) p sx) nx 1

-- `for (x = 0; x < nx; x++, p += sx) *p = *q++`, for p at offset `at` of the array
unfoldable pub scatter_line : ℕ → ℕ → (ℕ → ℕ) → ℕ → (ℕ → ℕ) → ℕ → (ℕ → ℕ)
scatter_line zero x q at p sx = p
scatter_line (suc n) x q at p sx = scatter_line n (x + 1) q at (update p (at + x * sx) (q x)) sx

unfoldable pub encode_partial_block_strided1 :
    ℕ → Params → BitStream → (ℕ → ℕ) → ℕ → ℕ → BitStream × ℕ
encode_partial_block_strided1 width zfp s p nx sx =
    zfp_encode_block width 1 zfp s (gather_partial1 p nx sx)

-- `block` is not initialized.
unfoldable pub decode_partial_block_strided1 :
    ℕ → Params → (ℕ → ℕ) → BitStream → (ℕ → ℕ) → ℕ → ℕ → ℕ → BitStream × ℕ × (ℕ → ℕ)
decode_partial_block_strided1 width zfp block s array at nx sx =
    let (s', bits, block') = zfp_decode_block width 1 zfp s block in
    (s', bits, scatter_line nx 0 block' at array sx)

-- `for (x = 0; x < mx; x += 4, data += 4)`, with the number of rounds left
unfoldable pub compress_blocks : ℕ → Params → ℕ → ℕ → BitStream → (ℕ → ℕ) → BitStream
compress_blocks width zfp zero x s array = s
compress_blocks width zfp (suc blocks) x s array =
    compress_blocks width zfp blocks (x + 4) (zfp_encode_block width 1 zfp s (λ i. array (x + i))).0
      array

-- `nx & ~3u`: the mask has 32 bits, so it clears the bits of nx above them, too.
unfoldable pub whole_elements : ℕ → ℕ
whole_elements nx = u32 nx / 4 * 4

-- The array and the block have no bounds here: with 2^32 elements or more, what is left after the
-- whole blocks may be more than a block has room for.
unfoldable pub compress1 : ℕ → Params → BitStream → (ℕ → ℕ) → ℕ → BitStream
compress1 width zfp s array nx =
    let mx = whole_elements nx in
    let s' = compress_blocks width zfp (mx / 4) 0 s array in
    if ltb mx nx
    then (encode_partial_block_strided1 width zfp s' (λ i. array (mx + i)) (nx - mx) 1).0
    else s'

-- A whole block is decoded in place.
unfoldable pub decompress_blocks : ℕ → Params → ℕ → ℕ → BitStream → (ℕ → ℕ) → BitStream × (ℕ → ℕ)
decompress_blocks width zfp zero x s array = (s, array)
decompress_blocks width zfp (suc blocks) x s array =
    let (s', bits, block) = zfp_decode_block width 1 zfp s (λ i. array (x + i)) in
    decompress_blocks width zfp blocks (x + 4) s' (scatter_line 4 0 block x array 1)

unfoldable pub decompress1 : ℕ → Params → (ℕ → ℕ) → BitStream → (ℕ → ℕ) → ℕ → BitStream × (ℕ → ℕ)
decompress1 width zfp block s array nx =
    let mx = whole_elements nx in
    let (s', array') = decompress_blocks width zfp (mx / 4) 0 s array in
    let (last_s, bits, last_array) =
      decode_partial_block_strided1 width zfp block s' array' mx (nx - mx) 1 in
    if ltb mx nx then (last_s, last_array) else (s', array')
