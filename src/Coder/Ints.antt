-- ===== src/Coder/Ints.antt =====
-- The choice among the coders: `with_maxbits` of src/template/codec.c, `encode_ints` of
-- src/template/encode.c and `decode_ints` of src/template/decode.c.
pub mod Bounds
use zfp.Prelude.{ℕ, ◌+◌, ◌*◌, Bool, ltb, leb, if◌then◌else◌, u32, sub32}
use zfp.Coder.{Writer, Reader, encode_few_ints_prec, decode_few_ints_prec}
use zfp.Coder.Rate.{encode_few_ints, decode_few_ints}
use zfp.Coder.Many.{
  encode_many_ints, encode_many_ints_prec, decode_many_ints, decode_many_ints_prec,
}

-- In the arithmetic of 32 bits.
unfoldable pub with_maxbits : ℕ → ℕ → ℕ → Bool
with_maxbits maxbits maxprec size = ltb maxbits (sub32 (u32 (u32 (maxprec + 1) * size)) 1)

unfoldable pub encode_ints : {W : Type 0} → Writer W → ℕ → ℕ → W → ℕ → ℕ → (ℕ → ℕ) → W × ℕ
encode_ints writer size intprec w maxbits maxprec ints =
    if with_maxbits maxbits maxprec size
    then (if leb size 64
        then encode_few_ints writer size intprec w maxbits maxprec ints
        else encode_many_ints writer size intprec w maxbits maxprec ints)
    else (if leb size 64
        then encode_few_ints_prec writer size intprec w maxprec ints
        else encode_many_ints_prec writer size intprec w maxprec ints)

unfoldable pub decode_ints : {R : Type 0} → Reader R → ℕ → ℕ → R → ℕ → ℕ → R × (ℕ → ℕ) × ℕ
decode_ints reader size intprec r maxbits maxprec =
    if with_maxbits maxbits maxprec size
    then (if leb size 64
        then decode_few_ints reader size intprec r maxbits maxprec
        else decode_many_ints reader size intprec r maxbits maxprec)
    else (if leb size 64
        then decode_few_ints_prec reader size intprec r maxprec
        else decode_many_ints_prec reader size intprec r maxprec)
