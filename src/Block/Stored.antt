-- ===== src/Block/Stored.antt =====
-- The integers of a block in the bit stream itself: what the encoder writes is one sequence of
-- bits, whatever is read of it later, and the decoder counts the bits that it reads.
use zfp.Prelude.{
  ℕ, ◌+◌, ◌-◌, ◌*◌, ◌/◌, ◌^◌, ◌≤◌, ◌<◌, ◌≡◌, refl, sym, ap, ◌∙◌, arith, List, [], ◌∷◌, ◌++◌, u32,
}
use mathlib.Core.Path.{subst}
use zfp.Prelude.Lists.{length}
use zfp.BitStream.Value.{value, IsBits, length-append}
use zfp.BitStream.Writing.{Wrote}
use zfp.BitStream.Reading.{Ahead}
use zfp.BitStream.Transfer.{bit_stream}
use zfp.BitStream.{BitStream, writer, reader, rtell}
use zfp.Coder.{encode_few_ints_prec, decode_few_ints_prec}
use zfp.Coder.RoundTrip.{decode_few_ints_prec-encode_few_ints_prec}

same_bits :
    (xs ys : List ℕ) → IsBits xs → IsBits ys → length xs ≡ length ys → value xs ≡ value ys → xs ≡ ys
unfolding value
same_bits [] [] hx hy l v = refl
same_bits [] (y ∷ ys) hx hy l v = absurd (omega arith)
same_bits (x ∷ xs) [] hx hy l v = absurd (omega arith)
same_bits (x ∷ xs) (y ∷ ys) (bx, hx) (by_, hy) l v =
    let first : x ≡ y = omega arith in
    let rest = same_bits xs ys hx hy (omega arith) (omega arith) in
    ap (λ z. z ∷ xs) first ∙ ap (λ zs. y ∷ zs) rest

behind_IsBits : (xs ys : List ℕ) → IsBits (xs ++ ys) → IsBits ys
behind_IsBits [] ys h = h
behind_IsBits (x ∷ xs) ys h = behind_IsBits xs ys h.1

same_value : (bs xs ys : List ℕ) → value (bs ++ xs) ≡ value (bs ++ ys) → value xs ≡ value ys
unfolding value
same_value [] xs ys h = h
same_value (b ∷ bs) xs ys h = same_value bs xs ys (omega arith)

-- What is in a stream behind some bits is determined.
one_sequence :
    (s : BitStream) (bs xs ys : List ℕ) → Wrote s (bs ++ xs) → Wrote s (bs ++ ys) → xs ≡ ys
one_sequence s bs xs ys hx hy =
    same_bits xs ys (behind_IsBits bs xs hx.binary) (behind_IsBits bs ys hy.binary)
      (omega (arith, hx.length_here, hy.length_here, length-append bs xs, length-append bs ys))
      (same_value bs xs ys (hx.value_here ∙ sym hy.value_here))

rtell-Ahead :
    {last : ℕ} (r : BitStream) (bs : List ℕ) → Ahead last r bs → rtell r + length bs ≡ last
unfolding rtell
rtell-Ahead r bs h = omega (arith, h.at, h.behind, h.bounded)

-- The integers are read from the stream as they were written, with the bits below the `maxprec`
-- highest ones cleared, and reader and writer count the same bits.
pub few_ints-Stored :
    (size intprec maxprec : ℕ) (s : BitStream) (ints : ℕ → ℕ) (bs : List ℕ)
    → size ≤ 64
    → ((a : ℕ) → a < size → ints a < 2 ^ intprec)
    → Wrote s bs
    → let (s', count) = encode_few_ints_prec writer size intprec s maxprec ints in
      (written : List ℕ) × Wrote s' (bs ++ written)
      × (count ≡ u32 (length written))
      × ((last : ℕ) (r : BitStream) (rest : List ℕ)
          → Ahead last r (written ++ rest)
          → let out = decode_few_ints_prec reader size intprec r maxprec in
            ((a : ℕ)
              → a < size
              → out.1 a ≡ ints a / 2 ^ (intprec - maxprec) * 2 ^ (intprec - maxprec))
            × Ahead last out.0 rest
            × (out.2 ≡ u32 (length written)))
unfolding decode_few_ints_prec
few_ints-Stored size intprec maxprec s ints bs small fits h =
    let (written, wrote, count, _) =
      decode_few_ints_prec-encode_few_ints_prec writer reader (bit_stream 0) size small s bs intprec
        maxprec ints fits h in
    (
      written,
      wrote,
      count,
      λ last r rest ahead.
          let (written', wrote', count', back) =
            decode_few_ints_prec-encode_few_ints_prec writer reader (bit_stream last) size small s
              bs intprec maxprec ints fits h in
          let one = one_sequence _ bs written written' wrote wrote' in
          let (ints_back, after) = back r rest (subst (λ w. Ahead last r (w ++ rest)) one ahead) in
          let before = rtell-Ahead r (written ++ rest) ahead in
          let later =
            rtell-Ahead (decode_few_ints_prec reader size intprec r maxprec).0 rest after in
          (
            ints_back,
            after,
            omega (arith, before, later, length-append written rest, ahead.bounded, after.bounded),
          ),
    )
