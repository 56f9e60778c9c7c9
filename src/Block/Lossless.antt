-- ===== src/Block/Lossless.antt =====
-- The round trip of a block of integers in reversible mode.
use zfp.Prelude.{
  ℕ, ◌+◌, ◌-◌, ◌*◌, ◌/◌, ◌%◌, ◌^◌, ◌≤◌, ◌<◌, ◌≡◌, refl, sym, ap, ◌∙◌, arith, List, ◌++◌, false, min,
  max, u32, sub32,
}
use mathlib.Core.Path.{subst}
use mathlib.Core.List.{append_assoc}
use native.Mathlib.Nat.{mod-eq_of_lt, pow-le-pow_right}
use zfp.Prelude.Lists.{length}
use zfp.BitStream.Writing.{Wrote, write_bits-Wrote}
use zfp.BitStream.Reading.{Ahead, read_bits-Ahead}
use zfp.BitStream
use zfp.BitStream.{BitStream, writer, reader}
use zfp.Coder.{digits, encode_few_ints_prec, decode_few_ints_prec}
use zfp.Coder.Ints.{with_maxbits}
use zfp.Transform.{fwd_order}
use zfp.Transform.Order.{fwd_order-small}
use zfp.Transform.Inverse.{IsBlock}
use zfp.Transform.Tables.{entry, perm}
use zfp.Block.{pbits, pad_to, rev_encode_block, rev_decode_block, rev_fwd_xform, rev_precision}
use zfp.Block.Precision.{rev_precision_lem}
use zfp.Block.Local.{words_back, Same}
use zfp.Block.Stored.{few_ints-Stored}
use zfp.Block.Framing.{
  pad_to-Wrote, skip_to-Ahead, same_count, IsWord, word_lem, coarser, unbounded, encode_ints_few,
  decode_ints_few,
}

-- The planes from `prec` on hold all integers.
exact :
    (width maxprec : ℕ) (u : ℕ → ℕ) (n : ℕ)
    → IsWord width
    → width ≤ maxprec
    → ((a : ℕ) → a < n → u a < 2 ^ width)
    → let prec = max (min (rev_precision width u n) maxprec) 1 in
      (prec ≤ width)
      × (1 ≤ prec)
      × ((a : ℕ) → a < n → u a / 2 ^ (width - prec) * 2 ^ (width - prec) ≡ u a)
exact width maxprec u n word enough fits =
    let (power, more, most, few) = word_lem width word in
    let (least, each) = rev_precision_lem width (pbits width) u n power more fits in
    let p = rev_precision width u n in
    let prec = max (min p maxprec) 1 in
    (
      omega (arith, least, more),
      omega arith,
      λ a inside.
          let e = prec - p in
          let split : width - prec + e ≡ width - p = omega (arith, least, enough, more) in
          coarser (u a) (width - prec) e (ap (λ k. u a / 2 ^ k * 2 ^ k) split ∙ each a inside),
    )

-- What the decoder of the integers does with bits that were stored.
Restores : ℕ → ℕ → ℕ → (ℕ → ℕ) → List ℕ → Type 0
Restores size width prec u stored =
    (last : ℕ) (r : BitStream) (rest : List ℕ)
    → Ahead last r (stored ++ rest)
    → let out = decode_few_ints_prec reader size width r prec in
      ((a : ℕ) → a < size → out.1 a ≡ u a / 2 ^ (width - prec) * 2 ^ (width - prec))
      × Ahead last out.0 rest
      × (out.2 ≡ u32 (length stored))

-- Then the decoder of the block restores it and skips its padding.
read_block :
    {last : ℕ} (width d : ℕ) (s r : BitStream) (minbits maxbits prec count : ℕ)
    (iblock initial u : ℕ → ℕ) (stored rest : List ℕ)
    → IsWord width
    → 1 ≤ d
    → d ≤ 3
    → IsBlock width iblock
    → Same
        (4 ^ d)
        u
        (fwd_order width (entry (perm d)) (4 ^ d) 0 (rev_fwd_xform width d iblock) (λ i. 0))
    → 1 ≤ prec
    → prec ≤ width
    → with_maxbits (sub32 maxbits (pbits width)) prec (4 ^ d) ≡ false
    → ((a : ℕ) → a < 4 ^ d → u a / 2 ^ (width - prec) * 2 ^ (width - prec) ≡ u a)
    → Restores (4 ^ d) width prec u stored
    → count ≡ u32 (length stored)
    → Ahead last r (
        digits (pbits width) (prec - 1)
        ++ (stored ++ (digits (minbits - u32 (pbits width + count)) 0 ++ rest)))
    → let out = rev_decode_block width d r minbits maxbits initial in
      ((a : ℕ) → a < 4 ^ d → out.2 a ≡ iblock a)
      × (out.1 ≡ (pad_to s minbits (u32 (pbits width + count))).1)
      × Ahead last out.0 rest
unfolding rev_decode_block Restores
read_block {last = last} width d s r minbits maxbits prec count iblock initial u stored rest word l
      few words ordered positive below free each back counted ahead =
    let (power, more, most, narrow) = word_lem width word in
    let n = 4 ^ d in
    let b = pbits width in
    let total = u32 (b + count) in
    let tail = digits (minbits - total) 0 in
    let small : n ≤ 64 = pow-le-pow_right {n = 4} (omega arith) {i = d} {j = 3} few in
    let r₁ = (BitStream.read_bits r b).1 in
    let read =
      read_bits-Ahead r (prec - 1) b (stored ++ (tail ++ rest)) (omega (arith, narrow)) ahead in
    let kept : (prec - 1) % 2 ^ b ≡ prec - 1 =
      mod-eq_of_lt (omega (arith, below, positive, power)) in
    let here : u32 (BitStream.read_bits r b).0 + 1 ≡ prec =
      omega (arith, read.0, below, positive, most, power, kept) in
    let (ints_back, after, bits_back) = back last r₁ (tail ++ rest) read.1 in
    let out = decode_few_ints_prec reader n width r₁ prec in
    let same : u32 (b + out.2) ≡ total = ap (λ c. u32 (b + c)) (bits_back ∙ sym counted) in
    rw (here, decode_ints_few reader n width r₁ (sub32 maxbits b) prec free small, same)
      (
        words_back width d iblock initial out.1 l few words
            (λ a inside. ints_back a inside ∙ each a inside ∙ ordered a inside),
        same_count s out.0 minbits total,
        skip_to-Ahead out.0 minbits total rest after,
      )

-- A block of one to three dimensions and words of 32 or 64 bits that `rev_encode_block` writes, with
-- all bit planes and room for all of them in `maxbits`, below 2^32, `rev_decode_block` reads as the
-- same integers, whatever was in its memory. It ends where the block ends, padding included, and
-- returns the number that the encoder returned.
pub rev_decode_block-rev_encode_block :
    (width d : ℕ) (s : BitStream) (minbits maxbits maxprec : ℕ) (iblock : ℕ → ℕ) (bs : List ℕ)
    → IsWord width
    → 1 ≤ d
    → d ≤ 3
    → width ≤ maxprec
    → (width + 1) * 4 ^ d + 5 ≤ maxbits
    → maxbits < 2 ^ 32
    → IsBlock width iblock
    → Wrote s bs
    → let (s', bits) = rev_encode_block width d s minbits maxbits maxprec iblock in
      (written : List ℕ) × Wrote s' (bs ++ written)
      × ((last : ℕ) (r : BitStream) (rest : List ℕ) (initial : ℕ → ℕ)
          → Ahead last r (written ++ rest)
          → let out = rev_decode_block width d r minbits maxbits initial in
            ((a : ℕ) → a < 4 ^ d → out.2 a ≡ iblock a) × (out.1 ≡ bits) × Ahead last out.0 rest)
unfolding rev_encode_block Restores
rev_decode_block-rev_encode_block width d s minbits maxbits maxprec iblock bs word l few enough room
      bounded words h =
    let (power, more, most, narrow) = word_lem width word in
    let n = 4 ^ d in
    let some : 1 ≤ n = pow-le-pow_right {n = 4} (omega arith) {i = 0} {j = d} (omega arith) in
    let small : n ≤ 64 = pow-le-pow_right {n = 4} (omega arith) {i = d} {j = 3} few in
    let f = rev_fwd_xform width d iblock in
    let u = fwd_order width (entry (perm d)) n 0 f (λ i. 0) in
    let fits = fwd_order-small width (entry (perm d)) n f (λ i. 0) in
    let prec = max (min (rev_precision width u n) maxprec) 1 in
    let (below, positive, each) = exact width maxprec u n word enough fits in
    let b = pbits width in
    let free = unbounded width prec maxbits b n below most small some narrow bounded room in
    let ds = digits b (prec - 1) in
    let first =
      write_bits-Wrote s bs (prec - 1) b (omega (arith, narrow)) (omega (arith, below, most)) h in
    let s₁ = (BitStream.write_bits s (prec - 1) b).1 in
    let (stored, wrote, count, back) =
      few_ints-Stored n width prec s₁ u (bs ++ ds) small fits first.1 in
    let (s₂, bits) = encode_few_ints_prec writer n width s₁ prec u in
    let total = u32 (b + bits) in
    let tail = digits (minbits - total) 0 in
    let all = pad_to-Wrote s₂ minbits total ((bs ++ ds) ++ stored) wrote in
    rw (encode_ints_few writer n width s₁ (sub32 maxbits b) prec u free small) (
      ds ++ (stored ++ tail),
      subst (Wrote _) (append_assoc (bs ++ ds) stored tail ∙ append_assoc bs ds (stored ++ tail))
          all,
      λ last r rest initial ahead.
          read_block width d s₂ r minbits maxbits prec bits iblock initial u stored rest word l few
            words (λ a inside. refl) positive below free each back count
            (subst (Ahead last r)
              (append_assoc ds (stored ++ tail) rest
                ∙ ap (λ xs. ds ++ xs) (append_assoc stored tail rest))
              ahead),
    )
