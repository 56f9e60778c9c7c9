-- ===== src/Coder/Ints/Bounds.antt =====
-- The number of bits of a block of integers.
use zfp.Prelude.{
  ℕ, suc, ◌+◌, ◌-◌, ◌*◌, ◌^◌, ◌≤◌, ◌<◌, ◌≡◌, ap, ◌∙◌, sym, arith, List, ◌++◌, false, ltb, leb, min,
  Bool-cases, inl, inr, u32, sub32,
}
use native.Mathlib.Nat.{mul-le-mul_right, mul-le-mul}
use zfp.Prelude.Lists.{length}
use zfp.Coder.{Writer, Reader, Stream}
use zfp.Coder.Spent.{Spent}
use zfp.Coder.RoundTrip.{encode_few_ints_prec-cost}
use zfp.Coder.Rate.Budget.{encode_few_ints-Spent}
use zfp.Coder.Many.Budget.{encode_many_ints-Spent}
use zfp.Coder.Many.Cost.{encode_many_ints_prec-cost}
use zfp.Coder.Ints.{with_maxbits, encode_ints}

pub most : (maxprec size : ℕ) → maxprec ≤ 64 → size ≤ 256 → suc maxprec * size ≤ 65 * 256
most maxprec size some few = mul-le-mul {n₂ = 65} (omega arith) few

-- When no bound is needed, all bits are within it.
with_maxbits_lem :
    (maxbits maxprec intprec size len : ℕ)
    → maxprec ≤ 64
    → 1 ≤ size
    → size ≤ 256
    → with_maxbits maxbits maxprec size ≡ false
    → len < suc (min maxprec intprec) * size
    → (len ≤ maxbits) × (len < 2 ^ 32)
unfolding with_maxbits
with_maxbits_lem maxbits maxprec intprec size len some one few unbounded short =
    let planes : suc (min maxprec intprec) * size ≤ suc maxprec * size =
      mul-le-mul_right {m = suc (min maxprec intprec)} size (omega arith) in
    let limit = most maxprec size some few in
    let some_bits : size ≤ suc maxprec * size =
      omega (arith, mul-le-mul_right {m = 1} {n = suc maxprec} size (omega arith)) in
    let total : sub32 (u32 (u32 (maxprec + 1) * size)) 1 ≡ suc maxprec * size - 1 =
      ap (λ m. sub32 (u32 (m * size)) 1) {x = u32 (maxprec + 1)} {y = suc maxprec} (omega arith)
      ∙ omega (arith, limit, some_bits) in
    let test : ltb maxbits (suc maxprec * size - 1) ≡ false =
      ap (ltb maxbits) (sym total) ∙ unbounded in
    (ground (arith, test, short, planes), omega (arith, short, planes, limit))

module _ {W R : Type 0} (writer : Writer W) (reader : Reader R) (stream : Stream writer reader)
    (size : ℕ) where
  -- The bits that a coder wrote, and their number as it returns it.
  pub record Within (maxbits : ℕ) (bs : List ℕ) (r : W × ℕ) : Type 0 where
    pub written : List ℕ
    pub wrote : stream.Wrote r.0 (bs ++ written)
    pub count : r.1 ≡ length written
    pub within : length written ≤ maxbits

  from-Spent :
      (maxbits : ℕ) (bs : List ℕ) (r : W × ℕ)
      → Spent writer reader stream maxbits (maxbits - r.1) bs r.0
      → r.1 ≤ maxbits
      → Within maxbits bs r
  from-Spent maxbits bs r s few = record {
    written = s.written;
    wrote = s.wrote;
    count = omega (arith, s.spent);
    within = omega (arith, s.spent);
  }

  unbounded-Within :
      (maxbits maxprec intprec : ℕ) (bs : List ℕ) (r : W × ℕ)
      → maxprec ≤ 64
      → 1 ≤ size
      → size ≤ 256
      → with_maxbits maxbits maxprec size ≡ false
      → ((written : List ℕ) × (length written < suc (min maxprec intprec) * size)
          × stream.Wrote r.0 (bs ++ written)
          × (r.1 ≡ u32 (length written)))
      → Within maxbits bs r
  unbounded-Within maxbits maxprec intprec bs r some one few unbounded
        (written, short, wrote, count) =
      let (within, small) =
        with_maxbits_lem maxbits maxprec intprec size (length written) some one few unbounded
          short in
      record {
        written = written;
        wrote = wrote;
        count = omega (arith, count, small);
        within = within;
      }

  -- `encode_ints` writes at most `maxbits` bits, with or without a test of each of them, and
  -- returns their number, for blocks of up to 256 integers and at most 64 bit planes.
  pub encode_ints-Within :
      (intprec : ℕ) (w : W) (maxbits maxprec : ℕ) (ints : ℕ → ℕ) (bs : List ℕ)
      → maxprec ≤ 64
      → 1 ≤ size
      → size ≤ 256
      → ((a : ℕ) → a < size → ints a < 2 ^ intprec)
      → stream.Wrote w bs
      → Within maxbits bs (encode_ints writer size intprec w maxbits maxprec ints)
  unfolding encode_ints
  encode_ints-Within intprec w maxbits maxprec ints bs some one few fits h =
      elim (Bool-cases (with_maxbits maxbits maxprec size)) [
        | inl bounded ↦ elim (Bool-cases (leb size 64)) [
          | inl small ↦
              let (s, all) =
                encode_few_ints-Spent writer reader stream size intprec w maxbits maxprec ints bs
                  (ground (arith, small)) h in
              rw (encode_ints, bounded, small) (from-Spent maxbits bs _ s all)
          | inr large ↦
              let (s, all) =
                encode_many_ints-Spent writer reader stream size intprec w maxbits maxprec ints bs
                  h in
              rw (encode_ints, bounded, large) (from-Spent maxbits bs _ s all)
        ]
        | inr unbounded ↦ elim (Bool-cases (leb size 64)) [
          | inl small ↦
              rw (encode_ints, unbounded, small)
                (unbounded-Within maxbits maxprec intprec bs _ some one few unbounded (
                  encode_few_ints_prec-cost writer reader stream size (ground (arith, small))
                    intprec w maxprec ints bs one fits h))
          | inr large ↦
              rw (encode_ints, unbounded, large)
                (unbounded-Within maxbits maxprec intprec bs _ some one few unbounded (
                  encode_many_ints_prec-cost writer reader stream size intprec w maxprec ints bs one
                    h))
        ]
      ]
