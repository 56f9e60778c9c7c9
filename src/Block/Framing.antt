-- ===== src/Block/Framing.antt =====
-- The padding of a block, its precision and its coder, of a block in reversible mode.
use zfp.Prelude.{
  ℕ, ◌+◌, ◌-◌, ◌*◌, ◌/◌, ◌%◌, ◌^◌, ◌≤◌, ◌<◌, ◌≡◌, ◌⊎◌, refl, sym, ap, ◌∙◌, arith, List, ◌++◌, true,
  false, ltb, leb, u32, sub32, Bool-cases, inl, inr,
}
use mathlib.Core.Path.{subst}
use mathlib.Core.List.{append-nil}
use native.Mathlib.Nat.{mul-le-mul_right, div-add-mod, mul_comm}
use zfp.Prelude.Powers.{mod_power_low}
use zfp.BitStream.Writing.{Wrote}
use zfp.BitStream.Reading.{Ahead}
use zfp.BitStream.Seeking.{skip-Ahead}
use zfp.BitStream.Transfer.{pad-Wrote}
use zfp.BitStream.{BitStream, writer, reader}
use zfp.Coder.{Writer, Reader, digits, encode_few_ints_prec, decode_few_ints_prec}
use zfp.Coder.Ints.{with_maxbits, encode_ints, decode_ints}
use zfp.Block.{pbits, pad_to, skip_to}

pub pad_to-Wrote :
    (s : BitStream) (minbits bits : ℕ) (bs : List ℕ)
    → Wrote s bs
    → Wrote (pad_to s minbits bits).0 (bs ++ digits (minbits - bits) 0)
unfolding pad_to digits
pad_to-Wrote s minbits bits bs h = elim (Bool-cases (ltb bits minbits)) [
  | inl short ↦ rw (pad_to, short) (pad-Wrote s (minbits - bits) bs h)
  | inr enough ↦
      let none : 0 ≡ minbits - bits = ground (arith, enough) in
      rw (pad_to, enough)
        (subst (λ n. Wrote s (bs ++ digits n 0)) none (subst (Wrote s) (sym (append-nil bs)) h))
]

pub skip_to-Ahead :
    {last : ℕ} (r : BitStream) (minbits bits : ℕ) (rest : List ℕ)
    → Ahead last r (digits (minbits - bits) 0 ++ rest)
    → Ahead last (skip_to r minbits bits).0 rest
unfolding skip_to digits
skip_to-Ahead {last = last} r minbits bits rest h = elim (Bool-cases (ltb bits minbits)) [
  | inl short ↦ rw (skip_to, short) (skip-Ahead r (minbits - bits) 0 rest h)
  | inr enough ↦
      let none : minbits - bits ≡ 0 = ground (arith, enough) in
      rw (skip_to, enough) (subst (λ n. Ahead last r (digits n 0 ++ rest)) none h)
]

pub same_count :
    (s r : BitStream) (minbits bits : ℕ) → (skip_to r minbits bits).1 ≡ (pad_to s minbits bits).1
unfolding skip_to pad_to
same_count s r minbits bits = elim (Bool-cases (ltb bits minbits)) [
  | inl short ↦ rw short refl
  | inr enough ↦ rw enough refl
]

-- A word of 32 or 64 bits.
abbrev pub IsWord : ℕ → Type 0
IsWord width = (width ≡ 32) ⊎ (width ≡ 64)

pub word_lem :
    (width : ℕ)
    → IsWord width
    → (width ≡ 2 ^ pbits width) × (pbits width < width) × (width ≤ 64) × (pbits width ≤ 6)
unfolding pbits
word_lem width (inl narrow) = rw narrow (refl, omega arith, omega arith, omega arith)
word_lem width (inr wide) = rw wide (refl, omega arith, omega arith, omega arith)

-- The bits below a precision are also below a larger one.
pub coarser : (v k extra : ℕ) → v / 2 ^ (k + extra) * 2 ^ (k + extra) ≡ v → v / 2 ^ k * 2 ^ k ≡ v
coarser v k extra h =
    let none : v % 2 ^ (k + extra) ≡ 0 = omega (
      arith,
      h,
      mul_comm (v / 2 ^ (k + extra)) (2 ^ (k + extra)),
      div-add-mod v (2 ^ (k + extra)),
    ) in
    let low : v % 2 ^ k ≡ 0 =
      omega (arith, sym (mod_power_low v k extra), ap (λ m. m % 2 ^ k) none) in
    omega (arith, low, mul_comm (v / 2 ^ k) (2 ^ k), div-add-mod v (2 ^ k))

pub unbounded :
    (width prec maxbits b size : ℕ)
    → prec ≤ width
    → width ≤ 64
    → size ≤ 64
    → 1 ≤ size
    → b ≤ 6
    → maxbits < 2 ^ 32
    → (width + 1) * size + 5 ≤ maxbits
    → with_maxbits (sub32 maxbits b) prec size ≡ false
unfolding with_maxbits
unbounded width prec maxbits b size fits word small some few bounded room =
    let planes : (prec + 1) * size ≤ (width + 1) * size =
      mul-le-mul_right {m = prec + 1} {n = width + 1} size (omega (arith, fits)) in
    let one : size ≤ (prec + 1) * size =
      omega (arith, mul-le-mul_right {m = 1} {n = prec + 1} size (omega arith)) in
    let total : sub32 (u32 (u32 (prec + 1) * size)) 1 ≡ (prec + 1) * size - 1 =
      ap (λ m. sub32 (u32 (m * size)) 1) {x = u32 (prec + 1)} {y = prec + 1}
        (omega (arith, fits, word))
      ∙ omega (arith, planes, one, some, room, bounded) in
    ap (ltb (sub32 maxbits b)) total ∙ ground (arith, planes, room, bounded, few)

pub encode_ints_few :
    {W : Type 0} (writer : Writer W) (size width : ℕ) (w : W) (maxbits prec : ℕ) (ints : ℕ → ℕ)
    → with_maxbits maxbits prec size ≡ false
    → size ≤ 64
    → encode_ints writer size width w maxbits prec ints
      ≡ encode_few_ints_prec writer size width w prec ints
unfolding encode_ints
encode_ints_few writer size width w maxbits prec ints free small =
    let few : leb size 64 ≡ true = ground (arith, small) in rw (encode_ints, free, few) refl

pub decode_ints_few :
    {R : Type 0} (reader : Reader R) (size width : ℕ) (r : R) (maxbits prec : ℕ)
    → with_maxbits maxbits prec size ≡ false
    → size ≤ 64
    → decode_ints reader size width r maxbits prec ≡ decode_few_ints_prec reader size width r prec
unfolding decode_ints
decode_ints_few reader size width r maxbits prec free small =
    let few : leb size 64 ≡ true = ground (arith, small) in rw (decode_ints, free, few) refl
