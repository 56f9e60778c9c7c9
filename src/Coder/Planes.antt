-- ===== src/Coder/Planes.antt =====
-- Whole bit planes: the integers are read again, down to the last plane that was written.
use zfp.Prelude.{
  ℕ, zero, suc, ◌+◌, ◌*◌, ◌/◌, ◌%◌, ◌^◌, ◌≤◌, ◌<◌, ◌≡◌, refl, arith, ap, sym, ◌∙◌, true, false,
}
use zfp.Prelude.{◌!=◌, ◌==◌, ◌<<<◌, ◌>>>◌, bit_and, Bool-cases, inl, inr}
use zfp.Prelude.Bits.{low_bits, two-pow-suc, one-le-two-pow}
use native.Mathlib.Nat.{
  mul_assoc, mul-zero, mul-one, mul-le-mul_left, mul-add, div-one, pow-le-pow_right, mul_comm,
  mod-eq_of_lt, zero-div,
}
use zfp.BlockCache.{update}
use zfp.Prelude.Powers.{halves, power_add}
use zfp.Coder.{plane, deposit}

-- Bit plane k as a number: its bits are bits k of the integers.
pub record IsPlane (ints : ℕ → ℕ) (k i rounds x q : ℕ) : Type 0 where
  pub value : x ≡ 2 ^ i * q
  pub fits : q < 2 ^ rounds
  pub bits : (j : ℕ) → j < rounds → q / 2 ^ j % 2 ≡ ints (i + j) / 2 ^ k % 2

no_wrap : (i rounds q : ℕ) → i + rounds ≤ 64 → q < 2 ^ rounds → 2 ^ i * q < 2 ^ 64
no_wrap i rounds q small fits =
    let least : 2 ^ i * (q + 1) ≤ 2 ^ i * 2 ^ rounds = mul-le-mul_left (2 ^ i) (omega arith) in
    let bound : 2 ^ (i + rounds) ≤ 2 ^ 64 = pow-le-pow_right (omega arith) small in
    omega (
      arith,
      least,
      bound,
      power_add i rounds,
      mul-add (2 ^ i) q 1,
      mul-one (2 ^ i),
      one-le-two-pow i,
    )

upper_bits : (b q j : ℕ) → b < 2 → (b + 2 * q) / 2 ^ suc j ≡ q / 2 ^ j
upper_bits b q j small =
    sym (halves (b + 2 * q) j) ∙ ap (λ y. y / 2 ^ j) {x = (b + 2 * q) / 2} {y = q} (omega arith)

bit_of : (v k : ℕ) → bit_and (v >>> k) 1 ≡ v / 2 ^ k % 2
bit_of v k = low_bits 1 (v / 2 ^ k)

more_bits :
    (ints : ℕ → ℕ) (k rounds i q : ℕ)
    → ((j : ℕ) → j < rounds → q / 2 ^ j % 2 ≡ ints (i + 1 + j) / 2 ^ k % 2)
    → (j : ℕ) → j < suc rounds
    → (ints i / 2 ^ k % 2 + 2 * q) / 2 ^ j % 2 ≡ ints (i + j) / 2 ^ k % 2
more_bits ints k rounds i q later zero l =
    ap (λ z. z % 2) (div-one (ints i / 2 ^ k % 2 + 2 * q))
    ∙ omega (arith, ap (λ a. ints a / 2 ^ k % 2) {x = i} {y = i + 0} (omega arith))
more_bits ints k rounds i q later (suc j) l =
    ap (λ z. z % 2) (upper_bits (ints i / 2 ^ k % 2) q j (omega arith))
    ∙ later j (omega arith)
    ∙ ap (λ a. ints a / 2 ^ k % 2) {x = i + 1 + j} {y = i + suc j} (omega arith)

pub plane_lem :
    (ints : ℕ → ℕ) (k rounds i : ℕ)
    → i + rounds ≤ 64
    → (q : ℕ) × IsPlane ints k i rounds (plane ints k rounds i) q
unfolding plane
plane_lem ints k zero i small = (
  0,
  record { value = sym (mul-zero (2 ^ i)); fits = omega arith; bits = λ j p. absurd (omega arith) },
)
plane_lem ints k (suc rounds) i small =
    let (q, p) = plane_lem ints k rounds (i + 1) (omega arith) in
    let b = ints i / 2 ^ k % 2 in
    let fits : b + 2 * q < 2 ^ suc rounds = omega (arith, p.fits, two-pow-suc rounds) in
    let next : 2 ^ (i + 1) ≡ 2 * 2 ^ i =
      ap (λ m. 2 ^ m) {x = i + 1} {y = suc i} (omega arith) ∙ two-pow-suc i in
    let upper : 2 ^ (i + 1) * q ≡ 2 ^ i * (2 * q) =
      ap (λ z. z * q) {x = 2 ^ (i + 1)} {y = 2 ^ i * 2} (omega (arith, next))
      ∙ mul_assoc (2 ^ i) 2 q in
    let total : 2 ^ i * b + 2 ^ (i + 1) * q ≡ 2 ^ i * (b + 2 * q) =
      omega (arith, upper, mul-add (2 ^ i) b (2 * q)) in
    (
      b + 2 * q,
      record {
        value =
            rw (bit_of (ints i) k, p.value)
              (omega
                (arith, mul_comm b (2 ^ i), total, no_wrap i (suc rounds) (b + 2 * q) small fits));
        fits = fits;
        bits = more_bits ints k rounds i q p.bits;
      },
    )

-- One bit plane in the decoder's integers.
deposit_before :
    (width k rounds i x : ℕ) (ints : ℕ → ℕ) (a : ℕ)
    → a < i
    → deposit width k rounds i x ints a ≡ ints a
unfolding deposit
deposit_before width k zero i x ints a before = refl
deposit_before width k (suc rounds) i x ints a before = elim (Bool-cases (x != 0)) [
  | inl more ↦
      let other : (i == a) ≡ false = ground arith in
      rw (deposit, more)
        (deposit_before width k rounds (i + 1) (x >>> 1) _ a (omega arith) ∙ rw other refl)
  | inr last ↦ rw (deposit, last) refl
]

zero_bits : (x j : ℕ) → x ≡ 0 → x / 2 ^ j ≡ 0
zero_bits x j none = ap (λ y. y / 2 ^ j) none ∙ zero-div (2 ^ j)

no_bit : (v k width : ℕ) → v < 2 ^ width → (v + 0 % 2 * 2 ^ k) % 2 ^ width ≡ v
no_bit v k width fits =
    ap (λ u. u % 2 ^ width) {x = v + 0 * 2 ^ k} {y = v} (omega arith) ∙ mod-eq_of_lt fits

pub deposit_lem :
    (width k rounds i x : ℕ) (ints : ℕ → ℕ) (a j : ℕ)
    → j < rounds
    → a ≡ i + j
    → ints a < 2 ^ width
    → deposit width k rounds i x ints a ≡ (ints a + x / 2 ^ j % 2 * 2 ^ k) % 2 ^ width
unfolding deposit
deposit_lem width k zero i x ints a j inside here fits = absurd (omega arith)
deposit_lem width k (suc rounds) i x ints a zero inside here fits = elim (Bool-cases (x != 0)) [
  | inl more ↦
      let this : (i == a) ≡ true = ground arith in
      let that : i ≡ a = omega arith in
      rw
        (
          deposit,
          more,
          deposit_before width k rounds (i + 1) (x >>> 1)
              (update ints i ((ints i + (bit_and x 1 <<< k)) % 2 ^ width)) a (omega arith),
          this,
          low_bits 1 x,
          div-one x,
          that,
        )
        refl
  | inr last ↦ rw (deposit, last, zero_bits x 0 (ground arith)) (sym (no_bit (ints a) k width fits))
]
deposit_lem width k (suc rounds) i x ints a (suc j) inside here fits = elim (Bool-cases (x != 0)) [
  | inl more ↦
      let other : (i == a) ≡ false = ground arith in
      let next =
        deposit_lem width k rounds (i + 1) (x / 2)
          (update ints i ((ints i + (bit_and x 1 <<< k)) % 2 ^ width)) a j (omega arith)
          (omega arith) (rw other fits) in
      rw (deposit, more, next, other, halves x j) refl
  | inr last ↦
      rw (deposit, last, zero_bits x (suc j) (ground arith)) (sym (no_bit (ints a) k width fits))
]
