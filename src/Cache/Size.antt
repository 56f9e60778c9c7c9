-- ===== src/Cache/Size.antt =====
-- The number of lines that `Cache::resize` of include/zfp/internal/array/cache.hpp chooses.
use zfp.Prelude.{
  ℕ, zero, suc, ◌+◌, ◌*◌, ◌/◌, ◌%◌, ◌^◌, ◌≤◌, ◌<◌, ◌≡◌, ◌≢◌, refl, arith, ap, sym, ◌∙◌, inl, inr,
  ◌⊎◌,
}
use zfp.Prelude.{bit_and, bit_or}
use zfp.Prelude.Bits.{bit_and_half, bit_or_half, bit_and_self, bit_or_self, two-pow-suc}
use zfp.Cache.{round_mask}
use mathlib.Core.Path.{subst}
use native.Mathlib.Decide.{ℕ_discrete}

and_odd : (b : ℕ) → bit_and (2 * b + 1) (2 * b + 1 + 1) ≡ 2 * bit_and b (b + 1)
and_odd b = omega (
  arith,
  bit_and_half (2 * b + 1) (2 * b + 1 + 1),
  ap (λ z. bit_and z (b + 1)) {x = (2 * b + 1) / 2} {y = b} (omega arith),
  ap (bit_and ((2 * b + 1) / 2)) {x = (2 * b + 1 + 1) / 2} {y = b + 1} (omega arith),
)

or_odd : (b : ℕ) → bit_or (2 * b + 1) (2 * b + 1 + 1) ≡ 2 * bit_or b (b + 1) + 1
or_odd b = omega (
  arith,
  bit_or_half (2 * b + 1) (2 * b + 1 + 1),
  ap (λ z. bit_or z (b + 1)) {x = (2 * b + 1) / 2} {y = b} (omega arith),
  ap (bit_or ((2 * b + 1) / 2)) {x = (2 * b + 1 + 1) / 2} {y = b + 1} (omega arith),
)

and_even : (b : ℕ) → bit_and (2 * b) (2 * b + 1) ≡ 2 * b
and_even b = omega (
  arith,
  bit_and_half (2 * b) (2 * b + 1),
  ap (λ z. bit_and z ((2 * b + 1) / 2)) {x = 2 * b / 2} {y = b} (omega arith),
  ap (bit_and b) {x = (2 * b + 1) / 2} {y = b} (omega arith),
  bit_and_self b,
)

or_even : (b : ℕ) → bit_or (2 * b) (2 * b + 1) ≡ 2 * b + 1
or_even b = omega (
  arith,
  bit_or_half (2 * b) (2 * b + 1),
  ap (λ z. bit_or z ((2 * b + 1) / 2)) {x = 2 * b / 2} {y = b} (omega arith),
  ap (bit_or b) {x = (2 * b + 1) / 2} {y = b} (omega arith),
  bit_or_self b,
)

-- A round on an odd mask is a round on its upper bits.
round_mask-odd : (f b : ℕ) → round_mask f (2 * b + 1) ≡ 2 * round_mask f b + 1
unfolding round_mask
round_mask-odd zero b = refl
round_mask-odd (suc f) b =
    ground (arith, and_odd b, ap (round_mask f) (or_odd b), round_mask-odd f (bit_or b (b + 1)))

round_mask-even : (f b : ℕ) → b ≢ 0 → round_mask (suc f) (2 * b) ≡ 2 * round_mask f b + 1
unfolding round_mask
round_mask-even f b p =
    ground (arith, and_even b, ap (round_mask f) (or_even b), round_mask-odd f b, p)

round_mask-zero : (f : ℕ) → round_mask f 0 ≡ 0
unfolding round_mask
round_mask-zero zero = refl
round_mask-zero (suc f) = refl

-- `x` is the least number of the form 2^k - 1 that is not below `a`.
unfoldable pub IsRounded : ℕ → ℕ → Type 0
IsRounded a x = ((k : ℕ) × (x + 1 ≡ 2 ^ k)) × (a ≤ x) × (x ≤ 2 * a)

IsRounded-zero : IsRounded 0 0
unfolding IsRounded
IsRounded-zero = ((0, refl), omega arith, omega arith)

even_digit : (a : ℕ) → a % 2 ≢ 1 → a % 2 ≡ 0
even_digit a p = ground (arith, p)

power_parity : (k x : ℕ) → x + 1 ≡ 2 ^ k → x ≢ 0 → x % 2 ≡ 1
power_parity zero x e p = absurd (p (omega arith))
power_parity (suc k) x e p = omega (arith, two-pow-suc k)

IsRounded-double :
    (a b x : ℕ)
    → a / 2 ≡ b
    → a ≢ 0
    → IsRounded b x
    → (a % 2 ≡ 1) ⊎ (b ≢ 0)
    → IsRounded a (2 * x + 1)
unfolding IsRounded
IsRounded-double a b x half positive r h =
    let (power, above, below) = r in
    (
      (suc power.0, omega (arith, power.1, two-pow-suc power.0)),
      omega arith,
      ground (arith, h, power_parity power.0 x power.1),
    )

-- Masks below 2^n need n rounds at most; the result is of the form 2^k - 1, not below the mask,
-- and at most its double, so that no smaller one would do.
pub round_mask-IsRounded : (n f a : ℕ) → a < 2 ^ n → n ≤ f → IsRounded a (round_mask f a)
round_mask-IsRounded zero f a small enough =
    subst (λ z. IsRounded z (round_mask f z)) {x = 0} {y = a} (omega arith)
      (subst (IsRounded 0) (sym (round_mask-zero f)) IsRounded-zero)
round_mask-IsRounded (suc n) (suc f) a small enough = elim (ℕ_discrete a 0) [
  | yes empty ↦
      subst (λ z. IsRounded z (round_mask (suc f) z)) (sym empty)
        (subst (IsRounded 0) (sym (round_mask-zero (suc f))) IsRounded-zero)
  | no positive ↦ elim (ℕ_discrete (a % 2) 1) [
    | yes odd ↦
        subst (IsRounded a)
          (sym (
            ap (round_mask (suc f)) {x = a} {y = 2 * (a / 2) + 1} (omega arith)
            ∙ round_mask-odd (suc f) (a / 2)))
          (IsRounded-double a (a / 2) (round_mask (suc f) (a / 2)) refl positive
            (round_mask-IsRounded n (suc f) (a / 2) half (omega arith)) (inl odd))
    | no even ↦
        let upper : a / 2 ≢ 0 = λ e. positive (omega (arith, even_digit a even)) in
        subst (IsRounded a)
          (sym (
            ap (round_mask (suc f)) {x = a} {y = 2 * (a / 2)} (omega (arith, even_digit a even))
            ∙ round_mask-even f (a / 2) upper))
          (IsRounded-double a (a / 2) (round_mask f (a / 2)) refl positive
            (round_mask-IsRounded n f (a / 2) half (omega arith)) (inr upper))
  ]
]
  where
    half : a / 2 < 2 ^ n
    half = omega (arith, small, two-pow-suc n)
round_mask-IsRounded (suc n) zero a small enough = absurd (omega arith)
