-- ===== src/Store/Shape.antt =====
-- `shape_code` of include/zfp/internal/array/store.hpp, with its arithmetic on `size_t`.
use zfp.Prelude.{ℕ, suc, ◌+◌, ◌-◌, ◌*◌, ◌/◌, ◌%◌, ◌^◌, ◌≤◌, ◌<◌, ◌≡◌, ◌≢◌, arith, ap}
use zfp.Prelude.{bit_and, bit_xor, u32, sub64, if◌then◌else◌, leb, ◌>>>◌}
use zfp.Prelude.Bits.{
  halving, bit_xor_half, bit_xor_split, bit_xor_self, bit_xor-eq-zero, bit_and_half, none_and,
  none_xor,
}
use native.Mathlib.Decide.{ℕ_discrete}

-- The number of elements that a block starting at `i` lacks in an array of `n` elements.
unfoldable pub shape_code : ℕ → ℕ → ℕ
shape_code i n =
    let m₀ = bit_xor i n in
    let m₁ = sub64 m₀ 4 in let m₂ = m₁ >>> (8 * 8 - 2) in u32 (bit_and m₂ (sub64 0 n))

bit_xor-le : (x y : ℕ) → bit_xor x y ≤ x + y
bit_xor-le =
    halving (λ x. (y : ℕ) → bit_xor x y ≤ x + y) (λ y. omega (arith, none_xor y))
      λ x ih y. omega (arith, bit_xor_half (suc x) y, ih (y / 2))

xor_block : (a n : ℕ) → bit_xor (4 * a) n ≡ bit_xor a (n / 4) * 4 + n % 4
xor_block a n = omega (
  arith,
  ap (λ z. bit_xor z n) {x = 4 * a} {y = a * 4 + 0} (omega arith),
  ap (bit_xor (a * 4 + 0)) {x = n} {y = n / 4 * 4 + n % 4} (omega arith),
  bit_xor_split 2 a (n / 4) 0 (n % 4) (omega arith) (omega arith),
  none_xor (n % 4),
)

mask_three : (x : ℕ) → bit_and 3 x ≡ x % 4
mask_three x = omega (arith, bit_and_half 3 x, bit_and_half 1 (x / 2), none_and (x / 2 / 2))

-- A block that starts at a multiple of four inside an array of `n` elements, `n` less than
-- 2^61, is full, with code 0, or partial, with the number of elements that it lacks for its
-- code.
pub shape_code-lacks :
    (a n : ℕ)
    → 4 * a < n
    → n < 2 ^ 61
    → shape_code (4 * a) n ≡ (if leb (4 * a + 4) n then 0 else 4 * a + 4 - n)
unfolding shape_code
shape_code-lacks a n h small = elim (ℕ_discrete a (n / 4)) [
  | yes last ↦
      let xor : bit_xor (4 * a) n ≡ n % 4 =
        omega (arith, xor_block a n, ap (λ z. bit_xor z (n / 4)) last, bit_xor_self (n / 4)) in
      let ones : sub64 (bit_xor (4 * a) n) 4 / 2 ^ 62 ≡ 3 = omega arith in
      ground (arith, ap (λ m. u32 (bit_and m (sub64 0 n))) ones, mask_three (sub64 0 n))
  | no full ↦
      let xor : 4 ≤ bit_xor (4 * a) n = omega (
        arith,
        xor_block a n,
        differs (bit_xor a (n / 4)) (λ e. full (bit_xor-eq-zero a (n / 4) e)),
      ) in
      let zeros : sub64 (bit_xor (4 * a) n) 4 / 2 ^ 62 ≡ 0 = omega (arith, bit_xor-le (4 * a) n) in
      ground (arith, ap (λ m. u32 (bit_and m (sub64 0 n))) zeros, none_and (sub64 0 n))
]
  where
    differs : (x : ℕ) → x ≢ 0 → 1 ≤ x
    differs x p = ground (arith, p)
