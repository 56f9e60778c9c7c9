-- ===== src/Prelude/Powers.antt =====
-- Powers of two, and numbers cut in two at a power.
use Prim.Native.Nat.{ℕ, zero, suc, ◌+◌, ◌*◌, ◌/◌, ◌%◌, ◌^◌, ◌≤◌, ◌<◌}
use mathlib.Core.Path.{◌≡◌, sym, ap, ◌∙◌}
use native.Mathlib.Omega.{arith}
use native.Mathlib.Nat.{
  mul_assoc, mul-one, mul-le-mul_left, mul-add, div-div-eq-div-mul, pow-zero, mod-eq_of_lt, mod-lt,
  div-eq_of_lt, add-mul-div_left, add-mul-mod_self_left, mod-add-div,
}
use zfp.Prelude.Bits.{two-pow-suc, one-le-two-pow}

pub halves : (x j : ℕ) → x / 2 / 2 ^ j ≡ x / 2 ^ suc j
halves x j = div-div-eq-div-mul x 2 (2 ^ j) ∙ ap (λ z. x / z) (sym (two-pow-suc j))

pub power_add : (a b : ℕ) → 2 ^ a * 2 ^ b ≡ 2 ^ (a + b)
power_add zero b = omega (arith, ap (λ n. 2 ^ n) {x = 0 + b} {y = b} (omega arith), pow-zero 2)
power_add (suc a) b =
    ap (λ p. p * 2 ^ b) {x = 2 ^ suc a} {y = 2 * 2 ^ a} (two-pow-suc a)
    ∙ mul_assoc 2 (2 ^ a) (2 ^ b)
    ∙ ap (λ p. 2 * p) (power_add a b)
    ∙ sym (two-pow-suc (a + b))
    ∙ ap (λ n. 2 ^ n) {x = suc (a + b)} {y = suc a + b} (omega arith)

-- The two parts of `r + p * q`, for r < p.
pub high_part : (p q r : ℕ) → r < p → (r + p * q) / p ≡ q
high_part p q r h =
    add-mul-div_left r q {y = p} (omega arith) ∙ ap (λ n. n + q) (div-eq_of_lt h) ∙ omega arith

pub low_part : (p q r : ℕ) → r < p → (r + p * q) % p ≡ r
low_part p q r h = add-mul-mod_self_left r p q ∙ mod-eq_of_lt h

pub mod_mul : (v p q : ℕ) → 1 ≤ p → 1 ≤ q → v % (p * q) ≡ v % p + p * (v / p % q)
mod_mul v p q hp hq =
    let r = v % p in
    let s = v / p % q in
    let u = v / p / q in
    let sum : r + p * s + p * q * u ≡ v = omega (
      arith,
      mod-add-div v p,
      ap (λ n. p * n) (sym (mod-add-div (v / p) q)),
      mul-add p s (q * u),
      mul_assoc p q u,
    ) in
    let bound : p * (s + 1) ≤ p * q =
      mul-le-mul_left {m = v / p % q + 1} p (omega (arith, mod-lt (v / p) {m = q} hq)) in
    let small : r + p * s < p * q =
      omega (arith, bound, mul-add p s 1, mul-one p, mod-lt v {m = p} hp) in
    ap (λ n. n % (p * q)) (sym sum) ∙ low_part (p * q) u (r + p * s) small

mod_low : (v p q : ℕ) → 1 ≤ p → 1 ≤ q → v % (p * q) % p ≡ v % p
mod_low v p q hp hq =
    ap (λ n. n % p) (mod_mul v p q hp hq) ∙ low_part p (v / p % q) (v % p) (mod-lt v {m = p} hp)

-- The same for powers of two.
pub mod-power : (v a b : ℕ) → v % 2 ^ (a + b) ≡ v % 2 ^ a + 2 ^ a * (v / 2 ^ a % 2 ^ b)
mod-power v a b =
    ap (λ m. v % m) (sym (power_add a b))
    ∙ mod_mul v (2 ^ a) (2 ^ b) (one-le-two-pow a) (one-le-two-pow b)

pub mod_power_low : (v a b : ℕ) → v % 2 ^ (a + b) % 2 ^ a ≡ v % 2 ^ a
mod_power_low v a b =
    ap (λ m. v % m % 2 ^ a) (sym (power_add a b))
    ∙ mod_low v (2 ^ a) (2 ^ b) (one-le-two-pow a) (one-le-two-pow b)

pub div-power : (v a b : ℕ) → v / 2 ^ a / 2 ^ b ≡ v / 2 ^ (a + b)
div-power v a b = div-div-eq-div-mul v (2 ^ a) (2 ^ b) ∙ ap (λ m. v / m) (power_add a b)
