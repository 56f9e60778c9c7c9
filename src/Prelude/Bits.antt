-- ===== src/Prelude/Bits.antt =====
-- The bitwise operations at variables: each is determined by its lowest digit and by the
-- operation on the halves, so a number may be cut in two at any bit.
use Prim.Native.Nat.{
  ℕ, zero, suc, ◌+◌, ◌-◌, ◌*◌, ◌/◌, ◌%◌, ◌^◌, ◌≤◌, ◌<◌, min, max, bit_and, bit_or, bit_xor, digits,
  bitwise, differ, bit_and-bitwise, bit_or-bitwise, bit_xor-bitwise,
}
use mathlib.Core.Path.{◌≡◌, refl, sym, ap, ◌∙◌}
use native.Mathlib.Nat.{pow-suc, le_refl, one-le-pow, mod-lt, mod-eq_of_lt}
use native.Mathlib.Nat.{div-add-mod', mul-add-mod_self_right}
use native.Mathlib.Omega.{arith}

-- Induction on a number by way of its half.
halving_below :
    (P : ℕ → Type 0) → P 0 → ((a : ℕ) → P (suc a / 2) → P (suc a)) → (bound a : ℕ) → a ≤ bound → P a
halving_below P none more bound zero h = none
halving_below P none more zero (suc a) h = absurd (omega arith)
halving_below P none more (suc bound) (suc a) h =
    more a (halving_below P none more bound (suc a / 2) (omega arith))

pub halving : (P : ℕ → Type 0) → P 0 → ((a : ℕ) → P (suc a / 2) → P (suc a)) → (a : ℕ) → P a
halving P none more a = halving_below P none more a a (le_refl a)

-- As many rounds as the first operand is large are as good as any larger number of them.
module _ (past : ℕ → ℕ) (digit : ℕ → ℕ → ℕ) where
  settled :
      (bound rounds x y : ℕ)
      → rounds < bound
      → x ≤ rounds
      → digits past digit rounds x y ≡ bitwise past digit x y
  settled zero rounds x y few fits = absurd (omega arith)
  settled (suc bound) zero zero y few fits = refl
  settled (suc bound) (suc rounds) zero y few fits = refl
  settled (suc bound) zero (suc x) y few fits = absurd (omega arith)
  settled (suc bound) (suc rounds) (suc x) y few fits =
      let here = settled bound rounds (suc x / 2) (y / 2) (omega arith) (omega arith) in
      let there = settled bound x (suc x / 2) (y / 2) (omega arith) (omega arith) in
      omega (arith, here, there)

  lowest_digit :
      (x y : ℕ)
      → bitwise past digit (suc x) y
        ≡ digit (suc x % 2) (y % 2) + 2 * bitwise past digit (suc x / 2) (y / 2)
  lowest_digit x y =
      omega (arith, settled (suc x) x (suc x / 2) (y / 2) (omega arith) (omega arith))

pub bit_and_half : (x y : ℕ) → bit_and x y ≡ min (x % 2) (y % 2) + 2 * bit_and (x / 2) (y / 2)
bit_and_half zero y = simp bit_and-bitwise (omega arith)
bit_and_half (suc x) y = simp bit_and-bitwise (lowest_digit (λ y'. 0) min x y)

pub bit_or_half : (x y : ℕ) → bit_or x y ≡ max (x % 2) (y % 2) + 2 * bit_or (x / 2) (y / 2)
bit_or_half zero y = simp bit_or-bitwise (omega arith)
bit_or_half (suc x) y = simp bit_or-bitwise (lowest_digit (λ y'. y') max x y)

digit_xor : (x y : ℕ) → x < 2 → y < 2 → differ x y ≡ (x + y) % 2
digit_xor zero zero p q = refl
digit_xor zero (suc zero) p q = refl
digit_xor (suc zero) zero p q = refl
digit_xor (suc zero) (suc zero) p q = refl
digit_xor (suc (suc x)) y p q = absurd (omega arith)
digit_xor zero (suc (suc y)) p q = absurd (omega arith)
digit_xor (suc zero) (suc (suc y)) p q = absurd (omega arith)

pub bit_xor_half : (a b : ℕ) → bit_xor a b ≡ (a + b) % 2 + 2 * bit_xor (a / 2) (b / 2)
bit_xor_half zero b = simp bit_xor-bitwise (omega arith)
bit_xor_half (suc a) b = simp bit_xor-bitwise (
    omega (
      arith,
      lowest_digit (λ y. y) differ a b,
      digit_xor (suc a % 2) (b % 2) (omega arith) (omega arith),
    ))

pub two-pow-suc : (k : ℕ) → 2 ^ suc k ≡ 2 * 2 ^ k
two-pow-suc k = omega (arith, pow-suc 2 k)

-- A multiple of a power of two, one place to the left.
shift_suc : (c j : ℕ) → c * 2 ^ suc j ≡ c * 2 ^ j + c * 2 ^ j
shift_suc c j = ap (λ (p : ℕ). c * p) (two-pow-suc j) ∙ omega arith

pub one-le-two-pow : (k : ℕ) → 1 ≤ 2 ^ k
one-le-two-pow k = one-le-pow k 2 (omega arith)

-- An operation that works digit by digit splits at any bit.
module _ (op g : ℕ → ℕ → ℕ) (half : (a b : ℕ) → op a b ≡ g (a % 2) (b % 2) + 2 * op (a / 2) (b / 2))
    (none : op 0 0 ≡ 0) where
  split_at :
      (k a c r s : ℕ)
      → r < 2 ^ k
      → s < 2 ^ k
      → op (a * 2 ^ k + r) (c * 2 ^ k + s) ≡ op a c * 2 ^ k + op r s
  split_at zero a c r s p q =
      let e : r ≡ 0 = omega arith in
      let f : s ≡ 0 = omega arith in
      let e' : a * 2 ^ 0 + 0 ≡ a = omega arith in
      let f' : c * 2 ^ 0 + 0 ≡ c = omega arith in rw (e, f, e', f', none) (omega arith)
  split_at (suc k) a c r s p q =
      let a' : (a * 2 ^ suc k + r) / 2 ≡ a * 2 ^ k + r / 2 = omega (arith, shift_suc a k) in
      let c' : (c * 2 ^ suc k + s) / 2 ≡ c * 2 ^ k + s / 2 = omega (arith, shift_suc c k) in
      let a'' : (a * 2 ^ suc k + r) % 2 ≡ r % 2 = omega (arith, shift_suc a k) in
      let c'' : (c * 2 ^ suc k + s) % 2 ≡ s % 2 = omega (arith, shift_suc c k) in
      let r' : r / 2 < 2 ^ k = omega (arith, two-pow-suc k) in
      let s' : s / 2 < 2 ^ k = omega (arith, two-pow-suc k) in
      half (a * 2 ^ suc k + r) (c * 2 ^ suc k + s)
      ∙ rw (a', c', a'', c'', split_at k a c (r / 2) (s / 2) r' s')
          (omega (arith, half r s, shift_suc (op a c) k))

bit_and_split :
    (k a c r s : ℕ)
    → r < 2 ^ k
    → s < 2 ^ k
    → bit_and (a * 2 ^ k + r) (c * 2 ^ k + s) ≡ bit_and a c * 2 ^ k + bit_and r s
bit_and_split = split_at bit_and min bit_and_half refl

pub bit_xor_split :
    (k a c r s : ℕ)
    → r < 2 ^ k
    → s < 2 ^ k
    → bit_xor (a * 2 ^ k + r) (c * 2 ^ k + s) ≡ bit_xor a c * 2 ^ k + bit_xor r s
bit_xor_split = split_at bit_xor (λ x y. (x + y) % 2) (λ a b. omega (arith, bit_xor_half a b)) refl

-- The empty set of bits, on either side.
pub none_and : (y : ℕ) → bit_and 0 y ≡ 0
none_and y = simp bit_and-bitwise

and_none : (x : ℕ) → bit_and x 0 ≡ 0
and_none = halving (λ x. bit_and x 0 ≡ 0) refl λ x ih. omega (arith, bit_and_half (suc x) 0, ih)

pub none_xor : (y : ℕ) → bit_xor 0 y ≡ y
none_xor y = simp bit_xor-bitwise

or_none : (x : ℕ) → bit_or x 0 ≡ x
or_none = halving (λ x. bit_or x 0 ≡ x) refl λ x ih. omega (arith, bit_or_half (suc x) 0, ih)

-- A number with itself.
pub bit_xor_self : (x : ℕ) → bit_xor x x ≡ 0
bit_xor_self =
    halving (λ x. bit_xor x x ≡ 0) refl λ x ih. omega (arith, bit_xor_half (suc x) (suc x), ih)

pub bit_and_self : (x : ℕ) → bit_and x x ≡ x
bit_and_self =
    halving (λ x. bit_and x x ≡ x) refl λ x ih. omega (arith, bit_and_half (suc x) (suc x), ih)

pub bit_or_self : (x : ℕ) → bit_or x x ≡ x
bit_or_self =
    halving (λ x. bit_or x x ≡ x) refl λ x ih. omega (arith, bit_or_half (suc x) (suc x), ih)

-- Numbers that differ have an exclusive or that is not zero.
pub bit_xor-eq-zero : (x y : ℕ) → bit_xor x y ≡ 0 → x ≡ y
bit_xor-eq-zero =
    halving (λ x. (y : ℕ) → bit_xor x y ≡ 0 → x ≡ y) (λ y e. omega (arith, none_xor y, e))
      λ x ih y e.
        omega
          (arith, bit_xor_half (suc x) y, e, ih (y / 2) (omega (arith, bit_xor_half (suc x) y, e)))

-- Halving under a remainder.
pub half_mod : (k a : ℕ) → a / 2 % 2 ^ k * 2 + a % 2 ≡ a % 2 ^ suc k
half_mod k a =
    let m : ℕ = 2 ^ k in
    let q : ℕ = a / 2 in
    let below : q % m < m = mod-lt q (one-le-two-pow k) in
    let parts : a ≡ q / m * (2 * m) + (q % m * 2 + a % 2) =
      omega (arith, ap (λ (t : ℕ). 2 * t) (div-add-mod' q m)) in
    sym (
      rw (two-pow-suc k) (
        ap (λ (t : ℕ). t % (2 * m)) parts
        ∙ mul-add-mod_self_right (q / m) (2 * m) (q % m * 2 + a % 2)
        ∙ mod-eq_of_lt (omega arith)))

-- A number under a mask of ones: the remainder.
pub low_bits : (width x : ℕ) → bit_and x (2 ^ width - 1) ≡ x % 2 ^ width
low_bits zero x = omega (arith, and_none x)
low_bits (suc width) x =
    let upper : (2 ^ suc width - 1) / 2 ≡ 2 ^ width - 1 =
      omega (arith, two-pow-suc width, one-le-two-pow width) in
    let lowest : (2 ^ suc width - 1) % 2 ≡ 1 =
      omega (arith, two-pow-suc width, one-le-two-pow width) in
    bit_and_half x (2 ^ suc width - 1)
    ∙ rw (upper, lowest, low_bits width (x / 2)) (omega (arith, half_mod width x))

-- Setting the lowest bit.
pub bit_or-one : (a : ℕ) → bit_or a 1 ≡ a / 2 * 2 + 1
bit_or-one a = omega (arith, bit_or_half a 1, or_none (a / 2))

-- A masked number is at most the mask.
pub bit_and-le : (x y : ℕ) → bit_and x y ≤ y
bit_and-le =
    halving (λ x. (y : ℕ) → bit_and x y ≤ y) (λ y. omega (arith, none_and y))
      λ x ih y. omega (arith, bit_and_half (suc x) y, ih (y / 2))
