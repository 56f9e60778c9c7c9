-- ===== src/Store/Axis.antt =====
-- Numbers with digits in a mixed base, as `block_index` builds and `block_shape` takes apart, and
-- the shape of a block along one axis.
use zfp.Prelude.{ℕ, ◌+◌, ◌-◌, ◌*◌, ◌/◌, ◌%◌, ◌^◌, ◌<◌, ◌≡◌, arith, ap, ◌∙◌, u64}
use zfp.Prelude.{if◌then◌else◌, leb}
use zfp.Store.Shape.{shape_code, shape_code-lacks}
use native.Mathlib.Nat.{
  add-mul-div_left, add-mul-mod_self_left, div-eq_of_lt, mod-eq_of_lt, mul-le-mul_left, mul-suc,
}

pub digit-lt : {x b y c : ℕ} → x < b → y < c → x + b * y < b * c
digit-lt {x} {b} {y} {c} p q = omega (arith, mul-le-mul_left b q, mul-suc b y)

pub low_digit : {x b : ℕ} (y : ℕ) → x < b → (x + b * y) % b ≡ x
low_digit {x} {b} y p = add-mul-mod_self_left x b y ∙ mod-eq_of_lt p

pub high_digit : {x b : ℕ} (y : ℕ) → x < b → (x + b * y) / b ≡ y
high_digit {x} {b} y p = omega (arith, add-mul-div_left x y {y = b} (omega arith), div-eq_of_lt p)

-- The number of elements that the block of element `i` lacks in an array of `n` elements.
abbrev pub lacks : ℕ → ℕ → ℕ
lacks i n = if leb (4 * (i / 4) + 4) n then 0 else 4 * (i / 4) + 4 - n

pub axis_shape :
    (q i n : ℕ) → q ≡ i / 4 → i < n → n < 2 ^ 61 → shape_code (u64 (4 * q)) n ≡ lacks i n
axis_shape q i n e p small =
    ap (λ z. shape_code z n) {x = u64 (4 * q)} {y = 4 * (i / 4)} (omega arith)
    ∙ shape_code-lacks (i / 4) n (omega arith) small

pub lacks-lt : (i n : ℕ) → i < n → lacks i n < 4
lacks-lt i n p = ground arith
