-- ===== src/Block/Precision.antt =====
-- The precision that `rev_precision` finds: the bits of all words that are below it are zeros.
use zfp.Prelude.{
  ℕ, zero, suc, ◌+◌, ◌-◌, ◌*◌, ◌/◌, ◌%◌, ◌^◌, ◌≤◌, ◌<◌, ◌≡◌, ◌≢◌, refl, sym, ap, ◌∙◌, arith, ◌!=◌,
  ◌<<<◌, bit_or, Bool-cases, inl, inr,
}
use native.Mathlib.Nat.{
  mod-eq_of_lt, mod-lt, mul-mod_left, mul-le-mul_left, mul_assoc, mul_comm, mod-add-div, add-mul,
  add-mul-mod_self_left, mul-one, div-add-mod,
}
use zfp.Prelude.Bits.{two-pow-suc, one-le-two-pow, bit_or_half}
use zfp.Prelude.Powers.{power_add, mod_mul, mod-power, high_part}
use zfp.Block.{or_all, precision_loop, rev_precision}

-- The low `k` bits of a bitwise or are zeros only if those of both are.
or_low : (k a b : ℕ) → bit_or a b % 2 ^ k ≡ 0 → (a % 2 ^ k ≡ 0) × (b % 2 ^ k ≡ 0)
or_low zero a b h = (omega arith, omega arith)
or_low (suc k) a b h =
    let split : (v : ℕ) → v % 2 ^ suc k ≡ v % 2 + 2 * (v / 2 % 2 ^ k) =
      λ v. ap (λ m. v % m) (two-pow-suc k) ∙ mod_mul v 2 (2 ^ k) (omega arith) (one-le-two-pow k) in
    let low = bit_or_half a b in
    let rest : bit_or a b / 2 ≡ bit_or (a / 2) (b / 2) = omega (arith, low) in
    let (ha, hb) =
      or_low k (a / 2) (b / 2) (omega (arith, h, split (bit_or a b), ap (λ v. v % 2 ^ k) rest)) in
    (
      omega (arith, ha, split a, split (bit_or a b), low, h),
      omega (arith, hb, split b, split (bit_or a b), low, h),
    )

or_all_lem :
    (block : ℕ → ℕ) (k n i m : ℕ)
    → or_all block n i m % 2 ^ k ≡ 0
    → (m % 2 ^ k ≡ 0) × ((a : ℕ) → i ≤ a → a < i + n → block a % 2 ^ k ≡ 0)
unfolding or_all
or_all_lem block k zero i m h = (h, λ a from to. absurd (omega arith))
or_all_lem block k (suc n) i m h =
    let (here, later) = or_all_lem block k n (i + 1) (bit_or m (block i)) h in
    let (hm, hb) = or_low k m (block i) here in
    (
      hm,
      λ a from to. elim (Bool-cases (i != a)) [
        | inl other ↦ later a (ground (arith, other)) (omega arith)
        | inr this ↦ ap (λ j. block j % 2 ^ k) {x = a} {y = i} (ground (arith, this)) ∙ hb
      ],
    )

-- A factor passes through a remainder.
mod_factor : (x y n : ℕ) → x % n * y % n ≡ x * y % n
mod_factor x y n =
    sym (add-mul-mod_self_left (x % n * y) n (x / n * y))
    ∙ ap (λ v. v % n) {x = x % n * y + n * (x / n * y)} {y = x * y}
        (omega (
          arith,
          ap (λ v. v * y) (mod-add-div x n),
          add-mul (x % n) (n * (x / n)) y,
          mul_assoc n (x / n) y,
        ))

twice_shifted : (m s n : ℕ) → 1 ≤ s → ((((m <<< (s - 1)) % n) <<< 1) % n) ≡ m * 2 ^ s % n
twice_shifted m s n some =
    mod_factor (m * 2 ^ (s - 1)) (2 ^ 1) n
    ∙ ap (λ v. v % n)
        (mul_assoc m (2 ^ (s - 1)) (2 ^ 1)
          ∙ ap (λ v. m * v)
              (power_add (s - 1) 1 ∙ ap (λ e. 2 ^ e) {x = s - 1 + 1} {y = s} (omega arith)))

moved : (m a b n : ℕ) → m * 2 ^ a % n * 2 ^ b % n ≡ m * 2 ^ (a + b) % n
moved m a b n =
    mod_factor (m * 2 ^ a) (2 ^ b) n
    ∙ ap (λ v. v % n) (mul_assoc m (2 ^ a) (2 ^ b) ∙ ap (λ v. m * v) (power_add a b))

loop_done : (width fuel s p : ℕ) → precision_loop width fuel s 0 p ≡ p
unfolding precision_loop
loop_done width zero s p = refl
loop_done width (suc fuel) s p = refl

loop_few : (width fuel s m p : ℕ) → precision_loop width fuel s m p ≤ p + (2 * s - 1)
unfolding precision_loop
loop_few width zero s m p = omega arith
loop_few width (suc fuel) s m p = elim (Bool-cases (m != 0)) [
  | inl some ↦ elim (Bool-cases ((m <<< (s - 1)) % 2 ^ width != 0)) [
    | inl more ↦
        let rest =
          loop_few width fuel (s / 2) ((((m <<< (s - 1)) % 2 ^ width) <<< 1) % 2 ^ width) (p + s) in
        rw (precision_loop, some, more) (omega (arith, rest))
    | inr none ↦
        let rest = loop_few width fuel (s / 2) m p in
        rw (precision_loop, some, none) (omega (arith, rest))
  ]
  | inr all ↦ rw (precision_loop, all) (omega arith)
]

loop_step :
    (width all fuel s m p : ℕ)
    → 1 ≤ s
    → all * 2 ^ p % 2 ^ width ≡ m
    → ((m' : ℕ)
        → m' ≡ m * 2 ^ s % 2 ^ width
        → all * 2 ^ (p + s) % 2 ^ width ≡ m'
        → all * 2 ^ precision_loop width fuel (s / 2) m' (p + s) % 2 ^ width ≡ 0)
    → (m ≢ 0
        → m * 2 ^ (s - 1) % 2 ^ width ≡ 0
        → all * 2 ^ precision_loop width fuel (s / 2) m p % 2 ^ width ≡ 0)
    → all * 2 ^ precision_loop width (suc fuel) s m p % 2 ^ width ≡ 0
unfolding precision_loop
loop_step width all fuel s m p positive here further nearer = elim (Bool-cases (m != 0)) [
  | inl some ↦
      let n = 2 ^ width in
      elim (Bool-cases ((m <<< (s - 1)) % 2 ^ width != 0)) [
        | inl more ↦
            let m' = (((m <<< (s - 1)) % n) <<< 1) % n in
            let value : m' ≡ m * 2 ^ s % n = twice_shifted m s n positive in
            let next : all * 2 ^ (p + s) % n ≡ m' =
              sym (moved all p s n) ∙ ap (λ v. v * 2 ^ s % n) here ∙ sym value in
            rw (precision_loop, some, more) (further m' value next)
        | inr none ↦
            rw (precision_loop, some, none) (nearer (ground (arith, some)) (ground (arith, none)))
      ]
  | inr all_found ↦ rw (precision_loop, all_found) (here ∙ ground (arith, all_found))
]

-- The search with steps from 2^j on finds a precision, if m has enough zeros.
loop_lem :
    (width all j fuel s m p : ℕ)
    → s ≡ 2 ^ j
    → j < fuel
    → m * 2 ^ (2 * s - 1) % 2 ^ width ≡ 0
    → all * 2 ^ p % 2 ^ width ≡ m
    → all * 2 ^ precision_loop width fuel s m p % 2 ^ width ≡ 0
loop_lem width all j zero s m p power enough low here = absurd (omega arith)
loop_lem width all zero (suc fuel) s m p power enough low here =
    let one : s ≡ 1 = omega (arith, power) in
    let n = 2 ^ width in
    loop_step width all fuel s m p (omega arith) here
      (λ m' value next.
        let none : m' ≡ 0 =
          value ∙ ap (λ e. m * 2 ^ e % n) {x = s} {y = 2 * s - 1} (omega arith) ∙ low in
        ap (λ v. all * 2 ^ precision_loop width fuel (s / 2) v (p + s) % n) none
        ∙ ap (λ v. all * 2 ^ v % n) (loop_done width fuel (s / 2) (p + s))
        ∙ next
        ∙ none)
      (λ some none.
        let small : m < n = omega (arith, here, mod-lt (all * 2 ^ p) (one-le-two-pow width)) in
        let same : m * 2 ^ (s - 1) % n ≡ m =
          ap (λ e. m * 2 ^ e % n) {x = s - 1} {y = 0} (omega arith)
          ∙ ap (λ v. v % n) {x = m * 2 ^ 0} {y = m} (omega arith)
          ∙ mod-eq_of_lt small in
        absurd (some (sym same ∙ none)))
loop_lem width all (suc j) (suc fuel) s m p power enough low here =
    let half : s / 2 ≡ 2 ^ j = omega (arith, power, two-pow-suc j) in
    let n = 2 ^ width in
    let even : s ≡ 2 * (s / 2) = omega (arith, power, two-pow-suc j) in
    let positive : 1 ≤ s = omega (arith, power, one-le-two-pow (suc j)) in
    loop_step width all fuel s m p positive here
      (λ m' value next.
        let rest : m' * 2 ^ (2 * (s / 2) - 1) % n ≡ 0 =
          ap (λ v. v * 2 ^ (2 * (s / 2) - 1) % n) value
          ∙ moved m s (2 * (s / 2) - 1) n
          ∙ ap (λ e. m * 2 ^ e % n) {x = s + (2 * (s / 2) - 1)} {y = 2 * s - 1}
              (omega (arith, even, positive))
          ∙ low in
        loop_lem width all j fuel (s / 2) m' (p + s) half (omega arith) rest next)
      (λ some none.
        loop_lem width all j fuel (s / 2) m p half (omega arith)
          (ap (λ e. m * 2 ^ e % n) {x = 2 * (s / 2) - 1} {y = s - 1} (omega (arith, even)) ∙ none)
          here)

-- A number with its low zeros shifted out has them.
zeros_lem : (v p width : ℕ) → p ≤ width → v * 2 ^ p % 2 ^ width ≡ 0 → v % 2 ^ (width - p) ≡ 0
zeros_lem v p width l h =
    let k = width - p in
    let split : v * 2 ^ p % 2 ^ width ≡ v * 2 ^ p % 2 ^ p + 2 ^ p * (v * 2 ^ p / 2 ^ p % 2 ^ k) =
      ap (λ e. v * 2 ^ p % 2 ^ e) {x = width} {y = p + k} (omega (arith, l))
      ∙ mod-power (v * 2 ^ p) p k in
    let whole : v * 2 ^ p / 2 ^ p ≡ v =
      ap (λ x. x / 2 ^ p) {x = v * 2 ^ p} {y = 0 + 2 ^ p * v} (omega (arith, mul_comm v (2 ^ p)))
      ∙ high_part (2 ^ p) v 0 (one-le-two-pow p) in
    let product : 2 ^ p * (v % 2 ^ k) ≡ 0 =
      omega (arith, split, h, ap (λ x. 2 ^ p * (x % 2 ^ k)) whole) in
    elim (Bool-cases (v % 2 ^ k != 0)) [
      | inl some ↦
          let least : 2 ^ p * 1 ≤ 2 ^ p * (v % 2 ^ k) =
            mul-le-mul_left {m = 1} {n = v % 2 ^ k} (2 ^ p) (ground (arith, some)) in
          absurd (omega (arith, least, product, one-le-two-pow p, mul-one (2 ^ p)))
      | inr none ↦ ground (arith, none)
    ]

cleared : (v k : ℕ) → v % 2 ^ k ≡ 0 → v / 2 ^ k * 2 ^ k ≡ v
cleared v k h = omega (arith, mul_comm (v / 2 ^ k) (2 ^ k), div-add-mod v (2 ^ k))

or_small : (k a b : ℕ) → a < 2 ^ k → b < 2 ^ k → bit_or a b < 2 ^ k
or_small zero a b p q =
    let e : a ≡ 0 = omega arith in let f : b ≡ 0 = omega arith in rw (e, f) (omega arith)
or_small (suc k) a b p q =
    let half =
      or_small k (a / 2) (b / 2) (omega (arith, two-pow-suc k)) (omega (arith, two-pow-suc k)) in
    omega (arith, half, bit_or_half a b, two-pow-suc k)

or_all_small :
    (block : ℕ → ℕ) (k n i m : ℕ)
    → ((a : ℕ) → a < i + n → block a < 2 ^ k)
    → m < 2 ^ k
    → or_all block n i m < 2 ^ k
unfolding or_all
or_all_small block k zero i m fits h = h
or_all_small block k (suc n) i m fits h =
    or_all_small block k n (i + 1) (bit_or m (block i)) (λ a l. fits a (omega arith))
      (or_small k m (block i) h (fits i (omega arith)))

-- The first step is as large as a word.
first_step : (width fuel m : ℕ) → 1 ≤ width → precision_loop width (suc fuel) width m 0 ≤ width
unfolding precision_loop
first_step width fuel m some = elim (Bool-cases (m != 0)) [
  | inl more ↦ elim (Bool-cases ((m <<< (width - 1)) % 2 ^ width != 0)) [
    | inl odd ↦
        let none : ((((m <<< (width - 1)) % 2 ^ width) <<< 1) % 2 ^ width) ≡ 0 =
          twice_shifted m width (2 ^ width) some ∙ mul-mod_left m (2 ^ width) in
        rw (precision_loop, more, odd, none, loop_done width fuel (width / 2) (0 + width))
          (omega arith)
    | inr even ↦
        let rest = loop_few width fuel (width / 2) m 0 in
        rw (precision_loop, more, even) (omega (arith, rest))
  ]
  | inr all ↦ rw (precision_loop, all) (omega arith)
]

-- `rev_precision` returns a precision of at most a word, and no word of the block has a bit below
-- it, for words whose width is a power of two.
pub rev_precision_lem :
    (width j : ℕ) (block : ℕ → ℕ) (n : ℕ)
    → width ≡ 2 ^ j
    → j < width
    → ((a : ℕ) → a < n → block a < 2 ^ width)
    → let p = rev_precision width block n in
      (p ≤ width) × ((a : ℕ) → a < n → block a / 2 ^ (width - p) * 2 ^ (width - p) ≡ block a)
unfolding rev_precision
rev_precision_lem zero j block n power enough fits = absurd (omega arith)
rev_precision_lem (suc w) j block n power enough fits =
    let width = suc w in
    let all = or_all block n 0 0 in
    let p = precision_loop width width width all 0 in
    let small : all < 2 ^ width =
      or_all_small block width n 0 0 (λ a l. fits a (omega arith)) (one-le-two-pow width) in
    let most : p ≤ width = first_step width w all (omega arith) in
    let low : all * 2 ^ (2 * width - 1) % 2 ^ width ≡ 0 =
      ap (λ e. all * 2 ^ e % 2 ^ width) {x = 2 * width - 1} {y = w + width} (omega arith)
      ∙ sym (moved all w width (2 ^ width))
      ∙ mul-mod_left (all * 2 ^ w % 2 ^ width) (2 ^ width) in
    let start : all * 2 ^ 0 % 2 ^ width ≡ all =
      ap (λ v. v % 2 ^ width) {x = all * 2 ^ 0} {y = all} (omega arith) ∙ mod-eq_of_lt small in
    let found : all * 2 ^ p % 2 ^ width ≡ 0 =
      loop_lem width all j width width all 0 power enough low start in
    let (none, each) = or_all_lem block (width - p) n 0 0 (zeros_lem all p width most found) in
    (most, λ a l. cleared (block a) (width - p) (each a (omega arith) (omega arith)))
