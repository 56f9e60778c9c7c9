-- ===== src/BlockCache/Lines.antt =====
-- The number of cache lines: `lines` of include/zfp/internal/array/cache1.hpp to cache4.hpp.
use zfp.Prelude.{
  ℕ, zero, suc, ◌+◌, ◌-◌, ◌*◌, ◌/◌, ◌^◌, ◌≤◌, ◌<◌, ◌≡◌, refl, arith, ap, ◌⊎◌, inl, inr, false,
  Bool-cases,
}
use zfp.Prelude.{u32, u64, ltb, ◌!=◌, if◌then◌else◌, max, ◌>>>◌, Option, none, some}
use zfp.Prelude.Bits.{two-pow-suc, one-le-two-pow}
use native.Mathlib.Nat.{mul-le-mul_left, mul-one, mul_assoc, mod-eq_of_lt}

-- The loop of the first `lines`: the least power of two from `m` on with a square of at least
-- `blocks`. A `size_t` has 64 bits, so 64 rounds are enough.
unfoldable pub lines_from : ℕ → ℕ → ℕ → ℕ
lines_from zero m blocks = m
lines_from (suc rounds) m blocks =
    let rest = lines_from rounds (u64 (m * 2)) blocks in
    if ltb (u64 (m * m)) blocks then rest else m

unfoldable pub default_lines : ℕ → ℕ
default_lines blocks = u32 (lines_from 64 1 blocks)

-- The second `lines`, for lines of `line_bytes` bytes; `none` is the exception for an array that
-- is too large.
unfoldable pub lines : ℕ → ℕ → ℕ → Option ℕ
lines line_bytes bytes blocks =
    if blocks >>> 31 != 0
    then none
    else let n =
        if bytes != 0
        then u32 (u64 (bytes + line_bytes - 1) / line_bytes)
        else default_lines blocks in
      some (max n 1)

lines_from_lem :
    (j r e m blocks : ℕ)
    → m ≡ 2 ^ e
    → m * 2 ^ j ≡ 2 ^ 31
    → m ≤ 2 ^ 31
    → j < r
    → blocks ≤ 2 ^ 62
    → let x = lines_from r m blocks in
      ((k : ℕ) × (x ≡ 2 ^ k))
      × (blocks ≤ x * x)
      × (x ≤ 2 ^ 31)
      × ((x ≡ m) ⊎ (x / 2 * (x / 2) < blocks))
unfolding lines_from
lines_from_lem zero (suc r) e m blocks power total small enough bound =
    let top : m ≡ 2 ^ 31 = omega (arith, mul-one m) in
    let square : m * m ≡ 2 ^ 62 = ap (λ z. z * z) top in
    let done : ltb (u64 (m * m)) blocks ≡ false = ground arith in
    rw done ((e, power), omega arith, small, inl refl)
lines_from_lem (suc j) (suc r) e m blocks power total small enough bound =
    let e' : m * 2 * 2 ^ j ≡ 2 ^ 31 =
      omega (arith, total, mul_assoc m 2 (2 ^ j), ap (λ z. m * z) (two-pow-suc j)) in
    let small' : m * 2 ≤ 2 ^ 31 =
      omega (arith, mul-le-mul_left (m * 2) (one-le-two-pow j), mul-one (m * 2)) in
    let square : m * m ≤ m * 2 ^ 31 = mul-le-mul_left m small in
    let wrap : u64 (m * 2) ≡ m * 2 = omega arith in
    let power' : m * 2 ≡ 2 ^ suc e = omega (arith, power, two-pow-suc e) in
    let rest = lines_from_lem j r (suc e) (m * 2) blocks power' e' small' (omega arith) bound in
    let half : m * 2 / 2 * (m * 2 / 2) ≡ m * m =
      ap (λ z. z * z) {x = m * 2 / 2} {y = m} (omega arith) in
    elim (Bool-cases (ltb (u64 (m * m)) blocks)) [
      | inl more ↦ rw (wrap, more) (rest.0, rest.1, rest.2, ground (arith, rest, half))
      | inr done ↦ rw (wrap, done) ((e, power), ground (arith, done), small, inl refl)
    ]
lines_from_lem j zero e m blocks power total small enough bound = absurd (omega arith)

-- For at most 2^62 blocks the default number of cache lines is a power of two, and the least one
-- that is not below the square root of the number of blocks: half of it, unless it is 1, is below.
pub default_lines-sqrt :
    (blocks : ℕ)
    → blocks ≤ 2 ^ 62
    → let m = default_lines blocks in
      ((k : ℕ) × (m ≡ 2 ^ k)) × (blocks ≤ m * m) × ((m ≡ 1) ⊎ (m / 2 * (m / 2) < blocks))
unfolding default_lines
default_lines-sqrt blocks bound =
    let x = lines_from_lem 31 64 0 1 blocks refl refl (omega arith) (omega arith) bound in
    let whole : u32 (lines_from 64 1 blocks) ≡ lines_from 64 1 blocks =
      mod-eq_of_lt {n = lines_from 64 1 blocks} {m = 2 ^ 32} (omega (arith, x.2)) in
    rw whole (x.0, x.1, x.3)
