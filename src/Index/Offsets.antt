-- ===== src/Index/Offsets.antt =====
-- What a block index represents: the sizes of the blocks in order, and where each block begins.
use zfp.Prelude.{ℕ, zero, suc, ◌+◌, ◌≤◌, ◌<◌, ◌≡◌, refl, ap, arith}
use zfp.Prelude.{List, [], ◌∷◌, length, get_or}
use native.Mathlib.Decide.{dec_le}

-- The bit size of block `i`; a block past the end has none.
abbrev pub size_at : List ℕ → ℕ → ℕ
size_at sizes i = get_or sizes i 0

-- The sum of the first `n` sizes: the bit offset of block `n`.
abbrev pub start : (ℕ → ℕ) → ℕ → ℕ
start s zero = 0
start s (suc n) = start s n + s n

pub start-add-one : (s : ℕ → ℕ) (n : ℕ) → start s (n + 1) ≡ start s n + s n
start-add-one s n = let e : n + 1 ≡ suc n = omega arith in ap (start s) e

-- The next few offsets after block `m`.
pub starts :
    (s : ℕ → ℕ) (m : ℕ)
    → (start s (m + 1) ≡ start s m + s m)
      × (start s (m + 2) ≡ start s m + s m + s (m + 1))
      × (start s (m + 3) ≡ start s m + s m + s (m + 1) + s (m + 2))
      × (start s (m + 4) ≡ start s m + s m + s (m + 1) + s (m + 2) + s (m + 3))
starts s m =
    let after : (k : ℕ) → start s (m + k + 1) ≡ start s (m + k) + s (m + k) =
      λ k. start-add-one s (m + k) in
    let shift : (j k : ℕ) → j ≡ k → start s j ≡ start s k = λ j k e. ap (start s) e in
    let one = start-add-one s m in
    let two = shift (m + 2) (m + 1 + 1) (omega arith) in
    let three = shift (m + 3) (m + 2 + 1) (omega arith) in
    let four = shift (m + 4) (m + 3 + 1) (omega arith) in
    omega (arith, one, two, after 1, three, after 2, four, after 3)

pub start_mono : (s : ℕ → ℕ) (i n : ℕ) → i ≤ n → start s i ≤ start s n
start_mono s i zero h = let e : i ≡ 0 = omega arith in rw e (omega arith)
start_mono s i (suc n) h = ground (arith, start_mono s i n, eq_case i n)
  where
    eq_case : (i n : ℕ) → i ≡ suc n → start s i ≡ start s n + s n
    eq_case i n e = ap (start s) e

pub size_at-past : (sizes : List ℕ) (i : ℕ) → length sizes ≤ i → size_at sizes i ≡ 0
size_at-past [] i h = refl
size_at-past (x ∷ xs) zero h = absurd (omega arith)
size_at-past (x ∷ xs) (suc i) h = size_at-past xs i (omega arith)

-- Past the last block the offsets stay at the end.
pub start-past :
    (sizes : List ℕ) (n : ℕ)
    → length sizes ≤ n
    → start (size_at sizes) n ≡ start (size_at sizes) (length sizes)
start-past sizes zero h = let e : length sizes ≡ 0 = omega arith in rw e
start-past sizes (suc n) h = elim (dec_le (length sizes) n) [
  | yes p ↦ omega (arith, start-past sizes n p, size_at-past sizes n p)
  | no p ↦ let e : length sizes ≡ suc n = omega arith in rw e
]

-- An index, read through its three accessors, represents blocks of these sizes stored one after
-- the other: the offset of every block and of the end, the size of every block, and the range.
pub record Represents (sizes : List ℕ) (offset size : ℕ → ℕ) (range : ℕ) : Type 0 where
  pub offsets : (i : ℕ) → i ≤ length sizes → offset i ≡ start (size_at sizes) i
  pub bit_sizes : (i : ℕ) → i < length sizes → size i ≡ size_at sizes i
  pub whole : range ≡ start (size_at sizes) (length sizes)
