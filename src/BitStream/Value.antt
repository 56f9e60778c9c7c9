-- ===== src/BitStream/Value.antt =====
-- A sequence of bits as one number, and words of memory as one number.
use zfp.Prelude.{
  ℕ, zero, suc, ◌+◌, ◌*◌, ◌/◌, ◌%◌, ◌^◌, ◌≤◌, ◌<◌, ◌≡◌, refl, sym, ap, ◌∙◌, arith, List, [], ◌∷◌,
  ◌++◌, false, ◌==◌,
}
use native.Mathlib.Nat.{mul_assoc, div-one}
use zfp.Prelude.Lists.{length}
use zfp.Prelude.Bits.{two-pow-suc, half_mod}
use zfp.Prelude.Powers.{power_add, halves}
use zfp.BlockCache.{update}
use zfp.Coder.{digits}

-- The bits of a list, the lowest first.
unfoldable pub value : List ℕ → ℕ
value [] = 0
value (b ∷ bs) = b + 2 * value bs

-- The words from `p` on.
unfoldable pub words : (ℕ → ℕ) → ℕ → ℕ → ℕ
words memory p zero = 0
words memory p (suc m) = memory p + 2 ^ 64 * words memory (p + 1) m

pub value-append : (xs ys : List ℕ) → value (xs ++ ys) ≡ value xs + 2 ^ length xs * value ys
unfolding value
value-append [] ys = omega arith
value-append (x ∷ xs) ys = omega (
  arith,
  value-append xs ys,
  ap (λ p. p * value ys) {x = 2 ^ suc (length xs)} {y = 2 * 2 ^ length xs}
      (two-pow-suc (length xs)),
  mul_assoc 2 (2 ^ length xs) (value ys),
)

pub length-append : (xs ys : List ℕ) → length (xs ++ ys) ≡ length xs + length ys
length-append [] ys = omega arith
length-append (x ∷ xs) ys = omega (arith, length-append xs ys)

pub length-digits : (n v : ℕ) → length (digits n v) ≡ n
unfolding digits
length-digits zero v = refl
length-digits (suc n) v = ap suc (length-digits n (v / 2))

pub value-digits : (n v : ℕ) → value (digits n v) ≡ v % 2 ^ n
unfolding digits value
value-digits zero v = omega arith
value-digits (suc n) v = omega (arith, value-digits n (v / 2), half_mod n v)

pub words-small :
    (memory : ℕ → ℕ) (p m : ℕ) → ((i : ℕ) → memory i < 2 ^ 64) → words memory p m < 2 ^ (64 * m)
unfolding words
words-small memory p zero h = omega arith
words-small memory p (suc m) h =
    let rest = words-small memory (p + 1) m h in
    let bound : 2 ^ 64 * 2 ^ (64 * m) ≡ 2 ^ (64 * suc m) =
      power_add 64 (64 * m) ∙ ap (λ n. 2 ^ n) {x = 64 + 64 * m} {y = 64 * suc m} (omega arith) in
    omega (arith, rest, h p, bound)

pub words_snoc :
    (memory : ℕ → ℕ) (p m : ℕ)
    → words memory p (suc m) ≡ words memory p m + 2 ^ (64 * m) * memory (p + m)
unfolding words
words_snoc memory p zero = omega (arith, ap memory {x = p} {y = p + 0} (omega arith))
words_snoc memory p (suc m) =
    let power : 2 ^ (64 * suc m) ≡ 2 ^ 64 * 2 ^ (64 * m) =
      ap (λ n. 2 ^ n) {x = 64 * suc m} {y = 64 + 64 * m} (omega arith)
      ∙ sym (power_add 64 (64 * m)) in
    omega (
      arith,
      words_snoc memory (p + 1) m,
      ap (λ q. q * memory (p + suc m)) power,
      mul_assoc (2 ^ 64) (2 ^ (64 * m)) (memory (p + suc m)),
      ap (λ i. 2 ^ (64 * m) * memory i) {x = p + 1 + m} {y = p + suc m} (omega arith),
    )

-- A word that is not among them does not matter.
pub words-update :
    (memory : ℕ → ℕ) (p m i v : ℕ) → p + m ≤ i → words (update memory i v) p m ≡ words memory p m
unfolding words
words-update memory p zero i v past = refl
words-update memory p (suc m) i v past =
    let other : (i == p) ≡ false = ground arith in
    rw (other, words-update memory (p + 1) m i v (omega arith)) refl

-- Bits in two parts.
pub digits_add : (a b v : ℕ) → digits (a + b) v ≡ digits a v ++ digits b (v / 2 ^ a)
unfolding digits
digits_add zero b v =
    ap (λ n. digits n v) {x = 0 + b} {y = b} (omega arith) ∙ ap (λ u. digits b u) (sym (div-one v))
digits_add (suc a) b v =
    ap (λ n. digits n v) {x = suc a + b} {y = suc (a + b)} (omega arith)
    ∙ ap (λ ds. v % 2 ∷ ds)
        (digits_add a b (v / 2) ∙ ap (λ u. digits a (v / 2) ++ digits b u) (halves v a))

-- Bits are 0 or 1.
abbrev pub IsBits : List ℕ → Type 0
IsBits [] = Unit
IsBits (b ∷ bs) = (b < 2) × IsBits bs

pub append-IsBits : (xs ys : List ℕ) → IsBits xs → IsBits ys → IsBits (xs ++ ys)
append-IsBits [] ys hx hy = hy
append-IsBits (x ∷ xs) ys hx hy = (hx.0, append-IsBits xs ys hx.1 hy)

pub front-IsBits : (xs ys : List ℕ) → IsBits (xs ++ ys) → IsBits xs
front-IsBits [] ys h = tt
front-IsBits (x ∷ xs) ys h = (h.0, front-IsBits xs ys h.1)

pub digits-IsBits : (n v : ℕ) → IsBits (digits n v)
unfolding digits
digits-IsBits zero v = tt
digits-IsBits (suc n) v = (omega arith, digits-IsBits n (v / 2))

pub value-small : (bs : List ℕ) → IsBits bs → value bs < 2 ^ length bs
unfolding value
value-small [] h = omega arith
value-small (b ∷ bs) h = omega (arith, h.0, value-small bs h.1, two-pow-suc (length bs))
