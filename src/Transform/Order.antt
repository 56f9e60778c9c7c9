-- ===== src/Transform/Order.antt =====
-- The order of the coefficients and the sign map: each undoes the other.
use zfp.Prelude.{
  ℕ, zero, suc, ◌+◌, ◌-◌, ◌/◌, ◌^◌, ◌%◌, ◌≤◌, ◌<◌, ◌≡◌, ◌≢◌, refl, sym, ap, ◌∙◌, arith, Bool, true,
  false, List, [], ◌∷◌, ◌==◌, ltb, ◌&&◌, bit_xor, if◌then◌else◌, Bool-cases, inl, inr,
}
use native.Mathlib.Nat.{mod-eq_of_lt, mod-lt, add-mod_right}
use zfp.Prelude.Bits.{one-le-two-pow, two-pow-suc, bit_xor_half}
use zfp.Transform.{sub_word, add_word, mask, int2uint, uint2int, fwd_order, inv_order}
use zfp.Transform.Tables.{entry, perm}
use mathlib.Core.Path.{subst}
use zfp.Transform.Inverse.{IsBlock, both}

xor_small : (k a b : ℕ) → a < 2 ^ k → b < 2 ^ k → bit_xor a b < 2 ^ k
xor_small zero a b p q =
    let e : a ≡ 0 = omega arith in let f : b ≡ 0 = omega arith in rw (e, f) (omega arith)
xor_small (suc k) a b p q =
    let half =
      xor_small k (a / 2) (b / 2) (omega (arith, two-pow-suc k)) (omega (arith, two-pow-suc k)) in
    omega (arith, half, bit_xor_half a b, two-pow-suc k)

xor_twice : (k a b : ℕ) → a < 2 ^ k → b < 2 ^ k → bit_xor (bit_xor a b) b ≡ a
xor_twice zero a b p q =
    let e : a ≡ 0 = omega arith in let f : b ≡ 0 = omega arith in rw (e, f) refl
xor_twice (suc k) a b p q =
    let half =
      xor_twice k (a / 2) (b / 2) (omega (arith, two-pow-suc k)) (omega (arith, two-pow-suc k)) in
    let low = bit_xor_half a b in
    let rest : bit_xor a b / 2 ≡ bit_xor (a / 2) (b / 2) = omega (arith, low) in
    omega (arith, bit_xor_half (bit_xor a b) b, low, ap (λ x. bit_xor x (b / 2)) rest, half)

mask_small : (width : ℕ) → mask width < 2 ^ width
mask_small width = omega (arith, one-le-two-pow width)

redo : (width a b : ℕ) → a < 2 ^ width → b < 2 ^ width → sub_word width (add_word width a b) b ≡ a
unfolding add_word sub_word
redo width a b ha hb =
    let m = 2 ^ width in
    elim (Bool-cases (ltb (a + b) m)) [
      | inl less ↦
          let small : (a + b) % m ≡ a + b = mod-eq_of_lt (ground (arith, less)) in
          rw small (
            ap (λ n. n % m) {x = a + b + (m - b)} {y = a + m} (omega arith)
            ∙ add-mod_right a m
            ∙ mod-eq_of_lt ha)
      | inr more ↦
          let small : (a + b) % m ≡ a + b - m =
            ap (λ n. n % m) {x = a + b} {y = a + b - m + m} (ground (arith, more))
            ∙ add-mod_right (a + b - m) m
            ∙ mod-eq_of_lt (omega arith) in
          rw small (
            ap (λ n. n % m) {x = a + b - m + (m - b)} {y = a} (ground (arith, more))
            ∙ mod-eq_of_lt ha)
    ]

uint2int-int2uint : (width x : ℕ) → x < 2 ^ width → uint2int width (int2uint width x) ≡ x
unfolding uint2int int2uint add_word
uint2int-int2uint width x h =
    ap (λ u. sub_word width u (mask width))
      (xor_twice width (add_word width x (mask width)) (mask width)
        (mod-lt (x + mask width) (one-le-two-pow width)) (mask_small width))
    ∙ redo width x (mask width) h (mask_small width)

fwd_order_before :
    (width : ℕ) (perm : ℕ → ℕ) (n i : ℕ) (iblock ublock : ℕ → ℕ) (a : ℕ)
    → a < i
    → fwd_order width perm n i iblock ublock a ≡ ublock a
unfolding fwd_order
fwd_order_before width perm zero i iblock ublock a before = refl
fwd_order_before width perm (suc n) i iblock ublock a before =
    let other : (i == a) ≡ false = ground arith in
    fwd_order_before width perm n (i + 1) iblock _ a (omega arith) ∙ rw other refl

fwd_order_lem :
    (width : ℕ) (perm : ℕ → ℕ) (n i : ℕ) (iblock ublock : ℕ → ℕ) (a : ℕ)
    → i ≤ a
    → a < i + n
    → fwd_order width perm n i iblock ublock a ≡ int2uint width (iblock (perm a))
unfolding fwd_order
fwd_order_lem width perm zero i iblock ublock a from to = absurd (omega arith)
fwd_order_lem width perm (suc n) i iblock ublock a from to = elim (Bool-cases (i == a)) [
  | inl this ↦
      let same : i ≡ a = ground (arith, this) in
      fwd_order_before width perm n (i + 1) iblock _ a (omega arith)
      ∙ rw this (ap (λ j. int2uint width (iblock (perm j))) same)
  | inr other ↦ fwd_order_lem width perm n (i + 1) iblock _ a (ground (arith, other)) (omega arith)
]

-- The unsigned integers are words.
pub fwd_order-small :
    (width : ℕ) (perm : ℕ → ℕ) (n : ℕ) (iblock ublock : ℕ → ℕ) (a : ℕ)
    → a < n
    → fwd_order width perm n 0 iblock ublock a < 2 ^ width
unfolding int2uint add_word
fwd_order-small width perm n iblock ublock a inside =
    let x = iblock (perm a) in
    rw (fwd_order_lem width perm n 0 iblock ublock a (omega arith) (omega (arith, inside))) (
      xor_small width (add_word width x (mask width)) (mask width)
        (mod-lt (x + mask width) (one-le-two-pow width)) (mask_small width))

inv_order_other :
    (width : ℕ) (perm : ℕ → ℕ) (n i : ℕ) (ublock iblock : ℕ → ℕ) (p : ℕ)
    → ((a : ℕ) → i ≤ a → a < i + n → perm a ≢ p)
    → inv_order width perm n i ublock iblock p ≡ iblock p
unfolding inv_order
inv_order_other width perm zero i ublock iblock p none = refl
inv_order_other width perm (suc n) i ublock iblock p none =
    let here = none i (omega arith) (omega arith) in
    let other : (perm i == p) ≡ false = ground (arith, here) in
    inv_order_other width perm n (i + 1) ublock _ p
      (λ a from to. none a (omega arith) (omega arith))
    ∙ rw other refl

inv_order_lem :
    (width : ℕ) (perm : ℕ → ℕ) (n i : ℕ) (ublock iblock : ℕ → ℕ) (a : ℕ)
    → ((b : ℕ) → a < b → b < i + n → perm b ≢ perm a)
    → i ≤ a
    → a < i + n
    → inv_order width perm n i ublock iblock (perm a) ≡ uint2int width (ublock a)
unfolding inv_order
inv_order_lem width perm zero i ublock iblock a once from to = absurd (omega arith)
inv_order_lem width perm (suc n) i ublock iblock a once from to = elim (Bool-cases (i == a)) [
  | inl this ↦
      let same : i ≡ a = ground (arith, this) in
      let hit : (perm i == perm a) ≡ true = ground (arith, ap perm same) in
      inv_order_other width perm n (i + 1) ublock _ (perm a)
        (λ b l u. once b (omega arith) (omega arith))
      ∙ rw hit (ap (λ j. uint2int width (ublock j)) same)
  | inr other ↦
      inv_order_lem width perm n (i + 1) ublock _ a (λ b l u. once b l (omega arith))
        (ground (arith, other)) (omega arith)
]

-- Where in a table a number stands first.
abbrev place : List ℕ → ℕ → ℕ
place [] p = 0
place (q ∷ ps) p = if q == p then 0 else place ps p + 1

-- Every number below the size stands in the table, and every entry stands there once.
abbrev is_permutation : List ℕ → ℕ → ℕ → Bool
is_permutation ps size zero = true
is_permutation ps size (suc n) =
    (place ps (entry ps n) == n)
    && ((entry ps (place ps n) == n) && (ltb (place ps n) size && is_permutation ps size n))

record Placed (ps : List ℕ) (size a : ℕ) : Type 0 where
  once : place ps (entry ps a) ≡ a
  there : entry ps (place ps a) ≡ a
  inside : place ps a < size

placed : (ps : List ℕ) (size n a : ℕ) → is_permutation ps size n ≡ true → a < n → Placed ps size a
placed ps size zero a h l = absurd (omega arith)
placed ps size (suc n) a h l =
    let (p, h₁) = both (place ps (entry ps n) == n) _ h in
    let (q, h₂) = both (entry ps (place ps n) == n) _ h₁ in
    let (r, h₃) = both (ltb (place ps n) size) (is_permutation ps size n) h₂ in
    elim (Bool-cases (n == a)) [
      | inl this ↦
          subst (Placed ps size) {x = n} {y = a} (ground (arith, this)) record {
            once = ground (arith, p);
            there = ground (arith, q);
            inside = ground (arith, r);
          }
      | inr other ↦ placed ps size n a h₃ (ground (arith, other))
    ]

tables : (d : ℕ) → 1 ≤ d → d ≤ 4 → is_permutation (perm d) (4 ^ d) (4 ^ d) ≡ true
tables zero l u = absurd (omega arith)
tables (suc zero) l u = refl
tables (suc (suc zero)) l u = refl
tables (suc (suc (suc zero))) l u = refl
tables (suc (suc (suc (suc zero)))) l u = refl
tables (suc (suc (suc (suc (suc d))))) l u = absurd (omega arith)

-- The coefficients of a block of one to four dimensions, reordered and mapped to unsigned integers
-- and back, are the same words at the same places.
pub inv_order-fwd_order :
    (width d : ℕ) (iblock ublock block : ℕ → ℕ) (a : ℕ)
    → 1 ≤ d
    → d ≤ 4
    → IsBlock width iblock
    → a < 4 ^ d
    → inv_order width
        (entry (perm d))
        (4 ^ d)
        0
        (fwd_order width (entry (perm d)) (4 ^ d) 0 iblock ublock)
        block
        a
      ≡ iblock a
inv_order-fwd_order width d iblock ublock block a l u words inside =
    let ps = perm d in
    let size = 4 ^ d in
    let u' = fwd_order width (entry ps) size 0 iblock ublock in
    let at = placed ps size size a (tables d l u) inside in
    let i = place ps a in
    let once : (b : ℕ) → i < b → b < 0 + size → entry ps b ≢ entry ps i = λ b more below e.
      let pb = placed ps size size b (tables d l u) (omega arith) in
      let pi = placed ps size size i (tables d l u) at.inside in
      absurd (omega (arith, pb.once, pi.once, ap (place ps) e)) in
    ap (inv_order width (entry ps) size 0 u' block) (sym at.there)
    ∙ inv_order_lem width (entry ps) size 0 u' block i once (omega arith) (omega (arith, at.inside))
    ∙ ap (uint2int width) (
        fwd_order_lem width (entry ps) size 0 iblock ublock i (omega arith)
          (omega (arith, at.inside)))
    ∙ uint2int-int2uint width (iblock (entry ps i)) (words (entry ps i))
    ∙ ap iblock at.there
