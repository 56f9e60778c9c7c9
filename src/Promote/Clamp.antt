-- ===== src/Promote/Clamp.antt =====
-- Small integers are kept by the conversion to 32 bits and back, and every 32-bit integer is
-- converted to a small one.
use zfp.Prelude.{
  ℕ, zero, suc, ◌+◌, ◌-◌, ◌*◌, ◌^◌, ◌≤◌, ◌<◌, ◌≡◌, refl, sym, ap, ◌∙◌, arith, false, ◌==◌,
  Bool-cases, inl, inr,
}
use zfp.Prelude.Int.{ℤ, pos, negsuc, pos_part, neg_part, ◌+ℤ◌, ◌-ℤ◌, min_ℤ, max_ℤ}
use mathlib.Core.Path.{subst}
use zfp.Promote.{
  Small, int8, uint8, int16, uint16, promote, demote, shl, shr, convert, block_count, promote_int8,
  promote_uint8, promote_int16, promote_uint16, demote_int8, demote_uint8, demote_int16,
  demote_uint16,
}

-- Between -low and high.
pub record IsBetween (low high : ℕ) (x : ℤ) : Type 0 where
  pub least : neg_part x ≤ low
  pub most : pos_part x ≤ high

convert_before :
    (f : ℤ → ℤ) (count i : ℕ) (iblock oblock : ℕ → ℤ) (a : ℕ)
    → a < i
    → convert f count i iblock oblock a ≡ oblock a
unfolding convert
convert_before f zero i iblock oblock a before = refl
convert_before f (suc count) i iblock oblock a before =
    let other : (i == a) ≡ false = ground arith in
    convert_before f count (i + 1) iblock _ a (omega arith) ∙ rw other refl

convert_lem :
    (f : ℤ → ℤ) (count i : ℕ) (iblock oblock : ℕ → ℤ) (a : ℕ)
    → i ≤ a
    → a < i + count
    → convert f count i iblock oblock a ≡ f (iblock a)
unfolding convert
convert_lem f zero i iblock oblock a from to = absurd (omega arith)
convert_lem f (suc count) i iblock oblock a from to = elim (Bool-cases (i == a)) [
  | inl this ↦
      convert_before f count (i + 1) iblock _ a (ground (arith, this))
      ∙ rw this (ap (λ j. f (iblock j)) {x = i} {y = a} (ground (arith, this)))
  | inr other ↦ convert_lem f count (i + 1) iblock _ a (ground (arith, other)) (omega arith)
]

shl-shr_23 : (x : ℤ) → shr (shl x 23) 23 ≡ x
shl-shr_23 (pos m) =
    let shifted : shl (pos m) 23 ≡ pos (m * 2 ^ 23) = ground arith in
    rw shifted (ap pos (omega arith))
shl-shr_23 (negsuc m) =
    let shifted : shl (negsuc m) 23 ≡ negsuc ((m + 1) * 2 ^ 23 - 1) = ground arith in
    rw shifted (ap negsuc (omega arith))

shl-shr_15 : (x : ℤ) → shr (shl x 15) 15 ≡ x
shl-shr_15 (pos m) =
    let shifted : shl (pos m) 15 ≡ pos (m * 2 ^ 15) = ground arith in
    rw shifted (ap pos (omega arith))
shl-shr_15 (negsuc m) =
    let shifted : shl (negsuc m) 15 ≡ negsuc ((m + 1) * 2 ^ 15 - 1) = ground arith in
    rw shifted (ap negsuc (omega arith))

clamp_back :
    (low high : ℕ) (x : ℤ)
    → IsBetween (low + 1) high x
    → max_ℤ (negsuc low) (min_ℤ x (pos high)) ≡ x
clamp_back low high (pos n) h = elim (Bool-cases (n == high)) [
  | inl top ↦ ground (arith, top)
  | inr below ↦ ground (arith, below, h.most)
]
clamp_back low high (negsuc n) h = elim (Bool-cases (n == low)) [
  | inl bottom ↦ ground (arith, bottom)
  | inr above ↦ ground (arith, above, h.least)
]

clamp_back_pos : (high n : ℕ) → n ≤ high → max_ℤ (pos 0) (min_ℤ (pos n) (pos high)) ≡ pos n
clamp_back_pos high n h = elim (Bool-cases (n == high)) [
  | inl top ↦ ground (arith, top)
  | inr below ↦ ground (arith, below, h)
]

sub-add : (n k : ℕ) → pos n -ℤ pos k +ℤ pos k ≡ pos n
sub-add n k = ground arith

-- The range of a small type.
abbrev pub lowest : Small → ℕ
lowest int8 = 2 ^ 7
lowest uint8 = 0
lowest int16 = 2 ^ 15
lowest uint16 = 0

abbrev pub highest : Small → ℕ
highest int8 = 2 ^ 7 - 1
highest uint8 = 2 ^ 8 - 1
highest int16 = 2 ^ 15 - 1
highest uint16 = 2 ^ 16 - 1

uint8_back :
    (x : ℤ)
    → IsBetween 0 255 x
    → max_ℤ (pos 0) (min_ℤ (shr (shl (x -ℤ pos 0x80) 23) 23 +ℤ pos 0x80) (pos 0xff)) ≡ x
uint8_back (pos n) h =
    rw (shl-shr_23 (pos n -ℤ pos 0x80), sub-add n 0x80) (clamp_back_pos 255 n h.most)
uint8_back (negsuc n) h = absurd (omega (arith, h.least))

uint16_back :
    (x : ℤ)
    → IsBetween 0 65535 x
    → max_ℤ (pos 0) (min_ℤ (shr (shl (x -ℤ pos 0x8000) 15) 15 +ℤ pos 0x8000) (pos 0xffff)) ≡ x
uint16_back (pos n) h =
    rw (shl-shr_15 (pos n -ℤ pos 0x8000), sub-add n 0x8000) (clamp_back_pos 65535 n h.most)
uint16_back (negsuc n) h = absurd (omega (arith, h.least))

-- A small integer in a block, converted to 32 bits and back with the functions of its type, is the
-- same integer.
pub demote-promote :
    (type : Small) (dims : ℕ) (iblock oblock block : ℕ → ℤ) (a : ℕ)
    → a < block_count dims
    → IsBetween (lowest type) (highest type) (iblock a)
    → demote type dims (promote type dims iblock oblock) block a ≡ iblock a
unfolding promote_int8 promote_uint8 promote_int16 promote_uint16 demote_int8 demote_uint8
    demote_int16 demote_uint16
demote-promote int8 dims iblock oblock block a inside h =
    convert_lem _ (block_count dims) 0 _ block a (omega arith) (omega arith)
    ∙ rw
        (
          convert_lem (λ x. shl x 23) (block_count dims) 0 iblock oblock a (omega arith)
              (omega arith),
          shl-shr_23 (iblock a),
        )
        (clamp_back 127 127 (iblock a) h)
demote-promote uint8 dims iblock oblock block a inside h =
    convert_lem _ (block_count dims) 0 _ block a (omega arith) (omega arith)
    ∙ rw
        (convert_lem (λ x. shl (x -ℤ pos 0x80) 23) (block_count dims) 0 iblock oblock a
          (omega arith) (omega arith))
        (uint8_back (iblock a) h)
demote-promote int16 dims iblock oblock block a inside h =
    convert_lem _ (block_count dims) 0 _ block a (omega arith) (omega arith)
    ∙ rw
        (
          convert_lem (λ x. shl x 15) (block_count dims) 0 iblock oblock a (omega arith)
              (omega arith),
          shl-shr_15 (iblock a),
        )
        (clamp_back 32767 32767 (iblock a) h)
demote-promote uint16 dims iblock oblock block a inside h =
    convert_lem _ (block_count dims) 0 _ block a (omega arith) (omega arith)
    ∙ rw
        (convert_lem (λ x. shl (x -ℤ pos 0x8000) 15) (block_count dims) 0 iblock oblock a
          (omega arith) (omega arith))
        (uint16_back (iblock a) h)

int8_clamped : (x : ℤ) → IsBetween 128 127 (max_ℤ (negsuc 0x7f) (min_ℤ (shr x 23) (pos 0x7f)))
int8_clamped x = record { least = ground arith; most = ground arith }

uint8_clamped : (x : ℤ) → IsBetween 0 255 (max_ℤ (pos 0) (min_ℤ (shr x 23 +ℤ pos 0x80) (pos 0xff)))
uint8_clamped x = record { least = ground arith; most = ground arith }

int16_clamped :
    (x : ℤ) → IsBetween 32768 32767 (max_ℤ (negsuc 0x7fff) (min_ℤ (shr x 15) (pos 0x7fff)))
int16_clamped x = record { least = ground arith; most = ground arith }

uint16_clamped :
    (x : ℤ) → IsBetween 0 65535 (max_ℤ (pos 0) (min_ℤ (shr x 15 +ℤ pos 0x8000) (pos 0xffff)))
uint16_clamped x = record { least = ground arith; most = ground arith }

-- Whatever 32-bit integers a block has, the conversion gives integers in the range of the small
-- type.
pub demote-IsBetween :
    (type : Small) (dims : ℕ) (iblock block : ℕ → ℤ) (a : ℕ)
    → a < block_count dims
    → IsBetween (lowest type) (highest type) (demote type dims iblock block a)
unfolding demote_int8 demote_uint8 demote_int16 demote_uint16
demote-IsBetween int8 dims iblock block a inside =
    subst (IsBetween 128 127)
      (sym (convert_lem _ (block_count dims) 0 iblock block a (omega arith) (omega arith)))
      (int8_clamped (iblock a))
demote-IsBetween uint8 dims iblock block a inside =
    subst (IsBetween 0 255)
      (sym (convert_lem _ (block_count dims) 0 iblock block a (omega arith) (omega arith)))
      (uint8_clamped (iblock a))
demote-IsBetween int16 dims iblock block a inside =
    subst (IsBetween 32768 32767)
      (sym (convert_lem _ (block_count dims) 0 iblock block a (omega arith) (omega arith)))
      (int16_clamped (iblock a))
demote-IsBetween uint16 dims iblock block a inside =
    subst (IsBetween 0 65535)
      (sym (convert_lem _ (block_count dims) 0 iblock block a (omega arith) (omega arith)))
      (uint16_clamped (iblock a))
