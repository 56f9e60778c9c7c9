-- ===== src/Codec/Generic/Shape.antt =====
-- Which scalars a block of a given shape has, and which the loops of the codec go through.
use zfp.Prelude.{
  ℕ, ◌-◌, ◌*◌, ◌/◌, ◌%◌, ◌≤◌, ◌≡◌, refl, arith, ap, ◌∙◌, Bool, true, false, ◌&&◌, ◌!=◌, ltb, leb,
  Bool-cases, inl, inr, some, ◌>>>◌,
}
use zfp.Prelude.Bits.{low_bits}
use native.Mathlib.Nat.{mul-mod_left, mul-div_cancel}
use zfp.Codec.Contiguous.{row, plane, box, hyperbox}
use zfp.Codec.Generic.{begin, extent}

-- The scalars of a block are numbered with x fastest; a shape holds, two bits per axis, how many
-- elements the block lacks along the axis.
unfoldable pub has_scalar1 : ℕ → ℕ → Bool
has_scalar1 shape r = ltb r 4 && (ltb (r % 4) (4 - shape % 4))

unfoldable pub has_scalar2 : ℕ → ℕ → Bool
has_scalar2 shape r =
    ltb r 16 && (ltb (r / 4 % 4) (4 - shape / 4 % 4) && (ltb (r % 4) (4 - shape % 4)))

unfoldable pub has_scalar3 : ℕ → ℕ → Bool
has_scalar3 shape r =
    ltb r 64
    && (ltb (r / 16 % 4) (4 - shape / 16 % 4)
        && (ltb (r / 4 % 4) (4 - shape / 4 % 4) && (ltb (r % 4) (4 - shape % 4))))

unfoldable pub has_scalar4 : ℕ → ℕ → Bool
has_scalar4 shape r =
    ltb r 256
    && (ltb (r / 64 % 4) (4 - shape / 64 % 4)
        && (ltb (r / 16 % 4) (4 - shape / 16 % 4)
            && (ltb (r / 4 % 4) (4 - shape / 4 % 4) && (ltb (r % 4) (4 - shape % 4)))))

extent-eq : (shape : ℕ) → extent shape ≡ 4 - shape % 4
unfolding extent
extent-eq shape = omega (arith, low_bits 2 shape)

pub begin-aligned : (bits k : ℕ) → 1 ≤ bits → begin bits (k * bits) ≡ some k
unfolding begin
begin-aligned bits k p = rw (mul-mod_left k bits) (ap some (mul-div_cancel k p))

top1 :
    (n r : ℕ) (rest : Bool)
    → n ≤ 4
    → ltb r (4 * n) && rest ≡ ltb r 16 && (ltb (r / 4 % 4) n && rest)
top1 n r rest p = elim (Bool-cases (ltb r (4 * n))) [
  | inl yes' ↦
      let a : ltb r 16 ≡ true = ground arith in
      let b : ltb (r / 4 % 4) n ≡ true = ground arith in rw (yes', a, b) refl
  | inr no' ↦ elim (Bool-cases (ltb r 16)) [
    | inl a ↦ let b : ltb (r / 4 % 4) n ≡ false = ground arith in rw (no', a, b) refl
    | inr a ↦ rw (no', a) refl
  ]
]

top2 :
    (n r : ℕ) (rest : Bool)
    → n ≤ 4
    → ltb r (16 * n) && rest ≡ ltb r 64 && (ltb (r / 16 % 4) n && rest)
top2 n r rest p = elim (Bool-cases (ltb r (16 * n))) [
  | inl yes' ↦
      let a : ltb r 64 ≡ true = ground arith in
      let b : ltb (r / 16 % 4) n ≡ true = ground arith in rw (yes', a, b) refl
  | inr no' ↦ elim (Bool-cases (ltb r 64)) [
    | inl a ↦ let b : ltb (r / 16 % 4) n ≡ false = ground arith in rw (no', a, b) refl
    | inr a ↦ rw (no', a) refl
  ]
]

top3 :
    (n r : ℕ) (rest : Bool)
    → n ≤ 4
    → ltb r (64 * n) && rest ≡ ltb r 256 && (ltb (r / 64 % 4) n && rest)
top3 n r rest p = elim (Bool-cases (ltb r (64 * n))) [
  | inl yes' ↦
      let a : ltb r 256 ≡ true = ground arith in
      let b : ltb (r / 64 % 4) n ≡ true = ground arith in rw (yes', a, b) refl
  | inr no' ↦ elim (Bool-cases (ltb r 256)) [
    | inl a ↦ let b : ltb (r / 64 % 4) n ≡ false = ground arith in rw (no', a, b) refl
    | inr a ↦ rw (no', a) refl
  ]
]

middle1 : (n r : ℕ) → n ≤ 4 → ltb (r % 16) (4 * n) ≡ ltb (r / 4 % 4) n
middle1 n r p = elim (Bool-cases (ltb (r / 4 % 4) n)) [
  | inl a ↦ rw a (ground arith)
  | inr a ↦ rw a (ground arith)
]

middle2 : (n r : ℕ) → n ≤ 4 → ltb (r % 64) (16 * n) ≡ ltb (r / 16 % 4) n
middle2 n r p = elim (Bool-cases (ltb (r / 16 % 4) n)) [
  | inl a ↦ rw a (ground arith)
  | inr a ↦ rw a (ground arith)
]

full_shape1 : (r : ℕ) → ltb r 4 ≡ ltb r 4 && (ltb (r % 4) 4)
full_shape1 r = elim (Bool-cases (ltb r 4)) [
  | inl a ↦ let d0 : ltb (r % 4) 4 ≡ true = ground arith in rw (a, d0) refl
  | inr a ↦ rw a refl
]

pub leb_zero : (r : ℕ) → leb 0 r ≡ true
leb_zero r = ground arith

pub sub_zero : (r : ℕ) → r - 0 ≡ r
sub_zero r = omega arith

top0_last : (n r : ℕ) → n ≤ 4 → ltb r n ≡ ltb r 4 && ltb (r % 4) n
top0_last n r p = elim (Bool-cases (ltb r 4)) [
  | inl a ↦ rw a (ground arith)
  | inr a ↦ rw a (ground arith)
]

partial1 : (shape r : ℕ) → row (4 - shape % 4) 0 r ≡ has_scalar1 shape r
unfolding has_scalar1
partial1 shape r = rw (leb_zero r, sub_zero r) (top0_last (4 - shape % 4) r (omega arith))

pub full1 : (shape r : ℕ) → (shape != 0) ≡ false → row 4 0 r ≡ has_scalar1 shape r
unfolding has_scalar1
full1 shape r none =
    let z : shape ≡ 0 = ground arith in rw (z, leb_zero r, sub_zero r) (full_shape1 r)

full_shape2 : (r : ℕ) → ltb r 16 ≡ ltb r 16 && (ltb (r / 4 % 4) 4 && (ltb (r % 4) 4))
full_shape2 r = elim (Bool-cases (ltb r 16)) [
  | inl a ↦
      let d0 : ltb (r % 4) 4 ≡ true = ground arith in
      let d1 : ltb (r / 4 % 4) 4 ≡ true = ground arith in rw (a, d0, d1) refl
  | inr a ↦ rw a refl
]

partial2 : (shape r : ℕ) → plane (4 - shape / 4 % 4) (4 - shape % 4) 0 r ≡ has_scalar2 shape r
unfolding has_scalar2
partial2 shape r =
    rw (leb_zero r, sub_zero r)
      (top1 (4 - shape / 4 % 4) r (ltb (r % 4) (4 - shape % 4)) (omega arith))

pub full2 : (shape r : ℕ) → (shape != 0) ≡ false → row 16 0 r ≡ has_scalar2 shape r
unfolding has_scalar2
full2 shape r none =
    let z : shape ≡ 0 = ground arith in rw (z, leb_zero r, sub_zero r) (full_shape2 r)

full_shape3 :
    (r : ℕ) → ltb r 64 ≡ ltb r 64 && (ltb (r / 16 % 4) 4 && (ltb (r / 4 % 4) 4 && (ltb (r % 4) 4)))
full_shape3 r = elim (Bool-cases (ltb r 64)) [
  | inl a ↦
      let d0 : ltb (r % 4) 4 ≡ true = ground arith in
      let d1 : ltb (r / 4 % 4) 4 ≡ true = ground arith in
      let d2 : ltb (r / 16 % 4) 4 ≡ true = ground arith in rw (a, d0, d1, d2) refl
  | inr a ↦ rw a refl
]

partial3 :
    (shape r : ℕ)
    → box (4 - shape / 16 % 4) (4 - shape / 4 % 4) (4 - shape % 4) 0 r ≡ has_scalar3 shape r
unfolding has_scalar3
partial3 shape r =
    rw (leb_zero r, sub_zero r)
      (top2 (4 - shape / 16 % 4) r
          (ltb (r % 16) (4 * (4 - shape / 4 % 4)) && (ltb (r % 4) (4 - shape % 4))) (omega arith)
        ∙ ap
            (λ b.
              ltb r 64
              && (ltb (r / 16 % 4) (4 - shape / 16 % 4) && (b && (ltb (r % 4) (4 - shape % 4)))))
            (middle1 (4 - shape / 4 % 4) r (omega arith)))

pub full3 : (shape r : ℕ) → (shape != 0) ≡ false → row 64 0 r ≡ has_scalar3 shape r
unfolding has_scalar3
full3 shape r none =
    let z : shape ≡ 0 = ground arith in rw (z, leb_zero r, sub_zero r) (full_shape3 r)

full_shape4 :
    (r : ℕ)
    → ltb r 256
      ≡ ltb r 256
        && (ltb (r / 64 % 4) 4 && (ltb (r / 16 % 4) 4 && (ltb (r / 4 % 4) 4 && (ltb (r % 4) 4))))
full_shape4 r = elim (Bool-cases (ltb r 256)) [
  | inl a ↦
      let d0 : ltb (r % 4) 4 ≡ true = ground arith in
      let d1 : ltb (r / 4 % 4) 4 ≡ true = ground arith in
      let d2 : ltb (r / 16 % 4) 4 ≡ true = ground arith in
      let d3 : ltb (r / 64 % 4) 4 ≡ true = ground arith in rw (a, d0, d1, d2, d3) refl
  | inr a ↦ rw a refl
]

partial4 :
    (shape r : ℕ)
    → hyperbox (4 - shape / 64 % 4) (4 - shape / 16 % 4) (4 - shape / 4 % 4) (4 - shape % 4) 0 r
      ≡ has_scalar4 shape r
unfolding has_scalar4
partial4 shape r =
    rw (leb_zero r, sub_zero r)
      (top3 (4 - shape / 64 % 4) r
          (ltb (r % 64) (16 * (4 - shape / 16 % 4))
            && (ltb (r % 16) (4 * (4 - shape / 4 % 4)) && (ltb (r % 4) (4 - shape % 4))))
          (omega arith)
        ∙ ap
            (λ b.
              ltb r 256
              && (ltb (r / 64 % 4) (4 - shape / 64 % 4)
                  && (b
                      && (ltb (r % 16) (4 * (4 - shape / 4 % 4))
                          && (ltb (r % 4) (4 - shape % 4))))))
            (middle2 (4 - shape / 16 % 4) r (omega arith))
        ∙ ap
            (λ b.
              ltb r 256
              && (ltb (r / 64 % 4) (4 - shape / 64 % 4)
                  && (ltb (r / 16 % 4) (4 - shape / 16 % 4)
                      && (b && (ltb (r % 4) (4 - shape % 4))))))
            (middle1 (4 - shape / 4 % 4) r (omega arith)))

pub full4 : (shape r : ℕ) → (shape != 0) ≡ false → row 256 0 r ≡ has_scalar4 shape r
unfolding has_scalar4
full4 shape r none =
    let z : shape ≡ 0 = ground arith in rw (z, leb_zero r, sub_zero r) (full_shape4 r)

pub seen1 : (shape r : ℕ) → row (extent shape) 0 r ≡ has_scalar1 shape r
seen1 shape r = rw (extent-eq shape) (partial1 shape r)

pub seen2 : (shape r : ℕ) → plane (extent (shape >>> 2)) (extent shape) 0 r ≡ has_scalar2 shape r
seen2 shape r = rw (extent-eq (shape >>> 2), extent-eq shape) (partial2 shape r)

pub seen3 :
    (shape r : ℕ)
    → box (extent (shape >>> 4)) (extent (shape >>> 2)) (extent shape) 0 r ≡ has_scalar3 shape r
seen3 shape r =
    rw (extent-eq (shape >>> 4), extent-eq (shape >>> 2), extent-eq shape) (partial3 shape r)

pub seen4 :
    (shape r : ℕ)
    → hyperbox
        (extent (shape >>> 6))
        (extent (shape >>> 4))
        (extent (shape >>> 2))
        (extent shape)
        0
        r
      ≡ has_scalar4 shape r
seen4 shape r =
    rw (extent-eq (shape >>> 6), extent-eq (shape >>> 4), extent-eq (shape >>> 2), extent-eq shape)
      (partial4 shape r)

pub extent_le : (shape : ℕ) → extent shape ≤ 4
extent_le shape = omega (arith, extent-eq shape)
