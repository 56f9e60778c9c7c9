-- ===== src/Transform.antt =====
-- The reversible transform of src/template/revencode.c and src/template/revdecode.c, with its loops
-- over the lines of a block, and the reordering and the sign map of src/template/encode.c and
-- src/template/decode.c. Words are unsigned integers of a width; a signed one is its two's
-- complement.
pub mod Lines
pub mod Inverse
pub mod Order
pub mod Tables
pub mod Lossy
use zfp.Prelude.{
  ℕ, zero, suc, ◌+◌, ◌-◌, ◌*◌, ◌/◌, ◌%◌, ◌^◌, Bool, true, false, List, [], ◌∷◌, ◌++◌, ◌==◌, ◌||◌,
  if◌then◌else◌, bit_xor,
}
use zfp.BlockCache.{update}

abbrev pub Vector : Type 0
Vector = ℕ × ℕ × ℕ × ℕ

-- `a - b` and `a + b` of words.
unfoldable pub sub_word : ℕ → ℕ → ℕ → ℕ
sub_word width a b = (a + (2 ^ width - b)) % 2 ^ width

unfoldable pub add_word : ℕ → ℕ → ℕ → ℕ
add_word width a b = (a + b) % 2 ^ width

-- The arithmetic of `rev_fwd_lift` and of `rev_inv_lift`.
unfoldable pub fwd_vector : ℕ → Vector → Vector
fwd_vector width (x, y, z, w) =
    let w₁ = sub_word width w z in
    let z₁ = sub_word width z y in
    let y₁ = sub_word width y x in
    let w₂ = sub_word width w₁ z₁ in
    let z₂ = sub_word width z₁ y₁ in let w₃ = sub_word width w₂ z₂ in (x, y₁, z₂, w₃)

unfoldable pub inv_vector : ℕ → Vector → Vector
inv_vector width (x, y, z, w) =
    let w₁ = add_word width w z in
    let z₁ = add_word width z y in
    let w₂ = add_word width w₁ z₁ in
    let y₁ = add_word width y x in
    let z₂ = add_word width z₁ y₁ in let w₃ = add_word width w₂ z₂ in (x, y₁, z₂, w₃)

-- A line of a block: where it begins, and its stride.
pub record Line : Type 0 where
  pub start : ℕ
  pub stride : ℕ

abbrev pub load : Line → (ℕ → ℕ) → Vector
load l block = (
  block l.start,
  block (l.start + l.stride),
  block (l.start + 2 * l.stride),
  block (l.start + 3 * l.stride),
)

abbrev pub save : Line → Vector → (ℕ → ℕ) → (ℕ → ℕ)
save l (x, y, z, w) block =
    update
      (update (update (update block (l.start + 3 * l.stride) w) (l.start + 2 * l.stride) z)
        (l.start + l.stride) y)
      l.start x

unfoldable pub rev_fwd_lift : ℕ → Line → (ℕ → ℕ) → (ℕ → ℕ)
rev_fwd_lift width l block = save l (fwd_vector width (load l block)) block

unfoldable pub rev_inv_lift : ℕ → Line → (ℕ → ℕ) → (ℕ → ℕ)
rev_inv_lift width l block = save l (inv_vector width (load l block)) block

-- One lift after the other.
unfoldable pub lifts : (Line → (ℕ → ℕ) → (ℕ → ℕ)) → List Line → (ℕ → ℕ) → (ℕ → ℕ)
lifts lift [] block = block
lifts lift (l ∷ ls) block = lifts lift ls (lift l block)

-- `for (i = 0; i < 4; i++)`
abbrev pub for4 : (ℕ → List Line) → List Line
for4 body = body 0 ++ (body 1 ++ (body 2 ++ body 3))

abbrev pub one : ℕ → ℕ → List Line
one start stride = record { start = start; stride = stride } ∷ []

-- The lines of the loops along each axis, for two to four dimensions.
abbrev pub lines_x2 : List Line
lines_x2 = for4 (λ y. one (4 * y) 1)

abbrev pub lines_y2 : List Line
lines_y2 = for4 (λ x. one (1 * x) 4)

abbrev pub lines_x3 : List Line
lines_x3 = for4 (λ z. for4 (λ y. one (4 * y + 16 * z) 1))

abbrev pub lines_y3 : List Line
lines_y3 = for4 (λ x. for4 (λ z. one (16 * z + 1 * x) 4))

abbrev pub lines_z3 : List Line
lines_z3 = for4 (λ y. for4 (λ x. one (1 * x + 4 * y) 16))

abbrev pub lines_x4 : List Line
lines_x4 = for4 (λ w. for4 (λ z. for4 (λ y. one (4 * y + 16 * z + 64 * w) 1)))

abbrev pub lines_y4 : List Line
lines_y4 = for4 (λ x. for4 (λ w. for4 (λ z. one (16 * z + 64 * w + 1 * x) 4)))

abbrev pub lines_z4 : List Line
lines_z4 = for4 (λ y. for4 (λ x. for4 (λ w. one (64 * w + 1 * x + 4 * y) 16)))

abbrev pub lines_w4 : List Line
lines_w4 = for4 (λ z. for4 (λ y. for4 (λ x. one (1 * x + 4 * y + 16 * z) 64)))

unfoldable pub rev_fwd_xform1 : ℕ → (ℕ → ℕ) → (ℕ → ℕ)
rev_fwd_xform1 width = lifts (rev_fwd_lift width) (one 0 1)

unfoldable pub rev_inv_xform1 : ℕ → (ℕ → ℕ) → (ℕ → ℕ)
rev_inv_xform1 width = lifts (rev_inv_lift width) (one 0 1)

unfoldable pub rev_fwd_xform2 : ℕ → (ℕ → ℕ) → (ℕ → ℕ)
rev_fwd_xform2 width block =
    lifts (rev_fwd_lift width) lines_y2 (lifts (rev_fwd_lift width) lines_x2 block)

unfoldable pub rev_inv_xform2 : ℕ → (ℕ → ℕ) → (ℕ → ℕ)
rev_inv_xform2 width block =
    lifts (rev_inv_lift width) lines_x2 (lifts (rev_inv_lift width) lines_y2 block)

unfoldable pub rev_fwd_xform3 : ℕ → (ℕ → ℕ) → (ℕ → ℕ)
rev_fwd_xform3 width block =
    lifts (rev_fwd_lift width) lines_z3
      (lifts (rev_fwd_lift width) lines_y3 (lifts (rev_fwd_lift width) lines_x3 block))

unfoldable pub rev_inv_xform3 : ℕ → (ℕ → ℕ) → (ℕ → ℕ)
rev_inv_xform3 width block =
    lifts (rev_inv_lift width) lines_x3
      (lifts (rev_inv_lift width) lines_y3 (lifts (rev_inv_lift width) lines_z3 block))

unfoldable pub rev_fwd_xform4 : ℕ → (ℕ → ℕ) → (ℕ → ℕ)
rev_fwd_xform4 width block = lifts (rev_fwd_lift width) lines_w4 (
    lifts (rev_fwd_lift width) lines_z4
      (lifts (rev_fwd_lift width) lines_y4 (lifts (rev_fwd_lift width) lines_x4 block)))

unfoldable pub rev_inv_xform4 : ℕ → (ℕ → ℕ) → (ℕ → ℕ)
rev_inv_xform4 width block = lifts (rev_inv_lift width) lines_x4 (
    lifts (rev_inv_lift width) lines_y4
      (lifts (rev_inv_lift width) lines_z4 (lifts (rev_inv_lift width) lines_w4 block)))

-- NBMASK: every other bit.
abbrev pub mask : ℕ → ℕ
mask width = (2 ^ width - 1) / 3 * 2

unfoldable pub int2uint : ℕ → ℕ → ℕ
int2uint width x = bit_xor (add_word width x (mask width)) (mask width)

unfoldable pub uint2int : ℕ → ℕ → ℕ
uint2int width x = sub_word width (bit_xor x (mask width)) (mask width)

-- `fwd_order` and `inv_order`, of `n` integers from number `i` on.
unfoldable pub fwd_order : ℕ → (ℕ → ℕ) → ℕ → ℕ → (ℕ → ℕ) → (ℕ → ℕ) → (ℕ → ℕ)
fwd_order width perm zero i iblock ublock = ublock
fwd_order width perm (suc n) i iblock ublock =
    fwd_order width perm n (i + 1) iblock (update ublock i (int2uint width (iblock (perm i))))

unfoldable pub inv_order : ℕ → (ℕ → ℕ) → ℕ → ℕ → (ℕ → ℕ) → (ℕ → ℕ) → (ℕ → ℕ)
inv_order width perm zero i ublock iblock = iblock
inv_order width perm (suc n) i ublock iblock =
    inv_order width perm n (i + 1) ublock (update iblock (perm i) (uint2int width (ublock i)))
