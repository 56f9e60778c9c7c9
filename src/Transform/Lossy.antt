-- ===== src/Transform/Lossy.antt =====
-- The lifted transform of src/template/encode.c and src/template/decode.c, along the lines of a
-- block as in encode1.c to encode4.c and in decode1.c to decode4.c. Additions, subtractions and
-- left shifts wrap around; a right shift keeps the sign.
use zfp.Prelude.{ℕ, ◌+◌, ◌-◌, ◌/◌, ◌^◌, ◌==◌, ltb, if◌then◌else◌}
use zfp.Transform.{
  Vector, Line, load, save, sub_word, add_word, lifts, one, lines_x2, lines_y2, lines_x3, lines_y3,
  lines_z3, lines_x4, lines_y4, lines_z4, lines_w4,
}

-- `x >> 1`
unfoldable pub half_word : ℕ → ℕ → ℕ
half_word width x = if ltb x (2 ^ (width - 1)) then x / 2 else x / 2 + 2 ^ (width - 1)

-- The arithmetic of `fwd_lift` and of `inv_lift`.
unfoldable pub fwd_lossy : ℕ → Vector → Vector
fwd_lossy width (x, y, z, w) =
    let x₁ = half_word width (add_word width x w) in
    let w₁ = sub_word width w x₁ in
    let z₁ = half_word width (add_word width z y) in
    let y₁ = sub_word width y z₁ in
    let x₂ = half_word width (add_word width x₁ z₁) in
    let z₂ = sub_word width z₁ x₂ in
    let w₂ = half_word width (add_word width w₁ y₁) in
    let y₂ = sub_word width y₁ w₂ in
    let w₃ = add_word width w₂ (half_word width y₂) in
    let y₃ = sub_word width y₂ (half_word width w₃) in (x₂, y₃, z₂, w₃)

unfoldable pub inv_lossy : ℕ → Vector → Vector
inv_lossy width (x, y, z, w) =
    let y₁ = add_word width y (half_word width w) in
    let w₁ = sub_word width w (half_word width y₁) in
    let y₂ = add_word width y₁ w₁ in
    let w₂ = sub_word width w₁ (sub_word width y₂ w₁) in
    let z₁ = add_word width z x in
    let x₁ = sub_word width x (sub_word width z₁ x) in
    let y₃ = add_word width y₂ z₁ in
    let z₂ = sub_word width z₁ (sub_word width y₃ z₁) in
    let w₃ = add_word width w₂ x₁ in
    let x₂ = sub_word width x₁ (sub_word width w₃ x₁) in (x₂, y₃, z₂, w₃)

unfoldable pub fwd_lift : ℕ → Line → (ℕ → ℕ) → (ℕ → ℕ)
fwd_lift width l block = save l (fwd_lossy width (load l block)) block

unfoldable pub inv_lift : ℕ → Line → (ℕ → ℕ) → (ℕ → ℕ)
inv_lift width l block = save l (inv_lossy width (load l block)) block

unfoldable pub fwd_xform1 : ℕ → (ℕ → ℕ) → (ℕ → ℕ)
fwd_xform1 width = lifts (fwd_lift width) (one 0 1)

unfoldable pub inv_xform1 : ℕ → (ℕ → ℕ) → (ℕ → ℕ)
inv_xform1 width = lifts (inv_lift width) (one 0 1)

unfoldable pub fwd_xform2 : ℕ → (ℕ → ℕ) → (ℕ → ℕ)
fwd_xform2 width block = lifts (fwd_lift width) lines_y2 (lifts (fwd_lift width) lines_x2 block)

unfoldable pub inv_xform2 : ℕ → (ℕ → ℕ) → (ℕ → ℕ)
inv_xform2 width block = lifts (inv_lift width) lines_x2 (lifts (inv_lift width) lines_y2 block)

unfoldable pub fwd_xform3 : ℕ → (ℕ → ℕ) → (ℕ → ℕ)
fwd_xform3 width block =
    lifts (fwd_lift width) lines_z3
      (lifts (fwd_lift width) lines_y3 (lifts (fwd_lift width) lines_x3 block))

unfoldable pub inv_xform3 : ℕ → (ℕ → ℕ) → (ℕ → ℕ)
inv_xform3 width block =
    lifts (inv_lift width) lines_x3
      (lifts (inv_lift width) lines_y3 (lifts (inv_lift width) lines_z3 block))

unfoldable pub fwd_xform4 : ℕ → (ℕ → ℕ) → (ℕ → ℕ)
fwd_xform4 width block = lifts (fwd_lift width) lines_w4 (
    lifts (fwd_lift width) lines_z4
      (lifts (fwd_lift width) lines_y4 (lifts (fwd_lift width) lines_x4 block)))

unfoldable pub inv_xform4 : ℕ → (ℕ → ℕ) → (ℕ → ℕ)
inv_xform4 width block = lifts (inv_lift width) lines_x4 (
    lifts (inv_lift width) lines_y4
      (lifts (inv_lift width) lines_z4 (lifts (inv_lift width) lines_w4 block)))

-- The ones for a number of dimensions.
unfoldable pub fwd_xform : ℕ → ℕ → (ℕ → ℕ) → (ℕ → ℕ)
fwd_xform width d =
    if d == 1
    then fwd_xform1 width
    else if d == 2
    then fwd_xform2 width
    else if d == 3
    then fwd_xform3 width
    else fwd_xform4 width

unfoldable pub inv_xform : ℕ → ℕ → (ℕ → ℕ) → (ℕ → ℕ)
inv_xform width d =
    if d == 1
    then inv_xform1 width
    else if d == 2
    then inv_xform2 width
    else if d == 3
    then inv_xform3 width
    else inv_xform4 width
