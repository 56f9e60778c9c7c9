-- ===== src/Field/Metadata.antt =====
-- Field metadata: what a header stores of a field, and what is read again.
use zfp.Prelude.{ℕ, ◌+◌, ◌-◌, ◌*◌, ◌/◌, ◌%◌, ◌^◌, ◌≤◌, ◌<◌, ◌≡◌, ◌≢◌, refl, arith, sym, true, false}
use zfp.Prelude.{◌!=◌, ◌||◌, bit_and, ◌>>>◌, Bool-cases, inl, inr, ◌⊎◌}
use native.Mathlib.Decide.{ℕ_discrete}
use mathlib.Core.Path.{subst}
use zfp.Prelude.{◌↔◌, max}
use zfp.Prelude.Bits.{low_bits}
use zfp.Prelude.Int.{pos}
use zfp.Field.{
  Field, ScalarType, zfp_type_none, zfp_type_int32, zfp_type_int64, zfp_type_float, zfp_type_double,
  type_code, type_of_code, dimensionality, append_kind, metadata, set_metadata, meta_null,
}

-- A field has a type, and its dimensions come first: none is zero before one that is not.
pub record IsShaped (f : Field) : Type 0 where
  pub typed : f.type ≢ zfp_type_none
  pub first : 1 ≤ f.nx
  pub second : f.ny ≡ 0 → (f.nz ≡ 0) × (f.nw ≡ 0)
  pub third : f.nz ≡ 0 → f.nw ≡ 0

code_bounds : (t : ScalarType) → t ≢ zfp_type_none → (1 ≤ type_code t) × (type_code t ≤ 4)
code_bounds zfp_type_none p = absurd (p refl)
code_bounds zfp_type_int32 p = (omega arith, omega arith)
code_bounds zfp_type_int64 p = (omega arith, omega arith)
code_bounds zfp_type_float p = (omega arith, omega arith)
code_bounds zfp_type_double p = (omega arith, omega arith)

type_of_code-type_code :
    (t : ScalarType) → t ≢ zfp_type_none → type_of_code (type_code t - 1 + 1) ≡ t
type_of_code-type_code zfp_type_none p = absurd (p refl)
type_of_code-type_code zfp_type_int32 p = refl
type_of_code-type_code zfp_type_int64 p = refl
type_of_code-type_code zfp_type_float p = refl
type_of_code-type_code zfp_type_double p = refl

-- The field with the strides of a contiguous array.
abbrev pub contiguous : Field → Field
contiguous f = record f { sx = pos 0; sy = pos 0; sz = pos 0; sw = pos 0 }

dims1 : (f : Field) → f.nx ≢ 0 → f.ny ≡ 0 → dimensionality f ≡ 1
unfolding dimensionality
dims1 f zx zy = ground (arith, zx, zy)

dims2 : (f : Field) → f.nx ≢ 0 → f.ny ≢ 0 → f.nz ≡ 0 → dimensionality f ≡ 2
unfolding dimensionality
dims2 f zx zy zz = ground (arith, zx, zy, zz)

dims3 : (f : Field) → f.nx ≢ 0 → f.ny ≢ 0 → f.nz ≢ 0 → f.nw ≡ 0 → dimensionality f ≡ 3
unfolding dimensionality
dims3 f zx zy zz zw = ground (arith, zx, zy, zz, zw)

dims4 : (f : Field) → f.nx ≢ 0 → f.ny ≢ 0 → f.nz ≢ 0 → f.nw ≢ 0 → dimensionality f ≡ 4
unfolding dimensionality
dims4 f zx zy zz zw = ground (arith, zx, zy, zz, zw)

-- Reading the metadata of 1 dimension.
read1 :
    (f g : Field) (meta t nx : ℕ)
    → meta ≡ (nx) * 16 + 0 + t
    → t < 4
    → nx < 2 ^ 32
    → f.type ≡ type_of_code (t + 1)
    → f.nx ≡ nx + 1
    → f.ny ≡ 0
    → f.nz ≡ 0
    → f.nw ≡ 0
    → set_metadata g meta ≡ (true, contiguous f)
unfolding set_metadata
read1 f g meta t nx e small sx et ex ey ez ew =
    let fits : (meta >>> 52 != 0) ≡ false = ground arith in
    let q_t : bit_and meta 3 ≡ t = omega (arith, e, low_bits 2 meta) in
    let q_d : bit_and (meta >>> 2) 3 ≡ 0 = omega (arith, e, low_bits 2 (meta >>> 2)) in
    let q_x : bit_and (meta >>> 2 >>> 2) 0xffffffff ≡ nx =
      omega (arith, e, low_bits 32 (meta >>> 2 >>> 2)) in
    rw (fits, q_t, q_d, q_x, et, ex, ey, ez, ew) refl

-- The metadata of 1 dimension: too large ones, and the digits of the others.
packed1 :
    (f : Field)
    → f.type ≢ zfp_type_none
    → f.nx ≢ 0
    → f.ny ≡ 0
    → (((2 ^ 48 < f.nx)) × (metadata f ≡ meta_null))
      ⊎ ((f.nx ≤ 2 ^ 48) × (metadata f ≡ (f.nx - 1) * 16 + 0 + (type_code f.type - 1)))
unfolding metadata append_kind
packed1 f typed zx zy =
    let kind : dimensionality f ≡ 1 = dims1 f zx zy in
    let code = code_bounds f.type typed in
    elim (Bool-cases ((f.nx - 1) >>> 48 != 0)) [
      | inl over ↦ inl (ground (arith, over), rw (kind, over) refl)
      | inr fits ↦
          let small : (f.nx ≤ 2 ^ 48) = ground (arith, fits) in
          inr (small, rw (kind, fits) (omega (arith, small, code)))
    ]

-- Reading the metadata of 2 dimensions.
read2 :
    (f g : Field) (meta t nx ny : ℕ)
    → meta ≡ (ny * 2 ^ 24 + nx) * 16 + 4 + t
    → t < 4
    → nx < 2 ^ 24
    → ny < 2 ^ 24
    → f.type ≡ type_of_code (t + 1)
    → f.nx ≡ nx + 1
    → f.ny ≡ ny + 1
    → f.nz ≡ 0
    → f.nw ≡ 0
    → set_metadata g meta ≡ (true, contiguous f)
unfolding set_metadata
read2 f g meta t nx ny e small sx sy et ex ey ez ew =
    let fits : (meta >>> 52 != 0) ≡ false = ground arith in
    let q_t : bit_and meta 3 ≡ t = omega (arith, e, low_bits 2 meta) in
    let q_d : bit_and (meta >>> 2) 3 ≡ 1 = omega (arith, e, low_bits 2 (meta >>> 2)) in
    let q_x : bit_and (meta >>> 2 >>> 2) 0xffffff ≡ nx =
      omega (arith, e, low_bits 24 (meta >>> 2 >>> 2)) in
    let q_y : bit_and (meta >>> 2 >>> 2 >>> 24) 0xffffff ≡ ny =
      omega (arith, e, low_bits 24 (meta >>> 2 >>> 2 >>> 24)) in
    rw (fits, q_t, q_d, q_x, q_y, et, ex, ey, ez, ew) refl

-- The metadata of 2 dimensions: too large ones, and the digits of the others.
packed2 :
    (f : Field)
    → f.type ≢ zfp_type_none
    → f.nx ≢ 0
    → f.ny ≢ 0
    → f.nz ≡ 0
    → (((2 ^ 24 < f.nx) ⊎ (2 ^ 24 < f.ny)) × (metadata f ≡ meta_null))
      ⊎ ((f.nx ≤ 2 ^ 24)
          × (f.ny ≤ 2 ^ 24)
          × (metadata f ≡ ((f.ny - 1) * 2 ^ 24 + (f.nx - 1)) * 16 + 4 + (type_code f.type - 1)))
unfolding metadata append_kind
packed2 f typed zx zy zz =
    let kind : dimensionality f ≡ 2 = dims2 f zx zy zz in
    let code = code_bounds f.type typed in
    elim (Bool-cases (((f.nx - 1) >>> 24 != 0) || ((f.ny - 1) >>> 24 != 0))) [
      | inl over ↦ inl (ground (arith, over), rw (kind, over) refl)
      | inr fits ↦
          let small : (f.nx ≤ 2 ^ 24) × (f.ny ≤ 2 ^ 24) = ground (arith, fits) in
          inr (small.0, small.1, rw (kind, fits) (omega (arith, small, code)))
    ]

-- Reading the metadata of 3 dimensions.
read3 :
    (f g : Field) (meta t nx ny nz : ℕ)
    → meta ≡ ((nz * 2 ^ 16 + ny) * 2 ^ 16 + nx) * 16 + 8 + t
    → t < 4
    → nx < 2 ^ 16
    → ny < 2 ^ 16
    → nz < 2 ^ 16
    → f.type ≡ type_of_code (t + 1)
    → f.nx ≡ nx + 1
    → f.ny ≡ ny + 1
    → f.nz ≡ nz + 1
    → f.nw ≡ 0
    → set_metadata g meta ≡ (true, contiguous f)
unfolding set_metadata
read3 f g meta t nx ny nz e small sx sy sz et ex ey ez ew =
    let fits : (meta >>> 52 != 0) ≡ false = ground arith in
    let q_t : bit_and meta 3 ≡ t = omega (arith, e, low_bits 2 meta) in
    let q_d : bit_and (meta >>> 2) 3 ≡ 2 = omega (arith, e, low_bits 2 (meta >>> 2)) in
    let q_x : bit_and (meta >>> 2 >>> 2) 0xffff ≡ nx =
      omega (arith, e, low_bits 16 (meta >>> 2 >>> 2)) in
    let q_y : bit_and (meta >>> 2 >>> 2 >>> 16) 0xffff ≡ ny =
      omega (arith, e, low_bits 16 (meta >>> 2 >>> 2 >>> 16)) in
    let q_z : bit_and (meta >>> 2 >>> 2 >>> 16 >>> 16) 0xffff ≡ nz =
      omega (arith, e, low_bits 16 (meta >>> 2 >>> 2 >>> 16 >>> 16)) in
    rw (fits, q_t, q_d, q_x, q_y, q_z, et, ex, ey, ez, ew) refl

-- The metadata of 3 dimensions: too large ones, and the digits of the others.
packed3 :
    (f : Field)
    → f.type ≢ zfp_type_none
    → f.nx ≢ 0
    → f.ny ≢ 0
    → f.nz ≢ 0
    → f.nw ≡ 0
    → (((2 ^ 16 < f.nx) ⊎ (2 ^ 16 < f.ny) ⊎ (2 ^ 16 < f.nz)) × (metadata f ≡ meta_null))
      ⊎ ((f.nx ≤ 2 ^ 16)
          × (f.ny ≤ 2 ^ 16)
          × (f.nz ≤ 2 ^ 16)
          × (metadata f
              ≡ (((f.nz - 1) * 2 ^ 16 + (f.ny - 1)) * 2 ^ 16 + (f.nx - 1)) * 16
                + 8
                + (type_code f.type - 1)))
unfolding metadata append_kind
packed3 f typed zx zy zz zw =
    let kind : dimensionality f ≡ 3 = dims3 f zx zy zz zw in
    let code = code_bounds f.type typed in
    elim (Bool-cases
      (((f.nx - 1) >>> 16 != 0) || ((f.ny - 1) >>> 16 != 0) || ((f.nz - 1) >>> 16 != 0))) [
        | inl over ↦ inl (ground (arith, over), rw (kind, over) refl)
        | inr fits ↦
            let small : (f.nx ≤ 2 ^ 16) × (f.ny ≤ 2 ^ 16) × (f.nz ≤ 2 ^ 16) =
              ground (arith, fits) in
            inr (small.0, small.1, small.2, rw (kind, fits) (omega (arith, small, code)))
      ]

-- Reading the metadata of 4 dimensions.
read4 :
    (f g : Field) (meta t nx ny nz nw : ℕ)
    → meta ≡ (((nw * 2 ^ 12 + nz) * 2 ^ 12 + ny) * 2 ^ 12 + nx) * 16 + 12 + t
    → t < 4
    → nx < 2 ^ 12
    → ny < 2 ^ 12
    → nz < 2 ^ 12
    → nw < 2 ^ 12
    → f.type ≡ type_of_code (t + 1)
    → f.nx ≡ nx + 1
    → f.ny ≡ ny + 1
    → f.nz ≡ nz + 1
    → f.nw ≡ nw + 1
    → set_metadata g meta ≡ (true, contiguous f)
unfolding set_metadata
read4 f g meta t nx ny nz nw e small sx sy sz sw et ex ey ez ew =
    let fits : (meta >>> 52 != 0) ≡ false = ground arith in
    let q_t : bit_and meta 3 ≡ t = omega (arith, e, low_bits 2 meta) in
    let q_d : bit_and (meta >>> 2) 3 ≡ 3 = omega (arith, e, low_bits 2 (meta >>> 2)) in
    let q_x : bit_and (meta >>> 2 >>> 2) 0xfff ≡ nx =
      omega (arith, e, low_bits 12 (meta >>> 2 >>> 2)) in
    let q_y : bit_and (meta >>> 2 >>> 2 >>> 12) 0xfff ≡ ny =
      omega (arith, e, low_bits 12 (meta >>> 2 >>> 2 >>> 12)) in
    let q_z : bit_and (meta >>> 2 >>> 2 >>> 12 >>> 12) 0xfff ≡ nz =
      omega (arith, e, low_bits 12 (meta >>> 2 >>> 2 >>> 12 >>> 12)) in
    let q_w : bit_and (meta >>> 2 >>> 2 >>> 12 >>> 12 >>> 12) 0xfff ≡ nw =
      omega (arith, e, low_bits 12 (meta >>> 2 >>> 2 >>> 12 >>> 12 >>> 12)) in
    rw (fits, q_t, q_d, q_x, q_y, q_z, q_w, et, ex, ey, ez, ew) refl

-- The metadata of 4 dimensions: too large ones, and the digits of the others.
packed4 :
    (f : Field)
    → f.type ≢ zfp_type_none
    → f.nx ≢ 0
    → f.ny ≢ 0
    → f.nz ≢ 0
    → f.nw ≢ 0
    → (((2 ^ 12 < f.nx) ⊎ (2 ^ 12 < f.ny) ⊎ (2 ^ 12 < f.nz) ⊎ (2 ^ 12 < f.nw))
        × (metadata f ≡ meta_null))
      ⊎ ((f.nx ≤ 2 ^ 12)
          × (f.ny ≤ 2 ^ 12)
          × (f.nz ≤ 2 ^ 12)
          × (f.nw ≤ 2 ^ 12)
          × (metadata f
              ≡ ((((f.nw - 1) * 2 ^ 12 + (f.nz - 1)) * 2 ^ 12 + (f.ny - 1)) * 2 ^ 12 + (f.nx - 1))
                  * 16
                + 12
                + (type_code f.type - 1)))
unfolding metadata append_kind
packed4 f typed zx zy zz zw =
    let kind : dimensionality f ≡ 4 = dims4 f zx zy zz zw in
    let code = code_bounds f.type typed in
    elim (Bool-cases (
      ((f.nx - 1) >>> 12 != 0)
      || ((f.ny - 1) >>> 12 != 0)
      || ((f.nz - 1) >>> 12 != 0)
      || ((f.nw - 1) >>> 12 != 0))) [
        | inl over ↦ inl (ground (arith, over), rw (kind, over) refl)
        | inr fits ↦
            let small : (f.nx ≤ 2 ^ 12) × (f.ny ≤ 2 ^ 12) × (f.nz ≤ 2 ^ 12) × (f.nw ≤ 2 ^ 12) =
              ground (arith, fits) in
            inr (small.0, small.1, small.2, small.3, rw (kind, fits) (omega (arith, small, code)))
      ]

-- Splitting on the number of dimensions.
data Shape (f : Field) : Type 0 where
  one : f.nx ≢ 0 → f.ny ≡ 0 → f.nz ≡ 0 → f.nw ≡ 0 → Shape f
  two : f.nx ≢ 0 → f.ny ≢ 0 → f.nz ≡ 0 → f.nw ≡ 0 → Shape f
  three : f.nx ≢ 0 → f.ny ≢ 0 → f.nz ≢ 0 → f.nw ≡ 0 → Shape f
  four : f.nx ≢ 0 → f.ny ≢ 0 → f.nz ≢ 0 → f.nw ≢ 0 → Shape f

field-Shape : (f : Field) → IsShaped f → Shape f
field-Shape f h =
    let x : f.nx ≢ 0 = λ e. absurd (omega (arith, h.first, e)) in
    elim (ℕ_discrete f.ny 0) [
      | yes y ↦ one x y (h.second y).0 (h.second y).1
      | no y ↦ elim (ℕ_discrete f.nz 0) [
        | yes z ↦ two x y z (h.third z)
        | no z ↦ elim (ℕ_discrete f.nw 0) [ yes w ↦ three x y z w | no w ↦ four x y z w ]
      ]
    ]

positive : {n : ℕ} → n ≢ 0 → n ≡ n - 1 + 1
positive p = ground (arith, p)

-- The metadata of a field with a type and one to four dimensions, if there is any and a single
-- dimension is at most 2^32, gives back the type and the dimensions, without strides.
pub set_metadata-metadata :
    (f g : Field)
    → IsShaped f
    → metadata f ≢ meta_null
    → (f.ny ≡ 0 → f.nx ≤ 2 ^ 32)
    → set_metadata g (metadata f) ≡ (true, contiguous f)
set_metadata-metadata f g h ok low =
    let code = code_bounds f.type h.typed in
    let t : f.type ≡ type_of_code (type_code f.type - 1 + 1) =
      sym (type_of_code-type_code f.type h.typed) in
    elim (field-Shape f h) [
      | one x y z w ↦ elim (packed1 f h.typed x y) [
        | inl over ↦ absurd (ok over.1)
        | inr fits ↦
            read1 f g (metadata f) (type_code f.type - 1) (f.nx - 1) fits.1 (omega (arith, code))
              (omega (arith, fits.0, low y)) t (positive x) y z w
      ]
      | two x y z w ↦ elim (packed2 f h.typed x y z) [
        | inl over ↦ absurd (ok over.1)
        | inr fits ↦
            read2 f g (metadata f) (type_code f.type - 1) (f.nx - 1) (f.ny - 1) fits.2
              (omega (arith, code)) (omega (arith, fits.0, x)) (omega (arith, fits.1, y)) t
              (positive x) (positive y) z w
      ]
      | three x y z w ↦ elim (packed3 f h.typed x y z w) [
        | inl over ↦ absurd (ok over.1)
        | inr fits ↦
            read3 f g (metadata f) (type_code f.type - 1) (f.nx - 1) (f.ny - 1) (f.nz - 1) fits.3
              (omega (arith, code)) (omega (arith, fits.0, x)) (omega (arith, fits.1, y))
              (omega (arith, fits.2, z)) t (positive x) (positive y) (positive z) w
      ]
      | four x y z w ↦ elim (packed4 f h.typed x y z w) [
        | inl over ↦ absurd (ok over.1)
        | inr fits ↦
            read4 f g (metadata f) (type_code f.type - 1) (f.nx - 1) (f.ny - 1) (f.nz - 1)
              (f.nw - 1) fits.4 (omega (arith, code)) (omega (arith, fits.0, x))
              (omega (arith, fits.1, y)) (omega (arith, fits.2, z)) (omega (arith, fits.3, w)) t
              (positive x) (positive y) (positive z) (positive w)
      ]
    ]

-- The metadata of a field, if there is any, have 52 bits.
pub metadata-small : (f : Field) → IsShaped f → metadata f ≢ meta_null → metadata f < 2 ^ 52
metadata-small f h ok =
    let code = code_bounds f.type h.typed in
    elim (field-Shape f h) [
      | one x y z w ↦ elim (packed1 f h.typed x y) [
        | inl over ↦ absurd (ok over.1)
        | inr fits ↦ omega (arith, fits, code)
      ]
      | two x y z w ↦ elim (packed2 f h.typed x y z) [
        | inl over ↦ absurd (ok over.1)
        | inr fits ↦ omega (arith, fits, code)
      ]
      | three x y z w ↦ elim (packed3 f h.typed x y z w) [
        | inl over ↦ absurd (ok over.1)
        | inr fits ↦ omega (arith, fits, code)
      ]
      | four x y z w ↦ elim (packed4 f h.typed x y z w) [
        | inl over ↦ absurd (ok over.1)
        | inr fits ↦ omega (arith, fits, code)
      ]
    ]

-- A field with a type and dimensions has no metadata exactly if a dimension is more than 2^48 for
-- one dimension, 2^24 for two, 2^16 for three and 2^12 for four.
pub metadata-null :
    (f : Field)
    → IsShaped f
    → (metadata f ≡ meta_null) ↔ (2 ^ (48 / dimensionality f) < max (max (max f.nx f.ny) f.nz) f.nw)
metadata-null f h =
    let code = code_bounds f.type h.typed in
    elim (field-Shape f h) [
      | one x y z w ↦
          let kind = dims1 f x y in
          elim (packed1 f h.typed x y) [
            | inl over ↦ (λ e. rw kind (ground (arith, y, z, w, over.0)), λ e. over.1)
            | inr fits ↦ (
              λ e. absurd (omega (arith, e, fits, code)),
              λ e. absurd (
                  ground (
                    arith,
                    y,
                    z,
                    w,
                    fits,
                    subst (λ dims. 2 ^ (48 / dims) < max (max (max f.nx f.ny) f.nz) f.nw) kind e,
                  )),
            )
          ]
      | two x y z w ↦
          let kind = dims2 f x y z in
          elim (packed2 f h.typed x y z) [
            | inl over ↦ (λ e. rw kind (ground (arith, z, w, over.0)), λ e. over.1)
            | inr fits ↦ (
              λ e. absurd (omega (arith, e, fits, code)),
              λ e. absurd (
                  ground (
                    arith,
                    z,
                    w,
                    fits,
                    subst (λ dims. 2 ^ (48 / dims) < max (max (max f.nx f.ny) f.nz) f.nw) kind e,
                  )),
            )
          ]
      | three x y z w ↦
          let kind = dims3 f x y z w in
          elim (packed3 f h.typed x y z w) [
            | inl over ↦ (λ e. rw kind (ground (arith, w, over.0)), λ e. over.1)
            | inr fits ↦ (
              λ e. absurd (omega (arith, e, fits, code)),
              λ e. absurd (
                  ground (
                    arith,
                    w,
                    fits,
                    subst (λ dims. 2 ^ (48 / dims) < max (max (max f.nx f.ny) f.nz) f.nw) kind e,
                  )),
            )
          ]
      | four x y z w ↦
          let kind = dims4 f x y z w in
          elim (packed4 f h.typed x y z w) [
            | inl over ↦ (λ e. rw kind (ground (arith, over.0)), λ e. over.1)
            | inr fits ↦ (
              λ e. absurd (omega (arith, e, fits, code)),
              λ e. absurd (
                  ground (
                    arith,
                    fits,
                    subst (λ dims. 2 ^ (48 / dims) < max (max (max f.nx f.ny) f.nz) f.nw) kind e,
                  )),
            )
          ]
    ]

-- A single dimension from 1 to 2^48 has metadata, but all except its low 32 bits, less one, are
-- lost in reading.
pub set_metadata-metadata_1d :
    (f g : Field)
    → IsShaped f
    → f.ny ≡ 0
    → f.nx ≤ 2 ^ 48
    → (metadata f ≢ meta_null) × ((set_metadata g (metadata f)).1.nx ≡ (f.nx - 1) % 2 ^ 32 + 1)
unfolding set_metadata
set_metadata-metadata_1d f g h y small =
    let code = code_bounds f.type h.typed in
    elim (packed1 f h.typed (λ e. absurd (omega (arith, h.first, e))) y) [
      | inl over ↦ absurd (omega (arith, over))
      | inr fits ↦
          let meta = metadata f in
          let value : meta ≡ (f.nx - 1) * 16 + 0 + (type_code f.type - 1) = fits.1 in
          let ok : (meta >>> 52 != 0) ≡ false = ground (arith, value, small, code) in
          let one_dimension : bit_and (meta >>> 2) 3 ≡ 0 =
            omega (arith, value, code, low_bits 2 (meta >>> 2)) in
          let low : bit_and (meta >>> 2 >>> 2) 0xffffffff ≡ (f.nx - 1) % 2 ^ 32 =
            omega (arith, value, code, low_bits 32 (meta >>> 2 >>> 2)) in
          ((λ e. absurd (omega (arith, e, value, small, code))), rw (ok, one_dimension, low) refl)
    ]
