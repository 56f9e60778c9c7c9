-- ===== src/Field.antt =====
-- The fields of src/zfp.c: the type, the dimensions and the strides of an uncompressed array.
pub mod Metadata
use zfp.Prelude.{
  ℕ, ◌+◌, ◌-◌, ◌*◌, ◌/◌, ◌^◌, ◌<◌, Bool, true, false, not, ◌||◌, ◌!=◌, ◌==◌, if◌then◌else◌, u32,
  u64,
}
use zfp.Prelude.{sub32, ◌<<<◌, ◌>>>◌, bit_and, max, List, [], ◌∷◌}
use zfp.Prelude.Int.{ℤ, pos, ◌+ℤ◌, ◌-ℤ◌, ◌*ℤ◌, min_ℤ, max_ℤ, s64, wrap_ℤ}

pub data ScalarType : Type 0 where
  zfp_type_none zfp_type_int32 zfp_type_int64 zfp_type_float zfp_type_double : ScalarType

-- The number of a type in its C enumeration.
abbrev pub type_code : ScalarType → ℕ
type_code zfp_type_none = 0
type_code zfp_type_int32 = 1
type_code zfp_type_int64 = 2
type_code zfp_type_float = 3
type_code zfp_type_double = 4

-- The type of a number from 1 to 4.
abbrev pub type_of_code : ℕ → ScalarType
type_of_code code =
    if code == 1
    then zfp_type_int32
    else if code == 2
    then zfp_type_int64
    else if code == 3
    then zfp_type_float
    else if code == 4
    then zfp_type_double
    else zfp_type_none

unfoldable pub type_size : ScalarType → ℕ
type_size zfp_type_none = 0
type_size zfp_type_int32 = 4
type_size zfp_type_int64 = 8
type_size zfp_type_float = 4
type_size zfp_type_double = 8

-- `zfp_field`, without the pointer to the data.
pub record Field : Type 0 where
  pub type : ScalarType
  pub nx : ℕ
  pub ny : ℕ
  pub nz : ℕ
  pub nw : ℕ
  pub sx : ℤ
  pub sy : ℤ
  pub sz : ℤ
  pub sw : ℤ

abbrev pub alloc : Field
alloc = record {
  type = zfp_type_none;
  nx = 0;
  ny = 0;
  nz = 0;
  nw = 0;
  sx = pos 0;
  sy = pos 0;
  sz = pos 0;
  sw = pos 0;
}

abbrev pub field_1d : ScalarType → ℕ → Field
field_1d type nx = record alloc { type = type; nx = nx }

abbrev pub field_2d : ScalarType → ℕ → ℕ → Field
field_2d type nx ny = record alloc { type = type; nx = nx; ny = ny }

abbrev pub field_3d : ScalarType → ℕ → ℕ → ℕ → Field
field_3d type nx ny nz = record alloc { type = type; nx = nx; ny = ny; nz = nz }

abbrev pub field_4d : ScalarType → ℕ → ℕ → ℕ → ℕ → Field
field_4d type nx ny nz nw = record alloc { type = type; nx = nx; ny = ny; nz = nz; nw = nw }

unfoldable pub precision : Field → ℕ
precision field = 8 * type_size field.type

unfoldable pub dimensionality : Field → ℕ
dimensionality field =
    if field.nx != 0
    then if field.ny != 0 then if field.nz != 0 then if field.nw != 0 then 4 else 3 else 2 else 1
    else 0

-- `zfp_field_size`: the product, and the sizes that it stores.
unfoldable pub size : Field → ℕ
size field = u64 (max field.nx 1 * max field.ny 1 * max field.nz 1 * max field.nw 1)

unfoldable pub sizes : Field → List ℕ
sizes field =
    let dims = dimensionality field in
    if dims == 4
    then field.nx ∷ field.ny ∷ field.nz ∷ field.nw ∷ []
    else if dims == 3
    then field.nx ∷ field.ny ∷ field.nz ∷ []
    else if dims == 2
    then field.nx ∷ field.ny ∷ []
    else if dims == 1
    then field.nx ∷ []
    else []

unfoldable pub blocks : Field → ℕ
blocks field =
    let bx = u64 (field.nx + 3) / 4 in
    let by = u64 (field.ny + 3) / 4 in
    let bz = u64 (field.nz + 3) / 4 in
    let bw = u64 (field.nw + 3) / 4 in
    let dims = dimensionality field in
    if dims == 1
    then bx
    else if dims == 2
    then u64 (bx * by)
    else if dims == 3
    then u64 (bx * by * bz)
    else if dims == 4
    then u64 (bx * by * bz * bw)
    else 0

-- A stride, or the one of a contiguous array.
abbrev is_zero : ℤ → Bool
is_zero (pos n) = n == 0
is_zero _ = false

abbrev stride_or : ℤ → ℤ → ℤ
stride_or s default = if is_zero s then default else s

abbrev stride_x : Field → ℤ
stride_x field = stride_or field.sx (pos 1)

abbrev stride_y : Field → ℤ
stride_y field = stride_or field.sy (s64 field.nx)

abbrev stride_z : Field → ℤ
stride_z field = stride_or field.sz (s64 (u64 (field.nx * field.ny)))

abbrev stride_w : Field → ℤ
stride_w field = stride_or field.sw (s64 (u64 (field.nx * field.ny * field.nz)))

-- `zfp_field_stride`: whether a stride is given, and the strides that it stores.
unfoldable pub has_stride : Field → Bool
has_stride field =
    not (is_zero field.sx)
    || not (is_zero field.sy)
    || not (is_zero field.sz)
    || not (is_zero field.sw)

unfoldable pub strides : Field → List ℤ
strides field =
    let dims = dimensionality field in
    if dims == 4
    then stride_x field ∷ stride_y field ∷ stride_z field ∷ stride_w field ∷ []
    else if dims == 3
    then stride_x field ∷ stride_y field ∷ stride_z field ∷ []
    else if dims == 2
    then stride_x field ∷ stride_y field ∷ []
    else if dims == 1
    then stride_x field ∷ []
    else []

-- The largest offset along an axis.
abbrev reach : ℤ → ℕ → ℤ
reach s n = if n != 0 then s *ℤ s64 (n - 1) else pos 0

-- `field_index_span`: the lowest and the highest offset, and the number of elements they span.
unfoldable pub index_min : Field → ℤ
index_min field =
    min_ℤ (reach (stride_x field) field.nx) (pos 0)
    +ℤ min_ℤ (reach (stride_y field) field.ny) (pos 0)
    +ℤ min_ℤ (reach (stride_z field) field.nz) (pos 0)
    +ℤ min_ℤ (reach (stride_w field) field.nw) (pos 0)

unfoldable pub index_max : Field → ℤ
index_max field =
    max_ℤ (reach (stride_x field) field.nx) (pos 0)
    +ℤ max_ℤ (reach (stride_y field) field.ny) (pos 0)
    +ℤ max_ℤ (reach (stride_z field) field.nz) (pos 0)
    +ℤ max_ℤ (reach (stride_w field) field.nw) (pos 0)

unfoldable pub index_span : Field → ℕ
index_span field = wrap_ℤ 64 (index_max field -ℤ index_min field +ℤ pos 1)

unfoldable pub size_bytes : Field → ℕ
size_bytes field = u64 (index_span field * type_size field.type)

unfoldable pub is_contiguous : Field → Bool
is_contiguous field = index_span field == size field

unfoldable pub set_type : Field → ScalarType → ScalarType × Field
set_type field zfp_type_none = (zfp_type_none, field)
set_type field type = (type, record field { type = type })

unfoldable pub set_size_1d : Field → ℕ → Field
set_size_1d field n = record field { nx = n; ny = 0; nz = 0; nw = 0 }

unfoldable pub set_size_2d : Field → ℕ → ℕ → Field
set_size_2d field nx ny = record field { nx = nx; ny = ny; nz = 0; nw = 0 }

unfoldable pub set_size_3d : Field → ℕ → ℕ → ℕ → Field
set_size_3d field nx ny nz = record field { nx = nx; ny = ny; nz = nz; nw = 0 }

unfoldable pub set_size_4d : Field → ℕ → ℕ → ℕ → ℕ → Field
set_size_4d field nx ny nz nw = record field { nx = nx; ny = ny; nz = nz; nw = nw }

unfoldable pub set_stride_1d : Field → ℤ → Field
set_stride_1d field sx = record field { sx = sx; sy = pos 0; sz = pos 0; sw = pos 0 }

unfoldable pub set_stride_2d : Field → ℤ → ℤ → Field
set_stride_2d field sx sy = record field { sx = sx; sy = sy; sz = pos 0; sw = pos 0 }

unfoldable pub set_stride_3d : Field → ℤ → ℤ → ℤ → Field
set_stride_3d field sx sy sz = record field { sx = sx; sy = sy; sz = sz; sw = pos 0 }

unfoldable pub set_stride_4d : Field → ℤ → ℤ → ℤ → ℤ → Field
set_stride_4d field sx sy sz sw = record field { sx = sx; sy = sy; sz = sz; sw = sw }

-- ZFP_META_NULL of include/zfp.h
abbrev pub meta_null : ℕ
meta_null = 2 ^ 64 - 1

-- `meta <<= width; meta += value`
abbrev pub append : ℕ → ℕ → ℕ → ℕ
append meta width value = u64 (u64 (meta <<< width) + value)

-- `zfp_field_metadata`, past the dimensions: two bits for their number, two for the type.
unfoldable pub append_kind : Field → ℕ → ℕ
append_kind field meta =
    append (append meta 2 (sub32 (dimensionality field) 1)) 2 (sub32 (type_code field.type) 1)

unfoldable pub metadata : Field → ℕ
metadata field =
    let dims = dimensionality field in
    if dims == 1
    then if (field.nx - 1) >>> 48 != 0
      then meta_null
      else append_kind field (append 0 48 (field.nx - 1))
    else if dims == 2
    then if ((field.nx - 1) >>> 24 != 0) || ((field.ny - 1) >>> 24 != 0)
      then meta_null
      else append_kind field (append (append 0 24 (field.ny - 1)) 24 (field.nx - 1))
    else if dims == 3
    then if ((field.nx - 1) >>> 16 != 0)
        || ((field.ny - 1) >>> 16 != 0)
        || ((field.nz - 1) >>> 16 != 0)
      then meta_null
      else append_kind field
          (append (append (append 0 16 (field.nz - 1)) 16 (field.ny - 1)) 16 (field.nx - 1))
    else if dims == 4
    then if ((field.nx - 1) >>> 12 != 0)
        || ((field.ny - 1) >>> 12 != 0)
        || ((field.nz - 1) >>> 12 != 0)
        || ((field.nw - 1) >>> 12 != 0)
      then meta_null
      else append_kind field (
          append (append (append (append 0 12 (field.nw - 1)) 12 (field.nz - 1)) 12 (field.ny - 1))
            12 (field.nx - 1))
    else append_kind field 0

-- `zfp_field_set_metadata`: whether it succeeds, and the field.
unfoldable pub set_metadata : Field → ℕ → Bool × Field
set_metadata field meta =
    if meta >>> 52 != 0
    then (false, field)
    else let field₁ = record field { type = type_of_code (bit_and meta 3 + 1) } in
      let dims = bit_and (meta >>> 2) 3 + 1 in
      let rest = meta >>> 2 >>> 2 in
      let field₂ =
        if dims == 1
        then record field₁ { nx = bit_and rest 0xffffffff + 1; ny = 0; nz = 0; nw = 0 }
        else if dims == 2
        then record field₁ {
          nx = bit_and rest 0xffffff + 1;
          ny = bit_and (rest >>> 24) 0xffffff + 1;
          nz = 0;
          nw = 0;
        }
        else if dims == 3
        then record field₁ {
          nx = bit_and rest 0xffff + 1;
          ny = bit_and (rest >>> 16) 0xffff + 1;
          nz = bit_and (rest >>> 16 >>> 16) 0xffff + 1;
          nw = 0;
        }
        else record field₁ {
          nx = bit_and rest 0xfff + 1;
          ny = bit_and (rest >>> 12) 0xfff + 1;
          nz = bit_and (rest >>> 12 >>> 12) 0xfff + 1;
          nw = bit_and (rest >>> 12 >>> 12 >>> 12) 0xfff + 1;
        } in
      (true, record field₂ { sx = pos 0; sy = pos 0; sz = pos 0; sw = pos 0 })
