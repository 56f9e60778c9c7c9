-- ===== src/Codec/Generic.antt =====
-- The classes `generic_base` and `generic1` to `generic4` of include/zfp/codec/gencodec.hpp. The
-- buffer is a function of the position of a stored scalar; `bits` is the width of one. The functions
-- return `block_size_bits` and what they write to.
pub mod Shape
pub mod Planes
pub mod Blocks
pub mod RoundTrip
use zfp.Prelude.{
  ℕ, ◌+◌, ◌-◌, ◌*◌, ◌/◌, ◌%◌, ◌!=◌, ◌==◌, if◌then◌else◌, bit_and, ◌>>>◌, sub64, Option, none, some,
}
use zfp.BlockCache.{update}
use zfp.Codec.Loops.{Cursor, copy_x, copy_y, copy_z, copy_w}

-- of `block_size` scalars of `bits` bits
abbrev block_size_bits : ℕ → ℕ → ℕ
block_size_bits bits block_size = block_size * bits

-- `none` is the exception for a bit offset that is not aligned.
unfoldable pub begin : ℕ → ℕ → Option ℕ
begin bits offset = if offset % bits != 0 then none else some (offset / bits)

-- The number of elements of a block along the axis of the low two bits of a shape.
unfoldable pub extent : ℕ → ℕ
extent shape = sub64 4 (bit_and shape 3)

module _ {E I : Type 0} (bits : ℕ) (narrow : E → I) (widen : I → E) where
  -- `*q = *p`, out of the array and into it
  unfoldable pub store_at : (ℕ → E) → ℕ → ℕ → (ℕ → I) → (ℕ → I)
  store_at array p q buffer = update buffer q (narrow (array p))

  unfoldable pub load_at : (ℕ → I) → ℕ → ℕ → (ℕ → E) → (ℕ → E)
  load_at buffer p q array = update array p (widen (buffer q))

  -- `encode_block` and `decode_block` of the base class, for a full block of `block_size` scalars
  unfoldable pub encode_full : ℕ → (ℕ → I) → ℕ → (ℕ → E) → Option (ℕ × (ℕ → I))
  encode_full block_size buffer offset block = elim (begin bits offset) [
    | none ↦ none
    | some ptr ↦ some (
      block_size_bits bits block_size,
      (copy_x (store_at block) block_size 1 (record { p = 0; q = ptr; memory = buffer })).memory,
    )
  ]

  unfoldable pub decode_full : ℕ → (ℕ → I) → ℕ → (ℕ → E) → Option (ℕ × (ℕ → E))
  decode_full block_size buffer offset block = elim (begin bits offset) [
    | none ↦ none
    | some ptr ↦ some (
      block_size_bits bits block_size,
      (copy_x (load_at buffer) block_size 1 (record { p = 0; q = ptr; memory = block })).memory,
    )
  ]

  unfoldable pub encode_block_strided1 : (ℕ → I) → ℕ → ℕ → (ℕ → E) → ℕ → ℕ → Option (ℕ × (ℕ → I))
  encode_block_strided1 buffer offset shape array p sx = elim (begin bits offset) [
    | none ↦ none
    | some q ↦
        let nx = if shape != 0 then extent shape else 4 in
        some (
          block_size_bits bits 4,
          (copy_x (store_at array) nx sx (record { p = p; q = q; memory = buffer })).memory,
        )
  ]

  unfoldable pub encode_block1 : (ℕ → I) → ℕ → ℕ → (ℕ → E) → Option (ℕ × (ℕ → I))
  encode_block1 buffer offset shape block =
      if shape != 0
      then encode_block_strided1 buffer offset shape block 0 1
      else encode_full 4 buffer offset block

  unfoldable pub decode_block_strided1 : (ℕ → I) → ℕ → ℕ → (ℕ → E) → ℕ → ℕ → Option (ℕ × (ℕ → E))
  decode_block_strided1 buffer offset shape array p sx = elim (begin bits offset) [
    | none ↦ none
    | some q ↦
        let nx = if shape != 0 then extent shape else 4 in
        some (
          block_size_bits bits 4,
          (copy_x (load_at buffer) nx sx (record { p = p; q = q; memory = array })).memory,
        )
  ]

  unfoldable pub decode_block1 : (ℕ → I) → ℕ → ℕ → (ℕ → E) → Option (ℕ × (ℕ → E))
  decode_block1 buffer offset shape block =
      if shape != 0
      then decode_block_strided1 buffer offset shape block 0 1
      else decode_full 4 buffer offset block

  unfoldable pub encode_block_strided2 :
      (ℕ → I) → ℕ → ℕ → (ℕ → E) → ℕ → ℕ → ℕ → Option (ℕ × (ℕ → I))
  encode_block_strided2 buffer offset shape array p sx sy = elim (begin bits offset) [
    | none ↦ none
    | some q ↦
        let nx = if shape != 0 then extent shape else 4 in
        let ny = if shape != 0 then extent (shape >>> 2) else 4 in
        some (
          block_size_bits bits 16,
          (copy_y (store_at array) ny nx sx sy (record { p = p; q = q; memory = buffer })).memory,
        )
  ]

  unfoldable pub encode_block2 : (ℕ → I) → ℕ → ℕ → (ℕ → E) → Option (ℕ × (ℕ → I))
  encode_block2 buffer offset shape block =
      if shape != 0
      then encode_block_strided2 buffer offset shape block 0 1 4
      else encode_full 16 buffer offset block

  unfoldable pub decode_block_strided2 :
      (ℕ → I) → ℕ → ℕ → (ℕ → E) → ℕ → ℕ → ℕ → Option (ℕ × (ℕ → E))
  decode_block_strided2 buffer offset shape array p sx sy = elim (begin bits offset) [
    | none ↦ none
    | some q ↦
        let nx = if shape != 0 then extent shape else 4 in
        let ny = if shape != 0 then extent (shape >>> 2) else 4 in
        some (
          block_size_bits bits 16,
          (copy_y (load_at buffer) ny nx sx sy (record { p = p; q = q; memory = array })).memory,
        )
  ]

  unfoldable pub decode_block2 : (ℕ → I) → ℕ → ℕ → (ℕ → E) → Option (ℕ × (ℕ → E))
  decode_block2 buffer offset shape block =
      if shape != 0
      then decode_block_strided2 buffer offset shape block 0 1 4
      else decode_full 16 buffer offset block

  unfoldable pub encode_block_strided3 :
      (ℕ → I) → ℕ → ℕ → (ℕ → E) → ℕ → ℕ → ℕ → ℕ → Option (ℕ × (ℕ → I))
  encode_block_strided3 buffer offset shape array p sx sy sz = elim (begin bits offset) [
    | none ↦ none
    | some q ↦
        let nx = if shape != 0 then extent shape else 4 in
        let ny = if shape != 0 then extent (shape >>> 2) else 4 in
        let nz = if shape != 0 then extent (shape >>> 4) else 4 in
        some (
          block_size_bits bits 64,
          (copy_z (store_at array) nz ny nx sx sy sz
              (record { p = p; q = q; memory = buffer })).memory,
        )
  ]

  unfoldable pub encode_block3 : (ℕ → I) → ℕ → ℕ → (ℕ → E) → Option (ℕ × (ℕ → I))
  encode_block3 buffer offset shape block =
      if shape != 0
      then encode_block_strided3 buffer offset shape block 0 1 4 16
      else encode_full 64 buffer offset block

  unfoldable pub decode_block_strided3 :
      (ℕ → I) → ℕ → ℕ → (ℕ → E) → ℕ → ℕ → ℕ → ℕ → Option (ℕ × (ℕ → E))
  decode_block_strided3 buffer offset shape array p sx sy sz = elim (begin bits offset) [
    | none ↦ none
    | some q ↦
        let nx = if shape != 0 then extent shape else 4 in
        let ny = if shape != 0 then extent (shape >>> 2) else 4 in
        let nz = if shape != 0 then extent (shape >>> 4) else 4 in
        some (
          block_size_bits bits 64,
          (copy_z (load_at buffer) nz ny nx sx sy sz
              (record { p = p; q = q; memory = array })).memory,
        )
  ]

  unfoldable pub decode_block3 : (ℕ → I) → ℕ → ℕ → (ℕ → E) → Option (ℕ × (ℕ → E))
  decode_block3 buffer offset shape block =
      if shape != 0
      then decode_block_strided3 buffer offset shape block 0 1 4 16
      else decode_full 64 buffer offset block

  unfoldable pub encode_block_strided4 :
      (ℕ → I) → ℕ → ℕ → (ℕ → E) → ℕ → ℕ → ℕ → ℕ → ℕ → Option (ℕ × (ℕ → I))
  encode_block_strided4 buffer offset shape array p sx sy sz sw = elim (begin bits offset) [
    | none ↦ none
    | some q ↦
        let nx = if shape != 0 then extent shape else 4 in
        let ny = if shape != 0 then extent (shape >>> 2) else 4 in
        let nz = if shape != 0 then extent (shape >>> 4) else 4 in
        let nw = if shape != 0 then extent (shape >>> 6) else 4 in
        some (
          block_size_bits bits 256,
          (copy_w (store_at array) nw nz ny nx sx sy sz sw
              (record { p = p; q = q; memory = buffer })).memory,
        )
  ]

  unfoldable pub encode_block4 : (ℕ → I) → ℕ → ℕ → (ℕ → E) → Option (ℕ × (ℕ → I))
  encode_block4 buffer offset shape block =
      if shape != 0
      then encode_block_strided4 buffer offset shape block 0 1 4 16 64
      else encode_full 256 buffer offset block

  unfoldable pub decode_block_strided4 :
      (ℕ → I) → ℕ → ℕ → (ℕ → E) → ℕ → ℕ → ℕ → ℕ → ℕ → Option (ℕ × (ℕ → E))
  decode_block_strided4 buffer offset shape array p sx sy sz sw = elim (begin bits offset) [
    | none ↦ none
    | some q ↦
        let nx = if shape != 0 then extent shape else 4 in
        let ny = if shape != 0 then extent (shape >>> 2) else 4 in
        let nz = if shape != 0 then extent (shape >>> 4) else 4 in
        let nw = if shape != 0 then extent (shape >>> 6) else 4 in
        some (
          block_size_bits bits 256,
          (copy_w (load_at buffer) nw nz ny nx sx sy sz sw
              (record { p = p; q = q; memory = array })).memory,
        )
  ]

  unfoldable pub decode_block4 : (ℕ → I) → ℕ → ℕ → (ℕ → E) → Option (ℕ × (ℕ → E))
  decode_block4 buffer offset shape block =
      if shape != 0
      then decode_block_strided4 buffer offset shape block 0 1 4 16 64
      else decode_full 256 buffer offset block
