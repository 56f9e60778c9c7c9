-- ===== src/Codec/Generic/Planes.antt =====
-- The codec stores and loads the scalars of a block of one or two dimensions.
use zfp.Prelude.{
  ℕ, ◌+◌, ◌-◌, ◌*◌, ◌^◌, ◌≤◌, ◌<◌, ◌≡◌, refl, arith, ap, ◌∙◌, ◌&&◌, ◌!=◌, leb, if◌then◌else◌,
  Bool-cases, inl, inr, some, ◌>>>◌,
}
use native.Mathlib.Nat.{add-zero}
use zfp.Codec.Contiguous.{copy_x-Copied, copy_y-Copied}
use zfp.Codec.Generic.{
  extent, store_at, load_at, encode_full, decode_full, encode_block1, encode_block2, decode_block1,
  decode_block2, encode_block_strided1, encode_block_strided2, decode_block_strided1,
  decode_block_strided2,
}
use zfp.Codec.Generic.Shape.{
  has_scalar1, has_scalar2, begin-aligned, extent_le, leb_zero, sub_zero, full1, full2, seen1,
  seen2,
}

module _ {E I : Type 0} (bits : ℕ) (narrow : E → I) (widen : I → E) (positive : 1 ≤ bits) where
  -- Writing a block at the aligned position `k` of the buffer, below 2^62, succeeds with the
  -- bits of a full block; it
  -- changes the scalars that the shape has, from position `k` on, to the converted values, and
  -- no others.
  encode_block1_lem :
      (buffer : ℕ → I) (k shape : ℕ) (block : ℕ → E)
      → k < 2 ^ 62
      → (r : ℕ → I) × (encode_block1 bits narrow widen buffer (k * bits) shape block
          ≡ some (4 * bits, r))
        × ((a : ℕ)
            → r a
              ≡ (if leb k a && has_scalar1 shape (a - k) then narrow (block (a - k)) else buffer a))
  unfolding encode_block1 encode_block_strided1 encode_full store_at
  encode_block1_lem buffer k shape block small = elim (Bool-cases (shape != 0)) [
    | inl part ↦
        let c =
          copy_x-Copied (store_at bits narrow widen block) k k (λ p. narrow (block p))
            (λ p m a. refl) small (extent shape) 0 buffer (omega (arith, extent_le shape)) in
        (
          _,
          rw
              (
                encode_block1,
                part,
                encode_block_strided1,
                begin-aligned bits k positive,
                part,
                add-zero k,
              )
              refl,
          λ a.
              c.values a
              ∙ ap (λ t. if leb k a && t then narrow (block (a - k)) else buffer a)
                  (seen1 shape (a - k)),
        )
    | inr whole ↦
        let c =
          copy_x-Copied (store_at bits narrow widen block) k k (λ p. narrow (block p))
            (λ p m a. refl) small 4 0 buffer (omega arith) in
        (
          _,
          rw (encode_block1, whole, encode_full, begin-aligned bits k positive, add-zero k) refl,
          λ a.
              c.values a
              ∙ ap (λ t. if leb k a && t then narrow (block (a - k)) else buffer a)
                  (full1 shape (a - k) whole),
        )
  ]

  -- Reading a block at the aligned position `k` of the buffer, below 2^62, succeeds with the
  -- bits of a full block; it gives
  -- the scalars that the shape has and leaves the rest of the old block.
  decode_block1_lem :
      (buffer : ℕ → I) (k shape : ℕ) (block : ℕ → E)
      → k < 2 ^ 62
      → (r : ℕ → E) × (decode_block1 bits narrow widen buffer (k * bits) shape block
          ≡ some (4 * bits, r))
        × ((a : ℕ) → r a ≡ (if has_scalar1 shape a then widen (buffer (k + a)) else block a))
  unfolding decode_block1 decode_block_strided1 decode_full load_at
  decode_block1_lem buffer k shape block small = elim (Bool-cases (shape != 0)) [
    | inl part ↦
        let c =
          copy_x-Copied (load_at bits narrow widen buffer) k 0 (λ p. widen (buffer (k + p)))
            (λ p m a. ground arith) small (extent shape) 0 block (omega (arith, extent_le shape)) in
        (
          _,
          rw
              (
                decode_block1,
                part,
                decode_block_strided1,
                begin-aligned bits k positive,
                part,
                add-zero k,
              )
              refl,
          λ a.
              c.values a
              ∙ rw (leb_zero a, sub_zero a)
                  (ap (λ t. if t then widen (buffer (k + a)) else block a) (seen1 shape a)),
        )
    | inr whole ↦
        let c =
          copy_x-Copied (load_at bits narrow widen buffer) k 0 (λ p. widen (buffer (k + p)))
            (λ p m a. ground arith) small 4 0 block (omega arith) in
        (
          _,
          rw (decode_block1, whole, decode_full, begin-aligned bits k positive, add-zero k) refl,
          λ a.
              c.values a
              ∙ rw (leb_zero a, sub_zero a)
                  (ap (λ t. if t then widen (buffer (k + a)) else block a) (full1 shape a whole)),
        )
  ]

  -- Writing a block at the aligned position `k` of the buffer, below 2^62, succeeds with the
  -- bits of a full block; it
  -- changes the scalars that the shape has, from position `k` on, to the converted values, and
  -- no others.
  encode_block2_lem :
      (buffer : ℕ → I) (k shape : ℕ) (block : ℕ → E)
      → k < 2 ^ 62
      → (r : ℕ → I) × (encode_block2 bits narrow widen buffer (k * bits) shape block
          ≡ some (16 * bits, r))
        × ((a : ℕ)
            → r a
              ≡ (if leb k a && has_scalar2 shape (a - k) then narrow (block (a - k)) else buffer a))
  unfolding encode_block2 encode_block_strided2 encode_full store_at
  encode_block2_lem buffer k shape block small = elim (Bool-cases (shape != 0)) [
    | inl part ↦
        let c =
          copy_y-Copied (store_at bits narrow widen block) k k (λ p. narrow (block p))
            (λ p m a. refl) small (extent (shape >>> 2)) (extent shape) 0 buffer (extent_le shape)
            (omega (arith, extent_le (shape >>> 2))) in
        (
          _,
          rw
              (
                encode_block2,
                part,
                encode_block_strided2,
                begin-aligned bits k positive,
                part,
                add-zero k,
              )
              refl,
          λ a.
              c.values a
              ∙ ap (λ t. if leb k a && t then narrow (block (a - k)) else buffer a)
                  (seen2 shape (a - k)),
        )
    | inr whole ↦
        let c =
          copy_x-Copied (store_at bits narrow widen block) k k (λ p. narrow (block p))
            (λ p m a. refl) small 16 0 buffer (omega arith) in
        (
          _,
          rw (encode_block2, whole, encode_full, begin-aligned bits k positive, add-zero k) refl,
          λ a.
              c.values a
              ∙ ap (λ t. if leb k a && t then narrow (block (a - k)) else buffer a)
                  (full2 shape (a - k) whole),
        )
  ]

  -- Reading a block at the aligned position `k` of the buffer, below 2^62, succeeds with the
  -- bits of a full block; it gives
  -- the scalars that the shape has and leaves the rest of the old block.
  decode_block2_lem :
      (buffer : ℕ → I) (k shape : ℕ) (block : ℕ → E)
      → k < 2 ^ 62
      → (r : ℕ → E) × (decode_block2 bits narrow widen buffer (k * bits) shape block
          ≡ some (16 * bits, r))
        × ((a : ℕ) → r a ≡ (if has_scalar2 shape a then widen (buffer (k + a)) else block a))
  unfolding decode_block2 decode_block_strided2 decode_full load_at
  decode_block2_lem buffer k shape block small = elim (Bool-cases (shape != 0)) [
    | inl part ↦
        let c =
          copy_y-Copied (load_at bits narrow widen buffer) k 0 (λ p. widen (buffer (k + p)))
            (λ p m a. ground arith) small (extent (shape >>> 2)) (extent shape) 0 block
            (extent_le shape) (omega (arith, extent_le (shape >>> 2))) in
        (
          _,
          rw
              (
                decode_block2,
                part,
                decode_block_strided2,
                begin-aligned bits k positive,
                part,
                add-zero k,
              )
              refl,
          λ a.
              c.values a
              ∙ rw (leb_zero a, sub_zero a)
                  (ap (λ t. if t then widen (buffer (k + a)) else block a) (seen2 shape a)),
        )
    | inr whole ↦
        let c =
          copy_x-Copied (load_at bits narrow widen buffer) k 0 (λ p. widen (buffer (k + p)))
            (λ p m a. ground arith) small 16 0 block (omega arith) in
        (
          _,
          rw (decode_block2, whole, decode_full, begin-aligned bits k positive, add-zero k) refl,
          λ a.
              c.values a
              ∙ rw (leb_zero a, sub_zero a)
                  (ap (λ t. if t then widen (buffer (k + a)) else block a) (full2 shape a whole)),
        )
  ]
