-- ===== src/Codec/Generic/Blocks.antt =====
-- The codec stores and loads the scalars of a block of three or four dimensions.
use zfp.Prelude.{
  ℕ, ◌+◌, ◌-◌, ◌*◌, ◌^◌, ◌≤◌, ◌<◌, ◌≡◌, refl, arith, ap, ◌∙◌, ◌&&◌, ◌!=◌, leb, if◌then◌else◌,
  Bool-cases, inl, inr, some, ◌>>>◌,
}
use native.Mathlib.Nat.{add-zero}
use zfp.Codec.Contiguous.{copy_x-Copied, copy_z-Copied, copy_w-Copied}
use zfp.Codec.Generic.{
  extent, store_at, load_at, encode_full, decode_full, encode_block3, encode_block4, decode_block3,
  decode_block4, encode_block_strided3, encode_block_strided4, decode_block_strided3,
  decode_block_strided4,
}
use zfp.Codec.Generic.Shape.{
  has_scalar3, has_scalar4, begin-aligned, extent_le, leb_zero, sub_zero, full3, full4, seen3,
  seen4,
}

module _ {E I : Type 0} (bits : ℕ) (narrow : E → I) (widen : I → E) (positive : 1 ≤ bits) where
  -- Writing a block at the aligned position `k` of the buffer, below 2^62, succeeds with the
  -- bits of a full block; it
  -- changes the scalars that the shape has, from position `k` on, to the converted values, and
  -- no others.
  encode_block3_lem :
      (buffer : ℕ → I) (k shape : ℕ) (block : ℕ → E)
      → k < 2 ^ 62
      → (r : ℕ → I) × (encode_block3 bits narrow widen buffer (k * bits) shape block
          ≡ some (64 * bits, r))
        × ((a : ℕ)
            → r a
              ≡ (if leb k a && has_scalar3 shape (a - k) then narrow (block (a - k)) else buffer a))
  unfolding encode_block3 encode_block_strided3 encode_full store_at
  encode_block3_lem buffer k shape block small = elim (Bool-cases (shape != 0)) [
    | inl part ↦
        let c =
          copy_z-Copied (store_at bits narrow widen block) k k (λ p. narrow (block p))
            (λ p m a. refl) small (extent (shape >>> 4)) (extent (shape >>> 2)) (extent shape) 0
            buffer (extent_le shape) (extent_le (shape >>> 2))
            (omega (arith, extent_le (shape >>> 4))) in
        (
          _,
          rw
              (
                encode_block3,
                part,
                encode_block_strided3,
                begin-aligned bits k positive,
                part,
                add-zero k,
              )
              refl,
          λ a.
              c.values a
              ∙ ap (λ t. if leb k a && t then narrow (block (a - k)) else buffer a)
                  (seen3 shape (a - k)),
        )
    | inr whole ↦
        let c =
          copy_x-Copied (store_at bits narrow widen block) k k (λ p. narrow (block p))
            (λ p m a. refl) small 64 0 buffer (omega arith) in
        (
          _,
          rw (encode_block3, whole, encode_full, begin-aligned bits k positive, add-zero k) refl,
          λ a.
              c.values a
              ∙ ap (λ t. if leb k a && t then narrow (block (a - k)) else buffer a)
                  (full3 shape (a - k) whole),
        )
  ]

  -- Reading a block at the aligned position `k` of the buffer, below 2^62, succeeds with the
  -- bits of a full block; it gives
  -- the scalars that the shape has and leaves the rest of the old block.
  decode_block3_lem :
      (buffer : ℕ → I) (k shape : ℕ) (block : ℕ → E)
      → k < 2 ^ 62
      → (r : ℕ → E) × (decode_block3 bits narrow widen buffer (k * bits) shape block
          ≡ some (64 * bits, r))
        × ((a : ℕ) → r a ≡ (if has_scalar3 shape a then widen (buffer (k + a)) else block a))
  unfolding decode_block3 decode_block_strided3 decode_full load_at
  decode_block3_lem buffer k shape block small = elim (Bool-cases (shape != 0)) [
    | inl part ↦
        let c =
          copy_z-Copied (load_at bits narrow widen buffer) k 0 (λ p. widen (buffer (k + p)))
            (λ p m a. ground arith) small (extent (shape >>> 4)) (extent (shape >>> 2))
            (extent shape) 0 block (extent_le shape) (extent_le (shape >>> 2))
            (omega (arith, extent_le (shape >>> 4))) in
        (
          _,
          rw
              (
                decode_block3,
                part,
                decode_block_strided3,
                begin-aligned bits k positive,
                part,
                add-zero k,
              )
              refl,
          λ a.
              c.values a
              ∙ rw (leb_zero a, sub_zero a)
                  (ap (λ t. if t then widen (buffer (k + a)) else block a) (seen3 shape a)),
        )
    | inr whole ↦
        let c =
          copy_x-Copied (load_at bits narrow widen buffer) k 0 (λ p. widen (buffer (k + p)))
            (λ p m a. ground arith) small 64 0 block (omega arith) in
        (
          _,
          rw (decode_block3, whole, decode_full, begin-aligned bits k positive, add-zero k) refl,
          λ a.
              c.values a
              ∙ rw (leb_zero a, sub_zero a)
                  (ap (λ t. if t then widen (buffer (k + a)) else block a) (full3 shape a whole)),
        )
  ]

  -- Writing a block at the aligned position `k` of the buffer, below 2^62, succeeds with the
  -- bits of a full block; it
  -- changes the scalars that the shape has, from position `k` on, to the converted values, and
  -- no others.
  pub encode_block4_lem :
      (buffer : ℕ → I) (k shape : ℕ) (block : ℕ → E)
      → k < 2 ^ 62
      → (r : ℕ → I) × (encode_block4 bits narrow widen buffer (k * bits) shape block
          ≡ some (256 * bits, r))
        × ((a : ℕ)
            → r a
              ≡ (if leb k a && has_scalar4 shape (a - k) then narrow (block (a - k)) else buffer a))
  unfolding encode_block4 encode_block_strided4 encode_full store_at
  encode_block4_lem buffer k shape block small = elim (Bool-cases (shape != 0)) [
    | inl part ↦
        let c =
          copy_w-Copied (store_at bits narrow widen block) k k (λ p. narrow (block p))
            (λ p m a. refl) small (extent (shape >>> 6)) (extent (shape >>> 4))
            (extent (shape >>> 2)) (extent shape) 0 buffer (extent_le shape)
            (extent_le (shape >>> 2)) (extent_le (shape >>> 4))
            (omega (arith, extent_le (shape >>> 6))) in
        (
          _,
          rw
              (
                encode_block4,
                part,
                encode_block_strided4,
                begin-aligned bits k positive,
                part,
                add-zero k,
              )
              refl,
          λ a.
              c.values a
              ∙ ap (λ t. if leb k a && t then narrow (block (a - k)) else buffer a)
                  (seen4 shape (a - k)),
        )
    | inr whole ↦
        let c =
          copy_x-Copied (store_at bits narrow widen block) k k (λ p. narrow (block p))
            (λ p m a. refl) small 256 0 buffer (omega arith) in
        (
          _,
          rw (encode_block4, whole, encode_full, begin-aligned bits k positive, add-zero k) refl,
          λ a.
              c.values a
              ∙ ap (λ t. if leb k a && t then narrow (block (a - k)) else buffer a)
                  (full4 shape (a - k) whole),
        )
  ]

  -- Reading a block at the aligned position `k` of the buffer, below 2^62, succeeds with the
  -- bits of a full block; it gives
  -- the scalars that the shape has and leaves the rest of the old block.
  pub decode_block4_lem :
      (buffer : ℕ → I) (k shape : ℕ) (block : ℕ → E)
      → k < 2 ^ 62
      → (r : ℕ → E) × (decode_block4 bits narrow widen buffer (k * bits) shape block
          ≡ some (256 * bits, r))
        × ((a : ℕ) → r a ≡ (if has_scalar4 shape a then widen (buffer (k + a)) else block a))
  unfolding decode_block4 decode_block_strided4 decode_full load_at
  decode_block4_lem buffer k shape block small = elim (Bool-cases (shape != 0)) [
    | inl part ↦
        let c =
          copy_w-Copied (load_at bits narrow widen buffer) k 0 (λ p. widen (buffer (k + p)))
            (λ p m a. ground arith) small (extent (shape >>> 6)) (extent (shape >>> 4))
            (extent (shape >>> 2)) (extent shape) 0 block (extent_le shape)
            (extent_le (shape >>> 2)) (extent_le (shape >>> 4))
            (omega (arith, extent_le (shape >>> 6))) in
        (
          _,
          rw
              (
                decode_block4,
                part,
                decode_block_strided4,
                begin-aligned bits k positive,
                part,
                add-zero k,
              )
              refl,
          λ a.
              c.values a
              ∙ rw (leb_zero a, sub_zero a)
                  (ap (λ t. if t then widen (buffer (k + a)) else block a) (seen4 shape a)),
        )
    | inr whole ↦
        let c =
          copy_x-Copied (load_at bits narrow widen buffer) k 0 (λ p. widen (buffer (k + p)))
            (λ p m a. ground arith) small 256 0 block (omega arith) in
        (
          _,
          rw (decode_block4, whole, decode_full, begin-aligned bits k positive, add-zero k) refl,
          λ a.
              c.values a
              ∙ rw (leb_zero a, sub_zero a)
                  (ap (λ t. if t then widen (buffer (k + a)) else block a) (full4 shape a whole)),
        )
  ]
