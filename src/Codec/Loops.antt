-- ===== src/Codec/Loops.antt =====
-- The loop nests that copy a block between strided and contiguous storage. They are the same in
-- include/zfp/codec/gencodec.hpp (`encode_block_strided` and `decode_block_strided`) and in the
-- cache lines of include/zfp/internal/array/cache1.hpp to cache4.hpp (`get` and `put`). Positions
-- are numbers modulo 2^64, and a negative stride is its two's complement.
use zfp.Prelude.{ℕ, zero, suc, ◌+◌, ◌*◌, u64, sub64}

-- The pointer `p` into strided storage, the pointer `q` into the block, and the memory written.
pub record Cursor {ℓ} (M : Type ℓ) : Type ℓ where
  pub p : ℕ
  pub q : ℕ
  pub memory : M

-- `body p q` is the assignment of the innermost loop.
module _ {ℓ} {M : Type ℓ} (body : ℕ → ℕ → M → M) where
  -- `for (x = 0; x < nx; x++, p += sx, q++)`
  unfoldable pub copy_x : ℕ → ℕ → Cursor M → Cursor M
  copy_x zero sx c = c
  copy_x (suc n) sx c =
      copy_x n sx (record { p = u64 (c.p + sx); q = u64 (c.q + 1); memory = body c.p c.q c.memory })

  -- `for (y = 0; y < ny; y++, p += sy - nx * sx, q += 4 - nx)`
  unfoldable pub copy_y : ℕ → ℕ → ℕ → ℕ → Cursor M → Cursor M
  copy_y zero nx sx sy c = c
  copy_y (suc n) nx sx sy c =
      let c' = copy_x nx sx c in
      copy_y n nx sx sy
        (record c' { p = u64 (c'.p + sub64 sy (u64 (nx * sx))); q = u64 (c'.q + sub64 4 nx) })

  -- `for (z = 0; z < nz; z++, p += sz - ny * sy, q += 16 - 4 * ny)`
  unfoldable pub copy_z : ℕ → ℕ → ℕ → ℕ → ℕ → ℕ → Cursor M → Cursor M
  copy_z zero ny nx sx sy sz c = c
  copy_z (suc n) ny nx sx sy sz c =
      let c' = copy_y ny nx sx sy c in
      copy_z n ny nx sx sy sz (record c' {
        p = u64 (c'.p + sub64 sz (u64 (ny * sy)));
        q = u64 (c'.q + sub64 16 (4 * ny));
      })

  -- `for (w = 0; w < nw; w++, p += sw - nz * sz, q += 64 - 16 * nz)`
  unfoldable pub copy_w : ℕ → ℕ → ℕ → ℕ → ℕ → ℕ → ℕ → ℕ → Cursor M → Cursor M
  copy_w zero nz ny nx sx sy sz sw c = c
  copy_w (suc n) nz ny nx sx sy sz sw c =
      let c' = copy_z nz ny nx sx sy sz c in
      copy_w n nz ny nx sx sy sz sw (record c' {
        p = u64 (c'.p + sub64 sw (u64 (nz * sz)));
        q = u64 (c'.q + sub64 64 (16 * nz));
      })
