-- ===== src/Store/Store1/Numbering.antt =====
-- Block numbers of a 1-dimensional array and the digits that they are made of.
use zfp.Prelude.{ℕ, ◌+◌, ◌/◌, ◌^◌, ◌<◌, ◌≡◌, refl, arith, u64, Bool-cases, inl, inr}
use zfp.Prelude.{◌==◌}
use zfp.Store.{BlockIndex}
use zfp.Store.Axis.{lacks, axis_shape}
use zfp.Store.Store1.{BlockStore1, blocks, block_index, block_shape, set_size}

-- The numbers of blocks are those of the dimensions, and all fit in a `size_t`.
pub record IsSized {I B : Type 0} (s : BlockStore1 I B) : Type 0 where
  pub x_blocks : s.bx ≡ (s.nx + 3) / 4
  pub x_fits : s.nx < 2 ^ 61

module _ {I B : Type 0} (s : BlockStore1 I B) (sized : IsSized s) where
  -- An element inside the array is in a block of the store.
  pub block_index-lt-blocks1 : (i : ℕ) → i < s.nx → block_index s i < blocks s
  unfolding blocks block_index
  block_index-lt-blocks1 i in_x = omega (arith, sized.x_blocks)

  -- In a store whose numbers of blocks fit, the shape of the block of an element inside the
  -- array is how many elements the block lacks along each axis, two bits each.
  block_shape-block_index1 : (i : ℕ) → i < s.nx → block_shape s (block_index s i) ≡ lacks i s.nx
  unfolding block_shape block_index
  block_shape-block_index1 i in_x = axis_shape (i / 4) i s.nx refl in_x sized.x_fits

wrap : (n : ℕ) → n < 2 ^ 61 → u64 (n + 3) / 4 ≡ (n + 3) / 4
wrap n p = omega arith

-- `set_size` establishes the numbers of blocks, unless a dimension or their product is too large.
pub set_size-IsSized1 :
    {I B : Type 0} (ops : BlockIndex I) (s : BlockStore1 I B) (nx : ℕ)
    → nx < 2 ^ 61
    → IsSized (set_size ops s nx)
unfolding set_size
set_size-IsSized1 ops s nx x_fits = elim (Bool-cases ((nx == 0))) [
  | inl empty ↦ rw empty (record { x_blocks = omega arith; x_fits = omega arith })
  | inr some_elements ↦ rw some_elements (record { x_blocks = omega arith; x_fits = x_fits })
]
