-- ===== src/Store/Store3/Numbering.antt =====
-- Block numbers of a 3-dimensional array and the digits that they are made of.
use zfp.Prelude.{
  ℕ, ◌+◌, ◌*◌, ◌/◌, ◌%◌, ◌^◌, ◌<◌, ◌≡◌, arith, ap, sym, ◌∙◌, u64, Bool-cases, inl, inr,
}
use zfp.Prelude.{◌||◌, ◌==◌}
use zfp.Store.{BlockIndex}
use zfp.Store.Axis.{digit-lt, low_digit, high_digit, lacks, axis_shape, lacks-lt}
use zfp.Store.Store3.{BlockStore3, blocks, block_index, block_shape, set_size}
use native.Mathlib.Nat.{mod-eq_of_lt, mul_assoc}

-- The numbers of blocks are those of the dimensions, and all fit in a `size_t`.
pub record IsSized {I B : Type 0} (s : BlockStore3 I B) : Type 0 where
  pub x_blocks : s.bx ≡ (s.nx + 3) / 4
  pub y_blocks : s.by ≡ (s.ny + 3) / 4
  pub z_blocks : s.bz ≡ (s.nz + 3) / 4
  pub x_fits : s.nx < 2 ^ 61
  pub y_fits : s.ny < 2 ^ 61
  pub z_fits : s.nz < 2 ^ 61
  pub fits : s.bx * s.by * s.bz < 2 ^ 64

module _ {I B : Type 0} (s : BlockStore3 I B) (sized : IsSized s) where
  flat-lt :
      (i j k : ℕ)
      → i < s.nx
      → j < s.ny
      → k < s.nz
      → i / 4 + s.bx * (j / 4 + s.by * (k / 4)) < s.bx * s.by * s.bz
  flat-lt i j k in_x in_y in_z = omega (arith, bound, mul_assoc s.bx s.by s.bz)
    where
      bound : i / 4 + s.bx * (j / 4 + s.by * (k / 4)) < s.bx * (s.by * s.bz)
      bound =
          digit-lt (omega (arith, sized.x_blocks))
            (digit-lt (omega (arith, sized.y_blocks)) (omega (arith, sized.z_blocks)))

  unwrapped :
      (i j k : ℕ)
      → i < s.nx
      → j < s.ny
      → k < s.nz
      → block_index s i j k ≡ i / 4 + s.bx * (j / 4 + s.by * (k / 4))
  unfolding block_index
  unwrapped i j k in_x in_y in_z =
      mod-eq_of_lt (omega (arith, flat-lt i j k in_x in_y in_z, sized.fits))

  -- An element inside the array is in a block of the store.
  pub block_index-lt-blocks3 :
      (i j k : ℕ) → i < s.nx → j < s.ny → k < s.nz → block_index s i j k < blocks s
  unfolding blocks
  block_index-lt-blocks3 i j k in_x in_y in_z =
      omega (
        arith,
        unwrapped i j k in_x in_y in_z,
        flat-lt i j k in_x in_y in_z,
        mod-eq_of_lt sized.fits,
      )

  digits :
      (i j k : ℕ)
      → i < s.nx
      → j < s.ny
      → k < s.nz
      → (block_index s i j k % s.bx ≡ i / 4)
        × (block_index s i j k / s.bx % s.by ≡ j / 4)
        × (block_index s i j k / s.bx / s.by ≡ k / 4)
  digits i j k in_x in_y in_z =
      let i_lt : i / 4 < s.bx = omega (arith, sized.x_blocks) in
      let j_lt : j / 4 < s.by = omega (arith, sized.y_blocks) in
      (
        ap (λ z. z % s.bx) (unwrapped i j k in_x in_y in_z)
            ∙ low_digit (j / 4 + s.by * (k / 4)) i_lt,
        ap (λ z. z / s.bx % s.by) (unwrapped i j k in_x in_y in_z)
            ∙ ap (λ z. z % s.by) (high_digit (j / 4 + s.by * (k / 4)) i_lt)
            ∙ low_digit (k / 4) j_lt,
        ap (λ z. z / s.bx / s.by) (unwrapped i j k in_x in_y in_z)
            ∙ ap (λ z. z / s.by) (high_digit (j / 4 + s.by * (k / 4)) i_lt)
            ∙ ap (λ z. z) (high_digit (k / 4) j_lt),
      )

  -- In a store whose numbers of blocks fit, two elements inside the array that are in one
  -- block agree in every coordinate divided by 4.
  pub block_index-injective3 :
      (i j k i' j' k' : ℕ)
      → i < s.nx
      → j < s.ny
      → k < s.nz
      → i' < s.nx
      → j' < s.ny
      → k' < s.nz
      → block_index s i j k ≡ block_index s i' j' k'
      → (i / 4 ≡ i' / 4) × (j / 4 ≡ j' / 4) × (k / 4 ≡ k' / 4)
  block_index-injective3 i j k i' j' k' in_x in_y in_z in_x' in_y' in_z' same =
      let here = digits i j k in_x in_y in_z in
      let there = digits i' j' k' in_x' in_y' in_z' in
      (
        sym here.0 ∙ ap (λ z. z % s.bx) same ∙ there.0,
        sym here.1 ∙ ap (λ z. z / s.bx % s.by) same ∙ there.1,
        sym here.2 ∙ ap (λ z. z / s.bx / s.by) same ∙ there.2,
      )

  -- In a store whose numbers of blocks fit, the shape of the block of an element inside the
  -- array is how many elements the block lacks along each axis, two bits each.
  block_shape-block_index3 :
      (i j k : ℕ)
      → i < s.nx
      → j < s.ny
      → k < s.nz
      → block_shape s (block_index s i j k) ≡ lacks i s.nx + 4 * (lacks j s.ny + 4 * (lacks k s.nz))
  unfolding block_shape
  block_shape-block_index3 i j k in_x in_y in_z =
      let q = digits i j k in_x in_y in_z in
      omega (
        arith,
        axis_shape _ i s.nx q.0 in_x sized.x_fits,
        lacks-lt i s.nx in_x,
        axis_shape _ j s.ny q.1 in_y sized.y_fits,
        lacks-lt j s.ny in_y,
        axis_shape _ k s.nz q.2 in_z sized.z_fits,
        lacks-lt k s.nz in_z,
      )

wrap : (n : ℕ) → n < 2 ^ 61 → u64 (n + 3) / 4 ≡ (n + 3) / 4
wrap n p = omega arith

-- `set_size` establishes the numbers of blocks, if every dimension is less than 2^61 and the
-- product of the numbers of blocks is less than 2^64.
set_size-IsSized3 :
    {I B : Type 0} (ops : BlockIndex I) (s : BlockStore3 I B) (nx ny nz : ℕ)
    → nx < 2 ^ 61
    → ny < 2 ^ 61
    → nz < 2 ^ 61
    → ((nx + 3) / 4) * ((ny + 3) / 4) * ((nz + 3) / 4) < 2 ^ 64
    → IsSized (set_size ops s nx ny nz)
unfolding set_size
set_size-IsSized3 ops s nx ny nz x_fits y_fits z_fits fits =
    elim (Bool-cases ((nx == 0) || (ny == 0) || (nz == 0))) [
      | inl empty ↦ rw empty (record {
        x_blocks = omega arith;
        y_blocks = omega arith;
        z_blocks = omega arith;
        x_fits = omega arith;
        y_fits = omega arith;
        z_fits = omega arith;
        fits = omega arith;
      })
      | inr some_elements ↦ rw some_elements (record {
        x_blocks = omega arith;
        y_blocks = omega arith;
        z_blocks = omega arith;
        x_fits = x_fits;
        y_fits = y_fits;
        z_fits = z_fits;
        fits = rw (wrap nx x_fits) (rw (wrap ny y_fits) (rw (wrap nz z_fits) (fits)));
      })
    ]
