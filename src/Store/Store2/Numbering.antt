-- ===== src/Store/Store2/Numbering.antt =====
-- Block numbers of a 2-dimensional array and the digits that they are made of.
use zfp.Prelude.{
  ℕ, ◌+◌, ◌*◌, ◌/◌, ◌%◌, ◌^◌, ◌<◌, ◌≡◌, arith, ap, sym, ◌∙◌, u64, Bool-cases, inl, inr,
}
use zfp.Prelude.{◌||◌, ◌==◌}
use zfp.Store.{BlockIndex}
use zfp.Store.Axis.{digit-lt, low_digit, high_digit, lacks, axis_shape, lacks-lt}
use zfp.Store.Store2.{BlockStore2, blocks, block_index, block_shape, set_size}
use native.Mathlib.Nat.{mod-eq_of_lt}

-- The numbers of blocks are those of the dimensions, and all fit in a `size_t`.
pub record IsSized {I B : Type 0} (s : BlockStore2 I B) : Type 0 where
  pub x_blocks : s.bx ≡ (s.nx + 3) / 4
  pub y_blocks : s.by ≡ (s.ny + 3) / 4
  pub x_fits : s.nx < 2 ^ 61
  pub y_fits : s.ny < 2 ^ 61
  pub fits : s.bx * s.by < 2 ^ 64

module _ {I B : Type 0} (s : BlockStore2 I B) (sized : IsSized s) where
  flat-lt : (i j : ℕ) → i < s.nx → j < s.ny → i / 4 + s.bx * (j / 4) < s.bx * s.by
  flat-lt i j in_x in_y = omega (arith, bound)
    where
      bound : i / 4 + s.bx * (j / 4) < s.bx * s.by
      bound = digit-lt (omega (arith, sized.x_blocks)) (omega (arith, sized.y_blocks))

  unwrapped : (i j : ℕ) → i < s.nx → j < s.ny → block_index s i j ≡ i / 4 + s.bx * (j / 4)
  unfolding block_index
  unwrapped i j in_x in_y = mod-eq_of_lt (omega (arith, flat-lt i j in_x in_y, sized.fits))

  -- An element inside the array is in a block of the store.
  pub block_index-lt-blocks2 : (i j : ℕ) → i < s.nx → j < s.ny → block_index s i j < blocks s
  unfolding blocks
  block_index-lt-blocks2 i j in_x in_y =
      omega (arith, unwrapped i j in_x in_y, flat-lt i j in_x in_y, mod-eq_of_lt sized.fits)

  digits :
      (i j : ℕ)
      → i < s.nx
      → j < s.ny
      → (block_index s i j % s.bx ≡ i / 4) × (block_index s i j / s.bx ≡ j / 4)
  digits i j in_x in_y =
      let i_lt : i / 4 < s.bx = omega (arith, sized.x_blocks) in
      (
        ap (λ z. z % s.bx) (unwrapped i j in_x in_y) ∙ low_digit (j / 4) i_lt,
        ap (λ z. z / s.bx) (unwrapped i j in_x in_y) ∙ ap (λ z. z) (high_digit (j / 4) i_lt),
      )

  -- In a store whose numbers of blocks fit, two elements inside the array that are in one
  -- block agree in every coordinate divided by 4.
  pub block_index-injective2 :
      (i j i' j' : ℕ)
      → i < s.nx
      → j < s.ny
      → i' < s.nx
      → j' < s.ny
      → block_index s i j ≡ block_index s i' j'
      → (i / 4 ≡ i' / 4) × (j / 4 ≡ j' / 4)
  block_index-injective2 i j i' j' in_x in_y in_x' in_y' same =
      let here = digits i j in_x in_y in
      let there = digits i' j' in_x' in_y' in
      (
        sym here.0 ∙ ap (λ z. z % s.bx) same ∙ there.0,
        sym here.1 ∙ ap (λ z. z / s.bx) same ∙ there.1,
      )

  -- In a store whose numbers of blocks fit, the shape of the block of an element inside the
  -- array is how many elements the block lacks along each axis, two bits each.
  block_shape-block_index2 :
      (i j : ℕ)
      → i < s.nx
      → j < s.ny
      → block_shape s (block_index s i j) ≡ lacks i s.nx + 4 * (lacks j s.ny)
  unfolding block_shape
  block_shape-block_index2 i j in_x in_y =
      let q = digits i j in_x in_y in
      omega (
        arith,
        axis_shape _ i s.nx q.0 in_x sized.x_fits,
        lacks-lt i s.nx in_x,
        axis_shape _ j s.ny q.1 in_y sized.y_fits,
        lacks-lt j s.ny in_y,
      )

wrap : (n : ℕ) → n < 2 ^ 61 → u64 (n + 3) / 4 ≡ (n + 3) / 4
wrap n p = omega arith

-- `set_size` establishes the numbers of blocks, if every dimension is less than 2^61 and the
-- product of the numbers of blocks is less than 2^64.
set_size-IsSized2 :
    {I B : Type 0} (ops : BlockIndex I) (s : BlockStore2 I B) (nx ny : ℕ)
    → nx < 2 ^ 61
    → ny < 2 ^ 61
    → ((nx + 3) / 4) * ((ny + 3) / 4) < 2 ^ 64
    → IsSized (set_size ops s nx ny)
unfolding set_size
set_size-IsSized2 ops s nx ny x_fits y_fits fits = elim (Bool-cases ((nx == 0) || (ny == 0))) [
  | inl empty ↦ rw empty (record {
    x_blocks = omega arith;
    y_blocks = omega arith;
    x_fits = omega arith;
    y_fits = omega arith;
    fits = omega arith;
  })
  | inr some_elements ↦ rw some_elements (record {
    x_blocks = omega arith;
    y_blocks = omega arith;
    x_fits = x_fits;
    y_fits = y_fits;
    fits = rw (wrap nx x_fits) (rw (wrap ny y_fits) (fits));
  })
]
