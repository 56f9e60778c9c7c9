-- ===== src/Store/Store4/Numbering.antt =====
-- Block numbers of a 4-dimensional array and the digits that they are made of.
use zfp.Prelude.{
  ℕ, ◌+◌, ◌*◌, ◌/◌, ◌%◌, ◌^◌, ◌<◌, ◌≡◌, arith, ap, sym, ◌∙◌, u64, Bool-cases, inl, inr, ◌≢◌, ◌⊎◌,
  refl,
}
use zfp.Prelude.{◌||◌, ◌==◌}
use zfp.Store.{BlockIndex}
use zfp.Store.Axis.{digit-lt, low_digit, high_digit, lacks, axis_shape, lacks-lt}
use zfp.Store.Store4.{BlockStore4, blocks, block_index, block_shape, set_size}
use native.Mathlib.Nat.{mod-eq_of_lt, mul_assoc}

-- The numbers of blocks are those of the dimensions, and all fit in a `size_t`.
pub record IsSized {I B : Type 0} (s : BlockStore4 I B) : Type 0 where
  pub x_blocks : s.bx ≡ (s.nx + 3) / 4
  pub y_blocks : s.by ≡ (s.ny + 3) / 4
  pub z_blocks : s.bz ≡ (s.nz + 3) / 4
  pub w_blocks : s.bw ≡ (s.nw + 3) / 4
  pub x_fits : s.nx < 2 ^ 61
  pub y_fits : s.ny < 2 ^ 61
  pub z_fits : s.nz < 2 ^ 61
  pub w_fits : s.nw < 2 ^ 61
  pub fits : s.bx * s.by * s.bz * s.bw < 2 ^ 64

module _ {I B : Type 0} (s : BlockStore4 I B) (sized : IsSized s) where
  flat-lt :
      (i j k l : ℕ)
      → i < s.nx
      → j < s.ny
      → k < s.nz
      → l < s.nw
      → i / 4 + s.bx * (j / 4 + s.by * (k / 4 + s.bz * (l / 4))) < s.bx * s.by * s.bz * s.bw
  flat-lt i j k l in_x in_y in_z in_w = omega (
    arith,
    bound,
    mul_assoc s.bx s.by s.bz,
    mul_assoc (s.bx * s.by) s.bz s.bw,
    mul_assoc s.bx s.by (s.bz * s.bw),
  )
    where
      bound :
          i / 4 + s.bx * (j / 4 + s.by * (k / 4 + s.bz * (l / 4))) < s.bx * (s.by * (s.bz * s.bw))
      bound = digit-lt (omega (arith, sized.x_blocks)) (
          digit-lt (omega (arith, sized.y_blocks))
            (digit-lt (omega (arith, sized.z_blocks)) (omega (arith, sized.w_blocks))))

  unwrapped :
      (i j k l : ℕ)
      → i < s.nx
      → j < s.ny
      → k < s.nz
      → l < s.nw
      → block_index s i j k l ≡ i / 4 + s.bx * (j / 4 + s.by * (k / 4 + s.bz * (l / 4)))
  unfolding block_index
  unwrapped i j k l in_x in_y in_z in_w =
      mod-eq_of_lt (omega (arith, flat-lt i j k l in_x in_y in_z in_w, sized.fits))

  -- An element inside the array is in a block of the store.
  pub block_index-lt-blocks4 :
      (i j k l : ℕ) → i < s.nx → j < s.ny → k < s.nz → l < s.nw → block_index s i j k l < blocks s
  unfolding blocks
  block_index-lt-blocks4 i j k l in_x in_y in_z in_w = omega (
    arith,
    unwrapped i j k l in_x in_y in_z in_w,
    flat-lt i j k l in_x in_y in_z in_w,
    mod-eq_of_lt sized.fits,
  )

  digits :
      (i j k l : ℕ)
      → i < s.nx
      → j < s.ny
      → k < s.nz
      → l < s.nw
      → (block_index s i j k l % s.bx ≡ i / 4)
        × (block_index s i j k l / s.bx % s.by ≡ j / 4)
        × (block_index s i j k l / s.bx / s.by % s.bz ≡ k / 4)
        × (block_index s i j k l / s.bx / s.by / s.bz ≡ l / 4)
  digits i j k l in_x in_y in_z in_w =
      let i_lt : i / 4 < s.bx = omega (arith, sized.x_blocks) in
      let j_lt : j / 4 < s.by = omega (arith, sized.y_blocks) in
      let k_lt : k / 4 < s.bz = omega (arith, sized.z_blocks) in
      (
        ap (λ z. z % s.bx) (unwrapped i j k l in_x in_y in_z in_w)
            ∙ low_digit (j / 4 + s.by * (k / 4 + s.bz * (l / 4))) i_lt,
        ap (λ z. z / s.bx % s.by) (unwrapped i j k l in_x in_y in_z in_w)
            ∙ ap (λ z. z % s.by) (high_digit (j / 4 + s.by * (k / 4 + s.bz * (l / 4))) i_lt)
            ∙ low_digit (k / 4 + s.bz * (l / 4)) j_lt,
        ap (λ z. z / s.bx / s.by % s.bz) (unwrapped i j k l in_x in_y in_z in_w)
            ∙ ap (λ z. z / s.by % s.bz) (high_digit (j / 4 + s.by * (k / 4 + s.bz * (l / 4))) i_lt)
            ∙ ap (λ z. z % s.bz) (high_digit (k / 4 + s.bz * (l / 4)) j_lt)
            ∙ low_digit (l / 4) k_lt,
        ap (λ z. z / s.bx / s.by / s.bz) (unwrapped i j k l in_x in_y in_z in_w)
            ∙ ap (λ z. z / s.by / s.bz) (high_digit (j / 4 + s.by * (k / 4 + s.bz * (l / 4))) i_lt)
            ∙ ap (λ z. z / s.bz) (high_digit (k / 4 + s.bz * (l / 4)) j_lt)
            ∙ ap (λ z. z) (high_digit (l / 4) k_lt),
      )

  -- In a store whose numbers of blocks fit, two elements inside the array that are in one
  -- block agree in every coordinate divided by 4.
  pub block_index-injective4 :
      (i j k l i' j' k' l' : ℕ)
      → i < s.nx
      → j < s.ny
      → k < s.nz
      → l < s.nw
      → i' < s.nx
      → j' < s.ny
      → k' < s.nz
      → l' < s.nw
      → block_index s i j k l ≡ block_index s i' j' k' l'
      → (i / 4 ≡ i' / 4) × (j / 4 ≡ j' / 4) × (k / 4 ≡ k' / 4) × (l / 4 ≡ l' / 4)
  block_index-injective4 i j k l i' j' k' l' in_x in_y in_z in_w in_x' in_y' in_z' in_w' same =
      let here = digits i j k l in_x in_y in_z in_w in
      let there = digits i' j' k' l' in_x' in_y' in_z' in_w' in
      (
        sym here.0 ∙ ap (λ z. z % s.bx) same ∙ there.0,
        sym here.1 ∙ ap (λ z. z / s.bx % s.by) same ∙ there.1,
        sym here.2 ∙ ap (λ z. z / s.bx / s.by % s.bz) same ∙ there.2,
        sym here.3 ∙ ap (λ z. z / s.bx / s.by / s.bz) same ∙ there.3,
      )

  -- In a store whose numbers of blocks fit, the shape of the block of an element inside the
  -- array is how many elements the block lacks along each axis, two bits each.
  pub block_shape-block_index4 :
      (i j k l : ℕ)
      → i < s.nx
      → j < s.ny
      → k < s.nz
      → l < s.nw
      → block_shape s (block_index s i j k l)
        ≡ lacks i s.nx + 4 * (lacks j s.ny + 4 * (lacks k s.nz + 4 * (lacks l s.nw)))
  unfolding block_shape
  block_shape-block_index4 i j k l in_x in_y in_z in_w =
      let q = digits i j k l in_x in_y in_z in_w in
      omega (
        arith,
        axis_shape _ i s.nx q.0 in_x sized.x_fits,
        lacks-lt i s.nx in_x,
        axis_shape _ j s.ny q.1 in_y sized.y_fits,
        lacks-lt j s.ny in_y,
        axis_shape _ k s.nz q.2 in_z sized.z_fits,
        lacks-lt k s.nz in_z,
        axis_shape _ l s.nw q.3 in_w sized.w_fits,
        lacks-lt l s.nw in_w,
      )

wrap : (n : ℕ) → n < 2 ^ 61 → u64 (n + 3) / 4 ≡ (n + 3) / 4
wrap n p = omega arith

-- The dimensions of a store.
pub HasSize : {I B : Type 0} → BlockStore4 I B → ℕ → ℕ → ℕ → ℕ → Type 0
HasSize s nx ny nz nw = (s.nx ≡ nx) × (s.ny ≡ ny) × (s.nz ≡ nz) × (s.nw ≡ nw)

-- `set_size`, if every dimension is less than 2^61 and the product of the numbers of blocks is less
-- than 2^64, gives the store the dimensions, or no elements at all if one of them is 0, with the
-- numbers of blocks that belong to them, resizes the index to the product of the numbers of
-- blocks, and keeps the buffer.
pub set_size-IsSized4 :
    {I B : Type 0} (ops : BlockIndex I) (s : BlockStore4 I B) (nx ny nz nw : ℕ)
    → nx < 2 ^ 61
    → ny < 2 ^ 61
    → nz < 2 ^ 61
    → nw < 2 ^ 61
    → ((nx + 3) / 4) * ((ny + 3) / 4) * ((nz + 3) / 4) * ((nw + 3) / 4) < 2 ^ 64
    → let s' = set_size ops s nx ny nz nw in
      IsSized s'
      × (((nx ≢ 0) × (ny ≢ 0) × (nz ≢ 0) × (nw ≢ 0) × HasSize s' nx ny nz nw)
          ⊎ (((nx ≡ 0) ⊎ ((ny ≡ 0) ⊎ ((nz ≡ 0) ⊎ (nw ≡ 0)))) × HasSize s' 0 0 0 0))
      × (s'.index ≡ ops.resize s.index (s'.bx * s'.by * s'.bz * s'.bw))
      × (s'.buffer ≡ s.buffer)
unfolding set_size blocks HasSize
set_size-IsSized4 ops s nx ny nz nw x_fits y_fits z_fits w_fits fits =
    elim (Bool-cases ((nx == 0) || (ny == 0) || (nz == 0) || (nw == 0))) [
      | inl empty ↦ rw empty (
        record {
          x_blocks = omega arith;
          y_blocks = omega arith;
          z_blocks = omega arith;
          w_blocks = omega arith;
          x_fits = omega arith;
          y_fits = omega arith;
          z_fits = omega arith;
          w_fits = omega arith;
          fits = omega arith;
        },
        inr (ground (arith, empty), (refl, refl, refl, refl)),
        refl,
        refl,
      )
      | inr some_elements ↦
          let product : u64 (nx + 3)
                / 4
                * (u64 (ny + 3) / 4)
                * (u64 (nz + 3) / 4)
                * (u64 (nw + 3) / 4)
              < 2 ^ 64 =
            rw (wrap nx x_fits)
              (rw (wrap ny y_fits) (rw (wrap nz z_fits) (rw (wrap nw w_fits) fits))) in
          rw some_elements (
            record {
              x_blocks = omega arith;
              y_blocks = omega arith;
              z_blocks = omega arith;
              w_blocks = omega arith;
              x_fits = x_fits;
              y_fits = y_fits;
              z_fits = z_fits;
              w_fits = w_fits;
              fits = product;
            },
            inl (
              ground (arith, some_elements),
              ground (arith, some_elements),
              ground (arith, some_elements),
              ground (arith, some_elements),
              (refl, refl, refl, refl),
            ),
            ap (ops.resize s.index) (mod-eq_of_lt product),
            refl,
          )
    ]
