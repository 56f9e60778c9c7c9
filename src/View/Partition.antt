-- ===== src/View/Partition.antt =====
-- The pieces of a partition.
use zfp.Prelude.{
  ℕ, zero, suc, ◌+◌, ◌-◌, ◌*◌, ◌/◌, ◌%◌, ◌^◌, ◌≤◌, ◌<◌, ◌≡◌, ap, ◌∙◌, arith, min, max, u64,
}
use zfp.Prelude.{sub64}
use native.Mathlib.Nat.{
  add-div_right, mul-div_cancel, div-le_of_le-mul, div-lt_iff_lt-mul, mod-add-div, mod-lt, mul_comm,
  add-mul, mul-le-mul_left, mul-zero, zero-div, mul-add, mul-one,
}
use zfp.View.{cut_at, partition}

div_mono : (a b k : ℕ) → 1 ≤ k → a ≤ b → a / k ≤ b / k
div_mono a b k some less =
    let below : a < (b / k + 1) * k = omega (
      arith,
      less,
      mod-add-div b k,
      mod-lt b {m = k} some,
      mul_comm k (b / k),
      add-mul (b / k) 1 k,
    ) in
    omega (arith, (div-lt_iff_lt-mul {k = k} some).1 below)

module _ (offset size count : ℕ) where
  -- The blocks that the range touches.
  blocks : ℕ
  blocks = (offset + size + 3) / 4 - offset / 4

  -- There are no more pieces than blocks, and the arithmetic stays in 64 bits.
  pub record IsDivisible : Type 0 where
    pub some : 1 ≤ size
    pub pieces : 1 ≤ count
    pub few : count ≤ (offset + size + 3) / 4 - offset / 4
    pub small : offset + size + 3 < 2 ^ 62
    pub bounded : ((offset + size + 3) / 4 - offset / 4) * count < 2 ^ 62

  -- The first block of a piece.
  first : ℕ → ℕ
  first index = offset / 4 + blocks * index / count

  cut_at_lem :
      (h : IsDivisible) (index : ℕ)
      → index ≤ count
      → (cut_at offset size index count ≡ 4 * first index) × (first index ≤ (offset + size + 3) / 4)
  unfolding cut_at first blocks
  cut_at_lem h index inside =
      let n = (offset + size + 3) / 4 - offset / 4 in
      let below : n * index ≤ n * count = mul-le-mul_left {m = index} {n = count} n inside in
      let quotient : n * index / count ≤ n =
        div-le_of_le-mul count {m = n * index} {n = n} (omega (arith, below, mul_comm n count)) in
      let blocks_here : sub64 (u64 (offset + size + 3) / 4) (offset / 4) ≡ n =
        omega (arith, h.small) in
      (
        ap (λ b. u64 (4 * u64 (offset / 4 + u64 (b * index) / count))) blocks_here
            ∙ ap (λ p. u64 (4 * u64 (offset / 4 + p / count))) {x = u64 (n * index)} {y = n * index}
                (omega (arith, below, h.bounded))
            ∙ omega (arith, quotient, h.small),
        omega (arith, quotient),
      )

  first_zero : first 0 ≡ offset / 4
  unfolding first
  first_zero = omega (arith, ap (λ p. p / count) (mul-zero blocks), zero-div count)

  first_last : 1 ≤ count → first count ≡ offset / 4 + blocks
  unfolding first
  first_last some = omega (arith, mul-div_cancel blocks {n = count} some)

  first_more : IsDivisible → (index : ℕ) → first index < first (suc index)
  unfolding first blocks
  first_more h index =
      let n = (offset + size + 3) / 4 - offset / 4 in
      let step : n * suc index ≡ n * index + n =
        ap (λ m. n * m) {x = suc index} {y = index + 1} (omega arith)
        ∙ mul-add n index 1
        ∙ ap (λ m. n * index + m) (mul-one n) in
      let next : n * index / count + 1 ≤ n * suc index / count = omega (
        arith,
        add-div_right (n * index) {k = count} h.pieces,
        div_mono (n * index + count) (n * suc index) count h.pieces (omega (arith, step, h.few)),
      ) in
      omega (arith, next)

  first_grows : IsDivisible → (index more : ℕ) → first index + more ≤ first (index + more)
  first_grows h index zero = omega (arith, ap first {x = index} {y = index + 0} (omega arith))
  first_grows h index (suc more) = omega (
    arith,
    first_grows h index more,
    first_more h (index + more),
    ap first {x = suc (index + more)} {y = index + suc more} (omega arith),
  )

  -- Where piece number `index` begins and the one before ends.
  edge : ℕ → ℕ
  edge index = min (offset + size) (max offset (4 * first index))

  last_block : IsDivisible → first count ≡ (offset + size + 3) / 4
  unfolding blocks
  last_block h = omega (arith, first_last h.pieces, h.some)

  -- A later block than the first, and one before the last.
  inside_blocks :
      (h : IsDivisible) (index : ℕ)
      → index ≤ count
      → (offset / 4 + index ≤ first index)
        × (first index + (count - index) ≤ (offset + size + 3) / 4)
  inside_blocks h index inside = (
    omega (
      arith,
      first_zero,
      first_grows h 0 index,
      ap first {x = 0 + index} {y = index} (omega arith),
    ),
    omega (
      arith,
      last_block h,
      first_grows h index (count - index),
      ap first {x = index + (count - index)} {y = count} (omega (arith, inside)),
    ),
  )

  piece :
      (h : IsDivisible) (index : ℕ)
      → index < count
      → (partition offset size index count ≡ (edge index, edge (suc index) - edge index))
        × (edge index < edge (suc index))
  unfolding partition edge
  piece h index inside =
      let (here, low) = cut_at_lem h index (omega (arith, inside)) in
      let (there, high) = cut_at_lem h (suc index) inside in
      let more = first_more h index in
      let (left, right) = inside_blocks h index (omega (arith, inside)) in
      let (left', right') = inside_blocks h (suc index) inside in
      let start : max (u64 (offset + 0)) (cut_at offset size (u64 (index + 0)) count) ≡ edge index =
        omega (
          arith,
          ap (λ i. cut_at offset size i count) {x = u64 (index + 0)} {y = index}
              (omega (arith, inside, h.few, h.small)),
          here,
          left,
          right,
          inside,
          h.small,
        ) in
      let stop : min (u64 (offset + size)) (cut_at offset size (u64 (index + 1)) count)
          ≡ edge (suc index) =
        omega (
          arith,
          ap (λ i. cut_at offset size i count) {x = u64 (index + 1)} {y = suc index}
              (omega (arith, inside, h.few, h.small)),
          there,
          left',
          right',
          h.small,
          h.some,
        ) in
      let grows : edge index < edge (suc index) =
        omega (arith, more, left, right, left', right', inside, h.some) in
      (
        ap
              (λ a. (
                a,
                sub64 (min (u64 (offset + size)) (cut_at offset size (u64 (index + 1)) count)) a,
              ))
              start
            ∙ ap (λ b. (edge index, sub64 b (edge index))) stop
            ∙ ap (λ n. (edge index, n)) (omega (arith, grows, h.small)),
        grows,
      )

  -- The pieces of a partition tile the range, if there are no more of them than blocks that the
  -- range touches, and the end of the range and the number of blocks times pieces are below 2^62:
  -- there are edges, from the begin of the range to its end, each between two pieces a multiple of
  -- four, such that each piece has an element and goes from one edge to the next.
  pub partition-edges :
      IsDivisible
      → (edges : ℕ → ℕ) × (edges 0 ≡ offset)
        × (edges count ≡ offset + size)
        × ((index : ℕ) → 1 ≤ index → index < count → edges index % 4 ≡ 0)
        × ((index : ℕ)
            → index < count
            → (partition offset size index count ≡ (edges index, edges (suc index) - edges index))
              × (edges index < edges (suc index)))
  unfolding edge
  partition-edges h = (
    edge,
    omega (arith, first_zero, h.some),
    omega (arith, last_block h),
    λ index some inside.
        let (left, right) = inside_blocks h index (omega (arith, inside)) in
        omega (arith, left, right, some, inside),
    piece h,
  )
