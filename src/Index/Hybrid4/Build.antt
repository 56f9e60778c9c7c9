-- ===== src/Index/Hybrid4/Build.antt =====
-- Building a hybrid4 index block by block, and reading it back.
use zfp.Prelude.{ℕ, zero, suc, ◌+◌, ◌*◌, ◌/◌, ◌%◌, ◌^◌, ◌≤◌, ◌<◌, ◌≡◌, refl, arith, ◌⊎◌, ◌≢◌}
use zfp.Prelude.{List, length, ap, inl, inr, ◌∙◌, bit_and, Bool-cases, true, false, ◌!=◌, get_or}
use zfp.Prelude.Bits.{low_bits}
use zfp.Index.Outcome.{Outcome, done, Returns, ◌>>=◌}
use zfp.Index.Offsets.{
  start, start-add-one, start_mono, start-past, size_at, size_at-past, Represents,
}
use zfp.Index.Hybrid4.{Hybrid4, no_chunk, max_bits, set_block_size, block_offset, block_size, range}
use zfp.Index.Hybrid4.{pad, flush, clear}
use zfp.Index.Hybrid4.Step.{Holds, step}

-- The calls that give the sizes of the first `n` blocks, in order.
unfoldable pub build : (ℕ → ℕ) → ℕ → Hybrid4 → Outcome Hybrid4
build s zero self = done self
build s (suc n) self = build s n self >>= λ built. set_block_size built n (s n)

pad_more :
    (fuel : ℕ) (self : Hybrid4)
    → (bit_and self.block 3 != 0) ≡ true
    → pad (suc fuel) self ≡ (set_block_size self self.block 0 >>= pad fuel)
unfolding pad
pad_more fuel self more = rw (more, pad)

pad_complete :
    (fuel : ℕ) (self : Hybrid4)
    → (bit_and self.block 3 != 0) ≡ false
    → pad (suc fuel) self ≡ done self
unfolding pad
pad_complete fuel self complete = rw (complete, pad)

module _ (s : ℕ → ℕ) (small : (i : ℕ) → s i ≤ max_bits) where
  abbrev Kept : ℕ → Hybrid4 → Hybrid4 → Type 0
  Kept n self next =
      Holds s n next × (next.blocks ≡ self.blocks) × (length next.chunks ≡ length self.chunks)

  clear-Holds : (self : Hybrid4) → length self.buffer ≡ 4 → Holds s 0 (clear self)
  unfolding clear
  clear-Holds self four = record {
    at = refl;
    end = refl;
    ptr = refl;
    buffered = λ w q. absurd (omega arith);
    four = four;
    stored = λ i q. absurd (omega arith);
  }

  build-Kept :
      (n : ℕ) (self : Hybrid4)
      → Holds s 0 self
      → n ≤ self.blocks
      → self.blocks ≤ 4 * length self.chunks
      → start s n < 2 ^ 44
      → Returns (build s n self) (Kept n self)
  unfolding build
  build-Kept zero self h room fits below = (self, refl, (h, refl, refl))
  build-Kept (suc n) self h room fits below =
      let (built, run, (held, blocks, chunks)) =
        build-Kept n self h (omega arith) fits (omega (arith, start_mono s n (suc n))) in
      let (next, run', (held', blocks', chunks')) =
        step s small n built held (inl (omega arith)) (omega arith) below in
      (next, rw run run', (held', blocks' ∙ blocks, chunks' ∙ chunks))

  -- Padding with empty blocks ends at the next multiple of four.
  pad-Kept :
      (fuel n t : ℕ) (self : Hybrid4)
      → Holds s n self
      → ((i : ℕ) → n ≤ i → s i ≡ 0)
      → n ≤ 4 * length self.chunks
      → start s n < 2 ^ 44
      → t ≡ (n + 3) / 4 * 4
      → t ≤ n + fuel
      → Returns (pad fuel self) (Kept t self)
  unfolding pad
  pad-Kept zero n t self h empty fits below e enough =
      let same : t ≡ n = omega arith in rw same (self, refl, (h, refl, refl))
  pad-Kept (suc fuel) n t self h empty fits below e enough =
      elim (Bool-cases (bit_and self.block 3 != 0)) [
        | inl more ↦
            let missing : n % 4 ≢ 0 = ground (arith, low_bits 2 self.block, h.at) in
            let none : s n ≡ 0 = empty n (omega arith) in
            let (next, run, (held, blocks, chunks)) =
              step s small n self h (inr none) (omega arith) (omega (arith, none)) in
            let (last, run', (held', blocks', chunks')) =
              pad-Kept fuel (suc n) t next held (λ i p. empty i (omega arith)) (omega arith)
                (omega (arith, none)) (omega arith) (omega arith) in
            let call : set_block_size self self.block 0 ≡ done next = cc (h.at, none, run) in
            (
              last,
              pad_more fuel self more ∙ ap (λ r. r >>= pad fuel) call ∙ run',
              (held', blocks' ∙ blocks, chunks' ∙ chunks),
            )
        | inr complete ↦
            let same : t ≡ n = ground (arith, low_bits 2 self.block, h.at) in
            rw same (self, pad_complete fuel self complete, (h, refl, refl))
      ]

  -- The chunks give back every offset and every size.
  offset-stored :
      (n i : ℕ) (self : Hybrid4)
      → Holds s n self
      → start s n < 2 ^ 44
      → i ≤ n
      → (i < 4 * (n / 4)) ⊎ (i ≡ n)
      → block_offset self i ≡ start s i
  unfolding block_offset
  offset-stored n i self h below le known =
      ground (arith, h.at, h.end, h.stored i, start_mono s i n le, ap (start s) {x = i} {y = n})

  size-stored :
      (n i : ℕ) (self : Hybrid4)
      → Holds s n self
      → start s n < 2 ^ 44
      → n % 4 ≡ 0
      → i < n
      → block_size self i ≡ s i
  unfolding block_size
  size-stored n i self h below whole lt = ground (
    arith,
    offset-stored n i self h below,
    offset-stored n (i + 1) self h below,
    start-add-one s i,
    start_mono s (i + 1) n,
    h.stored i,
    h.stored (i + 1),
    next_chunk,
    next_word,
  )
    where
      next_chunk :
          i % 4 ≢ 3
          → get_or self.chunks ((i + 1) / 4) no_chunk ≡ get_or self.chunks (i / 4) no_chunk
      next_chunk p = ap (λ (k : ℕ). get_or self.chunks k no_chunk) (omega arith)

      next_word :
          i % 4 ≢ 3
          → get_or (get_or self.chunks (i / 4) no_chunk).lo ((i + 1) % 4) 0
            ≡ get_or (get_or self.chunks (i / 4) no_chunk).lo (i % 4 + 1) 0
      next_word p =
          ap (λ (k : ℕ). get_or (get_or self.chunks (i / 4) no_chunk).lo k 0) (omega arith)

-- Giving the sizes of at most `blocks` blocks in order and flushing succeeds, if each size is at
-- most ZFP_MAX_BITS and the sizes add up to less than 2 ^ 44; the index then represents exactly
-- these blocks.
pub flush-build-Represents :
    (sizes : List ℕ) (self : Hybrid4)
    → length sizes ≤ self.blocks
    → self.blocks ≤ 4 * length self.chunks
    → length self.buffer ≡ 4
    → ((i : ℕ) → size_at sizes i ≤ max_bits)
    → start (size_at sizes) (length sizes) < 2 ^ 44
    → Returns
        (build (size_at sizes) (length sizes) (clear self) >>= flush)
        λ built. Represents sizes (block_offset built) (block_size built) (range built)
unfolding clear flush range
flush-build-Represents sizes self room fits four small below =
    let s : ℕ → ℕ = size_at sizes in
    let n : ℕ = length sizes in
    let t : ℕ = (n + 3) / 4 * 4 in
    let (built, run, (held, blocks, chunks)) =
      build-Kept s small n (clear self) (clear-Holds s small self four) room fits below in
    let (last, run', (held', blocks', chunks')) =
      pad-Kept s small 3 n t built held (size_at-past sizes) (omega arith) below refl
        (omega arith) in
    let same : start s t ≡ start s n = start-past sizes t (omega arith) in
    let below' : start s t < 2 ^ 44 = omega (arith, same) in
    (
      last,
      rw run run',
      record {
        offsets = λ i p. offset-stored s small t i last held' below' (omega arith) (omega arith);
        bit_sizes = λ i p. size-stored s small t i last held' below' (omega arith) (omega arith);
        whole = held'.end ∙ same;
      },
    )
