-- ===== src/Index/Hybrid8.antt =====
-- The class `hybrid8<dims>` of include/zfp/index.hpp: eight blocks to a chunk of two 64-bit words,
-- which hold the high and the low bits of the chunk's offset and of its first seven block sizes.
-- `resize` leaves the words and the buffer unspecified, so the new words are an argument.
use zfp.Prelude.{ℕ, zero, suc, ◌+◌, ◌-◌, ◌*◌, ◌/◌, ◌%◌, ◌^◌, Bool, true, List, get_or, set, u64}
use zfp.Prelude.{sub64, leb, ltb, ◌==◌, ◌!=◌, ◌&&◌, if◌then◌else◌, bit_and, bit_xor, ◌<<<◌, ◌>>>◌}
use zfp.Index.Outcome.{
  Outcome, done, throw, sequential_build, index_overflow, block_size_too_large,
  block_offset_too_large, ◌>>=◌,
}

pub record Hybrid8 : Type 0 where
  pub words : List ℕ
  pub blocks : ℕ
  pub block : ℕ
  pub end : ℕ
  pub ptr : ℕ
  pub buffer : List ℕ

abbrev pub lbits : ℕ
lbits = 8

abbrev pub hbits : ℕ → ℕ
hbits dims = 2 * (dims - 1)

unfoldable pub capacity : ℕ → ℕ
capacity blocks = 2 * ((blocks + 7) / 8)

unfoldable pub range : Hybrid8 → ℕ
range self = self.end

unfoldable pub clear : Hybrid8 → Hybrid8
clear self = record self { block = 0; ptr = 0; end = 0 }

unfoldable pub resize : Hybrid8 → ℕ → List ℕ → Hybrid8
unfolding clear
resize self blocks fresh = clear (record self { blocks = blocks; words = fresh })

-- The sum of eight packed bytes.
unfoldable pub lsum : ℕ → ℕ
lsum x₀ =
    let y = bit_and x₀ 0xff00_ff00_ff00_ff00 in
    let x₁ = sub64 x₀ y in
    let x₂ = u64 (x₁ + (y >>> 8)) in
    let x₃ = u64 (x₂ + (x₂ >>> 16)) in let x₄ = u64 (x₃ + (x₃ >>> 32)) in bit_and x₄ 0xffff

-- One of the three summations of `sum8`: the fields that the mask selects go to the others.
unfoldable pub fold_fields : ℕ → ℕ → ℕ → ℕ
fold_fields mask n x = let y = bit_and x mask in u64 (sub64 x y + (y >>> n))

-- The sum of eight packed n-bit numbers.
unfoldable pub sum8 : ℕ → ℕ → ℕ
unfolding fold_fields
sum8 x n =
    let m₃ = u64 ((2 ^ 64 - 1) <<< (4 * n)) in
    let m₂ = bit_xor m₃ (u64 (m₃ <<< (4 * n))) in
    let m₁ = bit_xor m₂ (m₂ >>> (2 * n)) in
    let m₀ = bit_xor m₁ (m₁ >>> (1 * n)) in
    fold_fields m₂ (4 * n) (fold_fields m₁ (2 * n) (fold_fields m₀ n x))

module _ (dims : ℕ) where
  unfoldable pub hsum : ℕ → ℕ
  unfolding sum8
  hsum x = sum8 x (hbits dims)

  -- The size of block `k` of a chunk, `k` at most 6.
  unfoldable pub size : ℕ → ℕ → ℕ → ℕ
  size h l k =
      let h' = bit_and (h >>> ((6 - k) * hbits dims)) (2 ^ hbits dims - 1) in
      let l' = bit_and (l >>> ((6 - k) * lbits)) (2 ^ lbits - 1) in u64 (u64 (h' <<< lbits) + l')

  -- The offset of block `k` of a chunk, `k` at most 7.
  unfoldable pub offset : ℕ → ℕ → ℕ → ℕ
  unfolding hsum lsum
  offset h l k =
      let base = h >>> (8 * hbits dims) in
      let h' = hsum (sub64 h (u64 (base <<< (8 * hbits dims))) >>> ((7 - k) * hbits dims)) in
      let l' = lsum (l >>> ((7 - k) * lbits)) in
      u64 (u64 (u64 (u64 (base <<< hbits dims) + h') <<< lbits) + l')

  unfoldable pub block_offset : Hybrid8 → ℕ → ℕ
  block_offset self block_index =
      if block_index == self.block
      then self.end
      else (let chunk : ℕ = block_index / 8 in
          let which : ℕ = block_index % 8 in
          offset (get_or self.words (2 * chunk + 0) 0) (get_or self.words (2 * chunk + 1) 0) which)

  unfoldable pub block_size : Hybrid8 → ℕ → ℕ
  block_size self block_index =
      let chunk : ℕ = block_index / 8 in
      let which : ℕ = block_index % 8 in
      if which == 7
      then sub64 (block_offset self (block_index + 1)) (block_offset self block_index)
      else size (get_or self.words (2 * chunk + 0) 0) (get_or self.words (2 * chunk + 1) 0) which

  -- The loop that stores the sizes of blocks `k` to 6: the new `ptr`, `hi` and `lo`.
  unfoldable pub pack : ℕ → ℕ → List ℕ → ℕ → ℕ → ℕ → ℕ × ℕ × ℕ
  pack zero k buffer ptr hi lo = (ptr, hi, lo)
  pack (suc rounds) k buffer ptr hi lo =
      let size = get_or buffer k 0 in
      let h = size >>> lbits in
      let l = sub64 size (u64 (h <<< lbits)) in
      pack rounds (k + 1) buffer (u64 (ptr + size)) (u64 (hi + u64 (h <<< ((6 - k) * hbits dims))))
        (u64 (lo + u64 (l <<< ((6 - k) * lbits))))

  -- What is done when the chunk is complete, before `block++`.
  unfoldable pub store_chunk : Hybrid8 → Outcome Hybrid8
  store_chunk self =
      let h = self.ptr >>> lbits in
      let l = sub64 self.ptr (u64 (h <<< lbits)) in
      let hi = u64 (h <<< (7 * hbits dims)) in
      let lo = u64 (l <<< (7 * lbits)) in
      if (hi >>> (7 * hbits dims)) != h
      then throw block_offset_too_large self
      else (let chunk : ℕ = self.block / 8 in
          let (ptr, hi', lo') = pack 7 0 self.buffer self.ptr hi lo in
          done (record self {
            ptr = u64 (ptr + get_or self.buffer 7 0);
            words = set (set self.words (2 * chunk + 0) hi') (2 * chunk + 1) lo';
          }))

  -- `set_block_size(block_index, size)`
  unfoldable pub set_block_size : Hybrid8 → ℕ → ℕ → Outcome Hybrid8
  set_block_size self block_index size =
      if block_index != self.block
      then throw sequential_build self
      else if leb self.blocks self.block && (size != 0)
      then throw index_overflow self
      else if (size >>> (hbits dims + lbits)) != 0
      then throw block_size_too_large self
      else (let which : ℕ = self.block % 8 in
          let buffered : Hybrid8 = record self {
            end = u64 (self.end + size);
            buffer = set self.buffer which size;
          } in
          let stored = if which == 7 then store_chunk buffered else done buffered in
          stored >>= λ s. done (record s { block = s.block + 1 }))

  -- The loop of `flush`; at most seven blocks are missing from the last chunk.
  unfoldable pub pad : ℕ → Hybrid8 → Outcome Hybrid8
  pad zero self = done self
  pad (suc fuel) self = elim (bit_and self.block 7 != 0) [
    | true ↦ set_block_size self self.block 0 >>= pad fuel
    | _ ↦ done self
  ]

  unfoldable pub flush : Hybrid8 → Outcome Hybrid8
  flush self = pad 7 self

  -- The loop of `set_block_size(size)`; each round raises `block` by one.
  unfoldable pub fill : ℕ → ℕ → Hybrid8 → Outcome Hybrid8
  fill zero size self = done self
  fill (suc fuel) size self = elim (ltb self.block self.blocks) [
    | true ↦ set_block_size self self.block size >>= fill fuel size
    | _ ↦ done self
  ]

  -- `set_block_size(size)`
  unfoldable pub set_all_block_sizes : Hybrid8 → ℕ → Outcome Hybrid8
  set_all_block_sizes self size = fill self.blocks size (clear self) >>= λ filled.
      flush filled >>= λ flushed. done (clear flushed)

unfoldable pub has_variable_rate : Bool
has_variable_rate = true
