-- ===== src/Index/Hybrid4.antt =====
-- The class `hybrid4` of include/zfp/index.hpp: four blocks to a chunk, whose record holds the
-- 32 high bits of a 44-bit offset and four 16-bit offsets from there.
-- `resize` leaves the chunks and the buffer unspecified, so the new chunks are an argument.
pub mod Chunks
pub mod Step
pub mod Build
use zfp.Prelude.{ℕ, zero, suc, ◌+◌, ◌-◌, ◌*◌, ◌/◌, ◌%◌, ◌^◌, Bool, true, List, [], ◌∷◌, get_or}
use zfp.Prelude.{set, u16, u32, u64, sub64, ltb, leb, ◌==◌, ◌!=◌, ◌&&◌, if◌then◌else◌, bit_and}
use zfp.Prelude.{◌<<<◌, ◌>>>◌}
use zfp.Index.Outcome.{
  Outcome, done, throw, sequential_build, index_overflow, block_size_too_large,
  block_offset_too_large, ◌>>=◌,
}

-- `record`: hi, and the four words of lo
pub record Chunk : Type 0 where
  pub hi : ℕ
  pub lo : List ℕ

abbrev pub no_chunk : Chunk
no_chunk = record { hi = 0; lo = [] }

pub record Hybrid4 : Type 0 where
  pub chunks : List Chunk
  pub blocks : ℕ
  pub block : ℕ
  pub end : ℕ
  pub ptr : ℕ
  pub buffer : List ℕ

abbrev pub shift : ℕ
shift = 12

-- ZFP_MAX_BITS of include/zfp.h
abbrev pub max_bits : ℕ
max_bits = 16658

unfoldable pub capacity : ℕ → ℕ
capacity blocks = (blocks + 3) / 4

unfoldable pub range : Hybrid4 → ℕ
range self = self.end

unfoldable pub block_offset : Hybrid4 → ℕ → ℕ
block_offset self block_index =
    if block_index == self.block
    then self.end
    else (let chunk = get_or self.chunks (block_index / 4) no_chunk in
        u64 (u64 (chunk.hi <<< shift) + get_or chunk.lo (block_index % 4) 0))

unfoldable pub block_size : Hybrid4 → ℕ → ℕ
block_size self block_index =
    let chunk = get_or self.chunks (block_index / 4) no_chunk in
    let which : ℕ = block_index % 4 in
    if which == 3
    then sub64 (block_offset self (block_index + 1)) (block_offset self block_index)
    else sub64 (get_or chunk.lo (which + 1) 0) (get_or chunk.lo which 0)

unfoldable pub clear : Hybrid4 → Hybrid4
clear self = record self { block = 0; ptr = 0; end = 0 }

unfoldable pub resize : Hybrid4 → ℕ → List Chunk → Hybrid4
unfolding clear
resize self blocks fresh = clear (record self { blocks = blocks; chunks = fresh })

-- The loop that stores the low bits: the words of `lo` for the sizes left, and the new `ptr`.
unfoldable pub low_words : ℕ → ℕ → List ℕ → List ℕ × ℕ
low_words base ptr [] = ([], ptr)
low_words base ptr (size ∷ sizes) =
    let (lo, end) = low_words base (u64 (ptr + size)) sizes in (u16 (sub64 ptr base) ∷ lo, end)

-- What is done when the chunk is complete, before `block++`.
unfoldable pub store_chunk : Hybrid4 → Outcome Hybrid4
store_chunk self =
    if (self.ptr >>> (32 + shift)) != 0
    then throw block_offset_too_large self
    else (let hi = u32 (self.ptr >>> shift) in
        let (lo, ptr) = low_words (u64 (hi <<< shift)) self.ptr self.buffer in
        done (record self {
          chunks = set self.chunks (self.block / 4) (record { hi = hi; lo = lo });
          ptr = ptr;
        }))

-- `set_block_size(block_index, size)`
unfoldable pub set_block_size : Hybrid4 → ℕ → ℕ → Outcome Hybrid4
set_block_size self block_index size =
    if block_index != self.block
    then throw sequential_build self
    else if leb self.blocks self.block && (size != 0)
    then throw index_overflow self
    else if ltb max_bits size
    then throw block_size_too_large self
    else (let which : ℕ = self.block % 4 in
        let buffered : Hybrid4 = record self {
          end = u64 (self.end + size);
          buffer = set self.buffer which size;
        } in
        let stored = if which == 3 then store_chunk buffered else done buffered in
        stored >>= λ s. done (record s { block = s.block + 1 }))

-- The loop of `flush`; at most three blocks are missing from the last chunk.
unfoldable pub pad : ℕ → Hybrid4 → Outcome Hybrid4
pad zero self = done self
pad (suc fuel) self = elim (bit_and self.block 3 != 0) [
  | true ↦ set_block_size self self.block 0 >>= pad fuel
  | _ ↦ done self
]

unfoldable pub flush : Hybrid4 → Outcome Hybrid4
unfolding pad
flush self = pad 3 self

-- The loop of `set_block_size(size)`; each round raises `block` by one.
unfoldable pub fill : ℕ → ℕ → Hybrid4 → Outcome Hybrid4
fill zero size self = done self
fill (suc fuel) size self = elim (ltb self.block self.blocks) [
  | true ↦ set_block_size self self.block size >>= fill fuel size
  | _ ↦ done self
]

-- `set_block_size(size)`
unfoldable pub set_all_block_sizes : Hybrid4 → ℕ → Outcome Hybrid4
unfolding clear fill flush
set_all_block_sizes self size = fill self.blocks size (clear self) >>= λ filled.
    flush filled >>= λ flushed. done (clear flushed)

unfoldable pub has_variable_rate : Bool
has_variable_rate = true
