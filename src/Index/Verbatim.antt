-- ===== src/Index/Verbatim.antt =====
-- The class `verbatim` of include/zfp/index.hpp: one 64-bit offset for each block.
-- `data` is an array of `blocks + 1` words; `resize` leaves its words unspecified, so the new
-- contents are an argument.
pub mod Build
use zfp.Prelude.{ℕ, zero, suc, ◌+◌, ◌-◌, ◌*◌, ◌%◌, ◌^◌, Bool, true, List, get_or, set, u64}
use zfp.Prelude.{sub64, ltb, ◌==◌, ◌!=◌, if◌then◌else◌}
use zfp.Index.Outcome.{Outcome, done, throw, sequential_build, index_overflow, ◌>>=◌}

pub record Verbatim : Type 0 where
  pub words : List ℕ
  pub blocks : ℕ
  pub block : ℕ

unfoldable pub capacity : ℕ → ℕ
capacity blocks = blocks + 1

unfoldable pub block_offset : Verbatim → ℕ → ℕ
block_offset self block_index = get_or self.words block_index 0

unfoldable pub block_size : Verbatim → ℕ → ℕ
block_size self block_index =
    sub64 (block_offset self (block_index + 1)) (block_offset self block_index)

unfoldable pub range : Verbatim → ℕ
unfolding block_offset
range self = block_offset self self.blocks

unfoldable pub clear : Verbatim → Verbatim
clear self = record self { block = 0 }

unfoldable pub resize : Verbatim → ℕ → List ℕ → Verbatim
unfolding clear
resize self blocks fresh = clear (record self { blocks = blocks; words = set fresh 0 0 })

unfoldable pub flush : Verbatim → Verbatim
flush self = self

-- `set_block_size(block_index, size)`
unfoldable pub set_block_size : Verbatim → ℕ → ℕ → Outcome Verbatim
set_block_size self block_index size =
    if block_index != self.block
    then throw sequential_build self
    else if self.block == self.blocks
    then throw index_overflow self
    else done (record self {
      words = set self.words (self.block + 1) (u64 (get_or self.words self.block 0 + size));
      block = self.block + 1;
    })

-- The loop of `set_block_size(size)`; each round raises `block` by one, so `blocks - block`
-- rounds are enough.
unfoldable pub fill : ℕ → ℕ → Verbatim → Outcome Verbatim
fill zero size self = done self
fill (suc fuel) size self = elim (ltb self.block self.blocks) [
  | true ↦ set_block_size self self.block size >>= fill fuel size
  | _ ↦ done self
]

-- `set_block_size(size)`
unfoldable pub set_all_block_sizes : Verbatim → ℕ → Outcome Verbatim
unfolding clear fill
set_all_block_sizes self size = fill self.blocks size (clear self) >>= λ filled. done (clear filled)

unfoldable pub has_variable_rate : Bool
has_variable_rate = true
