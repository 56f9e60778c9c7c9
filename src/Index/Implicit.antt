-- ===== src/Index/Implicit.antt =====
-- The class `implicit` of include/zfp/index.hpp: blocks of one fixed size.
use zfp.Prelude.{ℕ, ◌*◌, Bool, false, u64}

pub record Implicit : Type 0 where
  pub blocks : ℕ
  pub bits_per_block : ℕ

unfoldable pub resize : Implicit → ℕ → Implicit
resize self blocks = record self { blocks = blocks }

unfoldable pub new : ℕ → Implicit
unfolding resize
new blocks = resize (record { blocks = 0; bits_per_block = 0 }) blocks

unfoldable pub block_size : Implicit → ℕ → ℕ
block_size self block_index = self.bits_per_block

unfoldable pub block_offset : Implicit → ℕ → ℕ
block_offset self block_index = u64 (block_index * self.bits_per_block)

unfoldable pub range : Implicit → ℕ
unfolding block_offset
range self = block_offset self self.blocks

unfoldable pub clear : Implicit → Implicit
clear self = self

unfoldable pub flush : Implicit → Implicit
flush self = self

unfoldable pub set_block_size : Implicit → ℕ → Implicit
set_block_size self size = record self { bits_per_block = size }

-- The size of a single block is ignored.
unfoldable pub set_block_size_at : Implicit → ℕ → ℕ → Implicit
set_block_size_at self block_index size = self

unfoldable pub has_variable_rate : Bool
has_variable_rate = false
