-- ===== src/BlockCache/Cache4.antt =====
-- The class `BlockCache4` of include/zfp/internal/array/cache4.hpp: a cache in front of the store
-- of a 4-dimensional array.
pub mod Elements
use zfp.Prelude.{ℕ, ◌+◌, ◌*◌, bit_and}
use zfp.BlockCache
use zfp.BlockCache.{BlockIo, State}
use zfp.Cache.{Config}
use zfp.Index.Outcome.{settle}
use zfp.Store.{BlockIndex, Codec}
use zfp.Store.Store4
use zfp.Store.Store4.{BlockStore4, block_index}

-- `CacheLine::index`: the position of an element in its block.
unfoldable pub index : ℕ → ℕ → ℕ → ℕ → ℕ
index i j k l = bit_and i 3 + 4 * (bit_and j 3 + 4 * (bit_and k 3 + 4 * (bit_and l 3)))

module _ {I B A : Type 0} (config : Config) (ops : BlockIndex I) (codec : Codec B A) where
  -- The calls of the store. What `encode` throws leaves `line` in the source; only a call that
  -- returns is of interest here.
  unfoldable pub io : BlockIo (BlockStore4 I B) A
  io = record {
    encode = λ s b v. settle (Store4.encode ops codec s b v);
    decode = Store4.decode ops codec;
  }

  unfoldable pub get : State (BlockStore4 I B) A → ℕ → ℕ → ℕ → ℕ → A × State (BlockStore4 I B) A
  get s i j k l = BlockCache.get config io s (block_index s.store i j k l) (index i j k l)

  unfoldable pub set : State (BlockStore4 I B) A → ℕ → ℕ → ℕ → ℕ → A → State (BlockStore4 I B) A
  set s i j k l val = BlockCache.set config io s (block_index s.store i j k l) (index i j k l) val

  unfoldable pub flush : State (BlockStore4 I B) A → State (BlockStore4 I B) A
  flush s = BlockCache.flush config io s
