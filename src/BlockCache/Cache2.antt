-- ===== src/BlockCache/Cache2.antt =====
-- The class `BlockCache2` of include/zfp/internal/array/cache2.hpp: a cache in front of the store
-- of a 2-dimensional array.
pub mod Elements
use zfp.Prelude.{ℕ, ◌+◌, ◌*◌, bit_and}
use zfp.BlockCache
use zfp.BlockCache.{BlockIo, State}
use zfp.Cache.{Config}
use zfp.Index.Outcome.{settle}
use zfp.Store.{BlockIndex, Codec}
use zfp.Store.Store2
use zfp.Store.Store2.{BlockStore2, block_index}

-- `CacheLine::index`: the position of an element in its block.
unfoldable pub index : ℕ → ℕ → ℕ
index i j = bit_and i 3 + 4 * (bit_and j 3)

module _ {I B A : Type 0} (config : Config) (ops : BlockIndex I) (codec : Codec B A) where
  -- The calls of the store. What `encode` throws leaves `line` in the source; only a call that
  -- returns is of interest here.
  unfoldable pub io : BlockIo (BlockStore2 I B) A
  io = record {
    encode = λ s b v. settle (Store2.encode ops codec s b v);
    decode = Store2.decode ops codec;
  }

  unfoldable pub get : State (BlockStore2 I B) A → ℕ → ℕ → A × State (BlockStore2 I B) A
  get s i j = BlockCache.get config io s (block_index s.store i j) (index i j)

  unfoldable pub set : State (BlockStore2 I B) A → ℕ → ℕ → A → State (BlockStore2 I B) A
  set s i j val = BlockCache.set config io s (block_index s.store i j) (index i j) val

  unfoldable pub flush : State (BlockStore2 I B) A → State (BlockStore2 I B) A
  flush s = BlockCache.flush config io s
