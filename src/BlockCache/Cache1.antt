-- ===== src/BlockCache/Cache1.antt =====
-- The class `BlockCache1` of include/zfp/internal/array/cache1.hpp: a cache in front of the store
-- of a 1-dimensional array.
pub mod Elements
use zfp.Prelude.{ℕ, ◌+◌, ◌*◌, bit_and}
use zfp.BlockCache
use zfp.BlockCache.{BlockIo, State}
use zfp.Cache.{Config}
use zfp.Index.Outcome.{settle}
use zfp.Store.{BlockIndex, Codec}
use zfp.Store.Store1
use zfp.Store.Store1.{BlockStore1, block_index}

-- `CacheLine::index`: the position of an element in its block.
unfoldable pub index : ℕ → ℕ
index i = bit_and i 3

module _ {I B A : Type 0} (config : Config) (ops : BlockIndex I) (codec : Codec B A) where
  -- The calls of the store. What `encode` throws leaves `line` in the source; only a call that
  -- returns is of interest here.
  unfoldable pub io : BlockIo (BlockStore1 I B) A
  io = record {
    encode = λ s b v. settle (Store1.encode ops codec s b v);
    decode = Store1.decode ops codec;
  }

  unfoldable pub get : State (BlockStore1 I B) A → ℕ → A × State (BlockStore1 I B) A
  get s i = BlockCache.get config io s (block_index s.store i) (index i)

  unfoldable pub set : State (BlockStore1 I B) A → ℕ → A → State (BlockStore1 I B) A
  set s i val = BlockCache.set config io s (block_index s.store i) (index i) val

  unfoldable pub flush : State (BlockStore1 I B) A → State (BlockStore1 I B) A
  flush s = BlockCache.flush config io s
