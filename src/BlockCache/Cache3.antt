-- ===== src/BlockCache/Cache3.antt =====
-- The class `BlockCache3` of include/zfp/internal/array/cache3.hpp: a cache in front of the store
-- of a 3-dimensional array.
pub mod Elements
use zfp.Prelude.{ℕ, ◌+◌, ◌*◌, bit_and}
use zfp.BlockCache
use zfp.BlockCache.{BlockIo, State}
use zfp.Cache.{Config}
use zfp.Index.Outcome.{settle}
use zfp.Store.{BlockIndex, Codec}
use zfp.Store.Store3
use zfp.Store.Store3.{BlockStore3, block_index}

-- `CacheLine::index`: the position of an element in its block.
unfoldable pub index : ℕ → ℕ → ℕ → ℕ
index i j k = bit_and i 3 + 4 * (bit_and j 3 + 4 * (bit_and k 3))

module _ {I B A : Type 0} (config : Config) (ops : BlockIndex I) (codec : Codec B A) where
  -- The calls of the store. What `encode` throws leaves `line` in the source; only a call that
  -- returns is of interest here.
  unfoldable pub io : BlockIo (BlockStore3 I B) A
  io = record {
    encode = λ s b v. settle (Store3.encode ops codec s b v);
    decode = Store3.decode ops codec;
  }

  unfoldable pub get : State (BlockStore3 I B) A → ℕ → ℕ → ℕ → A × State (BlockStore3 I B) A
  get s i j k = BlockCache.get config io s (block_index s.store i j k) (index i j k)

  unfoldable pub set : State (BlockStore3 I B) A → ℕ → ℕ → ℕ → A → State (BlockStore3 I B) A
  set s i j k val = BlockCache.set config io s (block_index s.store i j k) (index i j k) val

  unfoldable pub flush : State (BlockStore3 I B) A → State (BlockStore3 I B) A
  flush s = BlockCache.flush config io s
