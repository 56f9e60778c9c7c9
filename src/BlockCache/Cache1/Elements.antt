-- ===== src/BlockCache/Cache1/Elements.antt =====
-- The elements of a 1-dimensional array behind a cache over a lossless store.
use zfp.Prelude.{ℕ, ◌%◌, ◌^◌, ◌<◌, ◌≡◌, refl, arith, ◌∙◌, ◌==◌, if◌then◌else◌}
use zfp.Prelude.Bits.{low_bits}
use zfp.BlockCache.{State}
use zfp.BlockCache.Coherent.{Lossless}
use zfp.BlockCache.Line.{Models, get-Models, set-Models, assign}
use zfp.BlockCache.Cache1.{index, io, get, set}
use zfp.Cache.{Config}
use zfp.Store.{BlockIndex, Codec}
use zfp.Store.Store1.{BlockStore1, blocks, block_index}
use zfp.Store.Store1.Numbering.{IsSized, block_index-lt-blocks1}

-- The positions of two elements in their blocks are equal when the coordinates agree modulo 4.
index-injective : (i i' : ℕ) → index i ≡ index i' → i % 4 ≡ i' % 4
unfolding index
index-injective i i' e = omega (arith, low_bits 2 i, low_bits 2 i')

module _ {I B A : Type 0} (config : Config) (ops : BlockIndex I) (codec : Codec B A)
    (grid : BlockStore1 I B) (sized : IsSized grid) (Inside : ℕ → ℕ → Type 0)
    (Valid : BlockStore1 I B → Type 0)
    (law : Lossless (io config ops codec) (blocks grid) Inside Valid) (small : blocks grid < 2 ^ 31)
    (inside : (i : ℕ) → i < grid.nx → Inside (block_index grid i) (index i)) where
  -- The block cache holds the values of the array `f`.
  pub record Holds (f : ℕ → A) (s : State (BlockStore1 I B) A) : Type 0 where
    pub values : ℕ → ℕ → A
    pub models : Models config (io config ops codec) (blocks grid) Inside Valid law small values s
    pub at : (i : ℕ) → i < grid.nx → values (block_index grid i) (index i) ≡ f i

  -- The array with one value changed.
  abbrev pub put : (ℕ → A) → ℕ → A → (ℕ → A)
  put f i v i' = if (i == i') then v else f i'

  number :
      (f : ℕ → A) (s : State (BlockStore1 I B) A) (i : ℕ)
      → Holds f s
      → block_index s.store i ≡ block_index grid i
  unfolding block_index
  number f s i h = refl

  -- Over a lossless store of fewer than 2^31 blocks, reading an element inside the array gives
  -- its value, and the cache and the store hold the same values as before.
  get-Holds1 :
      (f : ℕ → A) (s : State (BlockStore1 I B) A) (i : ℕ)
      → i < grid.nx
      → Holds f s
      → let (v, s') = get config ops codec s i in (v ≡ f i) × Holds f s'
  unfolding get
  get-Holds1 f s i in_x h = rw (number f s i h) (
      let (value, models) =
        get-Models config (io config ops codec) (blocks grid) Inside Valid law small h.values s
          (block_index grid i) (index i) (block_index-lt-blocks1 grid sized i in_x) (inside i in_x)
          h.models in
      (value ∙ h.at i in_x, record { values = h.values; models = models; at = h.at }))

  -- Elements with one place in the cache are one element.
  place-injective :
      (i i' : ℕ)
      → i < grid.nx
      → i' < grid.nx
      → block_index grid i ≡ block_index grid i'
      → index i ≡ index i'
      → i ≡ i'
  unfolding block_index
  place-injective i i' in_x in_x' p q = omega (arith, p, index-injective i i' q)

  -- Over a lossless store of fewer than 2^31 blocks, writing an element inside the array
  -- changes that element and no other.
  set-Holds1 :
      (f : ℕ → A) (s : State (BlockStore1 I B) A) (i : ℕ) (v : A)
      → i < grid.nx
      → Holds f s
      → Holds (put f i v) (set config ops codec s i v)
  unfolding set
  set-Holds1 f s i v in_x h = rw (number f s i h) (record {
    values =
        assign config (io config ops codec) (blocks grid) Inside Valid law small h.values
          (block_index grid i) (index i) v;
    models =
        set-Models config (io config ops codec) (blocks grid) Inside Valid law small h.values s
          (block_index grid i) (index i) v (block_index-lt-blocks1 grid sized i in_x) h.models;
    at = λ i' in_x'. ground (arith, h.at i' in_x', place-injective i i' in_x in_x');
  })
