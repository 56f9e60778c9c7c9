-- ===== src/BlockCache/Cache2/Elements.antt =====
-- The elements of a 2-dimensional array behind a cache over a lossless store.
use zfp.Prelude.{ℕ, ◌%◌, ◌^◌, ◌<◌, ◌≡◌, refl, arith, ◌∙◌, ◌==◌, ◌&&◌, if◌then◌else◌}
use zfp.Prelude.Bits.{low_bits}
use zfp.BlockCache.{State}
use zfp.BlockCache.Coherent.{Lossless}
use zfp.BlockCache.Line.{Models, get-Models, set-Models, assign}
use zfp.BlockCache.Cache2.{index, io, get, set}
use zfp.Cache.{Config}
use zfp.Store.{BlockIndex, Codec}
use zfp.Store.Store2.{BlockStore2, blocks, block_index}
use zfp.Store.Store2.Numbering.{IsSized, block_index-lt-blocks2, block_index-injective2}

-- The positions of two elements in their blocks are equal when the coordinates agree modulo 4.
index-injective : (i j i' j' : ℕ) → index i j ≡ index i' j' → (i % 4 ≡ i' % 4) × (j % 4 ≡ j' % 4)
unfolding index
index-injective i j i' j' e = (
  omega (arith, low_bits 2 i, low_bits 2 j, low_bits 2 i', low_bits 2 j'),
  omega (arith, low_bits 2 i, low_bits 2 j, low_bits 2 i', low_bits 2 j'),
)

module _ {I B A : Type 0} (config : Config) (ops : BlockIndex I) (codec : Codec B A)
    (grid : BlockStore2 I B) (sized : IsSized grid) (Inside : ℕ → ℕ → Type 0)
    (Valid : BlockStore2 I B → Type 0)
    (law : Lossless (io config ops codec) (blocks grid) Inside Valid) (small : blocks grid < 2 ^ 31)
    (same_grid : (s : BlockStore2 I B) → Valid s → (s.bx ≡ grid.bx) × (s.by ≡ grid.by))
    (inside : (i j : ℕ)
      → i < grid.nx
      → j < grid.ny
      → Inside (block_index grid i j) (index i j)) where
  -- The block cache holds the values of the array `f`.
  pub record Holds (f : ℕ → ℕ → A) (s : State (BlockStore2 I B) A) : Type 0 where
    pub values : ℕ → ℕ → A
    pub models : Models config (io config ops codec) (blocks grid) Inside Valid law small values s
    pub at :
        (i j : ℕ) → i < grid.nx → j < grid.ny → values (block_index grid i j) (index i j) ≡ f i j

  -- The array with one value changed.
  abbrev pub put : (ℕ → ℕ → A) → ℕ → ℕ → A → (ℕ → ℕ → A)
  put f i j v i' j' = if (i == i') && (j == j') then v else f i' j'

  number :
      (f : ℕ → ℕ → A) (s : State (BlockStore2 I B) A) (i j : ℕ)
      → Holds f s
      → block_index s.store i j ≡ block_index grid i j
  unfolding block_index
  number f s i j h = let same = same_grid s.store h.models.valid in rw same.0 (refl)

  -- Over a lossless store of fewer than 2^31 blocks, reading an element inside the array gives
  -- its value, and the cache and the store hold the same values as before.
  get-Holds2 :
      (f : ℕ → ℕ → A) (s : State (BlockStore2 I B) A) (i j : ℕ)
      → i < grid.nx
      → j < grid.ny
      → Holds f s
      → let (v, s') = get config ops codec s i j in (v ≡ f i j) × Holds f s'
  unfolding get
  get-Holds2 f s i j in_x in_y h = rw (number f s i j h) (
      let (value, models) =
        get-Models config (io config ops codec) (blocks grid) Inside Valid law small h.values s
          (block_index grid i j) (index i j) (block_index-lt-blocks2 grid sized i j in_x in_y)
          (inside i j in_x in_y) h.models in
      (value ∙ h.at i j in_x in_y, record { values = h.values; models = models; at = h.at }))

  -- Elements with one place in the cache are one element.
  place-injective :
      (i j i' j' : ℕ)
      → i < grid.nx
      → j < grid.ny
      → i' < grid.nx
      → j' < grid.ny
      → block_index grid i j ≡ block_index grid i' j'
      → index i j ≡ index i' j'
      → (i ≡ i') × (j ≡ j')
  place-injective i j i' j' in_x in_y in_x' in_y' p q =
      let high = block_index-injective2 grid sized i j i' j' in_x in_y in_x' in_y' p in
      let low = index-injective i j i' j' q in
      (omega (arith, high.0, low.0), omega (arith, high.1, low.1))

  -- Over a lossless store of fewer than 2^31 blocks, writing an element inside the array
  -- changes that element and no other.
  set-Holds2 :
      (f : ℕ → ℕ → A) (s : State (BlockStore2 I B) A) (i j : ℕ) (v : A)
      → i < grid.nx
      → j < grid.ny
      → Holds f s
      → Holds (put f i j v) (set config ops codec s i j v)
  unfolding set
  set-Holds2 f s i j v in_x in_y h = rw (number f s i j h) (record {
    values =
        assign config (io config ops codec) (blocks grid) Inside Valid law small h.values
          (block_index grid i j) (index i j) v;
    models =
        set-Models config (io config ops codec) (blocks grid) Inside Valid law small h.values s
          (block_index grid i j) (index i j) v (block_index-lt-blocks2 grid sized i j in_x in_y)
          h.models;
    at = λ i' j' in_x' in_y'.
        ground (arith, h.at i' j' in_x' in_y', place-injective i j i' j' in_x in_y in_x' in_y');
  })
