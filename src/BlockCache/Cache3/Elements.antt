-- ===== src/BlockCache/Cache3/Elements.antt =====
-- The elements of a 3-dimensional array behind a cache over a lossless store.
use zfp.Prelude.{ℕ, ◌%◌, ◌^◌, ◌<◌, ◌≡◌, refl, arith, ◌∙◌, ◌==◌, ◌&&◌, if◌then◌else◌}
use zfp.Prelude.Bits.{low_bits}
use zfp.BlockCache.{State}
use zfp.BlockCache.Coherent.{Lossless}
use zfp.BlockCache.Line.{Models, get-Models, set-Models, assign}
use zfp.BlockCache.Cache3.{index, io, get, set}
use zfp.Cache.{Config}
use zfp.Store.{BlockIndex, Codec}
use zfp.Store.Store3.{BlockStore3, blocks, block_index}
use zfp.Store.Store3.Numbering.{IsSized, block_index-lt-blocks3, block_index-injective3}

-- The positions of two elements in their blocks are equal when the coordinates agree modulo 4.
index-injective :
    (i j k i' j' k' : ℕ)
    → index i j k ≡ index i' j' k'
    → (i % 4 ≡ i' % 4) × (j % 4 ≡ j' % 4) × (k % 4 ≡ k' % 4)
unfolding index
index-injective i j k i' j' k' e = (
  omega (
    arith,
    low_bits 2 i,
    low_bits 2 j,
    low_bits 2 k,
    low_bits 2 i',
    low_bits 2 j',
    low_bits 2 k',
  ),
  omega (
    arith,
    low_bits 2 i,
    low_bits 2 j,
    low_bits 2 k,
    low_bits 2 i',
    low_bits 2 j',
    low_bits 2 k',
  ),
  omega (
    arith,
    low_bits 2 i,
    low_bits 2 j,
    low_bits 2 k,
    low_bits 2 i',
    low_bits 2 j',
    low_bits 2 k',
  ),
)

module _ {I B A : Type 0} (config : Config) (ops : BlockIndex I) (codec : Codec B A)
    (grid : BlockStore3 I B) (sized : IsSized grid) (Inside : ℕ → ℕ → Type 0)
    (Valid : BlockStore3 I B → Type 0)
    (law : Lossless (io config ops codec) (blocks grid) Inside Valid) (small : blocks grid < 2 ^ 31)
    (same_grid : (s : BlockStore3 I B)
      → Valid s
      → (s.bx ≡ grid.bx) × (s.by ≡ grid.by) × (s.bz ≡ grid.bz))
    (inside : (i j k : ℕ)
      → i < grid.nx
      → j < grid.ny
      → k < grid.nz
      → Inside (block_index grid i j k) (index i j k)) where
  -- The block cache holds the values of the array `f`.
  pub record Holds (f : ℕ → ℕ → ℕ → A) (s : State (BlockStore3 I B) A) : Type 0 where
    pub values : ℕ → ℕ → A
    pub models : Models config (io config ops codec) (blocks grid) Inside Valid law small values s
    pub at :
        (i j k : ℕ)
        → i < grid.nx
        → j < grid.ny
        → k < grid.nz
        → values (block_index grid i j k) (index i j k) ≡ f i j k

  -- The array with one value changed.
  abbrev pub put : (ℕ → ℕ → ℕ → A) → ℕ → ℕ → ℕ → A → (ℕ → ℕ → ℕ → A)
  put f i j k v i' j' k' = if (i == i') && (j == j') && (k == k') then v else f i' j' k'

  number :
      (f : ℕ → ℕ → ℕ → A) (s : State (BlockStore3 I B) A) (i j k : ℕ)
      → Holds f s
      → block_index s.store i j k ≡ block_index grid i j k
  unfolding block_index
  number f s i j k h = let same = same_grid s.store h.models.valid in rw same.0 (rw same.1 (refl))

  -- Over a lossless store of fewer than 2^31 blocks, reading an element inside the array gives
  -- its value, and the cache and the store hold the same values as before.
  get-Holds3 :
      (f : ℕ → ℕ → ℕ → A) (s : State (BlockStore3 I B) A) (i j k : ℕ)
      → i < grid.nx
      → j < grid.ny
      → k < grid.nz
      → Holds f s
      → let (v, s') = get config ops codec s i j k in (v ≡ f i j k) × Holds f s'
  unfolding get
  get-Holds3 f s i j k in_x in_y in_z h = rw (number f s i j k h) (
      let (value, models) =
        get-Models config (io config ops codec) (blocks grid) Inside Valid law small h.values s
          (block_index grid i j k) (index i j k)
          (block_index-lt-blocks3 grid sized i j k in_x in_y in_z) (inside i j k in_x in_y in_z)
          h.models in
      (value ∙ h.at i j k in_x in_y in_z, record { values = h.values; models = models; at = h.at }))

  -- Elements with one place in the cache are one element.
  place-injective :
      (i j k i' j' k' : ℕ)
      → i < grid.nx
      → j < grid.ny
      → k < grid.nz
      → i' < grid.nx
      → j' < grid.ny
      → k' < grid.nz
      → block_index grid i j k ≡ block_index grid i' j' k'
      → index i j k ≡ index i' j' k'
      → (i ≡ i') × (j ≡ j') × (k ≡ k')
  place-injective i j k i' j' k' in_x in_y in_z in_x' in_y' in_z' p q =
      let high =
        block_index-injective3 grid sized i j k i' j' k' in_x in_y in_z in_x' in_y' in_z' p in
      let low = index-injective i j k i' j' k' q in
      (omega (arith, high.0, low.0), omega (arith, high.1, low.1), omega (arith, high.2, low.2))

  -- Over a lossless store of fewer than 2^31 blocks, writing an element inside the array
  -- changes that element and no other.
  set-Holds3 :
      (f : ℕ → ℕ → ℕ → A) (s : State (BlockStore3 I B) A) (i j k : ℕ) (v : A)
      → i < grid.nx
      → j < grid.ny
      → k < grid.nz
      → Holds f s
      → Holds (put f i j k v) (set config ops codec s i j k v)
  unfolding set
  set-Holds3 f s i j k v in_x in_y in_z h = rw (number f s i j k h) (record {
    values =
        assign config (io config ops codec) (blocks grid) Inside Valid law small h.values
          (block_index grid i j k) (index i j k) v;
    models =
        set-Models config (io config ops codec) (blocks grid) Inside Valid law small h.values s
          (block_index grid i j k) (index i j k) v
          (block_index-lt-blocks3 grid sized i j k in_x in_y in_z) h.models;
    at = λ i' j' k' in_x' in_y' in_z'. ground (
      arith,
      h.at i' j' k' in_x' in_y' in_z',
      place-injective i j k i' j' k' in_x in_y in_z in_x' in_y' in_z',
    );
  })
