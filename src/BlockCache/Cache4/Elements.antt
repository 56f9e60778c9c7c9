-- ===== src/BlockCache/Cache4/Elements.antt =====
-- The elements of a 4-dimensional array behind a cache over a lossless store.
use zfp.Prelude.{ℕ, ◌%◌, ◌^◌, ◌<◌, ◌≡◌, refl, arith, ◌∙◌, ◌==◌, ◌&&◌, if◌then◌else◌}
use zfp.Prelude.Bits.{low_bits}
use zfp.BlockCache.{State}
use zfp.BlockCache.Coherent.{Lossless}
use zfp.BlockCache.Line.{Models, get-Models, set-Models, assign}
use zfp.BlockCache.Cache4.{index, io, get, set}
use zfp.Cache.{Config}
use zfp.Store.{BlockIndex, Codec}
use zfp.Store.Store4.{BlockStore4, blocks, block_index}
use zfp.Store.Store4.Numbering.{IsSized, block_index-lt-blocks4, block_index-injective4}

-- The positions of two elements in their blocks are equal when the coordinates agree modulo 4.
index-injective :
    (i j k l i' j' k' l' : ℕ)
    → index i j k l ≡ index i' j' k' l'
    → (i % 4 ≡ i' % 4) × (j % 4 ≡ j' % 4) × (k % 4 ≡ k' % 4) × (l % 4 ≡ l' % 4)
unfolding index
index-injective i j k l i' j' k' l' e = (
  omega (
    arith,
    low_bits 2 i,
    low_bits 2 j,
    low_bits 2 k,
    low_bits 2 l,
    low_bits 2 i',
    low_bits 2 j',
    low_bits 2 k',
    low_bits 2 l',
  ),
  omega (
    arith,
    low_bits 2 i,
    low_bits 2 j,
    low_bits 2 k,
    low_bits 2 l,
    low_bits 2 i',
    low_bits 2 j',
    low_bits 2 k',
    low_bits 2 l',
  ),
  omega (
    arith,
    low_bits 2 i,
    low_bits 2 j,
    low_bits 2 k,
    low_bits 2 l,
    low_bits 2 i',
    low_bits 2 j',
    low_bits 2 k',
    low_bits 2 l',
  ),
  omega (
    arith,
    low_bits 2 i,
    low_bits 2 j,
    low_bits 2 k,
    low_bits 2 l,
    low_bits 2 i',
    low_bits 2 j',
    low_bits 2 k',
    low_bits 2 l',
  ),
)

module _ {I B A : Type 0} (config : Config) (ops : BlockIndex I) (codec : Codec B A)
    (grid : BlockStore4 I B) (sized : IsSized grid) (Inside : ℕ → ℕ → Type 0)
    (Valid : BlockStore4 I B → Type 0)
    (law : Lossless (io config ops codec) (blocks grid) Inside Valid) (small : blocks grid < 2 ^ 31)
    (same_grid : (s : BlockStore4 I B)
      → Valid s
      → (s.bx ≡ grid.bx) × (s.by ≡ grid.by) × (s.bz ≡ grid.bz) × (s.bw ≡ grid.bw))
    (inside : (i j k l : ℕ)
      → i < grid.nx
      → j < grid.ny
      → k < grid.nz
      → l < grid.nw
      → Inside (block_index grid i j k l) (index i j k l)) where
  -- The block cache holds the values of the array `f`.
  pub record Holds (f : ℕ → ℕ → ℕ → ℕ → A) (s : State (BlockStore4 I B) A) : Type 0 where
    pub values : ℕ → ℕ → A
    pub models : Models config (io config ops codec) (blocks grid) Inside Valid law small values s
    pub at :
        (i j k l : ℕ)
        → i < grid.nx
        → j < grid.ny
        → k < grid.nz
        → l < grid.nw
        → values (block_index grid i j k l) (index i j k l) ≡ f i j k l

  -- The array with one value changed.
  abbrev pub put : (ℕ → ℕ → ℕ → ℕ → A) → ℕ → ℕ → ℕ → ℕ → A → (ℕ → ℕ → ℕ → ℕ → A)
  put f i j k l v i' j' k' l' =
      if (i == i') && (j == j') && (k == k') && (l == l') then v else f i' j' k' l'

  number :
      (f : ℕ → ℕ → ℕ → ℕ → A) (s : State (BlockStore4 I B) A) (i j k l : ℕ)
      → Holds f s
      → block_index s.store i j k l ≡ block_index grid i j k l
  unfolding block_index
  number f s i j k l h =
      let same = same_grid s.store h.models.valid in rw same.0 (rw same.1 (rw same.2 (refl)))

  -- Over a lossless store of fewer than 2^31 blocks, reading an element inside the array gives
  -- its value, and the cache and the store hold the same values as before.
  pub get-Holds4 :
      (f : ℕ → ℕ → ℕ → ℕ → A) (s : State (BlockStore4 I B) A) (i j k l : ℕ)
      → i < grid.nx
      → j < grid.ny
      → k < grid.nz
      → l < grid.nw
      → Holds f s
      → let (v, s') = get config ops codec s i j k l in (v ≡ f i j k l) × Holds f s'
  unfolding get
  get-Holds4 f s i j k l in_x in_y in_z in_w h = rw (number f s i j k l h) (
      let (value, models) =
        get-Models config (io config ops codec) (blocks grid) Inside Valid law small h.values s
          (block_index grid i j k l) (index i j k l)
          (block_index-lt-blocks4 grid sized i j k l in_x in_y in_z in_w)
          (inside i j k l in_x in_y in_z in_w) h.models in
      (
        value ∙ h.at i j k l in_x in_y in_z in_w,
        record { values = h.values; models = models; at = h.at },
      ))

  -- Elements with one place in the cache are one element.
  place-injective :
      (i j k l i' j' k' l' : ℕ)
      → i < grid.nx
      → j < grid.ny
      → k < grid.nz
      → l < grid.nw
      → i' < grid.nx
      → j' < grid.ny
      → k' < grid.nz
      → l' < grid.nw
      → block_index grid i j k l ≡ block_index grid i' j' k' l'
      → index i j k l ≡ index i' j' k' l'
      → (i ≡ i') × (j ≡ j') × (k ≡ k') × (l ≡ l')
  place-injective i j k l i' j' k' l' in_x in_y in_z in_w in_x' in_y' in_z' in_w' p q =
      let high =
        block_index-injective4 grid sized i j k l i' j' k' l' in_x in_y in_z in_w in_x' in_y' in_z'
          in_w' p in
      let low = index-injective i j k l i' j' k' l' q in
      (
        omega (arith, high.0, low.0),
        omega (arith, high.1, low.1),
        omega (arith, high.2, low.2),
        omega (arith, high.3, low.3),
      )

  -- Over a lossless store of fewer than 2^31 blocks, writing an element inside the array
  -- changes that element and no other.
  pub set-Holds4 :
      (f : ℕ → ℕ → ℕ → ℕ → A) (s : State (BlockStore4 I B) A) (i j k l : ℕ) (v : A)
      → i < grid.nx
      → j < grid.ny
      → k < grid.nz
      → l < grid.nw
      → Holds f s
      → Holds (put f i j k l v) (set config ops codec s i j k l v)
  unfolding set
  set-Holds4 f s i j k l v in_x in_y in_z in_w h = rw (number f s i j k l h) (record {
    values =
        assign config (io config ops codec) (blocks grid) Inside Valid law small h.values
          (block_index grid i j k l) (index i j k l) v;
    models =
        set-Models config (io config ops codec) (blocks grid) Inside Valid law small h.values s
          (block_index grid i j k l) (index i j k l) v
          (block_index-lt-blocks4 grid sized i j k l in_x in_y in_z in_w) h.models;
    at = λ i' j' k' l' in_x' in_y' in_z' in_w'. ground (
      arith,
      h.at i' j' k' l' in_x' in_y' in_z' in_w',
      place-injective i j k l i' j' k' l' in_x in_y in_z in_w in_x' in_y' in_z' in_w',
    );
  })
