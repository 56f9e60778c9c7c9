-- ===== src/Store/Store3.antt =====
-- The class `BlockStore3` of include/zfp/internal/array/store3.hpp: 3-dimensional arrays.
pub mod Numbering
use zfp.Prelude.{ℕ, ◌+◌, ◌*◌, ◌/◌, ◌%◌, ◌||◌, ◌==◌, if◌then◌else◌, u32, u64}
use zfp.Index.Outcome.{Outcome, done, throw}
use zfp.Store.{BlockIndex, Codec}
use zfp.Store.Shape.{shape_code}

-- `nx`, … are the numbers of elements, `bx`, … the numbers of blocks; `buffer` is the memory that
-- the codec writes to.
pub record BlockStore3 (I B : Type 0) : Type 0 where
  pub nx : ℕ
  pub ny : ℕ
  pub nz : ℕ
  pub bx : ℕ
  pub by : ℕ
  pub bz : ℕ
  pub index : I
  pub buffer : B

unfoldable pub blocks : {I B : Type 0} → BlockStore3 I B → ℕ
blocks s = u64 (s.bx * s.by * s.bz)

-- The number of elements of a block.
unfoldable pub block_size : ℕ
block_size = 4 * 4 * 4

-- The number of the block that contains an element.
unfoldable pub block_index : {I B : Type 0} → BlockStore3 I B → ℕ → ℕ → ℕ → ℕ
block_index s i j k = u64 ((i / 4) + s.bx * ((j / 4) + s.by * ((k / 4))))

unfoldable pub block_shape : {I B : Type 0} → BlockStore3 I B → ℕ → ℕ
block_shape s block_index₀ =
    let i = u64 (4 * (block_index₀ % s.bx)) in
    let block_index₁ = block_index₀ / s.bx in
    let j = u64 (4 * (block_index₁ % s.by)) in
    let block_index₂ = block_index₁ / s.by in
    let k = u64 (4 * block_index₂) in
    let mx = shape_code i s.nx in
    let my = shape_code j s.ny in let mz = shape_code k s.nz in u32 (mx + 4 * (my + 4 * (mz)))

module _ {I B : Type 0} (ops : BlockIndex I) where
  unfoldable pub set_size : BlockStore3 I B → ℕ → ℕ → ℕ → BlockStore3 I B
  unfolding blocks
  set_size s nx ny nz =
      let s' =
        if (nx == 0) || (ny == 0) || (nz == 0)
        then record s { nx = 0; ny = 0; nz = 0; bx = 0; by = 0; bz = 0 }
        else record s {
          nx = nx;
          ny = ny;
          nz = nz;
          bx = u64 (nx + 3) / 4;
          by = u64 (ny + 3) / 4;
          bz = u64 (nz + 3) / 4;
        } in
      record s' { index = ops.resize s'.index (blocks s') }

module _ {I B A : Type 0} (ops : BlockIndex I) (codec : Codec B A) where
  -- `encode` for a contiguous block. Its result is the store, which a call that throws leaves with
  -- the block written.
  unfoldable pub encode : BlockStore3 I B → ℕ → (ℕ → A) → Outcome (BlockStore3 I B)
  encode s block_index block =
      let w =
        codec.encode_block s.buffer (ops.block_offset s.index block_index)
          (block_shape s block_index) block in
      let s' = record s { buffer = w.buffer } in
      elim (ops.set_block_size s.index block_index w.size) [
        | done index ↦ done (record s' { index = index })
        | throw e index ↦ throw e (record s' { index = index })
      ]

  -- `decode` for a contiguous block, over its old values
  unfoldable pub decode : BlockStore3 I B → ℕ → (ℕ → A) → (ℕ → A)
  decode s block_index block =
      codec.decode_block s.buffer (ops.block_offset s.index block_index) (block_shape s block_index)
        block
