-- ===== src/BlockCache.antt =====
-- include/zfp/internal/array/cache1.hpp to cache4.hpp: the cache of decompressed blocks in front of
-- a block store. The four classes differ in how an element is numbered (`Cache1` to `Cache4`); the rest,
-- which is here, works on block numbers and positions in a block.
pub mod Coherent
pub mod Line
pub mod Flush
pub mod Lines
pub mod Cache1
pub mod Cache2
pub mod Cache3
pub mod Cache4
use zfp.Prelude.{ℕ, zero, suc, ◌+◌, ◌-◌, ◌*◌, ◌/◌, ◌^◌, ◌≢◌, ◌<◌, ◌≡◌, Bool, true, false, List}
use zfp.Prelude.{Option, none, some, u32, sub32, ◌==◌, ◌!=◌, ltb, if◌then◌else◌, max, ◌>>>◌}
use zfp.Cache
use zfp.Cache.{Config, Cache, tag_at}
use zfp.Cache.Tag
use zfp.Cache.Tag.{TagWord}

-- `Store`: the two operations on a block store that the cache calls. `encode` compresses the
-- values of a block; `decode` writes the values of a block over the old ones of a cache line.
pub record BlockIo (S A : Type 0) : Type 0 where
  pub encode : S → ℕ → (ℕ → A) → S
  pub decode : S → ℕ → (ℕ → A) → (ℕ → A)

-- The cache's line data are functions of the position in the block.
pub record State (S A : Type 0) : Type 0 where
  pub cache : Cache (ℕ → A)
  pub store : S

abbrev pub update {ℓ} : {A : Type ℓ} → (ℕ → A) → ℕ → A → (ℕ → A)
update f i v j = if i == j then v else f j

module _ {S A : Type 0} (config : Config) (io : BlockIo S A) where
  -- The write-back of `line`: a dirty line goes to the store.
  unfoldable pub write_back : TagWord → (ℕ → A) → S → S
  write_back tag values store =
      if Tag.dirty tag then io.encode store (sub32 (Tag.index tag) 1) values else store

  -- The fetch of `line`, with the write-back of what was at line `p`.
  unfoldable pub fetch : TagWord → ℕ → ℕ → Cache (ℕ → A) → S → State S A
  fetch tag p block_index cache store =
      let store' = write_back tag (cache.lines p) store in
      record {
        cache = record cache {
          lines = update cache.lines p (io.decode store' block_index (cache.lines p));
        };
        store = store';
      }

  -- `line`, past the computation of the block index
  unfoldable pub line : State S A → ℕ → Bool → ℕ × State S A
  line s block_index write =
      let (tag, p, cache) = Cache.access config s.cache (u32 (u32 block_index + 1)) write in
      if sub32 (Tag.index tag) 1 != block_index
      then (p, fetch tag p block_index cache s.store)
      else (p, record s { cache = cache })

  -- `get` and `set` at a position of a block
  unfoldable pub get : State S A → ℕ → ℕ → A × State S A
  get s block_index pos = let (p, s') = line s block_index false in (s'.cache.lines p pos, s')

  unfoldable pub set : State S A → ℕ → ℕ → A → State S A
  set s block_index pos val =
      let (p, s') = line s block_index true in
      let lines = s'.cache.lines in
      record s' { cache = record s'.cache { lines = update lines p (update (lines p) pos val) } }

  -- The body of the loop of `flush`, at a line in use.
  unfoldable pub flush_line : State S A → ℕ → State S A
  flush_line s p = record {
    store = write_back (tag_at s.cache p) (s.cache.lines p) s.store;
    cache = Cache.flush s.cache p;
  }

  -- The loop of `flush` from line `i` on; a cache of mask + 1 lines has that many rounds at most.
  unfoldable pub flush_from : ℕ → ℕ → State S A → State S A
  flush_from zero i s = s
  flush_from (suc rounds) i s = elim (Cache.next_used (s.cache.mask + 1 - i) s.cache i) [
    | none ↦ s
    | some p ↦ flush_from rounds (p + 1) (flush_line s p)
  ]

  unfoldable pub flush : State S A → State S A
  flush s = flush_from (s.cache.mask + 1) 0 s
