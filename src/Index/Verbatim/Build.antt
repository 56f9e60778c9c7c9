-- ===== src/Index/Verbatim/Build.antt =====
-- Building a verbatim index block by block, and reading it back.
use zfp.Prelude.{ℕ, zero, suc, ◌+◌, ◌^◌, ◌≤◌, ◌<◌, ◌≡◌, refl, arith, List, length, get_or, set}
use zfp.Prelude.{length-set, get_or-set, get_or-set_self, ◌∙◌, u64, ap}
use native.Mathlib.Nat.{le_refl}
use zfp.Index.Outcome.{Outcome, done, Returns, ◌>>=◌}
use zfp.Index.Offsets.{start, start-add-one, start_mono, size_at, Represents}
use zfp.Index.Verbatim.{Verbatim, set_block_size, block_offset, block_size, range, resize, clear}

-- The calls that give the sizes of the first `n` blocks, in order.
unfoldable pub build : (ℕ → ℕ) → ℕ → Verbatim → Outcome Verbatim
build s zero self = done self
build s (suc n) self = build s n self >>= λ built. set_block_size built n (s n)

module _ (s : ℕ → ℕ) where
  record Holds (n : ℕ) (self : Verbatim) : Type 0 where
    at : self.block ≡ n
    full : length self.words ≡ self.blocks + 1
    stored : (i : ℕ) → i ≤ n → get_or self.words i 0 ≡ start s i

  step :
      (n : ℕ) (self : Verbatim)
      → Holds n self
      → n < self.blocks
      → start s (suc n) < 2 ^ 64
      → Returns
          (set_block_size self n (s n))
          λ next. Holds (suc n) next × (next.blocks ≡ self.blocks)
  unfolding set_block_size
  step n self h room below =
      let next : Verbatim = record self {
        words = set self.words (self.block + 1) (u64 (get_or self.words self.block 0 + s n));
        block = self.block + 1;
      } in
      let total : u64 (get_or self.words self.block 0 + s n) ≡ start s (suc n) =
        ground (arith, h.at, h.stored n) in
      (
        next,
        ground (arith, h.at),
        (
          record {
            at = omega (arith, h.at);
            full = length-set self.words (self.block + 1) _ ∙ h.full;
            stored = λ i p. ground (
              arith,
              h.at,
              h.full,
              h.stored i,
              total,
              get_or-set self.words (self.block + 1) i (u64 (get_or self.words self.block 0 + s n))
                  0,
              ap (start s) {x = i} {y = suc n},
            );
          },
          refl,
        ),
      )

  build-Holds :
      (n : ℕ) (self : Verbatim)
      → Holds 0 self
      → n ≤ self.blocks
      → start s n < 2 ^ 64
      → Returns (build s n self) λ built. Holds n built × (built.blocks ≡ self.blocks)
  unfolding build
  build-Holds zero self h room below = (self, refl, (h, refl))
  build-Holds (suc n) self h room below =
      let (built, run, (held, blocks)) =
        build-Holds n self h (omega arith) (omega (arith, start_mono s n (suc n))) in
      let (next, run', (held', blocks')) = step n built held (omega arith) below in
      (next, rw run run', (held', blocks' ∙ blocks))

-- After `resize`, giving the sizes of all blocks in order succeeds, if they add up to less than
-- 2 ^ 64; the index then represents exactly these blocks.
pub build-resize-Represents :
    (sizes fresh : List ℕ) (self : Verbatim)
    → length fresh ≡ length sizes + 1
    → start (size_at sizes) (length sizes) < 2 ^ 64
    → Returns
        (build (size_at sizes) (length sizes) (resize self (length sizes) fresh))
        λ built. Represents sizes (block_offset built) (block_size built) (range built)
unfolding resize clear range block_offset block_size
build-resize-Represents sizes fresh self room below =
    let s : ℕ → ℕ = size_at sizes in
    let n : ℕ = length sizes in
    let start_state : Holds s 0 (resize self n fresh) = record {
      at = refl;
      full = length-set fresh 0 0 ∙ room;
      stored =
          λ i p. let e : i ≡ 0 = omega arith in rw e (get_or-set_self fresh 0 0 0 (omega arith));
    } in
    let (built, run, (held, blocks)) =
      build-Holds s n (resize self n fresh) start_state (le_refl n) below in
    (
      built,
      run,
      record {
        offsets = λ i p. held.stored i p;
        bit_sizes = λ i p.
            ground (
              arith,
              held.stored i,
              held.stored (i + 1),
              start-add-one s i,
              start_mono s (i + 1) n,
            );
        whole = rw blocks (held.stored n (le_refl n));
      },
    )
