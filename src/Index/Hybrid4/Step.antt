-- ===== src/Index/Hybrid4/Step.antt =====
-- One call of `set_block_size` on a hybrid4 index, inside a chunk and at its end.
use zfp.Prelude.{ℕ, zero, suc, ◌+◌, ◌*◌, ◌/◌, ◌%◌, ◌^◌, ◌≤◌, ◌<◌, ◌≡◌, refl, arith, ◌⊎◌}
use zfp.Prelude.{List, [], ◌∷◌, length, get_or, set, length-set, get_or-set, get_or-set_self, ap}
use zfp.Prelude.{u64, ◌∙◌, get_or-set_ne}
use native.Mathlib.Decide.{dec_lt}
use zfp.Index.Outcome.{done, Returns}
use zfp.Index.Offsets.{start, starts, start_mono}
use zfp.Index.Hybrid4.{Hybrid4, Chunk, no_chunk, max_bits, set_block_size}
use zfp.Index.Hybrid4.Chunks.{four_words, low, store_chunk-done}

-- The offset that the chunks hold for block `i`.
abbrev pub stored_offset : Hybrid4 → ℕ → ℕ
stored_offset self i =
    let chunk = get_or self.chunks (i / 4) no_chunk in chunk.hi * 4096 + get_or chunk.lo (i % 4) 0

abbrev offset_in : ℕ → Chunk → ℕ
offset_in i chunk = chunk.hi * 4096 + get_or chunk.lo (i % 4) 0

module _ (s : ℕ → ℕ) where
  -- The state after the sizes of the first `n` blocks have been given.
  pub record Holds (n : ℕ) (self : Hybrid4) : Type 0 where
    pub at : self.block ≡ n
    pub end : self.end ≡ start s n
    pub ptr : self.ptr ≡ start s (4 * (n / 4))
    pub buffered : (w : ℕ) → w < n % 4 → get_or self.buffer w 0 ≡ s (4 * (n / 4) + w)
    pub four : length self.buffer ≡ 4
    pub stored : (i : ℕ) → i < 4 * (n / 4) → stored_offset self i ≡ start s i

  module _ (small : (i : ℕ) → s i ≤ max_bits) where
    -- A block that does not complete its chunk only goes to the buffer.
    step_inside :
        (n : ℕ) (self : Hybrid4)
        → Holds n self
        → (n < self.blocks) ⊎ (s n ≡ 0)
        → start s (suc n) < 2 ^ 44
        → n % 4 < 3
        → let next : Hybrid4 = record self {
          end = start s (suc n);
          buffer = set self.buffer (n % 4) (s n);
          block = suc n;
        } in
          (set_block_size self n (s n) ≡ done next) × Holds (suc n) next
    unfolding set_block_size
    step_inside n self h room below inside = (
      ground (arith, h.at, small n),
      record {
        at = refl;
        end = refl;
        ptr = ground (arith, h.ptr, ap (λ (k : ℕ). start s (4 * k)) same);
        buffered = λ w q. ground (
          arith,
          get_or-set self.buffer (n % 4) w (s n) 0,
          h.buffered w,
          same,
          ap (λ (k : ℕ). s (4 * k + w)) same,
          here w,
        );
        four = length-set self.buffer (n % 4) (s n) ∙ h.four;
        stored = λ i q. h.stored i (omega arith);
      },
    )
      where
        same : suc n / 4 ≡ n / 4
        same = omega arith

        here : (w : ℕ) → n % 4 ≡ w → s n ≡ s (4 * (n / 4) + w)
        here w e = ap s (omega arith)

    -- The buffer once its fourth size is in.
    buffer_full :
        (n : ℕ) (self : Hybrid4)
        → Holds n self
        → n % 4 ≡ 3
        → let m : ℕ = 4 * (n / 4) in
          set self.buffer (n % 4) (s n) ≡ s m ∷ s (m + 1) ∷ s (m + 2) ∷ s (m + 3) ∷ []
    buffer_full n self h last =
        four_words buffer (length-set self.buffer (n % 4) (s n) ∙ h.four)
        ∙ cc (
          slot 0 (omega arith),
          slot 1 (omega arith),
          slot 2 (omega arith),
          slot 3 (omega arith),
          first,
        )
      where
        buffer : List ℕ
        buffer = set self.buffer (n % 4) (s n)

        here : (w : ℕ) → n % 4 ≡ w → s n ≡ s (4 * (n / 4) + w)
        here w e = ap s (omega arith)

        first : s (4 * (n / 4) + 0) ≡ s (4 * (n / 4))
        first = ap s (omega arith)

        slot : (w : ℕ) → w < 4 → get_or buffer w 0 ≡ s (4 * (n / 4) + w)
        slot w q = ground (arith, get_or-set self.buffer (n % 4) w (s n) 0, h.buffered w, here w)

    -- The offsets that a new chunk holds.
    chunk_offsets :
        (m k : ℕ)
        → k < 4
        → start s m / 4096 * 4096
            + get_or (low (start s m % 4096) (s m) (s (m + 1)) (s (m + 2))) k 0
          ≡ start s (m + k)
    chunk_offsets m zero q = let e : m + 0 ≡ m = omega arith in rw e (omega arith)
    chunk_offsets m (suc zero) q = omega (arith, starts s m)
    chunk_offsets m (suc (suc zero)) q = omega (arith, starts s m)
    chunk_offsets m (suc (suc (suc zero))) q = omega (arith, starts s m)
    chunk_offsets m (suc (suc (suc (suc k)))) q = absurd (omega arith)

    -- The fourth block completes its chunk, which is stored.
    step_last :
        (n : ℕ) (self : Hybrid4)
        → Holds n self
        → (n < self.blocks) ⊎ (s n ≡ 0)
        → n < 4 * length self.chunks
        → start s (suc n) < 2 ^ 44
        → n % 4 ≡ 3
        → Returns (set_block_size self n (s n)) λ next.
          Holds (suc n) next
          × (next.blocks ≡ self.blocks)
          × (length next.chunks ≡ length self.chunks)
    unfolding set_block_size
    step_last n self h room fits below last =
        let m : ℕ = 4 * (n / 4) in
        let next_chunk : m + 4 ≡ 4 * (suc n / 4) = omega arith in
        let chunk : Chunk = record {
          hi = start s m / 4096;
          lo = low (start s m % 4096) (s m) (s (m + 1)) (s (m + 2));
        } in
        let next : Hybrid4 = record self {
          end = start s (suc n);
          buffer = s m ∷ s (m + 1) ∷ s (m + 2) ∷ s (m + 3) ∷ [];
          chunks = set self.chunks (n / 4) chunk;
          ptr = start s m + s m + s (m + 1) + s (m + 2) + s (m + 3);
          block = suc n;
        } in
        (
          next,
          (let buffered : Hybrid4 = record self {
            end = u64 (self.end + s n);
            buffer = set self.buffer (self.block % 4) (s n);
          } in
              ground (
                arith,
                small n,
                buffer_full n self h last,
                start_mono s m (suc n),
                store_chunk-done buffered (s m) (s (m + 1)) (s (m + 2)) (s (m + 3)),
                small m,
                small (m + 1),
                small (m + 2),
                small (m + 3),
              )),
          (
            record {
              at = refl;
              end = refl;
              ptr = omega (arith, starts s m, ap (start s) next_chunk);
              buffered = λ w q. absurd (omega arith);
              four = refl;
              stored = λ i q. elim (dec_lt i m) [
                | yes p ↦
                    let other : get_or next.chunks (i / 4) no_chunk
                        ≡ get_or self.chunks (i / 4) no_chunk =
                      get_or-set_ne self.chunks (n / 4) (i / 4) _ no_chunk (omega arith) in
                    ap (offset_in i) other ∙ h.stored i p
                | no p ↦
                    let same : i / 4 ≡ n / 4 = omega arith in
                    let new : get_or next.chunks (i / 4) no_chunk ≡ chunk =
                      rw same (get_or-set_self self.chunks (n / 4) _ no_chunk (omega arith)) in
                    ap (offset_in i) new
                    ∙ chunk_offsets m (i % 4) (omega arith)
                    ∙ ap (start s) (omega arith)
              ];
            },
            refl,
            length-set self.chunks (n / 4) _,
          ),
        )

    -- Either way the call returns, and the state holds one block more.
    pub step :
        (n : ℕ) (self : Hybrid4)
        → Holds n self
        → (n < self.blocks) ⊎ (s n ≡ 0)
        → n < 4 * length self.chunks
        → start s (suc n) < 2 ^ 44
        → Returns (set_block_size self n (s n)) λ next.
          Holds (suc n) next
          × (next.blocks ≡ self.blocks)
          × (length next.chunks ≡ length self.chunks)
    step n self h room fits below = elim (dec_lt (n % 4) 3) [
      | yes p ↦
          let (run, after) = step_inside n self h room below p in (_, run, (after, refl, refl))
      | no p ↦ step_last n self h room fits below (omega arith)
    ]
