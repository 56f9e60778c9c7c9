-- ===== src/BlockCache/Flush.antt =====
-- `flush` of a block cache over a lossless store: every value reaches the store.
use zfp.Prelude.{ℕ, zero, suc, ◌+◌, ◌-◌, ◌^◌, ◌≤◌, ◌<◌, ◌≡◌, refl, inl, inr, false, none, some}
use zfp.Prelude.{arith, ◌∙◌, sym, Bool-cases}
use mathlib.Core.Bool.{false≢true}
use native.Mathlib.Decide.{dec_lt}
use zfp.BlockCache.{BlockIo, State, flush_line, flush_from, flush}
use zfp.BlockCache.Coherent.{Lossless, Represents}
use zfp.BlockCache.Line.{write_back-backed}
use zfp.Cache.{Config, Cache, tag_at}
use zfp.Cache.Slots.{tag_at-flush, flush-IsPlaced, next_used_lem}
use zfp.Cache
use zfp.Cache.Tag
use zfp.Cache.Tag.{clear_parts, used_of_dirty}

module _ {S A : Type 0} (config : Config) (io : BlockIo S A) (blocks : ℕ) (Inside : ℕ → ℕ → Type 0)
    (Valid : S → Type 0) (law : Lossless io blocks Inside Valid) (small : blocks < 2 ^ 31) where
  abbrev Holds : (ℕ → ℕ → A) → State S A → Type 0
  Holds f s = Represents config io blocks Inside Valid f s.cache s.store

  flush_line-Holds :
      (f : ℕ → ℕ → A) (s : State S A) (p : ℕ)
      → Holds f s
      → p ≤ s.cache.mask
      → Holds f (flush_line config io s p)
  unfolding flush_line Cache.flush Cache.set_tag
  flush_line-Holds f s p h le =
      let (valid, backed) = write_back-backed config io blocks Inside Valid law small f s p h le in
      record {
        placed = flush-IsPlaced config s.cache p h.placed le;
        valid = valid;
        in_use = λ i q u.
            ground (arith, h.in_use i, tag_at-flush config s.cache p i h.placed le, clear_parts);
        cached = λ i b k q e inside.
            h.cached i b k q
              (ground (arith, tag_at-flush config s.cache p i h.placed le, clear_parts, e)) inside;
        backed = λ b k old q inside clean.
            backed b k old q inside
              (λ i q' ne e. ground (arith, clean i, tag_at-flush config s.cache p i h.placed le));
      }

  -- The lines below `i` are not in use.
  abbrev Emptied : ℕ → State S A → Type 0
  Emptied i s = (j : ℕ) → j < i → j ≤ s.cache.mask → Tag.used (tag_at s.cache j) ≡ false

  flush_from_stop :
      (rounds i : ℕ) (s : State S A)
      → Cache.next_used (s.cache.mask + 1 - i) s.cache i ≡ none
      → flush_from config io (suc rounds) i s ≡ s
  unfolding flush_from
  flush_from_stop rounds i s e = rw (e, flush_from)

  flush_from_next :
      (rounds i p : ℕ) (s : State S A)
      → Cache.next_used (s.cache.mask + 1 - i) s.cache i ≡ some p
      → flush_from config io (suc rounds) i s
        ≡ flush_from config io rounds (p + 1) (flush_line config io s p)
  unfolding flush_from
  flush_from_next rounds i p s e = rw (e, flush_from)

  flush_line-Emptied :
      (i p : ℕ) (s : State S A) (f : ℕ → ℕ → A)
      → Holds f s
      → p ≤ s.cache.mask
      → ((j : ℕ) → j < p → Tag.used (tag_at s.cache j) ≡ false)
      → Emptied (p + 1) (flush_line config io s p)
  unfolding flush_line
  flush_line-Emptied i p s f h le all j q q' =
      ground (arith, tag_at-flush config s.cache p j h.placed le, clear_parts, all j)

  same_mask : (s : State S A) (p : ℕ) → (flush_line config io s p).cache.mask ≡ s.cache.mask
  unfolding flush_line Cache.flush Cache.set_tag
  same_mask s p = refl

  flush_from-Holds :
      (f : ℕ → ℕ → A) (rounds i : ℕ) (s : State S A)
      → Holds f s
      → Emptied i s
      → s.cache.mask + 1 ≤ rounds + i
      → let s' = flush_from config io rounds i s in Holds f s' × Emptied (s'.cache.mask + 1) s'
  flush_from-Holds f zero i s h empty enough =
      rw flush_from_zero (h, λ j q q'. empty j (omega arith) q')
    where
      flush_from_zero : flush_from config io zero i s ≡ s
      flush_from_zero = unfold flush_from in refl
  flush_from-Holds f (suc rounds) i s h empty enough =
      elim (next_used_lem config (s.cache.mask + 1 - i) s.cache i) [
        | inl (e, all) ↦ rw (flush_from_stop rounds i s e) (
          h,
          λ j q q'. elim (dec_lt j i) [
            | yes below ↦ empty j below q'
            | no above ↦ all j (omega arith) (omega arith)
          ],
        )
        | inr (p, e, le, lt, all) ↦ rw (flush_from_next rounds i p s e) (
            let in_range : p ≤ s.cache.mask = omega arith in
            let below : (j : ℕ) → j < p → Tag.used (tag_at s.cache j) ≡ false = λ j q.
              elim (dec_lt j i) [
                | yes before ↦ empty j before (omega arith)
                | no after ↦ all j (omega arith) q
              ] in
            flush_from-Holds f rounds (p + 1) (flush_line config io s p)
              (flush_line-Holds f s p h in_range) (flush_line-Emptied i p s f h in_range below)
              (omega (arith, same_mask s p)))
      ]

  -- After flushing a cache over a lossless store of fewer than 2^31 blocks, the store alone
  -- gives back every value inside the array.
  pub flush-decode :
      (f : ℕ → ℕ → A) (s : State S A) (b k : ℕ) (old : ℕ → A)
      → Represents config io blocks Inside Valid f s.cache s.store
      → b < blocks
      → Inside b k
      → io.decode (flush config io s).store b old k ≡ f b k
  unfolding flush
  flush-decode f s b k old h bound inside =
      let after : State S A = flush_from config io (s.cache.mask + 1) 0 s in
      let (held, empty) =
        flush_from-Holds f (s.cache.mask + 1) 0 s h (λ j q q'. absurd (omega arith))
          (omega arith) in
      held.backed b k old bound inside (λ i q e.
        elim (Bool-cases (Tag.dirty (tag_at after.cache i))) [
          | inl d ↦
              absurd (
                false≢true (sym (empty i (omega arith) q) ∙ used_of_dirty (tag_at after.cache i) d))
          | inr n ↦ n
        ])
