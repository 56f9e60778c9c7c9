-- ===== src/BlockCache/Coherent.antt =====
-- The invariant of a block cache: cache and store together hold the values of an array.
use zfp.Prelude.{ℕ, suc, ◌≤◌, ◌<◌, ◌≡◌, ◌≢◌, inl, inr, Bool, true, false}
use zfp.Prelude.{arith, ◌==◌, ◌∙◌, sym, ap, Bool-cases}
use mathlib.Core.Path.{subst}
use zfp.BlockCache.{BlockIo, update}
use zfp.Cache.{Config, Cache, tag_at}
use zfp.Cache.Slots.{IsPlaced, lines-IsPlaced, Accessed, Accessed-IsPlaced}
use zfp.Cache.Tag
use zfp.Cache.Tag.{TagWord, used_of_index}

-- What the cache asks of a store of `blocks` blocks: encoding a block changes that block only, and
-- decoding gives back the values that lie inside the array.
pub record Lossless {S A : Type 0} (io : BlockIo S A) (blocks : ℕ) (Inside : ℕ → ℕ → Type 0)
    (Valid : S → Type 0) : Type 0 where
  pub encode-Valid : (s : S) (b : ℕ) (v : ℕ → A) → b < blocks → Valid s → Valid (io.encode s b v)
  pub decode-encode_self :
      (s : S) (b : ℕ) (v old : ℕ → A) (k : ℕ)
      → Valid s
      → b < blocks
      → Inside b k
      → io.decode (io.encode s b v) b old k ≡ v k
  pub decode-encode_ne :
      (s : S) (b b' : ℕ) (v old : ℕ → A) (k : ℕ)
      → Valid s
      → b < blocks
      → b' < blocks
      → b ≢ b'
      → Inside b' k
      → io.decode (io.encode s b v) b' old k ≡ io.decode s b' old k

module _ {S A : Type 0} (config : Config) (io : BlockIo S A) (blocks : ℕ) (Inside : ℕ → ℕ → Type 0)
    (Valid : S → Type 0) where
  -- No line in the cache has newer values of block `b` than the store.
  abbrev pub IsClean : Cache (ℕ → A) → ℕ → Type 0
  IsClean c b =
      (i : ℕ) → i ≤ c.mask → Tag.index (tag_at c i) ≡ suc b → Tag.dirty (tag_at c i) ≡ false

  -- `f b k` is the value at position `k` of block `b`: a line holds the values of its block, and
  -- the store those of each block that no dirty line holds.
  pub record Represents (f : ℕ → ℕ → A) (c : Cache (ℕ → A)) (store : S) : Type 0 where
    pub placed : IsPlaced config c
    pub valid : Valid store
    pub in_use :
        (i : ℕ)
        → i ≤ c.mask
        → Tag.used (tag_at c i) ≡ true
        → (Tag.index (tag_at c i) ≢ 0) × (Tag.index (tag_at c i) ≤ blocks)
    pub cached :
        (i b k : ℕ) → i ≤ c.mask → Tag.index (tag_at c i) ≡ suc b → Inside b k → c.lines i k ≡ f b k
    pub backed :
        (b k : ℕ) (old : ℕ → A)
        → b < blocks
        → Inside b k
        → IsClean c b
        → io.decode store b old k ≡ f b k

  module _ (f : ℕ → ℕ → A) (c : Cache (ℕ → A)) (store : S) (b : ℕ) (write : Bool)
      (r : TagWord × ℕ × Cache (ℕ → A)) (bound : b < blocks) (h : Represents f c store)
      (a : Accessed config c (suc b) write r) where
    in_use_after :
        (i : ℕ)
        → i ≤ r.2.mask
        → Tag.used (tag_at r.2 i) ≡ true
        → (Tag.index (tag_at r.2 i) ≢ 0) × (Tag.index (tag_at r.2 i) ≤ blocks)
    in_use_after i p u = ground (arith, h.in_use i, a.tags i, a.same_mask, a.holds)

    hit_tag :
        Tag.index r.0 ≡ suc b
        → (Tag.index (tag_at c r.1) ≡ suc b)
          × (Tag.dirty (tag_at c r.1) ≡ true → Tag.dirty a.tag ≡ true)
    hit_tag hit = elim a.found [ inl (_, e, kept) ↦ (e, kept) | inr (_, ne, _) ↦ absurd (ne hit) ]

    miss_tag :
        Tag.index r.0 ≢ suc b
        → (r.0 ≡ tag_at c r.1) × ((j : ℕ) → j ≤ c.mask → Tag.index (tag_at c j) ≢ suc b)
    miss_tag miss = elim a.found [
      | inl (hit, _, _) ↦ absurd (miss hit)
      | inr (same, _, absent) ↦ (same, absent)
    ]

    -- A hit changes no value.
    pub hit-Represents : Tag.index r.0 ≡ suc b → Represents f r.2 store
    hit-Represents hit = record {
      placed = Accessed-IsPlaced config c (suc b) write r h.placed a;
      valid = h.valid;
      in_use = in_use_after;
      cached = λ i b' k p e inside.
          ap (λ (g : ℕ → ℕ → A). g i k) a.same_lines
          ∙ h.cached i b' k (omega (arith, a.same_mask))
              (ground (arith, (hit_tag hit).0, a.tags i, a.holds)) inside;
      backed = λ b' k old p inside clean. h.backed b' k old p inside (λ i q e.
          ground
            (arith, (hit_tag hit).0, (hit_tag hit).1, a.tags i, a.holds, a.same_mask, clean i));
    }

    -- After a miss the line found is written back if it is dirty, and `b` is fetched there.
    pub miss-Represents :
        (store' : S)
        → Tag.index r.0 ≢ suc b
        → Valid store'
        → ((b' k : ℕ) (old : ℕ → A)
            → b' < blocks
            → Inside b' k
            → ((i : ℕ)
                → i ≤ c.mask
                → i ≢ r.1
                → Tag.index (tag_at c i) ≡ suc b'
                → Tag.dirty (tag_at c i) ≡ false)
            → io.decode store' b' old k ≡ f b' k)
        → (old : ℕ → A)
        → Represents f (record r.2 { lines = update r.2.lines r.1 (io.decode store' b old) }) store'
    miss-Represents store' miss valid backed old =
        let (same, absent) = miss_tag miss in
        record {
          placed =
              lines-IsPlaced config r.2 _ (Accessed-IsPlaced config c (suc b) write r h.placed a);
          valid = valid;
          in_use = in_use_after;
          cached = λ i b' k p e inside. elim (Bool-cases (r.1 == i)) [
            | inl here ↦
                let block : b ≡ b' = ground (arith, a.tags i, a.holds) in
                rw here (
                  backed b k old bound (subst (λ z. Inside z k) (sym block) inside)
                    (λ j q ne e'. absurd (absent j q e'))
                  ∙ ap (λ z. f z k) block)
            | inr other ↦ rw other (
                ap (λ (g : ℕ → ℕ → A). g i k) a.same_lines
                ∙ h.cached i b' k (omega (arith, a.same_mask)) (ground (arith, a.tags i)) inside)
          ];
          backed = λ b' k old p inside clean.
              backed b' k old p inside (λ i q ne e. ground (arith, a.tags i, a.same_mask, clean i));
        }
