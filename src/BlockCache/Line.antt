-- ===== src/BlockCache/Line.antt =====
-- `line`, `get` and `set` of a block cache over a lossless store: they act on one array of values.
use zfp.Prelude.{ℕ, suc, ◌+◌, ◌^◌, ◌≤◌, ◌<◌, ◌≡◌, ◌≢◌, refl, inl, inr, Bool, true, false}
use zfp.Prelude.{arith, ◌==◌, ◌!=◌, if◌then◌else◌, ◌∙◌, sym, ap, Bool-cases, u32, sub32}
use zfp.BlockCache.{BlockIo, State, update, write_back, fetch, line, get, set}
use zfp.BlockCache.Coherent.{Lossless, Represents, hit-Represents, miss-Represents}
use zfp.Cache.{Config, Cache, tag_at, access}
use zfp.Cache.Slots.{lines-IsPlaced, Accessed, access-Accessed}
use zfp.Cache.Tag
use zfp.Cache.Tag.{TagWord, used_of_dirty, index_of_unused}
use native.Mathlib.Decide.{ℕ_discrete}
use mathlib.Core.Path.{subst}

module _ {S A : Type 0} (config : Config) (io : BlockIo S A) (blocks : ℕ) (Inside : ℕ → ℕ → Type 0)
    (Valid : S → Type 0) (law : Lossless io blocks Inside Valid) (small : blocks < 2 ^ 31) where
  abbrev pub Models : (ℕ → ℕ → A) → State S A → Type 0
  Models f s = Represents config io blocks Inside Valid f s.cache s.store

  -- The block that a dirty line holds.
  dirty_block :
      (f : ℕ → ℕ → A) (s : State S A) (p : ℕ)
      → Models f s
      → p ≤ s.cache.mask
      → Tag.dirty (tag_at s.cache p) ≡ true
      → let e = sub32 (Tag.index (tag_at s.cache p)) 1 in
        (Tag.index (tag_at s.cache p) ≡ suc e) × (e < blocks)
  dirty_block f s p h le dirty =
      let used = h.in_use p le (used_of_dirty (tag_at s.cache p) dirty) in
      (omega (arith, used), omega (arith, used))

  -- The store after a write-back holds the values of the line that was written back, too.
  pub write_back-backed :
      (f : ℕ → ℕ → A) (s : State S A) (p : ℕ)
      → Models f s
      → p ≤ s.cache.mask
      → let store' = write_back config io (tag_at s.cache p) (s.cache.lines p) s.store in
        Valid store'
        × ((b k : ℕ) (old : ℕ → A)
            → b < blocks
            → Inside b k
            → ((i : ℕ)
                → i ≤ s.cache.mask
                → i ≢ p
                → Tag.index (tag_at s.cache i) ≡ suc b
                → Tag.dirty (tag_at s.cache i) ≡ false)
            → io.decode store' b old k ≡ f b k)
  unfolding write_back
  write_back-backed f s p h le = elim (Bool-cases (Tag.dirty (tag_at s.cache p))) [
    | inl dirty ↦
        let e : ℕ = sub32 (Tag.index (tag_at s.cache p)) 1 in
        let (number, in_range) = dirty_block f s p h le dirty in
        rw dirty (
          law.encode-Valid s.store e (s.cache.lines p) in_range h.valid,
          λ b k old bound inside clean. elim (ℕ_discrete e b) [
            | yes same ↦
                subst (λ z. io.decode (io.encode s.store e (s.cache.lines p)) z old k ≡ f z k) same
                  (law.decode-encode_self s.store e (s.cache.lines p) old k h.valid in_range
                      (subst (λ z. Inside z k) (sym same) inside)
                    ∙ h.cached p e k le number (subst (λ z. Inside z k) (sym same) inside))
            | no differs ↦
                law.decode-encode_ne s.store e b (s.cache.lines p) old k h.valid in_range bound
                  differs inside
                ∙ h.backed b k old bound inside (λ i q number'. elim (ℕ_discrete i p) [
                  | yes here ↦
                      absurd (
                        differs
                          (omega (arith, number, ap (λ j. Tag.index (tag_at s.cache j)) here)))
                  | no other ↦ clean i q other number'
                ])
          ],
        )
    | inr clean_line ↦ rw clean_line (
      h.valid,
      λ b k old bound inside clean. h.backed b k old bound inside (λ i q e. elim (ℕ_discrete i p) [
        | yes here ↦ ap (λ j. Tag.dirty (tag_at s.cache j)) here ∙ clean_line
        | no other ↦ clean i q other e
      ]),
    )
  ]

  tag_bound :
      (f : ℕ → ℕ → A) (s : State S A) (i : ℕ)
      → Models f s
      → i ≤ s.cache.mask
      → Tag.index (tag_at s.cache i) ≤ blocks
  tag_bound f s i h le = elim (Bool-cases (Tag.used (tag_at s.cache i))) [
    | inl used ↦ (h.in_use i le used).1
    | inr unused ↦ omega (arith, index_of_unused (tag_at s.cache i) unused)
  ]

  -- The cache still holds the values of `f`, and line `p` is that of block `b`.
  record Reached (f : ℕ → ℕ → A) (b : ℕ) (write : Bool) (out : ℕ × State S A) : Type 0 where
    models : Models f out.1
    in_range : out.0 ≤ out.1.cache.mask
    number : Tag.index (tag_at out.1.cache out.0) ≡ suc b
    marked : write ≡ true → Tag.dirty (tag_at out.1.cache out.0) ≡ true

  module _ (f : ℕ → ℕ → A) (s : State S A) (b : ℕ) (write : Bool) (bound : b < blocks)
      (h : Models f s) (r : TagWord × ℕ × Cache (ℕ → A))
      (a : Accessed config s.cache (suc b) write r) where
    own_tag : tag_at r.2 r.1 ≡ a.tag
    own_tag = ground (arith, a.tags r.1)

    found_hit :
        Tag.index r.0 ≡ suc b → Reached f b write (r.1, record { cache = r.2; store = s.store })
    found_hit hit = record {
      models =
          hit-Represents config io blocks Inside Valid f s.cache s.store b write r bound h a hit;
      in_range = omega (arith, a.in_range, a.same_mask);
      number = ap Tag.index own_tag ∙ a.holds;
      marked = λ w. ap Tag.dirty own_tag ∙ a.marked w;
    }

    found_miss :
        r.0 ≡ tag_at s.cache r.1
        → Tag.index r.0 ≢ suc b
        → Reached f b write (r.1, fetch config io r.0 r.1 b r.2 s.store)
    unfolding fetch
    found_miss same miss =
        let Restores : S → Type 0 = λ store'.
          Valid store'
          × ((b' k : ℕ) (old : ℕ → A)
              → b' < blocks
              → Inside b' k
              → ((i : ℕ)
                  → i ≤ s.cache.mask
                  → i ≢ r.1
                  → Tag.index (tag_at s.cache i) ≡ suc b'
                  → Tag.dirty (tag_at s.cache i) ≡ false)
              → io.decode store' b' old k ≡ f b' k) in
        let e : write_back config io (tag_at s.cache r.1) (s.cache.lines r.1) s.store
            ≡ write_back config io r.0 (r.2.lines r.1) s.store =
          cc (a.same_lines, same) in
        let (valid, backed) = subst Restores e (write_back-backed f s r.1 h a.in_range) in
        record {
          models =
              miss-Represents config io blocks Inside Valid f s.cache s.store b write r bound h a _
                miss valid backed (r.2.lines r.1);
          in_range = omega (arith, a.in_range, a.same_mask);
          number = ap Tag.index own_tag ∙ a.holds;
          marked = λ w. ap Tag.dirty own_tag ∙ a.marked w;
        }

    reached : Reached f b write (
        if sub32 (Tag.index r.0) 1 != b
        then (r.1, fetch config io r.0 r.1 b r.2 s.store)
        else (r.1, record { cache = r.2; store = s.store }))
    reached = elim a.found [
      | inl (hit, _, _) ↦
          let e : (sub32 (Tag.index r.0) 1 != b) ≡ false = ground arith in rw e (found_hit hit)
      | inr (same, miss, _) ↦
          let le : Tag.index (tag_at s.cache r.1) ≤ blocks = tag_bound f s r.1 h a.in_range in
          let le' : Tag.index r.0 ≤ blocks = rw same le in
          let e : (sub32 (Tag.index r.0) 1 != b) ≡ true = ground arith in
          rw e (found_miss same miss)
    ]

  line-Reached :
      (f : ℕ → ℕ → A) (s : State S A) (b : ℕ) (write : Bool)
      → b < blocks
      → Models f s
      → Reached f b write (line config io s b write)
  unfolding line
  line-Reached f s b write bound h =
      let x : u32 (u32 b + 1) ≡ suc b = omega arith in
      rw x (
        reached f s b write bound h (access config s.cache (suc b) write)
          (access-Accessed config s.cache (suc b) write h.placed (omega arith) (omega arith)))

  -- Over a lossless store of fewer than 2^31 blocks, reading a position of a block inside the
  -- array gives the value of `f` there and leaves an array of the same values.
  pub get-Models :
      (f : ℕ → ℕ → A) (s : State S A) (b pos : ℕ)
      → b < blocks
      → Inside b pos
      → Models f s
      → let (v, s') = get config io s b pos in (v ≡ f b pos) × Models f s'
  unfolding get
  get-Models f s b pos bound inside h =
      let reach = line-Reached f s b false bound h in
      (reach.models.cached _ b pos reach.in_range reach.number inside, reach.models)

  -- The array with one value changed.
  abbrev pub assign : (ℕ → ℕ → A) → ℕ → ℕ → A → (ℕ → ℕ → A)
  assign f b pos v b' k = if b == b' then update (f b) pos v k else f b' k

  -- Over a lossless store of fewer than 2^31 blocks, writing a position of a block changes
  -- that value of the array only.
  pub set-Models :
      (f : ℕ → ℕ → A) (s : State S A) (b pos : ℕ) (v : A)
      → b < blocks
      → Models f s
      → Models (assign f b pos v) (set config io s b pos v)
  unfolding set
  set-Models f s b pos v bound h =
      let reach = line-Reached f s b true bound h in
      let m = reach.models in
      record {
        placed = lines-IsPlaced config _ _ m.placed;
        valid = m.valid;
        in_use = m.in_use;
        cached = λ i b' k p e inside. ground (
          arith,
          m.cached i b' k p e inside,
          m.placed.unique i (line config io s b true).0 p reach.in_range,
          reach.number,
          e,
        );
        backed = λ b' k old p inside clean. ground (
          arith,
          m.backed b' k old p inside clean,
          clean (line config io s b true).0 reach.in_range,
          reach.number,
          reach.marked refl,
        );
      }
