-- ===== src/Cache/Slots.antt =====
-- Where the lines of a cache are: the invariant on the tags, and what `access` does.
use zfp.Prelude.{
  ℕ, zero, suc, ◌+◌, ◌≤◌, ◌^◌, ◌<◌, ◌≡◌, ◌≢◌, refl, ◌⊎◌, inl, inr, Bool, true, false, arith, ◌==◌,
}
use zfp.Prelude.{
  length, length-set, get_or-set, get_or-set_self, ap, none, some, if◌then◌else◌, Bool-cases, ◌&&◌,
  ◌∙◌, sym,
}
use zfp.Prelude.Bits.{bit_and-le}
use native.Mathlib.Decide.{ℕ_discrete}
use native.Mathlib.Nat.{le_refl}
use zfp.Cache.{
  Config, Cache, primary, secondary, tag_at, set_tag, mark_if, victim, access, flush, next_used,
}
use zfp.Cache.Tag
use zfp.Cache.Tag.{TagWord, new_parts, mark_parts}

module _ {Line : Type 0} (config : Config) where
  -- Every line number is at one of its own slots, and at one slot only.
  pub record IsPlaced (c : Cache Line) : Type 0 where
    pub sized : length c.tags ≡ c.mask + 1
    pub home :
        (i : ℕ)
        → i ≤ c.mask
        → Tag.index (tag_at c i) ≢ 0
        → (i ≡ primary c (Tag.index (tag_at c i)))
          ⊎ ((config.two_way ≡ true) × (i ≡ secondary config c (Tag.index (tag_at c i))))
    pub unique :
        (i j : ℕ)
        → i ≤ c.mask
        → j ≤ c.mask
        → Tag.index (tag_at c i) ≢ 0
        → Tag.index (tag_at c i) ≡ Tag.index (tag_at c j)
        → i ≡ j

  -- The invariant says nothing of the lines' values.
  pub lines-IsPlaced :
      (c : Cache Line) (values : ℕ → Line) → IsPlaced c → IsPlaced (record c { lines = values })
  unfolding primary secondary
  lines-IsPlaced c values placed = record {
    sized = placed.sized;
    home = placed.home;
    unique = placed.unique;
  }

  -- What `access` returns for line `x`: slot `i` now holds `x`, and the tag found there is `x`'s
  -- own (a hit), or that of another line while `x` was nowhere in the cache (a miss).
  pub record Accessed (c : Cache Line) (x : ℕ) (write : Bool) (r : TagWord × ℕ × Cache Line)
      : Type 0 where
    pub tag : TagWord
    pub same_mask : r.2.mask ≡ c.mask
    pub same_lines : r.2.lines ≡ c.lines
    pub same_size : length r.2.tags ≡ length c.tags
    pub in_range : r.1 ≤ c.mask
    pub at_home : (r.1 ≡ primary c x) ⊎ ((config.two_way ≡ true) × (r.1 ≡ secondary config c x))
    pub tags : (j : ℕ) → tag_at r.2 j ≡ (if r.1 == j then tag else tag_at c j)
    pub holds : Tag.index tag ≡ x
    pub marked : write ≡ true → Tag.dirty tag ≡ true
    pub found :
        ((Tag.index r.0 ≡ x)
          × (Tag.index (tag_at c r.1) ≡ x)
          × (Tag.dirty (tag_at c r.1) ≡ true → Tag.dirty tag ≡ true))
        ⊎ ((r.0 ≡ tag_at c r.1)
            × (Tag.index r.0 ≢ x)
            × ((j : ℕ) → j ≤ c.mask → Tag.index (tag_at c j) ≢ x))

  primary-le : (c : Cache Line) (x : ℕ) → primary c x ≤ c.mask
  unfolding primary
  primary-le c x = bit_and-le x c.mask

  secondary-le : (c : Cache Line) (x : ℕ) → secondary config c x ≤ c.mask
  unfolding secondary
  secondary-le c x = bit_and-le _ c.mask

  -- A hit at slot `i` marks the tag there and changes no other.
  hit-Accessed :
      (c : Cache Line) (x : ℕ) (write : Bool) (i : ℕ)
      → length c.tags ≡ c.mask + 1
      → i ≤ c.mask
      → (i ≡ primary c x) ⊎ ((config.two_way ≡ true) × (i ≡ secondary config c x))
      → Tag.index (tag_at c i) ≡ x
      → Accessed c x write (tag_at (mark_if write c i) i, i, mark_if write c i)
  unfolding mark_if set_tag
  hit-Accessed c x true i sized le at e =
      let t : TagWord = Tag.mark (tag_at c i) in
      let (same, marked) = mark_parts (tag_at c i) in
      let stored : tag_at (set_tag c i t) i ≡ t =
        get_or-set_self c.tags i t 0 (omega (arith, sized, le)) in
      record {
        tag = t;
        same_mask = refl;
        same_lines = refl;
        same_size = length-set c.tags i t;
        in_range = le;
        at_home = at;
        tags = λ j. get_or-set c.tags i j t 0 (omega (arith, sized, le));
        holds = same ∙ e;
        marked = λ w. marked;
        found = inl (ap Tag.index stored ∙ same ∙ e, e, λ d. marked);
      }
  hit-Accessed c x false i sized le at e = record {
    tag = tag_at c i;
    same_mask = refl;
    same_lines = refl;
    same_size = refl;
    in_range = le;
    at_home = at;
    tags = λ j. ground (arith, λ (p : i ≡ j). ap (tag_at c) p);
    holds = e;
    marked = λ w. cc;
    found = inl (e, e, λ d. d);
  }

  -- A miss gives the slot's tag to `x`; by the invariant no other slot can hold `x`.
  miss-Accessed :
      (c : Cache Line) (x : ℕ) (write : Bool) (v : ℕ)
      → IsPlaced c
      → x ≢ 0
      → x < 2 ^ 31
      → (v ≡ primary c x) ⊎ ((config.two_way ≡ true) × (v ≡ secondary config c x))
      → Tag.index (tag_at c (primary c x)) ≢ x
      → (config.two_way ≡ true → Tag.index (tag_at c (secondary config c x)) ≢ x)
      → Accessed c x write (tag_at c v, v, set_tag c v (Tag.new x write))
  unfolding set_tag
  miss-Accessed c x write v placed pos small at first second =
      let t : TagWord = Tag.new x write in
      let (holds, dirty) = new_parts x write small in
      let le : v ≤ c.mask = elim at [
        | inl e ↦ rw e (primary-le c x)
        | inr (_, e) ↦ rw e (secondary-le c x)
      ] in
      let absent : (j : ℕ) → j ≤ c.mask → Tag.index (tag_at c j) ≢ x = λ j p e.
        elim (rw e at (placed.home j p (λ z. pos (sym e ∙ z)))) [
          | inl q ↦ first (ap (λ k. Tag.index (tag_at c k)) (sym q) ∙ e)
          | inr (w, q) ↦ second w (ap (λ k. Tag.index (tag_at c k)) (sym q) ∙ e)
        ] in
      record {
        tag = t;
        same_mask = refl;
        same_lines = refl;
        same_size = length-set c.tags v t;
        in_range = le;
        at_home = at;
        tags = λ j. get_or-set c.tags v j t 0 (omega (arith, placed.sized));
        holds = holds;
        marked = λ w. dirty ∙ w;
        found = inr (refl, absent v le, absent);
      }

  access_first :
      (c : Cache Line) (x : ℕ) (write : Bool)
      → (Tag.index (tag_at c (primary c x)) == x) ≡ true
      → let i = primary c x in
        let c' = mark_if write c i in access config c x write ≡ (tag_at c' i, i, c')
  unfolding access
  access_first c x write e = rw e

  access_second :
      (c : Cache Line) (x : ℕ) (write : Bool)
      → (Tag.index (tag_at c (primary c x)) == x) ≡ false
      → (config.two_way && (Tag.index (tag_at c (secondary config c x)) == x)) ≡ true
      → let j = secondary config c x in
        let c' = mark_if write c j in access config c x write ≡ (tag_at c' j, j, c')
  unfolding access
  access_second c x write e f = rw (e, f)

  access_none :
      (c : Cache Line) (x : ℕ) (write : Bool)
      → (Tag.index (tag_at c (primary c x)) == x) ≡ false
      → (config.two_way && (Tag.index (tag_at c (secondary config c x)) == x)) ≡ false
      → let v = victim config c x in
        access config c x write ≡ (tag_at c v, v, set_tag c v (Tag.new x write))
  unfolding access
  access_none c x write e f = rw (e, f)

  victim_home :
      (c : Cache Line) (x : ℕ)
      → (victim config c x ≡ primary c x)
        ⊎ ((config.two_way ≡ true) × (victim config c x ≡ secondary config c x))
  unfolding victim
  victim_home c x = ground arith

  -- In a cache with every line at a place of its own, `access` of a line other than 0, below
  -- 2^31, finds the line or makes room for it, in either configuration.
  pub access-Accessed :
      (c : Cache Line) (x : ℕ) (write : Bool)
      → IsPlaced c
      → x ≢ 0
      → x < 2 ^ 31
      → Accessed c x write (access config c x write)
  access-Accessed c x write placed pos small =
      elim (Bool-cases (Tag.index (tag_at c (primary c x)) == x)) [
        | inl e ↦ rw (access_first c x write e) (
            hit-Accessed c x write (primary c x) placed.sized (primary-le c x) (inl refl)
              (ground arith))
        | inr e ↦
            elim (Bool-cases
              (config.two_way && (Tag.index (tag_at c (secondary config c x)) == x))) [
                | inl f ↦ rw (access_second c x write e f) (
                    hit-Accessed c x write (secondary config c x) placed.sized (secondary-le c x)
                      (inr (ground arith, refl)) (ground arith))
                | inr f ↦ rw (access_none c x write e f) (
                    miss-Accessed c x write (victim config c x) placed pos small (victim_home c x)
                      (ground arith) (λ w. ground arith))
              ]
      ]

  -- An access, as described by `Accessed`, keeps the invariant of the tags.
  pub Accessed-IsPlaced :
      (c : Cache Line) (x : ℕ) (write : Bool) (r : TagWord × ℕ × Cache Line)
      → IsPlaced c
      → Accessed c x write r
      → IsPlaced r.2
  unfolding primary secondary
  Accessed-IsPlaced c x write r placed a = record {
    sized = a.same_size ∙ placed.sized ∙ omega (arith, a.same_mask);
    home = λ k p h. ground (arith, placed.home k, a.tags k);
    unique = λ k l p q h e. ground (
      arith,
      placed.unique k l,
      placed.unique r.1 l,
      placed.unique k r.1,
      a.tags k,
      a.tags l,
      absent k,
      absent l,
    );
  }
    where
      absent : (j : ℕ) → (Tag.index r.0 ≢ x) → j ≤ c.mask → Tag.index (tag_at c j) ≢ x
      absent j ne le = elim a.found [
        | inl (e, _, _) ↦ absurd (ne e)
        | inr (_, _, missing) ↦ missing j le
      ]

  -- `access` of a line other than 0, below 2^31, in a cache with every line at a place of its own
  -- leaves every line at a place of its own, in either configuration, and the accessed line at the
  -- slot that is returned and at no other.
  pub access-IsPlaced :
      (c : Cache Line) (x : ℕ) (write : Bool)
      → IsPlaced c
      → x ≢ 0
      → x < 2 ^ 31
      → let r = access config c x write in
        IsPlaced r.2
        × (Tag.index (tag_at r.2 r.1) ≡ x)
        × ((j : ℕ) → j ≤ c.mask → Tag.index (tag_at r.2 j) ≡ x → j ≡ r.1)
  access-IsPlaced c x write placed pos small =
      let r = access config c x write in
      let a = access-Accessed c x write placed pos small in
      let placed' = Accessed-IsPlaced c x write r placed a in
      let here : Tag.index (tag_at r.2 r.1) ≡ x = ground (arith, a.tags r.1, a.holds) in
      (
        placed',
        here,
        λ j le e.
            placed'.unique j r.1 (omega (arith, a.same_mask, le))
              (omega (arith, a.same_mask, a.in_range)) (λ z. pos (sym e ∙ z)) (e ∙ sym here),
      )

  pub tag_at-flush :
      (c : Cache Line) (p j : ℕ)
      → IsPlaced c
      → p ≤ c.mask
      → tag_at (flush c p) j ≡ (if p == j then Tag.clear else tag_at c j)
  unfolding flush set_tag
  tag_at-flush c p j placed le = get_or-set c.tags p j Tag.clear 0 (omega (arith, placed.sized))

  -- Taking a line out keeps the invariant.
  pub flush-IsPlaced : (c : Cache Line) (p : ℕ) → IsPlaced c → p ≤ c.mask → IsPlaced (flush c p)
  unfolding flush set_tag primary secondary Tag.clear Tag.index
  flush-IsPlaced c p placed le = record {
    sized = length-set c.tags p 0 ∙ placed.sized;
    home = λ i q h. ground (arith, placed.home i, tag_at-flush c p i placed le);
    unique = λ i j q q' h e.
        ground
          (arith, placed.unique i j, tag_at-flush c p i placed le, tag_at-flush c p j placed le);
  }

  next_used_here :
      (rounds : ℕ) (c : Cache Line) (i : ℕ)
      → Tag.used (tag_at c i) ≡ true
      → next_used (suc rounds) c i ≡ some i
  unfolding next_used
  next_used_here rounds c i u = rw (u, next_used)

  next_used_skip :
      (rounds : ℕ) (c : Cache Line) (i : ℕ)
      → Tag.used (tag_at c i) ≡ false
      → next_used (suc rounds) c i ≡ next_used rounds c (i + 1)
  unfolding next_used
  next_used_skip rounds c i u = rw (u, next_used)

  -- `next_used` gives the first line in use from `i` on, if there is one.
  pub next_used_lem :
      (rounds : ℕ) (c : Cache Line) (i : ℕ)
      → ((next_used rounds c i ≡ none)
          × ((j : ℕ) → i ≤ j → j < i + rounds → Tag.used (tag_at c j) ≡ false))
        ⊎ ((p : ℕ) × (next_used rounds c i ≡ some p)
            × (i ≤ p)
            × (p < i + rounds)
            × ((j : ℕ) → i ≤ j → j < p → Tag.used (tag_at c j) ≡ false))
  unfolding next_used
  next_used_lem zero c i = inl (refl, λ j q q'. absurd (omega arith))
  next_used_lem (suc rounds) c i = elim (Bool-cases (Tag.used (tag_at c i))) [
    | inl u ↦
        inr (i, next_used_here rounds c i u, le_refl i, omega arith, λ j q q'. absurd (omega arith))
    | inr n ↦ elim (next_used_lem rounds c (i + 1)) [
      | inl (e, all) ↦ inl (
        next_used_skip rounds c i n ∙ e,
        λ j q q'. elim (ℕ_discrete i j) [
          | yes same ↦ ap (λ k. Tag.used (tag_at c k)) (sym same) ∙ n
          | no other ↦ all j (omega arith) (omega arith)
        ],
      )
      | inr (p, e, le, lt, all) ↦ inr (
        p,
        next_used_skip rounds c i n ∙ e,
        omega arith,
        omega arith,
        λ j q q'. elim (ℕ_discrete i j) [
          | yes same ↦ ap (λ k. Tag.used (tag_at c k)) (sym same) ∙ n
          | no other ↦ all j (omega arith) (omega arith)
        ],
      )
    ]
  ]
