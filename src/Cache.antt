-- ===== src/Cache.antt =====
-- include/zfp/internal/array/cache.hpp: the write-back cache of decompressed blocks, direct-mapped
-- or two-way skew-associative. A `Line*` is the number of the line, and the null pointer is `none`.
-- The macros ZFP_WITH_CACHE_TWOWAY and ZFP_WITH_CACHE_FAST_HASH are the fields of `Config`.
pub mod Tag
pub mod Slots
pub mod Size
use zfp.Prelude.{ℕ, zero, suc, ◌+◌, ◌-◌, ◌*◌, ◌/◌, ◌^◌, Bool, true, false, not, ◌&&◌, ◌||◌, List}
use zfp.Prelude.{Option, none, some, get_or, set, u32, sub32, ◌==◌, ◌!=◌, ltb, leb}
use zfp.Prelude.{if◌then◌else◌, bit_and, bit_or, bit_xor, ◌<<<◌, ◌>>>◌}
use zfp.Cache.Tag
use zfp.Cache.Tag.{TagWord}

pub record Config : Type 0 where
  pub two_way : Bool
  pub fast_hash : Bool

pub record Cache (Line : Type 0) : Type 0 where
  pub mask : ℕ
  pub tags : List TagWord
  pub lines : ℕ → Line

-- The hash of a line number, in 32-bit arithmetic.
unfoldable pub fast_hash : ℕ → ℕ
fast_hash x₀ =
    let x₁ = sub32 x₀ (u32 (x₀ <<< 7)) in
    let x₂ = bit_xor x₁ (x₁ >>> 16) in sub32 x₂ (u32 (x₂ <<< 3))

unfoldable pub jenkins_hash : ℕ → ℕ
jenkins_hash x₀ =
    let x₁ = sub32 x₀ (u32 (x₀ <<< 6)) in
    let x₂ = bit_xor x₁ (x₁ >>> 17) in
    let x₃ = sub32 x₂ (u32 (x₂ <<< 9)) in
    let x₄ = bit_xor x₃ (u32 (x₃ <<< 4)) in
    let x₅ = sub32 x₄ (u32 (x₄ <<< 3)) in
    let x₆ = bit_xor x₅ (u32 (x₅ <<< 10)) in bit_xor x₆ (x₆ >>> 15)

-- The loop of `resize`: the smallest 2^k - 1 from `mask` on. A round sets one more low bit, so
-- 32 rounds are enough for a 32-bit mask.
unfoldable pub round_mask : ℕ → ℕ → ℕ
round_mask zero mask = mask
round_mask (suc fuel) mask = elim (bit_and mask (mask + 1) != 0) [
  | true ↦ round_mask fuel (bit_or mask (mask + 1))
  | _ ↦ mask
]

module _ {Line : Type 0} where
  unfoldable pub primary : Cache Line → ℕ → ℕ
  primary c x = bit_and x c.mask

  unfoldable pub secondary : Config → Cache Line → ℕ → ℕ
  secondary config c x = bit_and (if config.fast_hash then fast_hash x else jenkins_hash x) c.mask

  abbrev pub tag_at : Cache Line → ℕ → TagWord
  tag_at c i = get_or c.tags i 0

  unfoldable pub size : Cache Line → ℕ
  size c = c.mask + 1

  unfoldable pub set_tag : Cache Line → ℕ → TagWord → Cache Line
  set_tag c i t = record c { tags = set c.tags i t }

  unfoldable pub mark_if : Bool → Cache Line → ℕ → Cache Line
  mark_if write c i = if write then set_tag c i (Tag.mark (tag_at c i)) else c

  -- `lookup`: where line `x` is, if it is in the cache.
  unfoldable pub lookup : Config → Cache Line → ℕ → Bool → Option ℕ × Cache Line
  lookup config c x write =
      let i = primary c x in
      let j = secondary config c x in
      if Tag.index (tag_at c i) == x
      then (some i, mark_if write c i)
      else if config.two_way && (Tag.index (tag_at c j) == x)
      then (some j, mark_if write c i)
      else (none, c)

  -- Which of the two slots a line that is not in the cache is to take.
  unfoldable pub victim : Config → Cache Line → ℕ → ℕ
  victim config c x =
      let i = primary c x in
      let j = secondary config c x in
      let keep =
        Tag.used (tag_at c j) && (not (Tag.dirty (tag_at c i)) || Tag.dirty (tag_at c j)) in
      if config.two_way then (if keep then i else j) else i

  -- `access`: the tag found, the number of the line, and the cache.
  unfoldable pub access : Config → Cache Line → ℕ → Bool → TagWord × ℕ × Cache Line
  access config c x write =
      let i = primary c x in
      let j = secondary config c x in
      let v = victim config c x in
      if Tag.index (tag_at c i) == x
      then (let c' = mark_if write c i in (tag_at c' i, i, c'))
      else if config.two_way && (Tag.index (tag_at c j) == x)
      then (let c' = mark_if write c j in (tag_at c' j, j, c'))
      else (tag_at c v, v, set_tag c v (Tag.new x write))

  -- The loop of `clear`, from slot `i` on.
  unfoldable pub clear_from : ℕ → ℕ → Cache Line → Cache Line
  clear_from zero i c = c
  clear_from (suc rounds) i c = clear_from rounds (i + 1) (set_tag c i Tag.clear)

  unfoldable pub clear : Cache Line → Cache Line
  clear c = clear_from (c.mask + 1) 0 c

  -- The allocator's tags and lines are arguments.
  unfoldable pub resize : ℕ → List TagWord → (ℕ → Line) → Cache Line
  resize minsize fresh_tags fresh_lines =
      let mask = round_mask 32 (if minsize != 0 then minsize - 1 else 1) in
      clear (record { mask = mask; tags = fresh_tags; lines = fresh_lines })

  unfoldable pub flush : Cache Line → ℕ → Cache Line
  flush c l = set_tag c l Tag.clear

  -- `const_iterator::advance`: the next slot in use from `i` on, in `rounds` slots.
  unfoldable pub next_used : ℕ → Cache Line → ℕ → Option ℕ
  next_used zero c i = none
  next_used (suc rounds) c i = elim (Tag.used (tag_at c i)) [
    | true ↦ some i
    | _ ↦ next_used rounds c (i + 1)
  ]
