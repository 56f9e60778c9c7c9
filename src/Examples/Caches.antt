-- ===== src/Examples/Caches.antt =====
-- A cache of four lines in front of the arrays of the grids, over a codec that keeps the values of
-- each block at its bit offset.
use zfp.Prelude.{
  ℕ, zero, suc, ◌⊎◌, ◌*◌, ◌<◌, ◌≤◌, ◌≡◌, refl, arith, ap, true, false, ◌^◌, [], ◌∷◌, ◌∙◌, sym, ◌/◌,
}
use native.Mathlib.Nat.{suc-ne-zero}
use zfp.BlockCache
use zfp.BlockCache.{State, BlockIo, update}
use zfp.BlockCache.Coherent.{Lossless}
use zfp.BlockCache.Flush.{flush-decode}
use zfp.BlockCache.Line.{Models, set-Models, assign}
use zfp.Cache
use mathlib.Core.Bool.{false≢true}
use zfp.Cache.{Config, Cache, tag_at}
use zfp.Cache.Slots.{IsPlaced, Accessed, access-Accessed, access-IsPlaced}
use zfp.Cache.Size.{IsRounded, round_mask-IsRounded}
use zfp.Cache.Tag
use zfp.BlockCache.Lines.{default_lines, lines_from, default_lines-sqrt}
use zfp.Examples.Grids.{implicit_index}
use zfp.Index.Implicit
use zfp.Index.Implicit.{Implicit}
use zfp.Store.{Codec}
use zfp.Store.Store2
use zfp.Store.Store2.{BlockStore2}
use zfp.BlockCache.Cache2
use zfp.BlockCache.Cache2.Elements as Elements2
use zfp.Store.Store2.Numbering.{IsSized as IsSized2}
use zfp.Store.Store4
use zfp.Store.Store4.{BlockStore4}
use zfp.BlockCache.Cache4
use zfp.BlockCache.Cache4.Elements as Elements4
use zfp.Store.Store4.Numbering.{IsSized as IsSized4}

abbrev Any : ℕ → ℕ → Type 0
Any b k = b ≡ b

abbrev config : Config
config = record { two_way = true; fast_hash = true }

-- The memory is a function of the bit offset.
abbrev Memory : Type 0
Memory = ℕ → (ℕ → ℕ)

abbrev keep : Codec Memory ℕ
keep = record {
  encode_block = λ b offset shape block. record { size = 128; buffer = update b offset block };
  decode_block = λ b offset shape old. b offset;
}

abbrev four_lines : Cache (ℕ → ℕ)
four_lines = record { mask = 3; tags = 0 ∷ 0 ∷ 0 ∷ 0 ∷ []; lines = λ i k. 0 }

four_unused : (i : ℕ) → i ≤ 3 → tag_at four_lines i ≡ 0
four_unused zero p = refl
four_unused (suc zero) p = refl
four_unused (suc (suc zero)) p = refl
four_unused (suc (suc (suc zero))) p = refl
four_unused (suc (suc (suc (suc i)))) p = absurd (omega arith)

no_index : Tag.index 0 ≡ 0
unfolding Tag.index
no_index = refl

not_used : Tag.used 0 ≡ false
unfolding Tag.used
not_used = refl

unused_index : (i : ℕ) → i ≤ 3 → Tag.index (tag_at four_lines i) ≡ 0
unused_index i p = ap Tag.index (four_unused i p) ∙ no_index

four_lines-IsPlaced : IsPlaced config four_lines
four_lines-IsPlaced = record {
  sized = refl;
  home = λ i p h. absurd (h (unused_index i p));
  unique = λ i j p q h e. absurd (h (unused_index i p));
}

access-Accessed_example : Accessed config four_lines 6 true (Cache.access config four_lines 6 true)
access-Accessed_example =
    access-Accessed config four_lines 6 true four_lines-IsPlaced (λ e. absurd (omega arith))
      (omega arith)

access-IsPlaced_example :
    let r = Cache.access config four_lines 6 true in
    IsPlaced config r.2
    × (Tag.index (Cache.tag_at r.2 r.1) ≡ 6)
    × ((j : ℕ) → j ≤ four_lines.mask → Tag.index (Cache.tag_at r.2 j) ≡ 6 → j ≡ r.1)
access-IsPlaced_example =
    access-IsPlaced config four_lines 6 true four_lines-IsPlaced (λ e. absurd (omega arith))
      (omega arith)

default_lines_test : default_lines 1000 ≡ 32
unfolding default_lines lines_from
default_lines_test = refl

default_lines-sqrt_example :
    let m = default_lines 1000 in
    ((k : ℕ) × (m ≡ 2 ^ k)) × (1000 ≤ m * m) × ((m ≡ 1) ⊎ (m / 2 * (m / 2) < 1000))
default_lines-sqrt_example = default_lines-sqrt 1000 (omega arith)

round_mask-IsRounded_example : IsRounded 41 (Cache.round_mask 32 41)
round_mask-IsRounded_example = round_mask-IsRounded 32 32 41 (omega arith) (omega arith)

abbrev store2 : BlockStore2 Implicit Memory
store2 = record {
  nx = 10;
  ny = 7;
  bx = 3;
  by = 2;
  index = record { blocks = 6; bits_per_block = 128 };
  buffer = λ offset k. 7;
}

abbrev store2-IsSized : IsSized2 store2
store2-IsSized = record {
  x_blocks = refl;
  y_blocks = refl;
  x_fits = omega arith;
  y_fits = omega arith;
  fits = omega arith;
}

abbrev Valid2 : BlockStore2 Implicit Memory → Type 0
Valid2 s = (s.bx ≡ store2.bx) × (s.by ≡ store2.by) × (s.index.bits_per_block ≡ 128)

law2 : Lossless (Cache2.io config implicit_index keep) (Store2.blocks store2) Any Valid2
unfolding Cache2.io Store2.encode Store2.decode Implicit.set_block_size_at Implicit.block_offset
    Store2.blocks
law2 = record {
  encode-Valid = λ s b v bound valid. valid;
  decode-encode_self = λ s b v old k valid bound inside. ground arith;
  decode-encode_ne =
      λ s b b' v old k valid bound bound' differs inside. rw valid.2 (ground (arith, differs));
}

small2 : Store2.blocks store2 < 2 ^ 31
unfolding Store2.blocks
small2 = omega arith

abbrev state2 : State (BlockStore2 Implicit Memory) ℕ
state2 = record { cache = four_lines; store = store2 }

state2-Models :
    Models config
      (Cache2.io config implicit_index keep)
      (Store2.blocks store2)
      Any
      Valid2
      law2
      small2
      (λ b k. 7)
      state2
unfolding Cache2.io Store2.decode
state2-Models = record {
  placed = four_lines-IsPlaced;
  valid = (refl, refl, refl);
  in_use = λ i p u. absurd (false≢true (sym (ap Tag.used (four_unused i p) ∙ not_used) ∙ u));
  cached = λ i b k p e inside. absurd (suc-ne-zero b (sym e ∙ unused_index i p));
  backed = λ b k old bound inside clean. refl;
}

state2-Holds :
    Elements2.Holds config implicit_index keep store2 store2-IsSized Any Valid2 law2 small2
      (λ s v. (v.0, v.1))
      (λ i j in_x in_y. refl)
      (λ i j. 7)
      state2
state2-Holds = record { values = λ b k. 7; models = state2-Models; at = λ i j in_x in_y. refl }

blocks2 : Store2.blocks store2 ≡ 6
unfolding Store2.blocks
blocks2 = refl

flush-decode_example :
    Store2.decode implicit_index keep
      (BlockCache.flush config
        (Cache2.io config implicit_index keep)
        (BlockCache.set config (Cache2.io config implicit_index keep) state2 3 6 5)).store
      3
      (λ k. 0)
      6
    ≡ 5
unfolding Cache2.io
flush-decode_example =
    flush-decode config (Cache2.io config implicit_index keep) (Store2.blocks store2) Any Valid2
      law2 small2
      (assign config (Cache2.io config implicit_index keep) (Store2.blocks store2) Any Valid2 law2
        small2 (λ b k. 7) 3 6 5)
      (BlockCache.set config (Cache2.io config implicit_index keep) state2 3 6 5) 3 6 (λ k. 0)
      (set-Models config (Cache2.io config implicit_index keep) (Store2.blocks store2) Any Valid2
        law2 small2 (λ b k. 7) state2 3 6 5 (omega (arith, blocks2)) state2-Models)
      (omega (arith, blocks2)) refl

abbrev store4 : BlockStore4 Implicit Memory
store4 = record {
  nx = 10;
  ny = 7;
  nz = 5;
  nw = 6;
  bx = 3;
  by = 2;
  bz = 2;
  bw = 2;
  index = record { blocks = 24; bits_per_block = 128 };
  buffer = λ offset k. 7;
}

abbrev store4-IsSized : IsSized4 store4
store4-IsSized = record {
  x_blocks = refl;
  y_blocks = refl;
  z_blocks = refl;
  w_blocks = refl;
  x_fits = omega arith;
  y_fits = omega arith;
  z_fits = omega arith;
  w_fits = omega arith;
  fits = omega arith;
}

abbrev Valid4 : BlockStore4 Implicit Memory → Type 0
Valid4 s =
    (s.bx ≡ store4.bx)
    × (s.by ≡ store4.by)
    × (s.bz ≡ store4.bz)
    × (s.bw ≡ store4.bw)
    × (s.index.bits_per_block ≡ 128)

law4 : Lossless (Cache4.io config implicit_index keep) (Store4.blocks store4) Any Valid4
unfolding Cache4.io Store4.encode Store4.decode Implicit.set_block_size_at Implicit.block_offset
    Store4.blocks
law4 = record {
  encode-Valid = λ s b v bound valid. valid;
  decode-encode_self = λ s b v old k valid bound inside. ground arith;
  decode-encode_ne =
      λ s b b' v old k valid bound bound' differs inside. rw valid.4 (ground (arith, differs));
}

small4 : Store4.blocks store4 < 2 ^ 31
unfolding Store4.blocks
small4 = omega arith

abbrev state4 : State (BlockStore4 Implicit Memory) ℕ
state4 = record { cache = four_lines; store = store4 }

state4-Models :
    Models config
      (Cache4.io config implicit_index keep)
      (Store4.blocks store4)
      Any
      Valid4
      law4
      small4
      (λ b k. 7)
      state4
unfolding Cache4.io Store4.decode
state4-Models = record {
  placed = four_lines-IsPlaced;
  valid = (refl, refl, refl, refl, refl);
  in_use = λ i p u. absurd (false≢true (sym (ap Tag.used (four_unused i p) ∙ not_used) ∙ u));
  cached = λ i b k p e inside. absurd (suc-ne-zero b (sym e ∙ unused_index i p));
  backed = λ b k old bound inside clean. refl;
}

state4-Holds :
    Elements4.Holds config implicit_index keep store4 store4-IsSized Any Valid4 law4 small4
      (λ s v. (v.0, v.1, v.2, v.3))
      (λ i j k l in_x in_y in_z in_w. refl)
      (λ i j k l. 7)
      state4
state4-Holds = record {
  values = λ b k. 7;
  models = state4-Models;
  at = λ i j k l in_x in_y in_z in_w. refl;
}

get-Holds4_example :
    let (v, s') = Cache4.get config implicit_index keep state4 9 6 4 5 in
    (v ≡ 7)
    × Elements4.Holds config implicit_index keep store4 store4-IsSized Any Valid4 law4 small4
        (λ s v. (v.0, v.1, v.2, v.3))
        (λ i j k l in_x in_y in_z in_w. refl)
        (λ i j k l. 7)
        s'
get-Holds4_example =
    Elements4.get-Holds4 config implicit_index keep store4 store4-IsSized Any Valid4 law4 small4
      (λ s v. (v.0, v.1, v.2, v.3)) (λ i j k l in_x in_y in_z in_w. refl) (λ i j k l. 7) state4 9 6
      4 5 (omega arith) (omega arith) (omega arith) (omega arith) state4-Holds

set-Holds4_example :
    Elements4.Holds config implicit_index keep store4 store4-IsSized Any Valid4 law4 small4
      (λ s v. (v.0, v.1, v.2, v.3))
      (λ i j k l in_x in_y in_z in_w. refl)
      (Elements4.put config implicit_index keep store4 store4-IsSized Any Valid4 law4 small4
        (λ s v. (v.0, v.1, v.2, v.3))
        (λ i j k l in_x in_y in_z in_w. refl)
        (λ i j k l. 7)
        9
        6
        4
        5
        5)
      (Cache4.set config implicit_index keep state4 9 6 4 5 5)
set-Holds4_example =
    Elements4.set-Holds4 config implicit_index keep store4 store4-IsSized Any Valid4 law4 small4
      (λ s v. (v.0, v.1, v.2, v.3)) (λ i j k l in_x in_y in_z in_w. refl) (λ i j k l. 7) state4 9 6
      4 5 5 (omega arith) (omega arith) (omega arith) (omega arith) state4-Holds
