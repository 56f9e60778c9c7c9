-- ===== src/Index/Hybrid4/Chunks.antt =====
-- The record of one chunk of four blocks: the code's 32 + 16-bit split loses nothing.
use zfp.Prelude.{ℕ, ◌+◌, ◌*◌, ◌/◌, ◌%◌, ◌^◌, ◌≤◌, ◌<◌, ◌≡◌, refl, arith}
use zfp.Prelude.{List, [], ◌∷◌, length, get_or, set, u32, u64, ◌<<<◌, ◌>>>◌}
use zfp.Index.Outcome.{done}
use zfp.Index.Hybrid4.{Hybrid4, shift, max_bits, low_words, store_chunk}

pub four_words :
    (xs : List ℕ)
    → length xs ≡ 4
    → xs ≡ get_or xs 0 0 ∷ get_or xs 1 0 ∷ get_or xs 2 0 ∷ get_or xs 3 0 ∷ []
four_words [] h = absurd (omega arith)
four_words (a ∷ []) h = absurd (omega arith)
four_words (a ∷ b ∷ []) h = absurd (omega arith)
four_words (a ∷ b ∷ c ∷ []) h = absurd (omega arith)
four_words (a ∷ b ∷ c ∷ d ∷ []) h = refl
four_words (a ∷ b ∷ c ∷ d ∷ e ∷ xs) h = absurd (omega arith)

abbrev pub low : ℕ → ℕ → ℕ → ℕ → List ℕ
low l a b c = l ∷ (l + a) ∷ (l + a + b) ∷ (l + a + b + c) ∷ []

low_words-low :
    (base p a b c d : ℕ)
    → base ≡ p / 4096 * 4096
    → p < 2 ^ 44
    → a ≤ max_bits
    → b ≤ max_bits
    → c ≤ max_bits
    → d ≤ max_bits
    → low_words base p (a ∷ b ∷ c ∷ d ∷ []) ≡ (low (p % 4096) a b c, p + a + b + c + d)
unfolding low_words
low_words-low base p a b c d e h ha hb hc hd = ground arith

-- With the offset below 2 ^ 44 and sizes of at most `max_bits` the chunk is stored without loss.
pub store_chunk-done :
    (self : Hybrid4) (a b c d : ℕ)
    → self.buffer ≡ a ∷ b ∷ c ∷ d ∷ []
    → self.ptr < 2 ^ 44
    → a ≤ max_bits
    → b ≤ max_bits
    → c ≤ max_bits
    → d ≤ max_bits
    → store_chunk self
      ≡ done (record self {
        chunks =
            set self.chunks
              (self.block / 4)
              (record { hi = self.ptr / 4096; lo = low (self.ptr % 4096) a b c });
        ptr = self.ptr + a + b + c + d;
      })
unfolding store_chunk
store_chunk-done self a b c d e p ha hb hc hd =
    let base : u64 (u32 (self.ptr >>> shift) <<< shift) ≡ self.ptr / 4096 * 4096 = omega arith in
    let hi : u32 (self.ptr >>> shift) ≡ self.ptr / 4096 = omega arith in
    let top : self.ptr / 2 ^ 44 ≡ 0 = omega arith in
    rw (
      top,
      e,
      low_words-low (u64 (u32 (self.ptr >>> shift) <<< shift)) self.ptr a b c d base p ha hb hc hd,
      hi,
    )
