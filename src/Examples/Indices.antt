-- ===== src/Examples/Indices.antt =====
-- The block indices on a sequence of five block sizes.
use zfp.Prelude.{ℕ, ◌+◌, ◌*◌, zero, suc, ◌≤◌, ◌≡◌, refl, arith, List, [], ◌∷◌, ◌<◌, ◌^◌}
use zfp.Index.Outcome.{Returns, ◌>>=◌}
use zfp.Index.Offsets.{size_at, Represents, start}
use zfp.Index.Verbatim
use zfp.Index.Verbatim.{Verbatim}
use zfp.Index.Verbatim.Build as VerbatimBuild
use zfp.Index.Hybrid4
use zfp.Index.Hybrid8.{lsum, sum8}
use zfp.Index.Hybrid4.{Hybrid4, no_chunk, max_bits}
use zfp.Index.Hybrid4.Build as Hybrid4Build

abbrev sizes : List ℕ
sizes = 100 ∷ 16658 ∷ 0 ∷ 50 ∷ 300 ∷ []

sizes-le : (i : ℕ) → size_at sizes i ≤ max_bits
sizes-le zero = omega arith
sizes-le (suc zero) = omega arith
sizes-le (suc (suc zero)) = omega arith
sizes-le (suc (suc (suc zero))) = omega arith
sizes-le (suc (suc (suc (suc zero)))) = omega arith
sizes-le (suc (suc (suc (suc (suc i))))) = omega arith

sizes_fit64 : start (size_at sizes) 5 < 2 ^ 64
sizes_fit64 = omega arith

sizes_fit44 : start (size_at sizes) 5 < 2 ^ 44
sizes_fit44 = omega arith

abbrev no_words : Verbatim
no_words = record { words = []; blocks = 0; block = 0 }

build-resize-Represents_example :
    Returns
      (VerbatimBuild.build
        (size_at sizes)
        5
        (Verbatim.resize no_words 5 (0 ∷ 1 ∷ 2 ∷ 3 ∷ 4 ∷ 5 ∷ [])))
      λ built.
        Represents sizes
          (Verbatim.block_offset built)
          (Verbatim.block_size built)
          (Verbatim.range built)
build-resize-Represents_example =
    VerbatimBuild.build-resize-Represents sizes (0 ∷ 1 ∷ 2 ∷ 3 ∷ 4 ∷ 5 ∷ []) no_words refl
      sizes_fit64

abbrev two_chunks : Hybrid4
two_chunks = record {
  chunks = no_chunk ∷ no_chunk ∷ [];
  blocks = 7;
  block = 0;
  end = 0;
  ptr = 0;
  buffer = 0 ∷ 0 ∷ 0 ∷ 0 ∷ [];
}

flush-build-Represents_example :
    Returns
      (Hybrid4Build.build (size_at sizes) 5 (Hybrid4.clear two_chunks) >>= Hybrid4.flush)
      λ built.
        Represents sizes
          (Hybrid4.block_offset built)
          (Hybrid4.block_size built)
          (Hybrid4.range built)
flush-build-Represents_example =
    Hybrid4Build.flush-build-Represents sizes two_chunks (omega arith) (omega arith) refl sizes-le
      sizes_fit44

lsum_test : lsum 0x0102030405060708 ≡ 36
unfolding lsum
lsum_test = refl

sum8_test : sum8 (1 + 2 * 64 + 3 * 64 ^ 2 + 63 * 64 ^ 7) 6 ≡ 69
unfolding sum8
sum8_test = refl

-- With `dims` 1 the count is 0.
sum8_zero_test : sum8 12 0 ≡ 12
unfolding sum8
sum8_zero_test = refl
