-- ===== src/Header/RoundTrip.antt =====
-- The header is read again.
use zfp.Prelude.{ℕ, ◌<◌, ◌≡◌, Bool, true, List, [], ◌∷◌, ◌++◌}
use zfp.Coder.{Writer, Reader, Stream, digits}
use zfp.Field.{Field}

module _ {W R : Type 0} (writer : Writer W) (reader : Reader R)
    (stream : Stream writer reader) where
  byte_bits : List ℕ → List ℕ
  byte_bits [] = []
  byte_bits (b ∷ bs) = digits 8 b ++ byte_bits bs

  AreBytes : List ℕ → Type 0
  AreBytes [] = ◌≡◌ {A = ℕ} 0 0
  AreBytes (b ∷ bs) = (b < 256) × AreBytes bs

  -- What a part writes, with the bits it reports, is read again by a part that ends with `check`.
  record Part {A : Type 0} (bs : List ℕ) (r : ℕ × W) (read : R → Bool × ℕ × R × A) (value : A)
      : Type 0 where
    written : List ℕ
    wrote : stream.Wrote r.1 (bs ++ written)
    back :
        (rd : R) (rest : List ℕ)
        → stream.Ahead rd (written ++ rest)
        → let out = read rd in
          (out.0 ≡ true) × (out.1 ≡ r.0) × stream.Ahead out.2 rest × (out.3 ≡ value)
