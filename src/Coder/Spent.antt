-- ===== src/Coder/Spent.antt =====
-- How many of a number of bits are left.
use zfp.Prelude.{
  ℕ, suc, ◌+◌, ◌-◌, ◌*◌, ◌≤◌, ◌<◌, ◌≡◌, refl, sym, ltb, if◌then◌else◌, Bool-cases, inl, inr, u32,
  sub32, arith, List, [], ◌∷◌, ◌++◌, bit_and,
}
use mathlib.Core.Path.{subst}
use mathlib.Core.List.{append_assoc, append-nil}
use native.Mathlib.Nat.{suc-mul}
use zfp.Prelude.Lists.{length}
use zfp.Prelude.Bits.{low_bits}
use zfp.BitStream.Value.{length-append}
use zfp.Coder.{Writer, Reader, Stream}

pub bit_small : (x : ℕ) → bit_and x 1 < 2
bit_small x = omega (arith, low_bits 1 x)

pub kmin_lem :
    (intprec maxprec : ℕ)
    → (if ltb maxprec intprec then intprec - maxprec else 0) ≡ intprec - maxprec
kmin_lem intprec maxprec = elim (Bool-cases (ltb maxprec intprec)) [
  | inl less ↦ rw less refl
  | inr all ↦ let none : intprec - maxprec ≡ 0 = ground arith in rw (all, none) refl
]

pub more :
    (size : ℕ) (xs ys : List ℕ) (planes a b : ℕ)
    → length xs + a ≤ b + size
    → length ys + b ≤ planes * size + (size - 1)
    → length (xs ++ ys) + a ≤ suc planes * size + (size - 1)
more size xs ys planes a b first others =
    omega (arith, first, others, length-append xs ys, suc-mul planes size)

module _ {W R : Type 0} (writer : Writer W) (reader : Reader R)
    (stream : Stream writer reader) where
  -- Of `bits` bits `left` are left after the writer has gone from `bs` to `w`.
  pub record Spent (bits left : ℕ) (bs : List ℕ) (w : W) : Type 0 where
    pub written : List ℕ
    pub spent : length written + left ≡ bits
    pub wrote : stream.Wrote w (bs ++ written)

  pub nothing : (bits : ℕ) (bs : List ℕ) (w : W) → stream.Wrote w bs → Spent bits bits bs w
  nothing bits bs w h = record {
    written = [];
    spent = omega arith;
    wrote = subst (stream.Wrote w) (sym (append-nil bs)) h;
  }

  pub one_bit :
      (bits : ℕ) (bs : List ℕ) (w : W) (b : ℕ)
      → b < 2
      → stream.Wrote w bs
      → Spent (suc bits) bits bs (writer.write_bit w b)
  one_bit bits bs w b small h = record {
    written = b ∷ [];
    spent = omega arith;
    wrote = stream.write_bit-Wrote w bs b small h;
  }

  pub then_more :
      {bits between left : ℕ} {w w' : W} (bs : List ℕ)
      → (s : Spent bits between bs w) → Spent between left (bs ++ s.written) w'
      → Spent bits left bs w'
  then_more bs s t = record {
    written = s.written ++ t.written;
    spent = omega (arith, s.spent, t.spent, length-append s.written t.written);
    wrote = subst (stream.Wrote _) (append_assoc bs s.written t.written) t.wrote;
  }

  pub counted :
      (w w' : W) (bs written : List ℕ)
      → stream.Wrote w bs
      → stream.Wrote w' (bs ++ written)
      → sub32 (u32 (writer.wtell w')) (u32 (writer.wtell w)) ≡ u32 (length written)
  counted w w' bs written h h' = omega (
    arith,
    stream.wtell-Wrote w bs h,
    stream.wtell-Wrote w' (bs ++ written) h',
    length-append bs written,
  )
