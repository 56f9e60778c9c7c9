-- ===== src/Coder/Many/Budget.antt =====
-- The number of bits that the coder of large blocks writes.
use zfp.Prelude.{
  ℕ, zero, suc, ◌+◌, ◌-◌, ◌≤◌, ◌<◌, ◌≡◌, arith, List, ◌++◌, ltb, ◌!=◌, min, ◌>>>◌, if◌then◌else◌,
  Bool-cases, inl, inr,
}
use mathlib.Core.Path.{subst}
use native.Mathlib.Nat.{min-le_right}
use zfp.Coder.{Writer, Reader, Stream}
use zfp.Coder.Spent.{Spent, nothing, one_bit, then_more, bit_small}
use zfp.Coder.Many.{
  bit_of, ones, write_plane, scan_rate, groups_rate, encode_plane_rate, encode_planes_rate,
  encode_many_ints,
}

pub bit_of-small : (ints : ℕ → ℕ) (k i : ℕ) → bit_of ints k i < 2
unfolding bit_of
bit_of-small ints k i = bit_small (ints i >>> k)

module _ {W R : Type 0} (writer : Writer W) (reader : Reader R) (stream : Stream writer reader)
    (size : ℕ) where
  abbrev Spends : ℕ → ℕ → List ℕ → W → Type 0
  Spends = Spent writer reader stream

  pub write_plane-Spent :
      (w : W) (ints : ℕ → ℕ) (k rounds i left : ℕ) (bs : List ℕ)
      → stream.Wrote w bs
      → Spends (rounds + left) left bs (write_plane writer size w ints k rounds i)
  unfolding write_plane
  write_plane-Spent w ints k zero i left bs h =
      subst (λ b. Spends b left bs w) {x = left} {y = 0 + left} (omega arith)
        (nothing writer reader stream left bs w h)
  write_plane-Spent w ints k (suc rounds) i left bs h =
      let s =
        one_bit writer reader stream (rounds + left) bs w (bit_of ints k i) (bit_of-small ints k i)
          h in
      subst (λ b. Spends b left bs (write_plane writer size w ints k (suc rounds) i))
        {x = suc (rounds + left)} {y = suc rounds + left} (omega arith)
        (then_more writer reader stream bs s (
          write_plane-Spent (writer.write_bit w (bit_of ints k i)) ints k rounds (i + 1) left
            (bs ++ s.written) s.wrote))

  scan_rate-Spent :
      (w : W) (bits : ℕ) (ints : ℕ → ℕ) (k n : ℕ) (bs : List ℕ)
      → stream.Wrote w bs
      → let out = scan_rate writer size w bits ints k n in Spends bits out.1 bs out.0
  unfolding scan_rate
  scan_rate-Spent w zero ints k n bs h = nothing writer reader stream 0 bs w h
  scan_rate-Spent w (suc bits) ints k n bs h = elim (Bool-cases (ltb n (size - 1))) [
    | inl more ↦
        let s =
          one_bit writer reader stream bits bs w (bit_of ints k n) (bit_of-small ints k n) h in
        elim (Bool-cases (bit_of ints k n != 0)) [
          | inl one ↦ rw (scan_rate, more, one) s
          | inr zero_bit ↦
              rw (scan_rate, more, zero_bit)
                (then_more writer reader stream bs s (
                  scan_rate-Spent (writer.write_bit w (bit_of ints k n)) bits ints k (n + 1)
                    (bs ++ s.written) s.wrote))
        ]
    | inr last ↦ rw (scan_rate, last) (nothing writer reader stream (suc bits) bs w h)
  ]

  groups_rate-Spent :
      (fuel : ℕ) (w : W) (bits : ℕ) (ints : ℕ → ℕ) (k c n : ℕ) (bs : List ℕ)
      → stream.Wrote w bs
      → let out = groups_rate writer size fuel w bits ints k c n in Spends bits out.1 bs out.0
  unfolding groups_rate
  groups_rate-Spent zero w bits ints k c n bs h = nothing writer reader stream bits bs w h
  groups_rate-Spent (suc fuel) w zero ints k c n bs h = nothing writer reader stream 0 bs w h
  groups_rate-Spent (suc fuel) w (suc bits) ints k c n bs h = elim (Bool-cases (ltb n size)) [
    | inl more ↦ elim (Bool-cases (c != 0)) [
      | inl some_left ↦
          let s = one_bit writer reader stream bits bs w 1 (omega arith) h in
          let t =
            then_more writer reader stream bs s
              (scan_rate-Spent (writer.write_bit w 1) bits ints k n (bs ++ s.written) s.wrote) in
          let (w', bits', n') = scan_rate writer size (writer.write_bit w 1) bits ints k n in
          rw (groups_rate, more, some_left)
            (then_more writer reader stream bs t
              (groups_rate-Spent fuel w' bits' ints k (c - 1) (n' + 1) (bs ++ t.written) t.wrote))
      | inr none_left ↦
          rw (groups_rate, more, none_left)
            (one_bit writer reader stream bits bs w 0 (omega arith) h)
    ]
    | inr last ↦ rw (groups_rate, last) (nothing writer reader stream (suc bits) bs w h)
  ]

  encode_plane_rate-Spent :
      (w : W) (bits : ℕ) (ints : ℕ → ℕ) (k n : ℕ) (bs : List ℕ)
      → stream.Wrote w bs
      → let out = encode_plane_rate writer size w bits ints k n in Spends bits out.1 bs out.0
  unfolding encode_plane_rate
  encode_plane_rate-Spent w bits ints k n bs h =
      let m = min n bits in
      let w₁ = write_plane writer size w ints k m 0 in
      let s =
        subst (λ b. Spends b (bits - m) bs w₁) {x = m + (bits - m)} {y = bits}
          (omega (arith, min-le_right n bits)) (write_plane-Spent w ints k m 0 (bits - m) bs h) in
      then_more writer reader stream bs s (
        groups_rate-Spent size w₁ (bits - m) ints k (ones ints k (size - m) m) n (bs ++ s.written)
          s.wrote)

  encode_planes_rate-Spent :
      (ints : ℕ → ℕ) (kmin planes : ℕ) (w : W) (bits n : ℕ) (bs : List ℕ)
      → stream.Wrote w bs
      → let out = encode_planes_rate writer size ints kmin planes w bits n in
        Spends bits out.1 bs out.0
  unfolding encode_planes_rate
  encode_planes_rate-Spent ints kmin zero w bits n bs h = nothing writer reader stream bits bs w h
  encode_planes_rate-Spent ints kmin (suc planes) w bits n bs h = elim (Bool-cases (bits != 0)) [
    | inl some_left ↦
        let s = encode_plane_rate-Spent w bits ints (kmin + planes) n bs h in
        let (w', bits', n') = encode_plane_rate writer size w bits ints (kmin + planes) n in
        rw (encode_planes_rate, some_left)
          (then_more writer reader stream bs s
            (encode_planes_rate-Spent ints kmin planes w' bits' n' (bs ++ s.written) s.wrote))
    | inr full ↦ rw (encode_planes_rate, full) (nothing writer reader stream bits bs w h)
  ]

  -- `encode_many_ints` writes at most `maxbits` bits, and returns their number.
  pub encode_many_ints-Spent :
      (intprec : ℕ) (w : W) (maxbits maxprec : ℕ) (ints : ℕ → ℕ) (bs : List ℕ)
      → stream.Wrote w bs
      → let (w', count) = encode_many_ints writer size intprec w maxbits maxprec ints in
        Spends maxbits (maxbits - count) bs w' × (count ≤ maxbits)
  unfolding encode_many_ints
  encode_many_ints-Spent intprec w maxbits maxprec ints bs h =
      let kmin = if ltb maxprec intprec then intprec - maxprec else 0 in
      let s = encode_planes_rate-Spent ints kmin (intprec - kmin) w maxbits 0 bs h in
      let (w', left) = encode_planes_rate writer size ints kmin (intprec - kmin) w maxbits 0 in
      let same : left ≡ maxbits - (maxbits - left) = omega (arith, s.spent) in
      (subst (λ m. Spends maxbits m bs w') same s, omega arith)
