-- ===== src/Coder/Rate/Budget.antt =====
-- The number of bits that the bounded coder writes.
use zfp.Prelude.{
  ℕ, zero, suc, ◌+◌, ◌-◌, ◌^◌, ◌≤◌, ◌<◌, ◌≡◌, arith, List, ◌++◌, ltb, ◌!=◌, min, bit_and,
  if◌then◌else◌, Bool-cases, inl, inr, ◌>>>◌,
}
use mathlib.Core.Path.{subst}
use native.Mathlib.Nat.{min-le_right, pow-le-pow_right}
use zfp.BitStream.Value.{length-digits}
use zfp.Coder.{Writer, Reader, Stream, digits, plane}
use zfp.Coder.Planes.{plane_lem}
use zfp.Coder.Spent.{Spent, nothing, one_bit, then_more, bit_small}
use zfp.Coder.Rate.{scan, groups, encode_plane, encode_planes, encode_few_ints}

module _ {W R : Type 0} (writer : Writer W) (reader : Reader R) (stream : Stream writer reader)
    (size : ℕ) where
  abbrev Spends : ℕ → ℕ → List ℕ → W → Type 0
  Spends = Spent writer reader stream

  scan-Spent :
      (w : W) (bits x n : ℕ) (bs : List ℕ)
      → stream.Wrote w bs
      → let out = scan writer size w bits x n in Spends bits out.1 bs out.0
  unfolding scan
  scan-Spent w zero x n bs h = nothing writer reader stream 0 bs w h
  scan-Spent w (suc bits) x n bs h = elim (Bool-cases (ltb n (size - 1))) [
    | inl more ↦
        let s = one_bit writer reader stream bits bs w (bit_and x 1) (bit_small x) h in
        elim (Bool-cases (bit_and x 1 != 0)) [
          | inl one ↦ rw (scan, more, one) s
          | inr zero_bit ↦
              rw (scan, more, zero_bit)
                (then_more writer reader stream bs s (
                  scan-Spent (writer.write_bit w (bit_and x 1)) bits (x >>> 1) (n + 1)
                    (bs ++ s.written) s.wrote))
        ]
    | inr last ↦ rw (scan, last) (nothing writer reader stream (suc bits) bs w h)
  ]

  groups-Spent :
      (fuel : ℕ) (w : W) (bits x n : ℕ) (bs : List ℕ)
      → stream.Wrote w bs
      → let out = groups writer size fuel w bits x n in Spends bits out.1 bs out.0
  unfolding groups
  groups-Spent zero w bits x n bs h = nothing writer reader stream bits bs w h
  groups-Spent (suc fuel) w zero x n bs h = nothing writer reader stream 0 bs w h
  groups-Spent (suc fuel) w (suc bits) x n bs h = elim (Bool-cases (ltb n size)) [
    | inl more ↦ elim (Bool-cases (x != 0)) [
      | inl some_left ↦
          let s = one_bit writer reader stream bits bs w 1 (omega arith) h in
          let t =
            then_more writer reader stream bs s
              (scan-Spent (writer.write_bit w 1) bits x n (bs ++ s.written) s.wrote) in
          let (w', bits', x', n') = scan writer size (writer.write_bit w 1) bits x n in
          rw (groups, more, some_left)
            (then_more writer reader stream bs t
              (groups-Spent fuel w' bits' (x' >>> 1) (n' + 1) (bs ++ t.written) t.wrote))
      | inr none_left ↦
          rw (groups, more, none_left) (one_bit writer reader stream bits bs w 0 (omega arith) h)
    ]
    | inr last ↦ rw (groups, last) (nothing writer reader stream (suc bits) bs w h)
  ]

  encode_plane-Spent :
      (w : W) (bits : ℕ) (ints : ℕ → ℕ) (k n : ℕ) (bs : List ℕ)
      → size ≤ 64
      → n ≤ size
      → stream.Wrote w bs
      → let out = encode_plane writer size w bits ints k n in Spends bits out.1 bs out.0
  unfolding encode_plane
  encode_plane-Spent w bits ints k n bs size_small inside h =
      let (q, p) = plane_lem ints k size 0 (omega arith) in
      let x = plane ints k size 0 in
      let small : x < 2 ^ 64 =
        omega (arith, p.value, p.fits, pow-le-pow_right {n = 2} (omega arith) size_small) in
      let m = min n bits in
      let (value, wrote) = stream.write_bits-Wrote w bs x m (omega arith) small h in
      let first : Spends bits (bits - m) bs (writer.write_bits w x m).1 = record {
        written = digits m x;
        spent = omega (arith, length-digits m x, min-le_right n bits);
        wrote = wrote;
      } in
      then_more writer reader stream bs first (
        groups-Spent size (writer.write_bits w x m).1 (bits - m) (writer.write_bits w x m).0 n
          (bs ++ digits m x) wrote)

  scan_inside : (w : W) (bits x n : ℕ) → n < size → (scan writer size w bits x n).3 < size
  unfolding scan
  scan_inside w zero x n inside = inside
  scan_inside w (suc bits) x n inside = elim (Bool-cases (ltb n (size - 1))) [
    | inl more ↦ elim (Bool-cases (bit_and x 1 != 0)) [
      | inl one ↦ rw (scan, more, one) inside
      | inr zero_bit ↦
          rw (scan, more, zero_bit)
            (scan_inside (writer.write_bit w (bit_and x 1)) bits (x >>> 1) (n + 1)
              (ground (arith, more)))
    ]
    | inr last ↦ rw (scan, last) inside
  ]

  groups_inside :
      (fuel : ℕ) (w : W) (bits x n : ℕ) → n ≤ size → (groups writer size fuel w bits x n).2 ≤ size
  unfolding groups
  groups_inside zero w bits x n inside = inside
  groups_inside (suc fuel) w zero x n inside = inside
  groups_inside (suc fuel) w (suc bits) x n inside = elim (Bool-cases (ltb n size)) [
    | inl more ↦ elim (Bool-cases (x != 0)) [
      | inl some_left ↦
          let next = scan_inside (writer.write_bit w 1) bits x n (ground (arith, more)) in
          let (w', bits', x', n') = scan writer size (writer.write_bit w 1) bits x n in
          rw (groups, more, some_left)
            (groups_inside fuel w' bits' (x' >>> 1) (n' + 1) (omega (arith, next)))
      | inr none_left ↦ rw (groups, more, none_left) inside
    ]
    | inr last ↦ rw (groups, last) inside
  ]

  encode_planes-Spent :
      (ints : ℕ → ℕ) (kmin planes : ℕ) (w : W) (bits n : ℕ) (bs : List ℕ)
      → size ≤ 64
      → n ≤ size
      → stream.Wrote w bs
      → let out = encode_planes writer size ints kmin planes w bits n in Spends bits out.1 bs out.0
  unfolding encode_planes encode_plane
  encode_planes-Spent ints kmin zero w bits n bs size_small inside h =
      nothing writer reader stream bits bs w h
  encode_planes-Spent ints kmin (suc planes) w bits n bs size_small inside h =
      elim (Bool-cases (bits != 0)) [
        | inl some_left ↦
            let s = encode_plane-Spent w bits ints (kmin + planes) n bs size_small inside h in
            let (x, w₁) = writer.write_bits w (plane ints (kmin + planes) size 0) (min n bits) in
            let next = groups_inside size w₁ (bits - min n bits) x n inside in
            let (w', bits', n') = encode_plane writer size w bits ints (kmin + planes) n in
            rw (encode_planes, some_left)
              (then_more writer reader stream bs s (
                encode_planes-Spent ints kmin planes w' bits' n' (bs ++ s.written) size_small next
                  s.wrote))
        | inr full ↦ rw (encode_planes, full) (nothing writer reader stream bits bs w h)
      ]

  -- `encode_few_ints` writes at most `maxbits` bits, and returns their number.
  pub encode_few_ints-Spent :
      (intprec : ℕ) (w : W) (maxbits maxprec : ℕ) (ints : ℕ → ℕ) (bs : List ℕ)
      → size ≤ 64
      → stream.Wrote w bs
      → let (w', count) = encode_few_ints writer size intprec w maxbits maxprec ints in
        Spends maxbits (maxbits - count) bs w' × (count ≤ maxbits)
  unfolding encode_few_ints
  encode_few_ints-Spent intprec w maxbits maxprec ints bs size_small h =
      let kmin = if ltb maxprec intprec then intprec - maxprec else 0 in
      let s =
        encode_planes-Spent ints kmin (intprec - kmin) w maxbits 0 bs size_small (omega arith) h in
      let (w', left) = encode_planes writer size ints kmin (intprec - kmin) w maxbits 0 in
      let same : left ≡ maxbits - (maxbits - left) = omega (arith, s.spent) in
      (subst (λ m. Spends maxbits m bs w') same s, omega arith)
