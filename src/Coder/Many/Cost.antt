-- ===== src/Coder/Many/Cost.antt =====
-- The number of bits that the coder of large blocks writes when it is given no bound.
use zfp.Prelude.{
  ℕ, zero, suc, ◌+◌, ◌-◌, ◌*◌, ◌≤◌, ◌<◌, ◌≡◌, arith, sym, List, [], ◌∷◌, ◌++◌, ltb, ◌!=◌, min,
  if◌then◌else◌, Bool-cases, inl, inr, u32,
}
use mathlib.Core.Path.{subst, ap, ◌∙◌}
use mathlib.Core.List.{append_assoc, append-nil}
use native.Mathlib.Nat.{suc-mul, zero-mul}
use zfp.Prelude.Lists.{length}
use zfp.BitStream.Value.{length-append}
use zfp.Coder.{Writer, Reader, Stream}
use zfp.Coder.Spent.{more, counted, kmin_lem}
use zfp.Coder.Many.{
  bit_of, ones, write_plane, scan_many, groups_many, encode_plane_many, encode_planes_many,
  encode_many_ints_prec,
}
use zfp.Coder.Many.Budget.{write_plane-Spent, bit_of-small}

module _ {W R : Type 0} (writer : Writer W) (reader : Reader R) (stream : Stream writer reader)
    (size : ℕ) where
  -- The integers of a plane pay for its bits, each for one as it is passed: `paid` bits are paid
  -- for before, and all up to n' after.
  record Cost (paid room n' : ℕ) (bs : List ℕ) (w : W) : Type 0 where
    written : List ℕ
    ends : n' ≤ size
    cost : length written + paid ≤ min n' (size - 1) + room
    wrote : stream.Wrote w (bs ++ written)

  -- After a scan from integer n.
  record Scan (n n' : ℕ) (bs : List ℕ) (w : W) : Type 0 where
    written : List ℕ
    forward : n ≤ n'
    inside : n' < size
    cost : length written + n ≤ min (n' + 1) (size - 1)
    wrote : stream.Wrote w (bs ++ written)

  scan_many-Scan :
      (fuel : ℕ) (w : W) (ints : ℕ → ℕ) (k n : ℕ) (bs : List ℕ)
      → n < size
      → stream.Wrote w bs
      → let (w', n') = scan_many writer size fuel w ints k n in Scan n n' bs w'
  unfolding scan_many
  scan_many-Scan zero w ints k n bs inside h = record {
    written = [];
    forward = omega arith;
    inside = inside;
    cost = omega arith;
    wrote = subst (stream.Wrote w) (sym (append-nil bs)) h;
  }
  scan_many-Scan (suc fuel) w ints k n bs inside h = elim (Bool-cases (ltb n (size - 1))) [
    | inl more ↦
        let w₁ = writer.write_bit w (bit_of ints k n) in
        let wrote = stream.write_bit-Wrote w bs (bit_of ints k n) (bit_of-small ints k n) h in
        elim (Bool-cases (bit_of ints k n != 0)) [
          | inl one ↦
              rw (scan_many, more, one)
                record {
                  written = bit_of ints k n ∷ [];
                  forward = omega arith;
                  inside = inside;
                  cost = ground (arith, more);
                  wrote = wrote;
                }
          | inr zero_bit ↦
              let s =
                scan_many-Scan fuel w₁ ints k (n + 1) (bs ++ (bit_of ints k n ∷ []))
                  (ground (arith, more)) wrote in
              rw (scan_many, more, zero_bit)
                record {
                  written = bit_of ints k n ∷ s.written;
                  forward = omega (arith, s.forward);
                  inside = s.inside;
                  cost = omega (arith, s.cost);
                  wrote =
                      subst (stream.Wrote _) (append_assoc bs (bit_of ints k n ∷ []) s.written)
                        s.wrote;
                }
        ]
    | inr last ↦
        rw (scan_many, last)
          record {
            written = [];
            forward = omega arith;
            inside = inside;
            cost = ground (arith, last);
            wrote = subst (stream.Wrote w) (sym (append-nil bs)) h;
          }
  ]

  groups_many-Cost :
      (fuel : ℕ) (w : W) (ints : ℕ → ℕ) (k c n : ℕ) (bs : List ℕ)
      → n ≤ size
      → stream.Wrote w bs
      → let (w', n') = groups_many writer size fuel w ints k c n in
        Cost (min n (size - 1) + n) size n' bs w'
  unfolding groups_many
  groups_many-Cost zero w ints k c n bs inside h = record {
    written = [];
    ends = inside;
    cost = omega arith;
    wrote = subst (stream.Wrote w) (sym (append-nil bs)) h;
  }
  groups_many-Cost (suc fuel) w ints k c n bs inside h = elim (Bool-cases (ltb n size)) [
    | inl more ↦ elim (Bool-cases (c != 0)) [
      | inl some_left ↦
          let here = stream.write_bit-Wrote w bs 1 (omega arith) h in
          let s =
            scan_many-Scan size (writer.write_bit w 1) ints k n (bs ++ (1 ∷ []))
              (ground (arith, more)) here in
          let (w₁, n₁) = scan_many writer size size (writer.write_bit w 1) ints k n in
          let g =
            groups_many-Cost fuel w₁ ints k (c - 1) (n₁ + 1) ((bs ++ (1 ∷ [])) ++ s.written)
              (omega (arith, s.inside)) s.wrote in
          rw (groups_many, more, some_left)
            record {
              written = (1 ∷ s.written) ++ g.written;
              ends = g.ends;
              cost = omega (
                arith,
                s.cost,
                s.forward,
                s.inside,
                g.cost,
                length-append (1 ∷ s.written) g.written,
              );
              wrote =
                  subst (stream.Wrote _)
                    (append_assoc (bs ++ (1 ∷ [])) s.written g.written
                      ∙ append_assoc bs (1 ∷ []) (s.written ++ g.written))
                    g.wrote;
            }
      | inr none_left ↦
          rw (groups_many, more, none_left)
            record {
              written = 0 ∷ [];
              ends = inside;
              cost = ground (arith, more);
              wrote = stream.write_bit-Wrote w bs 0 (omega arith) h;
            }
    ]
    | inr last ↦
        rw (groups_many, last)
          record {
            written = [];
            ends = inside;
            cost = omega arith;
            wrote = subst (stream.Wrote w) (sym (append-nil bs)) h;
          }
  ]

  encode_plane_many-Cost :
      (w : W) (ints : ℕ → ℕ) (k n : ℕ) (bs : List ℕ)
      → n ≤ size
      → stream.Wrote w bs
      → let (w', n') = encode_plane_many writer size w ints k n in
        Cost (min n (size - 1)) size n' bs w'
  unfolding encode_plane_many
  encode_plane_many-Cost w ints k n bs inside h =
      let s = write_plane-Spent writer reader stream size w ints k n 0 0 bs h in
      let w₁ = write_plane writer size w ints k n 0 in
      let g =
        groups_many-Cost size w₁ ints k (ones ints k (size - n) n) n (bs ++ s.written) inside
          s.wrote in
      record {
        written = s.written ++ g.written;
        ends = g.ends;
        cost = omega (arith, s.spent, g.cost, length-append s.written g.written);
        wrote = subst (stream.Wrote _) (append_assoc bs s.written g.written) g.wrote;
      }

  encode_planes_many-Cost :
      (ints : ℕ → ℕ) (kmin planes : ℕ) (w : W) (n : ℕ) (bs : List ℕ)
      → n ≤ size
      → stream.Wrote w bs
      → (written : List ℕ) × (length written + min n (size - 1) ≤ planes * size + (size - 1))
        × stream.Wrote (encode_planes_many writer size ints kmin planes w n) (bs ++ written)
  unfolding encode_planes_many
  encode_planes_many-Cost ints kmin zero w n bs inside h =
      ([], omega (arith, zero-mul size), subst (stream.Wrote w) (sym (append-nil bs)) h)
  encode_planes_many-Cost ints kmin (suc planes) w n bs inside h =
      let c = encode_plane_many-Cost w ints (kmin + planes) n bs inside h in
      let (w', n') = encode_plane_many writer size w ints (kmin + planes) n in
      let (others, cost, wrote) =
        encode_planes_many-Cost ints kmin planes w' n' (bs ++ c.written) c.ends c.wrote in
      (
        c.written ++ others,
        more size c.written others planes (min n (size - 1)) (min n' (size - 1)) c.cost cost,
        subst (stream.Wrote _) (append_assoc bs c.written others) wrote,
      )

  -- `encode_many_ints_prec` writes fewer than (planes + 1) * size bits.
  pub encode_many_ints_prec-cost :
      (intprec : ℕ) (w : W) (maxprec : ℕ) (ints : ℕ → ℕ) (bs : List ℕ)
      → 1 ≤ size
      → stream.Wrote w bs
      → (written : List ℕ) × (length written < suc (min maxprec intprec) * size)
        × stream.Wrote (encode_many_ints_prec writer size intprec w maxprec ints).0 (bs ++ written)
        × ((encode_many_ints_prec writer size intprec w maxprec ints).1 ≡ u32 (length written))
  unfolding encode_many_ints_prec
  encode_many_ints_prec-cost intprec w maxprec ints bs some h =
      let kmin = if ltb maxprec intprec then intprec - maxprec else 0 in
      let (written, cost, wrote) =
        encode_planes_many-Cost ints kmin (intprec - kmin) w 0 bs (omega arith) h in
      let w' = encode_planes_many writer size ints kmin (intprec - kmin) w 0 in
      let planes : suc (min maxprec intprec) * size ≡ (intprec - kmin) * size + size =
        suc-mul (min maxprec intprec) size
        ∙ ap (λ p. p * size + size) {x = min maxprec intprec} {y = intprec - kmin}
            (omega (arith, kmin_lem intprec maxprec)) in
      (
        written,
        omega (arith, cost, planes),
        wrote,
        counted writer reader stream w w' bs written h wrote,
      )
