-- ===== src/Coder/RoundTrip.antt =====
-- The round trip of the coder: the integers are read again, down to the last plane that was written.
use zfp.Prelude.{
  ℕ, zero, suc, ◌+◌, ◌-◌, ◌*◌, ◌/◌, ◌%◌, ◌^◌, ◌≤◌, ◌<◌, ◌≡◌, arith, ap, sym, ◌∙◌, List, [], ◌++◌,
}
use zfp.Prelude.{ltb, if◌then◌else◌}
use zfp.Prelude.Bits.{two-pow-suc, one-le-two-pow}
use mathlib.Core.List.{append_assoc, append-nil}
use mathlib.Core.Path.{subst}
use native.Mathlib.Nat.{
  mul_assoc, add-mul, suc-mul, zero-mul, div-div-eq-div-mul, pow-le-pow_right, div-lt_iff_lt-mul,
  mul_comm, div-add-mod, mod-eq_of_lt, div-eq_of_lt,
}
use zfp.Prelude.{u32}
use zfp.Prelude.Lists.{length}
use zfp.Prelude.{min}
use zfp.BitStream.Value.{length-append, length-digits}
use zfp.Coder.{
  Writer, Reader, Stream, digits, plane, encode_plane, encode_planes, encode_few_ints_prec,
  decode_plane, decode_planes, decode_few_ints_prec, read_groups,
}
use zfp.Coder.Group.{groups_lem}
use zfp.Coder.Spent.{more, counted, kmin_lem}
use zfp.Prelude.Powers.{power_add}
use zfp.Coder.Planes.{plane_lem, deposit_lem}

none_above : (width v : ℕ) → v < 2 ^ width → v / 2 ^ width ≡ 0
none_above width v fits = div-eq_of_lt fits

module _ {W R : Type 0} (writer : Writer W) (reader : Reader R) (stream : Stream writer reader)
    (size : ℕ) (size_small : size ≤ 64) where
  -- After a bit plane `x`, of which `n` bits are written as they are.
  record Coded (x n : ℕ) (bs : List ℕ) (r : W × ℕ) : Type 0 where
    written : List ℕ
    ends : r.1 ≤ size
    cost : length written + min n (size - 1) ≤ min r.1 (size - 1) + size
    wrote : stream.Wrote r.0 (bs ++ written)
    back :
        (rd : R) (rest : List ℕ)
        → stream.Ahead rd (written ++ rest)
        → let (y, rd₁) = reader.read_bits rd n in
          let out = read_groups reader size size rd₁ y n in
          (out.1 ≡ x) × (out.2 ≡ r.1) × stream.Ahead out.0 rest

  upper_part : (x n : ℕ) → n ≤ size → x < 2 ^ size → x / 2 ^ n < 2 ^ (size - n)
  upper_part x n inside fits = (div-lt_iff_lt-mul (one-le-two-pow n)).1 (
      omega (
        arith,
        fits,
        power_add (size - n) n,
        ap (λ m. 2 ^ m) {x = size - n + n} {y = size} (omega arith),
      ))

  encode_plane_lem :
      (w : W) (ints : ℕ → ℕ) (k n : ℕ) (bs : List ℕ)
      → n ≤ size
      → stream.Wrote w bs
      → Coded (plane ints k size 0) n bs (encode_plane writer size w ints k n)
  unfolding encode_plane
  encode_plane_lem w ints k n bs inside h =
      let (q, p) = plane_lem ints k size 0 (omega arith) in
      let x = plane ints k size 0 in
      let fits : x < 2 ^ size = omega (arith, p.value, p.fits) in
      let small : x < 2 ^ 64 =
        omega (arith, fits, pow-le-pow_right {n = 2} (omega arith) size_small) in
      let (rest_value, h') = stream.write_bits-Wrote w bs x n (omega arith) small h in
      let g =
        groups_lem writer reader stream size size (size - n) (writer.write_bits w x n).1 (x / 2 ^ n)
          n (bs ++ digits n x) h' (upper_part x n inside fits) (omega arith) (omega arith) in
      let total : x % 2 ^ n + 2 ^ n * (x / 2 ^ n) ≡ x = omega (arith, div-add-mod x (2 ^ n)) in
      rw rest_value record {
        written = digits n x ++ g.written;
        ends = g.ends;
        cost = omega (arith, g.cost, length-append (digits n x) g.written, length-digits n x);
        wrote = subst (stream.Wrote _) (append_assoc bs (digits n x) g.written) g.wrote;
        back = λ rd rest ahead.
            let read =
              stream.read_bits-Ahead rd x n (g.written ++ rest) (omega arith)
                (subst (stream.Ahead rd) (append_assoc (digits n x) g.written rest) ahead) in
            let (value, ends, after) =
              g.back size (reader.read_bits rd n).1 (x % 2 ^ n) rest (omega arith)
                (omega (arith, total, small)) read.1 in
            rw read.0 (value ∙ total, ends, after);
      }

  -- The integers that the decoder has after the planes from number `k` on.
  Upper : (ℕ → ℕ) → ℕ → (ℕ → ℕ) → Type 0
  Upper ints k out = (a : ℕ) → a < size → out a ≡ ints a / 2 ^ k * 2 ^ k

  min_right : (a b : ℕ) → 0 + min a b ≤ 0 * size + b
  min_right a b = omega (arith, zero-mul size)

  -- After the planes down to number `kmin`.
  record Whole (width kmin planes n : ℕ) (ints : ℕ → ℕ) (bs : List ℕ) (w : W) : Type 0 where
    written : List ℕ
    cost : length written + min n (size - 1) ≤ planes * size + (size - 1)
    wrote : stream.Wrote w (bs ++ written)
    back :
        (rd : R) (so_far : ℕ → ℕ) (rest : List ℕ)
        → Upper ints (kmin + planes) so_far
        → stream.Ahead rd (written ++ rest)
        → let out = decode_planes reader size width kmin planes rd so_far n in
          Upper ints kmin out.1 × stream.Ahead out.0 rest

  cut_le : (v k : ℕ) → v / 2 ^ k * 2 ^ k ≤ v
  cut_le v k = omega (arith, mul_comm (v / 2 ^ k) (2 ^ k), div-add-mod v (2 ^ k))

  next_bit :
      (v k width : ℕ)
      → v < 2 ^ width
      → (v / 2 ^ (k + 1) * 2 ^ (k + 1) + v / 2 ^ k % 2 * 2 ^ k) % 2 ^ width ≡ v / 2 ^ k * 2 ^ k
  next_bit v k width fits =
      let double : 2 ^ (k + 1) ≡ 2 * 2 ^ k =
        ap (λ m. 2 ^ m) {x = k + 1} {y = suc k} (omega arith) ∙ two-pow-suc k in
      let half : v / 2 ^ (k + 1) ≡ v / 2 ^ k / 2 =
        ap (λ m. v / m) {x = 2 ^ (k + 1)} {y = 2 ^ k * 2} (omega (arith, double))
        ∙ sym (div-div-eq-div-mul v (2 ^ k) 2) in
      let upper : v / 2 ^ (k + 1) * 2 ^ (k + 1) ≡ v / 2 ^ k / 2 * 2 * 2 ^ k =
        ap (λ m. m * 2 ^ (k + 1)) half
        ∙ ap (λ m. v / 2 ^ k / 2 * m) double
        ∙ sym (mul_assoc (v / 2 ^ k / 2) 2 (2 ^ k)) in
      let whole : v / 2 ^ k / 2 * 2 * 2 ^ k + v / 2 ^ k % 2 * 2 ^ k ≡ v / 2 ^ k * 2 ^ k =
        sym (add-mul (v / 2 ^ k / 2 * 2) (v / 2 ^ k % 2) (2 ^ k))
        ∙ ap (λ m. m * 2 ^ k) {x = v / 2 ^ k / 2 * 2 + v / 2 ^ k % 2} {y = v / 2 ^ k}
            (omega arith) in
      ap (λ m. m % 2 ^ width) {x = v / 2 ^ (k + 1) * 2 ^ (k + 1) + v / 2 ^ k % 2 * 2 ^ k}
        {y = v / 2 ^ k * 2 ^ k} (omega (arith, upper, whole))
      ∙ mod-eq_of_lt (omega (arith, fits, cut_le v k))

  one_plane :
      (width k : ℕ) (ints so_far : ℕ → ℕ) (n : ℕ) (bs : List ℕ) (r : W × ℕ) (rd : R) (rest : List ℕ)
      → ((a : ℕ) → a < size → ints a < 2 ^ width)
      → (c : Coded (plane ints k size 0) n bs r) → Upper ints (k + 1) so_far
      → stream.Ahead rd (c.written ++ rest)
      → let out = decode_plane reader size width rd so_far k n in
        Upper ints k out.1 × (out.2 ≡ r.1) × stream.Ahead out.0 rest
  unfolding decode_plane Upper
  one_plane width k ints so_far n bs r rd rest fits c upper ahead =
      let (q, p) = plane_lem ints k size 0 (omega arith) in
      let (value, ends, after) = c.back rd rest ahead in
      let same : plane ints k size 0 ≡ q = omega (arith, p.value) in
      rw value (
        λ a inside.
            let so_far_fits : so_far a < 2 ^ width =
              omega (arith, upper a inside, cut_le (ints a) (k + 1), fits a inside) in
            let from_start : 0 + a ≡ a = omega arith in
            deposit_lem width k 64 0 (plane ints k size 0) so_far a a (omega arith) (omega arith)
              so_far_fits
            ∙ rw (upper a inside, same, p.bits a inside, from_start)
                (next_bit (ints a) k width (fits a inside)),
        ends,
        after,
      )

  encode_planes_lem :
      (width kmin planes : ℕ) (ints : ℕ → ℕ) (w : W) (n : ℕ) (bs : List ℕ)
      → ((a : ℕ) → a < size → ints a < 2 ^ width)
      → n ≤ size
      → stream.Wrote w bs
      → Whole width kmin planes n ints bs (encode_planes writer size ints kmin planes w n)
  unfolding encode_planes decode_planes Upper
  encode_planes_lem width kmin zero ints w n bs fits inside h = record {
    written = [];
    cost = min_right n (size - 1);
    wrote = subst (stream.Wrote w) (sym (append-nil bs)) h;
    back = λ rd so_far rest upper ahead. (
      λ a l. upper a l ∙ ap (λ k. ints a / 2 ^ k * 2 ^ k) {x = kmin + 0} {y = kmin} (omega arith),
      ahead,
    );
  }
  encode_planes_lem width kmin (suc planes) ints w n bs fits inside h =
      let c = encode_plane_lem w ints (kmin + planes) n bs inside h in
      let (w', n') = encode_plane writer size w ints (kmin + planes) n in
      let rest_planes =
        encode_planes_lem width kmin planes ints w' n' (bs ++ c.written) fits c.ends c.wrote in
      record {
        written = c.written ++ rest_planes.written;
        cost =
            more size c.written rest_planes.written planes (min n (size - 1)) (min n' (size - 1))
              c.cost rest_planes.cost;
        wrote =
            subst (stream.Wrote _) (append_assoc bs c.written rest_planes.written)
              rest_planes.wrote;
        back = λ rd so_far rest upper ahead.
            let (upper', ends, after) =
              one_plane width (kmin + planes) ints so_far n bs (w', n') rd
                (rest_planes.written ++ rest) fits c
                (λ a l.
                  upper a l
                  ∙ ap (λ k. ints a / 2 ^ k * 2 ^ k) {x = kmin + suc planes} {y = kmin + planes + 1}
                      (omega arith))
                (subst (stream.Ahead rd) (append_assoc c.written rest_planes.written rest) ahead) in
            rw (decode_planes, ends) (rest_planes.back _ _ rest upper' after);
      }

  -- What `encode_few_ints_prec` writes for `size` integers of `intprec` bits, whatever follows it,
  -- `decode_few_ints_prec` reads as the same integers with the bits below the `maxprec` highest ones
  -- cleared, and it ends where the writer ended. The encoder returns the number of bits, modulo 2^32.
  pub decode_few_ints_prec-encode_few_ints_prec :
      (w : W) (bs : List ℕ) (intprec maxprec : ℕ) (ints : ℕ → ℕ)
      → ((a : ℕ) → a < size → ints a < 2 ^ intprec)
      → stream.Wrote w bs
      → let (w', count) = encode_few_ints_prec writer size intprec w maxprec ints in
        (written : List ℕ) × stream.Wrote w' (bs ++ written)
        × (count ≡ u32 (length written))
        × ((rd : R) (rest : List ℕ)
            → stream.Ahead rd (written ++ rest)
            → let out = decode_few_ints_prec reader size intprec rd maxprec in
              ((a : ℕ)
                → a < size
                → out.1 a ≡ ints a / 2 ^ (intprec - maxprec) * 2 ^ (intprec - maxprec))
              × stream.Ahead out.0 rest)
  unfolding encode_few_ints_prec decode_few_ints_prec Upper
  decode_few_ints_prec-encode_few_ints_prec w bs intprec maxprec ints fits h =
      let kmin = intprec - maxprec in
      let p = encode_planes_lem intprec kmin (intprec - kmin) ints w 0 bs fits (omega arith) h in
      let w' = encode_planes writer size ints kmin (intprec - kmin) w 0 in
      let all : kmin + (intprec - kmin) ≡ intprec = omega arith in
      rw (encode_few_ints_prec, decode_few_ints_prec, kmin_lem intprec maxprec)
        (
          p.written,
          p.wrote,
          counted writer reader stream w w' bs p.written h p.wrote,
          λ rd rest ahead.
              p.back rd (λ i. 0) rest
                (λ a l. rw (all, none_above intprec (ints a) (fits a l)) (omega arith)) ahead,
        )

  -- It writes fewer than (planes + 1) * size bits.
  pub encode_few_ints_prec-cost :
      (intprec : ℕ) (w : W) (maxprec : ℕ) (ints : ℕ → ℕ) (bs : List ℕ)
      → 1 ≤ size
      → ((a : ℕ) → a < size → ints a < 2 ^ intprec)
      → stream.Wrote w bs
      → (written : List ℕ) × (length written < suc (min maxprec intprec) * size)
        × stream.Wrote (encode_few_ints_prec writer size intprec w maxprec ints).0 (bs ++ written)
        × ((encode_few_ints_prec writer size intprec w maxprec ints).1 ≡ u32 (length written))
  unfolding encode_few_ints_prec
  encode_few_ints_prec-cost intprec w maxprec ints bs some fits h =
      let kmin = if ltb maxprec intprec then intprec - maxprec else 0 in
      let p = encode_planes_lem intprec kmin (intprec - kmin) ints w 0 bs fits (omega arith) h in
      let w' = encode_planes writer size ints kmin (intprec - kmin) w 0 in
      let planes : suc (min maxprec intprec) * size ≡ (intprec - kmin) * size + size =
        suc-mul (min maxprec intprec) size
        ∙ ap (λ p. p * size + size) {x = min maxprec intprec} {y = intprec - kmin}
            (omega (arith, kmin_lem intprec maxprec)) in
      (
        p.written,
        omega (arith, p.cost, planes),
        p.wrote,
        counted writer reader stream w w' bs p.written h p.wrote,
      )
