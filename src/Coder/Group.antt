-- ===== src/Coder/Group.antt =====
-- The unary run-length code of the rest of a bit plane: what is written is read again.
use zfp.Prelude.{
  ℕ, zero, suc, ◌+◌, ◌-◌, ◌*◌, ◌/◌, ◌%◌, ◌^◌, ◌≤◌, ◌<◌, ◌≡◌, ◌≢◌, refl, arith, ap, sym, ◌∙◌, true,
  false, List, [], ◌∷◌, ◌++◌,
}
use zfp.Prelude.{ltb, ◌!=◌, u64, ◌>>>◌, ◌<<<◌, bit_and, Bool-cases, inl, inr}
use zfp.Prelude.Bits.{low_bits, two-pow-suc}
use mathlib.Core.List.{append_assoc, append-nil}
use mathlib.Core.Path.{subst}
use native.Mathlib.Decide.{ℕ_discrete}
use native.Mathlib.Nat.{mul_assoc, le_refl, mul-zero, mul-one, mul-add}
use zfp.Prelude.{min}
use zfp.Prelude.Lists.{length}
use zfp.BitStream.Value.{length-append}
use zfp.Coder.{Writer, Reader, Stream, scan, groups, skip_zeros, read_groups}

module _ {W R : Type 0} (writer : Writer W) (reader : Reader R) (stream : Stream writer reader)
    (size : ℕ) where
  next_power : (n : ℕ) → 2 ^ (n + 1) ≡ 2 * 2 ^ n
  next_power n = ap (λ m. 2 ^ m) {x = n + 1} {y = suc n} (omega arith) ∙ two-pow-suc n

  doubled : (n x : ℕ) → x % 2 ≡ 0 → 2 ^ n * x ≡ 2 ^ (n + 1) * (x / 2)
  doubled n x even =
      let half : x ≡ 2 * (x / 2) = omega arith in
      ap (λ y. 2 ^ n * y) half
      ∙ omega (
        arith,
        mul_assoc (2 ^ n) 2 (x / 2),
        ap (λ p. p * (x / 2)) {x = 2 ^ n * 2} {y = 2 ^ (n + 1)} (omega (arith, next_power n)),
      )

  -- After a scan from position `n`: the rest `x'` of the plane is odd, with `left'` positions left.
  record Scanned (x n : ℕ) (bs : List ℕ) (w : W) (r : W × ℕ × ℕ) : Type 0 where
    left : ℕ
    written : List ℕ
    here : r.2 + left ≡ size
    fits : r.1 < 2 ^ left
    odd : r.1 % 2 ≡ 1
    value : 2 ^ n * x ≡ 2 ^ r.2 * r.1
    forward : n ≤ r.2
    cost : length written + n ≤ min (r.2 + 1) (size - 1)
    wrote : stream.Wrote r.0 (bs ++ written)
    back :
        (fuel : ℕ) (rd : R) (rest : List ℕ)
        → size ≤ fuel + n
        → stream.Ahead rd (written ++ rest)
        → ((skip_zeros reader size fuel rd n).1 ≡ r.2)
          × stream.Ahead (skip_zeros reader size fuel rd n).0 rest

  -- The three ways that a round of the scan goes in the decoder.
  skip_one :
      (fuel : ℕ) (rd : R) (n : ℕ) (rest : List ℕ)
      → size ≤ fuel + n
      → n < size - 1
      → stream.Ahead rd (1 ∷ rest)
      → ((skip_zeros reader size fuel rd n).1 ≡ n)
        × stream.Ahead (skip_zeros reader size fuel rd n).0 rest
  unfolding skip_zeros
  skip_one zero rd n rest room more h = absurd (omega arith)
  skip_one (suc fuel) rd n rest room more h =
      let inside : ltb n (size - 1) ≡ true = ground arith in
      let read = stream.read_bit-Ahead rd 1 rest (omega arith) h in
      rw (skip_zeros, inside, read.0) (refl, read.1)

  skip_zero :
      (fuel : ℕ) (rd : R) (n m : ℕ) (rest after : List ℕ)
      → size ≤ fuel + n
      → n < size - 1
      → stream.Ahead rd (0 ∷ rest)
      → ((fuel' : ℕ) (rd' : R)
          → size ≤ fuel' + (n + 1)
          → stream.Ahead rd' rest
          → ((skip_zeros reader size fuel' rd' (n + 1)).1 ≡ m)
            × stream.Ahead (skip_zeros reader size fuel' rd' (n + 1)).0 after)
      → ((skip_zeros reader size fuel rd n).1 ≡ m)
        × stream.Ahead (skip_zeros reader size fuel rd n).0 after
  unfolding skip_zeros
  skip_zero zero rd n m rest after room more h next = absurd (omega arith)
  skip_zero (suc fuel) rd n m rest after room more h next =
      let inside : ltb n (size - 1) ≡ true = ground arith in
      let read = stream.read_bit-Ahead rd 0 rest (omega arith) h in
      rw (skip_zeros, inside, read.0) (next fuel (reader.read_bit rd).1 (omega arith) read.1)

  skip_none :
      (fuel : ℕ) (rd : R) (n : ℕ) (rest : List ℕ)
      → size - 1 ≤ n
      → stream.Ahead rd rest
      → ((skip_zeros reader size fuel rd n).1 ≡ n)
        × stream.Ahead (skip_zeros reader size fuel rd n).0 rest
  unfolding skip_zeros
  skip_none zero rd n rest last h = (refl, h)
  skip_none (suc fuel) rd n rest last h =
      let outside : ltb n (size - 1) ≡ false = ground arith in rw (skip_zeros, outside) (refl, h)

  scan_lem :
      (fuel left : ℕ) (w : W) (x n : ℕ) (bs : List ℕ)
      → stream.Wrote w bs
      → x ≢ 0
      → x < 2 ^ left
      → n + left ≡ size
      → left ≤ fuel
      → Scanned x n bs w (scan writer size fuel w x n)
  unfolding scan
  scan_lem fuel zero w x n bs h p fits here enough = absurd (p (omega (arith, fits)))
  scan_lem zero (suc left) w x n bs h p fits here enough = absurd (omega arith)
  scan_lem (suc fuel) (suc left) w x n bs h p fits here enough =
      let low : bit_and x 1 ≡ x % 2 = low_bits 1 x in
      elim (Bool-cases (ltb n (size - 1))) [
        | inl more ↦ elim (ℕ_discrete (x % 2) 1) [
          | yes one ↦
              let bit : bit_and x 1 ≡ 1 = low ∙ one in
              rw (scan, more, bit, bit)
                record {
                  left = suc left;
                  written = 1 ∷ [];
                  here = here;
                  fits = fits;
                  odd = one;
                  value = refl;
                  forward = le_refl n;
                  cost = ground (arith, more);
                  wrote = stream.write_bit-Wrote w bs 1 (omega arith) h;
                  back = λ fuel' rd rest room ahead.
                      skip_one fuel' rd n rest room (ground arith) ahead;
                }
          | no even ↦
              let bit : bit_and x 1 ≡ 0 = ground (arith, low, even) in
              let r =
                scan_lem fuel left (writer.write_bit w 0) (x / 2) (n + 1) (bs ++ (0 ∷ []))
                  (stream.write_bit-Wrote w bs 0 (omega arith) h)
                  (λ e. p (ground (arith, low, even, e))) (omega (arith, two-pow-suc left))
                  (omega arith) (omega arith) in
              rw (scan, more, bit, bit)
                record {
                  left = r.left;
                  written = 0 ∷ r.written;
                  here = r.here;
                  fits = r.fits;
                  odd = r.odd;
                  value = doubled n x (ground (arith, even)) ∙ r.value;
                  forward = omega (arith, r.forward);
                  cost = omega (arith, r.cost);
                  wrote = subst (stream.Wrote _) (append_assoc bs (0 ∷ []) r.written) r.wrote;
                  back = λ fuel' rd rest room ahead.
                      skip_zero fuel' rd n _ (r.written ++ rest) rest room (ground arith) ahead
                        (λ fuel'' rd' room' ahead'. r.back fuel'' rd' rest room' ahead');
                }
        ]
        | inr last ↦
            let only : left ≡ 0 = ground arith in
            let one : x ≡ 1 = ground (arith, p, subst (λ l. x < 2 ^ suc l) only fits) in
            rw (scan, last)
              record {
                left = suc left;
                written = [];
                here = here;
                fits = fits;
                odd = ground (arith, one);
                value = refl;
                forward = le_refl n;
                cost = ground (arith, last);
                wrote = subst (stream.Wrote w) (sym (append-nil bs)) h;
                back = λ fuel' rd rest room ahead. skip_none fuel' rd n rest (ground arith) ahead;
              }
      ]

  -- After the groups from position `n`, read from what was written with the plane so far in `y`.
  pub record Grouped (x n : ℕ) (bs : List ℕ) (r : W × ℕ) : Type 0 where
    pub written : List ℕ
    pub ends : r.1 ≤ size
    pub cost : length written + min n (size - 1) + n ≤ min r.1 (size - 1) + size
    pub wrote : stream.Wrote r.0 (bs ++ written)
    pub back :
        (fuel : ℕ) (rd : R) (y : ℕ) (rest : List ℕ)
        → size ≤ fuel + n
        → y + 2 ^ n * x < 2 ^ 64
        → stream.Ahead rd (written ++ rest)
        → let out = read_groups reader size fuel rd y n in
          (out.1 ≡ y + 2 ^ n * x) × (out.2 ≡ r.1) × stream.Ahead out.0 rest

  read_none :
      (fuel : ℕ) (rd : R) (y n : ℕ) → size ≤ n → read_groups reader size fuel rd y n ≡ (rd, y, n)
  unfolding read_groups
  read_none zero rd y n last = refl
  read_none (suc fuel) rd y n last =
      let outside : ltb n size ≡ false = ground arith in rw (read_groups, outside) refl

  none_left :
      (x n : ℕ) (bs : List ℕ) (w : W) → stream.Wrote w bs → x ≡ 0 → n ≡ size → Grouped x n bs (w, n)
  none_left x n bs w h none last = record {
    written = [];
    ends = omega arith;
    cost = omega arith;
    wrote = subst (stream.Wrote w) (sym (append-nil bs)) h;
    back = λ fuel rd y rest room small ahead.
        rw (read_none fuel rd y n (omega arith))
          (omega (arith, ap (λ z. 2 ^ n * z) none, mul-zero (2 ^ n)), refl, ahead);
  }

  read_zero :
      (fuel : ℕ) (rd : R) (y n : ℕ) (rest : List ℕ)
      → size ≤ fuel + n
      → n < size
      → stream.Ahead rd (0 ∷ rest)
      → let out = read_groups reader size fuel rd y n in
        (out.1 ≡ y) × (out.2 ≡ n) × stream.Ahead out.0 rest
  unfolding read_groups
  read_zero zero rd y n rest room more h = absurd (omega arith)
  read_zero (suc fuel) rd y n rest room more h =
      let inside : ltb n size ≡ true = ground arith in
      let read = stream.read_bit-Ahead rd 0 rest (omega arith) h in
      rw (read_groups, inside, read.0) (refl, refl, read.1)

  odd_value : (n x : ℕ) → x % 2 ≡ 1 → 2 ^ n + 2 ^ (n + 1) * (x / 2) ≡ 2 ^ n * x
  odd_value n x odd =
      let parts : x ≡ 1 + 2 * (x / 2) = omega arith in
      omega (
        arith,
        ap (λ z. 2 ^ n * z) parts,
        mul-add (2 ^ n) 1 (2 * (x / 2)),
        mul-one (2 ^ n),
        mul_assoc (2 ^ n) 2 (x / 2),
        ap (λ p. p * (x / 2)) {x = 2 ^ n * 2} {y = 2 ^ (n + 1)} (omega (arith, next_power n)),
      )

  some_room : (x l : ℕ) → x % 2 ≡ 1 → x < 2 ^ l → (1 ≤ l) × (x / 2 < 2 ^ (l - 1))
  some_room x zero odd fits = absurd (omega arith)
  some_room x (suc l) odd fits =
      let pred : suc l - 1 ≡ l = omega arith in
      (omega arith, rw pred (omega (arith, two-pow-suc l)))

  some_left :
      (x n left : ℕ) (bs : List ℕ) (w : W)
      → n < size
      → n + left ≡ size
      → (s : Scanned x n (bs ++ (1 ∷ [])) w (scan writer size size w x n))
      → let (w', x', n') = scan writer size size w x n in
        (r : W × ℕ)
        → Grouped (x' >>> 1) (n' + 1) ((bs ++ (1 ∷ [])) ++ s.written) r
        → Grouped x n bs r
  unfolding read_groups
  some_left x n left bs w more here s r g = record {
    written = 1 ∷ (s.written ++ g.written);
    ends = g.ends;
    cost = omega (arith, s.cost, s.forward, g.cost, length-append s.written g.written, more);
    wrote =
        subst (stream.Wrote r.0)
          (append_assoc (bs ++ (1 ∷ [])) s.written g.written
            ∙ append_assoc bs (1 ∷ []) (s.written ++ g.written))
          g.wrote;
    back = back;
  }
    where
      sc : W × ℕ × ℕ
      sc = scan writer size size w x n

      back :
          (fuel : ℕ) (rd : R) (y : ℕ) (rest : List ℕ)
          → size ≤ fuel + n
          → y + 2 ^ n * x < 2 ^ 64
          → stream.Ahead rd ((1 ∷ (s.written ++ g.written)) ++ rest)
          → let out = read_groups reader size fuel rd y n in
            (out.1 ≡ y + 2 ^ n * x) × (out.2 ≡ r.1) × stream.Ahead out.0 rest
      back zero rd y rest room small ahead = absurd (omega arith)
      back (suc fuel) rd y rest room small ahead =
          let inside : ltb n size ≡ true = ground arith in
          let read =
            stream.read_bit-Ahead rd 1 ((s.written ++ g.written) ++ rest) (omega arith) ahead in
          let rd₁ = (reader.read_bit rd).1 in
          let skip =
            s.back size rd₁ (g.written ++ rest) (omega arith)
              (subst (stream.Ahead rd₁) (append_assoc s.written g.written rest) read.1) in
          let total = odd_value sc.2 sc.1 s.odd in
          let bit : 2 ^ sc.2 ≤ 2 ^ n * x = omega (arith, s.value, total) in
          let wrap : u64 (y + u64 (1 <<< sc.2)) ≡ y + 2 ^ sc.2 = omega arith in
          let (value, ends, after) =
            g.back fuel (skip_zeros reader size size rd₁ n).0 (y + 2 ^ sc.2) rest
              (omega (arith, s.forward)) (omega (arith, s.value, total)) skip.1 in
          rw (read_groups, inside, read.0, skip.0, wrap)
            (omega (arith, value, s.value, total), ends, after)

  pub groups_lem :
      (fuel left : ℕ) (w : W) (x n : ℕ) (bs : List ℕ)
      → stream.Wrote w bs
      → x < 2 ^ left
      → n + left ≡ size
      → left ≤ fuel
      → Grouped x n bs (groups writer size fuel w x n)
  unfolding groups
  groups_lem zero left w x n bs h fits here enough =
      let none : left ≡ 0 = omega arith in
      none_left x n bs w h (omega (arith, subst (λ l. x < 2 ^ l) none fits)) (omega arith)
  groups_lem (suc fuel) left w x n bs h fits here enough = elim (Bool-cases (ltb n size)) [
    | inl more ↦ elim (ℕ_discrete x 0) [
      | yes none ↦
          let zero_test : (x != 0) ≡ false = ground (arith, none) in
          rw (groups, more, zero_test)
            record {
              written = 0 ∷ [];
              ends = ground arith;
              cost = ground (arith, more);
              wrote = stream.write_bit-Wrote w bs 0 (omega arith) h;
              back = λ fuel' rd y rest room small ahead.
                  let out = read_zero fuel' rd y n rest room (ground arith) ahead in
                  (omega (arith, out.0, ap (λ z. 2 ^ n * z) none, mul-zero (2 ^ n)), out.1, out.2);
            }
      | no some_bit ↦
          let test : (x != 0) ≡ true = ground (arith, some_bit) in
          let w₁ = writer.write_bit w 1 in
          let s =
            scan_lem size left w₁ x n (bs ++ (1 ∷ []))
              (stream.write_bit-Wrote w bs 1 (omega arith) h) some_bit fits here (omega arith) in
          let sc = scan writer size size w₁ x n in
          let room = some_room sc.1 s.left s.odd s.fits in
          rw (groups, more, test)
            (some_left x n left bs w₁ (ground arith) here s _ (
              groups_lem fuel (s.left - 1) sc.0 (sc.1 / 2) (sc.2 + 1)
                ((bs ++ (1 ∷ [])) ++ s.written) s.wrote room.1 (omega (arith, s.here, room.0))
                (omega (arith, s.forward, s.here, room.0))))
    ]
    | inr last ↦
        let none : left ≡ 0 = ground arith in
        rw (groups, last)
          (none_left x n bs w h (omega (arith, subst (λ l. x < 2 ^ l) none fits)) (omega arith))
  ]
