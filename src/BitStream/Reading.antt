-- ===== src/BitStream/Reading.antt =====
-- What is to be read from a bit stream.
use zfp.Prelude.{
  ℕ, zero, suc, ◌+◌, ◌-◌, ◌*◌, ◌/◌, ◌%◌, ◌^◌, ◌≤◌, ◌<◌, ◌≡◌, refl, sym, ap, ◌∙◌, arith, List, ◌∷◌,
  ◌++◌, ◌==◌, ltb, u64, ◌>>>◌, ◌<<<◌, Bool-cases, inl, inr,
}
use mathlib.Core.Path.{subst}
use native.Mathlib.Nat.{
  mul_assoc, mul-add, mul-one, mul_comm, mod-lt, div-lt_iff_lt-mul, add-mul-mod_self_left,
  add-mul-div_left, mul-le-mul_left,
}
use zfp.Prelude.Lists.{length}
use zfp.Prelude.Bits.{two-pow-suc, one-le-two-pow, low_bits}
use zfp.Prelude.Powers.{power_add, high_part, low_part, mod-power, div-power}
use zfp.Coder.{digits}
use zfp.BitStream.{BitStream, read_bit, read_bits, refill, wsize}
use zfp.BitStream.Value.{value, words, value-append, length-append, length-digits, value-digits}
use zfp.BitStream.Writing.{mask_lem, wrapped}

-- All that is ahead, with m words of the memory.
abbrev pub pending : BitStream → ℕ → ℕ
pending s m = s.buffer + 2 ^ s.bits * words s.memory s.ptr m

pub record Ahead (last : ℕ) (s : BitStream) (bs : List ℕ) : Type 0 where
  pub count : ℕ
  pub room : length bs ≤ s.bits + 64 * count
  pub value_here : value bs ≡ pending s count % 2 ^ length bs
  pub fits : s.buffer < 2 ^ s.bits
  pub small : (i : ℕ) → s.memory i < 2 ^ 64
  -- It stands in the memory at the offset that was read.
  pub behind : s.bits ≤ 64 * s.ptr
  pub origin : pending s count ≡ words s.memory 0 (s.ptr + count) / 2 ^ (64 * s.ptr - s.bits)
  pub bounded : 64 * (s.ptr + count) < 2 ^ 64
  -- The offset at its end.
  pub at : 64 * s.ptr + length bs ≡ last + s.bits

-- The first n bits of a value, and the rest.
pub cut :
    (p n : ℕ) (v : ℕ) (bs : List ℕ)
    → value (digits n v ++ bs) ≡ p % 2 ^ length (digits n v ++ bs)
    → (v % 2 ^ n ≡ p % 2 ^ n) × (value bs ≡ p / 2 ^ n % 2 ^ length bs)
cut p n v bs h =
    let left : value (digits n v ++ bs) ≡ v % 2 ^ n + 2 ^ n * value bs =
      value-append (digits n v) bs
      ∙ ap (λ m. m + 2 ^ length (digits n v) * value bs) (value-digits n v)
      ∙ ap (λ m. v % 2 ^ n + 2 ^ m * value bs) (length-digits n v) in
    let right : p % 2 ^ length (digits n v ++ bs)
        ≡ p % 2 ^ n + 2 ^ n * (p / 2 ^ n % 2 ^ length bs) =
      ap (λ m. p % 2 ^ m)
        (length-append (digits n v) bs ∙ ap (λ m. m + length bs) (length-digits n v))
      ∙ mod-power p n (length bs) in
    let both : v % 2 ^ n + 2 ^ n * value bs ≡ p % 2 ^ n + 2 ^ n * (p / 2 ^ n % 2 ^ length bs) =
      sym left ∙ h ∙ right in
    let fv = mod-lt v (one-le-two-pow n) in
    let fp = mod-lt p (one-le-two-pow n) in
    (
      sym (low_part (2 ^ n) (value bs) _ fv) ∙ ap (λ m. m % 2 ^ n) both ∙ low_part (2 ^ n) _ _ fp,
      sym (high_part (2 ^ n) (value bs) _ fv) ∙ ap (λ m. m / 2 ^ n) both ∙ high_part (2 ^ n) _ _ fp,
    )

shifted : (k x n : ℕ) → n ≤ k → 2 ^ k * x ≡ 2 ^ n * (2 ^ (k - n) * x)
shifted k x n l =
    ap (λ m. m * x)
      (ap (λ m. 2 ^ m) {x = k} {y = n + (k - n)} (omega arith) ∙ sym (power_add n (k - n)))
    ∙ mul_assoc (2 ^ n) (2 ^ (k - n)) x

-- The low bits of what is ahead, from the buffer alone.
inside_low : (b k x n : ℕ) → n ≤ k → (b + 2 ^ k * x) % 2 ^ n ≡ b % 2 ^ n
inside_low b k x n l =
    ap (λ m. (b + m) % 2 ^ n) (shifted k x n l) ∙ add-mul-mod_self_left b (2 ^ n) (2 ^ (k - n) * x)

pub inside_high : (b k x n : ℕ) → n ≤ k → (b + 2 ^ k * x) / 2 ^ n ≡ b / 2 ^ n + 2 ^ (k - n) * x
inside_high b k x n l =
    ap (λ m. (b + m) / 2 ^ n) (shifted k x n l)
    ∙ add-mul-div_left b (2 ^ (k - n) * x) (one-le-two-pow n)

pub div_fits : (b k n : ℕ) → n ≤ k → b < 2 ^ k → b / 2 ^ n < 2 ^ (k - n)
div_fits b k n l h =
    (div-lt_iff_lt-mul (one-le-two-pow n)).1
      (omega (arith, h, power_add (k - n) n, ap (λ m. 2 ^ m) {x = k - n + n} {y = k} (omega arith)))

-- Reading bits that are in the buffer.
from_buffer :
    {last : ℕ} (s : BitStream) (n v : ℕ) (bs : List ℕ)
    → n ≤ s.bits
    → Ahead last s (digits n v ++ bs)
    → (s.buffer % 2 ^ n ≡ v % 2 ^ n)
      × Ahead last (record s { bits = s.bits - n; buffer = s.buffer / 2 ^ n }) bs
from_buffer s n v bs l h =
    let (low, high) = cut (pending s h.count) n v bs h.value_here in
    let x = words s.memory s.ptr h.count in
    (
      sym (inside_low s.buffer s.bits x n l) ∙ sym low,
      record {
        count = h.count;
        room = omega (arith, h.room, length-append (digits n v) bs, length-digits n v);
        value_here = high ∙ ap (λ m. m % 2 ^ length bs) (inside_high s.buffer s.bits x n l);
        fits = div_fits s.buffer s.bits n l h.fits;
        small = h.small;
        behind = omega (arith, h.behind);
        origin =
            sym (inside_high s.buffer s.bits x n l)
            ∙ ap (λ m. m / 2 ^ n) h.origin
            ∙ div-power (words s.memory 0 (s.ptr + h.count)) (64 * s.ptr - s.bits) n
            ∙ ap (λ m. words s.memory 0 (s.ptr + h.count) / 2 ^ m) {x = 64 * s.ptr - s.bits + n}
                {y = 64 * s.ptr - (s.bits - n)} (omega (arith, h.behind));
        bounded = h.bounded;
        at = omega (arith, h.at, h.behind, length-append (digits n v) bs, length-digits n v);
      },
    )

-- The buffer with the next word behind it.
abbrev fetched : BitStream → BitStream
fetched s = record s {
  buffer = s.buffer + 2 ^ s.bits * s.memory s.ptr;
  bits = s.bits + 64;
  ptr = s.ptr + 1;
}

fetched_fits : (b k w : ℕ) → b < 2 ^ k → w < 2 ^ 64 → b + 2 ^ k * w < 2 ^ (k + 64)
fetched_fits b k w hb hw =
    let most : 2 ^ k * (w + 1) ≤ 2 ^ k * 2 ^ 64 = mul-le-mul_left (2 ^ k) (omega arith) in
    omega (arith, most, hb, mul-add (2 ^ k) w 1, mul-one (2 ^ k), power_add k 64)

fetched-Ahead :
    {last : ℕ} (s : BitStream) (bs : List ℕ)
    → s.bits < length bs
    → Ahead last s bs
    → Ahead last (fetched s) bs
unfolding words
fetched-Ahead {last = last} s bs more h = with_words h.count h.room h.value_here h.origin h.bounded
  where
    with_words :
        (m : ℕ)
        → length bs ≤ s.bits + 64 * m
        → value bs ≡ pending s m % 2 ^ length bs
        → pending s m ≡ words s.memory 0 (s.ptr + m) / 2 ^ (64 * s.ptr - s.bits)
        → 64 * (s.ptr + m) < 2 ^ 64
        → Ahead last (fetched s) bs
    with_words zero room e origin bounded = absurd (omega arith)
    with_words (suc m) room e origin bounded =
        let w = s.memory s.ptr in
        let rest = words s.memory (s.ptr + 1) m in
        let same : pending s (suc m) ≡ pending (fetched s) m = omega (
          arith,
          ap (λ n. 2 ^ s.bits * n) {x = words s.memory s.ptr (suc m)} {y = w + 2 ^ 64 * rest} refl,
          mul-add (2 ^ s.bits) w (2 ^ 64 * rest),
          mul_assoc (2 ^ s.bits) (2 ^ 64) rest,
          ap (λ p. p * rest) (power_add s.bits 64),
        ) in
        record {
          count = m;
          room = omega arith;
          value_here = e ∙ ap (λ n. n % 2 ^ length bs) same;
          fits = fetched_fits s.buffer s.bits w h.fits (h.small s.ptr);
          small = h.small;
          behind = omega (arith, h.behind);
          origin =
              sym same
              ∙ origin
              ∙ ap (λ p. words s.memory 0 p / 2 ^ (64 * s.ptr - s.bits)) {x = s.ptr + suc m}
                  {y = s.ptr + 1 + m} (omega arith)
              ∙ ap (λ p. words s.memory 0 (s.ptr + 1 + m) / 2 ^ p) {x = 64 * s.ptr - s.bits}
                  {y = 64 * (s.ptr + 1) - (s.bits + 64)} (omega (arith, h.behind));
          bounded = omega (arith, bounded);
          at = omega (arith, h.at);
        }

abbrev after_fetch : BitStream → ℕ → ℕ → BitStream
after_fetch s bits buffer = record s { bits = bits; buffer = buffer; ptr = s.ptr + 1 }

-- `stream_read_bits` reads up to 64 bits that are ahead as the number that they are, and what is
-- after them is then ahead.
pub read_bits-Ahead :
    {last : ℕ} (s : BitStream) (v n : ℕ) (bs : List ℕ)
    → n ≤ 64
    → Ahead last s (digits n v ++ bs)
    → ((read_bits s n).0 ≡ v % 2 ^ n) × Ahead last (read_bits s n).1 bs
unfolding read_bits
read_bits-Ahead {last = last} s v n bs few h = elim (Bool-cases (ltb s.bits n)) [
  | inl less ↦
      let k = s.bits in
      let w = s.memory s.ptr in
      let past : k < n = ground (arith, less) in
      let shown : k < length (digits n v ++ bs) =
        omega (arith, past, length-append (digits n v) bs, length-digits n v) in
      let (low, after) =
        from_buffer (fetched s) n v bs (omega (arith, few)) (fetched-Ahead s _ shown h) in
      let sum : u64 (s.buffer + u64 (w <<< k)) % 2 ^ n ≡ v % 2 ^ n =
        wrapped s.buffer (w <<< k) n few
        ∙ ap (λ m. (s.buffer + m) % 2 ^ n) (mul_comm w (2 ^ k))
        ∙ low in
      elim (Bool-cases (k + wsize - n == 0)) [
        | inl none ↦
            let all : n ≡ 64 = ground (arith, none, few) in
            let empty : k + 64 - n ≡ 0 = ground (arith, none) in
            let buffer : (s.buffer + 2 ^ k * w) / 2 ^ n ≡ 0 =
              omega (arith, subst (λ m. (s.buffer + 2 ^ k * w) / 2 ^ n < 2 ^ m) empty after.fits) in
            rw (read_bits, less, none)
              (
                omega (arith, sum, ap (λ m. u64 (s.buffer + u64 (w <<< k)) % 2 ^ m) all),
                subst (λ m. Ahead last (after_fetch s 0 m) bs) buffer
                    (subst (λ m. Ahead last (after_fetch s m ((s.buffer + 2 ^ k * w) / 2 ^ n)) bs)
                      empty after),
              )
        | inr some ↦
            let double : 2 <<< (n - 1) ≡ 2 ^ n =
              sym (ap (λ m. 2 ^ m) {x = n} {y = suc (n - 1)} (omega arith) ∙ two-pow-suc (n - 1)) in
            let buffer : (s.buffer + 2 ^ k * w) / 2 ^ n ≡ w >>> (64 - (k + 64 - n)) =
              ap (λ m. (s.buffer + 2 ^ k * w) / 2 ^ m) {x = n} {y = k + (64 - (k + 64 - n))}
                (omega arith)
              ∙ sym (div-power (s.buffer + 2 ^ k * w) k (64 - (k + 64 - n)))
              ∙ ap (λ m. m / 2 ^ (64 - (k + 64 - n))) (high_part (2 ^ k) w s.buffer h.fits) in
            rw
              (
                read_bits,
                less,
                some,
                mask_lem (u64 (s.buffer + u64 (w <<< k))) n (2 <<< (n - 1)) double few,
              )
              (sum, subst (λ m. Ahead last (after_fetch s (k + 64 - n) m) bs) buffer after)
      ]
  | inr enough ↦
      let (low, after) = from_buffer s n v bs (ground (arith, enough)) h in
      rw (read_bits, enough, mask_lem s.buffer n (1 <<< n) (omega arith) few) (low, after)
]

refill-Ahead :
    {last : ℕ} (s : BitStream) (bs : List ℕ)
    → 1 ≤ length bs
    → Ahead last s bs
    → Ahead last (refill s) bs × (1 ≤ (refill s).bits)
unfolding refill
refill-Ahead {last = last} s bs some h = elim (Bool-cases (s.bits == 0)) [
  | inl none ↦
      let zero_bits : s.bits ≡ 0 = ground (arith, none) in
      let empty : s.buffer ≡ 0 = omega (arith, subst (λ m. s.buffer < 2 ^ m) zero_bits h.fits) in
      let next = s.memory s.ptr in
      let buffer : s.buffer + 2 ^ s.bits * next ≡ next =
        omega (arith, empty, ap (λ m. 2 ^ m * next) zero_bits) in
      let bits : s.bits + 64 ≡ 64 = omega arith in
      let full = fetched-Ahead s bs (omega arith) h in
      rw (refill, none)
        (
          subst (λ m. Ahead last (after_fetch s 64 m) bs) buffer
              (subst (λ m. Ahead last (after_fetch s m (s.buffer + 2 ^ s.bits * next)) bs) bits
                full),
          omega arith,
        )
  | inr more ↦ rw (refill, more) (h, ground (arith, more))
]

pub read_bit-Ahead :
    {last : ℕ} (s : BitStream) (b : ℕ) (bs : List ℕ)
    → b < 2
    → Ahead last s (b ∷ bs)
    → ((read_bit s).0 ≡ b) × Ahead last (read_bit s).1 bs
unfolding read_bit digits
read_bit-Ahead {last = last} s b bs small h =
    let (h', some) = refill-Ahead s (b ∷ bs) (omega arith) h in
    let same : b % 2 ≡ b = omega arith in
    let one = subst (λ c. Ahead last (refill s) (c ∷ bs)) (sym same) h' in
    let (low, after) = from_buffer (refill s) 1 b bs some one in
    (low_bits 1 (refill s).buffer ∙ low ∙ same, after)
