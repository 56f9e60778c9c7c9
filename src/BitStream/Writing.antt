-- ===== src/BitStream/Writing.antt =====
-- What has been written to a bit stream.
use zfp.Prelude.{
  ℕ, suc, ◌+◌, ◌-◌, ◌*◌, ◌/◌, ◌%◌, ◌^◌, ◌≤◌, ◌<◌, ◌≡◌, refl, sym, ap, ◌∙◌, arith, true, List, [],
  ◌∷◌, ◌++◌, ◌==◌, leb, u64, ◌>>>◌, ◌<<<◌, bit_and, Bool-cases, inl, inr,
}
use zfp.Prelude.{sub64}
use native.Mathlib.Nat.{mul_assoc, mul-add, mul-le-mul_right, mul_comm, mod-lt, pow-le-pow_right}
use zfp.Prelude.Lists.{length}
use zfp.Prelude.Bits.{two-pow-suc, one-le-two-pow, low_bits}
use mathlib.Core.Path.{subst}
use zfp.Prelude.Powers.{
  mod-power, mod_power_low, div-power, power_add, mod_mul, high_part, low_part,
}
use zfp.Coder.{digits}
use zfp.BitStream.{BitStream, write_bit, write_bits, write_word, wtell, wsize}
use zfp.BitStream.Value.{
  value, words, value-append, length-append, length-digits, value-digits, IsBits, append-IsBits,
  digits-IsBits, words_snoc, words-update,
}

pub record Wrote (s : BitStream) (bs : List ℕ) : Type 0 where
  pub value_here : value bs ≡ words s.memory 0 s.ptr + 2 ^ (64 * s.ptr) * s.buffer
  pub length_here : length bs ≡ 64 * s.ptr + s.bits
  pub few : s.bits < 64
  pub fits : s.buffer < 2 ^ s.bits
  pub small : (i : ℕ) → s.memory i < 2 ^ 64
  pub binary : IsBits bs

appended :
    (s : BitStream) (bs ys : List ℕ)
    → Wrote s bs
    → value (bs ++ ys)
      ≡ words s.memory 0 s.ptr + 2 ^ (64 * s.ptr) * (s.buffer + 2 ^ s.bits * value ys)
appended s bs ys h =
    let power : 2 ^ length bs ≡ 2 ^ (64 * s.ptr) * 2 ^ s.bits =
      ap (λ n. 2 ^ n) h.length_here ∙ sym (power_add (64 * s.ptr) s.bits) in
    omega (
      arith,
      value-append bs ys,
      h.value_here,
      ap (λ p. p * value ys) power,
      mul_assoc (2 ^ (64 * s.ptr)) (2 ^ s.bits) (value ys),
      mul-add (2 ^ (64 * s.ptr)) s.buffer (2 ^ s.bits * value ys),
    )

-- A word that is put after the others.
next_word :
    (s : BitStream) (word rest : ℕ)
    → words (write_word s word).memory 0 (s.ptr + 1) + 2 ^ (64 * (s.ptr + 1)) * rest
      ≡ words s.memory 0 s.ptr + 2 ^ (64 * s.ptr) * (word + 2 ^ 64 * rest)
next_word s word rest =
    let memory = (write_word s word).memory in
    let here : (s.ptr == s.ptr) ≡ true = ground arith in
    let stored : memory (0 + s.ptr) ≡ word =
      ap memory {x = 0 + s.ptr} {y = s.ptr} (omega arith) ∙ rw here refl in
    let more : words memory 0 (s.ptr + 1)
        ≡ words memory 0 s.ptr + 2 ^ (64 * s.ptr) * memory (0 + s.ptr) =
      ap (words memory 0) {x = s.ptr + 1} {y = suc s.ptr} (omega arith)
      ∙ words_snoc memory 0 s.ptr in
    let power : 2 ^ (64 * (s.ptr + 1)) ≡ 2 ^ (64 * s.ptr) * 2 ^ 64 =
      ap (λ n. 2 ^ n) {x = 64 * (s.ptr + 1)} {y = 64 * s.ptr + 64} (omega arith)
      ∙ sym (power_add (64 * s.ptr) 64) in
    omega (
      arith,
      more,
      ap (λ w. 2 ^ (64 * s.ptr) * w) stored,
      words-update s.memory 0 s.ptr s.ptr word (omega arith),
      ap (λ p. p * rest) power,
      mul_assoc (2 ^ (64 * s.ptr)) (2 ^ 64) rest,
      mul-add (2 ^ (64 * s.ptr)) word (2 ^ 64 * rest),
    )

write_word-small :
    (s : BitStream) (word : ℕ)
    → word < 2 ^ 64
    → ((i : ℕ) → s.memory i < 2 ^ 64)
    → (i : ℕ) → (write_word s word).memory i < 2 ^ 64
write_word-small s word fits h i = elim (Bool-cases (s.ptr == i)) [
  | inl here ↦ rw here fits
  | inr other ↦ rw other (h i)
]

-- A word that is full goes to memory, and the rest of the bits to the buffer.
pub full :
    (s : BitStream) (bs ys : List ℕ) (word rest bits : ℕ)
    → Wrote s bs
    → IsBits ys
    → word < 2 ^ 64
    → rest < 2 ^ bits
    → bits < 64
    → s.bits + length ys ≡ 64 + bits
    → s.buffer + 2 ^ s.bits * value ys ≡ word + 2 ^ 64 * rest
    → Wrote (record (write_word s word) { buffer = rest; bits = bits }) (bs ++ ys)
full s bs ys word rest bits h binary small fits few count total = record {
  value_here =
      appended s bs ys h
      ∙ ap (λ n. words s.memory 0 s.ptr + 2 ^ (64 * s.ptr) * n) total
      ∙ sym (next_word s word rest);
  length_here = omega (arith, length-append bs ys, h.length_here);
  few = few;
  fits = fits;
  small = write_word-small s word small h.small;
  binary = append-IsBits bs ys h.binary binary;
}

-- Bits that fit go to the buffer.
pub room :
    (s : BitStream) (bs ys : List ℕ) (buffer bits : ℕ)
    → Wrote s bs
    → IsBits ys
    → bits < 64
    → s.bits + length ys ≡ bits
    → buffer < 2 ^ bits
    → s.buffer + 2 ^ s.bits * value ys ≡ buffer
    → Wrote (record s { buffer = buffer; bits = bits }) (bs ++ ys)
room s bs ys buffer bits h binary few count fits total = record {
  value_here = appended s bs ys h ∙ ap (λ n. words s.memory 0 s.ptr + 2 ^ (64 * s.ptr) * n) total;
  length_here = omega (arith, length-append bs ys, h.length_here);
  few = few;
  fits = fits;
  small = h.small;
  binary = append-IsBits bs ys h.binary binary;
}

two-pow-le : (k : ℕ) → k ≤ 64 → 2 ^ k ≤ 2 ^ 64
two-pow-le k few = pow-le-pow_right {n = 2} (omega arith) few

-- The mask of the low k bits.
pub mask_lem : (x k p : ℕ) → p ≡ 2 ^ k → k ≤ 64 → bit_and x (sub64 (u64 p) 1) ≡ x % 2 ^ k
mask_lem x k p e few =
    let ones : sub64 (u64 p) 1 ≡ 2 ^ k - 1 = omega (arith, e, two-pow-le k few, one-le-two-pow k) in
    ap (bit_and x) ones ∙ low_bits k x

pub write_bit-Wrote :
    (s : BitStream) (bs : List ℕ) (b : ℕ)
    → b < 2
    → Wrote s bs
    → Wrote (write_bit s b) (bs ++ (b ∷ []))
unfolding write_bit value
write_bit-Wrote s bs b bit h =
    let upper = two-pow-le (s.bits + 1) (omega (arith, h.few)) in
    let double : 2 ^ (s.bits + 1) ≡ 2 * 2 ^ s.bits =
      ap (λ n. 2 ^ n) {x = s.bits + 1} {y = suc s.bits} (omega arith) ∙ two-pow-suc s.bits in
    let product : b * 2 ^ s.bits ≤ 1 * 2 ^ s.bits = mul-le-mul_right (2 ^ s.bits) (omega arith) in
    let sum : u64 (s.buffer + u64 (b <<< s.bits)) ≡ s.buffer + 2 ^ s.bits * b =
      omega (arith, product, upper, double, h.fits, mul_comm b (2 ^ s.bits)) in
    let one : 2 ^ s.bits * value (b ∷ []) ≡ 2 ^ s.bits * b =
      ap (λ n. 2 ^ s.bits * n) {x = value (b ∷ [])} {y = b} (omega arith) in
    elim (Bool-cases (s.bits + 1 == wsize)) [
      | inl last ↦
          let all : 2 ^ (s.bits + 1) ≡ 2 ^ 64 =
            ap (λ n. 2 ^ n) {x = s.bits + 1} {y = 64} (ground (arith, last)) in
          rw (write_bit, last, sum)
            (full s bs (b ∷ []) (s.buffer + 2 ^ s.bits * b) 0 0 h (bit, tt)
              (omega (arith, product, all, double, h.fits, mul_comm b (2 ^ s.bits))) (omega arith)
              (omega arith) (ground (arith, last)) (omega (arith, one)))
      | inr more ↦
          rw (write_bit, more, sum)
            (room s bs (b ∷ []) (s.buffer + 2 ^ s.bits * b) (s.bits + 1) h (bit, tt)
              (ground (arith, more, h.few)) (omega arith)
              (omega (arith, product, double, h.fits, mul_comm b (2 ^ s.bits)))
              (omega (arith, one)))
    ]

pub wtell-Wrote : (s : BitStream) (bs : List ℕ) → Wrote s bs → wtell s ≡ u64 (length bs)
unfolding wtell
wtell-Wrote s bs h = omega (arith, h.length_here)

-- The bits of a value above the buffer.
buffered : (b k v n : ℕ) → b < 2 ^ k → (b + v * 2 ^ k) % 2 ^ (k + n) ≡ b + 2 ^ k * (v % 2 ^ n)
buffered b k v n h =
    let p = 2 ^ k in
    let q = 2 ^ n in
    ap (λ m. (b + v * p) % m) (sym (power_add k n))
    ∙ ap (λ m. m % (p * q)) {x = b + v * p} {y = b + p * v} (omega (arith, mul_comm v p))
    ∙ mod_mul (b + p * v) p q (one-le-two-pow k) (one-le-two-pow n)
    ∙ omega (arith, low_part p v b h, ap (λ m. p * (m % q)) (high_part p v b h))

-- Sums of a word are sums of its low bits.
pub wrapped : (b x k : ℕ) → k ≤ 64 → u64 (b + u64 x) % 2 ^ k ≡ (b + x) % 2 ^ k
wrapped b x k few =
    let split : 64 ≡ k + (64 - k) = omega arith in
    ap (λ n. n % 2 ^ k) {x = u64 (b + u64 x)} {y = (b + x) % 2 ^ 64} (omega arith)
    ∙ ap (λ n. (b + x) % 2 ^ n % 2 ^ k) split
    ∙ mod_power_low (b + x) k (64 - k)

joined_lt : (b k v n : ℕ) → b < 2 ^ k → b + 2 ^ k * (v % 2 ^ n) < 2 ^ (k + n)
joined_lt b k v n h =
    subst (λ m. m < 2 ^ (k + n)) (buffered b k v n h)
      (mod-lt (b + v * 2 ^ k) (one-le-two-pow (k + n)))

-- What is left of a value past the bits that fill a word.
left_over : (v n low : ℕ) → low ≤ n → 1 ≤ low → v >>> 1 >>> (n - 1 - (n - low)) ≡ v / 2 ^ low
left_over v n low inside some =
    ap (λ m. v >>> 1 >>> m) {x = n - 1 - (n - low)} {y = low - 1} (omega arith)
    ∙ div-power v 1 (low - 1)
    ∙ ap (λ m. v / 2 ^ m) {x = 1 + (low - 1)} {y = low} (omega arith)

overflow :
    (b k v n : ℕ)
    → k < 64
    → 64 ≤ k + n
    → b + 2 ^ k * (v % 2 ^ n)
      ≡ b + 2 ^ k * (v % 2 ^ (64 - k)) + 2 ^ 64 * (v / 2 ^ (64 - k) % 2 ^ (k + n - 64))
overflow b k v n few full =
    let low = 64 - k in
    let rest = v / 2 ^ low % 2 ^ (k + n - 64) in
    let parts : v % 2 ^ n ≡ v % 2 ^ low + 2 ^ low * rest =
      ap (λ m. v % 2 ^ m) {x = n} {y = low + (k + n - 64)} (omega arith)
      ∙ mod-power v low (k + n - 64) in
    let power : 2 ^ k * 2 ^ low ≡ 2 ^ 64 =
      power_add k low ∙ ap (λ m. 2 ^ m) {x = k + low} {y = 64} (omega arith) in
    omega (
      arith,
      ap (λ m. 2 ^ k * m) parts,
      mul-add (2 ^ k) (v % 2 ^ low) (2 ^ low * rest),
      mul_assoc (2 ^ k) (2 ^ low) rest,
      ap (λ m. m * rest) power,
    )

fitted : (v n : ℕ) → v % 2 ^ n < 2 ^ n
fitted v n = mod-lt v (one-le-two-pow n)

-- `stream_write_bits` appends the lowest n bits of a word, for n up to 64, and returns the others.
pub write_bits-Wrote :
    (s : BitStream) (bs : List ℕ) (v n : ℕ)
    → n ≤ 64
    → v < 2 ^ 64
    → Wrote s bs
    → ((write_bits s v n).0 ≡ v / 2 ^ n) × Wrote (write_bits s v n).1 (bs ++ digits n v)
unfolding write_bits
write_bits-Wrote s bs v n few small h = elim (Bool-cases (leb wsize (s.bits + n))) [
  | inl full_word ↦
      let low = 64 - s.bits in
      let bits = s.bits + n - 64 in
      let x = s.buffer + v * 2 ^ s.bits in
      let past : 64 ≤ s.bits + n = ground (arith, full_word) in
      let sum : s.bits + low ≡ 64 = omega (arith, h.few) in
      let word : u64 (s.buffer + u64 (v <<< s.bits)) ≡ s.buffer + 2 ^ s.bits * (v % 2 ^ low) =
        omega arith ∙ ap (λ m. x % 2 ^ m) (sym sum) ∙ buffered s.buffer s.bits v low h.fits in
      let small_word : s.buffer + 2 ^ s.bits * (v % 2 ^ low) < 2 ^ 64 =
        subst (λ m. s.buffer + 2 ^ s.bits * (v % 2 ^ low) < 2 ^ m) sum
          (joined_lt s.buffer s.bits v low h.fits) in
      let rest : bit_and (v >>> 1 >>> (n - 1 - (s.bits + n - 64))) (sub64 (u64 (1 <<< bits)) 1)
          ≡ v / 2 ^ low % 2 ^ bits =
        mask_lem _ bits (1 <<< bits) (omega arith) (omega (arith, h.few))
        ∙ ap (λ m. m % 2 ^ bits)
            (ap (λ m. v >>> 1 >>> (n - 1 - m)) {x = s.bits + n - 64} {y = n - low}
                (omega (arith, h.few, past))
              ∙ left_over v n low (omega (arith, past)) (omega (arith, h.few))) in
      let result : v >>> 1 >>> (n - 1) ≡ v / 2 ^ n =
        div-power v 1 (n - 1)
        ∙ ap (λ m. v / 2 ^ m) {x = 1 + (n - 1)} {y = n} (omega (arith, h.few, past)) in
      rw (write_bits, full_word, word, rest)
        (
          result,
          full s bs (digits n v) (s.buffer + 2 ^ s.bits * (v % 2 ^ low)) (v / 2 ^ low % 2 ^ bits)
              bits h (digits-IsBits n v) small_word (fitted (v / 2 ^ low) bits)
              (omega (arith, h.few, few)) (omega (arith, length-digits n v, past))
              (ap (λ m. s.buffer + 2 ^ s.bits * m) (value-digits n v)
                ∙ overflow s.buffer s.bits v n h.few past),
        )
  | inr fits ↦
      let bits = s.bits + n in
      let mask =
        mask_lem (u64 (s.buffer + u64 (v <<< s.bits))) bits (1 <<< bits) (omega arith)
          (ground (arith, fits)) in
      let value' : bit_and (u64 (s.buffer + u64 (v <<< s.bits))) (sub64 (u64 (1 <<< bits)) 1)
          ≡ s.buffer + 2 ^ s.bits * (v % 2 ^ n) =
        mask
        ∙ wrapped s.buffer (v <<< s.bits) bits (ground (arith, fits))
        ∙ buffered s.buffer s.bits v n h.fits in
      rw (write_bits, fits, value')
        (
          refl,
          room s bs (digits n v) (s.buffer + 2 ^ s.bits * (v % 2 ^ n)) bits h (digits-IsBits n v)
              (ground (arith, fits)) (omega (arith, length-digits n v))
              (joined_lt s.buffer s.bits v n h.fits)
              (ap (λ m. s.buffer + 2 ^ s.bits * m) (value-digits n v)),
        )
]
