-- ===== src/BitStream/Seeking.antt =====
-- Reading a bit stream from another offset.
use zfp.Prelude.{
  ℕ, zero, suc, ◌+◌, ◌-◌, ◌*◌, ◌/◌, ◌%◌, ◌^◌, ◌≤◌, ◌<◌, ◌≡◌, ◌≢◌, sym, ap, ◌∙◌, arith, List, ◌++◌,
  ◌!=◌, u64, Bool-cases, inl, inr,
}
use mathlib.Core.Path.{subst}
use native.Mathlib.Nat.{mul_assoc, mul-add}
use zfp.Prelude.Lists.{length}
use zfp.Prelude.Powers.{power_add, high_part, div-power}
use zfp.Coder.{digits}
use zfp.BitStream.{BitStream, rseek, rtell, skip, wsize}
use zfp.BitStream.Value.{value, words, words-small, length-append, length-digits}
use zfp.BitStream.Reading.{Ahead, pending, cut, inside_high, div_fits}

words_append :
    (memory : ℕ → ℕ) (i p q : ℕ)
    → words memory i (p + q) ≡ words memory i p + 2 ^ (64 * p) * words memory (i + p) q
unfolding words
words_append memory i zero q = omega (
  arith,
  ap (words memory i) {x = 0 + q} {y = q} (omega arith),
  ap (λ j. words memory j q) {x = i + 0} {y = i} (omega arith),
  ap (λ m. 2 ^ m * words memory (i + 0) q) {x = 64 * 0} {y = 0} (omega arith),
)
words_append memory i (suc p) q =
    let rest = words memory (i + 1 + p) q in
    let low = words memory (i + 1) p in
    ap (words memory i) {x = suc p + q} {y = suc (p + q)} (omega arith)
    ∙ omega (
      arith,
      words_append memory (i + 1) p q,
      mul-add (2 ^ 64) low (2 ^ (64 * p) * rest),
      mul_assoc (2 ^ 64) (2 ^ (64 * p)) rest,
      ap (λ m. m * rest) (power_add 64 (64 * p)),
      ap (λ m. 2 ^ m * rest) {x = 64 + 64 * p} {y = 64 * suc p} (omega arith),
      ap (λ j. 2 ^ (64 * suc p) * words memory j q) {x = i + suc p} {y = i + 1 + p} (omega arith),
    )

-- The words from number p on.
later_words :
    (memory : ℕ → ℕ) (p m : ℕ)
    → ((i : ℕ) → memory i < 2 ^ 64)
    → words memory 0 (p + m) / 2 ^ (64 * p) ≡ words memory p m
later_words memory p m small =
    ap (λ v. v / 2 ^ (64 * p)) (words_append memory 0 p m)
    ∙ high_part (2 ^ (64 * p)) (words memory (0 + p) m) (words memory 0 p)
        (words-small memory 0 p small)
    ∙ ap (λ j. words memory j m) {x = 0 + p} {y = p} (omega arith)

abbrev seek_state : BitStream → ℕ → ℕ → ℕ → BitStream
seek_state s ptr bits buffer = record s { ptr = ptr; bits = bits; buffer = buffer }

rseek_lem :
    (s : BitStream) (o c : ℕ) (ys : List ℕ)
    → ((i : ℕ) → s.memory i < 2 ^ 64)
    → 64 * c < 2 ^ 64
    → o + length ys ≤ 64 * c
    → value ys ≡ words s.memory 0 c / 2 ^ o % 2 ^ length ys
    → Ahead (o + length ys) (rseek s o) ys
unfolding rseek words
rseek_lem s o c ys small bounded room here =
    let p = o / 64 in
    let k = o % 64 in
    let all = words s.memory 0 c in
    let from_word : p ≤ c → all / 2 ^ (64 * p) ≡ words s.memory p (c - p) = λ l.
      ap (λ m. words s.memory 0 m / 2 ^ (64 * p)) {x = c} {y = p + (c - p)} (omega (arith, l))
      ∙ later_words s.memory p (c - p) small in
    elim (Bool-cases (o % wsize != 0)) [
      | inl some ↦
          let odd : k ≢ 0 = ground (arith, some) in
          let m = c - (p + 1) in
          let w = s.memory p in
          let high : all / 2 ^ o ≡ w / 2 ^ k + 2 ^ (64 - k) * words s.memory (p + 1) m =
            ap (λ j. all / 2 ^ j) {x = o} {y = 64 * p + k} (omega arith)
            ∙ sym (div-power all (64 * p) k)
            ∙ ap (λ v. v / 2 ^ k) (from_word (omega (arith, odd)))
            ∙ ap (λ j. words s.memory p j / 2 ^ k) {x = c - p} {y = suc m} (omega (arith, odd))
            ∙ inside_high w 64 (words s.memory (p + 1) m) k (omega arith) in
          rw (rseek, some)
            record {
              count = m;
              room = omega (arith, odd);
              value_here = here ∙ ap (λ v. v % 2 ^ length ys) high;
              fits = div_fits w 64 k (omega arith) (small p);
              small = small;
              behind = omega arith;
              origin =
                  sym high
                  ∙ ap (λ j. words s.memory 0 j / 2 ^ o) {x = c} {y = p + 1 + m}
                      (omega (arith, odd))
                  ∙ ap (λ j. words s.memory 0 (p + 1 + m) / 2 ^ j) {x = o}
                      {y = 64 * (p + 1) - (64 - k)} (omega arith);
              bounded = omega (arith, odd);
              at = omega arith;
            }
      | inr none ↦
          let even : k ≡ 0 = ground (arith, none) in
          let m = c - p in
          let high : all / 2 ^ o ≡ 0 + 2 ^ 0 * words s.memory p m =
            ap (λ j. all / 2 ^ j) {x = o} {y = 64 * p} (omega (arith, even))
            ∙ from_word (omega (arith, even))
            ∙ omega arith in
          rw (rseek, none)
            record {
              count = m;
              room = omega (arith, even);
              value_here = here ∙ ap (λ v. v % 2 ^ length ys) high;
              fits = omega arith;
              small = small;
              behind = omega arith;
              origin =
                  sym high
                  ∙ ap (λ j. words s.memory 0 j / 2 ^ o) {x = c} {y = p + m} (omega (arith, even))
                  ∙ ap (λ j. words s.memory 0 (p + m) / 2 ^ j) {x = o} {y = 64 * p - 0}
                      (omega (arith, even));
              bounded = omega (arith, even);
              at = omega (arith, even);
            }
    ]

-- After `stream_skip` over n bits that are ahead, what is after them is ahead.
pub skip-Ahead :
    {last : ℕ} (s : BitStream) (n v : ℕ) (ys : List ℕ)
    → Ahead last s (digits n v ++ ys)
    → Ahead last (skip s n) ys
unfolding skip rtell
skip-Ahead {last = last} s n v ys h =
    let (low, high) = cut (pending s h.count) n v ys h.value_here in
    let c = s.ptr + h.count in
    let o = 64 * s.ptr - s.bits + n in
    let room : o + length ys ≤ 64 * c =
      omega (arith, h.room, h.behind, length-append (digits n v) ys, length-digits n v) in
    let offset : o ≡ u64 (rtell s + n) = omega (arith, h.behind, h.bounded, room) in
    let here : value ys ≡ words s.memory 0 c / 2 ^ o % 2 ^ length ys =
      high
      ∙ ap (λ m. m / 2 ^ n % 2 ^ length ys) h.origin
      ∙ ap (λ m. m % 2 ^ length ys) (div-power (words s.memory 0 c) (64 * s.ptr - s.bits) n) in
    let ends : o + length ys ≡ last =
      omega (arith, h.at, h.behind, length-append (digits n v) ys, length-digits n v) in
    subst (λ m. Ahead last (rseek s m) ys) offset
      (subst (λ m. Ahead m (rseek s o) ys) ends (rseek_lem s o c ys h.small h.bounded room here))
