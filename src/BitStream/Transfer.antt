-- ===== src/BitStream/Transfer.antt =====
-- What is written to a bit stream is read from it again, once it is flushed and rewound.
use zfp.Prelude.{
  ℕ, zero, suc, ◌+◌, ◌-◌, ◌*◌, ◌/◌, ◌%◌, ◌^◌, ◌≤◌, ◌<◌, ◌≡◌, refl, sym, ap, ◌∙◌, arith, List, [],
  ◌++◌, ◌!=◌, leb, Bool-cases, inl, inr,
}
use mathlib.Core.Path.{subst}
use mathlib.Core.List.{append_assoc, append-nil}
use native.Mathlib.Nat.{mod-eq_of_lt, div-one, mul-zero, zero-div, pow-le-pow_right}
use zfp.Prelude.Lists.{length}
use zfp.Prelude.Bits.{one-le-two-pow}
use zfp.Prelude.Powers.{low_part}
use zfp.Coder.{Stream, digits}
use zfp.BitStream.{
  BitStream, writer, reader, pad, pad_words, flush, rewind, open_stream, write_word, wsize,
}
use zfp.BitStream.Value.{
  value, words, length-append, length-digits, value-digits, value-append, value-small, digits_add,
  digits-IsBits, front-IsBits,
}
use zfp.BitStream.Writing.{Wrote, full, room, write_bit-Wrote, write_bits-Wrote, wtell-Wrote}
use zfp.BitStream.Reading.{Ahead, read_bit-Ahead, read_bits-Ahead}

-- The bit stream is one that the coder and the header work on; what is to be read ends at a given
-- offset.
abbrev pub bit_stream : ℕ → Stream writer reader
bit_stream last = record {
  Wrote = Wrote;
  Ahead = Ahead last;
  write_bit-Wrote = write_bit-Wrote;
  wtell-Wrote = wtell-Wrote;
  write_bits-Wrote = write_bits-Wrote;
  read_bit-Ahead = read_bit-Ahead;
  read_bits-Ahead = read_bits-Ahead;
}

pub open_stream-Wrote :
    (memory : ℕ → ℕ) (bytes : ℕ)
    → ((i : ℕ) → memory i < 2 ^ 64)
    → Wrote (open_stream memory bytes) []
unfolding open_stream value words
open_stream-Wrote memory bytes small = record {
  value_here = refl;
  length_here = refl;
  few = omega arith;
  fits = omega arith;
  small = small;
  binary = tt;
}

-- Zeros, from a buffer with `k` bits.
zeros_value : (n k : ℕ) → 2 ^ k * value (digits n 0) ≡ 0
zeros_value n k =
    ap (λ m. 2 ^ k * m) (value-digits n 0 ∙ mod-eq_of_lt (one-le-two-pow n)) ∙ mul-zero (2 ^ k)

pad_words-Wrote :
    (fuel : ℕ) (s : BitStream) (k n : ℕ) (bs : List ℕ)
    → Wrote (record s { bits = k }) bs
    → k + n < 64 * fuel
    → Wrote (pad_words fuel s (k + n)) (bs ++ digits n 0)
unfolding pad_words
pad_words-Wrote zero s k n bs h enough = absurd (omega arith)
pad_words-Wrote (suc fuel) s k n bs h enough = elim (Bool-cases (leb wsize (k + n))) [
  | inl more ↦
      let here = record s { bits = k } in
      let left = 64 - k in
      let rest = k + n - 64 in
      let past : 64 ≤ k + n = ground (arith, more) in
      let fits : s.buffer < 2 ^ 64 = omega (
        arith,
        h.fits,
        pow-le-pow_right {n = 2} (omega arith) {i = k} {j = 64} (omega (arith, h.few)),
      ) in
      let stored =
        full here bs (digits left 0) s.buffer 0 0 h (digits-IsBits left 0) fits (omega arith)
          (omega arith) (omega (arith, length-digits left 0, h.few))
          (omega (arith, zeros_value left k)) in
      let next =
        pad_words-Wrote fuel (record (write_word s s.buffer) { buffer = 0 }) 0 rest
          (bs ++ digits left 0) stored (omega arith) in
      let zeros : digits n 0 ≡ digits left 0 ++ digits rest 0 =
        ap (λ m. digits m 0) {x = n} {y = left + rest} (omega (arith, h.few))
        ∙ digits_add left rest 0
        ∙ ap (λ v. digits left 0 ++ digits rest v) (zero-div (2 ^ left)) in
      let total : 0 + rest ≡ k + n - wsize = omega arith in
      rw (pad_words, more)
        (subst
          (λ bs'.
            Wrote (pad_words fuel (record (write_word s s.buffer) { buffer = 0 }) (k + n - wsize))
              bs')
          (append_assoc bs (digits left 0) (digits rest 0) ∙ ap (λ ds. bs ++ ds) (sym zeros))
          (subst
            (λ m.
              Wrote (pad_words fuel (record (write_word s s.buffer) { buffer = 0 }) m)
                ((bs ++ digits left 0) ++ digits rest 0))
            total next))
  | inr last ↦
      let fits : s.buffer < 2 ^ (k + n) =
        omega (
          arith,
          h.fits,
          pow-le-pow_right {n = 2} (omega arith) {i = k} {j = k + n} (omega arith),
        ) in
      rw (pad_words, last)
        (room (record s { bits = k }) bs (digits n 0) s.buffer (k + n) h (digits-IsBits n 0)
          (ground (arith, last)) (omega (arith, length-digits n 0)) fits
          (omega (arith, zeros_value n k)))
]

-- `stream_pad` appends zeros.
pub pad-Wrote :
    (s : BitStream) (n : ℕ) (bs : List ℕ) → Wrote s bs → Wrote (pad s n) (bs ++ digits n 0)
unfolding pad
pad-Wrote s n bs h = pad_words-Wrote (n / wsize + 2) s s.bits n bs h (omega (arith, h.few))

-- `stream_flush` appends zeros, as many as it returns, which are fewer than 64, and leaves the
-- buffer empty, so that what was written ends with the next whole word.
pub flush-Wrote :
    (s : BitStream) (bs : List ℕ)
    → Wrote s bs
    → Wrote (flush s).1 (bs ++ digits (flush s).0 0)
      × ((flush s).0 < 64)
      × ((flush s).1.bits ≡ 0)
      × ((length bs + (flush s).0) % 64 ≡ 0)
unfolding flush digits
flush-Wrote s bs h = elim (Bool-cases ((wsize - s.bits) % wsize != 0)) [
  | inl some ↦
      let padded = pad-Wrote s ((wsize - s.bits) % wsize) bs h in
      rw (flush, some)
        (
          padded,
          omega arith,
          omega (
            arith,
            h.length_here,
            padded.length_here,
            padded.few,
            length-append bs (digits ((wsize - s.bits) % wsize) 0),
            length-digits ((wsize - s.bits) % wsize) 0,
          ),
          omega (arith, h.length_here, h.few),
        )
  | inr none ↦
      let zero_count : (wsize - s.bits) % wsize ≡ 0 = ground (arith, none) in
      rw (flush, none, zero_count)
        (
          subst (Wrote s) (sym (append-nil bs)) h,
          omega arith,
          omega (arith, h.few),
          omega (arith, h.length_here, h.few),
        )
]

-- When the words hold all that was written, it is ahead after a rewind.
rewind-Ahead :
    (s : BitStream) (bs rest : List ℕ)
    → Wrote s (bs ++ rest)
    → s.bits ≡ 0
    → 64 * s.ptr < 2 ^ 64
    → Ahead (length bs) (rewind s) bs
unfolding rewind
rewind-Ahead s bs rest h aligned bounded =
    let empty : s.buffer ≡ 0 = omega (arith, subst (λ m. s.buffer < 2 ^ m) aligned h.fits) in
    let all : value (bs ++ rest) ≡ words s.memory 0 s.ptr =
      omega
        (arith, h.value_here, ap (λ b. 2 ^ (64 * s.ptr) * b) empty, mul-zero (2 ^ (64 * s.ptr))) in
    let small = value-small bs (front-IsBits bs rest h.binary) in
    let cut : words s.memory 0 s.ptr % 2 ^ length bs ≡ value bs =
      ap (λ v. v % 2 ^ length bs) (sym all ∙ value-append bs rest)
      ∙ low_part (2 ^ length bs) (value rest) (value bs) small in
    record {
      count = s.ptr;
      room = omega (arith, h.length_here, length-append bs rest);
      value_here =
          sym cut
          ∙ ap (λ v. v % 2 ^ length bs) {x = words s.memory 0 s.ptr}
              {y = 0 + 2 ^ 0 * words s.memory 0 s.ptr} (omega arith);
      fits = omega arith;
      small = h.small;
      behind = omega arith;
      origin = omega (
        arith,
        div-one (words s.memory 0 s.ptr),
        ap (λ p. words s.memory 0 p) {x = 0 + s.ptr} {y = s.ptr} (omega arith),
      );
      bounded = omega (arith, bounded);
      at = omega arith;
    }

-- What was written is ahead after a flush and a rewind, for fewer than 2^63 bits.
pub rewind-flush-Ahead :
    (s : BitStream) (bs : List ℕ)
    → Wrote s bs
    → length bs < 2 ^ 63
    → Ahead (length bs) (rewind (flush s).1) bs
unfolding flush
rewind-flush-Ahead s bs h short =
    let (wrote, few, aligned, whole) = flush-Wrote s bs h in
    let bounded : 64 * (flush s).1.ptr < 2 ^ 64 = omega (
      arith,
      short,
      wrote.length_here,
      length-append bs (digits (flush s).0 0),
      length-digits (flush s).0 0,
      h.few,
    ) in
    rewind-Ahead (flush s).1 bs (digits (flush s).0 0) wrote aligned bounded
