-- ===== src/Stream/Modes.antt =====
-- The compression mode as one number: what is written of the parameters and read again.
use zfp.Prelude.{
  ℕ, ◌+◌, ◌-◌, ◌*◌, ◌^◌, ◌≤◌, ◌<◌, ◌≡◌, refl, arith, true, false, not, leb, ltb, u32, u64, ◌&&◌,
  ◌||◌, ◌==◌, Bool-cases, Bool, if◌then◌else◌, inl, inr, ◌⊎◌, ◌%◌, ◌≢◌, bit_and, ◌>>>◌,
}
use zfp.Prelude.Bits.{low_bits}
use zfp.Prelude.Int.{max_ℤ, min_ℤ, leb_ℤ, ℤ, pos, negsuc, pos_part, neg_part, ◌-ℤ◌, ◌+ℤ◌}
use zfp.Prelude.{min, max}
use zfp.Field.{append}
use zfp.Stream.{
  Params, Mode, zfp_mode_null, zfp_mode_expert, zfp_mode_fixed_rate, zfp_mode_fixed_precision,
  zfp_mode_fixed_accuracy, zfp_mode_reversible, min_exp, compression_mode, long_mode, stream_mode,
  mode_params, set_params, set_mode, max_bits,
}

-- Parameters that the modes tell apart: at least one bit, at most ZFP_MAX_BITS, and an exponent
-- from one below ZFP_MIN_EXP on.
pub record IsRegular (zfp : Params) : Type 0 where
  pub ordered : zfp.minbits ≤ zfp.maxbits
  pub some_bits : 1 ≤ zfp.minbits
  pub most_bits : zfp.maxbits ≤ max_bits
  pub some_planes : 1 ≤ zfp.maxprec
  pub most_planes : zfp.maxprec ≤ 64
  pub low_exponent : neg_part zfp.minexp ≤ 1075
  pub high_exponent : pos_part zfp.minexp ≤ 16272

long_digits :
    (e p b a : ℕ)
    → e < 2 ^ 15
    → p < 2 ^ 7
    → b < 2 ^ 15
    → a < 2 ^ 15
    → append (append (append (append (append 0 15 e) 7 p) 15 b) 15 a) 12 0xfff
      ≡ (((e * 2 ^ 7 + p) * 2 ^ 15 + b) * 2 ^ 15 + a) * 2 ^ 12 + 0xfff
long_digits e p b a he hp hb ha = omega arith

long_value :
    (zfp : Params)
    → IsRegular zfp
    → long_mode zfp ≡ (
        ((((pos_part (zfp.minexp +ℤ pos 16495)) * 2 ^ 7 + (zfp.maxprec - 1)) * 2 ^ 15
                + (zfp.maxbits - 1))
              * 2 ^ 15
            + (zfp.minbits - 1))
          * 2 ^ 12
        + 0xfff)
unfolding long_mode
long_value zfp h =
    let exponent : pos_part (max_ℤ (pos 0) (min_ℤ (zfp.minexp +ℤ pos 16495) (pos 0x7fff)))
        ≡ pos_part (zfp.minexp +ℤ pos 16495) =
      ground arith in
    let a : max 1 (min zfp.minbits 0x8000) - 1 ≡ zfp.minbits - 1 = omega arith in
    let b : max 1 (min zfp.maxbits 0x8000) - 1 ≡ zfp.maxbits - 1 = omega arith in
    let c : max 1 (min zfp.maxprec 0x80) - 1 ≡ zfp.maxprec - 1 = omega arith in
    rw (exponent, a, b, c)
      (long_digits (pos_part (zfp.minexp +ℤ pos 16495)) (zfp.maxprec - 1) (zfp.maxbits - 1)
        (zfp.minbits - 1) (ground arith) (omega arith) (omega arith) (omega arith))

exponent_back : (e : ℤ) → neg_part e ≤ 1075 → pos (pos_part (e +ℤ pos 16495)) -ℤ pos 16495 ≡ e
exponent_back e low = ground arith

mode_params-long_mode : (zfp : Params) → IsRegular zfp → mode_params (long_mode zfp) ≡ zfp
unfolding mode_params
mode_params-long_mode zfp h =
    let m = long_mode zfp in
    let e = pos_part (zfp.minexp +ℤ pos 16495) in
    let value = long_value zfp h in
    let fits : e < 2 ^ 15 = ground arith in
    let long : leb m 4094 ≡ false = ground (arith, value) in
    let q : u32 (bit_and (m >>> 12) 0x7fff) + 1 ≡ zfp.minbits =
      omega (arith, value, low_bits 15 (m >>> 12)) in
    let r : u32 (bit_and (m >>> 12 >>> 15) 0x7fff) + 1 ≡ zfp.maxbits =
      omega (arith, value, low_bits 15 (m >>> 12 >>> 15)) in
    let s : u32 (bit_and (m >>> 12 >>> 15 >>> 15) 0x7f) + 1 ≡ zfp.maxprec =
      omega (arith, value, low_bits 7 (m >>> 12 >>> 15 >>> 15)) in
    let t : bit_and (m >>> 12 >>> 15 >>> 15 >>> 7) 0x7fff ≡ e =
      omega (arith, value, low_bits 15 (m >>> 12 >>> 15 >>> 15 >>> 7)) in
    rw (long, q, r, s, t, exponent_back zfp.minexp h.low_exponent) refl

set_mode_of :
    (g zfp : Params) (mode : ℕ)
    → IsRegular zfp
    → mode_params mode ≡ zfp
    → set_mode g mode ≡ (compression_mode zfp, zfp)
unfolding set_mode set_params
set_mode_of g zfp mode h e =
    let fine : (ltb zfp.maxbits zfp.minbits || not (ltb 0 zfp.maxprec && leb zfp.maxprec 64))
        ≡ false =
      ground arith in
    rw (e, fine) refl

fixed_rate_params :
    (zfp : Params)
    → IsRegular zfp
    → compression_mode zfp ≡ zfp_mode_fixed_rate
    → (zfp.minbits ≡ zfp.maxbits) × (zfp.maxprec ≡ 64) × (zfp.minexp ≡ min_exp)
unfolding compression_mode
fixed_rate_params zfp h e = ground (arith, e)

fixed_precision_params :
    (zfp : Params)
    → IsRegular zfp
    → compression_mode zfp ≡ zfp_mode_fixed_precision
    → (zfp.minbits ≡ 1) × (zfp.maxbits ≡ max_bits) × (zfp.minexp ≡ min_exp)
unfolding compression_mode
fixed_precision_params zfp h e = ground (arith, e)

fixed_accuracy_params :
    (zfp : Params)
    → IsRegular zfp
    → compression_mode zfp ≡ zfp_mode_fixed_accuracy
    → (zfp.minbits ≡ 1)
      × (zfp.maxbits ≡ max_bits)
      × (zfp.maxprec ≡ 64)
      × (neg_part zfp.minexp ≤ 1073)
unfolding compression_mode
fixed_accuracy_params zfp h e = ground (arith, e)

reversible_params :
    (zfp : Params)
    → IsRegular zfp
    → compression_mode zfp ≡ zfp_mode_reversible
    → (zfp.minbits ≡ 1) × (zfp.maxbits ≡ max_bits) × (zfp.maxprec ≡ 64) × (zfp.minexp ≡ negsuc 1074)
unfolding compression_mode
reversible_params zfp h e = ground (arith, e)

exponent_short :
    (x : ℤ)
    → neg_part x ≤ 1073
    → pos (pos_part (x -ℤ min_exp) + 2177) +ℤ min_exp -ℤ pos (2048 + 128 + 1) ≡ x
exponent_short x low = ground arith

short_rate :
    (zfp : Params)
    → IsRegular zfp
    → leb zfp.maxbits 2048 ≡ true
    → zfp.minbits ≡ zfp.maxbits
    → zfp.maxprec ≡ 64
    → zfp.minexp ≡ min_exp
    → mode_params (zfp.maxbits - 1) ≡ zfp
unfolding mode_params
short_rate zfp h few same prec exponent =
    let short : leb (zfp.maxbits - 1) 4094 ≡ true = ground arith in
    let rate : ltb (zfp.maxbits - 1) 2048 ≡ true = ground arith in
    let back : u32 (zfp.maxbits - 1) + 1 ≡ zfp.maxbits = ground arith in
    rw (short, rate, back, prec, exponent, same) refl

short_precision :
    (zfp : Params)
    → IsRegular zfp
    → (zfp.minbits ≡ 1) × (zfp.maxbits ≡ max_bits) × (zfp.minexp ≡ min_exp)
    → mode_params (zfp.maxprec - 1 + 2048) ≡ zfp
unfolding mode_params
short_precision zfp h p =
    let m = zfp.maxprec - 1 + 2048 in
    let short : leb m 4094 ≡ true = ground arith in
    let rate : ltb m 2048 ≡ false = ground arith in
    let precision : ltb m (2048 + 128) ≡ true = ground arith in
    let back : u32 m + 1 - 2048 ≡ zfp.maxprec = ground arith in
    rw (short, rate, precision, back, p.0, p.1, p.2) refl

short_accuracy :
    (zfp : Params)
    → IsRegular zfp
    → (zfp.minbits ≡ 1)
      × (zfp.maxbits ≡ max_bits)
      × (zfp.maxprec ≡ 64)
      × (neg_part zfp.minexp ≤ 1073)
    → leb_ℤ zfp.minexp (pos 843) ≡ true
    → mode_params (u64 (pos_part (zfp.minexp -ℤ min_exp) + (2048 + 128 + 1))) ≡ zfp
unfolding mode_params
short_accuracy zfp h p low =
    let e = pos_part (zfp.minexp -ℤ min_exp) in
    let m = u64 (e + (2048 + 128 + 1)) in
    let room : e ≤ 1917 = ground arith in
    let short : leb m 4094 ≡ true = ground arith in
    let rate : ltb m 2048 ≡ false = ground arith in
    let precision : ltb m (2048 + 128) ≡ false = ground arith in
    let reversible : (m == 2048 + 128) ≡ false = ground arith in
    let value : u32 m ≡ e + 2177 = ground arith in
    let back : pos (e + 2177) +ℤ min_exp -ℤ pos (2048 + 128 + 1) ≡ zfp.minexp =
      exponent_short zfp.minexp p.3 in
    rw (short, rate, precision, reversible, value, back, p.0, p.1, p.2) refl

fixed_rate_back :
    (zfp : Params)
    → IsRegular zfp
    → compression_mode zfp ≡ zfp_mode_fixed_rate
    → mode_params (stream_mode zfp) ≡ zfp
unfolding stream_mode
fixed_rate_back zfp h e =
    let (same, prec, exponent) = fixed_rate_params zfp h e in
    elim (Bool-cases (leb zfp.maxbits 2048)) [
      | inl few ↦ rw (stream_mode, e, few) (short_rate zfp h few same prec exponent)
      | inr many ↦ rw (stream_mode, e, many) (mode_params-long_mode zfp h)
    ]

fixed_precision_back :
    (zfp : Params)
    → IsRegular zfp
    → compression_mode zfp ≡ zfp_mode_fixed_precision
    → mode_params (stream_mode zfp) ≡ zfp
unfolding stream_mode
fixed_precision_back zfp h e =
    let few : leb zfp.maxprec 128 ≡ true = ground arith in
    rw (stream_mode, e, few) (short_precision zfp h (fixed_precision_params zfp h e))

fixed_accuracy_back :
    (zfp : Params)
    → IsRegular zfp
    → compression_mode zfp ≡ zfp_mode_fixed_accuracy
    → mode_params (stream_mode zfp) ≡ zfp
unfolding stream_mode
fixed_accuracy_back zfp h e = elim (Bool-cases (leb_ℤ zfp.minexp (pos 843))) [
  | inl low ↦ rw (stream_mode, e, low) (short_accuracy zfp h (fixed_accuracy_params zfp h e) low)
  | inr high ↦ rw (stream_mode, e, high) (mode_params-long_mode zfp h)
]

reversible_back :
    (zfp : Params)
    → IsRegular zfp
    → compression_mode zfp ≡ zfp_mode_reversible
    → mode_params (stream_mode zfp) ≡ zfp
unfolding stream_mode mode_params
reversible_back zfp h e =
    let p = reversible_params zfp h e in rw (stream_mode, e, p.0, p.1, p.2, p.3) refl

null_back :
    (zfp : Params)
    → IsRegular zfp
    → compression_mode zfp ≡ zfp_mode_null
    → mode_params (stream_mode zfp) ≡ zfp
unfolding stream_mode
null_back zfp h e = rw (stream_mode, e) (mode_params-long_mode zfp h)

expert_back :
    (zfp : Params)
    → IsRegular zfp
    → compression_mode zfp ≡ zfp_mode_expert
    → mode_params (stream_mode zfp) ≡ zfp
unfolding stream_mode
expert_back zfp h e = rw (stream_mode, e) (mode_params-long_mode zfp h)

-- The number that is written for a stream of regular parameters gives back the mode and all four
-- parameters when it is read.
pub set_mode-stream_mode :
    (g zfp : Params) → IsRegular zfp → set_mode g (stream_mode zfp) ≡ (compression_mode zfp, zfp)
set_mode-stream_mode g zfp h =
    set_mode_of g zfp (stream_mode zfp) h (back (compression_mode zfp) refl)
  where
    back : (mode : Mode) → compression_mode zfp ≡ mode → mode_params (stream_mode zfp) ≡ zfp
    back zfp_mode_null e = null_back zfp h e
    back zfp_mode_expert e = expert_back zfp h e
    back zfp_mode_fixed_rate e = fixed_rate_back zfp h e
    back zfp_mode_fixed_precision e = fixed_precision_back zfp h e
    back zfp_mode_fixed_accuracy e = fixed_accuracy_back zfp h e
    back zfp_mode_reversible e = reversible_back zfp h e

-- A mode is short, with at most 4094 for its number, or it is a 64-bit number whose low 12 bits are
-- ones.
pub stream_mode-short :
    (zfp : Params)
    → IsRegular zfp
    → (stream_mode zfp ≤ 4094) ⊎ ((stream_mode zfp < 2 ^ 64) × (stream_mode zfp % 2 ^ 12 ≡ 4095))
unfolding stream_mode
stream_mode-short zfp h = sizes (compression_mode zfp) refl
  where
    long :
        stream_mode zfp ≡ long_mode zfp
        → (stream_mode zfp ≤ 4094)
          ⊎ ((stream_mode zfp < 2 ^ 64) × (stream_mode zfp % 2 ^ 12 ≡ 4095))
    long e =
        let exponent : pos_part (zfp.minexp +ℤ pos 16495) < 2 ^ 15 = ground arith in
        inr (
          omega (arith, e, long_value zfp h, h.most_bits, h.ordered, h.most_planes, exponent),
          omega (arith, e, long_value zfp h),
        )

    sizes :
        (mode : Mode)
        → compression_mode zfp ≡ mode
        → (stream_mode zfp ≤ 4094)
          ⊎ ((stream_mode zfp < 2 ^ 64) × (stream_mode zfp % 2 ^ 12 ≡ 4095))
    sizes zfp_mode_null e = long (rw (stream_mode, e) refl)
    sizes zfp_mode_expert e = long (rw (stream_mode, e) refl)
    sizes zfp_mode_fixed_rate e = elim (Bool-cases (leb zfp.maxbits 2048)) [
      | inl low ↦ inl (rw (stream_mode, e, low) (ground (arith, low)))
      | inr high ↦ long (rw (stream_mode, e, high) refl)
    ]
    sizes zfp_mode_fixed_precision e = inl (rw (stream_mode, e) (ground (arith, h.most_planes)))
    sizes zfp_mode_fixed_accuracy e = elim (Bool-cases (leb_ℤ zfp.minexp (pos 843))) [
      | inl low ↦ inl (rw (stream_mode, e, low) (ground (arith, low)))
      | inr high ↦ long (rw (stream_mode, e, high) refl)
    ]
    sizes zfp_mode_reversible e = inl (rw (stream_mode, e) (omega arith))

some_mode :
    (a b c d e : Bool)
    → (if a
        then zfp_mode_expert
        else if b
        then zfp_mode_fixed_rate
        else if c
        then zfp_mode_fixed_precision
        else if d
        then zfp_mode_fixed_accuracy
        else if e
        then zfp_mode_reversible
        else zfp_mode_expert)
      ≢ zfp_mode_null
some_mode true _ _ _ _ e = cc
some_mode false true _ _ _ e = cc
some_mode false false true _ _ e = cc
some_mode false false false true _ e = cc
some_mode false false false false true e = cc
some_mode false false false false false e = cc

-- Regular parameters have a mode.
pub compression_mode-some : (zfp : Params) → IsRegular zfp → compression_mode zfp ≢ zfp_mode_null
unfolding compression_mode
compression_mode-some zfp h e =
    let ordered : ltb zfp.maxbits zfp.minbits ≡ false = ground (arith, h.ordered) in
    let planes : (ltb 0 zfp.maxprec && leb zfp.maxprec 64) ≡ true =
      ground (arith, h.some_planes, h.most_planes) in
    some_mode _ _ _ _ _ (rw (compression_mode, ordered, planes) at e)
