-- ===== src/Stream.antt =====
-- The compressed streams of src/zfp.c: the four parameters of the compression, and their modes.
pub mod Modes
use zfp.Prelude.{
  ℕ, ◌+◌, ◌-◌, ◌*◌, ◌/◌, ◌%◌, ◌^◌, Bool, true, false, not, ◌||◌, ◌&&◌, ◌==◌, leb, ltb,
  if◌then◌else◌,
}
use zfp.Prelude.{u32, u64, ◌<<<◌, ◌>>>◌, bit_and, min, max}
use zfp.Prelude.Int.{
  ℤ, pos, negsuc, ◌+ℤ◌, ◌-ℤ◌, ltb_ℤ, leb_ℤ, min_ℤ, max_ℤ, pos_part, neg_part, wrap_ℤ,
}
use zfp.Field
use zfp.Field.{
  Field, ScalarType, zfp_type_none, zfp_type_int32, zfp_type_int64, zfp_type_float, zfp_type_double,
  append,
}

-- ZFP_MIN_BITS, ZFP_MAX_BITS, ZFP_MAX_PREC and ZFP_MIN_EXP of include/zfp.h
abbrev pub min_bits : ℕ
min_bits = 1

abbrev pub max_bits : ℕ
max_bits = 16658

abbrev pub max_prec : ℕ
max_prec = 64

abbrev pub min_exp : ℤ
min_exp = negsuc 1073

-- `zfp_stream`, without the bit stream and the execution policy.
pub record Params : Type 0 where
  pub minbits : ℕ
  pub maxbits : ℕ
  pub maxprec : ℕ
  pub minexp : ℤ

pub data Mode : Type 0 where
  zfp_mode_null zfp_mode_expert zfp_mode_fixed_rate zfp_mode_fixed_precision zfp_mode_fixed_accuracy
        zfp_mode_reversible :
      Mode

-- The parameters of `zfp_stream_open`.
unfoldable pub open_params : Params
open_params = record {
  minbits = min_bits;
  maxbits = max_bits;
  maxprec = max_prec;
  minexp = min_exp;
}

abbrev pub eq_ℤ : ℤ → ℤ → Bool
eq_ℤ a b = leb_ℤ a b && leb_ℤ b a

unfoldable pub is_reversible : Params → Bool
is_reversible zfp = ltb_ℤ zfp.minexp min_exp

unfoldable pub compression_mode : Params → Mode
compression_mode zfp =
    if ltb zfp.maxbits zfp.minbits || not (ltb 0 zfp.maxprec && leb zfp.maxprec 64)
    then zfp_mode_null
    else if (zfp.minbits == min_bits)
        && (zfp.maxbits == max_bits)
        && (zfp.maxprec == max_prec)
        && eq_ℤ zfp.minexp min_exp
    then zfp_mode_expert
    else if (zfp.minbits == zfp.maxbits)
        && leb 1 zfp.maxbits
        && leb zfp.maxbits max_bits
        && leb max_prec zfp.maxprec
        && eq_ℤ zfp.minexp min_exp
    then zfp_mode_fixed_rate
    else if leb zfp.minbits min_bits
        && leb max_bits zfp.maxbits
        && leb 1 zfp.maxprec
        && eq_ℤ zfp.minexp min_exp
    then zfp_mode_fixed_precision
    else if leb zfp.minbits min_bits
        && leb max_bits zfp.maxbits
        && leb max_prec zfp.maxprec
        && leb_ℤ min_exp zfp.minexp
    then zfp_mode_fixed_accuracy
    else if leb zfp.minbits min_bits
        && leb max_bits zfp.maxbits
        && leb max_prec zfp.maxprec
        && ltb_ℤ zfp.minexp min_exp
    then zfp_mode_reversible
    else zfp_mode_expert

unfoldable pub precision : Params → ℕ
precision zfp = elim (compression_mode zfp) [ zfp_mode_fixed_precision ↦ zfp.maxprec | _ ↦ 0 ]

-- `zfp_stream_mode`, the part that encodes each parameter separately. The casts to `uint` come
-- after the values are clamped.
unfoldable pub long_mode : Params → ℕ
long_mode zfp =
    let minbits = max 1 (min zfp.minbits 0x8000) - 1 in
    let maxbits = max 1 (min zfp.maxbits 0x8000) - 1 in
    let maxprec = max 1 (min zfp.maxprec 0x80) - 1 in
    let minexp = pos_part (max_ℤ (pos 0) (min_ℤ (zfp.minexp +ℤ pos 16495) (pos 0x7fff))) in
    append (append (append (append (append 0 15 minexp) 7 maxprec) 15 maxbits) 15 minbits) 12 0xfff

unfoldable pub stream_mode : Params → ℕ
stream_mode zfp = elim (compression_mode zfp) [
  | zfp_mode_fixed_rate ↦ if leb zfp.maxbits 2048 then zfp.maxbits - 1 else long_mode zfp
  | zfp_mode_fixed_precision ↦ if leb zfp.maxprec 128 then zfp.maxprec - 1 + 2048 else long_mode zfp
  | zfp_mode_fixed_accuracy ↦
      if leb_ℤ zfp.minexp (pos 843)
      then u64 (pos_part (zfp.minexp -ℤ min_exp) + (2048 + 128 + 1))
      else long_mode zfp
  | zfp_mode_reversible ↦ 2048 + 128
  | _ ↦ long_mode zfp
]

unfoldable pub set_params : Params → ℕ → ℕ → ℕ → ℤ → Bool × Params
set_params zfp minbits maxbits maxprec minexp =
    if ltb maxbits minbits || not (ltb 0 maxprec && leb maxprec 64)
    then (false, zfp)
    else (true, record { minbits = minbits; maxbits = maxbits; maxprec = maxprec; minexp = minexp })

-- The parameters that `zfp_stream_set_mode` decodes.
unfoldable pub mode_params : ℕ → Params
mode_params mode =
    if leb mode 4094
    then if ltb mode 2048
      then record {
        minbits = u32 mode + 1;
        maxbits = u32 mode + 1;
        maxprec = max_prec;
        minexp = min_exp;
      }
      else if ltb mode (2048 + 128)
      then record {
        minbits = min_bits;
        maxbits = max_bits;
        maxprec = u32 mode + 1 - 2048;
        minexp = min_exp;
      }
      else if mode == 2048 + 128
      then record {
        minbits = min_bits;
        maxbits = max_bits;
        maxprec = max_prec;
        minexp = min_exp -ℤ pos 1;
      }
      else record {
        minbits = min_bits;
        maxbits = max_bits;
        maxprec = max_prec;
        minexp = pos (u32 mode) +ℤ min_exp -ℤ pos (2048 + 128 + 1);
      }
    else record {
      minbits = u32 (bit_and (mode >>> 12) 0x7fff) + 1;
      maxbits = u32 (bit_and (mode >>> 12 >>> 15) 0x7fff) + 1;
      maxprec = u32 (bit_and (mode >>> 12 >>> 15 >>> 15) 0x7f) + 1;
      minexp = pos (bit_and (mode >>> 12 >>> 15 >>> 15 >>> 7) 0x7fff) -ℤ pos 16495;
    }

unfoldable pub set_mode : Params → ℕ → Mode × Params
set_mode zfp mode =
    let p = mode_params mode in
    let (ok, zfp') = set_params zfp p.minbits p.maxbits p.maxprec p.minexp in
    if ok then (compression_mode zfp', zfp') else (zfp_mode_null, zfp')

unfoldable pub set_reversible : Params → Params
set_reversible zfp = record {
  minbits = min_bits;
  maxbits = max_bits;
  maxprec = max_prec;
  minexp = min_exp -ℤ pos 1;
}

-- `size += unit - 1; size -= size % unit`, in unsigned integers of a width
unfoldable pub round_up : ℕ → ℕ → ℕ → ℕ
round_up width size unit = let size' = (size + (unit - 1)) % 2 ^ width in size' - size' % unit

-- `zfp_stream_set_rate`, past the rounding of n * rate to a number of bits.
unfoldable pub set_rate_bits : Params → ℕ → ScalarType → Bool → Params
set_rate_bits zfp bits type align =
    let bits₁ : ℕ = elim type [
      | zfp_type_float ↦ max bits (1 + 8)
      | zfp_type_double ↦ max bits (1 + 11)
      | _ ↦ bits
    ] in
    let bits₂ = if align then round_up 32 bits₁ 64 else bits₁ in
    record { minbits = bits₂; maxbits = bits₂; maxprec = max_prec; minexp = min_exp }

unfoldable pub set_precision : Params → ℕ → ℕ × Params
set_precision zfp precision =
    let maxprec = if precision == 0 then max_prec else min precision max_prec in
    (
      maxprec,
      record { minbits = min_bits; maxbits = max_bits; maxprec = maxprec; minexp = min_exp },
    )

-- `zfp_stream_set_accuracy`, for the exponent `emin` of the tolerance.
unfoldable pub set_accuracy_exponent : Params → ℤ → Params
set_accuracy_exponent zfp emin = record {
  minbits = min_bits;
  maxbits = max_bits;
  maxprec = max_prec;
  minexp = emin;
}

-- `zfp_stream_maximum_size`; 148 is ZFP_HEADER_MAX_BITS.
unfoldable pub maximum_size : Params → Field → ℕ
maximum_size zfp field =
    let reversible = is_reversible zfp in
    let dims = Field.dimensionality field in
    let values = 2 ^ (2 * dims) in
    let with_header = λ (extra : ℕ).
      let bits = extra + (values - 1 + values * min zfp.maxprec (Field.precision field)) in
      let bits' = max (min bits zfp.maxbits) zfp.minbits in
      u64 (round_up 64 (u64 (148 + u64 (Field.blocks field * bits'))) 64) / 8 in
    if dims == 0 then 0 else elim field.type [
      | zfp_type_int32 ↦ with_header (if reversible then 5 else 0)
      | zfp_type_int64 ↦ with_header (if reversible then 6 else 0)
      | zfp_type_float ↦ with_header (if reversible then 1 + 1 + 8 + 5 else 1 + 8)
      | zfp_type_double ↦ with_header (if reversible then 1 + 1 + 11 + 6 else 1 + 11)
      | zfp_type_none ↦ 0
    ]
