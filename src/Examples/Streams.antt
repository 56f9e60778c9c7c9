-- ===== src/Examples/Streams.antt =====
-- Fields, stream parameters, and the coder and the header over a stream that is a list of bits.
use zfp.Prelude.{
  ℕ, zero, suc, ◌+◌, ◌-◌, ◌*◌, ◌/◌, ◌%◌, ◌^◌, ◌<◌, ◌≡◌, ◌≢◌, ◌↔◌, refl, arith, ap, true, List, [],
  ◌∷◌, ◌++◌, max,
}
use zfp.Prelude.{u32, u64, sub64}
use zfp.Prelude.Lists.{length}
use zfp.Prelude.Bits.{half_mod}
use zfp.Prelude.Int.{negsuc}
use zfp.Coder.{Writer, Reader, Stream, digits, encode_few_ints_prec, decode_few_ints_prec}
use zfp.Coder.RoundTrip.{decode_few_ints_prec-encode_few_ints_prec}
use zfp.Field.{
  Field, zfp_type_int32, zfp_type_double, append_kind, field_1d, field_2d, field_3d, metadata,
  set_metadata, meta_null, dimensionality,
}
use zfp.Field.Metadata.{
  IsShaped, contiguous, set_metadata-metadata, metadata-null, set_metadata-metadata_1d,
}
use zfp.Stream.{Params, open_params, set_mode, stream_mode, compression_mode}
use zfp.Stream.Modes.{IsRegular, set_mode-stream_mode}

abbrev list_writer : Writer (List ℕ)
list_writer = record {
  write_bit = λ w b. w ++ (b ∷ []);
  write_bits = λ w v n. (v / 2 ^ n, w ++ digits n v);
  wtell = λ w. u64 (length w);
}

abbrev pop_bit : List ℕ → ℕ × List ℕ
pop_bit [] = (0, [])
pop_bit (b ∷ bs) = (b, bs)

abbrev pop_bits : List ℕ → ℕ → ℕ × List ℕ
pop_bits r zero = (0, r)
pop_bits r (suc n) = let (b, r') = pop_bit r in let (v, r'') = pop_bits r' n in (b + 2 * v, r'')

abbrev list_reader : Reader (List ℕ)
list_reader = record {
  read_bit = pop_bit;
  read_bits = pop_bits;
  rtell = λ r. sub64 0 (u64 (length r));
}

pop_bits-digits :
    (n v : ℕ) (bs r : List ℕ)
    → r ≡ digits n v ++ bs
    → ((pop_bits r n).0 ≡ v % 2 ^ n) × ((pop_bits r n).1 ≡ bs)
unfolding digits
pop_bits-digits zero v bs r e = (omega arith, e)
pop_bits-digits (suc n) v bs r e =
    let first : pop_bit r ≡ (v % 2, digits n (v / 2) ++ bs) = ap pop_bit e in
    let (value, after) = pop_bits-digits n (v / 2) bs (digits n (v / 2) ++ bs) refl in
    rw first (omega (arith, value, half_mod n v), after)

abbrev list_stream : Stream list_writer list_reader
list_stream = record {
  Wrote = λ w bs. w ≡ bs;
  Ahead = λ r bs. r ≡ bs;
  write_bit-Wrote = λ w bs b small h. ap (λ l. l ++ (b ∷ [])) h;
  wtell-Wrote = λ w bs h. ap (λ l. u64 (length l)) h;
  write_bits-Wrote = λ w bs v n few small h. (refl, ap (λ l. l ++ digits n v) h);
  read_bit-Ahead = λ r b bs small h. (ap (λ l. (pop_bit l).0) h, ap (λ l. (pop_bit l).1) h);
  read_bits-Ahead = λ r v n bs few h. pop_bits-digits n v bs r h;
}

abbrev values : ℕ → ℕ
values a = a * 37 % 2 ^ 8

decode_few_ints_prec-encode_few_ints_prec_example :
    let (w, count) = encode_few_ints_prec list_writer 16 8 (1 ∷ 0 ∷ []) 6 values in
    (written : List ℕ) × list_stream.Wrote w ((1 ∷ 0 ∷ []) ++ written)
    × (count ≡ u32 (length written))
    × ((rd rest : List ℕ)
        → list_stream.Ahead rd (written ++ rest)
        → let out = decode_few_ints_prec list_reader 16 8 rd 6 in
          ((a : ℕ) → a < 16 → out.1 a ≡ values a / 2 ^ (8 - 6) * 2 ^ (8 - 6))
          × list_stream.Ahead out.0 rest)
decode_few_ints_prec-encode_few_ints_prec_example =
    decode_few_ints_prec-encode_few_ints_prec list_writer list_reader list_stream 16 (omega arith)
      (1 ∷ 0 ∷ []) (1 ∷ 0 ∷ []) 8 6 values (λ a l. omega arith) refl

abbrev image : Field
image = field_2d zfp_type_double 300 200

abbrev cube : Field
cube = field_3d zfp_type_int32 70000 2 2

abbrev line : Field
line = field_1d zfp_type_int32 0x100000001

image-IsShaped : IsShaped image
image-IsShaped = record {
  typed = λ e. cc;
  first = omega arith;
  second = λ e. absurd (omega arith);
  third = λ e. refl;
}

cube-IsShaped : IsShaped cube
cube-IsShaped = record {
  typed = λ e. cc;
  first = omega arith;
  second = λ e. absurd (omega arith);
  third = λ e. refl;
}

line-IsShaped : IsShaped line
line-IsShaped = record {
  typed = λ e. cc;
  first = omega arith;
  second = λ e. (refl, refl);
  third = λ e. refl;
}

image_some : metadata image ≢ meta_null
unfolding metadata append_kind dimensionality
image_some e = absurd (omega arith)

set_metadata-metadata_example : set_metadata cube (metadata image) ≡ (true, contiguous image)
set_metadata-metadata_example =
    set_metadata-metadata image cube image-IsShaped image_some (λ e. absurd (omega arith))

metadata-null_example :
    (metadata cube ≡ meta_null)
    ↔ (2 ^ (48 / dimensionality cube) < max (max (max cube.nx cube.ny) cube.nz) cube.nw)
metadata-null_example = metadata-null cube cube-IsShaped

set_metadata-metadata_1d_example :
    (metadata line ≢ meta_null)
    × ((set_metadata image (metadata line)).1.nx ≡ (line.nx - 1) % 2 ^ 32 + 1)
set_metadata-metadata_1d_example =
    set_metadata-metadata_1d line image line-IsShaped refl (omega arith)

-- 12 to 2000 bits for a block, at most 20 bit planes.
abbrev expert : Params
expert = record { minbits = 12; maxbits = 2000; maxprec = 20; minexp = negsuc 29 }

expert-IsRegular : IsRegular expert
expert-IsRegular = record {
  ordered = omega arith;
  some_bits = omega arith;
  most_bits = omega arith;
  some_planes = omega arith;
  most_planes = omega arith;
  low_exponent = omega arith;
  high_exponent = omega arith;
}

set_mode-stream_mode_example :
    set_mode open_params (stream_mode expert) ≡ (compression_mode expert, expert)
set_mode-stream_mode_example = set_mode-stream_mode open_params expert expert-IsRegular
