-- ===== src/Header.antt =====
-- The header of a compressed stream, of src/zfp.c: the magic word, the metadata of the field and the
-- compression mode.
pub mod RoundTrip
use zfp.Prelude.{
  ℕ, ◌+◌, Bool, true, false, not, List, [], ◌∷◌, ◌!=◌, ◌==◌, ltb, if◌then◌else◌, u64, ◌<<<◌,
  bit_and,
}
use zfp.Coder.{Writer, Reader}
use zfp.Field.{Field, metadata, set_metadata, meta_null}
use zfp.Stream.{Params, Mode, zfp_mode_null, stream_mode, set_mode}

-- ZFP_HEADER_MAGIC, ZFP_HEADER_META and ZFP_HEADER_MODE of include/zfp.h
abbrev pub wants_magic : ℕ → Bool
wants_magic mask = bit_and mask 1 != 0

abbrev pub wants_meta : ℕ → Bool
wants_meta mask = bit_and mask 2 != 0

abbrev pub wants_mode : ℕ → Bool
wants_mode mask = bit_and mask 4 != 0

-- 'z', 'f', 'p' and `zfp_codec_version`
abbrev pub magic : List ℕ
magic = 122 ∷ 102 ∷ 112 ∷ 5 ∷ []

-- The number of bits of a mode.
abbrev pub mode_size : ℕ → ℕ
mode_size mode = if ltb 4094 mode then 64 else 12

module _ {W : Type 0} (writer : Writer W) where
  unfoldable pub write_bytes : W → List ℕ → W
  write_bytes w [] = w
  write_bytes w (b ∷ bs) = write_bytes (writer.write_bits w b 8).1 bs

  -- The three parts of `zfp_write_header`, past the mask.
  unfoldable pub write_magic : Bool → W → ℕ × W
  write_magic want w = if want then (32, write_bytes w magic) else (0, w)

  unfoldable pub write_meta : Bool → W → Field → ℕ × W
  write_meta want w field =
      if want then (52, (writer.write_bits w (metadata field) 52).1) else (0, w)

  unfoldable pub write_mode : Bool → W → Params → ℕ × W
  write_mode want w zfp =
      let mode = stream_mode zfp in
      if want then (mode_size mode, (writer.write_bits w mode (mode_size mode)).1) else (0, w)

  -- `zfp_write_header`: the number of bits.
  unfoldable pub write_header : W → Params → Field → ℕ → ℕ × W
  write_header w zfp field mask =
      if if wants_meta mask then metadata field == meta_null else false
      then (0, w)
      else let (magic_bits, w₁) = write_magic (wants_magic mask) w in
        let (meta_bits, w₂) = write_meta (wants_meta mask) w₁ field in
        let (mode_bits, w₃) = write_mode (wants_mode mask) w₂ zfp in
        (magic_bits + meta_bits + mode_bits, w₃)

unfoldable pub mode_is_null : Mode → Bool
mode_is_null zfp_mode_null = true
mode_is_null _ = false

module _ {R : Type 0} (reader : Reader R) where
  unfoldable pub read_bytes : R → List ℕ → Bool × R
  read_bytes r [] = (true, r)
  read_bytes r (b ∷ bs) =
      let (value, r') = reader.read_bits r 8 in
      elim (value != b) [ true ↦ (false, r') | false ↦ read_bytes r' bs ]

  -- The three parts of `zfp_read_header`: whether they succeed, and the number of bits.
  unfoldable pub read_magic : Bool → R → Bool × ℕ × R
  read_magic want r =
      if want then (let (ok, r') = read_bytes r magic in (ok, 32, r')) else (true, 0, r)

  unfoldable pub read_meta : Bool → R → Field → Bool × ℕ × R × Field
  read_meta want r field =
      if want
      then (let (meta, r') = reader.read_bits r 52 in
          let (ok, field') = set_metadata field meta in (ok, 52, r', field'))
      else (true, 0, r, field)

  -- The number of a mode, in 12 bits or in 64.
  unfoldable pub read_number : R → ℕ × ℕ × R
  read_number r =
      let (short, r₁) = reader.read_bits r 12 in
      let (rest, r₂) = reader.read_bits r₁ 52 in
      if ltb 4094 short then (64, u64 (short + u64 (rest <<< 12)), r₂) else (12, short, r₁)

  unfoldable pub read_mode : Bool → R → Params → Bool × ℕ × R × Params
  read_mode want r zfp =
      if want
      then (let (bits, mode, r') = read_number r in
          let (kind, zfp') = set_mode zfp mode in (not (mode_is_null kind), bits, r', zfp'))
      else (true, 0, r, zfp)

  -- `zfp_read_header`: the number of bits, or 0.
  unfoldable pub read_header : R → Params → Field → ℕ → ℕ × R × Params × Field
  read_header r zfp field mask =
      let (ok₁, magic_bits, r₁) = read_magic (wants_magic mask) r in
      if not ok₁
      then (0, r₁, zfp, field)
      else let (ok₂, meta_bits, r₂, field') = read_meta (wants_meta mask) r₁ field in
        if not ok₂
        then (0, r₂, zfp, field')
        else let (ok₃, mode_bits, r₃, zfp') = read_mode (wants_mode mask) r₂ zfp in
          if not ok₃
          then (0, r₃, zfp', field')
          else (magic_bits + meta_bits + mode_bits, r₃, zfp', field')
