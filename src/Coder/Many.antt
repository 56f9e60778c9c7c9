-- ===== src/Coder/Many.antt =====
-- The coder of src/template/encode.c and src/template/decode.c for blocks of more than 64 integers:
-- `encode_many_ints`, `encode_many_ints_prec` and their decoders.
pub mod Budget
pub mod Cost
use zfp.Prelude.{
  ℕ, zero, suc, ◌+◌, ◌-◌, ◌*◌, ◌%◌, ◌^◌, true, false, ltb, ◌!=◌, if◌then◌else◌, min, ◌<<<◌, ◌>>>◌,
  bit_and, u32, sub32,
}
use zfp.Coder.{Writer, Reader, skip_zeros}
use zfp.Coder.Rate
use zfp.BlockCache.{update}

-- `(data[i] >> k) & 1u`
unfoldable pub bit_of : (ℕ → ℕ) → ℕ → ℕ → ℕ
bit_of ints k i = bit_and (ints i >>> k) 1

-- Step 2: the one-bits of bit plane k in the integers from `i` on.
unfoldable pub ones : (ℕ → ℕ) → ℕ → ℕ → ℕ → ℕ
ones ints k zero i = 0
ones ints k (suc rounds) i = u32 (bit_of ints k i + ones ints k rounds (i + 1))

-- `data[i] += (UInt)1 << k`
unfoldable pub set_bit : ℕ → (ℕ → ℕ) → ℕ → ℕ → (ℕ → ℕ)
set_bit width ints k i = update ints i ((ints i + (1 <<< k) % 2 ^ width) % 2 ^ width)

module _ {W : Type 0} (writer : Writer W) (size : ℕ) where
  -- Step 1: `rounds` bits, from number `i` on.
  unfoldable pub write_plane : W → (ℕ → ℕ) → ℕ → ℕ → ℕ → W
  write_plane w ints k zero i = w
  write_plane w ints k (suc rounds) i =
      write_plane (writer.write_bit w (bit_of ints k i)) ints k rounds (i + 1)

  -- `for (; n < size - 1 && !stream_write_bit(&s, (data[n] >> k) & 1u); n++)`
  unfoldable pub scan_many : ℕ → W → (ℕ → ℕ) → ℕ → ℕ → W × ℕ
  scan_many zero w ints k n = (w, n)
  scan_many (suc fuel) w ints k n = elim (ltb n (size - 1)) [
    | true ↦ elim (bit_of ints k n != 0) [
      | true ↦ (writer.write_bit w (bit_of ints k n), n)
      | false ↦ scan_many fuel (writer.write_bit w (bit_of ints k n)) ints k (n + 1)
    ]
    | false ↦ (w, n)
  ]

  -- `for (; n < size && stream_write_bit(&s, !!c); n++)`
  unfoldable pub groups_many : ℕ → W → (ℕ → ℕ) → ℕ → ℕ → ℕ → W × ℕ
  groups_many zero w ints k c n = (w, n)
  groups_many (suc fuel) w ints k c n = elim (ltb n size) [
    | true ↦ elim (c != 0) [
      | true ↦
          let (w', n') = scan_many size (writer.write_bit w 1) ints k n in
          groups_many fuel w' ints k (c - 1) (n' + 1)
      | false ↦ (writer.write_bit w 0, n)
    ]
    | false ↦ (w, n)
  ]

  unfoldable pub encode_plane_many : W → (ℕ → ℕ) → ℕ → ℕ → W × ℕ
  encode_plane_many w ints k n =
      groups_many size (write_plane w ints k n 0) ints k (ones ints k (size - n) n) n

  unfoldable pub encode_planes_many : (ℕ → ℕ) → ℕ → ℕ → W → ℕ → W
  encode_planes_many ints kmin zero w n = w
  encode_planes_many ints kmin (suc planes) w n =
      let (w', n') = encode_plane_many w ints (kmin + planes) n in
      encode_planes_many ints kmin planes w' n'

  -- The last component is the number of bits.
  unfoldable pub encode_many_ints_prec : ℕ → W → ℕ → (ℕ → ℕ) → W × ℕ
  encode_many_ints_prec intprec w maxprec ints =
      let kmin = if ltb maxprec intprec then intprec - maxprec else 0 in
      let w' = encode_planes_many ints kmin (intprec - kmin) w 0 in
      (w', sub32 (u32 (writer.wtell w')) (u32 (writer.wtell w)))

  -- The same loops with a number of bits left.
  unfoldable pub scan_rate : W → ℕ → (ℕ → ℕ) → ℕ → ℕ → W × ℕ × ℕ
  scan_rate w zero ints k n = (w, 0, n)
  scan_rate w (suc bits) ints k n = elim (ltb n (size - 1)) [
    | true ↦ elim (bit_of ints k n != 0) [
      | true ↦ (writer.write_bit w (bit_of ints k n), bits, n)
      | false ↦ scan_rate (writer.write_bit w (bit_of ints k n)) bits ints k (n + 1)
    ]
    | false ↦ (w, suc bits, n)
  ]

  unfoldable pub groups_rate : ℕ → W → ℕ → (ℕ → ℕ) → ℕ → ℕ → ℕ → W × ℕ × ℕ
  groups_rate zero w bits ints k c n = (w, bits, n)
  groups_rate (suc fuel) w zero ints k c n = (w, 0, n)
  groups_rate (suc fuel) w (suc bits) ints k c n = elim (ltb n size) [
    | true ↦ elim (c != 0) [
      | true ↦
          let (w', bits', n') = scan_rate (writer.write_bit w 1) bits ints k n in
          groups_rate fuel w' bits' ints k (c - 1) (n' + 1)
      | false ↦ (writer.write_bit w 0, bits, n)
    ]
    | false ↦ (w, suc bits, n)
  ]

  unfoldable pub encode_plane_rate : W → ℕ → (ℕ → ℕ) → ℕ → ℕ → W × ℕ × ℕ
  encode_plane_rate w bits ints k n =
      let m = min n bits in
      groups_rate size (write_plane w ints k m 0) (bits - m) ints k (ones ints k (size - m) m) n

  unfoldable pub encode_planes_rate : (ℕ → ℕ) → ℕ → ℕ → W → ℕ → ℕ → W × ℕ
  encode_planes_rate ints kmin zero w bits n = (w, bits)
  encode_planes_rate ints kmin (suc planes) w bits n = elim (bits != 0) [
    | true ↦
        let (w', bits', n') = encode_plane_rate w bits ints (kmin + planes) n in
        encode_planes_rate ints kmin planes w' bits' n'
    | false ↦ (w, bits)
  ]

  unfoldable pub encode_many_ints : ℕ → W → ℕ → ℕ → (ℕ → ℕ) → W × ℕ
  encode_many_ints intprec w maxbits maxprec ints =
      let kmin = if ltb maxprec intprec then intprec - maxprec else 0 in
      let (w', bits) = encode_planes_rate ints kmin (intprec - kmin) w maxbits 0 in
      (w', maxbits - bits)

module _ {R : Type 0} (reader : Reader R) (size : ℕ) where
  -- `for (i = 0; i < n; i++) if (stream_read_bit(&s)) data[i] += (UInt)1 << k`, from number `i` on.
  unfoldable pub read_plane : ℕ → R → (ℕ → ℕ) → ℕ → ℕ → ℕ → R × (ℕ → ℕ)
  read_plane width r ints k zero i = (r, ints)
  read_plane width r ints k (suc rounds) i =
      let (b, r') = reader.read_bit r in
      read_plane width r' (if b != 0 then set_bit width ints k i else ints) k rounds (i + 1)

  -- `for (; n < size && stream_read_bit(&s); data[n] += (UInt)1 << k, n++)`
  unfoldable pub read_groups_many : ℕ → ℕ → R → (ℕ → ℕ) → ℕ → ℕ → R × (ℕ → ℕ) × ℕ
  read_groups_many width zero r ints k n = (r, ints, n)
  read_groups_many width (suc fuel) r ints k n = elim (ltb n size) [
    | true ↦
        let (b, r') = reader.read_bit r in
        elim (b != 0) [
          | true ↦
              let (r'', n') = skip_zeros reader size size r' n in
              read_groups_many width fuel r'' (set_bit width ints k n') k (n' + 1)
          | false ↦ (r', ints, n)
        ]
    | false ↦ (r, ints, n)
  ]

  unfoldable pub decode_planes_many : ℕ → ℕ → ℕ → R → (ℕ → ℕ) → ℕ → R × (ℕ → ℕ)
  decode_planes_many width kmin zero r ints n = (r, ints)
  decode_planes_many width kmin (suc planes) r ints n =
      let (r', ints') = read_plane width r ints (kmin + planes) n 0 in
      let (r'', ints'', n') = read_groups_many width size r' ints' (kmin + planes) n in
      decode_planes_many width kmin planes r'' ints'' n'

  -- `data` becomes all zeros. The last component is the number of bits.
  unfoldable pub decode_many_ints_prec : ℕ → R → ℕ → R × (ℕ → ℕ) × ℕ
  decode_many_ints_prec intprec r maxprec =
      let kmin = if ltb maxprec intprec then intprec - maxprec else 0 in
      let (r', ints) = decode_planes_many intprec kmin (intprec - kmin) r (λ i. 0) 0 in
      (r', ints, sub32 (u32 (reader.rtell r')) (u32 (reader.rtell r)))

  -- The same loops with a number of bits left.
  unfoldable pub read_groups_rate : ℕ → ℕ → R → ℕ → (ℕ → ℕ) → ℕ → ℕ → R × ℕ × (ℕ → ℕ) × ℕ
  read_groups_rate width zero r bits ints k n = (r, bits, ints, n)
  read_groups_rate width (suc fuel) r zero ints k n = (r, 0, ints, n)
  read_groups_rate width (suc fuel) r (suc bits) ints k n = elim (ltb n size) [
    | true ↦
        let (b, r') = reader.read_bit r in
        elim (b != 0) [
          | true ↦
              let (r'', bits', n') = Rate.skip_zeros reader size r' bits n in
              read_groups_rate width fuel r'' bits' (set_bit width ints k n') k (n' + 1)
          | false ↦ (r', bits, ints, n)
        ]
    | false ↦ (r, suc bits, ints, n)
  ]

  unfoldable pub decode_planes_rate : ℕ → ℕ → ℕ → R → ℕ → (ℕ → ℕ) → ℕ → R × ℕ × (ℕ → ℕ)
  decode_planes_rate width kmin zero r bits ints n = (r, bits, ints)
  decode_planes_rate width kmin (suc planes) r bits ints n = elim (bits != 0) [
    | true ↦
        let m = min n bits in
        let (r', ints') = read_plane width r ints (kmin + planes) m 0 in
        let (r'', bits', ints'', n') =
          read_groups_rate width size r' (bits - m) ints' (kmin + planes) n in
        decode_planes_rate width kmin planes r'' bits' ints'' n'
    | false ↦ (r, bits, ints)
  ]

  unfoldable pub decode_many_ints : ℕ → R → ℕ → ℕ → R × (ℕ → ℕ) × ℕ
  decode_many_ints intprec r maxbits maxprec =
      let kmin = if ltb maxprec intprec then intprec - maxprec else 0 in
      let (r', bits, ints) =
        decode_planes_rate intprec kmin (intprec - kmin) r maxbits (λ i. 0) 0 in
      (r', ints, maxbits - bits)
