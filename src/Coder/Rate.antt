-- ===== src/Coder/Rate.antt =====
-- The coder of src/template/encode.c and src/template/decode.c that stops after a given number of
-- bits, for blocks of at most 64 integers: `encode_few_ints` and `decode_few_ints`. The loops run
-- on the number of bits left.
pub mod Budget
use zfp.Prelude.{
  ℕ, zero, suc, ◌+◌, ◌-◌, ◌*◌, ◌<◌, true, false, ltb, ◌!=◌, if◌then◌else◌, min, u64, ◌<<<◌, ◌>>>◌,
  bit_and,
}
use zfp.Coder.{Writer, Reader, plane, deposit}

module _ {W : Type 0} (writer : Writer W) (size : ℕ) where
  -- `for (; bits && n < size - 1; x >>= 1, n++)`; the bits left come second.
  unfoldable pub scan : W → ℕ → ℕ → ℕ → W × ℕ × ℕ × ℕ
  scan w zero x n = (w, 0, x, n)
  scan w (suc bits) x n = elim (ltb n (size - 1)) [
    | true ↦ elim (bit_and x 1 != 0) [
      | true ↦ (writer.write_bit w (bit_and x 1), bits, x, n)
      | false ↦ scan (writer.write_bit w (bit_and x 1)) bits (x >>> 1) (n + 1)
    ]
    | false ↦ (w, suc bits, x, n)
  ]

  -- Step 3, `for (; bits && n < size; x >>= 1, n++)`, on fuel as n grows.
  unfoldable pub groups : ℕ → W → ℕ → ℕ → ℕ → W × ℕ × ℕ
  groups zero w bits x n = (w, bits, n)
  groups (suc fuel) w zero x n = (w, 0, n)
  groups (suc fuel) w (suc bits) x n = elim (ltb n size) [
    | true ↦ elim (x != 0) [
      | true ↦
          let (w', bits', x', n') = scan (writer.write_bit w 1) bits x n in
          groups fuel w' bits' (x' >>> 1) (n' + 1)
      | false ↦ (writer.write_bit w 0, bits, n)
    ]
    | false ↦ (w, suc bits, n)
  ]

  -- Steps 1 to 3, for one bit plane.
  unfoldable pub encode_plane : W → ℕ → (ℕ → ℕ) → ℕ → ℕ → W × ℕ × ℕ
  encode_plane w bits ints k n =
      let m = min n bits in
      let (x, w') = writer.write_bits w (plane ints k size 0) m in groups size w' (bits - m) x n

  -- `for (k = intprec, n = 0; bits && k-- > kmin;)`
  unfoldable pub encode_planes : (ℕ → ℕ) → ℕ → ℕ → W → ℕ → ℕ → W × ℕ
  encode_planes ints kmin zero w bits n = (w, bits)
  encode_planes ints kmin (suc planes) w bits n = elim (bits != 0) [
    | true ↦
        let (w', bits', n') = encode_plane w bits ints (kmin + planes) n in
        encode_planes ints kmin planes w' bits' n'
    | false ↦ (w, bits)
  ]

  -- The last component is the number of bits.
  unfoldable pub encode_few_ints : ℕ → W → ℕ → ℕ → (ℕ → ℕ) → W × ℕ
  encode_few_ints intprec w maxbits maxprec ints =
      let kmin = if ltb maxprec intprec then intprec - maxprec else 0 in
      let (w', bits) = encode_planes ints kmin (intprec - kmin) w maxbits 0 in (w', maxbits - bits)

module _ {R : Type 0} (reader : Reader R) (size : ℕ) where
  -- `for (; bits && n < size - 1; n++)`
  unfoldable pub skip_zeros : R → ℕ → ℕ → R × ℕ × ℕ
  skip_zeros r zero n = (r, 0, n)
  skip_zeros r (suc bits) n = elim (ltb n (size - 1)) [
    | true ↦
        let (b, r') = reader.read_bit r in
        elim (b != 0) [ true ↦ (r', bits, n) | false ↦ skip_zeros r' bits (n + 1) ]
    | false ↦ (r, suc bits, n)
  ]

  -- Step 2 of `decode_few_ints`.
  unfoldable pub read_groups : ℕ → R → ℕ → ℕ → ℕ → R × ℕ × ℕ × ℕ
  read_groups zero r bits x n = (r, bits, x, n)
  read_groups (suc fuel) r zero x n = (r, 0, x, n)
  read_groups (suc fuel) r (suc bits) x n = elim (ltb n size) [
    | true ↦
        let (b, r') = reader.read_bit r in
        elim (b != 0) [
          | true ↦
              let (r'', bits', n') = skip_zeros r' bits n in
              read_groups fuel r'' bits' (u64 (x + u64 (1 <<< n'))) (n' + 1)
          | false ↦ (r', bits, x, n)
        ]
    | false ↦ (r, suc bits, x, n)
  ]

  unfoldable pub decode_plane : ℕ → R → ℕ → (ℕ → ℕ) → ℕ → ℕ → R × ℕ × (ℕ → ℕ) × ℕ
  decode_plane width r bits ints k n =
      let m = min n bits in
      let (x, r') = reader.read_bits r m in
      let (r'', bits', x', n') = read_groups size r' (bits - m) x n in
      (r'', bits', deposit width k 64 0 x' ints, n')

  unfoldable pub decode_planes : ℕ → ℕ → ℕ → R → ℕ → (ℕ → ℕ) → ℕ → R × ℕ × (ℕ → ℕ)
  decode_planes width kmin zero r bits ints n = (r, bits, ints)
  decode_planes width kmin (suc planes) r bits ints n = elim (bits != 0) [
    | true ↦
        let (r', bits', ints', n') = decode_plane width r bits ints (kmin + planes) n in
        decode_planes width kmin planes r' bits' ints' n'
    | false ↦ (r, bits, ints)
  ]

  unfoldable pub decode_few_ints : ℕ → R → ℕ → ℕ → R × (ℕ → ℕ) × ℕ
  decode_few_ints intprec r maxbits maxprec =
      let kmin = if ltb maxprec intprec then intprec - maxprec else 0 in
      let (r', bits, ints) = decode_planes intprec kmin (intprec - kmin) r maxbits (λ i. 0) 0 in
      (r', ints, maxbits - bits)
