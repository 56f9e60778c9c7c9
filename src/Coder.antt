-- ===== src/Coder.antt =====
-- The bit plane coder of src/template/encode.c and src/template/decode.c, for blocks of at most 64
-- integers without a bound on the number of bits, in the default mode that does not round.
pub mod Group
pub mod Planes
pub mod RoundTrip
pub mod Spent
pub mod Rate
pub mod Many
pub mod Ints
use zfp.Prelude.{
  ℕ, zero, suc, ◌+◌, ◌-◌, ◌*◌, ◌/◌, ◌%◌, ◌^◌, ◌≤◌, ◌<◌, ◌≡◌, Bool, true, false, List, [], ◌∷◌, ◌++◌,
}
use zfp.Prelude.{ltb, ◌!=◌, ◌==◌, if◌then◌else◌, u64, ◌<<<◌, ◌>>>◌, bit_and}
use zfp.Prelude.{u32, sub32}
use zfp.Prelude.Lists.{length}
use zfp.BlockCache.{update}

-- What the coder calls of a bit stream.
pub record Writer (W : Type 0) : Type 0 where
  pub write_bit : W → ℕ → W
  pub write_bits : W → ℕ → ℕ → ℕ × W
  pub wtell : W → ℕ

pub record Reader (R : Type 0) : Type 0 where
  pub read_bit : R → ℕ × R
  pub read_bits : R → ℕ → ℕ × R
  pub rtell : R → ℕ

-- The low `n` bits of a value, the lowest first.
unfoldable pub digits : ℕ → ℕ → List ℕ
digits zero v = []
digits (suc n) v = v % 2 ∷ digits n (v / 2)

-- What the coder asks of them: a writer has written a sequence of bits, a reader has one ahead.
pub record Stream {W R : Type 0} (writer : Writer W) (reader : Reader R) : Type 1 where
  pub Wrote : W → List ℕ → Type 0
  pub Ahead : R → List ℕ → Type 0
  pub write_bit-Wrote :
      (w : W) (bs : List ℕ) (b : ℕ)
      → b < 2
      → Wrote w bs
      → Wrote (writer.write_bit w b) (bs ++ (b ∷ []))
  pub wtell-Wrote : (w : W) (bs : List ℕ) → Wrote w bs → writer.wtell w ≡ u64 (length bs)
  pub write_bits-Wrote :
      (w : W) (bs : List ℕ) (v n : ℕ)
      → n ≤ 64
      → v < 2 ^ 64
      → Wrote w bs
      → ((writer.write_bits w v n).0 ≡ v / 2 ^ n)
        × Wrote (writer.write_bits w v n).1 (bs ++ digits n v)
  pub read_bit-Ahead :
      (r : R) (b : ℕ) (bs : List ℕ)
      → b < 2
      → Ahead r (b ∷ bs)
      → ((reader.read_bit r).0 ≡ b) × Ahead (reader.read_bit r).1 bs
  pub read_bits-Ahead :
      (r : R) (v n : ℕ) (bs : List ℕ)
      → n ≤ 64
      → Ahead r (digits n v ++ bs)
      → ((reader.read_bits r n).0 ≡ v % 2 ^ n) × Ahead (reader.read_bits r n).1 bs

-- Step 1: bit plane k of the integers from `i` on.
unfoldable pub plane : (ℕ → ℕ) → ℕ → ℕ → ℕ → ℕ
plane ints k zero i = 0
plane ints k (suc rounds) i =
    u64 (u64 (bit_and (ints i >>> k) 1 <<< i) + plane ints k rounds (i + 1))

-- Step 3: `for (i = 0; x; i++, x >>= 1) data[i] += (x & 1) << k`, in integers of a width. A bit
-- plane has 64 bits.
unfoldable pub deposit : ℕ → ℕ → ℕ → ℕ → ℕ → (ℕ → ℕ) → (ℕ → ℕ)
deposit width k zero i x ints = ints
deposit width k (suc rounds) i x ints = elim (x != 0) [
  | true ↦
      deposit width k rounds (i + 1) (x >>> 1)
        (update ints i ((ints i + (bit_and x 1 <<< k)) % 2 ^ width))
  | false ↦ ints
]

module _ {W : Type 0} (writer : Writer W) (size : ℕ) where
  -- `for (; n < size - 1 && !stream_write_bit(&s, x & 1u); x >>= 1, n++)`
  unfoldable pub scan : ℕ → W → ℕ → ℕ → W × ℕ × ℕ
  scan zero w x n = (w, x, n)
  scan (suc fuel) w x n = elim (ltb n (size - 1)) [
    | true ↦ elim (bit_and x 1 != 0) [
      | true ↦ (writer.write_bit w (bit_and x 1), x, n)
      | false ↦ scan fuel (writer.write_bit w (bit_and x 1)) (x >>> 1) (n + 1)
    ]
    | false ↦ (w, x, n)
  ]

  -- Step 3 of `encode_few_ints_prec`, the unary run-length encoding of the rest of a bit plane.
  unfoldable pub groups : ℕ → W → ℕ → ℕ → W × ℕ
  groups zero w x n = (w, n)
  groups (suc fuel) w x n = elim (ltb n size) [
    | true ↦ elim (x != 0) [
      | true ↦
          let (w', x', n') = scan size (writer.write_bit w 1) x n in
          groups fuel w' (x' >>> 1) (n' + 1)
      | false ↦ (writer.write_bit w 0, n)
    ]
    | false ↦ (w, n)
  ]

  -- Steps 1 to 3, for one bit plane.
  unfoldable pub encode_plane : W → (ℕ → ℕ) → ℕ → ℕ → W × ℕ
  encode_plane w ints k n =
      let (x, w') = writer.write_bits w (plane ints k size 0) n in groups size w' x n

  -- The planes from number `kmin + planes` down to `kmin`.
  unfoldable pub encode_planes : (ℕ → ℕ) → ℕ → ℕ → W → ℕ → W
  encode_planes ints kmin zero w n = w
  encode_planes ints kmin (suc planes) w n =
      let (w', n') = encode_plane w ints (kmin + planes) n in encode_planes ints kmin planes w' n'

  -- The last component is the number of bits.
  unfoldable pub encode_few_ints_prec : ℕ → W → ℕ → (ℕ → ℕ) → W × ℕ
  encode_few_ints_prec intprec w maxprec ints =
      let kmin = if ltb maxprec intprec then intprec - maxprec else 0 in
      let w' = encode_planes ints kmin (intprec - kmin) w 0 in
      (w', sub32 (u32 (writer.wtell w')) (u32 (writer.wtell w)))

module _ {R : Type 0} (reader : Reader R) (size : ℕ) where
  -- `for (; n < size - 1 && !stream_read_bit(&s); n++)`
  unfoldable pub skip_zeros : ℕ → R → ℕ → R × ℕ
  skip_zeros zero r n = (r, n)
  skip_zeros (suc fuel) r n = elim (ltb n (size - 1)) [
    | true ↦
        let (b, r') = reader.read_bit r in
        elim (b != 0) [ true ↦ (r', n) | false ↦ skip_zeros fuel r' (n + 1) ]
    | false ↦ (r, n)
  ]

  -- Step 2 of `decode_few_ints_prec`.
  unfoldable pub read_groups : ℕ → R → ℕ → ℕ → R × ℕ × ℕ
  read_groups zero r x n = (r, x, n)
  read_groups (suc fuel) r x n = elim (ltb n size) [
    | true ↦
        let (b, r') = reader.read_bit r in
        elim (b != 0) [
          | true ↦
              let (r'', n') = skip_zeros size r' n in
              read_groups fuel r'' (u64 (x + u64 (1 <<< n'))) (n' + 1)
          | false ↦ (r', x, n)
        ]
    | false ↦ (r, x, n)
  ]

  unfoldable pub decode_plane : ℕ → R → (ℕ → ℕ) → ℕ → ℕ → R × (ℕ → ℕ) × ℕ
  decode_plane width r ints k n =
      let (x, r') = reader.read_bits r n in
      let (r'', x', n') = read_groups size r' x n in (r'', deposit width k 64 0 x' ints, n')

  unfoldable pub decode_planes : ℕ → ℕ → ℕ → R → (ℕ → ℕ) → ℕ → R × (ℕ → ℕ)
  decode_planes width kmin zero r ints n = (r, ints)
  decode_planes width kmin (suc planes) r ints n =
      let (r', ints', n') = decode_plane width r ints (kmin + planes) n in
      decode_planes width kmin planes r' ints' n'

  -- `data` becomes all zeros. The last component is the number of bits.
  unfoldable pub decode_few_ints_prec : ℕ → R → ℕ → R × (ℕ → ℕ) × ℕ
  decode_few_ints_prec intprec r maxprec =
      let kmin = if ltb maxprec intprec then intprec - maxprec else 0 in
      let (r', ints) = decode_planes intprec kmin (intprec - kmin) r (λ i. 0) 0 in
      (r', ints, sub32 (u32 (reader.rtell r')) (u32 (reader.rtell r)))
