-- ===== src/BitStream.antt =====
-- The bit stream of include/zfp/bitstream.inl, for words of 64 bits and without strides, the
-- configuration of the build. The memory of the stream is a function from the number of a word to
-- its value, and a pointer is the number of a word from the beginning; the code does not enforce
-- the end.
pub mod Value
pub mod Writing
pub mod Reading
pub mod Seeking
pub mod Transfer
use zfp.Prelude.{
  ℕ, zero, suc, ◌+◌, ◌-◌, ◌*◌, ◌/◌, ◌%◌, ◌^◌, true, false, ltb, leb, ◌==◌, ◌!=◌, if◌then◌else◌, u64,
  ◌<<<◌, ◌>>>◌, bit_and,
}
use zfp.Prelude.{sub64}
use zfp.Coder.{Writer, Reader}
use zfp.BlockCache.{update}

abbrev pub wsize : ℕ
wsize = 64

pub record BitStream : Type 0 where
  pub bits : ℕ
  pub buffer : ℕ
  pub ptr : ℕ
  pub end : ℕ
  pub memory : ℕ → ℕ

abbrev pub read_word : BitStream → ℕ × BitStream
read_word s = (s.memory s.ptr, record s { ptr = s.ptr + 1 })

abbrev pub write_word : BitStream → ℕ → BitStream
write_word s value = record s { memory = update s.memory s.ptr value; ptr = s.ptr + 1 }

-- `stream_size` and `stream_capacity`, in bytes
unfoldable pub size : BitStream → ℕ
size s = u64 (s.ptr * 8)

unfoldable pub capacity : BitStream → ℕ
capacity s = u64 (s.end * 8)

unfoldable pub refill : BitStream → BitStream
refill s =
    if s.bits == 0 then (let (w, s') = read_word s in record s' { buffer = w; bits = wsize }) else s

unfoldable pub read_bit : BitStream → ℕ × BitStream
read_bit s =
    let s' = refill s in
    (bit_and s'.buffer 1, record s' { bits = s'.bits - 1; buffer = s'.buffer >>> 1 })

unfoldable pub write_bit : BitStream → ℕ → BitStream
write_bit s bit =
    let buffer = u64 (s.buffer + u64 (bit <<< s.bits)) in
    if s.bits + 1 == wsize
    then record (write_word s buffer) { buffer = 0; bits = 0 }
    else record s { buffer = buffer; bits = s.bits + 1 }

-- The loop that fetches words runs once.
unfoldable pub read_bits : BitStream → ℕ → ℕ × BitStream
read_bits s n =
    if ltb s.bits n
    then (let (w, s') = read_word s in
        let value = u64 (s.buffer + u64 (w <<< s.bits)) in
        let bits = s.bits + wsize - n in
        if bits == 0 then (value, record s' { bits = 0; buffer = 0 }) else (
          bit_and value (sub64 (u64 (2 <<< (n - 1))) 1),
          record s' { bits = bits; buffer = w >>> (wsize - bits) },
        ))
    else (
      bit_and s.buffer (sub64 (u64 (1 <<< n)) 1),
      record s { bits = s.bits - n; buffer = s.buffer >>> n },
    )

-- `s->buffer &= ((bitstream_word)1 << s->bits) - 1`
abbrev pub masked : BitStream → BitStream
masked s = record s { buffer = bit_and s.buffer (sub64 (u64 (1 <<< s.bits)) 1) }

-- The loop that writes words runs once.
unfoldable pub write_bits : BitStream → ℕ → ℕ → ℕ × BitStream
write_bits s value n =
    let buffer = u64 (s.buffer + u64 (value <<< s.bits)) in
    let bits = s.bits + n in
    if leb wsize bits
    then (
      value >>> 1 >>> (n - 1),
      masked (record (write_word s buffer) {
        bits = bits - wsize;
        buffer = value >>> 1 >>> (n - 1 - (bits - wsize));
      }),
    )
    else (value >>> n, masked (record s { buffer = buffer; bits = bits }))

unfoldable pub rtell : BitStream → ℕ
rtell s = sub64 (u64 (s.ptr * wsize)) s.bits

unfoldable pub wtell : BitStream → ℕ
wtell s = u64 (u64 (s.ptr * wsize) + s.bits)

unfoldable pub rewind : BitStream → BitStream
rewind s = record s { ptr = 0; buffer = 0; bits = 0 }

unfoldable pub rseek : BitStream → ℕ → BitStream
rseek s offset =
    let n = offset % wsize in
    let s' = record s { ptr = offset / wsize } in
    if n != 0
    then (let (w, s'') = read_word s' in record s'' { buffer = w >>> n; bits = wsize - n })
    else record s' { buffer = 0; bits = 0 }

unfoldable pub wseek : BitStream → ℕ → BitStream
wseek s offset =
    let n = offset % wsize in
    let s' = record s { ptr = offset / wsize } in
    if n != 0
    then record s' {
      buffer = bit_and (s.memory (offset / wsize)) (sub64 (u64 (1 <<< n)) 1);
      bits = n;
    }
    else record s' { buffer = 0; bits = 0 }

unfoldable pub skip : BitStream → ℕ → BitStream
skip s n = rseek s (u64 (rtell s + n))

-- `for (bits += n; bits >= wsize; bits -= wsize)`, on fuel
unfoldable pub pad_words : ℕ → BitStream → ℕ → BitStream
pad_words zero s bits = record s { bits = bits }
pad_words (suc fuel) s bits = elim (leb wsize bits) [
  | true ↦ pad_words fuel (record (write_word s s.buffer) { buffer = 0 }) (bits - wsize)
  | false ↦ record s { bits = bits }
]

unfoldable pub pad : BitStream → ℕ → BitStream
pad s n = pad_words (n / wsize + 2) s (s.bits + n)

unfoldable pub align : BitStream → ℕ × BitStream
align s = (s.bits, if s.bits != 0 then skip s s.bits else s)

unfoldable pub flush : BitStream → ℕ × BitStream
flush s = let bits = (wsize - s.bits) % wsize in (bits, if bits != 0 then pad s bits else s)

-- `stream_copy`, on fuel
unfoldable pub copy_words : ℕ → BitStream → BitStream → ℕ → BitStream × BitStream × ℕ
copy_words zero dst src n = (dst, src, n)
copy_words (suc fuel) dst src n = elim (ltb wsize n) [
  | true ↦
      let (w, src') = read_bits src wsize in
      copy_words fuel (write_bits dst w wsize).1 src' (n - wsize)
  | false ↦ (dst, src, n)
]

unfoldable pub copy : BitStream → BitStream → ℕ → BitStream × BitStream
copy dst src n =
    let (dst', src', m) = copy_words (n / wsize + 1) dst src n in
    if m != 0
    then (let (w, src'') = read_bits src' m in ((write_bits dst' w m).1, src''))
    else (dst', src')

-- `stream_open`, for memory that is there.
unfoldable pub open_stream : (ℕ → ℕ) → ℕ → BitStream
open_stream memory bytes = record {
  bits = 0;
  buffer = 0;
  ptr = 0;
  end = bytes / 8;
  memory = memory;
}

abbrev pub writer : Writer BitStream
writer = record { write_bit = write_bit; write_bits = write_bits; wtell = wtell }

abbrev pub reader : Reader BitStream
reader = record { read_bit = read_bit; read_bits = read_bits; rtell = rtell }
