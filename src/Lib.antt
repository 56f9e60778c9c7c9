-- ===== src/Lib.antt =====
-- The compressed arrays of the C++ headers under include/zfp: a multidimensional array is cut into
-- blocks of four elements along each axis; a block store keeps the blocks, encoded, in one buffer;
-- a block index knows where in the buffer a block begins; a cache holds decoded blocks, with a tag
-- for each that says which block it is and whether it was changed.
--
--   Prelude      tests, lists, casts of unsigned integers and bit operations.
--   Index        include/zfp/index.hpp: the classes `implicit`, `verbatim`, `hybrid4` and `hybrid8`.
--                Each is a record with the fields of the class, and a function for each method; a
--                method that throws is an `Outcome` that holds the state it leaves. Loops that pad a
--                chunk are on fuel of its length.
--   Cache        include/zfp/internal/array/cache.hpp: `Cache` and `Cache::Tag`, with both hashes and
--                both configurations. The loop that rounds the mask is on fuel 32, its width. Loops
--                over the lines are on the number of lines.
--   BlockCache   include/zfp/internal/array/cache1.hpp to cache4.hpp. What the four classes share is
--                `BlockCache` itself, for block numbers and positions in a block; `Cache1` to `Cache4`
--                are the numbering of elements. The loop of `lines` is on fuel 64, the width of a
--                `size_t`.
--   Store        include/zfp/internal/array/store.hpp and store1.hpp to store4.hpp: the numbers of
--                blocks, the shapes of partial blocks, `encode` and `decode`.
--   Codec        include/zfp/codec/gencodec.hpp: the codec that stores scalars uncompressed, and the
--                loop nests over strided storage.
--   View         include/zfp/internal/array/view1.hpp to view4.hpp: the partition of a `private_view`
--                into pieces and the flat indices of a `flat_view`.
--   Iterator     include/zfp/internal/array/iterator2.hpp: the steps of the iterator that visits a
--                two-dimensional array or view block by block.
--   Field        src/zfp.c: `zfp_field`, its setters, its index span and its metadata.
--   Stream       src/zfp.c: the parameters of `zfp_stream`, their modes, and the number that stands for
--                a mode.
--   Header       src/zfp.c: `zfp_write_header` and `zfp_read_header`.
--   Promote      src/zfp.c: the conversions between blocks of 8-bit or 16-bit integers and of 32-bit
--                integers. A left shift of a negative number is a product.
--   BitStream    include/zfp/bitstream.inl: the stream of words with its buffer, for words of 64 bits
--                and without strides. Padding and copying are on fuel of the number of words.
--   Coder        src/template/encode.c and decode.c: `Coder` itself is `encode_few_ints_prec` and its
--                decoder, `Rate` the ones with a bound on the bits, `Many` the ones for more than 64
--                integers, and `Ints` the choice among them. Loops over a bit plane are on fuel of
--                its size, or of the 64 bits of a word; with a bound, on the bits left.
--   Block        `encode_block` and `decode_block` there, and in revencode.c and revdecode.c
--                `rev_encode_block`, `rev_decode_block` and `rev_precision`, whose search is on fuel
--                of the width of a word.
--   Compress     src/template/compress.c and decompress.c, with encode1.c, encodei.c, decode1.c and
--                decodei.c: a contiguous array of integers of one dimension. Neither the array nor the block
--                that is gathered has a bound.
--   Transform    src/template/revencode.c and revdecode.c, with revencode1.c to revdecode4.c: the reversible
--                lifts along the lines of a block; of encode.c and decode.c the order of the
--                coefficients and the sign map, with the tables of codec1.c to codec4.c. `Lossy` is
--                the lifted transform of encode1.c to decode4.c, in arithmetic that wraps.
--   Examples     runs on concrete values.
--
-- The machine's arithmetic is written out: a `size_t` has 64 bits, a `uint` 32, and sums, products
-- and differences are taken modulo these. Theorems state the sizes below which nothing wraps.
-- A block store is given an index and a codec by records of their operations (`Store.BlockIndex`,
-- `Store.Codec`), a block cache a store (`BlockCache.BlockIo`); `BlockCache.Coherent.Lossless` is what
-- the theorems on the cache ask of a store, namely that encoding a block changes that block only
-- and that decoding gives its values back. Fresh memory of an allocation is an argument.
--
-- The coder and the header are given a bit stream by the records of its operations `Coder.Writer`
-- and `Coder.Reader`; `Coder.Stream` is what their theorems ask of it, namely that a writer adds
-- the bits it is given at the end and counts them, and that a reader takes them from the front.
-- `BitStream.Transfer.bit_stream` shows that the bit stream does: `BitStream.Writing.Wrote` says which
-- bits its words and its buffer hold, `BitStream.Reading.Ahead` which bits are to be read and at which
-- offset they end. The blocks and the arrays work on the bit stream itself.
--
-- Not modelled: of the C library (src), the strides and the memory management of the bit stream, the
-- rounding modes of the coder, which are off, the block floating point, the compression of strided
-- arrays and of more than one dimension, the dispatch of `zfp_compress` and `zfp_decompress` and the
-- parallel back ends; conversions of a rate or a tolerance from floating point; the inspectors
-- and the nesting of views, the offsets of iterators and their other dimensions, pointers and
-- references; deep copies, memory accounting and the setters of compression modes of
-- the codec classes; the bindings, utilities and examples.
pub mod BitStream
pub mod Block
pub mod BlockCache
pub mod Cache
pub mod Codec
pub mod Coder
pub mod Compress
pub mod Examples
pub mod Field
pub mod Header
pub mod Index
pub mod Iterator
pub mod Prelude
pub mod Promote
pub mod Store
pub mod Stream
pub mod Transform
pub mod View
