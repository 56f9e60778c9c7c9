-- ===== src/Codec.antt =====
-- include/zfp/codec/gencodec.hpp: the codec that stores the scalars of a block, uncompressed.
pub mod Loops
pub mod Contiguous
pub mod Generic
