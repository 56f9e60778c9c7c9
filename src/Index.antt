-- ===== src/Index.antt =====
-- include/zfp/index.hpp: the block indexes, which give the bit offset and bit size of each
-- compressed block. One child module for each class; this one holds what they share: the
-- exceptions, and the description of a sequence of blocks that an index is to represent.
pub mod Outcome
pub mod Offsets
pub mod Implicit
pub mod Verbatim
pub mod Hybrid4
pub mod Hybrid8
