-- ===== src/Examples.antt =====
-- Runs of the modelled code on concrete values.
pub mod Grids
pub mod Caches
pub mod Codecs
pub mod Indices
pub mod Streams
pub mod Transforms
pub mod Blocks
pub mod Bits
pub mod Views
