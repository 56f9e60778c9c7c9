-- ===== src/Store.antt =====
-- The block stores of include/zfp/internal/array: store.hpp and store1.hpp to store4.hpp. A store
-- numbers the blocks of an array and keeps them, compressed, in one buffer.
pub mod Shape
pub mod Axis
pub mod Store1
pub mod Store2
pub mod Store3
pub mod Store4
use zfp.Prelude.{ℕ}
use zfp.Index.Outcome.{Outcome}

-- What a store calls of its template parameter `Index`.
pub record BlockIndex (I : Type 0) : Type 0 where
  pub resize : I → ℕ → I
  pub block_offset : I → ℕ → ℕ
  pub set_block_size : I → ℕ → ℕ → Outcome I

-- A written block: its size in bits, and the buffer.
pub record Written (B : Type 0) : Type 0 where
  pub size : ℕ
  pub buffer : B

-- What a store calls of its template parameter `Codec`: the functions take a bit offset into the
-- buffer, a shape and the values of a block; decoding writes over old values.
pub record Codec (B A : Type 0) : Type 0 where
  pub encode_block : B → ℕ → ℕ → (ℕ → A) → Written B
  pub decode_block : B → ℕ → ℕ → (ℕ → A) → (ℕ → A)
