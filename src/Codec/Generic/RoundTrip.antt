-- ===== src/Codec/Generic/RoundTrip.antt =====
-- Writing a block with the generic codec and reading it again.
use zfp.Prelude.{ℕ, ◌+◌, ◌-◌, ◌*◌, ◌^◌, ◌≤◌, ◌<◌, ◌≡◌, refl, arith, ap, ◌∙◌, true, leb, some}
use zfp.Codec.Generic.{encode_block4, decode_block4}
use zfp.Codec.Generic.Shape.{has_scalar4}
use zfp.Codec.Generic.Blocks.{encode_block4_lem, decode_block4_lem}

-- A 4-dimensional block of any shape, written at an aligned offset and read over any old block,
-- gives each of its scalars converted to the stored type and back.
pub decode_block4-encode_block4 :
    {E I : Type 0} (bits : ℕ) (narrow : E → I) (widen : I → E) (buffer : ℕ → I) (k shape : ℕ)
    (block old : ℕ → E)
    → 1 ≤ bits
    → k < 2 ^ 62
    → (written : ℕ → I) × (encode_block4 bits narrow widen buffer (k * bits) shape block
        ≡ some (256 * bits, written))
      × (read : ℕ → E) × (decode_block4 bits narrow widen written (k * bits) shape old
          ≡ some (256 * bits, read))
      × ((a : ℕ) → has_scalar4 shape a ≡ true → read a ≡ widen (narrow (block a)))
decode_block4-encode_block4 bits narrow widen buffer k shape block old positive small =
    let (written, w, put) =
      encode_block4_lem bits narrow widen positive buffer k shape block small in
    let (read, r, got) = decode_block4_lem bits narrow widen positive written k shape old small in
    (
      written,
      w,
      read,
      r,
      λ a h.
          let here : k + a - k ≡ a = omega arith in
          let above : leb k (k + a) ≡ true = ground arith in
          got a ∙ rw h (ap widen (put (k + a) ∙ rw (above, here, h) refl)),
    )
