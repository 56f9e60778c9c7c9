-- ===== src/Examples/Transforms.antt =====
-- The reversible transforms and the order of the coefficients on 32-bit words.
use zfp.Prelude.{ℕ, ◌+◌, ◌*◌, ◌%◌, ◌^◌, ◌≡◌, arith}
use native.Mathlib.Nat.{mod-lt}
use zfp.Transform.{rev_fwd_xform4, rev_inv_xform4, fwd_order, inv_order}
use zfp.Transform.Inverse.{IsBlock, rev_inv_xform4-rev_fwd_xform4}
use zfp.Transform.Order.{inv_order-fwd_order}
use zfp.Transform.Tables.{entry, perm}

-- Words with large differences, which wrap around.
abbrev words : ℕ → ℕ
words a = (a * 2654435761 + 7) % 2 ^ 32

words-IsBlock : IsBlock 32 words
words-IsBlock a = mod-lt (a * 2654435761 + 7) (omega arith)

rev_inv_xform4-rev_fwd_xform4_example : rev_inv_xform4 32 (rev_fwd_xform4 32 words) ≡ words
rev_inv_xform4-rev_fwd_xform4_example = rev_inv_xform4-rev_fwd_xform4 32 words words-IsBlock

inv_order-fwd_order_example :
    inv_order 32
      (entry (perm 3))
      (4 ^ 3)
      0
      (fwd_order 32 (entry (perm 3)) (4 ^ 3) 0 words (λ a. 0))
      (λ a. 1)
      37
    ≡ words 37
inv_order-fwd_order_example =
    inv_order-fwd_order 32 3 words (λ a. 0) (λ a. 1) 37 (omega arith) (omega arith) words-IsBlock
      (omega arith)
