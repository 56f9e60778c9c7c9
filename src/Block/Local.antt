-- ===== src/Block/Local.antt =====
-- The inverse transform of a block depends on no other memory.
use zfp.Prelude.{
  ℕ, zero, suc, ◌+◌, ◌*◌, ◌^◌, ◌≤◌, ◌<◌, ◌≡◌, refl, sym, ap, ◌∙◌, arith, Bool, true, List, [], ◌∷◌,
  ltb, ◌==◌, ◌&&◌, Bool-cases, inl, inr,
}
use mathlib.Core.Path.{subst}
use zfp.BlockCache.{update}
use zfp.Transform.{
  Line, Vector, load, save, lifts, rev_inv_lift, inv_vector, one, lines_x2, lines_y2, lines_x3,
  lines_y3, lines_z3, rev_inv_xform1, rev_inv_xform2, rev_inv_xform3, rev_fwd_xform1,
  rev_fwd_xform2, rev_fwd_xform3, fwd_order, inv_order, uint2int,
}
use zfp.Transform.Tables.{entry, perm}
use zfp.Transform.Order.{inv_order-fwd_order}
use zfp.Transform.Inverse.{
  both, IsBlock, lifts-IsBlock, rev_inv_xform1-rev_fwd_xform1, rev_inv_xform2-rev_fwd_xform2,
  rev_inv_xform3-rev_fwd_xform3,
}
use zfp.Block.{rev_inv_xform, rev_fwd_xform}

-- The blocks have the same first n words.
abbrev pub Same : ℕ → (ℕ → ℕ) → (ℕ → ℕ) → Type 0
Same n block block' = (a : ℕ) → a < n → block a ≡ block' a

update-Same : (n : ℕ) (b b' : ℕ → ℕ) (i v : ℕ) → Same n b b' → Same n (update b i v) (update b' i v)
update-Same n b b' i v h a inside = elim (Bool-cases (i == a)) [
  | inl this ↦ rw this refl
  | inr other ↦ rw other (h a inside)
]

save-Same :
    (n : ℕ) (l : Line) (v : Vector) (b b' : ℕ → ℕ) → Same n b b' → Same n (save l v b) (save l v b')
save-Same n l (x, y, z, w) b b' h =
    let h₁ = update-Same n b b' (l.start + 3 * l.stride) w h in
    let h₂ = update-Same n _ _ (l.start + 2 * l.stride) z h₁ in
    let h₃ = update-Same n _ _ (l.start + l.stride) y h₂ in update-Same n _ _ l.start x h₃

load-Same :
    (n : ℕ) (l : Line) (b b' : ℕ → ℕ)
    → l.start + 3 * l.stride < n
    → Same n b b'
    → load l b ≡ load l b'
load-Same n l b b' inside h =
    let p = h l.start (omega (arith, inside)) in
    let q = h (l.start + l.stride) (omega (arith, inside)) in
    let r = h (l.start + 2 * l.stride) (omega (arith, inside)) in
    let s = h (l.start + 3 * l.stride) inside in rw (p, q, r, s) refl

all_inside : ℕ → List Line → Bool
all_inside n [] = true
all_inside n (l ∷ ls) = ltb (l.start + 3 * l.stride) n && all_inside n ls

lifts-Same :
    (width n : ℕ) (ls : List Line) (b b' : ℕ → ℕ)
    → all_inside n ls ≡ true
    → Same n b b'
    → Same n (lifts (rev_inv_lift width) ls b) (lifts (rev_inv_lift width) ls b')
unfolding lifts rev_inv_lift all_inside
lifts-Same width n [] b b' inside h = h
lifts-Same width n (l ∷ ls) b b' inside h =
    let (here, later) = both (ltb (l.start + 3 * l.stride) n) (all_inside n ls) inside in
    let v = inv_vector width (load l b') in
    let loaded = load-Same n l b b' (ground (arith, here)) h in
    lifts-Same width n ls _ _ later (
      subst (λ u. Same n (save l (inv_vector width u) b) (save l v b')) (sym loaded)
        (save-Same n l v b b' h))

-- The inverse transform of blocks with the same words gives blocks with the same words.
rev_inv_xform-Same :
    (width d : ℕ) (b b' : ℕ → ℕ)
    → 1 ≤ d
    → d ≤ 3
    → Same (4 ^ d) b b'
    → Same (4 ^ d) (rev_inv_xform width d b) (rev_inv_xform width d b')
unfolding rev_inv_xform rev_inv_xform1 rev_inv_xform2 rev_inv_xform3 all_inside
rev_inv_xform-Same width zero b b' l u h = absurd (omega arith)
rev_inv_xform-Same width (suc zero) b b' l u h = lifts-Same width 4 (one 0 1) b b' refl h
rev_inv_xform-Same width (suc (suc zero)) b b' l u h =
    lifts-Same width 16 lines_x2 _ _ refl (lifts-Same width 16 lines_y2 b b' refl h)
rev_inv_xform-Same width (suc (suc (suc zero))) b b' l u h =
    lifts-Same width 64 lines_x3 _ _ refl
      (lifts-Same width 64 lines_y3 _ _ refl (lifts-Same width 64 lines_z3 b b' refl h))
rev_inv_xform-Same width (suc (suc (suc (suc d)))) b b' l u h = absurd (omega arith)

inv_order_same :
    (width : ℕ) (perm : ℕ → ℕ) (n i : ℕ) (u u' b : ℕ → ℕ)
    → ((a : ℕ) → i ≤ a → a < i + n → u a ≡ u' a)
    → inv_order width perm n i u b ≡ inv_order width perm n i u' b
unfolding inv_order
inv_order_same width perm zero i u u' b h = refl
inv_order_same width perm (suc n) i u u' b h =
    ap (λ v. inv_order width perm n (i + 1) u (update b (perm i) (uint2int width v)))
      (h i (omega arith) (omega arith))
    ∙ inv_order_same width perm n (i + 1) u u' (update b (perm i) (uint2int width (u' i)))
        (λ a from to. h a (omega arith) (omega arith))

rev_fwd_xform-IsBlock :
    (width d : ℕ) (b : ℕ → ℕ)
    → 1 ≤ d
    → d ≤ 3
    → IsBlock width b
    → IsBlock width (rev_fwd_xform width d b)
unfolding rev_fwd_xform rev_fwd_xform1 rev_fwd_xform2 rev_fwd_xform3
rev_fwd_xform-IsBlock width zero b l u h = absurd (omega arith)
rev_fwd_xform-IsBlock width (suc zero) b l u h = lifts-IsBlock width (one 0 1) b h
rev_fwd_xform-IsBlock width (suc (suc zero)) b l u h =
    lifts-IsBlock width lines_y2 _ (lifts-IsBlock width lines_x2 b h)
rev_fwd_xform-IsBlock width (suc (suc (suc zero))) b l u h =
    lifts-IsBlock width lines_z3 _
      (lifts-IsBlock width lines_y3 _ (lifts-IsBlock width lines_x3 b h))
rev_fwd_xform-IsBlock width (suc (suc (suc (suc d)))) b l u h = absurd (omega arith)

rev_inv_xform-rev_fwd_xform :
    (width d : ℕ) (b : ℕ → ℕ)
    → 1 ≤ d
    → d ≤ 3
    → IsBlock width b
    → rev_inv_xform width d (rev_fwd_xform width d b) ≡ b
unfolding rev_inv_xform rev_fwd_xform
rev_inv_xform-rev_fwd_xform width zero b l u h = absurd (omega arith)
rev_inv_xform-rev_fwd_xform width (suc zero) b l u h = rev_inv_xform1-rev_fwd_xform1 width b h
rev_inv_xform-rev_fwd_xform width (suc (suc zero)) b l u h = rev_inv_xform2-rev_fwd_xform2 width b h
rev_inv_xform-rev_fwd_xform width (suc (suc (suc zero))) b l u h =
    rev_inv_xform3-rev_fwd_xform3 width b h
rev_inv_xform-rev_fwd_xform width (suc (suc (suc (suc d)))) b l u h = absurd (omega arith)

-- The words of a block come back when its unsigned integers do, whatever was in memory before.
pub words_back :
    (width d : ℕ) (block initial u : ℕ → ℕ)
    → 1 ≤ d
    → d ≤ 3
    → IsBlock width block
    → Same
        (4 ^ d)
        u
        (fwd_order width (entry (perm d)) (4 ^ d) 0 (rev_fwd_xform width d block) (λ i. 0))
    → Same
        (4 ^ d)
        (rev_inv_xform width d (inv_order width (entry (perm d)) (4 ^ d) 0 u initial))
        block
words_back width d block initial u l few h same a inside =
    let n = 4 ^ d in
    let f = rev_fwd_xform width d block in
    let words = rev_fwd_xform-IsBlock width d block l few h in
    let u' = fwd_order width (entry (perm d)) n 0 f (λ i. 0) in
    let ordered : Same n (inv_order width (entry (perm d)) n 0 u initial) f = λ j below.
      ap (λ b. b j)
        (inv_order_same width (entry (perm d)) n 0 u u' initial
          (λ i from to. same i (omega (arith, to))))
      ∙ inv_order-fwd_order width d f (λ i. 0) initial j l (omega (arith, few)) words below in
    rev_inv_xform-Same width d _ f l few ordered a inside
    ∙ ap (λ b. b a) (rev_inv_xform-rev_fwd_xform width d block l few h)
