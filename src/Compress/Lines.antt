-- ===== src/Compress/Lines.antt =====
-- Lines of a block that are gathered, padded and scattered.
use zfp.Prelude.{
  ℕ, zero, suc, ◌+◌, ◌-◌, ◌*◌, ◌^◌, ◌≤◌, ◌<◌, ◌≡◌, ◌⊎◌, refl, ap, ◌∙◌, arith, Bool, true, false,
  leb, ◌==◌, if◌then◌else◌, Bool-cases, inl, inr,
}
use zfp.Prelude.Bits.{one-le-two-pow}
use zfp.BlockCache.{update}
use zfp.Transform.Inverse.{IsBlock}
use zfp.Compress.{pad_block, gather_line, gather_partial1, scatter_line}

pub scatter_line_lem :
    (n x : ℕ) (q : ℕ → ℕ) (at : ℕ) (p : ℕ → ℕ) (j : ℕ)
    → ((at + x ≤ j → j < at + x + n → scatter_line n x q at p 1 j ≡ q (j - at))
        × (j < at + x → scatter_line n x q at p 1 j ≡ p j))
unfolding scatter_line
scatter_line_lem zero x q at p j = (λ from to. absurd (omega arith), λ before. refl)
scatter_line_lem (suc n) x q at p j =
    let (here, below) = scatter_line_lem n (x + 1) q at (update p (at + x * 1) (q x)) j in
    (
      λ from to. elim (Bool-cases (at + x * 1 == j)) [
        | inl this ↦
            below (ground (arith, this))
            ∙ rw this (ap q {x = x} {y = j - at} (ground (arith, this)))
        | inr other ↦ here (ground (arith, other)) (omega arith)
      ],
      λ before.
          let other : (at + x * 1 == j) ≡ false = ground arith in
          below (omega arith) ∙ rw other refl,
    )

gather_line_lem :
    (n x : ℕ) (q p : ℕ → ℕ) (j : ℕ)
    → ((x ≤ j → j < x + n → gather_line n x q p 1 j ≡ p j)
        × ((j < x ⊎ (x + n ≤ j)) → gather_line n x q p 1 j ≡ q j))
unfolding gather_line
gather_line_lem zero x q p j = (λ from to. absurd (omega arith), λ out. refl)
gather_line_lem (suc n) x q p j =
    let (here, below) = gather_line_lem n (x + 1) (update q x (p (x * 1))) p j in
    (
      λ from to. elim (Bool-cases (x == j)) [
        | inl this ↦
            below (inl (ground (arith, this)))
            ∙ rw this (ap p {x = x * 1} {y = j} (ground (arith, this)))
        | inr other ↦ here (ground (arith, other)) (omega arith)
      ],
      λ out.
          let other : (x == j) ≡ false = elim out [
            | inl o ↦ ground (arith, o)
            | inr o ↦ ground (arith, o)
          ] in
          below (elim out [ inl o ↦ inl (omega (arith, o)) | inr o ↦ inr (omega (arith, o)) ])
          ∙ rw other refl,
    )

update-IsBlock :
    (width : ℕ) (b : ℕ → ℕ) (i v : ℕ)
    → IsBlock width b
    → v < 2 ^ width
    → IsBlock width (update b i v)
update-IsBlock width b i v h fits a = elim (Bool-cases (i == a)) [
  | inl this ↦ rw this fits
  | inr other ↦ rw other (h a)
]

gather_line-IsBlock :
    (width n x : ℕ) (q p : ℕ → ℕ)
    → IsBlock width q
    → IsBlock width p
    → IsBlock width (gather_line n x q p 1)
unfolding gather_line
gather_line-IsBlock width zero x q p hq hp = hq
gather_line-IsBlock width (suc n) x q p hq hp =
    gather_line-IsBlock width n (x + 1) (update q x (p (x * 1))) p
      (update-IsBlock width q x (p (x * 1)) hq (hp (x * 1))) hp

-- One case of `pad_block`: it changes no element of the line, and words stay words.
padded :
    (c : Bool) (p : ℕ → ℕ) (k v j : ℕ)
    → (c ≡ true → j < k)
    → (if c then update p k v else p) j ≡ p j
padded true p k v j h = let other : (k == j) ≡ false = ground (arith, h refl) in rw other refl
padded false p k v j h = refl

padded-IsBlock :
    (width : ℕ) (c : Bool) (p : ℕ → ℕ) (k v : ℕ)
    → IsBlock width p
    → v < 2 ^ width
    → IsBlock width (if c then update p k v else p)
padded-IsBlock width true p k v h fits = update-IsBlock width p k v h fits
padded-IsBlock width false p k v h fits = h

pad_block-keeps : (p : ℕ → ℕ) (n j : ℕ) → j < n → pad_block p n 1 j ≡ p j
unfolding pad_block
pad_block-keeps p n j inside =
    padded (leb n 3) _ 3 _ j (λ e. ground (arith, e))
    ∙ padded (leb n 2) _ 2 _ j (λ e. ground (arith, e))
    ∙ padded (leb n 1) _ 1 _ j (λ e. ground (arith, e))
    ∙ padded (n == 0) p 0 0 j (λ e. ground (arith, e))

pad_block-IsBlock :
    (width : ℕ) (p : ℕ → ℕ) (n : ℕ) → IsBlock width p → IsBlock width (pad_block p n 1)
unfolding pad_block
pad_block-IsBlock width p n h =
    let h₀ = padded-IsBlock width (n == 0) p 0 0 h (one-le-two-pow width) in
    let h₁ = padded-IsBlock width (leb n 1) _ 1 _ h₀ (h₀ 0) in
    let h₂ = padded-IsBlock width (leb n 2) _ 2 _ h₁ (h₁ 1) in
    padded-IsBlock width (leb n 3) _ 3 _ h₂ (h₂ 0)

pub gather_partial1-IsBlock :
    (width : ℕ) (p : ℕ → ℕ) (n : ℕ) → IsBlock width p → IsBlock width (gather_partial1 p n 1)
unfolding gather_partial1
gather_partial1-IsBlock width p n h =
    pad_block-IsBlock width _ n
      (gather_line-IsBlock width n 0 (λ i. 0) p (λ a. one-le-two-pow width) h)

pub gather_partial1_lem : (p : ℕ → ℕ) (n j : ℕ) → j < n → gather_partial1 p n 1 j ≡ p j
unfolding gather_partial1
gather_partial1_lem p n j inside =
    pad_block-keeps _ n j inside
    ∙ (gather_line_lem n 0 (λ i. 0) p j).0 (omega arith) (omega (arith, inside))
