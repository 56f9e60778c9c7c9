-- ===== src/Transform/Inverse.antt =====
-- The reversible transforms undo each other.
use zfp.Prelude.{
  ℕ, ◌+◌, ◌-◌, ◌*◌, ◌^◌, ◌%◌, ◌<◌, ◌≡◌, refl, sym, ap, ◌∙◌, arith, Bool, true, false, ◌&&◌, List,
  [], ◌∷◌, ◌==◌, ltb, if◌then◌else◌, Bool-cases, inl, inr,
}
use mathlib.Core.Path.{fun_ext}
use native.Mathlib.Nat.{mod-eq_of_lt, mod-lt, add-mod_right}
use zfp.Prelude.Bits.{one-le-two-pow}
use zfp.Transform.{
  Line, Vector, load, save, lifts, sub_word, add_word, fwd_vector, inv_vector, rev_fwd_lift,
  rev_inv_lift, one, lines_x2, lines_y2, lines_x3, lines_y3, lines_z3, lines_x4, lines_y4, lines_z4,
  lines_w4, rev_fwd_xform4, rev_inv_xform4, rev_fwd_xform1, rev_inv_xform1, rev_fwd_xform2,
  rev_inv_xform2, rev_fwd_xform3, rev_inv_xform3,
}
use zfp.Transform.Lines.{on, apart, off_line, on_line, apart-on, all_parts}

load-save : (l : Line) (v : Vector) (b : ℕ → ℕ) → ltb 0 l.stride ≡ true → load l (save l v b) ≡ v
load-save l (x, y, z, w) b h =
    let p₁ : (l.start == l.start + l.stride) ≡ false = ground (arith, h) in
    let p₂ : (l.start == l.start + 2 * l.stride) ≡ false = ground (arith, h) in
    let p₃ : (l.start == l.start + 3 * l.stride) ≡ false = ground (arith, h) in
    let q₂ : (l.start + l.stride == l.start + 2 * l.stride) ≡ false = ground (arith, h) in
    let q₃ : (l.start + l.stride == l.start + 3 * l.stride) ≡ false = ground (arith, h) in
    let r₃ : (l.start + 2 * l.stride == l.start + 3 * l.stride) ≡ false = ground (arith, h) in
    let same₀ : (l.start == l.start) ≡ true = ground arith in
    let same₁ : (l.start + l.stride == l.start + l.stride) ≡ true = ground arith in
    let same₂ : (l.start + 2 * l.stride == l.start + 2 * l.stride) ≡ true = ground arith in
    let same₃ : (l.start + 3 * l.stride == l.start + 3 * l.stride) ≡ true = ground arith in
    rw (p₁, p₂, p₃, q₂, q₃, r₃, same₀, same₁, same₂, same₃) refl

load-apart :
    (l k : Line) (v : Vector) (b : ℕ → ℕ) → apart l k ≡ true → load l (save k v b) ≡ load l b
unfolding apart
load-apart l k v b h =
    let (u₀, u₁, u₂, u₃) = all_parts _ _ _ _ h in
    rw
      (
        off_line k v b l.start u₀,
        off_line k v b (l.start + l.stride) u₁,
        off_line k v b (l.start + 2 * l.stride) u₂,
        off_line k v b (l.start + 3 * l.stride) u₃,
      )
      refl

same_case :
    (p q r s : Bool) (x y z w e : ℕ)
    → (p ≡ true → x ≡ e)
    → (q ≡ true → y ≡ e)
    → (r ≡ true → z ≡ e)
    → (s ≡ true → w ≡ e)
    → (if p then x else if q then y else if r then z else if s then w else e) ≡ e
same_case true q r s x y z w e f g h k = f refl
same_case false true r s x y z w e f g h k = g refl
same_case false false true s x y z w e f g h k = h refl
same_case false false false true x y z w e f g h k = k refl
same_case false false false false x y z w e f g h k = refl

here_same : (b : ℕ → ℕ) (i a : ℕ) → (i == a) ≡ true → b i ≡ b a
here_same b i a e = ap b (ground (arith, e))

save-load : (l : Line) (b : ℕ → ℕ) → save l (load l b) b ≡ b
save-load l b = fun_ext (λ a.
    same_case _ _ _ _ _ _ _ _ (b a) (here_same b l.start a) (here_same b (l.start + l.stride) a)
      (here_same b (l.start + 2 * l.stride) a) (here_same b (l.start + 3 * l.stride) a))

save-save : (l : Line) (u v : Vector) (b : ℕ → ℕ) → save l v (save l u b) ≡ save l v b
save-save l u v b = fun_ext (λ a. elim (Bool-cases (on l a)) [
  | inl p ↦ on_line l v (save l u b) b a p
  | inr p ↦ off_line l v (save l u b) a p ∙ off_line l u b a p ∙ sym (off_line l v b a p)
])

save_swap :
    (l k : Line) (u v : Vector) (b : ℕ → ℕ)
    → apart l k ≡ true
    → save l u (save k v b) ≡ save k v (save l u b)
save_swap l k u v b h = fun_ext (λ a. elim (Bool-cases (on l a)) [
  | inl p ↦ on_line l u (save k v b) b a p ∙ sym (off_line k v (save l u b) a (apart-on l k a h p))
  | inr p ↦ off_line l u (save k v b) a p ∙ elim (Bool-cases (on k a)) [
    | inl q ↦ on_line k v b (save l u b) a q
    | inr q ↦ off_line k v b a q ∙ sym (off_line l u b a p) ∙ sym (off_line k v (save l u b) a q)
  ]
])

undo : (width a b : ℕ) → a < 2 ^ width → b < 2 ^ width → add_word width (sub_word width a b) b ≡ a
unfolding add_word sub_word
undo width a b ha hb =
    let m = 2 ^ width in
    elim (Bool-cases (ltb a b)) [
      | inl less ↦
          let small : (a + (m - b)) % m ≡ a + (m - b) = mod-eq_of_lt (ground (arith, less, hb)) in
          rw (small) (
            ap (λ n. n % m) {x = a + (m - b) + b} {y = a + m} (ground (arith, hb))
            ∙ add-mod_right a m
            ∙ mod-eq_of_lt ha)
      | inr more ↦
          let small : (a + (m - b)) % m ≡ a - b =
            ap (λ n. n % m) {x = a + (m - b)} {y = a - b + m} (ground (arith, more, hb))
            ∙ add-mod_right (a - b) m
            ∙ mod-eq_of_lt (omega arith) in
          rw (small)
            (ap (λ n. n % m) {x = a - b + b} {y = a} (ground (arith, more)) ∙ mod-eq_of_lt ha)
    ]

word_small : (width n : ℕ) → n % 2 ^ width < 2 ^ width
word_small width n = mod-lt n (one-le-two-pow width)

IsSmall : ℕ → Vector → Type 0
IsSmall width (x, y, z, w) = (x < 2 ^ width) × (y < 2 ^ width) × (z < 2 ^ width) × (w < 2 ^ width)

inv_vector-fwd_vector :
    (width : ℕ) (v : Vector) → IsSmall width v → inv_vector width (fwd_vector width v) ≡ v
unfolding inv_vector fwd_vector IsSmall sub_word
inv_vector-fwd_vector width (x, y, z, w) (hx, hy, hz, hw) =
    let w₁ = sub_word width w z in
    let z₁ = sub_word width z y in
    let y₁ = sub_word width y x in
    let w₂ = sub_word width w₁ z₁ in
    let z₂ = sub_word width z₁ y₁ in
    let sw₁ : w₁ < 2 ^ width = word_small width _ in
    let sz₁ : z₁ < 2 ^ width = word_small width _ in
    let sy₁ : y₁ < 2 ^ width = word_small width _ in
    let sw₂ : w₂ < 2 ^ width = word_small width _ in
    let sz₂ : z₂ < 2 ^ width = word_small width _ in
    rw
      (
        undo width w₂ z₂ sw₂ sz₂,
        undo width z₁ y₁ sz₁ sy₁,
        undo width w₁ z₁ sw₁ sz₁,
        undo width y x hy hx,
        undo width z y hz hy,
        undo width w z hw hz,
      )
      refl

fwd_vector-IsSmall : (width : ℕ) (v : Vector) → IsSmall width v → IsSmall width (fwd_vector width v)
unfolding fwd_vector IsSmall sub_word
fwd_vector-IsSmall width (x, y, z, w) (hx, hy, hz, hw) =
    (hx, word_small width _, word_small width _, word_small width _)

-- All words of a block are of a width.
abbrev pub IsBlock : ℕ → (ℕ → ℕ) → Type 0
IsBlock width block = (a : ℕ) → block a < 2 ^ width

save-IsBlock :
    (width : ℕ) (l : Line) (v : Vector) (b : ℕ → ℕ)
    → IsSmall width v
    → IsBlock width b
    → IsBlock width (save l v b)
unfolding IsSmall
save-IsBlock width l (x, y, z, w) b (hx, hy, hz, hw) h a =
    below _ _ _ _ x y z w (b a) hx hy hz hw (h a)
  where
    below :
        (p q r s : Bool) (x y z w e : ℕ)
        → x < 2 ^ width
        → y < 2 ^ width
        → z < 2 ^ width
        → w < 2 ^ width
        → e < 2 ^ width
        → (if p then x else if q then y else if r then z else if s then w else e) < 2 ^ width
    below true q r s x y z w e hx hy hz hw he = hx
    below false true r s x y z w e hx hy hz hw he = hy
    below false false true s x y z w e hx hy hz hw he = hz
    below false false false true x y z w e hx hy hz hw he = hw
    below false false false false x y z w e hx hy hz hw he = he

load-IsSmall : (width : ℕ) (l : Line) (b : ℕ → ℕ) → IsBlock width b → IsSmall width (load l b)
unfolding IsSmall
load-IsSmall width l b h = (h _, h _, h _, h _)

rev_fwd_lift-IsBlock :
    (width : ℕ) (l : Line) (b : ℕ → ℕ) → IsBlock width b → IsBlock width (rev_fwd_lift width l b)
unfolding rev_fwd_lift
rev_fwd_lift-IsBlock width l b h =
    save-IsBlock width l _ b (fwd_vector-IsSmall width _ (load-IsSmall width l b h)) h

rev_inv_lift-rev_fwd_lift :
    (width : ℕ) (l : Line) (b : ℕ → ℕ)
    → ltb 0 l.stride ≡ true
    → IsBlock width b
    → rev_inv_lift width l (rev_fwd_lift width l b) ≡ b
unfolding rev_inv_lift rev_fwd_lift
rev_inv_lift-rev_fwd_lift width l b some h =
    let v = fwd_vector width (load l b) in
    ap (λ u. save l (inv_vector width u) (save l v b)) (load-save l v b some)
    ∙ ap (λ u. save l u (save l v b))
        (inv_vector-fwd_vector width (load l b) (load-IsSmall width l b h))
    ∙ save-save l v (load l b) b
    ∙ save-load l b

lift_swap :
    (width : ℕ) (l k : Line) (b : ℕ → ℕ)
    → apart l k ≡ true
    → apart k l ≡ true
    → rev_inv_lift width l (rev_fwd_lift width k b) ≡ rev_fwd_lift width k (rev_inv_lift width l b)
unfolding rev_inv_lift rev_fwd_lift
lift_swap width l k b h h' =
    let v = fwd_vector width (load k b) in
    let u = inv_vector width (load l b) in
    ap (λ t. save l (inv_vector width t) (save k v b)) (load-apart l k v b h)
    ∙ save_swap l k u v b h
    ∙ ap (λ t. save k (fwd_vector width t) (save l u b)) (sym (load-apart k l u b h'))

-- Lines with a stride, no two of which meet.
abbrev pub apart_all : Line → List Line → Bool
apart_all l [] = true
apart_all l (k ∷ ks) = (apart l k && apart k l) && apart_all l ks

abbrev pub separate : List Line → Bool
separate [] = true
separate (l ∷ ls) = (ltb 0 l.stride && apart_all l ls) && separate ls

pub both : (p q : Bool) → p && q ≡ true → (p ≡ true) × (q ≡ true)
both true q h = (refl, h)
both false q h = cc

lifts_swap :
    (width : ℕ) (l : Line) (ls : List Line) (b : ℕ → ℕ)
    → apart_all l ls ≡ true
    → rev_inv_lift width l (lifts (rev_fwd_lift width) ls b)
      ≡ lifts (rev_fwd_lift width) ls (rev_inv_lift width l b)
unfolding lifts
lifts_swap width l [] b h = refl
lifts_swap width l (k ∷ ks) b h =
    let (here, there) = both _ _ h in
    let (lk, kl) = both _ _ here in
    lifts_swap width l ks (rev_fwd_lift width k b) there
    ∙ ap (lifts (rev_fwd_lift width) ks) (lift_swap width l k b lk kl)

pub lifts-IsBlock :
    (width : ℕ) (ls : List Line) (b : ℕ → ℕ)
    → IsBlock width b
    → IsBlock width (lifts (rev_fwd_lift width) ls b)
unfolding lifts
lifts-IsBlock width [] b h = h
lifts-IsBlock width (l ∷ ls) b h =
    lifts-IsBlock width ls (rev_fwd_lift width l b) (rev_fwd_lift-IsBlock width l b h)

lifts_undo :
    (width : ℕ) (ls : List Line) (b : ℕ → ℕ)
    → separate ls ≡ true
    → IsBlock width b
    → lifts (rev_inv_lift width) ls (lifts (rev_fwd_lift width) ls b) ≡ b
unfolding lifts
lifts_undo width [] b h small = refl
lifts_undo width (l ∷ ls) b h small =
    let (here, there) = both _ _ h in
    let (some, others) = both _ _ here in
    ap (lifts (rev_inv_lift width) ls) (
      lifts_swap width l ls (rev_fwd_lift width l b) others
      ∙ ap (lifts (rev_fwd_lift width) ls) (rev_inv_lift-rev_fwd_lift width l b some small))
    ∙ lifts_undo width ls b there small

-- The reversible inverse transform of a line gives back the words before the forward transform.
pub rev_inv_xform1-rev_fwd_xform1 :
    (width : ℕ) (block : ℕ → ℕ)
    → IsBlock width block
    → rev_inv_xform1 width (rev_fwd_xform1 width block) ≡ block
unfolding rev_inv_xform1 rev_fwd_xform1 apart
rev_inv_xform1-rev_fwd_xform1 width block h = lifts_undo width (one 0 1) block refl h

-- The reversible inverse transform of a block of two dimensions gives back the words before the
-- forward transform.
pub rev_inv_xform2-rev_fwd_xform2 :
    (width : ℕ) (block : ℕ → ℕ)
    → IsBlock width block
    → rev_inv_xform2 width (rev_fwd_xform2 width block) ≡ block
unfolding rev_inv_xform2 rev_fwd_xform2 apart
rev_inv_xform2-rev_fwd_xform2 width block h =
    let x = lifts (rev_fwd_lift width) lines_x2 block in
    ap (lifts (rev_inv_lift width) lines_x2)
      (lifts_undo width lines_y2 x refl (lifts-IsBlock width lines_x2 block h))
    ∙ lifts_undo width lines_x2 block refl h

-- The reversible inverse transform of a block of three dimensions gives back the words before the
-- forward transform.
pub rev_inv_xform3-rev_fwd_xform3 :
    (width : ℕ) (block : ℕ → ℕ)
    → IsBlock width block
    → rev_inv_xform3 width (rev_fwd_xform3 width block) ≡ block
unfolding rev_inv_xform3 rev_fwd_xform3 apart
rev_inv_xform3-rev_fwd_xform3 width block h =
    let x = lifts (rev_fwd_lift width) lines_x3 block in
    let y = lifts (rev_fwd_lift width) lines_y3 x in
    let hx = lifts-IsBlock width lines_x3 block h in
    ap (λ b. lifts (rev_inv_lift width) lines_x3 (lifts (rev_inv_lift width) lines_y3 b))
      (lifts_undo width lines_z3 y refl (lifts-IsBlock width lines_y3 x hx))
    ∙ ap (lifts (rev_inv_lift width) lines_x3) (lifts_undo width lines_y3 x refl hx)
    ∙ lifts_undo width lines_x3 block refl h

-- The reversible inverse transform of a block of four dimensions gives back the words before the
-- forward transform.
pub rev_inv_xform4-rev_fwd_xform4 :
    (width : ℕ) (block : ℕ → ℕ)
    → IsBlock width block
    → rev_inv_xform4 width (rev_fwd_xform4 width block) ≡ block
unfolding rev_inv_xform4 rev_fwd_xform4 apart
rev_inv_xform4-rev_fwd_xform4 width block h =
    let x = lifts (rev_fwd_lift width) lines_x4 block in
    let y = lifts (rev_fwd_lift width) lines_y4 x in
    let z = lifts (rev_fwd_lift width) lines_z4 y in
    let hx = lifts-IsBlock width lines_x4 block h in
    let hy = lifts-IsBlock width lines_y4 x hx in
    ap
      (λ b.
        lifts (rev_inv_lift width) lines_x4
          (lifts (rev_inv_lift width) lines_y4 (lifts (rev_inv_lift width) lines_z4 b)))
      (lifts_undo width lines_w4 z refl (lifts-IsBlock width lines_z4 y hy))
    ∙ ap (λ b. lifts (rev_inv_lift width) lines_x4 (lifts (rev_inv_lift width) lines_y4 b))
        (lifts_undo width lines_z4 y refl hy)
    ∙ ap (lifts (rev_inv_lift width) lines_x4) (lifts_undo width lines_y4 x refl hx)
    ∙ lifts_undo width lines_x4 block refl h
