-- ===== src/Transform/Lines.antt =====
-- The lines of a block: what a lift of one line does to another.
use zfp.Prelude.{
  ℕ, ◌+◌, ◌*◌, ◌≡◌, refl, arith, Bool, true, false, not, ◌&&◌, ◌||◌, ◌==◌, if◌then◌else◌,
  Bool-cases, inl, inr,
}
use mathlib.Core.Path.{subst}
use zfp.Transform.{Line, Vector, save}

abbrev pub on : Line → ℕ → Bool
on l a =
    (l.start == a)
    || ((l.start + l.stride == a)
        || ((l.start + 2 * l.stride == a) || (l.start + 3 * l.stride == a)))

-- Whether no place of the first line is on the second.
unfoldable pub apart : Line → Line → Bool
apart l k =
    not (on k l.start)
    && (not (on k (l.start + l.stride))
        && (not (on k (l.start + 2 * l.stride)) && not (on k (l.start + 3 * l.stride))))

no_case :
    (p q r s : Bool) (x y z w e : ℕ)
    → p || (q || (r || s)) ≡ false
    → (if p then x else if q then y else if r then z else if s then w else e) ≡ e
no_case true q r s x y z w e h = cc
no_case false true r s x y z w e h = cc
no_case false false true s x y z w e h = cc
no_case false false false true x y z w e h = cc
no_case false false false false x y z w e h = refl

some_case :
    (p q r s : Bool) (x y z w d e : ℕ)
    → p || (q || (r || s)) ≡ true
    → (if p then x else if q then y else if r then z else if s then w else d)
      ≡ (if p then x else if q then y else if r then z else if s then w else e)
some_case true q r s x y z w d e h = refl
some_case false true r s x y z w d e h = refl
some_case false false true s x y z w d e h = refl
some_case false false false true x y z w d e h = refl
some_case false false false false x y z w d e h = cc

pub off_line :
    (l : Line) (v : Vector) (block : ℕ → ℕ) (a : ℕ) → on l a ≡ false → save l v block a ≡ block a
off_line l (x, y, z, w) block a h = no_case _ _ _ _ x y z w (block a) h

pub on_line :
    (l : Line) (v : Vector) (b c : ℕ → ℕ) (a : ℕ) → on l a ≡ true → save l v b a ≡ save l v c a
on_line l (x, y, z, w) b c a h = some_case _ _ _ _ x y z w (b a) (c a) h

pub four :
    (P : ℕ → Type 0) (p q r s : ℕ) (a : ℕ)
    → P p
    → P q
    → P r
    → P s
    → (p == a) || ((q == a) || ((r == a) || (s == a))) ≡ true
    → P a
four P p q r s a hp hq hr hs h = elim (Bool-cases (p == a)) [
  | inl e ↦ subst P (ground (arith, e)) hp
  | inr e ↦ elim (Bool-cases (q == a)) [
    | inl f ↦ subst P (ground (arith, f)) hq
    | inr f ↦ elim (Bool-cases (r == a)) [
      | inl g ↦ subst P (ground (arith, g)) hr
      | inr g ↦ subst P (ground (arith, h, e, f, g)) hs
    ]
  ]
]

pub all_parts :
    (p q r s : Bool)
    → not p && (not q && (not r && not s)) ≡ true
    → (p ≡ false) × (q ≡ false) × (r ≡ false) × (s ≡ false)
all_parts false false false false h = (refl, refl, refl, refl)
all_parts true q r s h = cc
all_parts false true r s h = cc
all_parts false false true s h = cc
all_parts false false false true h = cc

pub apart-on : (l k : Line) (a : ℕ) → apart l k ≡ true → on l a ≡ true → on k a ≡ false
unfolding apart
apart-on l k a h p =
    let (u₀, u₁, u₂, u₃) = all_parts _ _ _ _ h in four (λ b. on k b ≡ false) _ _ _ _ a u₀ u₁ u₂ u₃ p
