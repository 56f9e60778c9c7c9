-- ===== src/Codec/Contiguous.antt =====
-- The loop nests on a contiguous block: strides 1, 4, 16 and 64. They reach exactly the positions
-- of the partial block.
use zfp.Prelude.{ℕ, zero, suc, ◌+◌, ◌-◌, ◌*◌, ◌%◌, ◌^◌, ◌≤◌, ◌<◌, ◌≡◌, refl, arith, ap, u64, sub64}
use zfp.Prelude.{
  Bool, true, false, ◌&&◌, ◌==◌, ltb, leb, if◌then◌else◌, ◌||◌, ◌∙◌, Bool-cases, inl, inr,
}
use zfp.Codec.Loops.{Cursor, copy_x, copy_y, copy_z, copy_w}

-- The positions from `p` on that a nest reaches.
abbrev pub row : ℕ → ℕ → ℕ → Bool
row nx p r = leb p r && ltb (r - p) nx

abbrev pub plane : ℕ → ℕ → ℕ → ℕ → Bool
plane ny nx p r = leb p r && (ltb (r - p) (4 * ny) && ltb ((r - p) % 4) nx)

abbrev pub box : ℕ → ℕ → ℕ → ℕ → ℕ → Bool
box nz ny nx p r =
    leb p r && (ltb (r - p) (16 * nz) && (ltb ((r - p) % 16) (4 * ny) && ltb ((r - p) % 4) nx))

abbrev pub hyperbox : ℕ → ℕ → ℕ → ℕ → ℕ → ℕ → Bool
hyperbox nw nz ny nx p r =
    leb p r
    && (ltb (r - p) (64 * nw)
        && (ltb ((r - p) % 64) (16 * nz) && (ltb ((r - p) % 16) (4 * ny) && ltb ((r - p) % 4) nx)))

or_false : (b : Bool) → b || false ≡ b
or_false true = refl
or_false false = refl

-- A hyperbox is its rest and its first box.
hyperbox-suc :
    (n nz ny nx p r : ℕ)
    → nz ≤ 4
    → hyperbox n nz ny nx (p + 64) r || box nz ny nx p r ≡ hyperbox (suc n) nz ny nx p r
hyperbox-suc n nz ny nx p r hz = elim (Bool-cases (leb (p + 64) r)) [
  | inl past ↦
      let inside : leb p r ≡ true = ground arith in
      let beyond : ltb (r - p) (16 * nz) ≡ false = ground arith in
      let rest : ltb (r - p) (64 * suc n) ≡ ltb (r - (p + 64)) (64 * n) = ground arith in
      let w : (r - p) % 64 ≡ (r - (p + 64)) % 64 = ground arith in
      let z : (r - p) % 16 ≡ (r - (p + 64)) % 16 = ground arith in
      let y : (r - p) % 4 ≡ (r - (p + 64)) % 4 = ground arith in
      rw (past, inside, beyond, rest, w, z, y) (or_false _)
  | inr here ↦ elim (Bool-cases (leb p r)) [
    | inl inside ↦
        let below : ltb (r - p) (64 * suc n) ≡ true = ground arith in
        let w : (r - p) % 64 ≡ r - p = ground arith in rw (here, inside, below, w) refl
    | inr before ↦ rw (here, before) refl
  ]
]

joined :
    {A : Type 0} (g h h' : Bool) (x y : A)
    → (if g && h then x else (if g && h' then x else y)) ≡ (if g && (h || h') then x else y)
joined true true h' x y = refl
joined true false h' x y = refl
joined false h h' x y = refl

-- The block begins at `base` in the contiguous storage; `c` is where the written storage begins,
-- and `v p` is what the body assigns at position `p`.
module _ {A : Type 0} (body : ℕ → ℕ → (ℕ → A) → (ℕ → A)) (base c : ℕ) (v : ℕ → A)
    (assigns : (p : ℕ) (m : ℕ → A) (a : ℕ)
      → body p (base + p) m a ≡ (if c + p == a then v p else m a))
    (base_small : base < 2 ^ 62) where
  -- The cursor `r` is at position `p` after a nest on `m` has reached the positions `hit`.
  pub record Copied (hit : ℕ → Bool) (p : ℕ) (m : ℕ → A) (r : Cursor (ℕ → A)) : Type 0 where
    pub at_p : r.p ≡ p
    pub at_q : r.q ≡ base + p
    pub values : (a : ℕ) → r.memory a ≡ (if leb c a && hit (a - c) then v (a - c) else m a)

  abbrev pub start : ℕ → (ℕ → A) → Cursor (ℕ → A)
  start p m = record { p = p; q = base + p; memory = m }

  wrap : {a : ℕ} → a < 2 ^ 63 → u64 a ≡ a
  wrap p = omega arith

  step : (p n : ℕ) → p + n < 2 ^ 62 → u64 (base + p + n) ≡ base + (p + n)
  step p n small = omega arith

  pub copy_x-Copied :
      (nx p : ℕ) (m : ℕ → A)
      → p + nx < 2 ^ 62
      → Copied (row nx p) (p + nx) m (copy_x body nx 1 (start p m))
  unfolding copy_x
  copy_x-Copied zero p m small = record {
    at_p = omega arith;
    at_q = omega arith;
    values = λ a. ground arith;
  }
  copy_x-Copied (suc n) p m small =
      rw (wrap {a = p + 1} (omega arith), step p 1 (omega arith))
        (let m' = body p (base + p) m in
          let r = copy_x-Copied n (p + 1) m' (omega arith) in
          record {
            at_p = omega (arith, r.at_p);
            at_q = omega (arith, r.at_q);
            values = λ a. ground (arith, r.values a, assigns p m a);
          })

  pub copy_y-Copied :
      (ny nx p : ℕ) (m : ℕ → A)
      → nx ≤ 4
      → p + 4 * ny < 2 ^ 62
      → Copied (plane ny nx p) (p + 4 * ny) m (copy_y body ny nx 1 4 (start p m))
  unfolding copy_y
  copy_y-Copied zero nx p m four small = record {
    at_p = omega arith;
    at_q = omega arith;
    values = λ a. ground arith;
  }
  copy_y-Copied (suc n) nx p m four small =
      let c' = copy_x body nx 1 (start p m) in
      let inner = copy_x-Copied nx p m (omega arith) in
      let p' : u64 (c'.p + sub64 4 (u64 (nx * 1))) ≡ p + 4 = omega (arith, inner.at_p) in
      let q' : u64 (c'.q + sub64 4 nx) ≡ base + (p + 4) = omega (arith, inner.at_q) in
      rw (p', q')
        (let r = copy_y-Copied n nx (p + 4) c'.memory four (omega arith) in
          record {
            at_p = omega (arith, r.at_p);
            at_q = omega (arith, r.at_q);
            values = λ a. ground (arith, r.values a, inner.values a);
          })

  pub copy_z-Copied :
      (nz ny nx p : ℕ) (m : ℕ → A)
      → nx ≤ 4
      → ny ≤ 4
      → p + 16 * nz < 2 ^ 62
      → Copied (box nz ny nx p) (p + 16 * nz) m (copy_z body nz ny nx 1 4 16 (start p m))
  unfolding copy_z
  copy_z-Copied zero ny nx p m hx hy small = record {
    at_p = omega arith;
    at_q = omega arith;
    values = λ a. ground arith;
  }
  copy_z-Copied (suc n) ny nx p m hx hy small =
      let c' = copy_y body ny nx 1 4 (start p m) in
      let inner = copy_y-Copied ny nx p m hx (omega arith) in
      let p' : u64 (c'.p + sub64 16 (u64 (ny * 4))) ≡ p + 16 = omega (arith, inner.at_p) in
      let q' : u64 (c'.q + sub64 16 (4 * ny)) ≡ base + (p + 16) = omega (arith, inner.at_q) in
      rw (p', q')
        (let r = copy_z-Copied n ny nx (p + 16) c'.memory hx hy (omega arith) in
          record {
            at_p = omega (arith, r.at_p);
            at_q = omega (arith, r.at_q);
            values = λ a. ground (arith, r.values a, inner.values a);
          })

  pub copy_w-Copied :
      (nw nz ny nx p : ℕ) (m : ℕ → A)
      → nx ≤ 4
      → ny ≤ 4
      → nz ≤ 4
      → p + 64 * nw < 2 ^ 62
      → Copied
          (hyperbox nw nz ny nx p)
          (p + 64 * nw)
          m
          (copy_w body nw nz ny nx 1 4 16 64 (start p m))
  unfolding copy_w
  copy_w-Copied zero nz ny nx p m hx hy hz small = record {
    at_p = omega arith;
    at_q = omega arith;
    values = λ a. ground arith;
  }
  copy_w-Copied (suc n) nz ny nx p m hx hy hz small =
      let c' = copy_z body nz ny nx 1 4 16 (start p m) in
      let inner = copy_z-Copied nz ny nx p m hx hy (omega arith) in
      let p' : u64 (c'.p + sub64 64 (u64 (nz * 16))) ≡ p + 64 = omega (arith, inner.at_p) in
      let q' : u64 (c'.q + sub64 64 (16 * nz)) ≡ base + (p + 64) = omega (arith, inner.at_q) in
      rw (p', q')
        (let r = copy_w-Copied n nz ny nx (p + 64) c'.memory hx hy hz (omega arith) in
          record {
            at_p = omega (arith, r.at_p);
            at_q = omega (arith, r.at_q);
            values = λ a.
                r.values a
                ∙ ap
                    (λ m'.
                      if leb c a && hyperbox n nz ny nx (p + 64) (a - c) then v (a - c) else m')
                    (inner.values a)
                ∙ joined (leb c a) (hyperbox n nz ny nx (p + 64) (a - c)) (box nz ny nx p (a - c))
                    (v (a - c)) (m a)
                ∙ ap (λ t. if leb c a && t then v (a - c) else m a)
                    (hyperbox-suc n nz ny nx p (a - c) hz);
          })
