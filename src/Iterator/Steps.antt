-- ===== src/Iterator/Steps.antt =====
-- A step forward and a step back.
use zfp.Prelude.{
  ℕ, ◌+◌, ◌%◌, ◌^◌, ◌≤◌, ◌<◌, ◌≡◌, ◌≢◌, ◌⊎◌, refl, ap, ◌∙◌, arith, true, false, ◌==◌, ◌||◌, leb,
  min, max, u64, Bool-cases, inl, inr,
}
use zfp.Prelude.{sub64}
use zfp.Iterator.{Range, increment, decrement, aligned}

pub record IsInside (r : Range) (x y : ℕ) : Type 0 where
  pub left : r.xmin ≤ x
  pub right : x < r.xmax
  pub below : r.ymin ≤ y
  pub above : y < r.ymax
  pub narrow : r.xmax < 2 ^ 63
  pub low : r.ymax < 2 ^ 63

at_edge : (a b m : ℕ) → (a ≡ 0) ⊎ (b ≡ m) → (a == 0 || b == m) ≡ true
at_edge a b m h = ground (arith, h)

no_edge : (a b m : ℕ) → a ≢ 0 → b ≢ m → (a == 0 || b == m) ≡ false
no_edge a b m p q = ground (arith, p, q)

edge_true : (a b m : ℕ) → (a == 0 || b == m) ≡ true → (a ≡ 0) ⊎ (b ≡ m)
edge_true a b m h = ground (arith, h)

edge_false : (a b m : ℕ) → (a == 0 || b == m) ≡ false → (a ≢ 0) × (b ≢ m)
edge_false a b m h = (ground (arith, h), ground (arith, h))

-- A step back inside a line of a block.
back_in_line :
    (r : Range) (x y : ℕ) → IsInside r x y → (x + 1) % 4 ≢ 0 → decrement r (x + 1) y ≡ (x, y)
unfolding decrement
back_in_line r x y h inner =
    let not_end : (y == r.ymax) ≡ false = ground (arith, h.above) in
    let not_edge = no_edge ((x + 1) % 4) (x + 1) r.xmin inner (omega (arith, h.left)) in
    rw (not_end, not_edge)
      (ap (λ a. (a, y)) {x = sub64 (x + 1) 1} {y = x} (omega (arith, h.right, h.narrow)))

-- A step back to the line before in a block; the line is entered at x₂.
back_to_line :
    (r : Range) (x x₂ y : ℕ)
    → IsInside r x y
    → (x₂ % 4 ≡ 0) ⊎ (x₂ ≡ r.xmin)
    → min (aligned (u64 (x₂ + 4))) r.xmax ≡ x + 1
    → (y + 1) % 4 ≢ 0
    → y + 1 ≢ r.ymax
    → decrement r x₂ (y + 1) ≡ (x, y)
unfolding decrement
back_to_line r x x₂ y h entered right inner more =
    let not_end : (y + 1 == r.ymax) ≡ false = ground (arith, more) in
    let edge = at_edge (x₂ % 4) x₂ r.xmin entered in
    let not_edge = no_edge ((y + 1) % 4) (y + 1) r.ymin inner (omega (arith, h.below)) in
    rw (not_end, edge, not_edge, right)
      (ap (λ a. (a, sub64 (y + 1) 1)) {x = sub64 (x + 1) 1} {y = x}
          (omega (arith, h.right, h.narrow))
        ∙ ap (λ b. (x, b)) {x = sub64 (y + 1) 1} {y = y} (omega (arith, h.above, h.low)))

-- A step back to the block before, entered at its upper end.
back_to_block :
    (r : Range) (x y y₂ : ℕ)
    → IsInside r x y
    → (x + 1) % 4 ≡ 0
    → x + 1 < r.xmax
    → y₂ < r.ymax
    → (y₂ % 4 ≡ 0) ⊎ (y₂ ≡ r.ymin)
    → min (aligned (u64 (y₂ + 4))) r.ymax ≡ y + 1
    → decrement r (x + 1) y₂ ≡ (x, y)
unfolding decrement
back_to_block r x y y₂ h start more inner entered top =
    let not_end : (y₂ == r.ymax) ≡ false = ground (arith, inner) in
    let edge = at_edge ((x + 1) % 4) (x + 1) r.xmin (inl start) in
    let edge_y = at_edge (y₂ % 4) y₂ r.ymin entered in
    let x₂ : aligned (sub64 (min (aligned (u64 (x + 1 + 4))) r.xmax) 1) ≡ x + 1 =
      omega (arith, start, more, h.narrow) in
    let not_left : leb (x + 1) r.xmin ≡ false = ground (arith, h.left) in
    rw (not_end, edge, edge_y, x₂, not_left, top)
      (ap (λ a. (a, sub64 (y + 1) 1)) {x = sub64 (x + 1) 1} {y = x}
          (omega (arith, h.right, h.narrow))
        ∙ ap (λ b. (x, b)) {x = sub64 (y + 1) 1} {y = y} (omega (arith, h.above, h.low)))

-- A step back from the first block of a row of blocks to the last one of the row before.
back_to_row :
    (r : Range) (x y : ℕ)
    → IsInside r x y
    → x + 1 ≡ r.xmax
    → (y + 1) % 4 ≡ 0
    → y + 1 < r.ymax
    → decrement r r.xmin (y + 1) ≡ (x, y)
unfolding decrement
back_to_row r x y h right start more =
    let not_end : (y + 1 == r.ymax) ≡ false = ground (arith, more) in
    let edge = at_edge (r.xmin % 4) r.xmin r.xmin (inr refl) in
    let edge_y = at_edge ((y + 1) % 4) (y + 1) r.ymin (inl start) in
    let left : leb (aligned (sub64 (min (aligned (u64 (r.xmin + 4))) r.xmax) 1)) r.xmin ≡ true =
      ground (arith, h.left, right, h.narrow) in
    let y₂ : aligned (sub64 (min (aligned (u64 (y + 1 + 4))) r.ymax) 1) ≡ y + 1 =
      omega (arith, start, more, h.low) in
    let not_first : leb (y + 1) r.ymin ≡ false = ground (arith, h.below) in
    rw (not_end, edge, edge_y, left, y₂, not_first)
      (ap (λ a. (a, sub64 (y + 1) 1)) {x = sub64 r.xmax 1} {y = x} (omega (arith, right, h.narrow))
        ∙ ap (λ b. (x, b)) {x = sub64 (y + 1) 1} {y = y} (omega (arith, h.above, h.low)))

-- A step back from the end.
back_from_end :
    (r : Range) (x y : ℕ)
    → IsInside r x y
    → x + 1 ≡ r.xmax
    → y + 1 ≡ r.ymax
    → decrement r r.xmin r.ymax ≡ (x, y)
unfolding decrement
back_from_end r x y h right top =
    let end : (r.ymax == r.ymax) ≡ true = ground arith in
    rw end (
      ap (λ a. (a, sub64 r.ymax 1)) {x = sub64 r.xmax 1} {y = x} (omega (arith, right, h.narrow))
      ∙ ap (λ b. (x, b)) {x = sub64 r.ymax 1} {y = y} (omega (arith, top, h.low)))

-- A step back after a step forward from an element leads to the same element, wherever the array or
-- view begins and ends in its blocks, if it ends below 2^63 along both axes.
pub decrement-increment :
    (r : Range) (x y : ℕ)
    → IsInside r x y
    → decrement r (increment r x y).0 (increment r x y).1 ≡ (x, y)
unfolding increment
decrement-increment r x y h =
    let next_x : u64 (x + 1) ≡ x + 1 = omega (arith, h.right, h.narrow) in
    let next_y : u64 (y + 1) ≡ y + 1 = omega (arith, h.above, h.low) in
    let same_x : sub64 (x + 1) 1 ≡ x = omega (arith, h.right, h.narrow) in
    let same_y : sub64 (y + 1) 1 ≡ y = omega (arith, h.above, h.low) in
    let x₂ = max (aligned x) r.xmin in
    let y₂ = max (aligned y) r.ymin in
    let entered_x : (x₂ % 4 ≡ 0) ⊎ (x₂ ≡ r.xmin) = ground arith in
    let entered_y : (y₂ % 4 ≡ 0) ⊎ (y₂ ≡ r.ymin) = ground arith in
    elim (Bool-cases ((x + 1) % 4 == 0 || x + 1 == r.xmax)) [
      | inr inner ↦
          let (start, last) = edge_false ((x + 1) % 4) (x + 1) r.xmax inner in
          rw (next_x, inner) (back_in_line r x y h start)
      | inl right ↦
          let right' = edge_true ((x + 1) % 4) (x + 1) r.xmax right in
          let stop : min (aligned (u64 (x₂ + 4))) r.xmax ≡ x + 1 = elim right' [
            | inl start ↦ omega (arith, start, h.left, h.right, h.narrow)
            | inr last ↦ omega (arith, last, h.left, h.right, h.narrow)
          ] in
          elim (Bool-cases ((y + 1) % 4 == 0 || y + 1 == r.ymax)) [
            | inr inner ↦
                let (start, last) = edge_false ((y + 1) % 4) (y + 1) r.ymax inner in
                rw (next_x, right, same_x, next_y, inner)
                  (back_to_line r x x₂ y h entered_x stop start last)
            | inl top ↦
                let top' = edge_true ((y + 1) % 4) (y + 1) r.ymax top in
                let stop_y : min (aligned (u64 (y₂ + 4))) r.ymax ≡ y + 1 = elim top' [
                  | inl start ↦ omega (arith, start, h.below, h.above, h.low)
                  | inr last ↦ omega (arith, last, h.below, h.above, h.low)
                ] in
                elim (Bool-cases (leb r.xmax (aligned (u64 (x₂ + 4))))) [
                  | inr more ↦
                      let here : aligned (u64 (x₂ + 4)) ≡ x + 1 = ground (arith, more, stop) in
                      let inside : x + 1 < r.xmax = ground (arith, more, stop) in
                      rw (next_x, right, same_x, next_y, top, same_y, more, here)
                        (back_to_block r x y y₂ h (omega (arith, here)) inside
                          (omega (arith, h.below, h.above)) entered_y stop_y)
                  | inl done ↦
                      let last : x + 1 ≡ r.xmax = ground (arith, done, stop) in
                      elim (Bool-cases (leb r.ymax (aligned (u64 (y₂ + 4))))) [
                        | inl end ↦
                            rw (next_x, right, same_x, next_y, top, same_y, done, end)
                              (back_from_end r x y h last (ground (arith, end, stop_y)))
                        | inr rest ↦
                            let here : aligned (u64 (y₂ + 4)) ≡ y + 1 =
                              ground (arith, rest, stop_y) in
                            rw (next_x, right, same_x, next_y, top, same_y, done, rest, here)
                              (back_to_row r x y h last (omega (arith, here))
                                (ground (arith, rest, stop_y)))
                      ]
                ]
          ]
    ]
