-- ===== src/Iterator.antt =====
-- The traversal of a two-dimensional array or view block by block, of
-- include/zfp/internal/array/iterator2.hpp.
pub mod Steps
use zfp.Prelude.{ℕ, ◌+◌, ◌-◌, ◌*◌, ◌/◌, ◌%◌, ◌==◌, ◌||◌, leb, if◌then◌else◌, min, max, u64}
use zfp.Prelude.{sub64}

-- `min_x`, `max_x`, `min_y` and `max_y` of the container.
pub record Range : Type 0 where
  pub xmin : ℕ
  pub xmax : ℕ
  pub ymin : ℕ
  pub ymax : ℕ

-- `x & m`
abbrev pub aligned : ℕ → ℕ
aligned x = x / 4 * 4

unfoldable pub increment : Range → ℕ → ℕ → ℕ × ℕ
increment r x y =
    let x₁ = u64 (x + 1) in
    if x₁ % 4 == 0 || x₁ == r.xmax
    then (let x₂ = max (aligned (sub64 x₁ 1)) r.xmin in
        let y₁ = u64 (y + 1) in
        if y₁ % 4 == 0 || y₁ == r.ymax
        then (let y₂ = max (aligned (sub64 y₁ 1)) r.ymin in
            let x₃ = aligned (u64 (x₂ + 4)) in
            if leb r.xmax x₃
            then (let y₃ = aligned (u64 (y₂ + 4)) in (r.xmin, if leb r.ymax y₃ then r.ymax else y₃))
            else (x₃, y₂))
        else (x₂, y₁))
    else (x₁, y)

unfoldable pub decrement : Range → ℕ → ℕ → ℕ × ℕ
decrement r x y =
    if y == r.ymax
    then (sub64 r.xmax 1, sub64 r.ymax 1)
    else if x % 4 == 0 || x == r.xmin
    then (let x₁ = min (aligned (u64 (x + 4))) r.xmax in
        if y % 4 == 0 || y == r.ymin
        then (let y₁ = min (aligned (u64 (y + 4))) r.ymax in
            let x₂ = aligned (sub64 x₁ 1) in
            if leb x₂ r.xmin
            then (let y₂ = aligned (sub64 y₁ 1) in
                (sub64 r.xmax 1, sub64 (if leb y₂ r.ymin then r.ymin else y₂) 1))
            else (sub64 x₂ 1, sub64 y₁ 1))
        else (sub64 x₁ 1, sub64 y 1))
    else (sub64 x 1, y)
