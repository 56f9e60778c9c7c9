-- ===== src/View/Flat.antt =====
-- A flat index stands for one element of a view.
use zfp.Prelude.{ℕ, ◌+◌, ◌*◌, ◌/◌, ◌%◌, ◌^◌, ◌≤◌, ◌<◌, ◌≡◌, refl, arith, u64}
use native.Mathlib.Nat.{mul-le-mul_left, mul-le-mul_right, mul-add, mul-one}
use zfp.Prelude.Powers.{high_part, low_part}
use zfp.View.{View3, View4, index3, ijk, index4, ijkl}

-- One step of a mixed radix number, i below n and m below `most`.
record Step (n i m most : ℕ) : Type 0 where
  value : u64 (i + u64 (n * m)) ≡ i + n * m
  low : (i + n * m) % n ≡ i
  high : (i + n * m) / n ≡ m
  fits : i + n * m < n * most

step : (n i m most : ℕ) → i < n → m < most → n * most < 2 ^ 64 → Step n i m most
step n i m most digit rest small =
    let bound : n * (m + 1) ≤ n * most = mul-le-mul_left {m = m + 1} {n = most} n (omega arith) in
    let fits : i + n * m < n * most = omega (arith, bound, digit, mul-add n m 1, mul-one n) in
    record {
      value = omega (arith, fits, small);
      low = low_part n m i digit;
      high = high_part n m i digit;
      fits = fits;
    }

factor : (n rest i : ℕ) → i < n → n * rest < 2 ^ 64 → rest < 2 ^ 64
factor n rest i some small =
    omega (arith, mul-le-mul_right {m = 1} {n = n} rest (omega (arith, some)), small)

-- `ijk` gives back the indices of the flat index of an element of a three-dimensional view that
-- has fewer than 2^64 elements.
ijk-index3 :
    (v : View3) (i j k : ℕ)
    → i < v.nx
    → j < v.ny
    → k < v.nz
    → v.nx * (v.ny * v.nz) < 2 ^ 64
    → ijk v (index3 v i j k) ≡ (i, j, k)
unfolding ijk index3
ijk-index3 v i j k hi hj hk all =
    let s = step v.ny j k v.nz hj hk (factor v.nx (v.ny * v.nz) i hi all) in
    let t = step v.nx i (j + v.ny * k) (v.ny * v.nz) hi s.fits all in
    rw (s.value, t.value, t.low, t.high, s.low, s.high) refl

-- `ijkl` gives back the indices of the flat index of an element of a four-dimensional view that
-- has fewer than 2^64 elements.
pub ijkl-index4 :
    (v : View4) (i j k l : ℕ)
    → i < v.nx
    → j < v.ny
    → k < v.nz
    → l < v.nw
    → v.nx * (v.ny * (v.nz * v.nw)) < 2 ^ 64
    → ijkl v (index4 v i j k l) ≡ (i, j, k, l)
unfolding ijkl index4
ijkl-index4 v i j k l hi hj hk hl all =
    let small : v.ny * (v.nz * v.nw) < 2 ^ 64 = factor v.nx (v.ny * (v.nz * v.nw)) i hi all in
    let smaller : v.nz * v.nw < 2 ^ 64 = factor v.ny (v.nz * v.nw) j hj small in
    let s = step v.nz k l v.nw hk hl smaller in
    let t = step v.ny j (k + v.nz * l) (v.nz * v.nw) hj s.fits small in
    let u = step v.nx i (j + v.ny * (k + v.nz * l)) (v.ny * (v.nz * v.nw)) hi t.fits all in
    rw (s.value, t.value, u.value, u.low, u.high, t.low, t.high, s.low, s.high) refl
