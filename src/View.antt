-- ===== src/View.antt =====
-- The arithmetic of the views of include/zfp/internal/array/view1.hpp to view4.hpp: the partition
-- of a `private_view` and the flat indices of a `flat_view`.
pub mod Partition
pub mod Flat
use zfp.Prelude.{ℕ, ◌+◌, ◌-◌, ◌*◌, ◌/◌, ◌%◌, ltb, if◌then◌else◌, min, max, u64}
use zfp.Prelude.{sub64}

-- `4 * (bmin + (bmax - bmin) * index / count)`, in `size_t`
unfoldable pub cut_at : ℕ → ℕ → ℕ → ℕ → ℕ
cut_at offset size index count =
    let bmin = offset / 4 in
    let bmax = u64 (offset + size + 3) / 4 in
    u64 (4 * u64 (bmin + u64 (sub64 bmax bmin * index) / count))

-- The offset and the size of piece `index` out of `count`.
unfoldable pub partition : ℕ → ℕ → ℕ → ℕ → ℕ × ℕ
partition offset size index count =
    let xmin = max (u64 (offset + 0)) (cut_at offset size (u64 (index + 0)) count) in
    let xmax = min (u64 (offset + size)) (cut_at offset size (u64 (index + 1)) count) in
    (xmin, sub64 xmax xmin)

-- A view of two to four dimensions: where it begins, and its size.
pub record View2 : Type 0 where
  pub x : ℕ
  pub y : ℕ
  pub nx : ℕ
  pub ny : ℕ

pub record View3 : Type 0 where
  pub x : ℕ
  pub y : ℕ
  pub z : ℕ
  pub nx : ℕ
  pub ny : ℕ
  pub nz : ℕ

pub record View4 : Type 0 where
  pub x : ℕ
  pub y : ℕ
  pub z : ℕ
  pub w : ℕ
  pub nx : ℕ
  pub ny : ℕ
  pub nz : ℕ
  pub nw : ℕ

unfoldable pub partition2 : View2 → ℕ → ℕ → View2
partition2 v index count =
    if ltb v.ny v.nx
    then (let (x, nx) = partition v.x v.nx index count in record v { x = x; nx = nx })
    else (let (y, ny) = partition v.y v.ny index count in record v { y = y; ny = ny })

unfoldable pub partition3 : View3 → ℕ → ℕ → View3
partition3 v index count =
    if ltb (max v.ny v.nz) v.nx
    then (let (x, nx) = partition v.x v.nx index count in record v { x = x; nx = nx })
    else if ltb (max v.nx v.nz) v.ny
    then (let (y, ny) = partition v.y v.ny index count in record v { y = y; ny = ny })
    else (let (z, nz) = partition v.z v.nz index count in record v { z = z; nz = nz })

unfoldable pub partition4 : View4 → ℕ → ℕ → View4
partition4 v index count =
    if ltb (max v.nz v.nw) (max v.nx v.ny)
    then (if ltb v.ny v.nx
        then (let (x, nx) = partition v.x v.nx index count in record v { x = x; nx = nx })
        else (let (y, ny) = partition v.y v.ny index count in record v { y = y; ny = ny }))
    else (if ltb v.nw v.nz
        then (let (z, nz) = partition v.z v.nz index count in record v { z = z; nz = nz })
        else (let (w, nw) = partition v.w v.nw index count in record v { w = w; nw = nw }))

-- `flat_view::index`, and `ij`, `ijk` and `ijkl`.
unfoldable pub index2 : View2 → ℕ → ℕ → ℕ
index2 v i j = u64 (i + u64 (v.nx * j))

unfoldable pub ij : View2 → ℕ → ℕ × ℕ
ij v index = (index % v.nx, index / v.nx)

unfoldable pub index3 : View3 → ℕ → ℕ → ℕ → ℕ
index3 v i j k = u64 (i + u64 (v.nx * u64 (j + u64 (v.ny * k))))

unfoldable pub ijk : View3 → ℕ → ℕ × ℕ × ℕ
ijk v index = (index % v.nx, index / v.nx % v.ny, index / v.nx / v.ny)

unfoldable pub index4 : View4 → ℕ → ℕ → ℕ → ℕ → ℕ
index4 v i j k l = u64 (i + u64 (v.nx * u64 (j + u64 (v.ny * u64 (k + u64 (v.nz * l))))))

unfoldable pub ijkl : View4 → ℕ → ℕ × ℕ × ℕ × ℕ
ijkl v index =
    (index % v.nx, index / v.nx % v.ny, index / v.nx / v.ny % v.nz, index / v.nx / v.ny / v.nz)
