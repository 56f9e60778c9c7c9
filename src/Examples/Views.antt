-- ===== src/Examples/Views.antt =====
-- Pieces and flat indices of views, and steps of an iterator.
use zfp.Prelude.{ℕ, suc, ◌-◌, ◌%◌, ◌^◌, ◌+◌, ◌≤◌, ◌<◌, ◌≡◌, refl, arith}
use zfp.View.{View4, partition, cut_at, index4, ijkl}
use zfp.View.Partition.{IsDivisible, partition-edges}
use zfp.View.Flat.{ijkl-index4}
use zfp.Iterator.{Range, increment, decrement}
use zfp.Iterator.Steps.{decrement-increment}

-- Three pieces of the elements from 5 to 21, which are in five blocks.
divisible : IsDivisible 5 17 3
divisible = record {
  some = omega arith;
  pieces = omega arith;
  few = omega arith;
  small = omega arith;
  bounded = omega arith;
}

partition-edges_example :
    (edges : ℕ → ℕ) × (edges 0 ≡ 5)
    × (edges 3 ≡ 5 + 17)
    × ((index : ℕ) → 1 ≤ index → index < 3 → edges index % 4 ≡ 0)
    × ((index : ℕ)
        → index < 3
        → (partition 5 17 index 3 ≡ (edges index, edges (suc index) - edges index))
          × (edges index < edges (suc index)))
partition-edges_example = partition-edges 5 17 3 divisible

middle_piece : partition 5 17 1 3 ≡ (8, 8)
unfolding partition cut_at
middle_piece = refl

-- More pieces than blocks of a view that begins inside a block: the size wraps around.
wrapped_piece : partition 1 8 0 10 ≡ (1, 2 ^ 64 - 1)
unfolding partition cut_at
wrapped_piece = refl

abbrev box : View4
box = record { x = 1; y = 2; z = 3; w = 4; nx = 5; ny = 6; nz = 7; nw = 8 }

ijkl-index4_example : ijkl box (index4 box 4 5 6 7) ≡ (4, 5, 6, 7)
ijkl-index4_example =
    ijkl-index4 box 4 5 6 7 (omega arith) (omega arith) (omega arith) (omega arith) (omega arith)

-- The elements of a view that begins and ends inside blocks.
abbrev range : Range
range = record { xmin = 2; xmax = 9; ymin = 1; ymax = 6 }

decrement-increment_example :
    decrement range (increment range 3 3).0 (increment range 3 3).1 ≡ (3, 3)
decrement-increment_example = decrement-increment range 3 3 record {
  left = omega arith;
  right = omega arith;
  below = omega arith;
  above = omega arith;
  narrow = omega arith;
  low = omega arith;
}

next_block : increment range 3 3 ≡ (4, 1)
unfolding increment
next_block = refl
