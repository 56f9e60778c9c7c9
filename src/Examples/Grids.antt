-- ===== src/Examples/Grids.antt =====
-- Runs of the block stores at arrays of ten by seven by five by six elements.
use zfp.Prelude.{ℕ, ◌≢◌, ◌⊎◌, ◌*◌, ◌<◌, ◌≡◌, refl, arith, ◌/◌}
use zfp.Index.Implicit
use zfp.Index.Implicit.{Implicit}
use zfp.Index.Outcome.{done}
use zfp.Store.{BlockIndex}
use zfp.Store.Shape.{shape_code, shape_code-lacks}
use zfp.Store.Store1
use zfp.Store.Store1.{BlockStore1}
use zfp.Store.Store1.Numbering as Numbering1
use zfp.Store.Store1.Numbering.{IsSized as IsSized1}
use zfp.Store.Store2
use zfp.Store.Store2.{BlockStore2}
use zfp.Store.Store2.Numbering as Numbering2
use zfp.Store.Store2.Numbering.{IsSized as IsSized2}
use zfp.Store.Store3
use zfp.Store.Store3.{BlockStore3}
use zfp.Store.Store3.Numbering as Numbering3
use zfp.Store.Store3.Numbering.{IsSized as IsSized3}
use zfp.Store.Store4
use zfp.Store.Store4.{BlockStore4}
use zfp.Store.Store4.Numbering as Numbering4
use zfp.Store.Store4.Numbering.{IsSized as IsSized4}

-- The class `implicit` as a store's index.
abbrev pub implicit_index : BlockIndex Implicit
implicit_index = record {
  resize = Implicit.resize;
  block_offset = Implicit.block_offset;
  set_block_size = λ self block_index size. done (Implicit.set_block_size_at self block_index size);
}

abbrev no_blocks : Implicit
no_blocks = record { blocks = 0; bits_per_block = 128 }

shape_code-lacks_example : shape_code (4 * 2) 10 ≡ 2
shape_code-lacks_example = shape_code-lacks 2 10 (omega arith) (omega arith)

abbrev pub empty1 : BlockStore1 Implicit ℕ
empty1 = record { nx = 0; bx = 0; index = no_blocks; buffer = 0 }

abbrev pub array1 : BlockStore1 Implicit ℕ
array1 = record { nx = 10; bx = 3; index = record { blocks = 3; bits_per_block = 128 }; buffer = 0 }

abbrev pub array1-IsSized : IsSized1 array1
array1-IsSized = record { x_blocks = refl; x_fits = omega arith }

set_size1_test : Store1.set_size implicit_index empty1 10 ≡ array1
unfolding Store1.set_size Store1.blocks Implicit.resize
set_size1_test = refl

set_size-IsSized1_example : IsSized1 (Store1.set_size implicit_index empty1 10)
set_size-IsSized1_example = Numbering1.set_size-IsSized1 implicit_index empty1 10 (omega arith)

block_index-lt-blocks1_example : Store1.block_index array1 9 < Store1.blocks array1
block_index-lt-blocks1_example =
    Numbering1.block_index-lt-blocks1 array1 array1-IsSized 9 (omega arith)

abbrev pub empty2 : BlockStore2 Implicit ℕ
empty2 = record { nx = 0; ny = 0; bx = 0; by = 0; index = no_blocks; buffer = 0 }

abbrev pub array2 : BlockStore2 Implicit ℕ
array2 = record {
  nx = 10;
  ny = 7;
  bx = 3;
  by = 2;
  index = record { blocks = 6; bits_per_block = 128 };
  buffer = 0;
}

abbrev pub array2-IsSized : IsSized2 array2
array2-IsSized = record {
  x_blocks = refl;
  y_blocks = refl;
  x_fits = omega arith;
  y_fits = omega arith;
  fits = omega arith;
}

set_size2_test : Store2.set_size implicit_index empty2 10 7 ≡ array2
unfolding Store2.set_size Store2.blocks Implicit.resize
set_size2_test = refl

block_index-lt-blocks2_example : Store2.block_index array2 9 6 < Store2.blocks array2
block_index-lt-blocks2_example =
    Numbering2.block_index-lt-blocks2 array2 array2-IsSized 9 6 (omega arith) (omega arith)

same_block2 : Store2.block_index array2 9 6 ≡ Store2.block_index array2 8 5
unfolding Store2.block_index
same_block2 = refl

abbrev pub empty3 : BlockStore3 Implicit ℕ
empty3 = record { nx = 0; ny = 0; nz = 0; bx = 0; by = 0; bz = 0; index = no_blocks; buffer = 0 }

abbrev pub array3 : BlockStore3 Implicit ℕ
array3 = record {
  nx = 10;
  ny = 7;
  nz = 5;
  bx = 3;
  by = 2;
  bz = 2;
  index = record { blocks = 12; bits_per_block = 128 };
  buffer = 0;
}

abbrev pub array3-IsSized : IsSized3 array3
array3-IsSized = record {
  x_blocks = refl;
  y_blocks = refl;
  z_blocks = refl;
  x_fits = omega arith;
  y_fits = omega arith;
  z_fits = omega arith;
  fits = omega arith;
}

set_size3_test : Store3.set_size implicit_index empty3 10 7 5 ≡ array3
unfolding Store3.set_size Store3.blocks Implicit.resize
set_size3_test = refl

block_index-lt-blocks3_example : Store3.block_index array3 9 6 4 < Store3.blocks array3
block_index-lt-blocks3_example =
    Numbering3.block_index-lt-blocks3 array3 array3-IsSized 9 6 4 (omega arith) (omega arith)
      (omega arith)

same_block3 : Store3.block_index array3 9 6 4 ≡ Store3.block_index array3 8 5 4
unfolding Store3.block_index
same_block3 = refl

abbrev pub empty4 : BlockStore4 Implicit ℕ
empty4 = record {
  nx = 0;
  ny = 0;
  nz = 0;
  nw = 0;
  bx = 0;
  by = 0;
  bz = 0;
  bw = 0;
  index = no_blocks;
  buffer = 0;
}

abbrev pub array4 : BlockStore4 Implicit ℕ
array4 = record {
  nx = 10;
  ny = 7;
  nz = 5;
  nw = 6;
  bx = 3;
  by = 2;
  bz = 2;
  bw = 2;
  index = record { blocks = 24; bits_per_block = 128 };
  buffer = 0;
}

abbrev pub array4-IsSized : IsSized4 array4
array4-IsSized = record {
  x_blocks = refl;
  y_blocks = refl;
  z_blocks = refl;
  w_blocks = refl;
  x_fits = omega arith;
  y_fits = omega arith;
  z_fits = omega arith;
  w_fits = omega arith;
  fits = omega arith;
}

set_size4_test : Store4.set_size implicit_index empty4 10 7 5 6 ≡ array4
unfolding Store4.set_size Store4.blocks Implicit.resize
set_size4_test = refl

set_size-IsSized4_example :
    let s' = Store4.set_size implicit_index empty4 10 7 5 6 in
    IsSized4 s'
    × ((◌≢◌ {A = ℕ} 10 0
          × ◌≢◌ {A = ℕ} 7 0
          × ◌≢◌ {A = ℕ} 5 0
          × ◌≢◌ {A = ℕ} 6 0
          × Numbering4.HasSize s' 10 7 5 6)
        ⊎ ((◌≡◌ {A = ℕ} 10 0 ⊎ (◌≡◌ {A = ℕ} 7 0 ⊎ (◌≡◌ {A = ℕ} 5 0 ⊎ ◌≡◌ {A = ℕ} 6 0)))
            × Numbering4.HasSize s' 0 0 0 0))
    × (s'.index ≡ Implicit.resize no_blocks (s'.bx * s'.by * s'.bz * s'.bw))
    × (s'.buffer ≡ 0)
set_size-IsSized4_example =
    Numbering4.set_size-IsSized4 implicit_index empty4 10 7 5 6 (omega arith) (omega arith)
      (omega arith) (omega arith) (omega arith)

block_index-lt-blocks4_example : Store4.block_index array4 9 6 4 5 < Store4.blocks array4
block_index-lt-blocks4_example =
    Numbering4.block_index-lt-blocks4 array4 array4-IsSized 9 6 4 5 (omega arith) (omega arith)
      (omega arith) (omega arith)

block_shape-block_index4_example :
    Store4.block_shape array4 (Store4.block_index array4 9 6 4 5) ≡ 182
block_shape-block_index4_example =
    Numbering4.block_shape-block_index4 array4 array4-IsSized 9 6 4 5 (omega arith) (omega arith)
      (omega arith) (omega arith)

same_block4 : Store4.block_index array4 9 6 4 5 ≡ Store4.block_index array4 8 5 4 5
unfolding Store4.block_index
same_block4 = refl

block_index-injective4_example :
    (9 / 4 ≡ 8 / 4) × (6 / 4 ≡ 5 / 4) × (4 / 4 ≡ 4 / 4) × (5 / 4 ≡ 5 / 4)
block_index-injective4_example =
    Numbering4.block_index-injective4 array4 array4-IsSized 9 6 4 5 8 5 4 5 (omega arith)
      (omega arith) (omega arith) (omega arith) (omega arith) (omega arith) (omega arith)
      (omega arith) same_block4
