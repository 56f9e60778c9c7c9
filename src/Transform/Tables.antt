-- ===== src/Transform/Tables.antt =====
-- The orders of the coefficients of src/template/codec1.c to codec4.c.
use zfp.Prelude.{ℕ, zero, suc, ◌+◌, ◌*◌, ◌==◌, if◌then◌else◌, List, [], ◌∷◌}

-- An entry of a table.
abbrev pub entry : List ℕ → ℕ → ℕ
entry [] i = 0
entry (p ∷ ps) zero = p
entry (p ∷ ps) (suc i) = entry ps i

abbrev pub index2 : ℕ → ℕ → ℕ
index2 i j = i + 4 * j

abbrev pub index3 : ℕ → ℕ → ℕ → ℕ
index3 i j k = i + 4 * (j + 4 * k)

abbrev pub index4 : ℕ → ℕ → ℕ → ℕ → ℕ
index4 i j k l = i + 4 * (j + 4 * (k + 4 * l))

abbrev pub perm_1 : List ℕ
perm_1 = 0 ∷ 1 ∷ 2 ∷ 3 ∷ []

abbrev pub perm_2 : List ℕ
perm_2 =
    index2 0 0
    ∷ index2 1 0
    ∷ index2 0 1
    ∷ index2 1 1
    ∷ index2 2 0
    ∷ index2 0 2
    ∷ index2 2 1
    ∷ index2 1 2
    ∷ index2 3 0
    ∷ index2 0 3
    ∷ index2 2 2
    ∷ index2 3 1
    ∷ index2 1 3
    ∷ index2 3 2
    ∷ index2 2 3
    ∷ index2 3 3
    ∷ []

abbrev pub perm_3 : List ℕ
perm_3 =
    index3 0 0 0
    ∷ index3 1 0 0
    ∷ index3 0 1 0
    ∷ index3 0 0 1
    ∷ index3 0 1 1
    ∷ index3 1 0 1
    ∷ index3 1 1 0
    ∷ index3 2 0 0
    ∷ index3 0 2 0
    ∷ index3 0 0 2
    ∷ index3 1 1 1
    ∷ index3 2 1 0
    ∷ index3 2 0 1
    ∷ index3 0 2 1
    ∷ index3 1 2 0
    ∷ index3 1 0 2
    ∷ index3 0 1 2
    ∷ index3 3 0 0
    ∷ index3 0 3 0
    ∷ index3 0 0 3
    ∷ index3 2 1 1
    ∷ index3 1 2 1
    ∷ index3 1 1 2
    ∷ index3 0 2 2
    ∷ index3 2 0 2
    ∷ index3 2 2 0
    ∷ index3 3 1 0
    ∷ index3 3 0 1
    ∷ index3 0 3 1
    ∷ index3 1 3 0
    ∷ index3 1 0 3
    ∷ index3 0 1 3
    ∷ index3 1 2 2
    ∷ index3 2 1 2
    ∷ index3 2 2 1
    ∷ index3 3 1 1
    ∷ index3 1 3 1
    ∷ index3 1 1 3
    ∷ index3 3 2 0
    ∷ index3 3 0 2
    ∷ index3 0 3 2
    ∷ index3 2 3 0
    ∷ index3 2 0 3
    ∷ index3 0 2 3
    ∷ index3 2 2 2
    ∷ index3 3 2 1
    ∷ index3 3 1 2
    ∷ index3 1 3 2
    ∷ index3 2 3 1
    ∷ index3 2 1 3
    ∷ index3 1 2 3
    ∷ index3 0 3 3
    ∷ index3 3 0 3
    ∷ index3 3 3 0
    ∷ index3 3 2 2
    ∷ index3 2 3 2
    ∷ index3 2 2 3
    ∷ index3 1 3 3
    ∷ index3 3 1 3
    ∷ index3 3 3 1
    ∷ index3 2 3 3
    ∷ index3 3 2 3
    ∷ index3 3 3 2
    ∷ index3 3 3 3
    ∷ []

abbrev pub perm_4 : List ℕ
perm_4 =
    index4 0 0 0 0
    ∷ index4 1 0 0 0
    ∷ index4 0 1 0 0
    ∷ index4 0 0 1 0
    ∷ index4 0 0 0 1
    ∷ index4 1 1 0 0
    ∷ index4 0 0 1 1
    ∷ index4 1 0 1 0
    ∷ index4 0 1 0 1
    ∷ index4 1 0 0 1
    ∷ index4 0 1 1 0
    ∷ index4 2 0 0 0
    ∷ index4 0 2 0 0
    ∷ index4 0 0 2 0
    ∷ index4 0 0 0 2
    ∷ index4 0 1 1 1
    ∷ index4 1 0 1 1
    ∷ index4 1 1 0 1
    ∷ index4 1 1 1 0
    ∷ index4 2 1 0 0
    ∷ index4 2 0 1 0
    ∷ index4 2 0 0 1
    ∷ index4 0 2 1 0
    ∷ index4 0 2 0 1
    ∷ index4 1 2 0 0
    ∷ index4 0 0 2 1
    ∷ index4 1 0 2 0
    ∷ index4 0 1 2 0
    ∷ index4 1 0 0 2
    ∷ index4 0 1 0 2
    ∷ index4 0 0 1 2
    ∷ index4 3 0 0 0
    ∷ index4 0 3 0 0
    ∷ index4 0 0 3 0
    ∷ index4 0 0 0 3
    ∷ index4 1 1 1 1
    ∷ index4 2 0 1 1
    ∷ index4 2 1 0 1
    ∷ index4 2 1 1 0
    ∷ index4 1 2 0 1
    ∷ index4 1 2 1 0
    ∷ index4 0 2 1 1
    ∷ index4 1 1 2 0
    ∷ index4 0 1 2 1
    ∷ index4 1 0 2 1
    ∷ index4 0 1 1 2
    ∷ index4 1 0 1 2
    ∷ index4 1 1 0 2
    ∷ index4 2 2 0 0
    ∷ index4 0 0 2 2
    ∷ index4 2 0 2 0
    ∷ index4 0 2 0 2
    ∷ index4 2 0 0 2
    ∷ index4 0 2 2 0
    ∷ index4 3 1 0 0
    ∷ index4 3 0 1 0
    ∷ index4 3 0 0 1
    ∷ index4 0 3 1 0
    ∷ index4 0 3 0 1
    ∷ index4 1 3 0 0
    ∷ index4 0 0 3 1
    ∷ index4 1 0 3 0
    ∷ index4 0 1 3 0
    ∷ index4 1 0 0 3
    ∷ index4 0 1 0 3
    ∷ index4 0 0 1 3
    ∷ index4 2 1 1 1
    ∷ index4 1 2 1 1
    ∷ index4 1 1 2 1
    ∷ index4 1 1 1 2
    ∷ index4 1 0 2 2
    ∷ index4 1 2 0 2
    ∷ index4 1 2 2 0
    ∷ index4 2 1 0 2
    ∷ index4 2 1 2 0
    ∷ index4 0 1 2 2
    ∷ index4 2 2 1 0
    ∷ index4 0 2 1 2
    ∷ index4 2 0 1 2
    ∷ index4 0 2 2 1
    ∷ index4 2 0 2 1
    ∷ index4 2 2 0 1
    ∷ index4 3 0 1 1
    ∷ index4 3 1 0 1
    ∷ index4 3 1 1 0
    ∷ index4 1 3 0 1
    ∷ index4 1 3 1 0
    ∷ index4 0 3 1 1
    ∷ index4 1 1 3 0
    ∷ index4 0 1 3 1
    ∷ index4 1 0 3 1
    ∷ index4 0 1 1 3
    ∷ index4 1 0 1 3
    ∷ index4 1 1 0 3
    ∷ index4 3 2 0 0
    ∷ index4 3 0 2 0
    ∷ index4 3 0 0 2
    ∷ index4 0 3 2 0
    ∷ index4 0 3 0 2
    ∷ index4 2 3 0 0
    ∷ index4 0 0 3 2
    ∷ index4 2 0 3 0
    ∷ index4 0 2 3 0
    ∷ index4 2 0 0 3
    ∷ index4 0 2 0 3
    ∷ index4 0 0 2 3
    ∷ index4 2 2 1 1
    ∷ index4 1 1 2 2
    ∷ index4 2 1 2 1
    ∷ index4 1 2 1 2
    ∷ index4 2 1 1 2
    ∷ index4 1 2 2 1
    ∷ index4 0 2 2 2
    ∷ index4 2 0 2 2
    ∷ index4 2 2 0 2
    ∷ index4 2 2 2 0
    ∷ index4 3 1 1 1
    ∷ index4 1 3 1 1
    ∷ index4 1 1 3 1
    ∷ index4 1 1 1 3
    ∷ index4 3 2 1 0
    ∷ index4 3 2 0 1
    ∷ index4 3 0 2 1
    ∷ index4 3 1 2 0
    ∷ index4 3 1 0 2
    ∷ index4 3 0 1 2
    ∷ index4 0 3 2 1
    ∷ index4 1 3 2 0
    ∷ index4 1 3 0 2
    ∷ index4 0 3 1 2
    ∷ index4 2 3 1 0
    ∷ index4 2 3 0 1
    ∷ index4 1 0 3 2
    ∷ index4 0 1 3 2
    ∷ index4 2 1 3 0
    ∷ index4 2 0 3 1
    ∷ index4 0 2 3 1
    ∷ index4 1 2 3 0
    ∷ index4 2 1 0 3
    ∷ index4 2 0 1 3
    ∷ index4 0 2 1 3
    ∷ index4 1 2 0 3
    ∷ index4 1 0 2 3
    ∷ index4 0 1 2 3
    ∷ index4 3 3 0 0
    ∷ index4 0 0 3 3
    ∷ index4 3 0 3 0
    ∷ index4 0 3 0 3
    ∷ index4 3 0 0 3
    ∷ index4 0 3 3 0
    ∷ index4 1 2 2 2
    ∷ index4 2 1 2 2
    ∷ index4 2 2 1 2
    ∷ index4 2 2 2 1
    ∷ index4 3 2 1 1
    ∷ index4 3 1 2 1
    ∷ index4 3 1 1 2
    ∷ index4 1 3 2 1
    ∷ index4 1 3 1 2
    ∷ index4 2 3 1 1
    ∷ index4 1 1 3 2
    ∷ index4 2 1 3 1
    ∷ index4 1 2 3 1
    ∷ index4 2 1 1 3
    ∷ index4 1 2 1 3
    ∷ index4 1 1 2 3
    ∷ index4 3 0 2 2
    ∷ index4 3 2 0 2
    ∷ index4 3 2 2 0
    ∷ index4 2 3 0 2
    ∷ index4 2 3 2 0
    ∷ index4 0 3 2 2
    ∷ index4 2 2 3 0
    ∷ index4 0 2 3 2
    ∷ index4 2 0 3 2
    ∷ index4 0 2 2 3
    ∷ index4 2 0 2 3
    ∷ index4 2 2 0 3
    ∷ index4 1 0 3 3
    ∷ index4 1 3 0 3
    ∷ index4 1 3 3 0
    ∷ index4 3 1 0 3
    ∷ index4 3 1 3 0
    ∷ index4 0 1 3 3
    ∷ index4 3 3 1 0
    ∷ index4 0 3 1 3
    ∷ index4 3 0 1 3
    ∷ index4 0 3 3 1
    ∷ index4 3 0 3 1
    ∷ index4 3 3 0 1
    ∷ index4 2 2 2 2
    ∷ index4 3 1 2 2
    ∷ index4 3 2 1 2
    ∷ index4 3 2 2 1
    ∷ index4 2 3 1 2
    ∷ index4 2 3 2 1
    ∷ index4 1 3 2 2
    ∷ index4 2 2 3 1
    ∷ index4 1 2 3 2
    ∷ index4 2 1 3 2
    ∷ index4 1 2 2 3
    ∷ index4 2 1 2 3
    ∷ index4 2 2 1 3
    ∷ index4 3 3 1 1
    ∷ index4 1 1 3 3
    ∷ index4 3 1 3 1
    ∷ index4 1 3 1 3
    ∷ index4 3 1 1 3
    ∷ index4 1 3 3 1
    ∷ index4 2 0 3 3
    ∷ index4 2 3 0 3
    ∷ index4 2 3 3 0
    ∷ index4 3 2 0 3
    ∷ index4 3 2 3 0
    ∷ index4 0 2 3 3
    ∷ index4 3 3 2 0
    ∷ index4 0 3 2 3
    ∷ index4 3 0 2 3
    ∷ index4 0 3 3 2
    ∷ index4 3 0 3 2
    ∷ index4 3 3 0 2
    ∷ index4 3 2 2 2
    ∷ index4 2 3 2 2
    ∷ index4 2 2 3 2
    ∷ index4 2 2 2 3
    ∷ index4 2 1 3 3
    ∷ index4 2 3 1 3
    ∷ index4 2 3 3 1
    ∷ index4 3 2 1 3
    ∷ index4 3 2 3 1
    ∷ index4 1 2 3 3
    ∷ index4 3 3 2 1
    ∷ index4 1 3 2 3
    ∷ index4 3 1 2 3
    ∷ index4 1 3 3 2
    ∷ index4 3 1 3 2
    ∷ index4 3 3 1 2
    ∷ index4 0 3 3 3
    ∷ index4 3 0 3 3
    ∷ index4 3 3 0 3
    ∷ index4 3 3 3 0
    ∷ index4 3 3 2 2
    ∷ index4 2 2 3 3
    ∷ index4 3 2 3 2
    ∷ index4 2 3 2 3
    ∷ index4 3 2 2 3
    ∷ index4 2 3 3 2
    ∷ index4 1 3 3 3
    ∷ index4 3 1 3 3
    ∷ index4 3 3 1 3
    ∷ index4 3 3 3 1
    ∷ index4 2 3 3 3
    ∷ index4 3 2 3 3
    ∷ index4 3 3 2 3
    ∷ index4 3 3 3 2
    ∷ index4 3 3 3 3
    ∷ []

-- PERM for a number of dimensions.
abbrev pub perm : ℕ → List ℕ
perm d = if d == 1 then perm_1 else if d == 2 then perm_2 else if d == 3 then perm_3 else perm_4
