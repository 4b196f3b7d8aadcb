-- ===== src/Cachelab/Trans.antt =====
-- The transpositions of cachelab/trans.c. A matrix is a function of its two indices, and a write to
-- an element updates the function. The elements are of any type.
pub mod Cells
mod Tests
use introduction_to_computer.Common.{
  ℕ, zero, suc, ◌+◌, ◌-◌, ◌*◌, ◌/◌, ◌≤◌, ◌<◌, ◌≡◌, refl, Bool, true, false, ◌&&◌, ltb, leb, ◌==◌,
  if◌then◌else◌, arith, ◌∙◌, Bool-cases, inl, inr,
}

abbrev pub square_block : ℕ
square_block = 8

abbrev pub square : ℕ
square = 32

-- The rounds of `for (i = 0; i < n; i += SQUARE_BLOCK)`.
abbrev pub blocks : ℕ → ℕ
blocks n = (n + (square_block - 1)) / square_block

-- What a loop of `transpose_square` writes: the matrix and `tmp[0]`.
pub record Work (D : Type 0) : Type 0 where
  pub B : ℕ → ℕ → D
  pub tmp : D

module _ {D : Type 0} where
  -- `B[j][i] = v`
  unfoldable pub put : (ℕ → ℕ → D) → ℕ → ℕ → D → ℕ → ℕ → D
  put B j i v r c = if r == j && c == i then v else B r c

  -- `for (j = 0; j < M; j++) B[j][i] = A[i][j];` from `j` on, with `left` rounds to go.
  unfoldable pub trans_row : (ℕ → ℕ → D) → ℕ → (left j : ℕ) → (ℕ → ℕ → D) → ℕ → ℕ → D
  unfolding put
  trans_row A i zero j B = B
  trans_row A i (suc left) j B = trans_row A i left (j + 1) (put B j i (A i j))

  unfoldable pub trans_rows : ℕ → (ℕ → ℕ → D) → (left i : ℕ) → (ℕ → ℕ → D) → ℕ → ℕ → D
  unfolding trans_row
  trans_rows M A zero i B = B
  trans_rows M A (suc left) i B = trans_rows M A left (i + 1) (trans_row A i M 0 B)

  unfoldable pub trans : (M N : ℕ) → (ℕ → ℕ → D) → (ℕ → ℕ → D) → ℕ → ℕ → D
  unfolding trans_rows
  trans M N A B = trans_rows M A N 0 B

  unfoldable pub square_element : (ℕ → ℕ → D) → (i1 j1 : ℕ) → Work D → Work D
  unfolding put
  square_element A i1 j1 w =
      if i1 == j1 then record w { tmp = A i1 i1 } else record w { B = put w.B j1 i1 (A i1 j1) }

  -- `for (j1 = j; j1 < (j + SQUARE_BLOCK); j1++)`
  unfoldable pub square_columns : (ℕ → ℕ → D) → ℕ → (left j1 : ℕ) → Work D → Work D
  unfolding square_element
  square_columns A i1 zero j1 w = w
  square_columns A i1 (suc left) j1 w = square_columns A i1 left (j1 + 1) (square_element A i1 j1 w)

  unfoldable pub square_line : (ℕ → ℕ → D) → (i j i1 : ℕ) → Work D → Work D
  unfolding square_columns put
  square_line A i j i1 w =
      let w' = square_columns A i1 square_block j w in
      if i == j then record w' { B = put w'.B i1 i1 w'.tmp } else w'

  -- `for (i1 = i; i1 < (i + SQUARE_BLOCK); i1++)`
  unfoldable pub square_lines : (ℕ → ℕ → D) → (i j left i1 : ℕ) → Work D → Work D
  unfolding square_line
  square_lines A i j zero i1 w = w
  square_lines A i j (suc left) i1 w = square_lines A i j left (i1 + 1) (square_line A i j i1 w)

  -- `for (j = 0; j < M; j += SQUARE_BLOCK)` from `j` on, with `left` blocks to go.
  unfoldable pub square_row : (ℕ → ℕ → D) → (i left j : ℕ) → Work D → Work D
  square_row A i zero j w = w
  square_row A i (suc left) j w =
      square_row A i left (j + square_block) (square_lines A i j square_block i w)

  -- `for (i = 0; i < N; i += SQUARE_BLOCK)`, each row of blocks with `across` of them.
  unfoldable pub square_rows : (across : ℕ) → (ℕ → ℕ → D) → (left i : ℕ) → Work D → Work D
  square_rows across A zero i w = w
  square_rows across A (suc left) i w =
      square_rows across A left (i + square_block) (square_row A i across 0 w)

  unfoldable pub transpose_square : (M N : ℕ) → (ℕ → ℕ → D) → Work D → Work D
  unfolding square_rows
  transpose_square M N A w = square_rows (blocks M) A (blocks N) 0 w

  unfoldable pub transpose_submit : (M N : ℕ) → (ℕ → ℕ → D) → Work D → Work D
  unfolding transpose_square trans
  transpose_submit M N A w =
      if M == N
      then if M == square then transpose_square M N A w else record w { B = trans M N A w.B }
      else record w { B = trans M N A w.B }
