-- ===== src/Cachelab/Trans/Cells.antt =====
-- What the transpositions of cachelab/trans.c write.
use introduction_to_computer.Common.{
  ℕ, zero, suc, ◌+◌, ◌*◌, ◌≤◌, ◌<◌, ◌≡◌, ◌⊎◌, not, ◌&&◌, ltb, leb, ◌==◌, if◌then◌else◌, arith, ap,
  ◌∙◌, Bool-cases, inl, inr,
}
use introduction_to_computer.Cachelab.Trans.{
  square_block, square, put, trans_row, trans_rows, trans, Work, square_element, square_columns,
  square_line, square_lines, square_row, square_rows, blocks, transpose_square, transpose_submit,
}

aligned :
    (p q : ℕ)
    → (square_block * p ≡ square_block * q)
      ⊎ ((square_block * p + square_block ≤ square_block * q)
          ⊎ (square_block * q + square_block ≤ square_block * p))
aligned p q = ground arith

module _ {D : Type 0} where
  row-cell :
      (A B : ℕ → ℕ → D) (i left j r c : ℕ)
      → trans_row A i left j B r c
        ≡ (if c == i && (leb j r && ltb r (j + left)) then A i r else B r c)
  unfolding trans_row put
  row-cell A B i zero j r c = ground arith
  row-cell A B i (suc left) j r c = row-cell A (put B j i (A i j)) i left (j + 1) r c ∙ ground arith

  rows-cell :
      (M : ℕ) (A B : ℕ → ℕ → D) (left i r c : ℕ)
      → trans_rows M A left i B r c
        ≡ (if ltb r M && (leb i c && ltb c (i + left)) then A c r else B r c)
  unfolding trans_rows
  rows-cell M A B zero i r c = ground arith
  rows-cell M A B (suc left) i r c =
      rows-cell M A (trans_row A i M 0 B) left (i + 1) r c
      ∙ rw (row-cell A B i M 0 r c) (ground arith)

  trans-cell :
      (M N : ℕ) (A B : ℕ → ℕ → D) (r c : ℕ)
      → trans M N A B r c ≡ (if ltb r M && ltb c N then A c r else B r c)
  unfolding trans
  trans-cell M N A B r c = rows-cell M A B N 0 r c ∙ ground arith

  element-cell :
      (A : ℕ → ℕ → D) (i1 j : ℕ) (w : Work D) (r c : ℕ)
      → (square_element A i1 j w).B r c
        ≡ (if c == i1 && (r == j && not (r == i1)) then A i1 r else w.B r c)
  unfolding square_element put
  element-cell A i1 j w r c = elim (Bool-cases (i1 == j)) [
    | inl e ↦ rw e (ground arith)
    | inr e ↦ rw e (ground arith)
  ]

  element-tmp :
      (A : ℕ → ℕ → D) (i1 j : ℕ) (w : Work D)
      → (square_element A i1 j w).tmp ≡ (if j == i1 then A i1 i1 else w.tmp)
  unfolding square_element
  element-tmp A i1 j w = elim (Bool-cases (i1 == j)) [
    | inl e ↦ rw e (ground arith)
    | inr e ↦ rw e (ground arith)
  ]

  columns-cell :
      (A : ℕ → ℕ → D) (i1 left j : ℕ) (w : Work D) (r c : ℕ)
      → (square_columns A i1 left j w).B r c
        ≡ (if c == i1 && (leb j r && (ltb r (j + left) && not (r == i1))) then A i1 r else w.B r c)
  unfolding square_columns
  columns-cell A i1 zero j w r c = ground arith
  columns-cell A i1 (suc left) j w r c =
      columns-cell A i1 left (j + 1) (square_element A i1 j w) r c
      ∙ rw (element-cell A i1 j w r c) (ground arith)

  columns-tmp :
      (A : ℕ → ℕ → D) (i1 left j : ℕ) (w : Work D)
      → (square_columns A i1 left j w).tmp
        ≡ (if leb j i1 && ltb i1 (j + left) then A i1 i1 else w.tmp)
  unfolding square_columns
  columns-tmp A i1 zero j w = ground arith
  columns-tmp A i1 (suc left) j w =
      columns-tmp A i1 left (j + 1) (square_element A i1 j w)
      ∙ rw (element-tmp A i1 j w) (ground arith)

  line-cell :
      (A : ℕ → ℕ → D) (i j i1 : ℕ) (w : Work D) (r c : ℕ)
      → i ≤ i1
      → i1 < i + square_block
      → (i ≡ j) ⊎ ((i + square_block ≤ j) ⊎ (j + square_block ≤ i))
      → (square_line A i j i1 w).B r c
        ≡ (if c == i1 && (leb j r && ltb r (j + square_block)) then A i1 r else w.B r c)
  unfolding square_line put
  line-cell A i j i1 w r c low high apart = elim (Bool-cases (i == j)) [
    | inl e ↦
        rw (e, columns-tmp A i1 square_block j w, columns-cell A i1 square_block j w r c)
          (ground arith)
    | inr e ↦ rw (e, columns-cell A i1 square_block j w r c) (ground (arith, apart))
  ]

  lines-cell :
      (A : ℕ → ℕ → D) (i j left i1 : ℕ) (w : Work D) (r c : ℕ)
      → i ≤ i1
      → i1 + left ≤ i + square_block
      → (i ≡ j) ⊎ ((i + square_block ≤ j) ⊎ (j + square_block ≤ i))
      → (square_lines A i j left i1 w).B r c ≡ (
          if (leb i1 c && ltb c (i1 + left)) && (leb j r && ltb r (j + square_block))
          then A c r
          else w.B r c)
  unfolding square_lines
  lines-cell A i j zero i1 w r c low high apart = ground arith
  lines-cell A i j (suc left) i1 w r c low high apart =
      lines-cell A i j left (i1 + 1) (square_line A i j i1 w) r c (omega arith) (omega arith) apart
      ∙ rw (line-cell A i j i1 w r c low (omega arith) apart) (ground arith)

  square_row-cell :
      (A : ℕ → ℕ → D) (p left q : ℕ) (w : Work D) (r c : ℕ)
      → (square_row A (square_block * p) left (square_block * q) w).B r c ≡ (
          if (leb (square_block * p) c && ltb c (square_block * p + square_block))
            && (leb (square_block * q) r && ltb r (square_block * (q + left)))
          then A c r
          else w.B r c)
  unfolding square_row
  square_row-cell A p zero q w r c = ground arith
  square_row-cell A p (suc left) q w r c =
      let i = square_block * p in
      let j = square_block * q in
      let w' = square_lines A i j square_block i w in
      let next : j + square_block ≡ square_block * (q + 1) = omega arith in
      let cell = lines-cell A i j square_block i w r c (omega arith) (omega arith) (aligned p q) in
      ap (λ n. (square_row A i left n w').B r c) next
      ∙ square_row-cell A p left (q + 1) w' r c
      ∙ rw cell (ground arith)

  square_rows-cell :
      (across : ℕ) (A : ℕ → ℕ → D) (left p : ℕ) (w : Work D) (r c : ℕ)
      → (square_rows across A left (square_block * p) w).B r c ≡ (
          if (leb (square_block * p) c && ltb c (square_block * (p + left)))
            && ltb r (square_block * across)
          then A c r
          else w.B r c)
  unfolding square_rows
  square_rows-cell across A zero p w r c = ground arith
  square_rows-cell across A (suc left) p w r c =
      let w' = square_row A (square_block * p) across (square_block * 0) w in
      let next : square_block * p + square_block ≡ square_block * (p + 1) = omega arith in
      ap (λ n. (square_rows across A left n w').B r c) next
      ∙ square_rows-cell across A left (p + 1) w' r c
      ∙ rw (square_row-cell A p across 0 w r c) (ground arith)

  transpose_square-cell :
      (k : ℕ) (A : ℕ → ℕ → D) (w : Work D) (r c : ℕ)
      → (transpose_square (square_block * k) (square_block * k) A w).B r c
        ≡ (if ltb r (square_block * k) && ltb c (square_block * k) then A c r else w.B r c)
  unfolding transpose_square
  transpose_square-cell k A w r c =
      let e : blocks (square_block * k) ≡ k = omega arith in
      rw e (square_rows-cell k A k 0 w r c ∙ ground arith)

  -- `transpose_submit`, for every size: afterwards the element in row `r` and column `c` of `B` is
  -- the one in row `c` and column `r` of `A` if they are in range, and every other place is
  -- unchanged.
  pub transpose_submit_lem :
      (M N : ℕ) (A : ℕ → ℕ → D) (w : Work D) (r c : ℕ)
      → (transpose_submit M N A w).B r c ≡ (if ltb r M && ltb c N then A c r else w.B r c)
  unfolding transpose_submit
  transpose_submit_lem M N A w r c = elim (Bool-cases (M == N)) [
    | inr e ↦ rw e (trans-cell M N A w.B r c)
    | inl e ↦ elim (Bool-cases (M == square)) [
      | inr e' ↦ rw (e, e') (trans-cell M N A w.B r c)
      | inl e' ↦
          let m : M ≡ square = ground arith in
          let n : N ≡ square = ground arith in rw (m, n) (transpose_square-cell 4 A w r c)
    ]
  ]
