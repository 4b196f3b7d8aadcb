-- ===== src/Cachelab/Trans/Tests.antt =====
-- Runs of the transpositions of cachelab/trans.c, and their theorem at a concrete input.
use introduction_to_computer.Common.{ℕ, ◌+◌, ◌*◌, ◌≡◌, refl}
use introduction_to_computer.Cachelab.Trans.{
  Work, transpose_submit, trans, trans_rows, trans_row, put,
}
use introduction_to_computer.Cachelab.Trans.Cells.{transpose_submit_lem}

abbrev numbered : ℕ → ℕ → ℕ
numbered r c = r * 100 + c

abbrev cleared : Work ℕ
cleared = record { B = λ r c. 0; tmp = 0 }

trans_2_3 : trans 2 3 numbered cleared.B 1 2 ≡ 201
unfolding trans trans_rows trans_row put
trans_2_3 = refl

transpose_submit_lem_example : (transpose_submit 32 32 numbered cleared).B 5 17 ≡ 1705
transpose_submit_lem_example = transpose_submit_lem 32 32 numbered cleared 5 17
