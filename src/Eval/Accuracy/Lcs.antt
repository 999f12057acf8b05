-- ===== src/Eval/Accuracy/Lcs.antt =====
-- `AccuracyEvaluator._lcs_length`: the table of eval_platform/pipelines/accuracy_eval.py, as a
-- function of its two indices. All reads of the source are in range.
use cudaforge.Prelude.{
  ℕ, zero, suc, ◌+◌, ◌-◌, ◌&&◌, max, List, length, get_or, nat_beq, if◌then◌else◌,
}

abbrev pub Table : Type 0
Table = ℕ → ℕ → ℕ

-- `dp[i][j] = v`
abbrev pub write : Table → ℕ → ℕ → ℕ → Table
write dp i j v k l = if nat_beq i k && nat_beq j l then v else dp k l

module _ (seq1 seq2 : List ℕ) where
  unfoldable pub fill_cell : ℕ → ℕ → Table → Table
  fill_cell i j dp =
      if nat_beq (get_or seq1 (i - 1) 0) (get_or seq2 (j - 1) 0)
      then write dp i j (dp (i - 1) (j - 1) + 1)
      else write dp i j (max (dp (i - 1) j) (dp i (j - 1)))

  -- `for j in range(1, n + 1)`, with the rounds that are left
  unfoldable pub fill_row : ℕ → ℕ → ℕ → Table → Table
  unfolding fill_cell
  fill_row zero i j dp = dp
  fill_row (suc k) i j dp = fill_row k i (j + 1) (fill_cell i j dp)

  -- `for i in range(1, m + 1)`
  unfoldable pub fill_rows : ℕ → ℕ → Table → Table
  unfolding fill_row
  fill_rows zero i dp = dp
  fill_rows (suc k) i dp = fill_rows k (i + 1) (fill_row (length seq2) i 1 dp)

  unfoldable pub lcs_length : ℕ
  unfolding fill_rows
  lcs_length = let m = length seq1 in let n = length seq2 in fill_rows m 1 (λ k l. 0) m n
