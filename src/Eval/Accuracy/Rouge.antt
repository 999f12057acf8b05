-- ===== src/Eval/Accuracy/Rouge.antt =====
-- The table of `_lcs_length` holds the lengths of longest common subsequences of prefixes.
use cudaforge.Prelude.{ℕ, zero, suc, ◌+◌, ◌-◌, ◌≤◌, ◌<◌, ◌≡◌, refl, List, length, arith}
use cudaforge.Eval.Accuracy.Lcs.{Table, write, fill_cell, fill_row, fill_rows, lcs_length}
use cudaforge.Eval.Accuracy.Subsequence.{Within, longest, longest_bounds, longest_attained}
use native.Mathlib.Decide.{dec_lt}

module _ (a b : List ℕ) where
  -- Every row above `i`, and row `i` left of column `j`, is final; the border is zero.
  record IsFilled (i j : ℕ) (dp : Table) : Type 0 where
    above : (k l : ℕ) → k < i → l ≤ length b → dp k l ≡ longest a b k l
    here : (l : ℕ) → l < j → dp i l ≡ longest a b i l
    border : (k : ℕ) → dp k 0 ≡ 0

  fill_cell-eq-write :
      (i j : ℕ) (dp : Table)
      → j < length b
      → IsFilled (suc i) (suc j) dp
      → fill_cell a b (suc i) (suc j) dp ≡ write dp (suc i) (suc j) (longest a b (suc i) (suc j))
  unfolding fill_cell longest
  fill_cell-eq-write i j dp lt h =
      let p : suc i - 1 ≡ i = omega arith in
      let q : suc j - 1 ≡ j = omega arith in
      rw
        (
          p,
          q,
          h.above i j (omega arith) (omega arith),
          h.above i (suc j) (omega arith) lt,
          h.here j (omega arith),
        )
        (ground arith)

  fill_cell-IsFilled :
      (i j : ℕ) (dp : Table)
      → j < length b
      → IsFilled (suc i) (suc j) dp
      → IsFilled (suc i) (suc (suc j)) (fill_cell a b (suc i) (suc j) dp)
  fill_cell-IsFilled i j dp lt h = rw (fill_cell-eq-write i j dp lt h) (record {
    above = λ k l lt' le. ground (arith, h.above k l lt' le);
    here = λ l lt'. ground (arith, h.here l);
    border = λ k. ground (arith, h.border k);
  })

  fill_row-IsFilled :
      (k i j : ℕ) (dp : Table)
      → j + k ≤ length b
      → IsFilled (suc i) (suc j) dp
      → IsFilled (suc i) (suc (j + k)) (fill_row a b k (suc i) (suc j) dp)
  unfolding fill_row
  fill_row-IsFilled zero i j dp le h = let e : j + 0 ≡ j = omega arith in rw e h
  fill_row-IsFilled (suc k) i j dp le h =
      let e : suc j + 1 ≡ suc (suc j) = omega arith in
      let e' : suc j + k ≡ j + suc k = omega arith in
      rw e (
        rw e' at (
          fill_row-IsFilled k i (suc j) _ (omega arith)
            (fill_cell-IsFilled i j dp (omega arith) h)))

  next_row : (i : ℕ) (dp : Table) → IsFilled i (suc (length b)) dp → IsFilled (suc i) 1 dp
  unfolding longest
  next_row i dp h = record {
    above = λ k l lt le. elim (dec_lt k i) [
      | yes p ↦ h.above k l p le
      | no p ↦ let e : k ≡ i = omega arith in rw e (h.here l (omega arith))
    ];
    here = λ l lt. let e : l ≡ 0 = omega arith in rw e (h.border (suc i));
    border = h.border;
  }

  fill_rows-IsFilled :
      (k i : ℕ) (dp : Table)
      → IsFilled i (suc (length b)) dp
      → IsFilled (i + k) (suc (length b)) (fill_rows a b k (suc i) dp)
  unfolding fill_rows
  fill_rows-IsFilled zero i dp h = let e : i + 0 ≡ i = omega arith in rw e h
  fill_rows-IsFilled (suc k) i dp h =
      let e : suc i + 1 ≡ suc (suc i) = omega arith in
      let e' : suc i + k ≡ i + suc k = omega arith in
      let e'' : suc (0 + length b) ≡ suc (length b) = omega arith in
      let row = fill_row-IsFilled (length b) i 0 dp (omega arith) (next_row i dp h) in
      rw e (rw e' at (fill_rows-IsFilled k (suc i) _ (rw e'' at row)))

  -- The table's last entry is the length of a common subsequence of the two sequences (read
  -- backwards), and no common subsequence is longer.
  pub lcs_length_longest :
      ((l : List ℕ) × Within a l (length a) × Within b l (length b) × (length l ≡ lcs_length a b))
      × ((l : List ℕ) → Within a l (length a) → Within b l (length b) → length l ≤ lcs_length a b)
  unfolding lcs_length longest
  lcs_length_longest =
      let start : IsFilled 0 (suc (length b)) (λ k l. 0) = record {
        above = λ k l lt le. absurd (omega arith);
        here = λ l lt. refl;
        border = λ k. refl;
      } in
      let table = fill_rows-IsFilled (length a) 0 (λ k l. 0) start in
      let last = table.here (length b) (omega arith) in
      let e : 0 + length a ≡ length a = omega arith in
      let value : lcs_length a b ≡ longest a b (length a) (length b) = rw e at last in
      let (l, u, v, len) = longest_attained a b (length a) (length b) (omega arith) (omega arith) in
      (
        (l, u, v, rw value len),
        λ l' u' v'. rw value (longest_bounds a b (length a) (length b) l' u' v'),
      )
