-- ===== src/Eval/Accuracy/Scores.antt =====
-- How the scores of `evaluate_correctness` bound each other.
use cudaforge.Prelude.{
  ℕ, zero, suc, ◌+◌, ◌-◌, ◌≤◌, ◌≡◌, refl, List, [], ◌∷◌, length, some, get_elem?, get_of_lt,
  get_or_of_get, min, nat_beq, nat_beq_iff, Bool-cases, inl, inr, arith,
}
use cudaforge.Eval.Accuracy.Lcs.{lcs_length}
use cudaforge.Eval.Accuracy.Subsequence.{Within, none_left, skip, keep}
use cudaforge.Eval.Accuracy.Rouge.{lcs_length_longest}
use cudaforge.Eval.Accuracy.Correctness.{matches_upto, token_matches}

length-Within : {a l : List ℕ} {i : ℕ} → Within a l i → length l ≤ i
length-Within none_left = omega arith
length-Within (skip u) = omega (arith, length-Within u)
length-Within (keep x at u) = omega (arith, length-Within u)

Within-later : {a l : List ℕ} {i : ℕ} (k : ℕ) → Within a l i → Within a l (k + i)
Within-later {i = i} zero u = let e : i ≡ 0 + i = omega arith in rw e at u
Within-later {i = i} (suc k) u =
    let e : suc (k + i) ≡ suc k + i = omega arith in rw e at (skip (Within-later k u))

module _ (a b : List ℕ) where
  common_matches :
      (n : ℕ)
      → n ≤ length a
      → n ≤ length b
      → (l : List ℕ) × Within a l n × Within b l n × (length l ≡ matches_upto a b n)
  unfolding matches_upto
  common_matches zero p q = ([], none_left, none_left, refl)
  common_matches (suc n) p q =
      let (l, u, v, len) = common_matches n (omega arith) (omega arith) in
      let (x, at) = get_of_lt a n (omega arith) in
      let (y, at') = get_of_lt b n (omega arith) in
      let ex = get_or_of_get a n 0 at in
      let ey = get_or_of_get b n 0 at' in
      elim (Bool-cases (nat_beq x y)) [
        | inl equal ↦
            let e : x ≡ y = (nat_beq_iff x y).0 equal in
            let there : get_elem? b n ≡ some x = rw e at' in
            (
              x ∷ l,
              keep x at u,
              keep x there v,
              rw (matches_upto, ex, ey, equal) (omega (arith, len)),
            )
        | inr differ ↦ (l, skip u, skip v, rw (matches_upto, ex, ey, differ) len)
      ]

  -- The tokens that agree in place are at most as many as the longest common subsequence has, and that
  -- has at most as many as either sequence: token accuracy never counts more than ROUGE-L does.
  pub token_matches_bounded :
      (token_matches a b ≤ lcs_length a b)
      × (lcs_length a b ≤ length a)
      × (lcs_length a b ≤ length b)
  unfolding token_matches
  token_matches_bounded =
      let n = min (length a) (length b) in
      let (l, u, v, len) = common_matches n (omega arith) (omega arith) in
      let ea : (length a - n) + n ≡ length a = omega arith in
      let eb : (length b - n) + n ≡ length b = omega arith in
      let in_a = rw ea at (Within-later (length a - n) u) in
      let in_b = rw eb at (Within-later (length b - n) v) in
      let ((m, um, vm, lm), longest) = lcs_length_longest a b in
      (
        omega (arith, len, longest l in_a in_b),
        omega (arith, lm, length-Within um),
        omega (arith, lm, length-Within vm),
      )
