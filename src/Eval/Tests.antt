-- ===== src/Eval/Tests.antt =====
-- Points and sequences at which the theorems of the evaluation platform are read.
use cudaforge.Prelude.{
  ℕ, ◌≤◌, ◌≡◌, refl, true, false, String, List, [], ◌∷◌, length, map, inl, inr, ◌==◌, string_eq,
  if◌then◌else◌,
}
use cudaforge.Prelude.Int.{pos}
use cudaforge.Fixed.{fixed, fixed-FloatOrder, fixed-FloatNeg}
use cudaforge.Eval.Pareto.Points.{ParetoPoint, ok, compute_pareto_frontier}
use cudaforge.Eval.Pareto.Optimal.{compute_pareto_frontier_optimal}
use cudaforge.Eval.Accuracy.Correctness.{token_matches}
use cudaforge.Eval.Accuracy.Scores.{token_matches_bounded}
use cudaforge.Eval.Accuracy.Lcs.{lcs_length}
use cudaforge.Eval.Accuracy.Subsequence.{Within}
use cudaforge.Eval.Accuracy.Rouge.{lcs_length_longest}

-- A run with its throughput and its latency, in thousandths.
abbrev run : String → ℕ → ℕ → ParetoPoint fixed
run name throughput latency = record {
  point_id = name;
  metrics = ("tps", pos throughput) ∷ ("ttft", pos latency) ∷ [];
  metadata = [];
  is_pareto_optimal = false;
  distance_to_frontier = pos 0;
}

abbrev runs : List (ParetoPoint fixed)
runs = run "fp16" 1000 40 ∷ run "int8" 1400 30 ∷ run "int4" 1600 35 ∷ run "slow" 900 40 ∷ []

abbrev objectives : List (String × String)
objectives = ("tps", "Maximize") ∷ ("ttft", "minimize") ∷ []

abbrev lower : String → String
lower s = if s == "Maximize" then "maximize" else s

compute_pareto_frontier_optimal_example :
    (result : List (ParetoPoint fixed)) × (compute_pareto_frontier fixed lower runs objectives
      ≡ ok result)
    × (map (λ (p : ParetoPoint fixed). p.point_id) result ≡ "fp16" ∷ "int8" ∷ "int4" ∷ "slow" ∷ [])
    × (map (λ (p : ParetoPoint fixed). p.is_pareto_optimal) result
        ≡ false ∷ true ∷ true ∷ false ∷ [])
compute_pareto_frontier_optimal_example =
    compute_pareto_frontier_optimal fixed fixed-FloatOrder fixed-FloatNeg lower runs objectives
      (inl refl, (inr refl, tt))

lcs_length_longest_example :
    ((l : List ℕ) × Within (1 ∷ 2 ∷ 3 ∷ 4 ∷ []) l 4
      × Within (2 ∷ 4 ∷ 3 ∷ []) l 3
      × (length l ≡ lcs_length (1 ∷ 2 ∷ 3 ∷ 4 ∷ []) (2 ∷ 4 ∷ 3 ∷ [])))
    × ((l : List ℕ)
        → Within (1 ∷ 2 ∷ 3 ∷ 4 ∷ []) l 4
        → Within (2 ∷ 4 ∷ 3 ∷ []) l 3
        → length l ≤ lcs_length (1 ∷ 2 ∷ 3 ∷ 4 ∷ []) (2 ∷ 4 ∷ 3 ∷ []))
lcs_length_longest_example = lcs_length_longest (1 ∷ 2 ∷ 3 ∷ 4 ∷ []) (2 ∷ 4 ∷ 3 ∷ [])

token_matches_bounded_example :
    (token_matches (1 ∷ 2 ∷ 3 ∷ 4 ∷ []) (1 ∷ 3 ∷ 4 ∷ [])
      ≤ lcs_length (1 ∷ 2 ∷ 3 ∷ 4 ∷ []) (1 ∷ 3 ∷ 4 ∷ []))
    × (lcs_length (1 ∷ 2 ∷ 3 ∷ 4 ∷ []) (1 ∷ 3 ∷ 4 ∷ []) ≤ 4)
    × (lcs_length (1 ∷ 2 ∷ 3 ∷ 4 ∷ []) (1 ∷ 3 ∷ 4 ∷ []) ≤ 3)
token_matches_bounded_example = token_matches_bounded (1 ∷ 2 ∷ 3 ∷ 4 ∷ []) (1 ∷ 3 ∷ 4 ∷ [])
