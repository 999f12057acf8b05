-- ===== src/Eval/Pareto/Sweep.antt =====
-- The in-place search for non-dominated rows in eval_platform/statistics/pareto.py.
use cudaforge.Prelude.{
  ℕ, zero, suc, ◌+◌, Bool, true, false, not, ◌&&◌, List, ◌∷◌, none, some, nat_beq, get_elem?,
  get_or, set, length, replicate, if◌then◌else◌,
}

module _ {ℓ} {R : Type ℓ} (dominates : R → R → Bool) where
  -- The loop over `j`: another row that is still marked dominates row `i`.
  unfoldable pub scan : ℕ → ℕ → R → List R → List Bool → Bool
  scan i j row (r ∷ rs) (f ∷ fs) =
      let rest = scan i (j + 1) row rs fs in
      if not (nat_beq i j) && f && dominates r row then true else rest
  scan i j row _ _ = false

  -- One round of the loop over `i`.
  unfoldable pub visit : ℕ → List R → List Bool → List Bool
  unfolding scan
  visit i matrix is_optimal = elim (get_elem? matrix i) [
    | none ↦ is_optimal
    | some row ↦
        if get_or is_optimal i false && scan i 0 row matrix is_optimal
        then set is_optimal i false
        else is_optimal
  ]

  unfoldable pub visit_all : ℕ → ℕ → List R → List Bool → List Bool
  unfolding visit
  visit_all zero i matrix is_optimal = is_optimal
  visit_all (suc n) i matrix is_optimal = visit_all n (i + 1) matrix (visit i matrix is_optimal)

  unfoldable pub find_optimal : List R → List Bool
  unfolding visit_all
  find_optimal matrix = visit_all (length matrix) 0 matrix (replicate (length matrix) true)
