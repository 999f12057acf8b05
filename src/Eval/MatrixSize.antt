-- ===== src/Eval/MatrixSize.antt =====
-- How many results a matrix of configurations has.
use cudaforge.Prelude.{
  ℕ, zero, suc, ◌+◌, ◌*◌, ◌≡◌, refl, ap, ◌∙◌, List, [], ◌∷◌, ◌++◌, length, replicate, arith,
}
use cudaforge.Prelude.Float.{FloatOps}
use cudaforge.Eval.Matrix.{MatrixConfig, for_each, default_result, run_matrix}

module _ {ℓ} {R : Type ℓ} (r : R) where
  replicate-add : (n m : ℕ) → replicate n r ++ replicate m r ≡ replicate (n + m) r
  replicate-add zero m = let e : 0 + m ≡ m = omega arith in rw e refl
  replicate-add (suc n) m =
      let e : suc n + m ≡ suc (n + m) = omega arith in rw e (ap (λ l. r ∷ l) (replicate-add n m))

  -- A body that appends `k` results, for every element.
  for_each-replicate :
      {A : Type 0} (xs : List A) (body : A → List R → List R) (k n : ℕ)
      → ((x : A) (m : ℕ) → body x (replicate m r) ≡ replicate (m + k) r)
      → for_each xs body (replicate n r) ≡ replicate (n + length xs * k) r
  for_each-replicate [] body k n adds = let e : n + 0 * k ≡ n = omega arith in rw e refl
  for_each-replicate (x ∷ xs) body k n adds =
      let e : n + k + length xs * k ≡ n + suc (length xs) * k = omega arith in
      ap (for_each xs body) (adds x n)
      ∙ for_each-replicate xs body k (n + k) adds
      ∙ ap (λ m. replicate m r) e

times_one : (n : ℕ) → n * 1 ≡ n
times_one n = omega arith

-- The matrix gives one result for each combination of its four axes, and each of them is the default
-- one, whatever the configuration.
run_matrix-replicate :
    (f : FloatOps) (cfg : MatrixConfig)
    → run_matrix f cfg
      ≡ replicate
          (length cfg.batch_sizes
            * (length cfg.context_lengths * (length cfg.precisions * length cfg.kernel_backends)))
          (default_result f)
unfolding run_matrix
run_matrix-replicate f cfg =
    let one = default_result f in
    let backends = length cfg.kernel_backends in
    let start : 0
          + length cfg.batch_sizes
            * (length cfg.context_lengths * (length cfg.precisions * backends))
        ≡ length cfg.batch_sizes
          * (length cfg.context_lengths * (length cfg.precisions * backends)) =
      omega arith in
    for_each-replicate one cfg.batch_sizes _
      (length cfg.context_lengths * (length cfg.precisions * backends)) 0
      (λ bs m.
        for_each-replicate one cfg.context_lengths _ (length cfg.precisions * backends) m (λ ctx m.
          for_each-replicate one cfg.precisions _ backends m (λ prec m.
            for_each-replicate one cfg.kernel_backends _ 1 m (λ backend m. replicate-add one m 1)
            ∙ ap (λ k. replicate (m + k) one) (times_one backends))))
    ∙ ap (λ k. replicate k one) start
