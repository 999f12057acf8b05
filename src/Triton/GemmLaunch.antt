-- ===== src/Triton/GemmLaunch.antt =====
-- The launch of the INT4 kernel: the output matrix after all programs of the grid.
use cudaforge.Prelude.{ltb_true, ℕ, suc, ◌+◌, ◌*◌, ◌/◌, ◌%◌, ◌<◌, ◌≡◌, ◌∙◌, true, ◌&&◌, ltb, arith}
use mathlib.Core.Path.{subst, ap₂}
use cudaforge.Prelude.Float.{FloatOps}
use cudaforge.Triton.Device.{DeviceMath, ExactMath, cdiv, each, store}
use cudaforge.Triton.Stores.{
  Agree, hits, Agree-each, Agree-store, hits-each, hits-store, after_value,
}
use cudaforge.Triton.Int4Gemm.{Gemm, block, acc, gemm_program, int4_gemm_dequant_triton}
use cudaforge.Triton.Dequant.{IsPacked, IsApart, IsNumericGemm, product, acc-product, and_true}

and-ltb : (a b c d : ℕ) → (ltb a b && ltb c d) ≡ true → (a < b) × (c < d)
and-ltb a b c d h = (ground arith, ground arith)

module _ {f : FloatOps} {math : DeviceMath f} (x : ExactMath f math) (g : Gemm f math)
    (w : ℕ → ℕ → ℕ) (packed : IsPacked g w) (numeric : IsNumericGemm x g) (c : ℕ)
    (grouped : g.group_size ≡ block * suc c) (apart : IsApart g) (m n : ℕ) (m_lt : m < g.M)
    (n_lt : n < g.N) where
  abbrev here : ℕ
  here = m * g.stride_cm + n * g.stride_cn

  stores-Agree :
      (m' n' : ℕ)
      → Agree here (product g w m n) (
          store
            (ltb m' g.M && ltb n' g.N)
            (m' * g.stride_cm + n' * g.stride_cn)
            (math.half (acc f math g m' n' (cdiv g.K block))))
  stores-Agree m' n' = Agree-store here (product g w m n) (ltb m' g.M && ltb n' g.N) _ _ (λ mask e.
      let (m_lt', n_lt') = and-ltb m' g.M n' g.N mask in
      let (me, ne) = apart m' n' m n (m_lt', n_lt') (m_lt, n_lt) e in
      x.half_exact _
      ∙ acc-product x g w packed numeric c grouped m' n' m_lt' n_lt'
      ∙ ap₂ (product g w) me ne)

  gemm_program-hits : hits here (gemm_program f math g (m / block) (n / block)) ≡ true
  unfolding gemm_program
  gemm_program-hits =
      let row : m ≡ m / block * block + m % block = omega arith in
      let column : n ≡ n / block * block + n % block = omega arith in
      let one = λ (m' n' : ℕ).
        store (ltb m' g.M && ltb n' g.N) (m' * g.stride_cm + n' * g.stride_cn)
          (math.half (acc f math g m' n' (cdiv g.K block))) in
      let mask = and_true _ _ (ltb_true m g.M m_lt) (ltb_true n g.N n_lt) in
      let there : hits here (one (m / block * block + m % block) (n / block * block + n % block))
          ≡ true =
        subst (λ b. hits here (one b (n / block * block + n % block)) ≡ true) row
          (subst (λ b. hits here (one m b) ≡ true) column
            (hits-store here (ltb m g.M && ltb n g.N)
              (math.half (acc f math g m n (cdiv g.K block))) mask)) in
      hits-each here (m % block) block
        (λ i. each block (λ j. one (m / block * block + i) (n / block * block + j))) (omega arith)
        (hits-each here (n % block) block
          (λ j. one (m / block * block + m % block) (n / block * block + j)) (omega arith) there)

  -- After the launch, an entry of the output is the sum, over the inner dimension, of the activation
  -- times the weight at its place in the packed words times the scale of the weight's group,
  -- whatever the buffer held before. This holds in arithmetic without rounding, when scales and
  -- weights are numbers, the group size is a positive multiple of 32 and the output's strides keep
  -- its entries apart. The zero points play no part.
  pub int4_gemm_dequant_triton-product :
      (buffer : ℕ → f.Float)
      → int4_gemm_dequant_triton f math g buffer (m * g.stride_cm + n * g.stride_cn)
        ≡ product g w m n
  unfolding int4_gemm_dequant_triton gemm_program
  int4_gemm_dequant_triton-product buffer =
      after_value here (product g w m n) _ buffer
        (Agree-each here _ (cdiv g.M block) _ (λ pid_m lt.
          Agree-each here _ (cdiv g.N block) _ (λ pid_n lt'. Agree-each here _ block _ (λ i lt_i.
            Agree-each here _ block _
              (λ j lt_j. stores-Agree (pid_m * block + i) (pid_n * block + j))))))
        (hits-each here (m / block) (cdiv g.M block)
          (λ pid_m. each (cdiv g.N block) (λ pid_n. gemm_program f math g pid_m pid_n))
          (omega arith)
          (hits-each here (n / block) (cdiv g.N block) (gemm_program f math g (m / block))
            (omega arith) gemm_program-hits))
