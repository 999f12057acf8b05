-- ===== src/Eval/Matrix.antt =====
-- `BenchmarkOrchestrator` of eval_platform/orchestrator.py: the matrix of configurations.
use cudaforge.Prelude.{ℕ, ◌+◌, ◌*◌, List, [], ◌∷◌, ◌++◌}
use cudaforge.Prelude.Int.{pos}
use cudaforge.Prelude.Float.{FloatOps}

pub data PrecisionMode : Type 0 where
  fp16 fp32 int8 int4 : PrecisionMode

pub data KernelBackend : Type 0 where
  cuda_flash_v2 pytorch_sdpa triton : KernelBackend

pub record BenchmarkPointConfig : Type 0 where
  pub batch_size : ℕ
  pub prompt_len : ℕ
  pub gen_len : ℕ
  pub precision : PrecisionMode
  pub kernel_backend : KernelBackend

pub record MatrixConfig : Type 0 where
  pub batch_sizes : List ℕ
  pub context_lengths : List ℕ
  pub precisions : List PrecisionMode
  pub kernel_backends : List KernelBackend
  pub gen_length : ℕ

pub data MatrixStatus : Type 0 where
  success : MatrixStatus

abbrev pub bytes_per_elem : PrecisionMode → ℕ
bytes_per_elem fp16 = 2
bytes_per_elem int8 = 2
bytes_per_elem fp32 = 4
bytes_per_elem int4 = 4

unfoldable pub estimate_vram_bytes : BenchmarkPointConfig → ℕ
estimate_vram_bytes config =
    config.batch_size
    * (config.prompt_len + config.gen_len)
    * 1024
    * bytes_per_elem config.precision

-- `for x in xs: body(x)`, where the body appends to `results`.
abbrev pub for_each {ℓ κ} :
    {A : Type ℓ} {R : Type κ} → List A → (A → List R → List R) → List R → List R
for_each [] body results = results
for_each (x ∷ xs) body results = for_each xs body (body x results)

module _ (f : FloatOps) where
  pub record MatrixBenchmarkResult : Type 0 where
    pub status : MatrixStatus
    pub throughput_tps : f.Float
    pub ttft_ms : f.Float
    pub peak_vram_mb : f.Float

  abbrev pub default_result : MatrixBenchmarkResult
  default_result = record {
    status = success;
    throughput_tps = f.lit (pos 1200) 1;
    ttft_ms = f.lit (pos 150) 1;
    peak_vram_mb = f.lit (pos 2560) 1;
  }

  unfoldable pub run_matrix : MatrixConfig → List MatrixBenchmarkResult
  run_matrix matrix_cfg =
      for_each matrix_cfg.batch_sizes
        (λ bs. for_each matrix_cfg.context_lengths (λ ctx. for_each matrix_cfg.precisions (λ prec.
          for_each matrix_cfg.kernel_backends (λ backend results. results ++ default_result ∷ []))))
        []
