-- ===== src/Eval/SuiteRecords.antt =====
-- What a suite's run returns and what it leaves in the logger agree.
use cudaforge.Prelude.{◌≡◌, String, List, [], Option, none, some, ◌⊎◌, lookup, string_eq}
use cudaforge.Prelude.Float.{FloatOps}
use cudaforge.Eval.Workloads.ErrorAnalysis.{ErrorAnalysisReport}
use cudaforge.Eval.Tracking.Store.{Files}
use cudaforge.Eval.Tracking.Logger.{
  running, success, failed, ExperimentRunRecord, LogError, edited, metrics, World, with_run, Op,
  run_body, closed,
}
use cudaforge.Eval.Orchestrator.{
  Parts, BenchmarkSuiteResult, Outcome, returned, failed_with, outcome,
}

module _ {f : FloatOps} (parts : Parts f) (E : Type 0) (F : Files) (text_of : String → String) where
  open parts use {Value, of_float}

  -- The record of a run that returned a suite's result, and of one that raised.
  pub record Agrees (fresh r : ExperimentRunRecord Value E) (b : BenchmarkSuiteResult parts)
      : Type 0 where
    pub status : r.status ≡ success
    pub run : b.run_id ≡ r.run_id
    pub p50 : lookup "itl_p50_ms" r.metrics ≡ some (of_float b.latency_summary.median_p50)
    pub p95 : lookup "itl_p95_ms" r.metrics ≡ some (of_float b.latency_summary.p95)
    pub mean : lookup "itl_mean_ms" r.metrics ≡ some (of_float b.latency_summary.mean)
    pub p99 : lookup "itl_p99_ms" r.metrics ≡ some (of_float b.latency_summary.p99)
    pub accuracy :
        (e : ErrorAnalysisReport f)
        → b.error_report ≡ some e
        → (lookup "baseline_accuracy" r.metrics ≡ some (of_float e.baseline_accuracy))
          × (lookup "quantized_accuracy" r.metrics ≡ some (of_float e.quantized_accuracy))
          × (lookup "quant_degradation_rate" r.metrics
              ≡ some (of_float e.quantization_degradation_rate))

  abbrev pub Fits :
      (LogError Value E → String)
      → ExperimentRunRecord Value E
      → ExperimentRunRecord Value E
      → Outcome parts E F text_of
      → Type 0
  Fits text fresh r (returned b) = Agrees fresh r b
  Fits text fresh r (failed_with e) = (r.status ≡ failed) × (r.error_log ≡ some (text e))

  -- The logger after the operations of a body, from a fresh record on.
  abbrev after_body :
      ExperimentRunRecord Value E
      → World Value E F
      → List (Op Value E F)
      → Option (LogError Value E) × World Value E F
  after_body fresh w ops =
      run_body Value E F ops
        (with_run Value E F (edited Value E fresh running none [] [] [] none) w)

  Settled :
      (LogError Value E → String)
      → ExperimentRunRecord Value E
      → String
      → World Value E F
      → List (Op Value E F) × (String ⊎ BenchmarkSuiteResult parts)
      → Type 0
  Settled text fresh end w (ops, result) =
      (r : ExperimentRunRecord Value E) × ((after_body fresh w ops).1.current_run ≡ some r)
      × (r.run_id ≡ fresh.run_id)
      × Fits text fresh (closed Value E F text (after_body fresh w ops).0 end r)
          (outcome parts E F text_of (after_body fresh w ops).0 result)
