-- ===== src/Eval/Orchestrator.antt =====
-- `EvaluationOrchestrator` and `BenchmarkOrchestrator` of eval_platform/orchestrator.py: the run of a
-- suite, composed of the latency profile, the statistics, the error analysis and the logger.
use cudaforge.Prelude.{
  ℕ, zero, suc, Bool, true, false, ◌&&◌, not, String, List, [], ◌∷◌, ◌++◌, Option, none, some, ◌⊎◌,
  inl, inr, Dict, if◌then◌else◌,
}
use cudaforge.Prelude.Int.{pos}
use cudaforge.Prelude.Float.{FloatOps}
use cudaforge.Eval.Latency.Profile.{
  Ran, done, threw, Statistics, LatencyProfileResult, profile_generation_loop,
}
use cudaforge.Eval.Analyzer.{Numpy, LatencyDistributionSummary, percent, compute_distribution}
use cudaforge.Eval.Workloads.Samples.{EvaluationSample}
use cudaforge.Eval.Workloads.ErrorAnalysis.{
  TextOps, ErrorAnalysisReport, Analyzed, report, value_error, analyze_quantization_drift,
}
use cudaforge.Eval.Tracking.Store.{Files}
use cudaforge.Eval.Tracking.Logger.{
  ExperimentRunRecord, LogError, raised, World, Op, parameters, metrics, raises, start_run,
}

-- What a suite is run with: the parts, and the values that the logger keeps.
pub record Parts (f : FloatOps) : Type 1 where
  pub st : Statistics f
  pub np : Numpy f
  pub text_ops : TextOps
  pub round4 : f.Float → f.Float
  pub Value : Type 0
  pub of_float : f.Float → Value
  pub of_nat : ℕ → Value

abbrev pub is_empty {ℓ} : {A : Type ℓ} → List A → Bool
is_empty [] = true
is_empty (x ∷ xs) = false

module _ {f : FloatOps} (parts : Parts f) where
  open f use {Float}
  open parts use {st, np, Value, of_float, of_nat}

  -- The arguments of a run; an absent list is empty.
  pub record Suite : Type 0 where
    pub prompt_len : ℕ
    pub gen_len : ℕ
    pub num_latency_runs : ℕ
    pub samples : List EvaluationSample
    pub baseline_outputs : List String
    pub quantized_outputs : List String
    pub seed : ℕ

  -- The fields that a run sets; the others keep their defaults.
  pub record BenchmarkSuiteResult : Type 0 where
    pub experiment_name : String
    pub run_id : String
    pub latency_summary : LatencyDistributionSummary f np
    pub error_report : Option (ErrorAnalysisReport f)

  -- The loop of the latency runs, behind the test for a CUDA device of each of them, with the latencies so far and the last result.
  unfoldable pub latency_runs :
      {S : Type 0}
      → Bool
      → (ℕ → S → Ran (Unit {0}) × S)
      → (S → S → Float)
      → Suite
      → ℕ
      → List Float
      → Option (LatencyProfileResult f st)
      → S
      → Ran (List Float × Option (LatencyProfileResult f st)) × S
  latency_runs cuda step_fn elapsed suite zero latencies last s = (done (latencies, last), s)
  latency_runs cuda step_fn elapsed suite (suc n) latencies last s =
      let (profiled, s') =
        profile_generation_loop f st step_fn elapsed cuda 2 suite.prompt_len suite.gen_len 1 s in
      elim profiled [
        | threw e ↦ (threw e, s')
        | done res ↦
            latency_runs cuda step_fn elapsed suite n (latencies ++ res.per_token_latencies_ms)
              (some res) s'
      ]

  abbrev pub of_last :
      (LatencyProfileResult f st → Float) → Option (LatencyProfileResult f st) → Float
  of_last field none = f.lit (pos 0) 1
  of_last field (some res) = field res

  abbrev pub latency_metrics :
      Option (LatencyProfileResult f st) → LatencyDistributionSummary f np → Dict String Value
  latency_metrics last lat_summary =
      ("ttft_ms", of_float (of_last (λ r. r.ttft_ms) last))
      ∷ ("itl_mean_ms", of_float lat_summary.mean)
      ∷ ("itl_p50_ms", of_float lat_summary.median_p50)
      ∷ ("itl_p95_ms", of_float lat_summary.p95)
      ∷ ("itl_p99_ms", of_float lat_summary.p99)
      ∷ ("prefill_tps", of_float (of_last (λ r. r.prefill_tps) last))
      ∷ ("generation_tps", of_float (of_last (λ r. r.generation_tps) last))
      ∷ []

  abbrev pub error_metrics : ErrorAnalysisReport f → Dict String Value
  error_metrics error_report =
      ("baseline_accuracy", of_float error_report.baseline_accuracy)
      ∷ ("quantized_accuracy", of_float error_report.quantized_accuracy)
      ∷ ("quant_degradation_rate", of_float error_report.quantization_degradation_rate)
      ∷ []

  abbrev pub run_parameters : Suite → Dict String Value
  run_parameters suite =
      ("prompt_len", of_nat suite.prompt_len)
      ∷ ("gen_len", of_nat suite.gen_len)
      ∷ ("num_latency_runs", of_nat suite.num_latency_runs)
      ∷ ("seed", of_nat suite.seed)
      ∷ []

  -- The optional third part: `none` where it is left out.
  unfoldable pub error_analysis : Suite → Option (Analyzed f)
  error_analysis suite =
      if not (is_empty suite.samples)
        && (not (is_empty suite.baseline_outputs) && not (is_empty suite.quantized_outputs))
      then some (
          analyze_quantization_drift f parts.text_ops parts.round4 suite.samples
            suite.baseline_outputs suite.quantized_outputs)
      else none

  -- `text_of` is the text of a `ValueError`, and the result is that of the suite or the text of an
  -- exception.
  module _ (Environment : Type 0) (F : Files) (text_of : String → String) where
    abbrev pub after_latency :
        String
        → String
        → LatencyDistributionSummary f np
        → Option (Analyzed f)
        → List (Op Value Environment F) × (String ⊎ BenchmarkSuiteResult)
    after_latency name run_id lat_summary none = (
      [],
      inr (record {
        experiment_name = name;
        run_id = run_id;
        latency_summary = lat_summary;
        error_report = none;
      }),
    )
    after_latency name run_id lat_summary (some (value_error e)) =
        (raises (text_of "analysis") ∷ [], inl (text_of "analysis"))
    after_latency name run_id lat_summary (some (report r)) = (
      metrics (error_metrics r) ∷ [],
      inr (record {
        experiment_name = name;
        run_id = run_id;
        latency_summary = lat_summary;
        error_report = some r;
      }),
    )

    abbrev pub with_summary :
        String
        → String
        → Suite
        → Option (LatencyProfileResult f st)
        → Option (LatencyDistributionSummary f np)
        → List (Op Value Environment F) × (String ⊎ BenchmarkSuiteResult)
    with_summary name run_id suite last none =
        (parameters (run_parameters suite) ∷ raises (text_of "empty") ∷ [], inl (text_of "empty"))
    with_summary name run_id suite last (some lat_summary) =
        let (rest, result) = after_latency name run_id lat_summary (error_analysis suite) in
        (
          parameters (run_parameters suite) ∷ metrics (latency_metrics last lat_summary) ∷ rest,
          result,
        )

    -- What the body of the `with` does to the logger, and what it returns.
    unfoldable pub suite_body :
        String
        → String
        → Suite
        → Ran (List Float × Option (LatencyProfileResult f st))
        → List (Op Value Environment F) × (String ⊎ BenchmarkSuiteResult)
    suite_body name run_id suite (threw e) =
        (parameters (run_parameters suite) ∷ raises e ∷ [], inl e)
    suite_body name run_id suite (done (latencies, last)) =
        with_summary name run_id suite last
          (compute_distribution f np latencies 100 (percent f np 95 2) 42)

    pub data Outcome : Type 0 where
      returned : BenchmarkSuiteResult → Outcome
      failed_with : LogError Value Environment → Outcome

    abbrev pub outcome :
        Option (LogError Value Environment) → String ⊎ BenchmarkSuiteResult → Outcome
    outcome (some e) result = failed_with e
    outcome none (inl e) = failed_with (raised e)
    outcome none (inr r) = returned r

    -- `run_end_to_end_benchmark`, with the record that `start_run` makes.
    unfoldable pub run_end_to_end_benchmark :
        {S : Type 0}
        → (ExperimentRunRecord Value Environment → F.Content × Option String)
        → (LogError Value Environment → String)
        → ExperimentRunRecord Value Environment
        → String
        → Bool
        → (ℕ → S → Ran (Unit {0}) × S)
        → (S → S → Float)
        → Suite
        → World Value Environment F
        → S
        → Outcome × World Value Environment F
    unfolding suite_body latency_runs
    run_end_to_end_benchmark dump text fresh end cuda step_fn elapsed suite w s =
        let (profiled, s') =
          latency_runs cuda step_fn elapsed suite suite.num_latency_runs [] none s in
        let (ops, result) = suite_body fresh.experiment_name fresh.run_id suite profiled in
        let (err, w') = start_run Value Environment F dump text fresh ops end w in
        (outcome err result, w')
