-- ===== src/Eval/SuiteRuns.antt =====
-- Which suites return a result.
use cudaforge.Prelude.{String, List, [], none, ◌⊎◌}
use cudaforge.Prelude.Float.{FloatOps}
use cudaforge.Eval.Tracking.Store.{Files}
use cudaforge.Eval.Tracking.Logger.{
  running, ExperimentRunRecord, Op, edited, World, with_run, run_body,
}
use cudaforge.Eval.Orchestrator.{Parts, BenchmarkSuiteResult, Outcome, outcome}

module _ {f : FloatOps} (parts : Parts f) (E : Type 0) (F : Files) (text_of : String → String) where
  open parts use {Value}

  -- The outcome of a body, without the closing of the run.
  abbrev settled :
      ExperimentRunRecord Value E
      → World Value E F
      → List (Op Value E F) × (String ⊎ BenchmarkSuiteResult parts)
      → Outcome parts E F text_of
  settled fresh w (ops, result) =
      outcome parts E F text_of
        (run_body Value E F ops
          (with_run Value E F (edited Value E fresh running none [] [] [] none) w)).0
        result
