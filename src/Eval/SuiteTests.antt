-- ===== src/Eval/SuiteTests.antt =====
-- A small suite.
use cudaforge.Prelude.{
  ℕ, ◌+◌, ◌-◌, ◌*◌, ◌≡◌, ◌↔◌, Bool, true, false, ◌&&◌, String, List, [], ◌∷◌, replicate, none, some,
  ◌==◌, string_eq, arith,
}
use cudaforge.Prelude.Int.{ℤ, pos}
use cudaforge.Fixed.{fixed}
use cudaforge.Eval.Latency.Profile.{Ran, done, Statistics}
use cudaforge.Eval.Analyzer.{Numpy}
use cudaforge.Eval.Tracking.Store.{Files}
use cudaforge.Eval.Tracking.Logger.{running, ExperimentRunRecord, World}
use cudaforge.Eval.Orchestrator.{Parts, Suite, Outcome, run_end_to_end_benchmark}

-- The first entry stands for all statistics.
abbrev first_of : List ℤ → ℤ
first_of [] = pos 0
first_of (x ∷ xs) = x

abbrev first_numpy : Numpy fixed
first_numpy = record {
  is_nan = λ x. false;
  mean = first_of;
  std = first_of;
  var = first_of;
  percentile = λ xs q. first_of xs;
  median = first_of;
  abs = λ x. x;
  Rng = Unit {0};
  default_rng = λ seed. tt;
  choice = λ rng xs n. (replicate n (first_of xs), rng);
}

abbrev statistics : Statistics fixed
statistics = record {
  mean = λ xs. pos 0;
  stdev = λ xs. pos 0;
  sorted = λ xs. xs;
  floor = λ x. 0;
  ceil = λ x. 0;
}

abbrev Place : Type 0
Place = String × String

abbrev same_place : Place → Place → Bool
same_place p q = p.0 == q.0 && p.1 == q.1

same_place_iff : (p q : Place) → (same_place p q ≡ true) ↔ (p ≡ q)
same_place_iff p q = ground (arith, string_eq.beq_iff p.0 q.0, string_eq.beq_iff p.1 q.1)

abbrev shelf : Files
shelf = record {
  FilePath = Place;
  path_eq = record { beq = same_place; beq_iff = same_place_iff };
  Content = String;
  resolve = λ p. p;
  name = λ p. p.1;
  under = λ d n. (d, n);
  relative = λ p. some p.1;
  sha256 = λ c. c;
  size = λ c. 1;
  ends_with = λ s t. true;
  append = λ s t. s;
  artifact_id = λ h. h;
}

abbrev small_parts : Parts fixed
small_parts = record {
  st = statistics;
  np = first_numpy;
  text_ops = record { strip = λ s. s; lower = λ s. s; squeeze = λ s. s };
  round4 = λ x. x;
  Value = ℤ;
  of_float = λ x. x;
  of_nat = pos;
}

abbrev suite_of : ℕ → Suite small_parts
suite_of runs = record {
  prompt_len = 512;
  gen_len = 3;
  num_latency_runs = runs;
  samples = [];
  baseline_outputs = [];
  quantized_outputs = [];
  seed = 42;
}

abbrev fresh : ExperimentRunRecord ℤ ℕ
fresh = record {
  run_id = "suite_1";
  experiment_name = "bench";
  seed = 42;
  status = running;
  start_time = "noon";
  end_time = none;
  environment = 0;
  parameters = [];
  metrics = [];
  artifacts = [];
  error_log = none;
}

abbrev no_world : World ℤ ℕ shelf
no_world = record { current_run = none; files = [] }

abbrev tick : ℕ → ℕ → ℤ
tick before later = pos (1000 * (later - before))

abbrev advance : ℕ → ℕ → Ran (Unit {0}) × ℕ
advance step s = (done tt, s + 1)

abbrev ran : ℕ → Outcome small_parts ℕ shelf (λ s. s) × World ℤ ℕ shelf
ran runs =
    run_end_to_end_benchmark small_parts ℕ shelf (λ s. s) (λ r. (r.run_id, none)) (λ e. "error")
      fresh "one" true advance tick (suite_of runs) no_world 0
