-- ===== src/Eval/Tracking/Tests.antt =====
-- A store whose paths are a directory and a name, and a run that logs to it.
use cudaforge.Prelude.{
  ℕ, ◌≡◌, refl, Bool, true, String, List, [], ◌∷◌, Option, none, some, string_eq, ◌==◌, ◌&&◌, ◌↔◌,
  arith,
}
use cudaforge.Eval.Tracking.Store.{Files, FileSystem, Stored, read, store_file}
use cudaforge.Eval.Tracking.Logger.{
  running, success, failed, ExperimentRunRecord, LogError, edited, World, with_run, Op, metrics,
  artifact, raises, run_body, start_run,
}
use cudaforge.Eval.Tracking.Recorded.{or_body, start_run_recorded}

abbrev Place : Type 0
Place = String × String

abbrev same_place : Place → Place → Bool
same_place p q = p.0 == q.0 && p.1 == q.1

same_place_iff : (p q : Place) → (same_place p q ≡ true) ↔ (p ≡ q)
same_place_iff p q = ground (arith, string_eq.beq_iff p.0 q.0, string_eq.beq_iff p.1 q.1)

abbrev files : Files
files = record {
  FilePath = Place;
  path_eq = record { beq = same_place; beq_iff = same_place_iff };
  Content = String;
  resolve = λ p. p;
  name = λ p. p.1;
  under = λ d n. (d, n);
  relative = λ p. some p.1;
  sha256 = λ c. c;
  size = λ c. 1;
  ends_with = λ s t. true;
  append = λ s t. s;
  artifact_id = λ h. h;
}

abbrev disk : FileSystem files
disk = (("home", "log.txt"), "lines") ∷ (("r1", "old.txt"), "kept") ∷ []

abbrev source : Place
source = ("home", "log.txt")

abbrev after : Stored × FileSystem files
after = store_file files source "r1" "raw" "noon" disk

abbrev fresh : ExperimentRunRecord ℕ ℕ
fresh = record {
  run_id = "r1";
  experiment_name = "bench";
  seed = 42;
  status = running;
  start_time = "noon";
  end_time = none;
  environment = 0;
  parameters = [];
  metrics = [];
  artifacts = [];
  error_log = none;
}

-- The body logs a metric and an artifact, and then raises.
abbrev body : List (Op ℕ ℕ files)
body = metrics (("ttft_ms", 15) ∷ []) ∷ artifact source "raw" "noon" ∷ raises "out of memory" ∷ []

abbrev empty_world : World ℕ ℕ files
empty_world = record { current_run = none; files = disk }

-- The error log of the record cannot be serialized.
abbrev dump : ExperimentRunRecord ℕ ℕ → String × Option String
dump r = (r.run_id, r.error_log)

abbrev text : LogError ℕ ℕ → String
text e = "error"

abbrev err : Option (LogError ℕ ℕ)
err =
    (run_body ℕ ℕ files body
      (with_run ℕ ℕ files (edited ℕ ℕ fresh running none [] [] [] none) empty_world)).0

abbrev result : Option (LogError ℕ ℕ) × World ℕ ℕ files
result = start_run ℕ ℕ files dump text fresh body "one" empty_world

start_run_recorded_example :
    (r : ExperimentRunRecord ℕ ℕ) × (result.0 ≡ or_body ℕ ℕ files (dump r).1 err)
    × (result.1.current_run ≡ some r)
    × (r.run_id ≡ "r1")
    × (r.end_time ≡ some "one")
    × (err ≡ none → r.status ≡ success)
    × ((e : LogError ℕ ℕ) → err ≡ some e → (r.status ≡ failed) × (r.error_log ≡ some (text e)))
    × (read files ("r1", "run_manifest.json") result.1.files ≡ some (dump r).0)
start_run_recorded_example =
    start_run_recorded ℕ ℕ files dump text fresh body "one" empty_world
      (record { suffix = refl; home = refl; rel = "run_manifest.json"; inside = refl })
