-- ===== src/Eval/Tracking/Logger.antt =====
-- `ExperimentLogger` of experiment_logger.py. The state of the repository and of the hardware is one
-- opaque value.
use cudaforge.Prelude.{ℕ, String, List, [], ◌∷◌, ◌++◌, Option, none, some, Dict, insert, string_eq}
use cudaforge.Eval.Tracking.Store.{
  Files, ArtifactManifest, Stored, stored, file_not_found, outside_store, not_serializable,
  FileSystem, store_file, store_json,
}

pub data Status : Type 0 where
  running success failed : Status

module _ (Value Environment : Type 0) where
  pub record ExperimentRunRecord : Type 0 where
    pub run_id : String
    pub experiment_name : String
    pub seed : ℕ
    pub status : Status
    pub start_time : String
    pub end_time : Option String
    pub environment : Environment
    pub parameters : Dict String Value
    pub metrics : Dict String Value
    pub artifacts : List ArtifactManifest
    pub error_log : Option String

  pub data LogError : Type 0 where
    no_active_run no_file outside : LogError
    raised : String → LogError

  -- The record with its mutable fields replaced.
  abbrev pub edited :
      ExperimentRunRecord
      → Status
      → Option String
      → Dict String Value
      → Dict String Value
      → List ArtifactManifest
      → Option String
      → ExperimentRunRecord
  edited r status end_time parameters metrics artifacts error_log = record {
    run_id = r.run_id;
    experiment_name = r.experiment_name;
    seed = r.seed;
    status = status;
    start_time = r.start_time;
    end_time = end_time;
    environment = r.environment;
    parameters = parameters;
    metrics = metrics;
    artifacts = artifacts;
    error_log = error_log;
  }

  -- `d.update(new)`
  abbrev pub update : Dict String Value → Dict String Value → Dict String Value
  update d [] = d
  update d ((k, v) ∷ new) = update (insert k v d) new

  module _ (F : Files) where
    pub record World : Type 0 where
      pub current_run : Option ExperimentRunRecord
      pub files : FileSystem F

    -- An assignment to fields of the current run.
    abbrev pub with_run : ExperimentRunRecord → World → World
    with_run r w = record { current_run = some r; files = w.files }

    unfoldable pub log_parameters : Dict String Value → World → Option LogError × World
    log_parameters params w = elim w.current_run [
      | none ↦ (some no_active_run, w)
      | some r ↦ (
        none,
        with_run
            (edited r r.status r.end_time (update r.parameters params) r.metrics r.artifacts
              r.error_log)
            w,
      )
    ]

    unfoldable pub log_metrics : Dict String Value → World → Option LogError × World
    log_metrics metrics w = elim w.current_run [
      | none ↦ (some no_active_run, w)
      | some r ↦ (
        none,
        with_run
            (edited r r.status r.end_time r.parameters (update r.metrics metrics) r.artifacts
              r.error_log)
            w,
      )
    ]

    abbrev pub keep_manifest : ExperimentRunRecord → Stored × FileSystem F → Option LogError × World
    keep_manifest r (stored m, fs) = (
      none,
      record {
        current_run = some (
            edited r r.status r.end_time r.parameters r.metrics (r.artifacts ++ m ∷ [])
              r.error_log);
        files = fs;
      },
    )
    keep_manifest r (file_not_found, fs) =
        (some no_file, record { current_run = some r; files = fs })
    keep_manifest r (outside_store, fs) =
        (some outside, record { current_run = some r; files = fs })
    keep_manifest r (not_serializable e, fs) =
        (some (raised e), record { current_run = some r; files = fs })

    unfoldable pub log_artifact : F.FilePath → String → String → World → Option LogError × World
    log_artifact source_path content_type now w = elim w.current_run [
      | none ↦ (some no_active_run, w)
      | some r ↦ keep_manifest r (store_file F source_path r.run_id content_type now w.files)
    ]

    -- What the code inside of a run does to the logger: the calls, and an `Exception` of its own.
    pub data Op : Type 0 where
      parameters metrics : Dict String Value → Op
      artifact : F.FilePath → String → String → Op
      raises : String → Op

    unfoldable pub perform : Op → World → Option LogError × World
    unfolding log_parameters log_metrics log_artifact
    perform (parameters d) w = log_parameters d w
    perform (metrics d) w = log_metrics d w
    perform (artifact p t now) w = log_artifact p t now w
    perform (raises e) w = (some (raised e), w)

    -- The body of a run, up to its first exception.
    unfoldable pub run_body : List Op → World → Option LogError × World
    unfolding perform
    run_body [] w = (none, w)
    run_body (op ∷ ops) w =
        let (err, w') = perform op w in elim err [ none ↦ run_body ops w' | some e ↦ (some e, w') ]

    abbrev pub flushed : Stored → Option LogError
    flushed (stored m) = none
    flushed file_not_found = some no_file
    flushed outside_store = some outside
    flushed (not_serializable e) = some (raised e)

    -- `_flush_run_manifest`, with `dump` the serialization of a record.
    unfoldable pub flush :
        (ExperimentRunRecord → F.Content × Option String) → String → World → Option LogError × World
    flush dump now w = elim w.current_run [
      | none ↦ (none, w)
      | some r ↦
          let (result, fs) = store_json F dump r r.run_id "run_manifest.json" now w.files in
          (flushed result, record { current_run = some r; files = fs })
    ]

    -- The `except` and the `finally` on the current run.
    abbrev pub closed :
        (LogError → String) → Option LogError → String → ExperimentRunRecord → ExperimentRunRecord
    closed text none end r =
        edited r success (some end) r.parameters r.metrics r.artifacts r.error_log
    closed text (some e) end r =
        edited r failed (some end) r.parameters r.metrics r.artifacts (some (text e))

    abbrev pub close : (LogError → String) → Option LogError → String → World → World
    close text err end w = elim w.current_run [
      | none ↦ w
      | some r ↦ with_run (closed text err end r) w
    ]

    -- An exception of the `finally` takes the place of the body's.
    abbrev pub or_else : Option LogError → Option LogError → Option LogError
    or_else none err = err
    or_else (some e) err = some e

    -- `fresh` has the fields that are set at the start; `text` is `str(err)`.
    unfoldable pub start_run :
        (ExperimentRunRecord → F.Content × Option String)
        → (LogError → String)
        → ExperimentRunRecord
        → List Op
        → String
        → World
        → Option LogError × World
    unfolding run_body flush
    start_run dump text fresh ops end w =
        let (err, w1) = run_body ops (with_run (edited fresh running none [] [] [] none) w) in
        let (late, w2) = flush dump end (close text err end w1) in (or_else late err, w2)
