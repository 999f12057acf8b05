-- ===== src/Eval/Tracking/Recorded.antt =====
-- What a run leaves behind.
use cudaforge.Prelude.{
  ◌≡◌, refl, ap, beq_refl, ◌∙◌, true, String, List, [], ◌∷◌, Option, none, some, Option-cases, inl,
  inr, arith,
}
use mathlib.Core.Path.{subst}
use cudaforge.Eval.Tracking.Store.{
  Files, Stored, stored, file_not_found, outside_store, not_serializable, FileSystem, read, write,
  dest_of, json_name, store_file, store_json,
}
use cudaforge.Eval.Tracking.Stored.{read-write, store_file_indexed}
use cudaforge.Eval.Tracking.Logger.{
  running, success, failed, ExperimentRunRecord, LogError, raised, edited, World, with_run,
  log_parameters, log_metrics, log_artifact, keep_manifest, Op, parameters, metrics, artifact,
  raises, perform, run_body, flush, closed, close, or_else, start_run,
}

-- The run's manifest stands in the store under its own name.
pub record IsTidy (F : Files) (run_id : String) : Type 0 where
  pub suffix : F.ends_with "run_manifest.json" ".json" ≡ true
  pub home :
      dest_of F (F.under run_id "run_manifest.json") run_id
      ≡ F.resolve (F.under run_id "run_manifest.json")
  pub rel : String
  pub inside : F.relative (F.resolve (F.under run_id "run_manifest.json")) ≡ some rel

module _ (V E : Type 0) (F : Files) where
  -- The logger has an active run, with this identifier.
  abbrev HasRun : String → World V E F → Type 0
  HasRun run_id w = (r : ExperimentRunRecord V E) × (w.current_run ≡ some r) × (r.run_id ≡ run_id)

  keep_manifest-HasRun :
      (r : ExperimentRunRecord V E) (s : Stored) (fs : FileSystem F)
      → HasRun r.run_id (keep_manifest V E F r (s, fs)).1
  keep_manifest-HasRun r (stored m) fs = (_, refl, refl)
  keep_manifest-HasRun r file_not_found fs = (_, refl, refl)
  keep_manifest-HasRun r outside_store fs = (_, refl, refl)
  keep_manifest-HasRun r (not_serializable e) fs = (_, refl, refl)

  perform-HasRun :
      (op : Op V E F) (w : World V E F) (run_id : String)
      → HasRun run_id w
      → HasRun run_id (perform V E F op w).1
  unfolding perform log_parameters log_metrics log_artifact
  perform-HasRun (parameters d) w run_id (r, e, i) = rw e (_, refl, i)
  perform-HasRun (metrics d) w run_id (r, e, i) = rw e (_, refl, i)
  perform-HasRun (artifact p t now) w run_id (r, e, i) =
      let s = store_file F p r.run_id t now w.files in
      let (r', e', i') = keep_manifest-HasRun r s.0 s.1 in rw e (r', e', i' ∙ i)
  perform-HasRun (raises m) w run_id h = h

  run_body-HasRun :
      (ops : List (Op V E F)) (w : World V E F) (run_id : String)
      → HasRun run_id w
      → HasRun run_id (run_body V E F ops w).1
  unfolding run_body
  run_body-HasRun [] w run_id h = h
  run_body-HasRun (op ∷ ops) w run_id h =
      let h' = perform-HasRun op w run_id h in
      elim (Option-cases (perform V E F op w).0) [
        | inl e ↦ rw (e, run_body) (run_body-HasRun ops (perform V E F op w).1 run_id h')
        | inr (m, e) ↦ rw (e, run_body) h'
      ]

  -- An exception of the serialization takes the place of the body's.
  abbrev pub or_body : Option String → Option (LogError V E) → Option (LogError V E)
  or_body none err = err
  or_body (some e) err = some (raised e)

  flush_lem :
      (dump : ExperimentRunRecord V E → F.Content × Option String) (now : String) (w : World V E F)
      (r : ExperimentRunRecord V E)
      → w.current_run ≡ some r
      → IsTidy F r.run_id
      → let result = flush V E F dump now w in
        (result.0 ≡ or_body (dump r).1 none)
        × (result.1.current_run ≡ some r)
        × (read F (F.resolve (F.under r.run_id "run_manifest.json")) result.1.files
            ≡ some (dump r).0)
  unfolding flush store_json json_name
  flush_lem dump now w r e tidy =
      let target = F.under r.run_id "run_manifest.json" in
      let path = F.resolve target in
      let fs = write F path (dump r).0 w.files in
      let written : read F path fs ≡ some (dump r).0 =
        rw (read-write F path path (dump r).0 w.files, beq_refl ⦃e = F.path_eq⦄ path) refl in
      let (kept, others, result) =
        (store_file_indexed F target r.run_id "application/json" now fs).1 (dump r).0 written in
      elim (Option-cases (dump r).1) [
        | inl none_ ↦
            rw (e, none_, tidy.suffix, flush, store_json, json_name)
              (rw (result, tidy.home, tidy.inside) refl, refl, rw tidy.home at kept)
        | inr (m, some_) ↦
            rw (e, some_, tidy.suffix, flush, store_json, json_name) (refl, refl, written)
      ]

  or_else-or_body :
      (late : Option String) (err : Option (LogError V E))
      → or_else V E F (or_body late none) err ≡ or_body late err
  or_else-or_body none err = refl
  or_else-or_body (some e) err = refl

  closed_lem :
      (text : LogError V E → String) (err : Option (LogError V E)) (end : String)
      (r : ExperimentRunRecord V E)
      → let r' = closed V E F text err end r in
        (r'.run_id ≡ r.run_id)
        × (r'.end_time ≡ some end)
        × (err ≡ none → r'.status ≡ success)
        × ((e : LogError V E)
            → err ≡ some e
            → (r'.status ≡ failed) × (r'.error_log ≡ some (text e)))
  closed_lem text none end r = (refl, refl, λ e. refl, λ m e. absurd (cc e))
  closed_lem text (some m) end r =
      (refl, refl, λ e. absurd (cc e), λ m' e. (refl, ground (arith, e)))

  -- A run returns what its body returned: an exception of the body, or none; but an exception that the
  -- serialization of its record raises takes the place of either. Its record stays the active one, keeps
  -- its identifier, has an end, and the status and the error text of the body's outcome; and what the
  -- serialization of exactly this record has written is the run's manifest in the store, if a file of
  -- that name is stored under its own path.
  pub start_run_recorded :
      (dump : ExperimentRunRecord V E → F.Content × Option String) (text : LogError V E → String)
      (fresh : ExperimentRunRecord V E) (ops : List (Op V E F)) (end : String) (w : World V E F)
      → IsTidy F fresh.run_id
      → let opened = with_run V E F (edited V E fresh running none [] [] [] none) w in
        let err = (run_body V E F ops opened).0 in
        let result = start_run V E F dump text fresh ops end w in
        (r : ExperimentRunRecord V E) × (result.0 ≡ or_body (dump r).1 err)
        × (result.1.current_run ≡ some r)
        × (r.run_id ≡ fresh.run_id)
        × (r.end_time ≡ some end)
        × (err ≡ none → r.status ≡ success)
        × ((e : LogError V E) → err ≡ some e → (r.status ≡ failed) × (r.error_log ≡ some (text e)))
        × (read F (F.resolve (F.under fresh.run_id "run_manifest.json")) result.1.files
            ≡ some (dump r).0)
  unfolding start_run
  start_run_recorded dump text fresh ops end w tidy =
      let opened = with_run V E F (edited V E fresh running none [] [] [] none) w in
      let ran = run_body V E F ops opened in
      let (r, e, i) = run_body-HasRun ops opened fresh.run_id (_, refl, refl) in
      let r' = closed V E F text ran.0 end r in
      let shut : close V E F text ran.0 end ran.1 ≡ with_run V E F r' ran.1 = rw (e, close) refl in
      let (id, ended, good, bad) = closed_lem text ran.0 end r in
      let tidy' : IsTidy F r'.run_id = rw (id, i) tidy in
      let (late, kept, written) = flush_lem dump end (with_run V E F r' ran.1) r' refl tidy' in
      let last = (flush V E F dump end (with_run V E F r' ran.1)).1 in
      let at_home = λ (x : String).
        read F (F.resolve (F.under x "run_manifest.json")) last.files ≡ some (dump r').0 in
      rw (start_run, shut)
        (
          r',
          rw late (or_else-or_body (dump r').1 ran.0),
          kept,
          id ∙ i,
          ended,
          good,
          bad,
          subst at_home (id ∙ i) written,
        )

  -- Every record is serialized without an exception.
  abbrev pub Serializes : (ExperimentRunRecord V E → F.Content × Option String) → Type 0
  Serializes dump = (r : ExperimentRunRecord V E) → (dump r).1 ≡ none

  pub start_run_quiet :
      (dump : ExperimentRunRecord V E → F.Content × Option String) (text : LogError V E → String)
      (fresh : ExperimentRunRecord V E) (ops : List (Op V E F)) (end : String) (w : World V E F)
      → Serializes dump
      → IsTidy F fresh.run_id
      → (start_run V E F dump text fresh ops end w).0
        ≡ (run_body V E F ops (with_run V E F (edited V E fresh running none [] [] [] none) w)).0
  start_run_quiet dump text fresh ops end w quiet tidy =
      let opened = with_run V E F (edited V E fresh running none [] [] [] none) w in
      let (r, e, _, _, _, _, _, _) = start_run_recorded dump text fresh ops end w tidy in
      e ∙ ap (λ x. or_body x (run_body V E F ops opened).0) (quiet r)
