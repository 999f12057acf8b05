-- ===== src/Eval/Workloads/Loader.antt =====
-- `WorkloadDatasetLoader.load_from_jsonl` of dataset_loader.py, on the lines of the file.
use cudaforge.Prelude.{
  ℕ, ◌+◌, ◌≡◌, String, List, [], ◌∷◌, Option, none, some, Dict, lookup, ◌==◌, string_eq,
  if◌then◌else◌,
}
use cudaforge.Eval.Workloads.Samples.{EvaluationSample}

-- `str.strip`, `json.loads` of an object, which may raise, `str`, the values as the fields take them,
-- and the identifier of a line that has none.
pub record JsonOps : Type 1 where
  pub Json : Type 0
  pub strip : String → String
  pub loads : String → Option (Dict String Json)
  pub text_of : Json → String
  pub metadata_of : Json → Dict String String
  pub sample_name : ℕ → String

module _ (js : JsonOps) where
  -- `record.get(key, default)`
  abbrev pub get : {B : Type 0} → (js.Json → B) → String → B → Dict String js.Json → B
  get g key default d = elim (lookup key d) [ none ↦ default | some j ↦ g j ]

  unfoldable pub sample_of : String → ℕ → Dict String js.Json → EvaluationSample
  sample_of task_type line_idx d = record {
    sample_id = get js.text_of "id" (js.sample_name line_idx) d;
    prompt = get js.text_of "prompt" "" d;
    target_reference = get js.text_of "reference" (get js.text_of "target" "" d) d;
    task_type = get js.text_of "task_type" task_type d;
    metadata = get js.metadata_of "metadata" [] d;
  }

  -- The loop over the lines; `none` is the error of a line that is no JSON.
  unfoldable pub load_lines : String → ℕ → List String → Option (List EvaluationSample)
  unfolding sample_of
  load_lines task_type line_idx [] = some []
  load_lines task_type line_idx (raw ∷ lines) =
      let line = js.strip raw in
      let rest = load_lines task_type (line_idx + 1) lines in
      if line == "" then rest else (elim (js.loads line) [
        | none ↦ none
        | some d ↦ (elim rest [
          | none ↦ none
          | some samples ↦ some (sample_of task_type line_idx d ∷ samples)
        ])
      ])

  pub data Loaded : Type 0 where
    file_not_found decode_error : Loaded
    loaded : List EvaluationSample → Loaded

  -- The file is its lines, if it exists.
  unfoldable pub load_from_jsonl : String → Option (List String) → Loaded
  unfolding load_lines
  load_from_jsonl task_type none = file_not_found
  load_from_jsonl task_type (some lines) = elim (load_lines task_type 0 lines) [
    | none ↦ decode_error
    | some samples ↦ loaded samples
  ]

  -- The lines that are not blank, stripped, each with its place in the file.
  abbrev pub entries : ℕ → List String → List (ℕ × String)
  entries i [] = []
  entries i (raw ∷ lines) =
      let rest = entries (i + 1) lines in
      if js.strip raw == "" then rest else (i, js.strip raw) ∷ rest

  -- Each entry is the JSON of one object of the list, in order.
  abbrev pub AreParsed : List (ℕ × String) → List (Dict String js.Json) → Type 0
  AreParsed [] [] = Unit
  AreParsed (e ∷ es) (d ∷ ds) = (js.loads e.1 ≡ some d) × AreParsed es ds
  AreParsed _ _ = ⊥

  abbrev pub samples_of :
      String → List (ℕ × String) → List (Dict String js.Json) → List EvaluationSample
  samples_of task_type (e ∷ es) (d ∷ ds) = sample_of task_type e.0 d ∷ samples_of task_type es ds
  samples_of task_type _ _ = []
