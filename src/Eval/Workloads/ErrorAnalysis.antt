-- ===== src/Eval/Workloads/ErrorAnalysis.antt =====
-- `ErrorAnalyzer` of error_analysis.py. `normalize_text` is a chain of library calls on texts.
use cudaforge.Prelude.{
  ℕ, ◌+◌, Bool, true, false, not, ◌&&◌, ◌||◌, String, List, [], ◌∷◌, ◌++◌, length, nat_beq, Option,
  none, some, Dict, lookup, contains, insert, ◌==◌, string_eq, if◌then◌else◌,
}
use cudaforge.Prelude.Int.{pos}
use cudaforge.Prelude.Float.{FloatOps}
use cudaforge.Eval.Workloads.Samples.{EvaluationSample}

-- `str.strip`, `str.lower` and `re.sub(r"\s+", " ", text)`.
pub record TextOps : Type 0 where
  pub strip : String → String
  pub lower : String → String
  pub squeeze : String → String

pub record SampleErrorDiagnostic : Type 0 where
  pub sample_id : String
  pub task_type : String
  pub prompt : String
  pub expected_reference : String
  pub baseline_output : String
  pub quantized_output : String
  pub is_baseline_correct : Bool
  pub is_quantized_correct : Bool
  pub quantization_divergence : Bool
  pub error_category : String

-- The locals that the loop changes.
pub record Analysis : Type 0 where
  pub baseline_correct_count : ℕ
  pub quantized_correct_count : ℕ
  pub category_counts : Dict String ℕ
  pub failed_ids : List String
  pub diagnostics : List SampleErrorDiagnostic

abbrev pub no_analysis : Analysis
no_analysis = record {
  baseline_correct_count = 0;
  quantized_correct_count = 0;
  category_counts =
      ("EXACT_MATCH_FAIL", 0)
      ∷ ("QUANT_DIVERGENCE", 0)
      ∷ ("REASONING_DRIFT", 0)
      ∷ ("NONE_PASSED", 0)
      ∷ [];
  failed_ids = [];
  diagnostics = [];
}

-- The category, and whether the sample is a failed one.
unfoldable pub categorize : Bool → Bool → String × Bool
categorize base_correct quant_correct =
    if base_correct && not quant_correct
    then ("QUANT_DIVERGENCE", true)
    else if not base_correct && not quant_correct
    then ("NONE_PASSED", true)
    else if not base_correct && quant_correct
    then ("REASONING_DRIFT", false)
    else ("NONE", false)

abbrev or_zero : Option ℕ → ℕ
or_zero none = 0
or_zero (some n) = n

unfoldable pub count_category : String → Dict String ℕ → Dict String ℕ
count_category err_cat counts =
    if contains err_cat counts
    then insert err_cat (or_zero (lookup err_cat counts) + 1) counts
    else counts

module _ (t : TextOps) where
  unfoldable pub normalize_text : String → String
  normalize_text text = t.squeeze (t.lower (t.strip text))

  unfoldable pub evaluate_exact_match : String → String → Bool
  unfolding normalize_text
  evaluate_exact_match prediction reference = normalize_text prediction == normalize_text reference

  -- One round of the loop.
  unfoldable pub observe : EvaluationSample → String → String → Analysis → Analysis
  unfolding categorize count_category normalize_text evaluate_exact_match
  observe sample base_out quant_out a =
      let base_correct = evaluate_exact_match base_out sample.target_reference in
      let quant_correct = evaluate_exact_match quant_out sample.target_reference in
      let (err_cat, failed) = categorize base_correct quant_correct in
      record {
        baseline_correct_count =
            if base_correct then a.baseline_correct_count + 1 else a.baseline_correct_count;
        quantized_correct_count =
            if quant_correct then a.quantized_correct_count + 1 else a.quantized_correct_count;
        category_counts = count_category err_cat a.category_counts;
        failed_ids = if failed then a.failed_ids ++ sample.sample_id ∷ [] else a.failed_ids;
        diagnostics =
            a.diagnostics
            ++ record {
              sample_id = sample.sample_id;
              task_type = sample.task_type;
              prompt = sample.prompt;
              expected_reference = sample.target_reference;
              baseline_output = base_out;
              quantized_output = quant_out;
              is_baseline_correct = base_correct;
              is_quantized_correct = quant_correct;
              quantization_divergence = not (normalize_text base_out == normalize_text quant_out);
              error_category = err_cat;
            }
              ∷ [];
      }

  -- The loop over the `zip`.
  unfoldable pub observe_all :
      List EvaluationSample → List String → List String → Analysis → Analysis
  unfolding observe
  observe_all (s ∷ ss) (b ∷ bs) (q ∷ qs) a = observe_all ss bs qs (observe s b q a)
  observe_all _ _ _ a = a

pub data AnalysisError : Type 0 where
  length_mismatch empty_samples : AnalysisError

module _ (f : FloatOps) where
  open f use {Float}

  pub record ErrorAnalysisReport : Type 0 where
    pub total_samples : ℕ
    pub baseline_accuracy : Float
    pub quantized_accuracy : Float
    pub quantization_degradation_rate : Float
    pub category_counts : Dict String ℕ
    pub failed_sample_ids : List String
    pub sample_diagnostics : List SampleErrorDiagnostic

  pub data Analyzed : Type 0 where
    report : ErrorAnalysisReport → Analyzed
    value_error : AnalysisError → Analyzed

  -- `round4` is `round(_, 4)`.
  unfoldable pub summarize : (Float → Float) → ℕ → Analysis → ErrorAnalysisReport
  summarize round4 total_samples a =
      let base_acc =
        f.div (f.of_int (pos a.baseline_correct_count)) (f.of_int (pos total_samples)) in
      let quant_acc =
        f.div (f.of_int (pos a.quantized_correct_count)) (f.of_int (pos total_samples)) in
      record {
        total_samples = total_samples;
        baseline_accuracy = round4 base_acc;
        quantized_accuracy = round4 quant_acc;
        quantization_degradation_rate = round4 (f.sub base_acc quant_acc);
        category_counts = a.category_counts;
        failed_sample_ids = a.failed_ids;
        sample_diagnostics = a.diagnostics;
      }

  unfoldable pub analyze_quantization_drift :
      TextOps → (Float → Float) → List EvaluationSample → List String → List String → Analyzed
  unfolding observe_all summarize
  analyze_quantization_drift t round4 samples baseline_outputs quantized_outputs =
      if not (nat_beq (length samples) (length baseline_outputs))
        || not (nat_beq (length samples) (length quantized_outputs))
      then value_error length_mismatch
      else if nat_beq (length samples) 0
      then value_error empty_samples
      else report (
          summarize round4 (length samples)
            (observe_all t samples baseline_outputs quantized_outputs no_analysis))
