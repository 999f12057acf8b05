-- ===== src/Eval/Workloads/Tests.antt =====
-- Samples and answers at which the theorems on workloads are read.
use cudaforge.Prelude.{ℕ, ◌≡◌, refl, String, List, [], ◌∷◌, length, arith}
use cudaforge.Prelude.{some}
use cudaforge.Eval.Workloads.Loader.{JsonOps}
use cudaforge.Prelude.Int.{pos, ◌-ℤ◌}
use cudaforge.Fixed.{fixed}
use cudaforge.Eval.Workloads.Samples.{EvaluationSample, stream_dataset}
use cudaforge.Eval.Workloads.Stream.{concat, AreChunks, stream_dataset_lossless}
use cudaforge.Eval.Workloads.ErrorAnalysis.{
  TextOps, SampleErrorDiagnostic, report, evaluate_exact_match, normalize_text,
  analyze_quantization_drift,
}
use cudaforge.Eval.Workloads.Drift.{counts_of, analyze_quantization_drift-report}

abbrev five : List ℕ
five = 1 ∷ 2 ∷ 3 ∷ 4 ∷ 5 ∷ []

stream_dataset_lossless_example :
    (concat (stream_dataset five 2) ≡ five) × AreChunks 2 (stream_dataset five 2)
stream_dataset_lossless_example = stream_dataset_lossless five 2 (omega arith)

abbrev plain : TextOps
plain = record { strip = λ s. s; lower = λ s. s; squeeze = λ s. s }

abbrev sample : String → String → EvaluationSample
sample name reference = record {
  sample_id = name;
  prompt = "?";
  target_reference = reference;
  task_type = "qa";
  metadata = [];
}

abbrev samples : List EvaluationSample
samples = sample "a" "4" ∷ sample "b" "5" ∷ sample "c" "6" ∷ []

abbrev baseline : List String
baseline = "4" ∷ "1" ∷ "6" ∷ []

abbrev quantized : List String
quantized = "3" ∷ "5" ∷ "6" ∷ []

analyze_quantization_drift-report_example :
    (ds : List SampleErrorDiagnostic) × (analyze_quantization_drift fixed plain
        (λ x. x)
        samples
        baseline
        quantized
      ≡ report (record {
        total_samples = 3;
        baseline_accuracy = (pos 666);
        quantized_accuracy = (pos 666);
        quantization_degradation_rate = (pos 0);
        category_counts = counts_of 1 1 0;
        failed_sample_ids = "a" ∷ [];
        sample_diagnostics = ds;
      }))
    × (length ds ≡ 3)
unfolding ◌-ℤ◌ evaluate_exact_match normalize_text
analyze_quantization_drift-report_example =
    analyze_quantization_drift-report fixed plain (λ x. x) samples baseline quantized refl refl
      (omega arith)

-- Every line is an object with its own text as the prompt.
abbrev json : JsonOps
json = record {
  Json = String;
  strip = λ s. s;
  loads = λ s. some (("prompt", s) ∷ []);
  text_of = λ s. s;
  metadata_of = λ s. [];
  sample_name = λ i. "sample";
}
