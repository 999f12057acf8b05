-- ===== src/Eval/Workloads/Drift.antt =====
-- What the counts of an analysis count.
use cudaforge.Prelude.{
  ℕ, ◌+◌, ◌<◌, length-append, ◌≡◌, refl, ap, sym, ◌∙◌, Bool, true, false, not, ◌&&◌, String, List,
  [], ◌∷◌, ◌++◌, length, Dict, string_eq, arith, if◌then◌else◌,
}
use mathlib.Core.List.{append-nil, append_assoc}
use cudaforge.Prelude.Int.{pos}
use cudaforge.Prelude.Float.{FloatOps}
use cudaforge.Eval.Workloads.Samples.{EvaluationSample}
use cudaforge.Eval.Workloads.ErrorAnalysis.{
  TextOps, SampleErrorDiagnostic, Analysis, no_analysis, categorize, count_category,
  evaluate_exact_match, observe, observe_all, report, analyze_quantization_drift, summarize,
}

module _ (t : TextOps) where
  -- How many rounds have this verdict on the two outputs.
  abbrev pub tally : (Bool → Bool → Bool) → List EvaluationSample → List String → List String → ℕ
  tally p (s ∷ ss) (b ∷ bs) (q ∷ qs) =
      let rest = tally p ss bs qs in
      if p (evaluate_exact_match t b s.target_reference)
        (evaluate_exact_match t q s.target_reference)
      then rest + 1
      else rest
  tally p _ _ _ = 0

  -- The samples whose quantized output is wrong.
  abbrev pub wrong_ids : List EvaluationSample → List String → List String → List String
  wrong_ids (s ∷ ss) (b ∷ bs) (q ∷ qs) =
      let rest = wrong_ids ss bs qs in
      if evaluate_exact_match t q s.target_reference then rest else s.sample_id ∷ rest
  wrong_ids _ _ _ = []

abbrev pub only_baseline : Bool → Bool → Bool
only_baseline b q = b && not q

abbrev pub only_quantized : Bool → Bool → Bool
only_quantized b q = not b && q

abbrev pub neither : Bool → Bool → Bool
neither b q = not b && not q

-- The four entries, in order.
abbrev pub counts_of : ℕ → ℕ → ℕ → Dict String ℕ
counts_of diverged drifted none_passed =
    ("EXACT_MATCH_FAIL", 0)
    ∷ ("QUANT_DIVERGENCE", diverged)
    ∷ ("REASONING_DRIFT", drifted)
    ∷ ("NONE_PASSED", none_passed)
    ∷ []

count_category_lem :
    (d r n : ℕ) (b q : Bool)
    → count_category (categorize b q).0 (counts_of d r n)
      ≡ counts_of
          (if only_baseline b q then d + 1 else d)
          (if only_quantized b q then r + 1 else r)
          (if neither b q then n + 1 else n)
unfolding count_category categorize
count_category_lem d r n true true = refl
count_category_lem d r n true false = refl
count_category_lem d r n false true = refl
count_category_lem d r n false false = refl

module _ (t : TextOps) where
  -- What the loop adds to the locals.
  record Adds (ss : List EvaluationSample) (bs qs : List String) (a a' : Analysis) : Type 0 where
    baseline : a'.baseline_correct_count ≡ a.baseline_correct_count + tally t (λ b q. b) ss bs qs
    quantized : a'.quantized_correct_count ≡ a.quantized_correct_count + tally t (λ b q. q) ss bs qs
    failed : a'.failed_ids ≡ a.failed_ids ++ wrong_ids t ss bs qs
    all : length a'.diagnostics ≡ length a.diagnostics + length ss

  observe_all-category_counts :
      (ss : List EvaluationSample) (bs qs : List String) (a : Analysis) (d r n : ℕ)
      → a.category_counts ≡ counts_of d r n
      → (observe_all t ss bs qs a).category_counts
        ≡ counts_of
            (d + tally t only_baseline ss bs qs)
            (r + tally t only_quantized ss bs qs)
            (n + tally t neither ss bs qs)
  unfolding observe_all observe
  observe_all-category_counts (s ∷ ss) (b ∷ bs) (q ∷ qs) a d r n h =
      let vb = evaluate_exact_match t b s.target_reference in
      let vq = evaluate_exact_match t q s.target_reference in
      let e = ap (count_category (categorize vb vq).0) h ∙ count_category_lem d r n vb vq in
      let rest = observe_all-category_counts ss bs qs (observe t s b q a) _ _ _ e in
      ground (arith, rest)
  observe_all-category_counts _ _ _ a d r n h = ground (arith, h)

  observe_all-Adds :
      (ss : List EvaluationSample) (bs qs : List String) (a : Analysis)
      → length bs ≡ length ss
      → length qs ≡ length ss
      → Adds ss bs qs a (observe_all t ss bs qs a)
  unfolding observe_all observe categorize
  observe_all-Adds [] bs qs a e e' = record {
    baseline = omega arith;
    quantized = omega arith;
    failed = sym (append-nil a.failed_ids);
    all = omega arith;
  }
  observe_all-Adds (s ∷ ss) [] qs a e e' = absurd (omega arith)
  observe_all-Adds (s ∷ ss) (b ∷ bs) [] a e e' = absurd (omega arith)
  observe_all-Adds (s ∷ ss) (b ∷ bs) (q ∷ qs) a e e' =
      let rest = observe_all-Adds ss bs qs (observe t s b q a) (omega arith) (omega arith) in
      let one : length (observe t s b q a).diagnostics ≡ length a.diagnostics + 1 =
        length-append a.diagnostics _ in
      record {
        baseline = ground (arith, rest.baseline);
        quantized = ground (arith, rest.quantized);
        failed = ground (
          arith,
          rest.failed,
          append_assoc a.failed_ids (s.sample_id ∷ []) (wrong_ids t ss bs qs),
        );
        all = omega (arith, rest.all, one);
      }

module _ (f : FloatOps) where
  -- For as many outputs of each model as there are samples, and at least one sample, the call returns a
  -- report in which every sample has a diagnostic, the failed identifiers are those of the samples that
  -- the quantized model answers wrongly, in order, the three categories count the samples that only the
  -- baseline, only the quantized model, and neither answers rightly, `EXACT_MATCH_FAIL` stays at zero,
  -- and the accuracies are the rounded shares of the samples that the baseline and that the quantized
  -- model answers rightly, and the degradation is the rounded difference of the two shares.
  pub analyze_quantization_drift-report :
      (t : TextOps) (round4 : f.Float → f.Float) (samples : List EvaluationSample)
      (baseline_outputs quantized_outputs : List String)
      → length baseline_outputs ≡ length samples
      → length quantized_outputs ≡ length samples
      → 0 < length samples
      → let diverged = tally t only_baseline samples baseline_outputs quantized_outputs in
        let drifted = tally t only_quantized samples baseline_outputs quantized_outputs in
        let none_passed = tally t neither samples baseline_outputs quantized_outputs in
        let share = λ (n : ℕ). f.div (f.of_int (pos n)) (f.of_int (pos (length samples))) in
        let base = share (tally t (λ b q. b) samples baseline_outputs quantized_outputs) in
        let quantized = share (tally t (λ b q. q) samples baseline_outputs quantized_outputs) in
        (ds : List SampleErrorDiagnostic) × (analyze_quantization_drift f t round4 samples
            baseline_outputs quantized_outputs
          ≡ report (record {
            total_samples = length samples;
            baseline_accuracy = round4 base;
            quantized_accuracy = round4 quantized;
            quantization_degradation_rate = round4 (f.sub base quantized);
            category_counts = counts_of diverged drifted none_passed;
            failed_sample_ids = wrong_ids t samples baseline_outputs quantized_outputs;
            sample_diagnostics = ds;
          }))
        × (length ds ≡ length samples)
  unfolding analyze_quantization_drift summarize
  analyze_quantization_drift-report t round4 samples baseline_outputs quantized_outputs eb eq
        some_ =
      let a = observe_all t samples baseline_outputs quantized_outputs no_analysis in
      let adds = observe_all-Adds t samples baseline_outputs quantized_outputs no_analysis eb eq in
      let counts : a.category_counts
          ≡ counts_of (tally t only_baseline samples baseline_outputs quantized_outputs)
              (tally t only_quantized samples baseline_outputs quantized_outputs)
              (tally t neither samples baseline_outputs quantized_outputs) =
        ground (
          arith,
          observe_all-category_counts t samples baseline_outputs quantized_outputs no_analysis 0 0 0
              refl,
        ) in
      let baseline : a.baseline_correct_count
          ≡ tally t (λ b q. b) samples baseline_outputs quantized_outputs =
        ground (arith, adds.baseline) in
      let quantized : a.quantized_correct_count
          ≡ tally t (λ b q. q) samples baseline_outputs quantized_outputs =
        ground (arith, adds.quantized) in
      let failed : a.failed_ids ≡ wrong_ids t samples baseline_outputs quantized_outputs =
        adds.failed in
      (
        a.diagnostics,
        rw (← baseline, ← quantized, ← failed, ← counts) (ground (arith, eb, eq)),
        ground (arith, adds.all),
      )
