-- ===== src/Eval/Accuracy/Correctness.antt =====
-- `evaluate_correctness` of eval_platform/pipelines/accuracy_eval.py.
use cudaforge.Prelude.{
  ℕ, zero, suc, ◌+◌, Bool, true, false, ◌&&◌, List, [], ◌∷◌, length, get_or, min, max, ltb, nat_beq,
  Option, none, some, if◌then◌else◌,
}
use cudaforge.Prelude.Int.{pos}
use cudaforge.Prelude.Float.{FloatOps}
use cudaforge.Eval.Accuracy.Lcs.{lcs_length}

-- `gen == ref`
unfoldable pub same_tokens : List ℕ → List ℕ → Bool
same_tokens [] [] = true
same_tokens (x ∷ xs) (y ∷ ys) = nat_beq x y && same_tokens xs ys
same_tokens _ _ = false

module _ (gen ref : List ℕ) where
  -- The equal tokens among the first `n` positions.
  unfoldable pub matches_upto : ℕ → ℕ
  matches_upto zero = 0
  matches_upto (suc i) =
      let rest = matches_upto i in
      if nat_beq (get_or gen i 0) (get_or ref i 0) then rest + 1 else rest

  unfoldable pub token_matches : ℕ
  unfolding matches_upto
  token_matches = matches_upto (min (length gen) (length ref))

module _ (f : FloatOps) where
  open f use {Float}

  abbrev real : ℕ → Float
  real n = f.of_int (pos n)

  abbrev zero_float : Float
  zero_float = f.lit (pos 0) 1

  unfoldable pub rouge_f1 : List ℕ → List ℕ → Float
  rouge_f1 gen ref =
      let lcs = lcs_length gen ref in
      let prec = f.div (real lcs) (real (length gen)) in
      let rec = f.div (real lcs) (real (length ref)) in
      if ltb 0 lcs && ltb 0 (length gen) && ltb 0 (length ref)
      then if f.ltb (real 0) (f.add prec rec)
        then f.div (f.mul (f.mul (real 2) prec) rec) (f.add prec rec)
        else zero_float
      else zero_float

  -- The locals that the loop changes.
  pub record Sums : Type 0 where
    pub exact_matches : ℕ
    pub rouge_f1_sum : Float
    pub token_acc_sum : Float

  -- One round of the loop.
  unfoldable pub score : List ℕ → List ℕ → Sums → Sums
  unfolding same_tokens token_matches rouge_f1
  score gen ref s = record {
    exact_matches = if same_tokens gen ref then s.exact_matches + 1 else s.exact_matches;
    rouge_f1_sum = f.add s.rouge_f1_sum (rouge_f1 gen ref);
    token_acc_sum =
        if ltb 0 (min (length gen) (length ref))
        then f.add s.token_acc_sum
            (f.div (real (token_matches gen ref)) (real (max (length gen) (length ref))))
        else s.token_acc_sum;
  }

  unfoldable pub score_all : List (List ℕ) → List (List ℕ) → Sums → Sums
  unfolding score
  score_all (gen ∷ gens) (ref ∷ refs) s = score_all gens refs (score gen ref s)
  score_all _ _ s = s

  pub record GenerationCorrectnessResult : Type 0 where
    pub exact_match : Float
    pub rouge_l_f1 : Float
    pub token_accuracy : Float
    pub total_samples : ℕ

  -- `none` is the failed assertion.
  unfoldable pub evaluate_correctness :
      List (List ℕ) → List (List ℕ) → Option GenerationCorrectnessResult
  unfolding score_all
  evaluate_correctness generated_sequences reference_sequences =
      let total_samples = length generated_sequences in
      let none_yet : Sums = record {
        exact_matches = 0;
        rouge_f1_sum = zero_float;
        token_acc_sum = zero_float;
      } in
      let s = score_all generated_sequences reference_sequences none_yet in
      if nat_beq total_samples (length reference_sequences)
      then if nat_beq total_samples 0
        then some (record {
          exact_match = zero_float;
          rouge_l_f1 = zero_float;
          token_accuracy = zero_float;
          total_samples = 0;
        })
        else some (record {
          exact_match = f.div (real s.exact_matches) (real total_samples);
          rouge_l_f1 = f.div s.rouge_f1_sum (real total_samples);
          token_accuracy = f.div s.token_acc_sum (real total_samples);
          total_samples = total_samples;
        })
      else none
