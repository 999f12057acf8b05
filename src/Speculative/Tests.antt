-- ===== src/Speculative/Tests.antt =====
-- A small instance of the tensor operations and two rounds of speculation over it.
use cudaforge.Prelude.{ℕ, ◌+◌, ◌≤◌, ◌≡◌, refl, List, [], ◌∷◌, map, some, length, replicate}
use cudaforge.Prelude.Int.{ℤ, pos, ◌+ℤ◌}
use cudaforge.Fixed.{fixed}
use cudaforge.Speculative.Tensors.{Rows, Column, Torch}
use cudaforge.Speculative.Sampling.{sample_next_token}
use cudaforge.Speculative.Step.{
  SpeculativeEngine, SpeculativeBatchResult, draft, verify, target_rows, bonus_token, step,
}
use cudaforge.Speculative.Acceptance.{Ends, step_emits}

abbrev enumerate : ℕ → List ℤ → List (ℤ × ℕ)
enumerate i [] = []
enumerate i (x ∷ xs) = (x, i) ∷ enumerate (i + 1) xs

-- The generator counts its draws. The draft always proposes with probability one half, and the target
-- agrees at the first two positions of the continuation only.
abbrev toy : Torch fixed
toy = record {
  Rng = ℕ;
  softmax = λ row. row;
  sort = enumerate 0;
  neg_inf = pos 0;
  multinomial = λ rows rng. (map (λ row. 1) rows, rng + 1);
  rand = λ n rng. (replicate n (pos 400), rng);
  draft_forward = λ ids. map (λ row. (pos 500 ∷ pos 500 ∷ []) ∷ []) ids;
  target_forward = λ ids.
      map
        (λ row.
          (pos 500 ∷ pos 500 ∷ [])
          ∷ (pos 500 ∷ pos 500 ∷ [])
          ∷ (pos 900 ∷ pos 100 ∷ [])
          ∷ (pos 900 ∷ pos 100 ∷ [])
          ∷ [])
        ids;
}

abbrev engine : SpeculativeEngine fixed
engine = record {
  k = 3;
  temperature = pos 1000;
  top_p = pos 1000;
  total_draft_tokens = 0;
  total_accepted_tokens = 0;
}

-- The third proposal is rejected, and a bonus token is emitted after its replacement all the same.
abbrev result : SpeculativeBatchResult fixed
result = record {
  accepted_tokens = (1 ∷ []) ∷ (1 ∷ []) ∷ (1 ∷ []) ∷ (1 ∷ []) ∷ [];
  num_accepted = 4;
  draft_tokens_generated = 3;
  acceptance_rate = pos 1333;
}

abbrev after : SpeculativeEngine fixed
after = record engine { total_draft_tokens = 3; total_accepted_tokens = 4 }

round : step fixed toy ((7 ∷ []) ∷ []) 0 engine ≡ some (result, after, 5)
unfolding step draft verify target_rows bonus_token sample_next_token ◌+ℤ◌
round = refl

abbrev drafted : List (Column × Rows fixed) × ℕ
drafted = draft fixed toy (pos 1000) 3 ((7 ∷ []) ∷ []) 0

abbrev targets : List (Rows fixed)
targets = target_rows fixed toy engine ((7 ∷ []) ∷ []) drafted.0

step_emits_example :
    Ends fixed toy drafted.0 targets drafted.1
      (bonus_token fixed toy engine
        ((7 ∷ []) ∷ [])
        drafted.0
        (verify fixed toy drafted.0 targets drafted.1).1).0
      result.accepted_tokens
    × (result.num_accepted ≡ length result.accepted_tokens)
    × (1 ≤ result.num_accepted)
    × (result.num_accepted ≤ 3 + 1)
    × (after.total_draft_tokens ≡ 0 + 3)
    × (after.total_accepted_tokens ≡ 0 + result.num_accepted)
step_emits_example = step_emits fixed toy ((7 ∷ []) ∷ []) 0 5 engine after result round
