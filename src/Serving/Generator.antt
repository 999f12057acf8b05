-- ===== src/Serving/Generator.antt =====
-- `mock_cuda_token_generator` of serving/api/v1/generate.py, without its clocks: the events that it
-- yields, and how it ends.
use cudaforge.Prelude.{
  ℕ, zero, suc, ◌+◌, ◌-◌, Bool, String, List, [], ◌∷◌, ◌++◌, length, take, get_or, min, nat_beq,
  if◌then◌else◌,
}

-- The fields of `TokenStreamChunk` that are not times. The text is the word that a space follows.
pub record TokenStreamChunk : Type 0 where
  pub token_id : ℕ
  pub word : String
  pub is_final : Bool

-- An event of the stream: a line "data: ..." or the "event: error" of the last handler.
pub data Event : Type 0 where
  chunk : TokenStreamChunk → Event
  error : Event

-- What the environment does in the `await` of a step.
pub data Signal : Type 0 where
  proceeds cancels fails : Signal

pub data Ending : Type 0 where
  exhausted cancelled : Ending

-- `prompt.split()` is the list of words.
unfoldable pub dummy_tokens : List String → List String
dummy_tokens words = take 5 words ++ "is" ∷ "optimized" ∷ "by" ∷ "CUDAForge" ∷ "engine." ∷ []

module _ (signal : ℕ → Signal) (tokens : List String) (total_steps : ℕ) where
  -- `for idx in range(total_steps)`, with the steps that are left
  unfoldable pub steps : ℕ → ℕ → List Event × Ending
  steps zero idx = ([], exhausted)
  steps (suc n) idx =
      let is_final = nat_beq idx (total_steps - 1) in
      let this =
        chunk
          (record { token_id = 1000 + idx; word = get_or tokens idx ""; is_final = is_final }) in
      let rest = steps n (idx + 1) in
      elim (signal idx) [
        | proceeds ↦ if is_final then (this ∷ [], exhausted) else (this ∷ rest.0, rest.1)
        | cancels ↦ ([], cancelled)
        | fails ↦ (error ∷ [], exhausted)
      ]

unfoldable pub mock_cuda_token_generator : (ℕ → Signal) → List String → ℕ → List Event × Ending
unfolding dummy_tokens steps
mock_cuda_token_generator signal words max_tokens =
    let tokens = dummy_tokens words in
    let total_steps = min max_tokens (length tokens) in
    steps signal tokens total_steps total_steps 0
