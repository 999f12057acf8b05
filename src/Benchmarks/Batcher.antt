-- ===== src/Benchmarks/Batcher.antt =====
-- benchmarks/suite/bench_continuous_batch.py: the simulated scheduler, without its clocks.
use cudaforge.Prelude.{
  ℕ, zero, suc, ◌+◌, ◌-◌, ◌%◌, Bool, true, false, ◌&&◌, List, [], ◌∷◌, ◌++◌, length, ltb, leb,
  Option, none, some, if◌then◌else◌,
}

pub record Request : Type 0 where
  pub id : ℕ
  pub prompt_len : ℕ
  pub gen_len : ℕ

-- The request pool, from request `i` on.
unfoldable pub make_requests : ℕ → ℕ → List Request
make_requests zero i = []
make_requests (suc n) i =
    record { id = i; prompt_len = 128 + i % 64; gen_len = 64 + i % 32 } ∷ make_requests n (i + 1)

abbrev pub sum_prompts : List Request → ℕ
sum_prompts [] = 0
sum_prompts (r ∷ rs) = r.prompt_len + sum_prompts rs

pub record Simulation : Type 0 where
  pub waiting_queue : List Request
  pub running_batch : List Request
  pub completed_requests : List Request

-- `not waiting_queue.empty() or running_batch` fails.
unfoldable pub is_over : Simulation → Bool
is_over s = elim s.waiting_queue [
  | [] ↦ elim s.running_batch [ [] ↦ true | r ∷ rs ↦ false ]
  | w ∷ ws ↦ false
]

-- One decoding step: `gen_len` may pass below zero in Python, and then the request is complete.
unfoldable pub decode : List Request → List Request × List Request
decode [] = ([], [])
decode (req ∷ reqs) =
    let after = record req { gen_len = req.gen_len - 1 } in
    let (done, still) = decode reqs in
    if leb req.gen_len 1 then (after ∷ done, still) else (done, after ∷ still)

module _ (max_batch_size max_token_budget : ℕ) where
  -- The inner `while`: from the front of the queue, with `current_tokens` in use.
  unfoldable pub admit : List Request → List Request → ℕ → List Request × List Request
  admit [] running current_tokens = ([], running)
  admit (next_req ∷ waiting) running current_tokens =
      let rest = admit waiting (running ++ next_req ∷ []) (current_tokens + next_req.prompt_len) in
      if ltb (length running) max_batch_size
        && leb (current_tokens + next_req.prompt_len) max_token_budget
      then rest
      else (next_req ∷ waiting, running)

  unfoldable pub round : Simulation → Simulation
  unfolding admit decode
  round s =
      let (waiting, running) =
        admit s.waiting_queue s.running_batch (sum_prompts s.running_batch) in
      let (done, still) = decode running in
      record {
        waiting_queue = waiting;
        running_batch = still;
        completed_requests = s.completed_requests ++ done;
      }

  unfoldable pub simulate : ℕ → Simulation → Option Simulation
  unfolding round is_over
  simulate zero s = none
  simulate (suc fuel) s = let rest = simulate fuel (round s) in if is_over s then some s else rest
