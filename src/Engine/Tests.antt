-- ===== src/Engine/Tests.antt =====
-- A small native runtime that keeps the set of registered sequences and pops a scripted batch of
-- tokens, and the engine's theorems at runs over it.
use cudaforge.Prelude.{
  ℕ, ◌+◌, ◌≤◌, ◌≡◌, refl, Bool, true, false, ◌||◌, List, [], ◌∷◌, ◌++◌, map, none, some, lookup,
  contains, nat_eq, ◌==◌, arith, if◌then◌else◌,
}
use cudaforge.Prelude.Int.{pos}
use cudaforge.Engine.Types.{default_params, default_config, StreamOutput, GenerationOutput}
use cudaforge.Engine.Native.{Native, Registers, ok, raised}
use cudaforge.Engine.Core.{is_native, LlmEngine, add_request, or_default, finalize, step}
use cudaforge.Engine.Ownership.{IsOwned, run-IsOwned}
use cudaforge.Engine.Sync.{Op, run, IsSynced, run-IsSynced}
use cudaforge.Engine.Outputs.{popped, append_all, step_raises, add_request_returns}
use cudaforge.Engine.Streams.{Queues, mail, deliver_all, AsyncEngine, background_round, consume}
use cudaforge.Engine.Delivery.{stream, generate_yields, background_round_delivers}

abbrev elem : ℕ → List ℕ → Bool
elem j [] = false
elem j (i ∷ ids) = i == j || elem j ids

abbrev remove : ℕ → List ℕ → List ℕ
remove i [] = []
remove i (k ∷ ids) = let rest = remove i ids in if i == k then rest else k ∷ rest

record ToyState : Type 0 where
  sequences : List ℕ
  script : List StreamOutput

abbrev toy : Native
toy = record {
  State = ToyState;
  construct = λ config blocks size seqs tokens vocab eos. record { sequences = []; script = [] };
  register_sequence_with_prefix = λ i prompt s. (ok 0, record s { sequences = i ∷ s.sequences });
  append_tokens = λ i n s. (if elem i s.sequences then ok tt else raised, s);
  unregister_sequence = λ i s. record s { sequences = remove i s.sequences };
  add_request = λ i prompt m p s. (true, s);
  update_requests_state = λ ids s. s;
  get_running_count = λ s. 1;
  get_pending_count = λ s. 0;
  runner_step = λ s. s;
  pop_all = λ s. (s.script, record s { script = [] });
  runner_cancel_request = λ i s. s;
}

elem-remove :
    (i j : ℕ) (ids : List ℕ) → elem j (remove i ids) ≡ (if i == j then false else elem j ids)
elem-remove i j [] = ground arith
elem-remove i j (k ∷ ids) = ground (arith, elem-remove i j ids)

toy-Registers : Registers toy
toy-Registers = record {
  registered = λ s j. elem j s.sequences;
  register_ok = λ i prompt s n j h. refl;
  register_raised = λ i prompt s j h. cc;
  append = λ i n s j. refl;
  unregister = λ i s j. elem-remove i j s.sequences;
  add = λ i prompt m p s j. refl;
  update = λ l s j. refl;
  step = λ s j. refl;
  pop = λ s j. refl;
  cancel = λ i s j. refl;
}

abbrev idle : LlmEngine toy
idle = record {
  config = default_config;
  request_counter = 0;
  active_requests = [];
  runtime = record { sequences = []; script = [] };
}

abbrev token : ℕ → ℕ → Bool → StreamOutput
token i t b = record { request_id = i; token_id = pos t; is_final = b }

-- Two requests, of which the first stops at token 7.
abbrev busy : LlmEngine toy
busy = record idle {
  request_counter = 2;
  active_requests =
      (1, record default_params { stop_token_ids = pos 7 ∷ [] }) ∷ (2, default_params) ∷ [];
  runtime = record { sequences = 2 ∷ 1 ∷ []; script = token 1 7 false ∷ token 2 9 false ∷ [] };
}

abbrev busy_results : List GenerationOutput
busy_results =
    record { request_id = 1; token_id = pos 7; is_final = true; error = none }
    ∷ record { request_id = 2; token_id = pos 9; is_final = false; error = none }
    ∷ []

busy_step : (step toy busy).0 ≡ ok busy_results
unfolding step
busy_step = refl

-- Two additions, a step that takes the tokens of both requests, and a cancellation.
abbrev calls : List Op
calls = Op.add (pos 5 ∷ []) none ∷ Op.add (pos 6 ∷ []) none ∷ Op.advance ∷ Op.cancel 2 ∷ []

abbrev scripted : LlmEngine toy
scripted = record idle { runtime = record { sequences = []; script = busy.runtime.script } }

run-IsSynced_example : IsSynced toy toy-Registers (run toy calls scripted)
unfolding toy-Registers is_native or_default
run-IsSynced_example =
    run-IsSynced toy toy-Registers calls scripted (λ j. refl) (refl, (refl, (tt, (tt, tt))))

-- The second addition has a maximum of tokens beyond 32 bits.
abbrev oversized : List Op
oversized =
    Op.add (pos 5 ∷ []) none
    ∷ Op.add (pos 6 ∷ []) (some (record default_params { max_tokens = pos 2147483648 }))
    ∷ Op.advance
    ∷ []

run-IsOwned_example : IsOwned toy toy-Registers (run toy oversized scripted)
unfolding toy-Registers
run-IsOwned_example = run-IsOwned toy toy-Registers oversized scripted (λ j p. p)

-- A token of a sequence that the cache does not know raises after both tokens have been taken.
abbrev stale : LlmEngine toy
stale = record busy {
  runtime = record { sequences = 2 ∷ 1 ∷ []; script = token 1 7 false ∷ token 3 9 false ∷ [] };
}

stale_step : (step toy stale).0 ≡ raised
unfolding step
stale_step = refl

step_raises_example :
    ((step toy stale).1.active_requests ≡ stale.active_requests)
    × ((step toy stale).1.request_counter ≡ 2)
    × ((ids : List ℕ) × ((step toy stale).1.runtime
          ≡ append_all toy ids (toy.pop_all (toy.runner_step stale.runtime)).1))
step_raises_example = step_raises toy stale stale_step

busy_add : (add_request toy (pos 5 ∷ []) none busy).0 ≡ ok 3
unfolding add_request
busy_add = refl

add_request_returns_example :
    let e' = (add_request toy (pos 5 ∷ []) none busy).1 in
    (◌≡◌ {A = ℕ} 3 (2 + 1))
    × (contains 3 busy.active_requests ≡ false)
    × (lookup 3 e'.active_requests ≡ some (or_default none))
    × (contains 3 e'.active_requests ≡ true → 3 ≤ e'.request_counter)
add_request_returns_example =
    add_request_returns toy (pos 5 ∷ []) none busy 3 3 (λ j h. ground arith) busy_add

abbrev queues : Queues
queues = record { request_queues = (1, tt) ∷ (2, tt) ∷ []; mailboxes = (1, []) ∷ (2, []) ∷ [] }

generate_yields_example :
    consume (mail 1 (deliver_all busy_results queues)) ≡ (stream 1 busy_results, true)
generate_yields_example = generate_yields 1 busy_results queues refl refl

abbrev async : AsyncEngine toy
async = record { engine = busy; queues = queues; is_running = true }

background_round_delivers_example :
    mail 2 (background_round toy async).queues
    ≡ [] ++ stream 2 (map (finalize busy.active_requests) (popped toy busy))
background_round_delivers_example =
    background_round_delivers toy async 2 busy_results refl refl busy_step
