-- ===== src/Engine/Outputs.antt =====
-- What `LLMEngine.step` and `LLMEngine.add_request` return, and what they leave in the table of
-- active requests.
use cudaforge.Prelude.{
  Bool-cases, ℕ, ◌+◌, ◌≤◌, ◌≡◌, refl, Bool, true, false, List, [], ◌∷◌, map, Option, none, some,
  Dict, lookup, erase, contains, nat_eq, ◌==◌, lookup-insert, lookup-erase, inl, inr, arith,
  if◌then◌else◌,
}
use cudaforge.Prelude.Int.{ℤ}
use cudaforge.Engine.Types.{SamplingParams, StreamOutput, GenerationOutput}
use cudaforge.Engine.Native.{Native, ok, raised, Result-cases}
use cudaforge.Engine.Core.{
  LlmEngine, add_request, or_default, append_unless, collect, finalize, note_finished, forget,
  clean_up, step,
}

-- Some result of the list is the last one of request `j`.
abbrev pub ends : ℕ → List GenerationOutput → Bool
ends j [] = false
ends j (r ∷ rs) = if r.is_final then (if r.request_id == j then true else ends j rs) else ends j rs

abbrev finished : List GenerationOutput → List ℕ
finished [] = []
finished (r ∷ rs) = note_finished r (finished rs)

lookup-forget :
    (rs : List GenerationOutput) (j : ℕ) (active : Dict ℕ SamplingParams)
    → lookup j (forget (finished rs) active) ≡ (if ends j rs then none else lookup j active)
unfolding forget note_finished
lookup-forget [] j active = refl
lookup-forget (r ∷ rs) j active = ground (
  arith,
  lookup-erase r.request_id j active,
  lookup-forget rs j active,
  lookup-forget rs j (erase r.request_id active),
)

module _ (native : Native) where
  -- The tokens that a step takes from the runner's stream buffer.
  abbrev pub popped : LlmEngine native → List StreamOutput
  popped e = (native.pop_all (native.runner_step e.runtime)).0

  collected : Dict ℕ SamplingParams → List StreamOutput → List GenerationOutput × List ℕ
  collected active outs = (map (finalize active) outs, finished (map (finalize active) outs))

  collect-eq-ok :
      (active : Dict ℕ SamplingParams) (outs : List StreamOutput) (s : native.State)
      (x : List GenerationOutput × List ℕ)
      → (collect native active outs s).0 ≡ ok x
      → x ≡ collected active outs
  unfolding collect collected
  collect-eq-ok active [] s x h = cc
  collect-eq-ok active (out ∷ outs) s x h =
      let go = finalize active out in
      let first = append_unless native go.is_final out.request_id s in
      let rest = collect native active outs first.1 in
      elim (Result-cases first.0) [
        | inl (u, p) ↦ elim (Result-cases rest.0) [
          | inl (y, q) ↦ ground (arith, p, q, collect-eq-ok active outs first.1 y q)
          | inr q ↦ ground (arith, p, q)
        ]
        | inr p ↦ ground (arith, p)
      ]

  active-clean_up :
      (ids : List ℕ) (e : LlmEngine native)
      → (clean_up native ids e).active_requests ≡ forget ids e.active_requests
  unfolding clean_up
  active-clean_up [] e = refl
  active-clean_up (i ∷ ids) e = refl

  pub step_returns :
      (e : LlmEngine native) (results : List GenerationOutput) (j : ℕ)
      → (step native e).0 ≡ ok results
      → (results ≡ map (finalize e.active_requests) (popped e))
        × (lookup j (step native e).1.active_requests
            ≡ (if ends j results then none else lookup j e.active_requests))
  unfolding step collected
  step_returns e results j h =
      let s = native.pop_all (native.runner_step e.runtime) in
      let r = collect native e.active_requests s.0 s.1 in
      elim (Result-cases r.0) [
        | inl (x, q) ↦ ground (
          arith,
          q,
          collect-eq-ok e.active_requests s.0 s.1 x q,
          lookup-forget results j e.active_requests,
          active-clean_up x.1 (record e { runtime = r.1 }),
        )
        | inr q ↦ ground (arith, q)
      ]

  -- One more token for each of these requests.
  abbrev pub append_all : List ℕ → native.State → native.State
  append_all [] s = s
  append_all (i ∷ ids) s = append_all ids (native.append_tokens i 1 s).1

  collect-append_all :
      (active : Dict ℕ SamplingParams) (outs : List StreamOutput) (s : native.State)
      → (ids : List ℕ) × ((collect native active outs s).1 ≡ append_all ids s)
  unfolding collect append_unless
  collect-append_all active [] s = ([], refl)
  collect-append_all active (out ∷ outs) s = elim (Bool-cases (finalize active out).is_final) [
    | inl last ↦ let (ids, e) = collect-append_all active outs s in (ids, ground (arith, last, e))
    | inr more ↦
        let s' = (native.append_tokens out.request_id 1 s).1 in
        let (ids, e) = collect-append_all active outs s' in
        elim (Result-cases (native.append_tokens out.request_id 1 s).0) [
          | inl (x, q) ↦ (out.request_id ∷ ids, ground (arith, more, q, e))
          | inr q ↦ (out.request_id ∷ [], ground (arith, more, q))
        ]
  ]

  -- A step that raises changes neither the table of active requests, so that it forgets none, also
  -- none that a popped token ends, nor the counter of identifiers; and the tokens are gone: the state
  -- that it leaves is one in which the buffer has been emptied and some tokens have been appended.
  pub step_raises :
      (e : LlmEngine native)
      → (step native e).0 ≡ raised
      → let e' = (step native e).1 in
        (e'.active_requests ≡ e.active_requests)
        × (e'.request_counter ≡ e.request_counter)
        × ((ids : List ℕ) × (e'.runtime
              ≡ append_all ids (native.pop_all (native.runner_step e.runtime)).1))
  unfolding step
  step_raises e h =
      let s = native.pop_all (native.runner_step e.runtime) in
      let r = collect native e.active_requests s.0 s.1 in
      elim (Result-cases r.0) [
        | inl (x, q) ↦ absurd (ground (arith, q))
        | inr q ↦ rw (q, step) (refl, refl, collect-append_all e.active_requests s.0 s.1)
      ]

  -- The next identifier is larger than that of every active request, also of the requests that are
  -- still to come.
  abbrev pub IsFresh : LlmEngine native → Type 0
  IsFresh e = (j : ℕ) → contains j e.active_requests ≡ true → j ≤ e.request_counter

  -- A request that is accepted gets the next identifier, which no active request has; it is active
  -- with its parameters from then on, no other request changes, and identifiers stay fresh.
  pub add_request_returns :
      (prompt : List ℤ) (params : Option SamplingParams) (e : LlmEngine native) (i j : ℕ)
      → IsFresh e
      → (add_request native prompt params e).0 ≡ ok i
      → let e' = (add_request native prompt params e).1 in
        (i ≡ e.request_counter + 1)
        × (contains i e.active_requests ≡ false)
        × (lookup j e'.active_requests
            ≡ (if i == j then some (or_default params) else lookup j e.active_requests))
        × (contains j e'.active_requests ≡ true → j ≤ e'.request_counter)
  unfolding add_request
  add_request_returns prompt params e i j fresh h = ground (
    arith,
    fresh i,
    fresh j,
    lookup-insert (e.request_counter + 1) j (or_default params) e.active_requests,
  )
