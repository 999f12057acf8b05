-- ===== src/Engine/Sync.antt =====
-- The engine's table of active requests and the page tables of the native cache stay in step.
use cudaforge.Prelude.{
  ℕ, ◌+◌, ◌≡◌, refl, ◌∙◌, Bool, true, false, List, [], ◌∷◌, Option, Dict, contains, nat_eq,
  contains-insert, contains-erase, inl, inr, arith,
}
use cudaforge.Prelude.Int.{ℤ}
use cudaforge.Engine.Types.{SamplingParams, StreamOutput}
use cudaforge.Engine.Native.{Native, Registers, Result-cases}
use cudaforge.Engine.Core.{
  LlmEngine, add_request, or_default, is_native, append_unless, collect, finalize, unregister_all,
  forget, clean_up, step, cancel_request,
}

-- What a client of the engine may call, one call after another.
pub data Op : Type 0 where
  add : List ℤ → Option SamplingParams → Op
  advance : Op
  cancel : ℕ → Op

module _ (native : Native) where
  unfoldable pub apply : Op → LlmEngine native → LlmEngine native
  apply (add prompt params) e = (add_request native prompt params e).1
  apply advance e = (step native e).1
  apply (cancel i) e = cancel_request native i e

  -- The client goes on after an exception.
  unfoldable pub run : List Op → LlmEngine native → LlmEngine native
  unfolding apply
  run [] e = e
  run (op ∷ ops) e = run ops (apply op e)

-- The request's parameters are 32-bit integers.
abbrev IsNative : Op → Type 0
IsNative (add prompt params) = is_native (or_default params) ≡ true
IsNative advance = Unit
IsNative (cancel i) = Unit

abbrev AreNative : List Op → Type 0
AreNative [] = Unit
AreNative (op ∷ ops) = IsNative op × AreNative ops

module _ (native : Native) (laws : Registers native) where
  -- A request is active exactly when the cache has a page table for it.
  abbrev pub IsSynced : LlmEngine native → Type 0
  IsSynced e = (j : ℕ) → contains j e.active_requests ≡ laws.registered e.runtime j

  registered-append_unless :
      (b : Bool) (i : ℕ) (s : native.State) (j : ℕ)
      → laws.registered (append_unless native b i s).1 j ≡ laws.registered s j
  unfolding append_unless
  registered-append_unless true i s j = refl
  registered-append_unless false i s j = laws.append i 1 s j

  pub registered-collect :
      (active : Dict ℕ SamplingParams) (outs : List StreamOutput) (s : native.State) (j : ℕ)
      → laws.registered (collect native active outs s).1 j ≡ laws.registered s j
  unfolding collect
  registered-collect active [] s j = refl
  registered-collect active (out ∷ outs) s j =
      let final = (finalize active out).is_final in
      let s' = (append_unless native final out.request_id s).1 in
      ground (
        arith,
        registered-append_unless final out.request_id s j,
        registered-collect active outs s' j,
      )

  forget-IsSynced :
      (ids : List ℕ) (active : Dict ℕ SamplingParams) (s : native.State)
      → ((j : ℕ) → contains j active ≡ laws.registered s j)
      → (j : ℕ) → contains j (forget ids active) ≡ laws.registered (unregister_all native ids s) j
  unfolding forget unregister_all
  forget-IsSynced [] active s h j = h j
  forget-IsSynced (i ∷ ids) active s h j =
      forget-IsSynced ids _ _ (λ k. rw (contains-erase i k active, laws.unregister i s k, h k)) j

  clean_up-IsSynced :
      (ids : List ℕ) (e : LlmEngine native) → IsSynced e → IsSynced (clean_up native ids e)
  unfolding clean_up
  clean_up-IsSynced [] e h = h
  clean_up-IsSynced (i ∷ ids) e h =
      forget-IsSynced (i ∷ ids) e.active_requests _
        (λ j. h j ∙ (rw (laws.update (i ∷ ids) e.runtime j)))

  add_request-IsSynced :
      (prompt : List ℤ) (params : Option SamplingParams) (e : LlmEngine native)
      → IsSynced e
      → is_native (or_default params) ≡ true
      → IsSynced (add_request native prompt params e).1
  unfolding add_request
  add_request-IsSynced prompt params e h fit j =
      let i = e.request_counter + 1 in
      let p = or_default params in
      let answer = native.register_sequence_with_prefix i prompt e.runtime in
      elim (Result-cases answer.0) [
        | inl (n, e') ↦ ground (
          arith,
          h j,
          e',
          fit,
          laws.register_ok i prompt e.runtime n j,
          laws.add i prompt p.max_tokens p.priority answer.1 j,
          contains-insert i j p e.active_requests,
        )
        | inr e' ↦ ground (arith, h j, e', laws.register_raised i prompt e.runtime j)
      ]

  step-IsSynced : (e : LlmEngine native) → IsSynced e → IsSynced (step native e).1
  unfolding step
  step-IsSynced e h =
      let popped = native.pop_all (native.runner_step e.runtime) in
      let run = collect native e.active_requests popped.0 popped.1 in
      let kept : IsSynced (record e { runtime = run.1 }) = λ j.
        rw
          (
            registered-collect e.active_requests popped.0 popped.1 j,
            laws.pop (native.runner_step e.runtime) j,
            laws.step e.runtime j,
          )
          (h j) in
      elim (Result-cases run.0) [
        | inl (x, q) ↦ rw (q, step) (clean_up-IsSynced x.1 (record e { runtime = run.1 }) kept)
        | inr q ↦ rw (q, step) kept
      ]

  cancel_request-IsSynced :
      (i : ℕ) (e : LlmEngine native) → IsSynced e → IsSynced (cancel_request native i e)
  unfolding cancel_request
  cancel_request-IsSynced i e h j =
      rw (contains-erase i j e.active_requests, laws.unregister i, laws.cancel i e.runtime j, h j)

  apply-IsSynced :
      (op : Op) (e : LlmEngine native) → IsSynced e → IsNative op → IsSynced (apply native op e)
  unfolding apply
  apply-IsSynced (add prompt params) e h fit = add_request-IsSynced prompt params e h fit
  apply-IsSynced advance e h fit = step-IsSynced e h
  apply-IsSynced (cancel i) e h fit = cancel_request-IsSynced i e h

  -- Whatever calls a client makes, and whichever of the registrations and steps raise, a request stays
  -- active exactly as long as the cache has a page table for it, if this was so at the start, and if the
  -- maximum of tokens and the priority of every added request are 32-bit integers.
  pub run-IsSynced :
      (ops : List Op) (e : LlmEngine native)
      → IsSynced e
      → AreNative ops
      → IsSynced (run native ops e)
  unfolding run
  run-IsSynced [] e h fit = h
  run-IsSynced (op ∷ ops) e h (fit, rest) =
      run-IsSynced ops (apply native op e) (apply-IsSynced op e h fit) rest
