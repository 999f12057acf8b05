-- ===== src/Engine/Ownership.antt =====
-- Every active request of the engine has a page table, also when calls raise half-way.
use cudaforge.Prelude.{
  ℕ, ◌+◌, ◌≡◌, true, List, [], ◌∷◌, Option, Dict, contains, nat_eq, contains-insert, contains-erase,
  inl, inr, arith,
}
use cudaforge.Prelude.Int.{ℤ}
use cudaforge.Engine.Types.{SamplingParams}
use cudaforge.Engine.Native.{Native, Registers, Result-cases}
use cudaforge.Engine.Core.{
  LlmEngine, add_request, or_default, collect, unregister_all, forget, clean_up, step,
  cancel_request,
}
use cudaforge.Engine.Sync.{Op, add, advance, cancel, apply, run, registered-collect}

module _ (native : Native) (laws : Registers native) where
  -- No request is active without a page table in the cache.
  abbrev pub IsOwned : LlmEngine native → Type 0
  IsOwned e = (j : ℕ) → contains j e.active_requests ≡ true → laws.registered e.runtime j ≡ true

  forget-IsOwned :
      (ids : List ℕ) (active : Dict ℕ SamplingParams) (s : native.State)
      → ((j : ℕ) → contains j active ≡ true → laws.registered s j ≡ true)
      → (j : ℕ) → contains j (forget ids active) ≡ true
      → laws.registered (unregister_all native ids s) j ≡ true
  unfolding forget unregister_all
  forget-IsOwned [] active s h j = h j
  forget-IsOwned (i ∷ ids) active s h j =
      forget-IsOwned ids _ _
        (λ k p. ground (arith, h k, p, contains-erase i k active, laws.unregister i s k)) j

  clean_up-IsOwned :
      (ids : List ℕ) (e : LlmEngine native) → IsOwned e → IsOwned (clean_up native ids e)
  unfolding clean_up
  clean_up-IsOwned [] e h = h
  clean_up-IsOwned (i ∷ ids) e h =
      forget-IsOwned (i ∷ ids) e.active_requests _
        (λ j p. ground (arith, h j p, laws.update (i ∷ ids) e.runtime j))

  add_request-IsOwned :
      (prompt : List ℤ) (params : Option SamplingParams) (e : LlmEngine native)
      → IsOwned e
      → IsOwned (add_request native prompt params e).1
  unfolding add_request
  add_request-IsOwned prompt params e h j =
      let i = e.request_counter + 1 in
      let p = or_default params in
      let answer = native.register_sequence_with_prefix i prompt e.runtime in
      elim (Result-cases answer.0) [
        | inl (n, e') ↦ ground (
          arith,
          h j,
          e',
          laws.register_ok i prompt e.runtime n j,
          laws.add i prompt p.max_tokens p.priority answer.1 j,
          contains-insert i j p e.active_requests,
        )
        | inr e' ↦ ground (arith, h j, e', laws.register_raised i prompt e.runtime j)
      ]

  step-IsOwned : (e : LlmEngine native) → IsOwned e → IsOwned (step native e).1
  unfolding step
  step-IsOwned e h =
      let popped = native.pop_all (native.runner_step e.runtime) in
      let run = collect native e.active_requests popped.0 popped.1 in
      let kept : IsOwned (record e { runtime = run.1 }) = λ j p.
        rw
          (
            registered-collect native laws e.active_requests popped.0 popped.1 j,
            laws.pop (native.runner_step e.runtime) j,
            laws.step e.runtime j,
          )
          (h j p) in
      elim (Result-cases run.0) [
        | inl (x, q) ↦ rw (q, step) (clean_up-IsOwned x.1 (record e { runtime = run.1 }) kept)
        | inr q ↦ rw (q, step) kept
      ]

  cancel_request-IsOwned :
      (i : ℕ) (e : LlmEngine native) → IsOwned e → IsOwned (cancel_request native i e)
  unfolding cancel_request
  cancel_request-IsOwned i e h j p = ground (
    arith,
    h j,
    p,
    contains-erase i j e.active_requests,
    laws.unregister i (native.runner_cancel_request i e.runtime) j,
    laws.cancel i e.runtime j,
  )

  apply-IsOwned : (op : Op) (e : LlmEngine native) → IsOwned e → IsOwned (apply native op e)
  unfolding apply
  apply-IsOwned (add prompt params) e h = add_request-IsOwned prompt params e h
  apply-IsOwned advance e h = step-IsOwned e h
  apply-IsOwned (cancel i) e h = cancel_request-IsOwned i e h

  -- Whatever calls a client makes, and whichever of them raise, also a request whose parameters are no
  -- 32-bit integers, no request is ever active without a page table in the cache, if none was so at the
  -- start.
  pub run-IsOwned : (ops : List Op) (e : LlmEngine native) → IsOwned e → IsOwned (run native ops e)
  unfolding run
  run-IsOwned [] e h = h
  run-IsOwned (op ∷ ops) e h = run-IsOwned ops (apply native op e) (apply-IsOwned op e h)
