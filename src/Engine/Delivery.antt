-- ===== src/Engine/Delivery.antt =====
-- What the streams of `AsyncLLMEngine` hand to their consumers.
use cudaforge.Prelude.{
  ℕ, ◌≡◌, refl, true, false, ◌&&◌, ◌||◌, List, [], ◌∷◌, ◌++◌, contains, nat_eq, ◌==◌, ltb,
  lookup-insert, contains-erase, arith, map, if◌then◌else◌,
}
use mathlib.Core.List.{append-nil, append_assoc}
use cudaforge.Engine.Types.{GenerationOutput}
use cudaforge.Engine.Native.{Native, ok}
use cudaforge.Engine.Core.{finalize, step}
use cudaforge.Engine.Outputs.{ends, popped, step_returns}
use cudaforge.Engine.Streams.{
  Queues, mail, deliver, deliver_all, AsyncEngine, background_round, consume,
}

-- The outputs of request `i`, up to and with its first final one.
abbrev pub stream : ℕ → List GenerationOutput → List GenerationOutput
stream i [] = []
stream i (o ∷ os) =
    let rest = stream i os in
    if o.request_id == i then (if o.is_final then o ∷ [] else o ∷ rest) else rest

mail-deliver :
    (i : ℕ) (o : GenerationOutput) (q : Queues)
    → mail i (deliver o q)
      ≡ (if o.request_id == i && contains i q.request_queues then mail i q ++ o ∷ [] else mail i q)
unfolding deliver
mail-deliver i o q =
    ground (arith, lookup-insert o.request_id i (mail o.request_id q ++ o ∷ []) q.mailboxes)

contains-deliver :
    (i : ℕ) (o : GenerationOutput) (q : Queues)
    → contains i (deliver o q).request_queues
      ≡ (if o.request_id == i && o.is_final then false else contains i q.request_queues)
unfolding deliver
contains-deliver i o q = ground (arith, contains-erase o.request_id i q.request_queues)

-- What a batch of outputs adds to the mailbox of a request.
mail-deliver_all :
    (i : ℕ) (os : List GenerationOutput) (q : Queues)
    → mail i (deliver_all os q)
      ≡ (if contains i q.request_queues then mail i q ++ stream i os else mail i q)
unfolding deliver_all
mail-deliver_all i [] q = ground (arith, append-nil (mail i q))
mail-deliver_all i (o ∷ os) q = ground (
  arith,
  mail-deliver_all i os (deliver o q),
  mail-deliver i o q,
  contains-deliver i o q,
  append_assoc (mail i q) (o ∷ []) (stream i os),
)

consume-stream :
    (i : ℕ) (os : List GenerationOutput) → consume (stream i os) ≡ (stream i os, ends i os)
unfolding consume
consume-stream i [] = refl
consume-stream i (o ∷ os) = ground (arith, consume-stream i os)

-- From a registered and empty queue of request `i`, whatever outputs the loop delivers, the consumer
-- yields exactly the outputs of `i` in order, up to and with the first final one, and it has ended
-- exactly if such a one was among them.
pub generate_yields :
    (i : ℕ) (os : List GenerationOutput) (q : Queues)
    → contains i q.request_queues ≡ true
    → mail i q ≡ []
    → consume (mail i (deliver_all os q)) ≡ (stream i os, ends i os)
generate_yields i os q here empty = rw (mail-deliver_all i os q, here, empty) (consume-stream i os)

module _ (native : Native) where
  -- A round of the running loop over a busy batcher, in which the step does not raise, appends to
  -- each registered queue the tokens that the step took for its request, up to the first final one,
  -- and leaves every other mailbox alone.
  pub background_round_delivers :
      (a : AsyncEngine native) (i : ℕ) (outs : List GenerationOutput)
      → a.is_running ≡ true
      → (ltb 0 (native.get_running_count a.engine.runtime)
          || ltb 0 (native.get_pending_count a.engine.runtime))
        ≡ true
      → (step native a.engine).0 ≡ ok outs
      → let own = stream i (map (finalize a.engine.active_requests) (popped native a.engine)) in
        mail i (background_round native a).queues
        ≡ (if contains i a.queues.request_queues then mail i a.queues ++ own else mail i a.queues)
  unfolding background_round
  background_round_delivers a i outs on busy returned =
      let same = (step_returns native a.engine outs i returned).0 in
      rw (on, busy, returned, background_round) (rw (← same) (mail-deliver_all i outs a.queues))
