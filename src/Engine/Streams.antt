-- ===== src/Engine/Streams.antt =====
-- `AsyncLLMEngine` of cudaforge/engine.py: the background loop, the queues and `generate`.
-- A queue object is named by the request for which `generate` made it. The dictionary
-- `_request_queues` says which queues the loop still feeds; `mailboxes` holds what is in them, since
-- a consumer keeps its queue after the loop has dropped it from the dictionary.
use cudaforge.Prelude.{
  ℕ, Bool, true, false, List, [], ◌∷◌, ◌++◌, Option, none, some, Dict, lookup, insert, erase,
  contains, nat_eq, ltb, ◌&&◌, ◌||◌, if◌then◌else◌,
}
use cudaforge.Prelude.Int.{ℤ}
use cudaforge.Engine.Types.{SamplingParams, GenerationOutput}
use cudaforge.Engine.Native.{Native, Result, ok, raised}
use cudaforge.Engine.Core.{LlmEngine, add_request, step, cancel_request}

pub record Queues : Type 0 where
  pub request_queues : Dict ℕ (Unit {0})
  pub mailboxes : Dict ℕ (List GenerationOutput)

abbrev pub mail : ℕ → Queues → List GenerationOutput
mail i q = elim (lookup i q.mailboxes) [ none ↦ [] | some l ↦ l ]

-- The body of the loop over the outputs of one step.
unfoldable pub deliver : GenerationOutput → Queues → Queues
deliver out q =
    if contains out.request_id q.request_queues
    then record {
      request_queues =
          if out.is_final then erase out.request_id q.request_queues else q.request_queues;
      mailboxes = insert out.request_id (mail out.request_id q ++ out ∷ []) q.mailboxes;
    }
    else q

unfoldable pub deliver_all : List GenerationOutput → Queues → Queues
unfolding deliver
deliver_all [] q = q
deliver_all (out ∷ outs) q = deliver_all outs (deliver out q)

pub record AsyncEngine (native : Native) : Type 0 where
  pub engine : LlmEngine native
  pub queues : Queues
  pub is_running : Bool

module _ (native : Native) where
  unfoldable pub start : AsyncEngine native → AsyncEngine native
  start a = record a { is_running = true }

  unfoldable pub shutdown : AsyncEngine native → AsyncEngine native
  shutdown a = record a { is_running = false }

  -- One round of `_background_engine_loop`; an exception of the step is logged and dropped.
  unfoldable pub background_round : AsyncEngine native → AsyncEngine native
  unfolding deliver_all
  background_round a =
      let busy =
        ltb 0 (native.get_running_count a.engine.runtime)
        || ltb 0 (native.get_pending_count a.engine.runtime) in
      let (r, e) = step native a.engine in
      if a.is_running && busy
      then record a {
        engine = e;
        queues = elim r [ ok outs ↦ deliver_all outs a.queues | raised ↦ a.queues ];
      }
      else a

  -- `generate` up to its first `queue.get`: it starts the loop if need be, submits the request and
  -- registers a new queue. An exception of `add_request` leaves the generator.
  unfoldable pub open_stream :
      List ℤ → Option SamplingParams → AsyncEngine native → Result ℕ × AsyncEngine native
  unfolding start
  open_stream prompt params a =
      let a' = start a in
      let (r, e) = add_request native prompt params a'.engine in
      elim r [
        | raised ↦ (raised, record a' { engine = e })
        | ok i ↦ (
          ok i,
          record a' {
            engine = e;
            queues = record {
              request_queues = insert i tt a'.queues.request_queues;
              mailboxes = insert i [] a'.queues.mailboxes;
            };
          },
        )
      ]

  -- The handler of `CancelledError` in `generate`.
  unfoldable pub cancel_stream : ℕ → AsyncEngine native → AsyncEngine native
  cancel_stream i a = record a {
    engine = cancel_request native i a.engine;
    queues = record {
      request_queues = erase i a.queues.request_queues;
      mailboxes = a.queues.mailboxes;
    };
  }

-- The `while True` of `generate` on what is in its queue: what it yields, and whether it has left
-- the loop at a final output (`false`: it waits in `queue.get`).
unfoldable pub consume : List GenerationOutput → List GenerationOutput × Bool
consume [] = ([], false)
consume (out ∷ outs) =
    let rest = consume outs in if out.is_final then (out ∷ [], true) else (out ∷ rest.0, rest.1)
