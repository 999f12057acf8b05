-- ===== src/Serving/Generate.antt =====
-- `generate_tokens` of serving/api/v1/generate.py: the route, and what it does to the permits of
-- `concurrency_semaphore`.
use cudaforge.Prelude.{ℕ, ◌+◌, ◌-◌, Bool, String, List, [], ◌∷◌, length, ltb, if◌then◌else◌}
use cudaforge.Serving.Generator.{
  Event, chunk, error, Signal, Ending, exhausted, cancelled, mock_cuda_token_generator,
}

-- The parts of a validated request that the route reads.
pub record GenerationRequest : Type 0 where
  pub words : List String
  pub max_tokens : ℕ
  pub stream : Bool

-- What the environment decides: the `await`s of the generator, whether the server ever iterates the
-- body of a streaming response, and whether the response model accepts its fields.
pub record World : Type 0 where
  pub signal : ℕ → Signal
  pub body_started : Bool
  pub response_valid : Bool

pub record GenerationResponse : Type 0 where
  pub generated_words : List String
  pub finish_reason : String
  pub tokens_generated : ℕ

pub data Reply : Type 0 where
  queue_full internal_error client_gone : Reply
  streaming : List Event → Reply
  response : GenerationResponse → Reply

-- The words of the events that begin with "data: ".
unfoldable pub chunk_words : List Event → List String
chunk_words [] = []
chunk_words (chunk c ∷ es) = c.word ∷ chunk_words es
chunk_words (error ∷ es) = chunk_words es

unfoldable pub respond : List String → GenerationResponse
respond words = record {
  generated_words = words;
  finish_reason = "stop";
  tokens_generated = length words;
}

-- The non-streaming branch. A cancellation is no `Exception`, so it passes the handler; an invalid
-- response raises after the release, and the handler releases again.
unfoldable pub reply_whole : World → List Event × Ending → ℕ → Reply × ℕ
unfolding chunk_words respond
reply_whole world (events, cancelled) permits = (client_gone, permits)
reply_whole world (events, exhausted) permits =
    if world.response_valid
    then (response (respond (chunk_words events)), permits + 1)
    else (internal_error, permits + 1 + 1)

-- The streaming branch: the wrapper releases in its `finally`, once its body has been started.
unfoldable pub reply_stream : World → List Event × Ending → ℕ → Reply × ℕ
reply_stream world (events, ending) permits =
    if world.body_started then (streaming events, permits + 1) else (streaming [], permits)

-- `permits` is the value of the semaphore when the wait for it ends, by a grant or after 5 seconds.
unfoldable pub generate_tokens : World → GenerationRequest → ℕ → Reply × ℕ
unfolding reply_whole reply_stream
generate_tokens world req permits =
    let run = mock_cuda_token_generator world.signal req.words req.max_tokens in
    if ltb 0 permits
    then if req.stream
      then reply_stream world run (permits - 1)
      else reply_whole world run (permits - 1)
    else (queue_full, permits)

-- One request after another.
unfoldable pub serve : List (World × GenerationRequest) → ℕ → ℕ
serve [] permits = permits
serve ((world, req) ∷ rest) permits = serve rest (generate_tokens world req permits).1
