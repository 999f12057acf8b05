-- ===== src/Serving/Permits.antt =====
-- The tokens that the route emits and the permits that it gives back.
use cudaforge.Prelude.{
  ℕ, zero, suc, ◌+◌, ◌-◌, ◌<◌, ◌≡◌, ◌≢◌, refl, ap, ◌∙◌, Bool, true, false, String, List, length,
  get_elem?, get_or, replicate, min, nat_beq, ltb, none, some, arith, if◌then◌else◌,
}
use cudaforge.Serving.Generator.{
  Event, chunk, Signal, proceeds, exhausted, cancelled, dummy_tokens, steps,
  mock_cuda_token_generator,
}
use cudaforge.Serving.Generate.{GenerationRequest, World, queue_full, generate_tokens, serve}

-- The chunk of step `i` of `total` steps.
abbrev pub piece : List String → ℕ → ℕ → Event
piece tokens total i =
    chunk
      (record { token_id = 1000 + i; word = get_or tokens i ""; is_final = nat_beq i (total - 1) })

module _ (signal : ℕ → Signal) (undisturbed : (i : ℕ) → signal i ≡ proceeds)
    (tokens : List String) where
  steps_at :
      (total n idx i : ℕ)
      → idx + n ≡ total
      → get_elem? (steps signal tokens total n idx).0 i
        ≡ (if ltb i n then some (piece tokens total (idx + i)) else none)
  unfolding steps
  steps_at total zero idx i e = ground arith
  steps_at total (suc n) idx zero e =
      let here : idx + 0 ≡ idx = omega arith in rw (here, undisturbed idx, steps) (ground arith)
  steps_at total (suc n) idx (suc i) e =
      let there : idx + suc i ≡ (idx + 1) + i = omega arith in
      rw (there, undisturbed idx, steps)
        (ground (arith, steps_at total n (idx + 1) i (omega arith)))

  steps_exhausted : (total n idx : ℕ) → (steps signal tokens total n idx).1 ≡ exhausted
  unfolding steps
  steps_exhausted total zero idx = refl
  steps_exhausted total (suc n) idx =
      ground (arith, undisturbed idx, steps_exhausted total n (idx + 1))

-- If nothing disturbs the generator, it is exhausted after `min max_tokens (number of tokens)` chunks,
-- the one at place `i` with the identifier `1000 + i` and the `i`-th token, and only the last of them
-- is final.
pub generator_chunks :
    (signal : ℕ → Signal) (words : List String) (max_tokens i : ℕ)
    → ((j : ℕ) → signal j ≡ proceeds)
    → let tokens = dummy_tokens words in
      let total = min max_tokens (length tokens) in
      ((mock_cuda_token_generator signal words max_tokens).1 ≡ exhausted)
      × (get_elem? (mock_cuda_token_generator signal words max_tokens).0 i
          ≡ (if ltb i total then some (piece tokens total i) else none))
unfolding mock_cuda_token_generator
generator_chunks signal words max_tokens i undisturbed =
    let tokens = dummy_tokens words in
    let total = min max_tokens (length tokens) in
    let zero_add : 0 + i ≡ i = omega arith in
    (
      steps_exhausted signal undisturbed tokens total total 0,
      rw zero_add at (steps_at signal undisturbed tokens total total 0 i (omega arith)),
    )

-- How the branch ends: the generator was not cancelled, and the body was run or the response valid.
abbrev pub is_balanced : World → GenerationRequest → Bool
is_balanced world req =
    if req.stream
    then world.body_started
    else (elim (mock_cuda_token_generator world.signal req.words req.max_tokens).1 [
      | exhausted ↦ world.response_valid
      | cancelled ↦ false
    ])

-- A request that gets a permit gives back exactly one if its stream is started, or if it is answered
-- whole without being cancelled and with a valid response; and otherwise it does not.
pub permit_returned :
    (world : World) (req : GenerationRequest) (permits : ℕ)
    → 0 < permits
    → (is_balanced world req ≡ true → (generate_tokens world req permits).1 ≡ permits)
      × (is_balanced world req ≡ false → (generate_tokens world req permits).1 ≢ permits)
unfolding generate_tokens
permit_returned world req permits some_ = ground arith

leaves_with_permit :
    (n : ℕ) (world : World) (req : GenerationRequest)
    → req.stream ≡ false
    → (mock_cuda_token_generator world.signal req.words req.max_tokens).1 ≡ cancelled
    → (generate_tokens world req (suc n)).1 ≡ n
unfolding generate_tokens
leaves_with_permit n world req whole gone = ground arith

serve-replicate :
    (n : ℕ) (world : World) (req : GenerationRequest)
    → req.stream ≡ false
    → (mock_cuda_token_generator world.signal req.words req.max_tokens).1 ≡ cancelled
    → serve (replicate n (world, req)) n ≡ 0
unfolding serve
serve-replicate zero world req whole gone = refl
serve-replicate (suc n) world req whole gone =
    ap (serve (replicate n (world, req))) (leaves_with_permit n world req whole gone)
    ∙ serve-replicate n world req whole gone

refused_at_zero :
    (world : World) (req : GenerationRequest) → generate_tokens world req 0 ≡ (queue_full, 0)
unfolding generate_tokens
refused_at_zero world req = refl

-- Whole answers whose client leaves: each of `n` such requests takes a permit for good, and after as
-- many as there were permits every further request is refused.
pub cancelled_requests_exhaust :
    (n : ℕ) (world : World) (req : GenerationRequest) (other : World) (next : GenerationRequest)
    → req.stream ≡ false
    → (mock_cuda_token_generator world.signal req.words req.max_tokens).1 ≡ cancelled
    → generate_tokens other next (serve (replicate n (world, req)) n) ≡ (queue_full, 0)
cancelled_requests_exhaust n world req other next whole gone =
    rw (serve-replicate n world req whole gone) (refused_at_zero other next)
