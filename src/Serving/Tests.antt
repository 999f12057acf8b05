-- ===== src/Serving/Tests.antt =====
-- Servers and requests at which the theorems on the HTTP front are read.
use cudaforge.Prelude.{
  ℕ, ◌+◌, ◌≡◌, ◌≢◌, ◌↔◌, refl, true, false, String, List, [], ◌∷◌, get_elem?, replicate, some,
  arith, nat_beq, if◌then◌else◌,
}
use cudaforge.Serving.Backpressure.{
  mem, Limits, shed, arrive, finish, middleware_limits, backpressure_middleware,
}
use cudaforge.Serving.Load.{
  Server, arrival, departure, Reach, start, later, IsBounded, Reach-IsBounded, shed_iff_full,
  arrive_agree,
}
use cudaforge.Serving.Generator.{
  Signal, proceeds, cancels, exhausted, dummy_tokens, mock_cuda_token_generator,
}
use cudaforge.Serving.Generate.{GenerationRequest, World, queue_full, generate_tokens, serve}
use cudaforge.Serving.Permits.{
  piece, is_balanced, generator_chunks, permit_returned, cancelled_requests_exhaust,
}

abbrev narrow : Limits
narrow = record { max_concurrent = 1; max_queue = 1; exempt_paths = middleware_limits.exempt_paths }

abbrev busy : ℕ → ℕ → Server
busy a n = record { active = a; in_progress = n }

-- Two requests arrive, a third is shed, one leaves and a new one comes, with a health check between.
busy-Reach : Reach narrow (busy 2 2)
unfolding arrive finish
busy-Reach =
    later
      (later
        (later
          (later
            (later (later start (arrival "/v1/generate" (busy 0 0)))
              (arrival "/v1/generate" (busy 1 1)))
            (arrival "/v1/generate" (busy 2 2)))
          (departure (busy 2 2) (omega arith)))
        (arrival "/healthz" (busy 1 1)))
      (arrival "/v1/generate" (busy 1 1))

Reach-IsBounded_example : IsBounded narrow (busy 2 2)
Reach-IsBounded_example = Reach-IsBounded busy-Reach

shed_iff_full_example : ((arrive narrow "/v1/generate" 2).0 ≡ shed) ↔ (
    (mem "/v1/generate" narrow.exempt_paths ≡ false)
    × ((busy 2 2).in_progress ≡ narrow.max_concurrent + narrow.max_queue))
shed_iff_full_example = shed_iff_full "/v1/generate" busy-Reach

arrive_agree_example : arrive middleware_limits "/redoc" 160 ≡ backpressure_middleware "/redoc" 160
arrive_agree_example = arrive_agree "/redoc" 160

abbrev prompt : List String
prompt = "fuse" ∷ "the" ∷ "kernels" ∷ []

abbrev calm : ℕ → Signal
calm j = proceeds

generator_chunks_example :
    ((mock_cuda_token_generator calm prompt 4).1 ≡ exhausted)
    × (get_elem? (mock_cuda_token_generator calm prompt 4).0 3
        ≡ some (piece (dummy_tokens prompt) 4 3))
unfolding dummy_tokens
generator_chunks_example = generator_chunks calm prompt 4 3 (λ j. refl)

abbrev whole : GenerationRequest
whole = record { words = prompt; max_tokens = 4; stream = false }

-- The client leaves during the third step.
abbrev leaving : World
leaving = record {
  signal = λ i. if nat_beq i 2 then cancels else proceeds;
  body_started = true;
  response_valid = true;
}

abbrev staying : World
staying = record { signal = calm; body_started = true; response_valid = true }

permit_returned_example :
    (is_balanced staying whole ≡ true → (generate_tokens staying whole 3).1 ≡ 3)
    × (is_balanced staying whole ≡ false → (generate_tokens staying whole 3).1 ≢ 3)
permit_returned_example = permit_returned staying whole 3 (omega arith)

cancelled_requests_exhaust_example :
    generate_tokens staying whole (serve (replicate 32 (leaving, whole)) 32) ≡ (queue_full, 0)
unfolding mock_cuda_token_generator dummy_tokens
cancelled_requests_exhaust_example =
    cancelled_requests_exhaust 32 leaving whole staying whole refl refl
