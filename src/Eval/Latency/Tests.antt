-- ===== src/Eval/Latency/Tests.antt =====
-- A loop of steps whose device logs them, and whose clock counts the log.
use cudaforge.Prelude.{
  true, ℕ, ◌+◌, ◌-◌, ◌*◌, ◌≡◌, ◌≤◌, ◌<◌, refl, List, [], ◌∷◌, length, get_elem?, min, max, some,
  arith,
}
use cudaforge.Prelude.Int.{ℤ, pos}
use cudaforge.Fixed.{fixed}
use cudaforge.Eval.Latency.Profile.{
  Ran, done, Statistics, LatencyProfileResult, profile_generation_loop,
}
use cudaforge.Eval.Latency.Steps.{range, repeat, run, next}
use cudaforge.Eval.Latency.Schedule.{StatisticsLaws, profile_generation_loop_schedule}

abbrev statistics : Statistics fixed
statistics = record {
  mean = λ xs. pos 0;
  stdev = λ xs. pos 0;
  sorted = λ xs. xs;
  floor = λ x. 0;
  ceil = λ x. 0;
}

statistics-StatisticsLaws : StatisticsLaws fixed statistics
statistics-StatisticsLaws = record { length-sorted = λ xs. refl; place = λ n m lt. omega arith }

abbrev log_step : ℕ → List ℕ → Ran (Unit {0}) × List ℕ
log_step step log = (done tt, step ∷ log)

abbrev tick : List ℕ → List ℕ → ℤ
tick before after = pos (1000 * length before)

-- Two rounds of warm-up with four steps each.
abbrev warmed : List ℕ
warmed = run (next log_step) (repeat 2 (range 0 (min 6 4))) []

profile_generation_loop_schedule_example :
    (r : LatencyProfileResult fixed statistics) × (profile_generation_loop fixed statistics log_step
        tick true 2 512 6 1 []
      ≡ (done r, run (next log_step) (range 1 (6 - 1)) (next log_step 0 warmed)))
    × (r.ttft_ms ≡ tick warmed (next log_step 0 warmed))
    × (length r.per_token_latencies_ms ≡ max 1 (6 - 1))
    × ((i : ℕ)
        → i < 6 - 1
        → let before = run (next log_step) (range 1 i) (next log_step 0 warmed) in
          get_elem? r.per_token_latencies_ms i ≡ some (tick before (next log_step (1 + i) before)))
    × (6 ≤ 1 → r.per_token_latencies_ms ≡ tick warmed (next log_step 0 warmed) ∷ [])
profile_generation_loop_schedule_example =
    profile_generation_loop_schedule fixed statistics statistics-StatisticsLaws log_step tick 2 512
      6 1 [] (λ step log. refl)
