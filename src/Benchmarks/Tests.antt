-- ===== src/Benchmarks/Tests.antt =====
-- The scheduler's theorems at a small pool.
use cudaforge.Prelude.{ℕ, Bool, true, false, ◌↔◌, Dict, String}
use cudaforge.Prelude.Int.{ℤ, pos}
use cudaforge.Fixed.{fixed}
use cudaforge.Benchmarks.Regression.{RegressionRunner, run_all, holds, run_all_passes_iff}
use cudaforge.Prelude.{◌≡◌, List, [], ◌∷◌, ◌++◌, none, some, arith}
use cudaforge.Benchmarks.Batcher.{Request, Simulation, simulate}
use cudaforge.Benchmarks.Counts.{tally}
use cudaforge.Benchmarks.Admission.{
  IsWithin, admitted, admit_fifo, present, simulate_completes, simulate_stuck,
}

abbrev pool : List Request
pool =
    record { id = 0; prompt_len = 100; gen_len = 2 }
    ∷ record { id = 1; prompt_len = 60; gen_len = 1 }
    ∷ record { id = 2; prompt_len = 90; gen_len = 3 }
    ∷ []

abbrev first : Request
first = record { id = 9; prompt_len = 40; gen_len = 5 }

abbrev start : Simulation
start = record { waiting_queue = pool; running_batch = first ∷ []; completed_requests = [] }

admit_fifo_example :
    IsWithin 2 200 (admitted 2 200 pool (first ∷ [])).1
    × ((admitted 2 200 pool (first ∷ [])).1 ++ (admitted 2 200 pool (first ∷ [])).0 ≡ first ∷ pool)
admit_fifo_example = admit_fifo 2 200 pool (first ∷ []) (omega arith)

simulate_completes_example :
    (t : Simulation) × (simulate 2 200 20 start ≡ some t)
    × (t.waiting_queue ≡ [])
    × (t.running_batch ≡ [])
    × ((p : ℕ → ℕ → Bool) → tally p t.completed_requests ≡ present 2 200 p start)
simulate_completes_example =
    simulate_completes 2 200 20 start (omega arith) (omega arith) (omega arith)

simulate_stuck_example :
    simulate 16 64 1000
      (record { waiting_queue = pool; running_batch = []; completed_requests = [] })
    ≡ none
simulate_stuck_example =
    simulate_stuck 16 64 1000 (record { id = 0; prompt_len = 100; gen_len = 2 })
      (record { id = 1; prompt_len = 60; gen_len = 1 }
        ∷ record { id = 2; prompt_len = 90; gen_len = 3 }
        ∷ [])
      [] (omega arith)

-- The latency of attention is 5 percent above its baseline, and the second metric has none.
abbrev runner : RegressionRunner fixed
runner = record {
  threshold_pct = pos 10000;
  baselines =
      ("flash_attention_v2", ("flash_attn_p50_ms", pos 2000) ∷ [])
      ∷ ("continuous_batching_scheduler", ("throughput_tokens_per_sec", pos 90000) ∷ [])
      ∷ [];
}

abbrev flash : Dict String ℤ
flash = ("flash_attn_p50_ms", pos 2100) ∷ []

abbrev paged : Dict String ℤ
paged = ("alloc_latency_p50_us", pos 7000) ∷ []

abbrev batching : Dict String ℤ
batching = ("throughput_tokens_per_sec", pos 95000) ∷ []

run_all_passes_iff_example : (run_all fixed runner flash paged batching ≡ some true) ↔ (
    (holds fixed runner flash "flash_attention_v2" "flash_attn_p50_ms" true ≡ true)
    × (holds fixed runner paged "paged_kv_cache_manager" "alloc_latency_p50_us" true ≡ true)
    × (holds fixed runner batching "continuous_batching_scheduler" "throughput_tokens_per_sec" false
        ≡ true))
run_all_passes_iff_example = run_all_passes_iff fixed runner flash paged batching
