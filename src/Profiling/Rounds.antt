-- ===== src/Profiling/Rounds.antt =====
-- How often the event profiler calls its function, and which calls it times.
use cudaforge.Prelude.{ℕ, zero, suc, ◌≡◌, refl, true, List, [], ◌∷◌, Option, some}
use cudaforge.Prelude.Float.{FloatOps}
use cudaforge.Profiling.Timing.{Device, EventProfiler, warm_up, profile, report, benchmark}

abbrev pub iterate : {State : Type 0} → (State → State) → ℕ → State → State
iterate g zero s = s
iterate g (suc n) s = iterate g n (g s)

module _ {f : FloatOps} {State : Type 0} (dev : Device f State) (g : State → State) where
  -- The time of each of the next calls.
  abbrev pub durations : ℕ → State → List f.Float
  durations zero s = []
  durations (suc n) s = dev.elapsed_time (dev.now s) (dev.now (g s)) ∷ durations n (g s)

  module _ (fn : State → Option State) (returns : (s : State) → fn s ≡ some (g s)) where
    warm_up-iterate : (n : ℕ) (s : State) → warm_up f dev fn n s ≡ some (iterate g n s)
    unfolding warm_up
    warm_up-iterate zero s = refl
    warm_up-iterate (suc n) s = rw (warm_up, returns s) (warm_up-iterate n (g s))

    profile-durations :
        (n : ℕ) (s : State) → profile f dev fn n s ≡ some (durations n s, iterate g n s)
    unfolding profile
    profile-durations zero s = refl
    profile-durations (suc n) s = rw (profile, returns s, profile-durations n (g s)) refl

    -- When CUDA is there and the function returns, it is called as often as warm-up and profile
    -- rounds ask for; the report is that of the times of the profile rounds alone, each of one call,
    -- and of the memory after the last.
    pub benchmark-durations :
        (p : EventProfiler f dev) (s : State)
        → dev.is_available ≡ true
        → benchmark f dev p fn s ≡ (
            let warm =
              dev.synchronize
                (iterate g p.warmup_iters (dev.synchronize (dev.reset_peak_memory_stats s))) in
            report f dev p
              (durations p.profile_iters warm)
              (dev.synchronize (iterate g p.profile_iters warm)))
    unfolding benchmark
    benchmark-durations p s here =
        let start = dev.synchronize (dev.reset_peak_memory_stats s) in
        let warm = dev.synchronize (iterate g p.warmup_iters start) in
        rw
          (
            benchmark,
            here,
            warm_up-iterate p.warmup_iters start,
            profile-durations p.profile_iters warm,
          )
          refl
