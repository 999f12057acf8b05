-- ===== src/Profiling/Timing.antt =====
-- `CUDAEventProfiler` of cudaforge/profiler.py: the rounds of warming up and of timing.
use cudaforge.Prelude.{
  ℕ, zero, suc, ◌⊎◌, inl, inr, Bool, String, List, [], ◌∷◌, Option, none, some, if◌then◌else◌,
}
use cudaforge.Prelude.Int.{pos}
use cudaforge.Prelude.Float.{FloatOps}

-- The device in the state that the timed function changes: its clock and memory, and the statistics
-- of a tensor; `min_of` and `max_of` take a first entry, since of an empty tensor they raise.
pub record Device (f : FloatOps) (State : Type 0) : Type 1 where
  pub Moment : Type 0
  pub is_available : Bool
  pub reset_peak_memory_stats : State → State
  pub synchronize : State → State
  pub now : State → Moment
  pub elapsed_time : Moment → Moment → f.Float
  pub max_memory_allocated : State → f.Float
  pub memory_allocated : State → f.Float
  pub mean : List f.Float → f.Float
  pub std : List f.Float → f.Float
  pub min_of : f.Float → List f.Float → f.Float
  pub max_of : f.Float → List f.Float → f.Float

pub data BenchmarkError : Type 0 where
  no_cuda raised empty_tensor : BenchmarkError

module _ (f : FloatOps) {State : Type 0} (dev : Device f State) where
  open f use {Float}

  pub record CudaTimerReport : Type 0 where
    pub label : String
    pub mean_time_ms : Float
    pub std_time_ms : Float
    pub min_time_ms : Float
    pub max_time_ms : Float
    pub peak_memory_mb : Float
    pub allocated_memory_mb : Float

  pub record EventProfiler : Type 0 where
    pub label : String
    pub warmup_iters : ℕ
    pub profile_iters : ℕ

  -- `for _ in range(n): fn()`, where `fn` may raise
  unfoldable pub warm_up : (State → Option State) → ℕ → State → Option State
  warm_up fn zero s = some s
  warm_up fn (suc n) s = elim (fn s) [ none ↦ none | some s' ↦ warm_up fn n s' ]

  -- The profile loop, and the times between the events of each round.
  unfoldable pub profile : (State → Option State) → ℕ → State → Option (List Float × State)
  profile fn zero s = some ([], s)
  profile fn (suc n) s = elim (fn s) [
    | none ↦ none
    | some s' ↦ elim (profile fn n s') [
      | none ↦ none
      | some (timings, last) ↦ some (dev.elapsed_time (dev.now s) (dev.now s') ∷ timings, last)
    ]
  ]

  abbrev pub megabytes : Float → Float
  megabytes bytes = f.div bytes (f.mul (f.of_int (pos 1024)) (f.of_int (pos 1024)))

  unfoldable pub report : EventProfiler → List Float → State → BenchmarkError ⊎ CudaTimerReport
  report p [] s = inl empty_tensor
  report p (t ∷ ts) s = inr (record {
    label = p.label;
    mean_time_ms = dev.mean (t ∷ ts);
    std_time_ms = dev.std (t ∷ ts);
    min_time_ms = dev.min_of t ts;
    max_time_ms = dev.max_of t ts;
    peak_memory_mb = megabytes (dev.max_memory_allocated s);
    allocated_memory_mb = megabytes (dev.memory_allocated s);
  })

  unfoldable pub benchmark :
      EventProfiler → (State → Option State) → State → BenchmarkError ⊎ CudaTimerReport
  unfolding warm_up profile report
  benchmark p fn s =
      if dev.is_available
      then (elim (warm_up fn p.warmup_iters (dev.synchronize (dev.reset_peak_memory_stats s))) [
        | none ↦ inl raised
        | some warm ↦ elim (profile fn p.profile_iters (dev.synchronize warm)) [
          | none ↦ inl raised
          | some (timings, last) ↦ report p timings (dev.synchronize last)
        ]
      ])
      else inl no_cuda
