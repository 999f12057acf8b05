-- ===== src/Profiling/TableTests.antt =====
-- A table of one kernel, and a timed counter.
use Prim.Native.Char.{code}
use cudaforge.Prelude.{
  ℕ, ◌+◌, ◌-◌, ◌≡◌, inr, refl, Bool, true, ◌&&◌, not, nat_beq, String, List, [], ◌∷◌, map, none,
  some, ◌==◌, string_eq, if◌then◌else◌,
}
use cudaforge.Prelude.Int.{pos}
use cudaforge.Fixed.{fixed}
use cudaforge.Profiling.Csv.{is_quote}
use cudaforge.Profiling.Ncu.{finished, System, Profiler, new_profiler}
use cudaforge.Profiling.CsvPrint.{print_line}
use cudaforge.Profiling.Timing.{Device, EventProfiler, report, benchmark}
use cudaforge.Profiling.Rounds.{benchmark-durations}

abbrev bare : String → Bool
bare String.[] = true
bare (String.◌∷◌ c s) = not (is_quote c) && bare s

abbrev header : List String
header = "Kernel Name" ∷ "Metric Name" ∷ "Metric Value" ∷ []

abbrev first_row : List String
first_row = "gemm" ∷ "lts__t_sectors_op_read_hit_rate.pct" ∷ "12" ∷ []

abbrev second_row : List String
second_row = "gemm" ∷ "lts__t_sectors_op_read_hit_rate.pct" ∷ "1,234" ∷ []

-- The profiler leaves the table, whatever is run.
abbrev machine : System fixed
machine = record {
  gettempdir = "/tmp";
  join = λ d n. n;
  str = λ n. "10";
  float = λ s. if s == "1234" then some (pos 1234) else none;
  is_space = λ c. nat_beq (code c) 32;
  run = λ command path. finished (some (map print_line (header ∷ first_row ∷ second_row ∷ [])));
}

abbrev ncu : Profiler fixed machine
ncu = new_profiler fixed machine "ncu" "" []

-- A device whose clock is its state.
abbrev counter : Device fixed ℕ
counter = record {
  Moment = ℕ;
  is_available = true;
  reset_peak_memory_stats = λ s. s;
  synchronize = λ s. s;
  now = λ s. s;
  elapsed_time = λ a b. pos (b - a);
  max_memory_allocated = λ s. pos s;
  memory_allocated = λ s. pos 0;
  mean = λ ts. pos 0;
  std = λ ts. pos 0;
  min_of = λ t ts. t;
  max_of = λ t ts. t;
}

abbrev rounds : EventProfiler fixed counter
rounds = record { label = "step"; warmup_iters = 1; profile_iters = 2 }

benchmark-durations_example :
    benchmark fixed counter rounds (λ s. some (s + 3)) 0
    ≡ inr (record {
      label = "step";
      mean_time_ms = pos 0;
      std_time_ms = pos 0;
      min_time_ms = pos 3;
      max_time_ms = pos 3;
      peak_memory_mb =
          fixed.div (pos 9) (fixed.mul (fixed.of_int (pos 1024)) (fixed.of_int (pos 1024)));
      allocated_memory_mb =
          fixed.div (pos 0) (fixed.mul (fixed.of_int (pos 1024)) (fixed.of_int (pos 1024)));
    })
unfolding report
benchmark-durations_example =
    benchmark-durations counter (λ s. s + 3) (λ s. some (s + 3)) (λ s. refl) rounds 0 refl
