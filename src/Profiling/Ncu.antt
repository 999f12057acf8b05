-- ===== src/Profiling/Ncu.antt =====
-- `NsightComputeProfiler` of cudaforge/profiler.py: the command that is run, and the reports from the
-- table that it leaves.
use Prim.Native.Char.{Char}
use Prim.Native.String.{◌++◌ as append}
use cudaforge.Prelude.{
  ℕ, Bool, not, String, List, [], ◌∷◌, ◌++◌, map, length, get_elem?, Option, none, some, Dict,
  lookup, insert, ◌==◌, string_eq, leb, max, ◌⊎◌, inl, inr, if◌then◌else◌,
}
use cudaforge.Prelude.Int.{pos}
use cudaforge.Prelude.Float.{FloatOps}
use cudaforge.Profiling.Csv.{is_quote, strip, startswith, split, remove_commas, index, filter}

-- What a run of a process leaves: its outputs when it fails, and the log file otherwise, by lines.
pub data Run : Type 0 where
  failed : String → String → Run
  finished : Option (List String) → Run

-- `tempfile.gettempdir()`, `os.path.join`, `str(n)`, `float(s)` where it does not raise, `str.isspace` of a character, and `subprocess.run`
-- with the file system, for a command and the path of the log.
pub record System (f : FloatOps) : Type 0 where
  pub gettempdir : String
  pub join : String → String → String
  pub str : ℕ → String
  pub float : String → Option f.Float
  pub is_space : Char → Bool
  pub run : List String → String → Run

module _ (f : FloatOps) (sys : System f) where
  open f use {Float}

  pub record NcuMetrics : Type 0 where
    pub kernel_name : String
    pub duration_ms : Float
    pub compute_sol_pct : Float
    pub memory_sol_pct : Float
    pub sm_occupancy_pct : Float
    pub dram_throughput_gbs : Float
    pub l1_cache_hit_rate : Float
    pub l2_cache_hit_rate : Float
    pub tensor_core_utilization : Float
    pub raw_metrics : Dict String Float

  pub record Profiler : Type 0 where
    pub ncu_path : String
    pub output_dir : String
    pub target_metrics : List String

  abbrev pub default_metrics : List String
  default_metrics =
      "gpu__time_duration.sum" ∷ "sm__throughput.avg.pct_of_peak_sustained_elapsed"
      ∷ "gpu__compute_memory_throughput.avg.pct_of_peak_sustained_elapsed"
      ∷ "sm__warps_active.avg.pct_of_peak_sustained_active" ∷ "dram__bytes.sum.per_second"
      ∷ "l1tex__t_sectors_pipe_lsu_mem_global_op_ld_lookup_hit_rate.pct"
      ∷ "lts__t_sectors_op_read_hit_rate.pct"
      ∷ "sm__inst_executed_pipe_tensor.avg.pct_of_peak_sustained_active" ∷ []

  -- `metrics or default`, where none are given as an empty list
  abbrev pub or_default : List String → List String
  or_default [] = default_metrics
  or_default (m ∷ ms) = m ∷ ms

  abbrev pub or_tempdir : String → String
  or_tempdir dir = if dir == "" then sys.gettempdir else dir

  -- `__init__`, with empty arguments for those that are not given
  abbrev pub new_profiler : String → String → List String → Profiler
  new_profiler ncu_path output_dir target_metrics = record {
    ncu_path = ncu_path;
    output_dir = or_tempdir output_dir;
    target_metrics = or_default target_metrics;
  }

  -- `",".join(xs)`
  abbrev pub join_commas : List String → String
  join_commas [] = ""
  join_commas (x ∷ []) = x
  join_commas (x ∷ y ∷ ys) = append x (append "," (join_commas (y ∷ ys)))

  abbrev pub output_csv : Profiler → String
  output_csv p = sys.join p.output_dir "ncu_profile_output.csv"

  abbrev pub zero_pct : Float
  zero_pct = f.lit (pos 0) 1

  abbrev pub get_or_zero : String → Dict String Float → Float
  get_or_zero name d = elim (lookup name d) [ none ↦ zero_pct | some v ↦ v ]

  -- One round of the loop over the reports.
  abbrev pub metrics_of : String → Dict String Float → NcuMetrics
  metrics_of k_name m_dict = record {
    kernel_name = k_name;
    duration_ms = f.div (get_or_zero "gpu__time_duration.sum" m_dict) (f.of_int (pos 1000000));
    compute_sol_pct = get_or_zero "sm__throughput.avg.pct_of_peak_sustained_elapsed" m_dict;
    memory_sol_pct =
        get_or_zero "gpu__compute_memory_throughput.avg.pct_of_peak_sustained_elapsed" m_dict;
    sm_occupancy_pct = get_or_zero "sm__warps_active.avg.pct_of_peak_sustained_active" m_dict;
    dram_throughput_gbs =
        f.div (get_or_zero "dram__bytes.sum.per_second" m_dict) (f.of_int (pos 1000000000));
    l1_cache_hit_rate =
        get_or_zero "l1tex__t_sectors_pipe_lsu_mem_global_op_ld_lookup_hit_rate.pct" m_dict;
    l2_cache_hit_rate = get_or_zero "lts__t_sectors_op_read_hit_rate.pct" m_dict;
    tensor_core_utilization =
        get_or_zero "sm__inst_executed_pipe_tensor.avg.pct_of_peak_sustained_active" m_dict;
    raw_metrics = m_dict;
  }

  abbrev pub Reports : Type 0
  Reports = Dict String (Dict String Float)

  abbrev pub or_none : Option (Dict String Float) → Dict String Float
  or_none none = []
  or_none (some d) = d

  abbrev pub or_empty : Option String → String
  or_empty none = ""
  or_empty (some s) = s

  -- `parsed_reports[k_name][m_name] = val`, for a name that has an entry or is given an empty one
  unfoldable pub record_value : String → String → Float → Reports → Reports
  record_value k_name m_name val parsed =
      insert k_name (insert m_name val (or_none (lookup k_name parsed))) parsed

  abbrev pub value_of : String → Float
  value_of raw = elim (sys.float (remove_commas raw)) [ none ↦ zero_pct | some v ↦ v ]

  -- One row of the table: the loop's body.
  unfoldable pub parse_row : ℕ → ℕ → ℕ → String → Reports → Reports
  unfolding record_value
  parse_row kernel_idx metric_idx value_idx row parsed =
      let parts = map (strip is_quote) (split row) in
      if leb (length parts) (max (max kernel_idx metric_idx) value_idx)
      then parsed
      else record_value (or_empty (get_elem? parts kernel_idx))
          (or_empty (get_elem? parts metric_idx)) (value_of (or_empty (get_elem? parts value_idx)))
          parsed

  abbrev pub parse_rows : ℕ → ℕ → ℕ → List String → Reports → Reports
  parse_rows k m v [] parsed = parsed
  parse_rows k m v (row ∷ rows) parsed = parse_rows k m v rows (parse_row k m v row parsed)

  abbrev pub is_empty : String → Bool
  is_empty s = s == ""

  -- The lines that are not blank and not the profiler's own, stripped.
  abbrev pub data_lines : List String → List String
  data_lines file =
      filter (λ l. not (startswith l "\"==PROF==\""))
        (filter (λ l. not (is_empty l)) (map (strip sys.is_space) file))

  -- From the headers on: `ValueError` for a missing one.
  unfoldable pub parse_body : List String → List String → List NcuMetrics
  unfolding parse_row
  parse_body headers rows = elim (index "Kernel Name" headers) [
    | none ↦ []
    | some k ↦ elim (index "Metric Name" headers) [
      | none ↦ []
      | some m ↦ elim (index "Metric Value" headers) [
        | none ↦ []
        | some v ↦ map (λ (name, d). metrics_of name d) (parse_rows k m v rows [])
      ]
    ]
  ]

  unfoldable pub parse_table : List String → List NcuMetrics
  unfolding parse_body
  parse_table [] = []
  parse_table (header ∷ []) = []
  parse_table (header ∷ row ∷ rows) = parse_body (map (strip is_quote) (split header)) (row ∷ rows)

  unfoldable pub parse_ncu_csv : Option (List String) → List NcuMetrics
  unfolding parse_table
  parse_ncu_csv none = []
  parse_ncu_csv (some file) = parse_table (data_lines file)

  abbrev pub command : Profiler → List String → Option String → ℕ → List String
  command p python_command kernel_regex max_kernels =
      (p.ncu_path
        ∷ "--csv"
        ∷ append "--log-file=" (output_csv p)
        ∷ append "--metrics=" (join_commas p.target_metrics)
        ∷ append "--launch-count=" (sys.str max_kernels)
        ∷ "--force-overwrite"
        ∷ [])
      ++ (elim kernel_regex [
        | none ↦ []
        | some regex ↦ if is_empty regex then [] else append "--kernel-name=" regex ∷ []
      ])
      ++ python_command

  -- `inl` is the message of the `RuntimeError`.
  unfoldable pub profile_python_cmd :
      Profiler → List String → Option String → ℕ → String ⊎ List NcuMetrics
  unfolding parse_ncu_csv
  profile_python_cmd p python_command kernel_regex max_kernels =
      elim (sys.run (command p python_command kernel_regex max_kernels) (output_csv p)) [
        | failed stdout stderr ↦ inl (
            append "Nsight Compute failed execution:\nSTDOUT: "
              (append stdout (append "\nSTDERR: " stderr)))
        | finished file ↦ inr (parse_ncu_csv file)
      ]
