-- ===== src/Benchmarks/Regression.antt =====
-- `RegressionRunner` of benchmarks/regression_runner.py. The benchmarks run on a device: their results
-- are arguments. The printed lines are left out.
use cudaforge.Prelude.{
  Bool, true, false, ◌&&◌, ◌≡◌, ◌↔◌, String, Option, none, some, Dict, lookup, string_eq,
  if◌then◌else◌, arith,
}
use cudaforge.Prelude.Int.{pos}
use cudaforge.Prelude.Float.{FloatOps}

infixl 5 ◌>>=◌
abbrev ◌>>=◌ : {A B : Type 0} → Option A → (A → Option B) → Option B
none >>= g = none
some a >>= g = g a

module _ (f : FloatOps) where
  open f use {Float}

  pub record RegressionRunner : Type 0 where
    pub threshold_pct : Float
    pub baselines : Dict String (Dict String Float)

  -- The baseline of a metric, if there is one.
  abbrev pub baseline : RegressionRunner → String → String → Option Float
  baseline self name metric_key = do metrics ← lookup name self.baselines; lookup metric_key metrics

  -- `none` is the `ZeroDivisionError` of a baseline that is zero.
  unfoldable pub verify_metric : RegressionRunner → String → String → Float → Bool → Option Bool
  verify_metric self name metric_key actual lower_is_better = elim (baseline self name metric_key) [
    | none ↦ some true
    | some target ↦
        let delta_pct = f.mul (f.div (f.sub actual target) target) (f.lit (pos 1000) 1) in
        if f.eqb target (f.lit (pos 0) 1)
        then none
        else some (
            if lower_is_better
            then f.leb delta_pct self.threshold_pct
            else f.leb (f.neg self.threshold_pct) delta_pct)
  ]

  -- One benchmark's part of `run_all`: its metric, whose absence is a `KeyError`, is verified.
  unfoldable pub check_metric :
      RegressionRunner → Dict String Float → String → String → Bool → Option Bool
  check_metric self results name metric_key lower_is_better = do
    actual ← lookup metric_key results
    verify_metric self name metric_key actual lower_is_better

  unfoldable pub run_all :
      RegressionRunner → Dict String Float → Dict String Float → Dict String Float → Option Bool
  run_all self flash_res paged_res cb_res = do
    pass_fa ← check_metric self flash_res "flash_attention_v2" "flash_attn_p50_ms" true
    pass_kv ← check_metric self paged_res "paged_kv_cache_manager" "alloc_latency_p50_us" true
    pass_cb ←
        check_metric self cb_res "continuous_batching_scheduler" "throughput_tokens_per_sec" false
    some ((pass_fa && pass_kv) && pass_cb)

  -- The metric was reported, and it has no baseline or stays within the threshold of one.
  abbrev pub holds : RegressionRunner → Dict String Float → String → String → Bool → Bool
  holds self results name metric_key lower_is_better = elim (lookup metric_key results) [
    | none ↦ false
    | some actual ↦ elim (baseline self name metric_key) [
      | none ↦ true
      | some target ↦
          let delta_pct = f.mul (f.div (f.sub actual target) target) (f.lit (pos 1000) 1) in
          if f.eqb target (f.lit (pos 0) 1)
          then false
          else if lower_is_better
          then f.leb delta_pct self.threshold_pct
          else f.leb (f.neg self.threshold_pct) delta_pct
    ]
  ]

  check_metric_iff :
      (self : RegressionRunner) (results : Dict String Float) (name metric_key : String)
      (lower : Bool)
      → (check_metric self results name metric_key lower ≡ some true)
        ↔ (holds self results name metric_key lower ≡ true)
  unfolding check_metric verify_metric
  check_metric_iff self results name metric_key lower = ground arith

  -- The suite passes exactly if each of the three metrics was reported and has no baseline or lies
  -- within the threshold of one that is not zero: two latencies from above, a throughput from below.
  pub run_all_passes_iff :
      (self : RegressionRunner) (flash_res paged_res cb_res : Dict String Float)
      → (run_all self flash_res paged_res cb_res ≡ some true) ↔ (
          (holds self flash_res "flash_attention_v2" "flash_attn_p50_ms" true ≡ true)
          × (holds self paged_res "paged_kv_cache_manager" "alloc_latency_p50_us" true ≡ true)
          × (holds self cb_res "continuous_batching_scheduler" "throughput_tokens_per_sec" false
              ≡ true))
  unfolding run_all
  run_all_passes_iff self flash_res paged_res cb_res =
      let a = check_metric_iff self flash_res "flash_attention_v2" "flash_attn_p50_ms" true in
      let b =
        check_metric_iff self paged_res "paged_kv_cache_manager" "alloc_latency_p50_us" true in
      let c =
        check_metric_iff self cb_res "continuous_batching_scheduler" "throughput_tokens_per_sec"
          false in
      ground (arith, a, b, c)
