-- ===== src/Eval/Analyzer.antt =====
-- `StatisticalAnalyzer` of eval_platform/statistics/analyzer.py, over numpy's reductions.
use cudaforge.Prelude.{
  ℕ, zero, suc, Bool, ◌||◌, List, [], ◌∷◌, map, length, ltb, nat_beq, Option, none, some,
  if◌then◌else◌,
}
use cudaforge.Prelude.Int.{pos}
use cudaforge.Prelude.Float.{FloatOps}

-- `np.isnan`, `mean`, `std` and `var` with one degree of freedom, `percentile`, `median`, `abs`, and a
-- generator of random numbers with `choice` of so many entries with replacement.
pub record Numpy (f : FloatOps) : Type 1 where
  pub is_nan : f.Float → Bool
  pub mean : List f.Float → f.Float
  pub std : List f.Float → f.Float
  pub var : List f.Float → f.Float
  pub percentile : List f.Float → f.Float → f.Float
  pub median : List f.Float → f.Float
  pub abs : f.Float → f.Float
  pub Rng : Type 0
  pub default_rng : ℕ → Rng
  pub choice : Rng → List f.Float → ℕ → List f.Float × Rng

module _ (f : FloatOps) (np : Numpy f) where
  open f use {Float}

  pub record ConfidenceInterval : Type 0 where
    pub lower : Float
    pub upper : Float
    pub confidence_level : Float

  pub record LatencyDistributionSummary : Type 0 where
    pub count : ℕ
    pub mean : Float
    pub std_dev : Float
    pub variance : Float
    pub median_p50 : Float
    pub p90 : Float
    pub p95 : Float
    pub p99 : Float
    pub p99_9 : Float
    pub iqr : Float
    pub mad : Float
    pub mean_ci : ConfidenceInterval
    pub p95_ci : ConfidenceInterval
    pub p99_ci : ConfidenceInterval

  abbrev pub percent : ℕ → ℕ → Float
  percent m d = f.lit (pos m) d

  -- `data[~np.isnan(data)]`
  abbrev pub without_nans : List Float → List Float
  without_nans [] = []
  without_nans (x ∷ xs) = let rest = without_nans xs in if np.is_nan x then rest else x ∷ rest

  -- The loop over the resamples.
  unfoldable pub bootstrap_stats : (List Float → Float) → List Float → ℕ → np.Rng → List Float
  bootstrap_stats stat_fn values zero rng = []
  bootstrap_stats stat_fn values (suc n) rng =
      let (resample, rng') = np.choice rng values (length values) in
      stat_fn resample ∷ bootstrap_stats stat_fn values n rng'

  abbrev pub alpha : Float → Float
  alpha confidence_level = f.div (f.sub (percent 10 1) confidence_level) (percent 20 1)

  abbrev pub lower_pct : Float → Float
  lower_pct confidence_level = f.mul (alpha confidence_level) (percent 1000 1)

  abbrev pub upper_pct : Float → Float
  upper_pct confidence_level =
      f.mul (f.sub (percent 10 1) (alpha confidence_level)) (percent 1000 1)

  unfoldable pub bootstrap_ci :
      List Float → (List Float → Float) → ℕ → Float → ℕ → ConfidenceInterval
  unfolding bootstrap_stats
  bootstrap_ci values stat_fn num_bootstrap confidence_level seed =
      if ltb (length values) 2 || nat_beq num_bootstrap 0
      then record {
        lower = stat_fn values;
        upper = stat_fn values;
        confidence_level = confidence_level;
      }
      else (let stats = bootstrap_stats stat_fn values num_bootstrap (np.default_rng seed) in
          record {
            lower = np.percentile stats (lower_pct confidence_level);
            upper = np.percentile stats (upper_pct confidence_level);
            confidence_level = confidence_level;
          })

  -- The summary of data that are not empty.
  unfoldable pub summary_of : List Float → ℕ → Float → ℕ → LatencyDistributionSummary
  unfolding bootstrap_ci
  summary_of values num_bootstrap_samples confidence_level random_seed =
      let count = length values in
      let p50 = np.percentile values (percent 500 1) in
      let ci = λ (stat_fn : List Float → Float).
        bootstrap_ci values stat_fn num_bootstrap_samples confidence_level random_seed in
      record {
        count = count;
        mean = np.mean values;
        std_dev = if ltb 1 count then np.std values else percent 0 1;
        variance = if ltb 1 count then np.var values else percent 0 1;
        median_p50 = p50;
        p90 = np.percentile values (percent 900 1);
        p95 = np.percentile values (percent 950 1);
        p99 = np.percentile values (percent 990 1);
        p99_9 = np.percentile values (percent 999 1);
        iqr = f.sub (np.percentile values (percent 750 1)) (np.percentile values (percent 250 1));
        mad = np.median (map (λ x. np.abs (f.sub x p50)) values);
        mean_ci = ci np.mean;
        p95_ci = ci (λ x. np.percentile x (percent 950 1));
        p99_ci = ci (λ x. np.percentile x (percent 990 1));
      }

  -- `none` is the `ValueError`.
  unfoldable pub compute_distribution :
      List Float → ℕ → Float → ℕ → Option LatencyDistributionSummary
  unfolding summary_of
  compute_distribution samples num_bootstrap_samples confidence_level random_seed =
      let values = without_nans samples in
      if nat_beq (length values) 0
      then none
      else some (summary_of values num_bootstrap_samples confidence_level random_seed)
