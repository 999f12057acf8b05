-- ===== src/Eval/Latency/Profile.antt =====
-- `LatencyEvaluator`. `step_fn` changes a state of the program and the device and may raise, and
-- `elapsed` is the time between the two events that are recorded around a step.
use cudaforge.Prelude.{
  Bool, true, false, String, ℕ, zero, suc, ◌+◌, ◌-◌, ◌*◌, List, [], ◌∷◌, length, get_elem?, ltb,
  nat_beq, min, Option, none, some, if◌then◌else◌,
}
use cudaforge.Prelude.Int.{pos}
use cudaforge.Prelude.Float.{FloatOps}

infixl 5 ◌>>=◌
abbrev ◌>>=◌ : {A B : Type 0} → Option A → (A → Option B) → Option B
none >>= g = none
some a >>= g = g a

-- `statistics.mean`, `statistics.stdev`, `sorted`, `math.floor` and `math.ceil` of what is not negative.
pub record Statistics (f : FloatOps) : Type 0 where
  pub mean : List f.Float → f.Float
  pub stdev : List f.Float → f.Float
  pub sorted : List f.Float → List f.Float
  pub floor : f.Float → ℕ
  pub ceil : f.Float → ℕ

-- What a call returns, or the text of its exception.
pub data Ran (A : Type 0) : Type 0 where
  done : A → Ran A
  threw : String → Ran A

-- One call after another, up to the first exception; the second reads the state before it.
abbrev pub bind : {S A B : Type 0} → (S → Ran A × S) → (A → S → Ran B × S) → S → Ran B × S
bind m k s = let (r, s') = m s in elim r [ done a ↦ k a s' | threw e ↦ (threw e, s') ]

module _ (f : FloatOps) (st : Statistics f) where
  open f use {Float}

  abbrev zero_float : Float
  zero_float = f.lit (pos 0) 1

  abbrev thousand : Float
  thousand = f.lit (pos 10000) 1

  pub record LatencyProfileResult : Type 0 where
    pub ttft_ms : Float
    pub itl_mean_ms : Float
    pub itl_p50_ms : Float
    pub itl_p95_ms : Float
    pub itl_p99_ms : Float
    pub itl_std_ms : Float
    pub prefill_tps : Float
    pub generation_tps : Float
    pub total_latency_sec : Float
    pub num_generated_tokens : ℕ
    pub per_token_latencies_ms : List Float

  -- `none` is an `IndexError`.
  unfoldable pub percentile : List Float → Float → Option Float
  percentile [] p = some zero_float
  percentile (x ∷ xs) p =
      let sorted_data = x ∷ xs in
      let idx = f.mul (f.of_int (pos (length sorted_data - 1))) p in
      let floor_idx = st.floor idx in
      let ceil_idx = st.ceil idx in
      if nat_beq floor_idx ceil_idx then get_elem? sorted_data floor_idx else (do
        low ← get_elem? sorted_data floor_idx
        high ← get_elem? sorted_data ceil_idx
        let weight = f.sub idx (f.of_int (pos floor_idx))
        some (f.add (f.mul low (f.sub (f.lit (pos 10) 1) weight)) (f.mul high weight)))

  -- `sum`
  abbrev sum_from : Float → List Float → Float
  sum_from acc [] = acc
  sum_from acc (x ∷ xs) = sum_from (f.add acc x) xs

  -- The figures that follow from the times of the steps.
  unfoldable pub summarize : ℕ → ℕ → ℕ → Float → List Float → Option LatencyProfileResult
  unfolding percentile
  summarize batch_size prompt_len gen_len ttft_ms token_latencies = do
    let sorted_itl = st.sorted token_latencies
    itl_p50 ← percentile sorted_itl (f.lit (pos 50) 2)
    itl_p95 ← percentile sorted_itl (f.lit (pos 95) 2)
    itl_p99 ← percentile sorted_itl (f.lit (pos 99) 2)
    let total_gen_time_ms = sum_from (f.of_int (pos 0)) token_latencies
    some (record {
      ttft_ms = ttft_ms;
      itl_mean_ms = st.mean token_latencies;
      itl_p50_ms = itl_p50;
      itl_p95_ms = itl_p95;
      itl_p99_ms = itl_p99;
      itl_std_ms = if ltb 1 (length token_latencies) then st.stdev token_latencies else zero_float;
      prefill_tps =
          if f.ltb (f.of_int (pos 0)) ttft_ms
          then f.div (f.of_int (pos (batch_size * prompt_len))) (f.div ttft_ms thousand)
          else zero_float;
      generation_tps =
          if f.ltb (f.of_int (pos 0)) total_gen_time_ms
          then f.div (f.of_int (pos (batch_size * length token_latencies)))
              (f.div total_gen_time_ms thousand)
          else zero_float;
      total_latency_sec = f.div (f.add ttft_ms total_gen_time_ms) thousand;
      num_generated_tokens = gen_len;
      per_token_latencies_ms = token_latencies;
    })

  abbrev pub completed : Option LatencyProfileResult → Ran LatencyProfileResult
  completed none = threw "list index out of range"
  completed (some r) = done r

  module _ {S : Type 0} (step_fn : ℕ → S → Ran (Unit {0}) × S) (elapsed : S → S → Float) where
    -- `for step in range(step, step + n)`, without clocks.
    unfoldable pub warm : ℕ → ℕ → S → Ran (Unit {0}) × S
    warm zero step s = (done tt, s)
    warm (suc n) step s = bind (step_fn step) (λ u. warm n (step + 1)) s

    unfoldable pub warm_all : ℕ → ℕ → S → Ran (Unit {0}) × S
    unfolding warm
    warm_all zero gen_len s = (done tt, s)
    warm_all (suc n) gen_len s = bind (warm (min gen_len 4) 0) (λ u. warm_all n gen_len) s

    -- The loop of the inter-token latencies.
    unfoldable pub measure : ℕ → ℕ → S → Ran (List Float) × S
    measure zero step s = (done [], s)
    measure (suc n) step s =
        bind (step_fn step)
          (λ u s'. bind (measure n (step + 1)) (λ rest s''. (done (elapsed s s' ∷ rest), s'')) s') s

    unfoldable pub or_ttft : Float → List Float → List Float
    or_ttft ttft_ms [] = ttft_ms ∷ []
    or_ttft ttft_ms (x ∷ xs) = x ∷ xs

    -- The steps, behind the assertion; `s0` is the state at the first event.
    unfoldable pub timed_loop : ℕ → ℕ → ℕ → ℕ → S → Ran LatencyProfileResult × S
    unfolding warm_all measure or_ttft summarize
    timed_loop warmup_runs prompt_len gen_len batch_size s =
        bind (warm_all warmup_runs gen_len)
          (λ u s0.
            bind (step_fn 0)
              (λ v s1.
                bind (measure (gen_len - 1) 1)
                  (λ times s2. (
                    completed (
                        summarize batch_size prompt_len gen_len (elapsed s0 s1)
                          (or_ttft (elapsed s0 s1) times)),
                    s2,
                  ))
                  s1)
              s0)
          s

    -- The first argument is `torch.cuda.is_available()`.
    unfoldable pub profile_generation_loop : Bool → ℕ → ℕ → ℕ → ℕ → S → Ran LatencyProfileResult × S
    unfolding timed_loop
    profile_generation_loop false warmup_runs prompt_len gen_len batch_size s =
        (threw "CUDA device required for LatencyEvaluator.", s)
    profile_generation_loop true warmup_runs prompt_len gen_len batch_size s =
        timed_loop warmup_runs prompt_len gen_len batch_size s
