-- ===== src/Eval/Latency/Schedule.antt =====
-- Which steps a profile runs, and which of them it times.
use cudaforge.Prelude.{
  true, ap, ℕ, ◌+◌, ◌-◌, ◌≡◌, ◌<◌, ◌∙◌, refl, List, [], ◌∷◌, length, get_elem?, min, max, some,
  arith, Bool-cases, Option-cases, inl, inr, ◌≤◌, nat_beq, get_of_lt,
}
use cudaforge.Prelude.Int.{pos}
use cudaforge.Prelude.Float.{FloatOps}
use cudaforge.Eval.Latency.Profile.{
  Ran, done, bind, completed, Statistics, LatencyProfileResult, percentile, summarize, warm_all,
  measure, or_ttft, timed_loop, profile_generation_loop,
}
use cudaforge.Eval.Latency.Steps.{
  bind_done, warm_all-eq-run, measure-eq-run, length-times, times_at, or_ttft_lem, ran, times,
  range, repeat, run, next, IsQuiet,
}

-- `sorted` keeps the number of entries, and the place of a percentile is a place of the list.
pub record StatisticsLaws (f : FloatOps) (st : Statistics f) : Type 0 where
  pub length-sorted : (xs : List f.Float) → length (st.sorted xs) ≡ length xs
  pub place :
      (n m : ℕ)
      → m < 100
      → (st.floor (f.mul (f.of_int (pos n)) (f.lit (pos m) 2)) ≤ n)
        × (st.ceil (f.mul (f.of_int (pos n)) (f.lit (pos m) 2)) ≤ n)

module _ (f : FloatOps) (st : Statistics f) (laws : StatisticsLaws f st) where
  percentile_total :
      (xs : List f.Float) (m : ℕ)
      → m < 100
      → (v : f.Float) × (percentile f st xs (f.lit (pos m) 2) ≡ some v)
  unfolding percentile
  percentile_total [] m lt = (_, refl)
  percentile_total (x ∷ xs) m lt =
      let n = length (x ∷ xs) - 1 in
      let (low, high) = laws.place n m lt in
      let idx = f.mul (f.of_int (pos n)) (f.lit (pos m) 2) in
      let (a, ea) = get_of_lt (x ∷ xs) (st.floor idx) (omega arith) in
      let (b, eb) = get_of_lt (x ∷ xs) (st.ceil idx) (omega arith) in
      elim (Bool-cases (nat_beq (st.floor idx) (st.ceil idx))) [
        | inl same ↦ (a, rw (same, ea) refl)
        | inr other ↦
            let weight = f.sub idx (f.of_int (pos (st.floor idx))) in
            (
              f.add (f.mul a (f.sub (f.lit (pos 10) 1) weight)) (f.mul b weight),
              rw (other, ea, eb) refl,
            )
      ]

  summarize_total :
      (batch_size prompt_len gen_len : ℕ) (ttft : f.Float) (times : List f.Float)
      → (r : LatencyProfileResult f st) × (summarize f st batch_size prompt_len gen_len ttft times
          ≡ some r)
        × (r.ttft_ms ≡ ttft)
        × (r.per_token_latencies_ms ≡ times)
  unfolding summarize
  summarize_total batch_size prompt_len gen_len ttft times =
      let (a, ea) = percentile_total (st.sorted times) 50 (omega arith) in
      let (b, eb) = percentile_total (st.sorted times) 95 (omega arith) in
      let (c, ec) = percentile_total (st.sorted times) 99 (omega arith) in
      elim (Option-cases (summarize f st batch_size prompt_len gen_len ttft times)) [
        | inl e ↦ absurd (ground (arith, ea, eb, ec, e))
        | inr (r, e) ↦ (r, e, ground (arith, ea, eb, ec, e), ground (arith, ea, eb, ec, e))
      ]

  -- With a CUDA device and steps that do not raise, and with the statistics library's laws, a profile
  -- returns. It runs the first four steps at most in every warm-up round, then step 0, then the steps
  -- from 1 up to the last, and no other; the time to the first token is that of step 0, and the list of
  -- latencies has the time of each later step in its place, or the time of step 0 alone if there is
  -- none.
  pub profile_generation_loop_schedule :
      {S : Type 0} (step_fn : ℕ → S → Ran (Unit {0}) × S) (elapsed : S → S → f.Float)
      (warmup_runs prompt_len gen_len batch_size : ℕ) (s : S)
      → IsQuiet step_fn
      → let s0 = run (next step_fn) (repeat warmup_runs (range 0 (min gen_len 4))) s in
        let s1 = next step_fn 0 s0 in
        (r : LatencyProfileResult f st) × (profile_generation_loop f st step_fn elapsed true
            warmup_runs prompt_len gen_len batch_size s
          ≡ (done r, run (next step_fn) (range 1 (gen_len - 1)) s1))
        × (r.ttft_ms ≡ elapsed s0 s1)
        × (length r.per_token_latencies_ms ≡ max 1 (gen_len - 1))
        × ((i : ℕ)
            → i < gen_len - 1
            → let before = run (next step_fn) (range 1 i) s1 in
              get_elem? r.per_token_latencies_ms i
              ≡ some (elapsed before (next step_fn (1 + i) before)))
        × (gen_len ≤ 1 → r.per_token_latencies_ms ≡ elapsed s0 s1 ∷ [])
  unfolding profile_generation_loop timed_loop
  profile_generation_loop_schedule {S = S} step_fn elapsed warmup_runs prompt_len gen_len batch_size
        s quiet =
      let s0 = run (next step_fn) (repeat warmup_runs (range 0 (min gen_len 4))) s in
      let s1 = next step_fn 0 s0 in
      let later = times f st step_fn elapsed quiet (gen_len - 1) 1 s1 in
      let ttft = elapsed s0 s1 in
      let kept = or_ttft f st step_fn elapsed ttft later in
      let len = length-times f st step_fn elapsed quiet (gen_len - 1) 1 s1 in
      let (many, kept_at, alone) = or_ttft_lem f st step_fn elapsed quiet ttft later in
      let loop = measure f st step_fn elapsed (gen_len - 1) 1 in
      let finish = λ (a b : S) (times : List f.Float) (s2 : S).
        let all : Ran (LatencyProfileResult f st) × S = (
          completed f st (
              summarize f st batch_size prompt_len gen_len (elapsed a b)
                (or_ttft f st step_fn elapsed (elapsed a b) times)),
          s2,
        ) in
        all in
      let (r, e, first, rest) = summarize_total batch_size prompt_len gen_len ttft kept in
      (
        r,
        bind_done (warm_all f st step_fn elapsed warmup_runs gen_len)
              (λ u s0. bind (step_fn 0) (λ v s1. bind loop (finish s0 s1) s1) s0)
              (warm_all-eq-run f st step_fn elapsed quiet warmup_runs gen_len s)
            ∙ bind_done (step_fn 0) (λ v s1. bind loop (finish s0 s1) s1)
                (ran f st step_fn elapsed quiet 0 s0)
            ∙ bind_done loop (finish s0 s1)
                (measure-eq-run f st step_fn elapsed quiet (gen_len - 1) 1 s1)
            ∙ ap (λ x. (completed f st x, run (next step_fn) (range 1 (gen_len - 1)) s1)) e,
        first,
        rw rest (omega (arith, many, len)),
        λ i lt. rw rest (
            kept_at i (omega (arith, len))
            ∙ times_at f st step_fn elapsed quiet (gen_len - 1) 1 i s1 lt),
        λ le. rw rest (alone (omega (arith, len))),
      )
