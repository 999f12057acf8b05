-- ===== src/Benchmarks/Admission.antt =====
-- What the simulated scheduler keeps: the limits of a batch, the order of the queue, every request;
-- and when it comes to an end.
use cudaforge.Prelude.{
  ℕ, Bool, zero, suc, ◌+◌, ◌≤◌, ◌<◌, ◌≡◌, refl, ap, ◌∙◌, true, false, ◌&&◌, List, [], ◌∷◌, ◌++◌,
  length, length-append, ltb, leb, none, some, Bool-cases, inl, inr, arith,
}
use mathlib.Core.List.{append-nil, append_assoc}
use cudaforge.Benchmarks.Batcher.{
  Request, sum_prompts, Simulation, is_over, admit, decode, round, simulate,
}
use cudaforge.Benchmarks.Counts.{
  sum_prompts-append, work-append, work-decode, tally-append, tally-decode, work, tally,
}

module _ (max_batch_size max_token_budget : ℕ) where
  -- A batch within both limits.
  pub record IsWithin (running : List Request) : Type 0 where
    pub seats : length running ≤ max_batch_size
    pub budget : sum_prompts running ≤ max_token_budget

  abbrev pub admitted : List Request → List Request → List Request × List Request
  admitted waiting running =
      admit max_batch_size max_token_budget waiting running (sum_prompts running)

  admit_queue :
      (waiting running : List Request) (tokens : ℕ)
      → let (w, r) = admit max_batch_size max_token_budget waiting running tokens in
        (r ++ w ≡ running ++ waiting) × (length running ≤ length r)
  unfolding admit
  admit_queue [] running tokens = (refl, omega arith)
  admit_queue (r ∷ waiting) running tokens =
      let next = admit_queue waiting (running ++ r ∷ []) (tokens + r.prompt_len) in
      elim (Bool-cases
        (ltb (length running) max_batch_size && leb (tokens + r.prompt_len) max_token_budget)) [
          | inl fits ↦ rw fits (
            next.0 ∙ append_assoc running (r ∷ []) waiting,
            omega (arith, next.1, length-append {0} running (r ∷ [])),
          )
          | inr full ↦ rw full (refl, omega arith)
        ]

  admit-IsWithin :
      (waiting running : List Request) (tokens : ℕ)
      → tokens ≡ sum_prompts running
      → IsWithin running
      → IsWithin (admit max_batch_size max_token_budget waiting running tokens).1
  unfolding admit
  admit-IsWithin [] running tokens e h = h
  admit-IsWithin (r ∷ waiting) running tokens e h = ground (
    arith,
    admit-IsWithin waiting (running ++ r ∷ []) (tokens + r.prompt_len),
    sum_prompts-append running (r ∷ []),
    length-append running (r ∷ []),
  )

  -- Admission keeps both limits, and takes requests from the front of the queue to the end of the
  -- batch: read one after the other, batch and queue are the same before and after.
  pub admit_fifo :
      (waiting running : List Request)
      → IsWithin running
      → IsWithin (admitted waiting running).1
        × ((admitted waiting running).1 ++ (admitted waiting running).0 ≡ running ++ waiting)
  admit_fifo waiting running h = (
    admit-IsWithin waiting running (sum_prompts running) refl h,
    (admit_queue waiting running (sum_prompts running)).0,
  )

  -- Some request can be admitted to an empty batch, whichever stands first.
  abbrev pub AllFit : List Request → Type 0
  AllFit [] = Unit
  AllFit (r ∷ rs) = (r.prompt_len ≤ max_token_budget) × AllFit rs

  AllFit-split : (xs ys : List Request) → AllFit (xs ++ ys) → AllFit xs × AllFit ys
  AllFit-split [] ys h = (tt, h)
  AllFit-split (x ∷ xs) ys h = let (p, q) = AllFit-split xs ys h.1 in ((h.0, p), q)

  AllFit-append : (xs ys : List Request) → AllFit xs → AllFit ys → AllFit (xs ++ ys)
  AllFit-append [] ys p q = q
  AllFit-append (x ∷ xs) ys p q = (p.0, AllFit-append xs ys p.1 q)

  decode-AllFit : (rs : List Request) → AllFit rs → AllFit (decode rs).1
  unfolding decode
  decode-AllFit [] h = tt
  decode-AllFit (r ∷ rs) h = ground (arith, decode-AllFit rs h.1)

  admitted_nonempty :
      (waiting running : List Request)
      → 0 < max_batch_size
      → AllFit waiting
      → 0 < length running + length waiting
      → 0 < length (admitted waiting running).1
  unfolding admit
  admitted_nonempty [] running seats fit some_ = omega arith
  admitted_nonempty (r ∷ waiting) (x ∷ running) seats fit some_ =
      let h = (admit_queue (r ∷ waiting) (x ∷ running) (sum_prompts (x ∷ running))).1 in omega arith
  admitted_nonempty (r ∷ waiting) [] seats fit some_ =
      let h = (admit_queue waiting (r ∷ []) (0 + r.prompt_len)).1 in ground arith

  abbrev pub total_work : Simulation → ℕ
  total_work s = work s.running_batch + work s.waiting_queue

  -- The requests of all three lists that a test accepts.
  abbrev pub present : (ℕ → ℕ → Bool) → Simulation → ℕ
  present p s = tally p s.completed_requests + tally p s.running_batch + tally p s.waiting_queue

  abbrev step : Simulation → Simulation
  step = round max_batch_size max_token_budget

  abbrev lengths : (xs ys : List Request) → ℕ
  lengths xs ys = length xs + length ys

  not_over : (s : Simulation) → is_over s ≡ false → 0 < lengths s.running_batch s.waiting_queue
  unfolding is_over
  not_over s h = ground arith

  over_empty : (s : Simulation) → is_over s ≡ true → (s.waiting_queue ≡ []) × (s.running_batch ≡ [])
  unfolding is_over
  over_empty s h = ground arith

  -- A round that is not the last takes some work off, and neither loses nor invents a request.
  round_progress :
      (s : Simulation)
      → 0 < max_batch_size
      → AllFit (s.running_batch ++ s.waiting_queue)
      → is_over s ≡ false
      → (total_work (step s) < total_work s)
        × ((p : ℕ → ℕ → Bool) → present p (step s) ≡ present p s)
        × AllFit ((step s).running_batch ++ (step s).waiting_queue)
  unfolding round
  round_progress s seats fit more =
      let (w, r) = admitted s.waiting_queue s.running_batch in
      let same = (admit_queue s.waiting_queue s.running_batch (sum_prompts s.running_batch)).0 in
      let parts = AllFit-split s.running_batch s.waiting_queue fit in
      let busy =
        admitted_nonempty s.waiting_queue s.running_batch seats parts.1 (not_over s more) in
      let kept = AllFit-split r w (rw same fit) in
      (
        omega (
          arith,
          work-decode r,
          ap work same,
          work-append r w,
          work-append s.running_batch s.waiting_queue,
        ),
        λ p. omega (
          arith,
          tally-decode p r,
          ap (tally p) same,
          tally-append p r w,
          tally-append p s.running_batch s.waiting_queue,
          tally-append p s.completed_requests (decode r).0,
        ),
        AllFit-append (decode r).1 w (decode-AllFit r kept.0) kept.1,
      )

  -- With room for one request, and every prompt within the token budget, the simulation ends within
  -- as many rounds as there is work. Then no request waits or runs, and the completed ones are those of
  -- all three lists before, each as often as it was there: for every test of an identifier and a
  -- prompt's length, as many of them pass it.
  pub simulate_completes :
      (fuel : ℕ) (s : Simulation)
      → 0 < max_batch_size
      → AllFit (s.running_batch ++ s.waiting_queue)
      → total_work s < fuel
      → (t : Simulation) × (simulate max_batch_size max_token_budget fuel s ≡ some t)
        × (t.waiting_queue ≡ [])
        × (t.running_batch ≡ [])
        × ((p : ℕ → ℕ → Bool) → tally p t.completed_requests ≡ present p s)
  unfolding simulate
  simulate_completes zero s seats fit enough = elim enough [ ]
  simulate_completes (suc fuel) s seats fit enough = elim (Bool-cases (is_over s)) [
    | inl over ↦
        let empty = over_empty s over in
        (
          s,
          rw over,
          empty.0,
          empty.1,
          λ p. omega (arith, ap (tally p) empty.0, ap (tally p) empty.1),
        )
    | inr more ↦
        let (less, same, fit') = round_progress s seats fit more in
        let (t, eq, w, r, all) = simulate_completes fuel (step s) seats fit' (omega arith) in
        (t, rw more eq, w, r, λ p. all p ∙ same p)
  ]

  -- If the batch is empty and the prompt at the front of the queue exceeds the token budget, the
  -- simulation never ends, whatever else waits.
  pub simulate_stuck :
      (fuel : ℕ) (r : Request) (waiting completed : List Request)
      → max_token_budget < r.prompt_len
      → simulate max_batch_size max_token_budget fuel (record {
        waiting_queue = r ∷ waiting;
        running_batch = [];
        completed_requests = completed;
      })
        ≡ none
  unfolding simulate admit decode
  simulate_stuck zero r waiting completed big = refl
  simulate_stuck (suc fuel) r waiting completed big =
      ground (arith, append-nil completed, simulate_stuck fuel r waiting completed big)
