-- ===== src/Eval/Latency/Steps.antt =====
-- The steps that the loops of latency_eval.py run, and their times, when no step raises.
use cudaforge.Prelude.{
  ap, ℕ, zero, suc, ◌+◌, ◌≡◌, ◌<◌, ◌∙◌, refl, List, [], ◌∷◌, ◌++◌, length, get_elem?, min, max,
  some, arith,
}
use cudaforge.Prelude.Float.{FloatOps}
use cudaforge.Eval.Latency.Profile.{
  Ran, done, threw, bind, Statistics, warm, warm_all, measure, or_ttft,
}

-- `range(step, step + n)`
abbrev pub range : ℕ → ℕ → List ℕ
range step zero = []
range step (suc n) = step ∷ range (step + 1) n

abbrev pub repeat : ℕ → List ℕ → List ℕ
repeat zero xs = []
repeat (suc n) xs = xs ++ repeat n xs

module _ {S : Type 0} (step_fn : ℕ → S → S) where
  abbrev pub run : List ℕ → S → S
  run [] s = s
  run (step ∷ steps) s = run steps (step_fn step s)

  run-++ : (xs ys : List ℕ) (s : S) → run (xs ++ ys) s ≡ run ys (run xs s)
  run-++ [] ys s = refl
  run-++ (x ∷ xs) ys s = run-++ xs ys (step_fn x s)

pub bind_done :
    {S A B : Type 0} (m : S → Ran A × S) (k : A → S → Ran B × S) {s s' : S} {a : A}
    → m s ≡ (done a, s')
    → bind m k s ≡ k a s'
bind_done {S = S} {A = A} m k e =
    ap (λ (p : Ran A × S). elim p.0 [ done a ↦ k a p.1 | threw m ↦ (threw m, p.1) ]) e

-- The states that the steps go through.
abbrev pub next : {S : Type 0} → (ℕ → S → Ran (Unit {0}) × S) → ℕ → S → S
next step_fn step s = (step_fn step s).1

-- No step raises.
abbrev pub IsQuiet : {S : Type 0} → (ℕ → S → Ran (Unit {0}) × S) → Type 0
IsQuiet {S = S} step_fn = (step : ℕ) (s : S) → (step_fn step s).0 ≡ done tt

module _ (f : FloatOps) (st : Statistics f) {S : Type 0} (step_fn : ℕ → S → Ran (Unit {0}) × S)
    (elapsed : S → S → f.Float) (quiet : IsQuiet step_fn) where
  pub ran : (step : ℕ) (s : S) → step_fn step s ≡ (done tt, next step_fn step s)
  ran step s = ap (λ x. (x, next step_fn step s)) (quiet step s)

  warm-eq-run :
      (n step : ℕ) (s : S)
      → warm f st step_fn elapsed n step s ≡ (done tt, run (next step_fn) (range step n) s)
  unfolding warm
  warm-eq-run zero step s = refl
  warm-eq-run (suc n) step s =
      bind_done (step_fn step) (λ u. warm f st step_fn elapsed n (step + 1)) (ran step s)
      ∙ warm-eq-run n (step + 1) (next step_fn step s)

  pub warm_all-eq-run :
      (n gen_len : ℕ) (s : S)
      → warm_all f st step_fn elapsed n gen_len s
        ≡ (done tt, run (next step_fn) (repeat n (range 0 (min gen_len 4))) s)
  unfolding warm_all
  warm_all-eq-run zero gen_len s = refl
  warm_all-eq-run (suc n) gen_len s =
      let steps = range 0 (min gen_len 4) in
      rw (run-++ (next step_fn) steps (repeat n steps) s) (
        bind_done (warm f st step_fn elapsed (min gen_len 4) 0)
          (λ u. warm_all f st step_fn elapsed n gen_len) (warm-eq-run (min gen_len 4) 0 s)
        ∙ warm_all-eq-run n gen_len (run (next step_fn) steps s))

  -- The times of the steps from `step` on.
  abbrev pub times : ℕ → ℕ → S → List f.Float
  times zero step s = []
  times (suc n) step s = let s' = next step_fn step s in elapsed s s' ∷ times n (step + 1) s'

  pub measure-eq-run :
      (n step : ℕ) (s : S)
      → measure f st step_fn elapsed n step s
        ≡ (done (times n step s), run (next step_fn) (range step n) s)
  unfolding measure
  measure-eq-run zero step s = refl
  measure-eq-run (suc n) step s =
      let later = measure f st step_fn elapsed n (step + 1) in
      let cons = λ (s' : S) (rest : List f.Float) (s'' : S).
        let all : Ran (List f.Float) × S = (done (elapsed s s' ∷ rest), s'') in all in
      bind_done (step_fn step) (λ u s'. bind later (cons s') s') (ran step s)
      ∙ bind_done later (cons (next step_fn step s))
          (measure-eq-run n (step + 1) (next step_fn step s))

  pub length-times : (n step : ℕ) (s : S) → length (times n step s) ≡ n
  length-times zero step s = refl
  length-times (suc n) step s =
      let e = length-times n (step + 1) (next step_fn step s) in omega (arith, e)

  pub times_at :
      (n step i : ℕ) (s : S)
      → i < n
      → let before = run (next step_fn) (range step i) s in
        get_elem? (times n step s) i ≡ some (elapsed before (next step_fn (step + i) before))
  times_at zero step i s lt = absurd (omega arith)
  times_at (suc n) step zero s lt = let e : step + 0 ≡ step = omega arith in rw e refl
  times_at (suc n) step (suc i) s lt =
      let e : step + suc i ≡ (step + 1) + i = omega arith in
      rw e (times_at n (step + 1) i (next step_fn step s) (omega arith))

  pub or_ttft_lem :
      (ttft : f.Float) (times : List f.Float)
      → (length (or_ttft f st step_fn elapsed ttft times) ≡ max 1 (length times))
        × ((i : ℕ)
            → i < length times
            → get_elem? (or_ttft f st step_fn elapsed ttft times) i ≡ get_elem? times i)
        × (length times ≡ 0 → or_ttft f st step_fn elapsed ttft times ≡ ttft ∷ [])
  unfolding or_ttft
  or_ttft_lem ttft [] = (refl, λ i lt. absurd (omega arith), λ e. refl)
  or_ttft_lem ttft (x ∷ xs) = (omega arith, λ i lt. refl, λ e. absurd (omega arith))
