-- ===== src/Benchmarks/Counts.antt =====
-- What the lists of requests of bench_continuous_batch.py add up to: prompts, work, and requests of a kind.
use cudaforge.Prelude.{
  ℕ, Bool, if◌then◌else◌, suc, ◌+◌, ◌≤◌, ◌≡◌, List, [], ◌∷◌, ◌++◌, length, arith,
}
use cudaforge.Benchmarks.Batcher.{Request, sum_prompts, decode}

pub sum_prompts-append :
    (xs ys : List Request) → sum_prompts (xs ++ ys) ≡ sum_prompts xs + sum_prompts ys
sum_prompts-append [] ys = omega arith
sum_prompts-append (x ∷ xs) ys = omega (arith, sum_prompts-append xs ys)

-- The rounds of decoding that are still needed, and one more for each request.
abbrev pub work : List Request → ℕ
work [] = 0
work (r ∷ rs) = suc (r.gen_len + work rs)

pub work-append : (xs ys : List Request) → work (xs ++ ys) ≡ work xs + work ys
work-append [] ys = omega arith
work-append (x ∷ xs) ys = omega (arith, work-append xs ys)

pub decode-le :
    (rs : List Request)
    → (length (decode rs).1 ≤ length rs) × (sum_prompts (decode rs).1 ≤ sum_prompts rs)
unfolding decode
decode-le [] = omega arith
decode-le (r ∷ rs) = ground (arith, decode-le rs)

pub work-decode : (rs : List Request) → work (decode rs).1 + length rs ≤ work rs
unfolding decode
work-decode [] = omega arith
work-decode (r ∷ rs) = ground (arith, work-decode rs)

-- How many requests have an identifier and a prompt's length that a test accepts; decoding changes
-- neither.
abbrev pub tally : (ℕ → ℕ → Bool) → List Request → ℕ
tally p [] = 0
tally p (r ∷ rs) = (if p r.id r.prompt_len then 1 else 0) + tally p rs

pub tally-append :
    (p : ℕ → ℕ → Bool) (xs ys : List Request) → tally p (xs ++ ys) ≡ tally p xs + tally p ys
tally-append p [] ys = omega arith
tally-append p (x ∷ xs) ys = omega (arith, tally-append p xs ys)

pub tally-decode :
    (p : ℕ → ℕ → Bool) (rs : List Request)
    → tally p (decode rs).0 + tally p (decode rs).1 ≡ tally p rs
unfolding decode
tally-decode p [] = omega arith
tally-decode p (r ∷ rs) = ground (arith, tally-decode p rs)
