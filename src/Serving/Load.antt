-- ===== src/Serving/Load.antt =====
-- Any interleaving of requests under the backpressure middleware.
use cudaforge.Prelude.{ℕ, ◌+◌, ◌-◌, ◌≤◌, ◌<◌, ◌≡◌, ◌↔◌, false, String, arith}
use cudaforge.Serving.Backpressure.{
  mem, Limits, middleware_limits, backpressure_middleware, Verdict, exempt, shed, counted, arrive,
  finish,
}

-- The counter of the middleware, and how many counted requests are between arrival and `finally`.
pub record Server : Type 0 where
  pub active : ℕ
  pub in_progress : ℕ

abbrev pub counts : Verdict → ℕ
counts exempt = 0
counts shed = 0
counts counted = 1

pub data Step (l : Limits) : Server → Server → Type 0 where
  arrival :
      (path : String) (s : Server)
      → Step l s (record {
        active = (arrive l path s.active).1;
        in_progress = s.in_progress + counts (arrive l path s.active).0;
      })
  departure :
      (s : Server)
      → 0 < s.in_progress
      → Step l s (record { active = finish s.active; in_progress = s.in_progress - 1 })

pub data Reach (l : Limits) : Server → Type 0 where
  start : Reach l (record { active = 0; in_progress = 0 })
  later : {s t : Server} → Reach l s → Step l s t → Reach l t

pub record IsBounded (l : Limits) (s : Server) : Type 0 where
  pub exact : s.active ≡ s.in_progress
  pub bounded : s.in_progress ≤ l.max_concurrent + l.max_queue

Step-IsBounded : {l : Limits} {s t : Server} → Step l s t → IsBounded l s → IsBounded l t
unfolding arrive finish
Step-IsBounded (arrival path s) h = ground arith
Step-IsBounded (departure s some_) h = omega arith

-- In every interleaving of arrivals and departures the counter is the number of counted requests in
-- progress, and that number stays within the two limits together.
pub Reach-IsBounded : {l : Limits} {s : Server} → Reach l s → IsBounded l s
Reach-IsBounded start = omega arith
Reach-IsBounded (later r st) = Step-IsBounded st (Reach-IsBounded r)

-- At any time of any interleaving a request is shed exactly if its path is not exempt and as many
-- counted requests as the two limits allow are in progress.
pub shed_iff_full :
    {l : Limits} {s : Server} (path : String)
    → Reach l s
    → ((arrive l path s.active).0 ≡ shed)
      ↔ ((mem path l.exempt_paths ≡ false) × (s.in_progress ≡ l.max_concurrent + l.max_queue))
unfolding arrive
shed_iff_full path r = let h = Reach-IsBounded r in ground arith

-- With its default limits, the middleware class decides on every request as the function of the
-- application does, and leaves the counter alike.
pub arrive_agree :
    (path : String) (active : ℕ)
    → arrive middleware_limits path active ≡ backpressure_middleware path active
unfolding arrive backpressure_middleware
arrive_agree path active = ground arith
