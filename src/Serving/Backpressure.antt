-- ===== src/Serving/Backpressure.antt =====
-- The backpressure middleware: `BackpressureMiddleware.__call__` of serving/middleware.py and
-- `backpressure_middleware` of serving/app.py, each in two halves, since other requests run while
-- one waits in `call_next`.
use cudaforge.Prelude.{
  ℕ, ◌+◌, ◌-◌, Bool, false, ◌||◌, String, List, [], ◌∷◌, leb, string_eq, ◌==◌, if◌then◌else◌,
}

abbrev pub mem : String → List String → Bool
mem p [] = false
mem p (x ∷ xs) = x == p || mem p xs

-- `self.exempt_paths`, and the list in `serving/app.py`
abbrev pub middleware_exempt : List String
middleware_exempt =
    "/healthz" ∷ "/v1/health" ∷ "/v1/health/ready" ∷ "/metrics" ∷ "/v1/metrics" ∷ "/docs" ∷ "/redoc"
    ∷ "/openapi.json" ∷ []

abbrev pub app_exempt : List String
app_exempt =
    "/healthz" ∷ "/metrics" ∷ "/v1/health" ∷ "/v1/health/ready" ∷ "/v1/metrics" ∷ "/docs"
    ∷ "/openapi.json" ∷ "/redoc" ∷ []

pub record Limits : Type 0 where
  pub max_concurrent : ℕ
  pub max_queue : ℕ
  pub exempt_paths : List String

abbrev pub middleware_limits : Limits
middleware_limits = record {
  max_concurrent = 32;
  max_queue = 128;
  exempt_paths = middleware_exempt;
}

abbrev pub max_concurrent_requests : ℕ
max_concurrent_requests = 32

abbrev pub max_backpressure_queue : ℕ
max_backpressure_queue = 128

-- What becomes of an arriving request: it passes uncounted, it gets the 503 response, or it is
-- counted and runs.
pub data Verdict : Type 0 where
  exempt shed counted : Verdict

-- From the arrival to `call_next`, on `active_in_flight_requests`.
unfoldable pub arrive : Limits → String → ℕ → Verdict × ℕ
arrive l path active =
    if mem path l.exempt_paths
    then (exempt, active)
    else if leb (l.max_concurrent + l.max_queue) active
    then (shed, active)
    else (counted, active + 1)

-- The same half of `backpressure_middleware`, with its own constants.
unfoldable pub backpressure_middleware : String → ℕ → Verdict × ℕ
backpressure_middleware path active_in_flight_requests =
    if mem path app_exempt
    then (exempt, active_in_flight_requests)
    else if leb (max_concurrent_requests + max_backpressure_queue) active_in_flight_requests
    then (shed, active_in_flight_requests)
    else (counted, active_in_flight_requests + 1)

-- The `finally` of a counted request, after a response or an exception.
unfoldable pub finish : ℕ → ℕ
finish active = active - 1
