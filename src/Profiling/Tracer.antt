-- ===== src/Profiling/Tracer.antt =====
-- `CUDAEventTracer` of profiling/cuda_event_tracer.py. A pair of events belongs to its entry alone, so
-- it is the moment at which the first was recorded, and that of the second if it was.
use cudaforge.Prelude.{
  ℕ, ◌-◌, Bool, String, List, [], ◌∷◌, ◌++◌, length, get_elem?, min, Option, none, some, Dict,
  lookup, contains, insert, string_eq, if◌then◌else◌,
}
use cudaforge.Prelude.Int.{pos}
use cudaforge.Prelude.Float.{FloatOps}

-- The device's clock, `statistics.mean`, `sorted`, and `int` of what is not negative.
pub record Clock (f : FloatOps) : Type 1 where
  pub Moment : Type 0
  pub elapsed_time : Moment → Moment → f.Float
  pub mean : List f.Float → f.Float
  pub sorted : List f.Float → List f.Float
  pub truncate : f.Float → ℕ

infixl 5 ◌>>=◌
abbrev ◌>>=◌ : {A B : Type 0} → Option A → (A → Option B) → Option B
none >>= g = none
some a >>= g = g a

module _ (f : FloatOps) (c : Clock f) where
  open f use {Float}
  open c use {Moment}

  pub record Interval : Type 0 where
    pub start_event : Moment
    pub end_event : Option Moment

  pub record Tracer : Type 0 where
    pub events : Dict String (List Interval)
    pub timings : Dict String (List Float)

  abbrev pub or_empty : {A : Type 0} → Option (List A) → List A
  or_empty none = []
  or_empty (some xs) = xs

  unfoldable pub start : String → Moment → Tracer → Tracer
  start tag now t =
      let fresh : Interval = record { start_event = now; end_event = none } in
      if contains tag t.events
      then record {
        events = insert tag (or_empty (lookup tag t.events) ++ fresh ∷ []) t.events;
        timings = t.timings;
      }
      else record { events = insert tag (fresh ∷ []) t.events; timings = insert tag [] t.timings }

  -- The last entry, with its second event recorded; `none` for the empty list.
  unfoldable pub end_last : Moment → List Interval → Option (List Interval)
  end_last now [] = none
  end_last now (i ∷ []) = some (record { start_event = i.start_event; end_event = some now } ∷ [])
  end_last now (i ∷ j ∷ is) = do rest ← end_last now (j ∷ is); some (i ∷ rest)

  -- `none` is the `RuntimeError`.
  unfoldable pub stop : String → Moment → Tracer → Option Tracer
  unfolding end_last
  stop tag now t = do
    pairs ← lookup tag t.events
    ended ← end_last now pairs
    some (record { events = insert tag ended t.events; timings = t.timings })

  -- `elapsed_time` raises for an event that was never recorded.
  unfoldable pub durations_of : List Interval → Option (List Float)
  durations_of [] = some []
  durations_of (i ∷ is) = do
    end ← i.end_event
    rest ← durations_of is
    some (c.elapsed_time i.start_event end ∷ rest)

  abbrev last : List Float → Option Float
  last xs = get_elem? xs (length xs - 1)

  pub record Summary : Type 0 where
    pub count : Float
    pub mean_ms : Float
    pub min_ms : Float
    pub max_ms : Float
    pub p50_ms : Float
    pub p95_ms : Float
    pub p99_ms : Float

  abbrev share : ℕ → ℕ → ℕ
  share n percent = c.truncate (f.mul (f.of_int (pos n)) (f.lit (pos percent) 2))

  unfoldable pub summary_of : List Float → Option Summary
  summary_of durations = do
    let sorted_d = c.sorted durations
    let n = length sorted_d
    min_ms ← get_elem? sorted_d 0
    max_ms ← last sorted_d
    p50_ms ← get_elem? sorted_d (share n 50)
    p95_ms ← get_elem? sorted_d (min (share n 95) (n - 1))
    p99_ms ← get_elem? sorted_d (min (share n 99) (n - 1))
    some (record {
      count = f.of_int (pos n);
      mean_ms = c.mean sorted_d;
      min_ms = min_ms;
      max_ms = max_ms;
      p50_ms = p50_ms;
      p95_ms = p95_ms;
      p99_ms = p99_ms;
    })

  abbrev with_summary :
      String
      → List Float
      → Dict String Summary × Dict String (List Float)
      → Option (Dict String Summary × Dict String (List Float))
  with_summary tag [] rest = some rest
  with_summary tag (d ∷ ds) rest = do s ← summary_of (d ∷ ds); some ((tag, s) ∷ rest.0, rest.1)

  -- The tags of a dictionary are distinct, so each appends one entry to the summary.
  unfoldable pub calculate :
      Dict String (List Interval)
      → Dict String (List Float)
      → Option (Dict String Summary × Dict String (List Float))
  unfolding durations_of summary_of
  calculate [] timings = some ([], timings)
  calculate ((tag, pairs) ∷ events) timings = do
    durations ← durations_of pairs
    old ← lookup tag timings
    rest ← calculate events (insert tag (old ++ durations) timings)
    with_summary tag durations rest

  unfoldable pub synchronize_and_calculate : Tracer → Option (Dict String Summary × Tracer)
  unfolding calculate
  synchronize_and_calculate t = do
    result ← calculate t.events t.timings
    some (result.0, record { events = t.events; timings = result.1 })

  unfoldable pub reset : Tracer → Tracer
  reset t = record { events = []; timings = [] }

  -- The context manager around a body, which returns whether it raised; `none` is the error of `stop`.
  unfoldable pub profile_section :
      String → Moment → Moment → (Tracer → Bool × Tracer) → Tracer → Option (Bool × Tracer)
  unfolding start stop
  profile_section tag now later body t = do
    let (raised, t') = body (start tag now t)
    ended ← stop tag later t'
    some (raised, ended)
