-- ===== src/Profiling/Tests.antt =====
-- A traced section, and a tracker of memory.
use cudaforge.Prelude.{
  ℕ, ◌-◌, ◌≡◌, ◌≢◌, refl, false, String, [], ◌∷◌, some, Dict, lookup, string_eq, arith,
}
use cudaforge.Prelude.Int.{pos}
use cudaforge.Fixed.{fixed}
use cudaforge.Profiling.Tracer.{Clock, Tracer, start, profile_section}
use cudaforge.Profiling.Sections.{profile_section_records}
use cudaforge.Prelude.Int.{◌-ℤ◌}
use cudaforge.Profiling.Leaks.{capture, snapshot_of, leak, assert_no_leak, assert_no_leak-capture}

abbrev clock : Clock fixed
clock = record {
  Moment = ℕ;
  elapsed_time = λ a b. pos (b - a);
  mean = λ xs. pos 0;
  sorted = λ xs. xs;
  truncate = λ x. 0;
}

-- A tracer that has seen one section, and a body that does nothing.
abbrev seen : Tracer fixed clock
seen = record {
  events = ("attention", record { start_event = 3; end_event = some 5 } ∷ []) ∷ [];
  timings = ("attention", []) ∷ [];
}

profile_section_records_example :
    (t' : Tracer fixed clock) × (profile_section fixed clock "attention" 10 14
        (λ t. (false, t))
        seen
      ≡ some (false, t'))
    × (lookup "attention" t'.events
        ≡ some (
            record { start_event = 3; end_event = some 5 }
            ∷ record { start_event = 10; end_event = some 14 }
            ∷ []))
    × ((other : String)
        → other ≢ "attention"
        → lookup other t'.events ≡ lookup other (start fixed clock "attention" 10 seen).events)
profile_section_records_example =
    profile_section_records fixed clock "attention" 10 14 (λ t. (false, t)) seen refl

abbrev stats : ℕ → Dict String ℕ
stats allocated =
    ("allocated_bytes.all.current", allocated) ∷ ("reserved_bytes.all.current", 8388608) ∷ []

abbrev before : String
before = "before"

abbrev after : String
after = "after"

labels_differ : before ≢ after
labels_differ e = ground (arith, string_eq.beq_iff "before" "after", e)

assert_no_leak-capture_example :
    assert_no_leak fixed "before" "after"
      (pos 1000)
      (capture fixed "after"
        (stats 4194304)
        (0, 0)
        (("before", snapshot_of fixed (stats 1048576) (0, 0)) ∷ [])).1
    ≡ leak
unfolding ◌-ℤ◌ snapshot_of
assert_no_leak-capture_example =
    assert_no_leak-capture fixed "before" "after" (pos 1000) (stats 4194304) (0, 0)
      (("before", snapshot_of fixed (stats 1048576) (0, 0)) ∷ []) labels_differ
