-- ===== src/Profiling/Sections.antt =====
-- What a profiled section records.
use cudaforge.Prelude.{
  ◌≡◌, ◌≢◌, refl, sym, ◌∙◌, Bool, String, List, [], ◌∷◌, ◌++◌, none, some, Option-cases, inl, inr,
  lookup, contains, insert, string_eq, lookup-insert, beq_refl, beq_of_ne,
}
use cudaforge.Prelude.Float.{FloatOps}
use cudaforge.Profiling.Tracer.{
  Clock, Interval, Tracer, or_empty, start, end_last, stop, profile_section,
}

module _ (f : FloatOps) (c : Clock f) where
  start_events :
      (tag : String) (now : c.Moment) (t : Tracer f c)
      → lookup tag (start f c tag now t).events
        ≡ some (
            or_empty f c (lookup tag t.events)
            ++ record { start_event = now; end_event = none } ∷ [])
  unfolding start
  start_events tag now t = elim (Option-cases (lookup tag t.events)) [
    | inl e ↦ rw (start, contains, e, lookup-insert tag tag _ t.events, beq_refl tag) refl
    | inr (xs, e) ↦ rw (start, contains, e, lookup-insert tag tag _ t.events, beq_refl tag) refl
  ]

  end_last-snoc :
      (now : c.Moment) (is : List (Interval f c)) (i : Interval f c)
      → end_last f c now (is ++ i ∷ [])
        ≡ some (is ++ record { start_event = i.start_event; end_event = some now } ∷ [])
  unfolding end_last
  end_last-snoc now [] i = refl
  end_last-snoc now (j ∷ []) i = refl
  end_last-snoc now (j ∷ k ∷ is) i = rw (end_last-snoc now (k ∷ is) i) refl

  -- Around a body that leaves the entries of the tag as it finds them, a section ends without an error
  -- and with the body's outcome; it adds one entry to those of the tag, with the moments of its start
  -- and of its end; and the entries of the other tags are those that the body left.
  pub profile_section_records :
      (tag : String) (now later : c.Moment) (body : Tracer f c → Bool × Tracer f c) (t : Tracer f c)
      → lookup tag (body (start f c tag now t)).1.events ≡ lookup tag (start f c tag now t).events
      → let inner = body (start f c tag now t) in
        (t' : Tracer f c) × (profile_section f c tag now later body t ≡ some (inner.0, t'))
        × (lookup tag t'.events
            ≡ some (
                or_empty f c (lookup tag t.events)
                ++ record { start_event = now; end_event = some later } ∷ []))
        × ((other : String) → other ≢ tag → lookup other t'.events ≡ lookup other inner.1.events)
  unfolding profile_section stop
  profile_section_records tag now later body t same =
      let inner = body (start f c tag now t) in
      let found = same ∙ start_events tag now t in
      let old = or_empty f c (lookup tag t.events) in
      let ended = old ++ record { start_event = now; end_event = some later } ∷ [] in
      let closed = end_last-snoc later old (record { start_event = now; end_event = none }) in
      (
        record { events = insert tag ended inner.1.events; timings = inner.1.timings },
        rw (profile_section, stop, found, closed) refl,
        rw (lookup-insert tag tag ended inner.1.events, beq_refl tag) refl,
        λ other ne.
            rw (lookup-insert tag other ended inner.1.events, beq_of_ne tag other (λ e. ne (sym e)))
              refl,
      )
