-- ===== src/Triton/RopeGrid.antt =====
-- The grid of the rotary embedding runs each of its programs once.
use cudaforge.Prelude.{
  ℕ, zero, suc, ◌*◌, ◌<◌, ◌≡◌, inl, inr, refl, sym, ap, List, [], ◌∷◌, ◌++◌, max, arith,
}
use native.Mathlib.Decide.{ℕ_discrete}
use mathlib.Core.Path.{subst}
use cudaforge.Prelude.Float.{FloatOps}
use cudaforge.Triton.Device.{DeviceMath, each}
use cudaforge.Triton.Rope.{Side, query, key, Rope, Program, grid}
use cudaforge.Triton.RopeLaunch.{Absent, Once, AreInside, IsSchedule}

module _ {f : FloatOps} {math : DeviceMath f} (r : Rope f math) where
  Absent-append :
      (p : Program f math) (s t : List (Program f math))
      → Absent math r p s
      → Absent math r p t
      → Absent math r p (s ++ t)
  Absent-append p [] t a b = b
  Absent-append p (q ∷ s) t (ne, a) b = (ne, Absent-append p s t a b)

  Absent-each :
      (p : Program f math) (n : ℕ) (body : ℕ → List (Program f math))
      → ((i : ℕ) → i < n → Absent math r p (body i))
      → Absent math r p (each n body)
  Absent-each p zero body h = tt
  Absent-each p (suc n) body h =
      Absent-append p (each n body) (body n) (Absent-each p n body (λ i lt. h i (omega arith)))
        (h n (omega arith))

  Once-append_left :
      (p : Program f math) (s t : List (Program f math))
      → Once math r p s
      → Absent math r p t
      → Once math r p (s ++ t)
  Once-append_left p [] t a b = absurd a
  Once-append_left p (q ∷ s) t (inl (e, a)) b = inl (e, Absent-append p s t a b)
  Once-append_left p (q ∷ s) t (inr (ne, a)) b = inr (ne, Once-append_left p s t a b)

  Once-append_right :
      (p : Program f math) (s t : List (Program f math))
      → Absent math r p s
      → Once math r p t
      → Once math r p (s ++ t)
  Once-append_right p [] t a b = b
  Once-append_right p (q ∷ s) t (ne, a) b = inr (ne, Once-append_right p s t a b)

  Once-each :
      (p : Program f math) (n i : ℕ) (body : ℕ → List (Program f math))
      → i < n
      → Once math r p (body i)
      → ((j : ℕ) → (j ≡ i → ⊥) → Absent math r p (body j))
      → Once math r p (each n body)
  Once-each p zero i body lt once others = absurd (omega arith)
  Once-each p (suc n) i body lt once others = elim (ℕ_discrete i n) [
    | yes e ↦
        Once-append_right p (each n body) (body n)
          (Absent-each p n body (λ j j_lt. others j (λ same. absurd (omega arith))))
          (subst (λ j. Once math r p (body j)) e once)
    | no ne ↦
        Once-append_left p (each n body) (body n) (Once-each p n i body (omega arith) once others)
          (others n (λ same. ne (sym same)))
  ]

  AreInside-append :
      (s t : List (Program f math))
      → AreInside math r s
      → AreInside math r t
      → AreInside math r (s ++ t)
  AreInside-append [] t a b = b
  AreInside-append (q ∷ s) t (lt, a) b = (lt, AreInside-append s t a b)

  AreInside-each :
      (n : ℕ) (body : ℕ → List (Program f math))
      → ((i : ℕ) → i < n → AreInside math r (body i))
      → AreInside math r (each n body)
  AreInside-each zero body h = tt
  AreInside-each (suc n) body h =
      AreInside-append (each n body) (body n) (AreInside-each n body (λ i lt. h i (omega arith)))
        (h n (omega arith))

  -- The two programs of a token and a head.
  abbrev both : ℕ → ℕ → List (Program f math)
  both t h =
      record { token_idx = t; head_idx = h; side = query }
      ∷ record { token_idx = t; head_idx = h; side = key }
      ∷ []

  Once-both :
      (t h : ℕ) (s : Side)
      → Once math r (record { token_idx = t; head_idx = h; side = s }) (both t h)
  Once-both t h query =
      inl (refl, ((λ e. let s : key ≡ query = ap (λ p. p.side) e in absurd (cc s)), tt))
  Once-both t h key =
      inr ((λ e. let s : query ≡ key = ap (λ p. p.side) e in absurd (cc s)), inl (refl, tt))

  Absent-both :
      (p : Program f math) (t h : ℕ)
      → (t ≡ p.token_idx → h ≡ p.head_idx → ⊥)
      → Absent math r p (both t h)
  Absent-both p t h ne = (
    (λ e. ne (ap (λ p. p.token_idx) e) (ap (λ p. p.head_idx) e)),
    ((λ e. ne (ap (λ p. p.token_idx) e) (ap (λ p. p.head_idx) e)), tt),
  )

  -- The grid of a launch consists of the programs whose token and head are in range, and each of them
  -- stands in it exactly once.
  pub grid-IsSchedule : IsSchedule math r (grid f math r)
  grid-IsSchedule = record {
    inside = AreInside-each (r.batch_size * r.seq_len) _ (λ t lt.
        AreInside-each (max r.num_q_heads r.num_kv_heads) (both t) (λ h h_lt. (lt, (lt, tt))));
    once = λ p t_lt h_lt.
        Once-each p (r.batch_size * r.seq_len) p.token_idx
          (λ t. each (max r.num_q_heads r.num_kv_heads) (both t)) t_lt
          (Once-each p (max r.num_q_heads r.num_kv_heads) p.head_idx (both p.token_idx) h_lt
            (Once-both p.token_idx p.head_idx p.side)
            (λ h ne. Absent-both p p.token_idx h (λ te he. ne he)))
          (λ t ne.
            Absent-each p (max r.num_q_heads r.num_kv_heads) (both t)
              (λ h lt. Absent-both p t h (λ te he. ne te)));
  }
