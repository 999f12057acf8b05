-- ===== src/Eval/Pareto/Optimal.antt =====
-- `compute_pareto_frontier` marks the points that no point dominates.
use cudaforge.Prelude.{
  if◌then◌else◌, ◌&&◌, ◌||◌, ◌≡◌, refl, ap, ◌∙◌, Bool, true, false, not, String, List, [], ◌∷◌, map,
  lookup, string_eq, ◌==◌, length, length-map, Bool-cases, inl, inr, ◌⊎◌, arith,
}
use cudaforge.Prelude.Float.{FloatOps, FloatOrder, FloatNeg}
use cudaforge.Eval.Pareto.Sweep.{find_optimal}
use cudaforge.Eval.Pareto.Maximal.{is_dominated}
use cudaforge.Eval.Pareto.Frontier.{find_optimal-eq-map}
use cudaforge.Eval.Pareto.Points.{
  ok, ParetoPoint, or_zero, criterion, criteria, build_matrix, all_ge, any_gt, dominates, select,
  process, compute_pareto_frontier,
}

module _ (f : FloatOps) (laws : FloatOrder f) where
  all_ge_trans :
      (a b c : List f.Float) → all_ge f a b ≡ true → all_ge f b c ≡ true → all_ge f a c ≡ true
  unfolding all_ge
  all_ge_trans [] [] c p q = q
  all_ge_trans [] (y ∷ b) c p q = cc
  all_ge_trans (x ∷ a) [] c p q = cc
  all_ge_trans (x ∷ a) (y ∷ b) [] p q = cc
  all_ge_trans (x ∷ a) (y ∷ b) (z ∷ c) p q =
      ground (arith, laws.leb_trans z y x, all_ge_trans a b c)

  any_gt_trans :
      (a b c : List f.Float)
      → all_ge f a b ≡ true
      → any_gt f a b ≡ true
      → all_ge f b c ≡ true
      → any_gt f a c ≡ true
  unfolding all_ge any_gt
  any_gt_trans [] b c p h q = cc
  any_gt_trans (x ∷ a) [] c p h q = cc
  any_gt_trans (x ∷ a) (y ∷ b) [] p h q = cc
  any_gt_trans (x ∷ a) (y ∷ b) (z ∷ c) p h q =
      ground (arith, laws.leb_trans x z y, laws.ltb-leb y x, laws.ltb-leb z x, any_gt_trans a b c)

  any_gt_irreflexive : (a : List f.Float) → any_gt f a a ≡ false
  unfolding any_gt
  any_gt_irreflexive [] = refl
  any_gt_irreflexive (x ∷ a) =
      ground (arith, laws.ltb-leb x x, laws.leb_refl x, any_gt_irreflexive a)

  irreflexive : (r : List f.Float) → dominates f r r ≡ false
  unfolding dominates
  irreflexive r = ground (arith, any_gt_irreflexive r)

  transitive :
      (a b c : List f.Float)
      → dominates f a b ≡ true
      → dominates f b c ≡ true
      → dominates f a c ≡ true
  unfolding dominates
  transitive a b c p q = ground (arith, all_ge_trans a b c, any_gt_trans a b c)

module _ (f : FloatOps) (lower : String → String) where
  abbrev pub IsDirection : String × String → Type 0
  IsDirection o = ((lower o.1 == "maximize") ≡ true) ⊎ ((lower o.1 == "minimize") ≡ true)

  abbrev pub AreDirections : List (String × String) → Type 0
  AreDirections [] = Unit
  AreDirections (o ∷ os) = IsDirection o × AreDirections os

  abbrev value : String → ParetoPoint f → f.Float
  value m p = or_zero f (lookup m p.metrics)

  -- A point is not worse than another in an objective, and better in it.
  abbrev not_worse : String × String → ParetoPoint f → ParetoPoint f → Bool
  not_worse (m, d) p q =
      if lower d == "maximize" then f.leb (value m q) (value m p) else f.leb (value m p) (value m q)

  abbrev better : String × String → ParetoPoint f → ParetoPoint f → Bool
  better (m, d) p q =
      if lower d == "maximize" then f.ltb (value m q) (value m p) else f.ltb (value m p) (value m q)

  abbrev none_worse : List (String × String) → ParetoPoint f → ParetoPoint f → Bool
  none_worse [] p q = true
  none_worse (o ∷ os) p q = not_worse o p q && none_worse os p q

  abbrev some_better : List (String × String) → ParetoPoint f → ParetoPoint f → Bool
  some_better [] p q = false
  some_better (o ∷ os) p q = better o p q || some_better os p q

  -- A point is not worse in any objective, and better in one.
  abbrev pub beats : List (String × String) → ParetoPoint f → ParetoPoint f → Bool
  beats os p q = none_worse os p q && some_better os p q

  abbrev score : String × String → ParetoPoint f → f.Float
  score (m, d) p = if lower d == "maximize" then value m p else f.neg (value m p)

  abbrev row_of : List (String × String) → ParetoPoint f → List f.Float
  row_of [] p = []
  row_of (o ∷ os) p = score o p ∷ row_of os p

  criterion_ok :
      (o : String × String) (p : ParetoPoint f)
      → IsDirection o
      → criterion f lower p.metrics o ≡ ok (score o p)
  unfolding criterion
  criterion_ok (m, d) p (inl h) = rw h refl
  criterion_ok (m, d) p (inr h) = elim (Bool-cases (lower d == "maximize")) [
    | inl e ↦ rw e refl
    | inr e ↦ rw (e, h) refl
  ]

  criteria_ok :
      (os : List (String × String)) (p : ParetoPoint f)
      → AreDirections os
      → criteria f lower p.metrics os ≡ ok (row_of os p)
  unfolding criteria
  criteria_ok [] p h = refl
  criteria_ok (o ∷ os) p h = rw (criterion_ok o p h.0, criteria_ok os p h.1) refl

  build_matrix_ok :
      (os : List (String × String)) (pts : List (ParetoPoint f))
      → AreDirections os
      → build_matrix f lower os pts ≡ ok (map (row_of os) pts)
  unfolding build_matrix
  build_matrix_ok os [] h = refl
  build_matrix_ok os (pt ∷ pts) h = rw (criteria_ok os pt h, build_matrix_ok os pts h) refl

  module _ (negs : FloatNeg f) where
    all_ge-row_of :
        (os : List (String × String)) (p q : ParetoPoint f)
        → (all_ge f (row_of os p) (row_of os q) ≡ none_worse os p q)
          × (any_gt f (row_of os p) (row_of os q) ≡ some_better os p q)
    unfolding all_ge any_gt
    all_ge-row_of [] p q = (refl, refl)
    all_ge-row_of ((m, d) ∷ os) p q =
        let (all_, any_) = all_ge-row_of os p q in
        elim (Bool-cases (lower d == "maximize")) [
          | inl e ↦ rw (e, all_, any_) (refl, refl)
          | inr e ↦
              rw
                (
                  e,
                  all_,
                  any_,
                  negs.leb-neg (value m q) (value m p),
                  negs.ltb-neg (value m q) (value m p),
                )
                (refl, refl)
        ]

    dominates-row_of :
        (os : List (String × String)) (p q : ParetoPoint f)
        → dominates f (row_of os p) (row_of os q) ≡ beats os p q
    unfolding dominates
    dominates-row_of os p q = let (all_, any_) = all_ge-row_of os p q in rw (all_, any_) refl

    is_dominated-row_of :
        (os : List (String × String)) (p : ParetoPoint f) (pts : List (ParetoPoint f))
        → is_dominated (dominates f) (row_of os p) (map (row_of os) pts)
          ≡ is_dominated (beats os) p pts
    is_dominated-row_of os p [] = refl
    is_dominated-row_of os p (q ∷ pts) =
        rw (dominates-row_of os q p, is_dominated-row_of os p pts) refl

    marks-row_of :
        (os : List (String × String)) (all pts : List (ParetoPoint f))
        → map
            (λ row. not (is_dominated (dominates f) row (map (row_of os) all)))
            (map (row_of os) pts)
          ≡ map (λ p. not (is_dominated (beats os) p all)) pts
    marks-row_of os all [] = refl
    marks-row_of os all (p ∷ pts) = rw (is_dominated-row_of os p all, marks-row_of os all pts) refl

module _ (f : FloatOps) where
  marks-process :
      (all frontier : List (List f.Float)) (pts : List (ParetoPoint f)) (rows : List (List f.Float))
      (bs : List Bool)
      → length rows ≡ length pts
      → length bs ≡ length pts
      → (map (λ (p : ParetoPoint f). p.is_pareto_optimal) (process f all frontier pts rows bs) ≡ bs)
        × (map (λ (p : ParetoPoint f). p.point_id) (process f all frontier pts rows bs)
            ≡ map (λ (p : ParetoPoint f). p.point_id) pts)
  unfolding process
  marks-process all frontier [] [] [] e e' = (refl, refl)
  marks-process all frontier [] [] (b ∷ bs) e e' = absurd (omega arith)
  marks-process all frontier [] (r ∷ rows) bs e e' = absurd (omega arith)
  marks-process all frontier (p ∷ pts) [] bs e e' = absurd (omega arith)
  marks-process all frontier (p ∷ pts) (r ∷ rows) [] e e' = absurd (omega arith)
  marks-process all frontier (p ∷ pts) (r ∷ rows) (b ∷ bs) e e' =
      let (x, y) = marks-process all frontier pts rows bs (omega arith) (omega arith) in
      (ap (λ l. b ∷ l) x, ap (λ l. p.point_id ∷ l) y)

  -- If every objective has the direction "maximize" or "minimize" (in any case), the floats are in a
  -- total order, so that none is a NaN, and negation turns that order around, then the call returns one
  -- point for each point of the input, in order and with its identifier, and marks as optimal exactly
  -- those points that no point of the input beats: none is at least as good in every objective, larger
  -- being better where it is maximized and smaller where it is minimized, and better in one. A metric
  -- that a point does not have is zero.
  pub compute_pareto_frontier_optimal :
      (laws : FloatOrder f) (negs : FloatNeg f) (lower : String → String)
      (pts : List (ParetoPoint f)) (objectives : List (String × String))
      → AreDirections f lower objectives
      → (result : List (ParetoPoint f)) × (compute_pareto_frontier f lower pts objectives
          ≡ ok result)
        × (map (λ (p : ParetoPoint f). p.point_id) result
            ≡ map (λ (p : ParetoPoint f). p.point_id) pts)
        × (map (λ (p : ParetoPoint f). p.is_pareto_optimal) result
            ≡ map (λ p. not (is_dominated (beats f lower objectives) p pts)) pts)
  unfolding compute_pareto_frontier
  compute_pareto_frontier_optimal laws negs lower [] objectives valid = ([], refl, refl, refl)
  compute_pareto_frontier_optimal laws negs lower (pt ∷ pts) objectives valid =
      let m = map (row_of f lower objectives) (pt ∷ pts) in
      let built = build_matrix_ok f lower objectives (pt ∷ pts) valid in
      let exact = find_optimal-eq-map (dominates f) (irreflexive f laws) (transitive f laws) m in
      let flags = find_optimal (dominates f) m in
      let size : length m ≡ length (pt ∷ pts) = length-map _ (pt ∷ pts) in
      let len : length flags ≡ length (pt ∷ pts) = rw exact (length-map _ m ∙ size) in
      let (marks, ids) = marks-process m (select f m flags) (pt ∷ pts) m flags size len in
      (
        _,
        rw (built, compute_pareto_frontier) refl,
        ids,
        marks ∙ exact ∙ marks-row_of f lower negs objectives (pt ∷ pts) (pt ∷ pts),
      )
