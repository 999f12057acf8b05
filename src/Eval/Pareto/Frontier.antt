-- ===== src/Eval/Pareto/Frontier.antt =====
-- The in-place search marks exactly the rows that no row of the whole matrix dominates, although it
-- compares each row only with those that are still marked.
use cudaforge.Prelude.{
  ℕ, zero, suc, ◌+◌, ◌≤◌, ◌<◌, ◌≡◌, ◌≢◌, sym, ◌∙◌, Bool, true, false, not, List, [], ◌∷◌, map, some,
  get_elem?, length, replicate, length-set, length-map, length-replicate, get_elem?-set_self,
  get_elem?-set_ne, get_or_of_get, get_elem?_lt, get_of_lt, get_elem?-replicate, eq_of_get,
  get_elem?-map, Bool-cases, inl, inr, arith,
}
use native.Mathlib.Decide.{ℕ_discrete, dec_lt}
use cudaforge.Eval.Pareto.Sweep.{scan, visit, visit_all, find_optimal}
use cudaforge.Eval.Pareto.Maximal.{is_dominated, maximal_dominator}

module _ {ℓ} {R : Type ℓ} (dominates : R → R → Bool) where
  scan_sound :
      (i j : ℕ) (row : R) (rs : List R) (fs : List Bool)
      → scan dominates i j row rs fs ≡ true
      → is_dominated dominates row rs ≡ true
  unfolding scan
  scan_sound i j row [] fs h = cc
  scan_sound i j row (r ∷ rs) [] h = cc
  scan_sound i j row (r ∷ rs) (f ∷ fs) h = ground (arith, scan_sound i (j + 1) row rs fs)

  scan_hit :
      (i j : ℕ) (row : R) (rs : List R) (fs : List Bool) (k : ℕ) (r : R)
      → get_elem? rs k ≡ some r
      → get_elem? fs k ≡ some true
      → i ≢ j + k
      → dominates r row ≡ true
      → scan dominates i j row rs fs ≡ true
  unfolding scan
  scan_hit i j row [] fs k r at flag ne hit = cc
  scan_hit i j row (x ∷ rs) [] k r at flag ne hit = cc
  scan_hit i j row (x ∷ rs) (f ∷ fs) zero r at flag ne hit = ground arith
  scan_hit i j row (x ∷ rs) (f ∷ fs) (suc k) r at flag ne hit =
      ground (arith, scan_hit i (j + 1) row rs fs k r)

module _ {ℓ} {R : Type ℓ} (dominates : R → R → Bool) (matrix : List R) where
  optimal : R → Bool
  optimal r = not (is_dominated dominates r matrix)

  -- Before round `i` the rows above it have their final marks, and the others are still marked.
  record IsSwept (i : ℕ) (flags : List Bool) : Type ℓ where
    len : length flags ≡ length matrix
    done :
        (j : ℕ) (r : R) → get_elem? matrix j ≡ some r → j < i → get_elem? flags j ≡ some (optimal r)
    todo : (j : ℕ) (r : R) → get_elem? matrix j ≡ some r → i ≤ j → get_elem? flags j ≡ some true

module _ {ℓ} {R : Type ℓ} (dominates : R → R → Bool) (irreflexive : (r : R) → dominates r r ≡ false)
    (transitive : (a b c : R) → dominates a b ≡ true → dominates b c ≡ true → dominates a c ≡ true)
    (matrix : List R) where
  scan_exact :
      (i : ℕ) (row : R) (flags : List Bool)
      → IsSwept dominates matrix i flags
      → get_elem? matrix i ≡ some row
      → scan dominates i 0 row matrix flags ≡ is_dominated dominates row matrix
  unfolding optimal
  scan_exact i row flags inv here = elim (Bool-cases (is_dominated dominates row matrix)) [
    | inl bad ↦
        let (k, r, at, hit, free) =
          maximal_dominator dominates irreflexive transitive matrix row bad in
        let other : i ≢ k = λ e. cc (irreflexive row, e, here, at, hit) in
        let marked : get_elem? flags k ≡ some true = elim (dec_lt k i) [
          | yes p ↦ ground (arith, inv.done k r at p, free)
          | no p ↦ inv.todo k r at (omega arith)
        ] in
        rw bad
          (scan_hit dominates i 0 row matrix flags k r at marked (λ e. other (omega arith)) hit)
    | inr good ↦ elim (Bool-cases (scan dominates i 0 row matrix flags)) [
      | inl s ↦ cc (scan_sound dominates i 0 row matrix flags s)
      | inr s ↦ cc (s, good)
    ]
  ]

  mark :
      (i j : ℕ) (row r : R) (flags : List Bool) (b : Bool)
      → i ≡ j
      → get_elem? matrix i ≡ some row
      → get_elem? matrix j ≡ some r
      → not (is_dominated dominates row matrix) ≡ b
      → get_elem? flags i ≡ some b
      → get_elem? flags j ≡ some (optimal dominates matrix r)
  unfolding optimal
  mark i j row r flags b e at p v f = let q : row ≡ r = cc in rw (← q, ← e, v) f

  visit-IsSwept :
      (i : ℕ) (flags : List Bool)
      → i < length matrix
      → IsSwept dominates matrix i flags
      → IsSwept dominates matrix (suc i) (visit dominates i matrix flags)
  unfolding visit
  visit-IsSwept i flags lt inv =
      let (row, at) = get_of_lt matrix i lt in
      let set_i = inv.todo i row at (omega arith) in
      let marked = get_or_of_get flags i false set_i in
      let found = scan_exact i row flags inv at in
      elim (Bool-cases (is_dominated dominates row matrix)) [
        | inl bad ↦
            rw (at, visit, marked, found, bad)
              (record {
                len = omega (arith, length-set {0} flags i false, inv.len);
                done = λ j r p lt'. elim (ℕ_discrete i j) [
                  | yes e ↦
                      mark i j row r _ false e at p (ground (arith, bad))
                        (get_elem?-set_self flags i false (omega (arith, inv.len)))
                  | no ne ↦ rw (get_elem?-set_ne flags i j false ne) (inv.done j r p (omega arith))
                ];
                todo = λ j r p le.
                    rw (get_elem?-set_ne flags i j false (omega arith))
                      (inv.todo j r p (omega arith));
              })
        | inr good ↦
            rw (at, visit, marked, found, good)
              (record {
                len = inv.len;
                done = λ j r p lt'. elim (ℕ_discrete i j) [
                  | yes e ↦ mark i j row r flags true e at p (ground (arith, good)) set_i
                  | no ne ↦ inv.done j r p (omega arith)
                ];
                todo = λ j r p le. inv.todo j r p (omega arith);
              })
      ]

  visit_all-IsSwept :
      (n i : ℕ) (flags : List Bool)
      → i + n ≡ length matrix
      → IsSwept dominates matrix i flags
      → IsSwept dominates matrix (length matrix) (visit_all dominates n i matrix flags)
  unfolding visit_all
  visit_all-IsSwept zero i flags e inv = let e' : i ≡ length matrix = omega arith in rw e' at inv
  visit_all-IsSwept (suc n) i flags e inv =
      let next = visit-IsSwept i flags (omega arith) inv in
      let one : suc i ≡ i + 1 = omega arith in
      visit_all-IsSwept n (i + 1) _ (omega arith) (rw one at next)

  pub find_optimal-eq-map :
      find_optimal dominates matrix ≡ map (λ r. not (is_dominated dominates r matrix)) matrix
  unfolding find_optimal
  find_optimal-eq-map =
      let n = length matrix in
      let start : IsSwept dominates matrix 0 (replicate n true) = record {
        len = length-replicate n true;
        done = λ j r p lt. absurd (omega arith);
        todo = λ j r p le. get_elem?-replicate n true j (get_elem?_lt matrix j p);
      } in
      let end = visit_all-IsSwept n 0 (replicate n true) (omega arith) start in
      sym (
        eq_of_get _ _ (length-map _ matrix ∙ sym end.len) (λ j b p.
          let (r, at, e) = get_elem?-map _ matrix j p in
          rw (← e) (unfold optimal in end.done j r at (get_elem?_lt matrix j at))))
