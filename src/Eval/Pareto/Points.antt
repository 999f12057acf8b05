-- ===== src/Eval/Pareto/Points.antt =====
-- `ParetoFrontierCalculator.compute_pareto_frontier`, over the floats and Python's `str.lower`.
use cudaforge.Prelude.{
  Bool, true, false, ◌&&◌, ◌||◌, String, List, [], ◌∷◌, map, Option, none, some, Dict, lookup,
  string_eq, ◌==◌, if◌then◌else◌,
}
use cudaforge.Prelude.Int.{pos}
use cudaforge.Prelude.Float.{FloatOps}
use cudaforge.Eval.Pareto.Sweep.{find_optimal}

pub data Outcome (A : Type 0) : Type 0 where
  ok : A → Outcome A
  value_error : String → Outcome A

infixl 5 ◌>>=◌
abbrev pub ◌>>=◌ : {A B : Type 0} → Outcome A → (A → Outcome B) → Outcome B
ok a >>= f = f a
value_error e >>= f = value_error e

module _ (f : FloatOps) where
  open f use {Float}

  -- The entries of `metadata` are carried along and never read.
  pub record ParetoPoint : Type 0 where
    pub point_id : String
    pub metrics : Dict String Float
    pub metadata : Dict String String
    pub is_pareto_optimal : Bool
    pub distance_to_frontier : Float

  abbrev pub zero_float : Float
  zero_float = f.lit (pos 0) 1

  abbrev one_float : Float
  one_float = f.lit (pos 10) 1

  abbrev pub or_zero : Option Float → Float
  or_zero none = zero_float
  or_zero (some v) = v

  -- One entry of the criteria matrix.
  unfoldable pub criterion : (String → String) → Dict String Float → String × String → Outcome Float
  criterion lower metrics (metric, objective) =
      let val = or_zero (lookup metric metrics) in
      let direction = lower objective in
      if direction == "maximize"
      then ok val
      else if direction == "minimize"
      then ok (f.neg val)
      else value_error direction

  unfoldable pub criteria :
      (String → String) → Dict String Float → List (String × String) → Outcome (List Float)
  unfolding criterion
  criteria lower metrics [] = ok []
  criteria lower metrics (o ∷ os) = do
    v ← criterion lower metrics o
    vs ← criteria lower metrics os
    ok (v ∷ vs)

  unfoldable pub build_matrix :
      (String → String) → List (String × String) → List ParetoPoint → Outcome (List (List Float))
  unfolding criteria
  build_matrix lower objectives [] = ok []
  build_matrix lower objectives (pt ∷ pts) = do
    row ← criteria lower pt.metrics objectives
    rows ← build_matrix lower objectives pts
    ok (row ∷ rows)

  -- `np.all(a >= b)` and `np.any(a > b)`. All rows of the matrix have one length, so the answer for
  -- rows of two lengths is never used.
  unfoldable pub all_ge : List Float → List Float → Bool
  all_ge (a ∷ as') (b ∷ bs) = f.leb b a && all_ge as' bs
  all_ge [] [] = true
  all_ge _ _ = false

  unfoldable pub any_gt : List Float → List Float → Bool
  any_gt (a ∷ as') (b ∷ bs) = f.ltb b a || any_gt as' bs
  any_gt _ _ = false

  unfoldable pub dominates : List Float → List Float → Bool
  unfolding all_ge any_gt
  dominates row_j row_i = all_ge row_j row_i && any_gt row_j row_i

  abbrev zip_with : (Float → Float → Float) → List Float → List Float → List Float
  zip_with op (a ∷ as') (b ∷ bs) = op a b ∷ zip_with op as' bs
  zip_with op _ _ = []

  abbrev lesser : Float → Float → Float
  lesser a b = if f.ltb b a then b else a

  abbrev greater : Float → Float → Float
  greater a b = if f.ltb a b then b else a

  -- `np.min(matrix, axis=0)` and `np.max(matrix, axis=0)`
  abbrev columns : (Float → Float → Float) → List (List Float) → List Float
  columns op [] = []
  columns op (row ∷ []) = row
  columns op (row ∷ rows) = zip_with op row (columns op rows)

  abbrev range_of : Float → Float → Float
  range_of hi lo = let d = f.sub hi lo in if f.eqb d zero_float then one_float else d

  abbrev normalize : List (List Float) → List Float → List Float
  normalize matrix row =
      let mins = columns lesser matrix in
      let ranges = zip_with range_of (columns greater matrix) mins in
      zip_with f.div (zip_with f.sub row mins) ranges

  abbrev sum_squares : List Float → Float
  sum_squares [] = zero_float
  sum_squares (d ∷ ds) = f.add (f.mul d d) (sum_squares ds)

  abbrev distance : List Float → List Float → Float
  distance a b = f.sqrt (sum_squares (zip_with f.sub a b))

  -- `np.min` over the distances to the frontier, whose rows are normalised like the point's.
  abbrev nearest : List Float → List (List Float) → Float
  nearest p [] = zero_float
  nearest p (r ∷ []) = distance r p
  nearest p (r ∷ rs) = lesser (distance r p) (nearest p rs)

  abbrev pub select : List (List Float) → List Bool → List (List Float)
  select (r ∷ rs) (b ∷ bs) = let rest = select rs bs in if b then r ∷ rest else rest
  select _ _ = []

  -- The loop that makes the result: `frontier` and the rows are normalised.
  unfoldable pub process :
      List (List Float)
      → List (List Float)
      → List ParetoPoint
      → List (List Float)
      → List Bool
      → List ParetoPoint
  process matrix frontier (pt ∷ pts) (row ∷ rows) (b ∷ bs) =
      record pt {
        is_pareto_optimal = b;
        distance_to_frontier =
            if b
            then zero_float
            else nearest (normalize matrix row) (map (normalize matrix) frontier);
      }
      ∷ process matrix frontier pts rows bs
  process matrix frontier _ _ _ = []

  unfoldable pub compute_pareto_frontier :
      (String → String) → List ParetoPoint → List (String × String) → Outcome (List ParetoPoint)
  unfolding build_matrix process
  compute_pareto_frontier lower [] objectives = ok []
  compute_pareto_frontier lower (pt ∷ pts) objectives = do
    matrix ← build_matrix lower objectives (pt ∷ pts)
    let is_optimal = find_optimal dominates matrix
    ok (process matrix (select matrix is_optimal) (pt ∷ pts) matrix is_optimal)
