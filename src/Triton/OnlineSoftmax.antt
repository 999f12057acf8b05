-- ===== src/Triton/OnlineSoftmax.antt =====
-- The softmax of scores at indices, in one pass and in tiles.
use cudaforge.Prelude.{
  ℕ, zero, suc, ◌+◌, ◌≤◌, ◌<◌, ◌≡◌, refl, sym, ap, ◌∙◌, List, [], ◌∷◌, ◌++◌, map, arith,
}
use cudaforge.Prelude.Float.{FloatOps}
use cudaforge.Triton.Device.{DeviceMath, ExactMath, zero_float, sum, max_of, range}

-- A function of the entries of a range is needed on the range alone.
pub map-range_congr {ℓ} :
    {A : Type ℓ} (g h : ℕ → A) (start n : ℕ)
    → ((i : ℕ) → start ≤ i → i < start + n → g i ≡ h i)
    → map g (range start n) ≡ map h (range start n)
map-range_congr g h start zero e = refl
map-range_congr g h start (suc n) e =
    let here = e start (omega arith) (omega arith) in
    let rest = map-range_congr g h (start + 1) n (λ i lo hi. e i (omega arith) (omega arith)) in
    rw (here, rest) refl

pub range-add : (start n k : ℕ) → range start (n + k) ≡ range start n ++ range (start + n) k
range-add start zero k =
    let e : 0 + k ≡ k = omega arith in let e' : start + 0 ≡ start = omega arith in rw (e, e') refl
range-add start (suc n) k =
    let e : suc n + k ≡ suc (n + k) = omega arith in
    let e' : start + suc n ≡ start + 1 + n = omega arith in
    rw (e, e') (ap (λ l. start ∷ l) (range-add (start + 1) n k))

module _ (f : FloatOps) (math : DeviceMath f) where
  abbrev pub top : (ℕ → f.Float) → List ℕ → f.Float
  top score ns = max_of f math (map score ns)

  -- The weights below a maximum `m`, and the values so weighted, summed.
  abbrev pub denominator : (ℕ → f.Float) → f.Float → List ℕ → f.Float
  denominator score m ns = sum f (map (λ n. math.exp (f.sub (score n) m)) ns)

  abbrev pub numerator : (ℕ → f.Float) → (ℕ → f.Float) → f.Float → List ℕ → f.Float
  numerator score value m ns = sum f (map (λ n. f.mul (math.exp (f.sub (score n) m)) (value n)) ns)

  -- The mean of the values under the softmax of the scores: maximum, weights, quotient.
  abbrev pub softmax_mean : (ℕ → f.Float) → (ℕ → f.Float) → List ℕ → f.Float
  softmax_mean score value ns =
      let m = top score ns in f.div (numerator score value m ns) (denominator score m ns)

module _ {f : FloatOps} {math : DeviceMath f} (x : ExactMath f math) where
  pub sum-map-append :
      (g : ℕ → f.Float) (as' bs : List ℕ)
      → sum f (map g (as' ++ bs)) ≡ f.add (sum f (map g as')) (sum f (map g bs))
  sum-map-append g [] bs = sym (x.zero-add (sum f (map g bs)))
  sum-map-append g (a ∷ as') bs =
      rw (sum-map-append g as' bs) (sym (x.add_assoc (g a) (sum f (map g as')) (sum f (map g bs))))

  pub top-append :
      (score : ℕ → f.Float) (as' bs : List ℕ)
      → top f math score (as' ++ bs) ≡ math.maximum (top f math score as') (top f math score bs)
  top-append score [] bs = sym (x.neg_inf-max (top f math score bs))
  top-append score (a ∷ as') bs =
      rw (top-append score as' bs)
        (sym (x.max_assoc (score a) (top f math score as') (top f math score bs)))

  pub sum_finite :
      (g : ℕ → f.Float) (ns : List ℕ) → ((n : ℕ) → x.IsFinite (g n)) → x.IsFinite (sum f (map g ns))
  sum_finite g [] h = x.zero_finite
  sum_finite g (n ∷ ns) h = x.add_finite (g n) (sum f (map g ns)) (h n) (sum_finite g ns h)

  -- A sum of nothings.
  pub sum-zeros :
      (g : ℕ → f.Float) (start n : ℕ)
      → ((i : ℕ) → start ≤ i → g i ≡ zero_float f)
      → sum f (map g (range start n)) ≡ zero_float f
  sum-zeros g start zero h = refl
  sum-zeros g start (suc n) h =
      rw (h start (omega arith), sum-zeros g (start + 1) n (λ i lo. h i (omega arith)))
        (x.zero-add (zero_float f))

  top-neg_inf :
      (score : ℕ → f.Float) (start n : ℕ)
      → ((i : ℕ) → start ≤ i → score i ≡ math.neg_inf)
      → top f math score (range start n) ≡ math.neg_inf
  top-neg_inf score start zero h = refl
  top-neg_inf score start (suc n) h =
      rw (h start (omega arith), top-neg_inf score (start + 1) n (λ i lo. h i (omega arith)))
        (x.neg_inf-max math.neg_inf)

module _ {f : FloatOps} {math : DeviceMath f} (x : ExactMath f math) (score : ℕ → f.Float)
    (m n : f.Float) (finite_m : x.IsFinite m) (finite_n : x.IsFinite n) where
  -- A new maximum `n` rescales both sums.
  pub denominator_rescaled :
      (ns : List ℕ)
      → f.mul (denominator f math score m ns) (math.exp (f.sub m n)) ≡ denominator f math score n ns
  denominator_rescaled [] = x.zero-mul _ (x.exp_finite m n finite_n)
  denominator_rescaled (k ∷ ns) =
      rw
        (
          x.add-mul (math.exp (f.sub (score k) m)) (denominator f math score m ns)
              (math.exp (f.sub m n)) (x.exp_finite m n finite_n),
          x.exp_chain (score k) m n finite_m finite_n,
          denominator_rescaled ns,
        )
        refl

  pub numerator_rescaled :
      (value : ℕ → f.Float) (ns : List ℕ)
      → f.mul (numerator f math score value m ns) (math.exp (f.sub m n))
        ≡ numerator f math score value n ns
  numerator_rescaled value [] = x.zero-mul _ (x.exp_finite m n finite_n)
  numerator_rescaled value (k ∷ ns) =
      rw
        (
          x.add-mul (f.mul (math.exp (f.sub (score k) m)) (value k))
              (numerator f math score value m ns) (math.exp (f.sub m n))
              (x.exp_finite m n finite_n),
          x.mul_swap (math.exp (f.sub (score k) m)) (value k) (math.exp (f.sub m n)),
          x.exp_chain (score k) m n finite_m finite_n,
          numerator_rescaled value ns,
        )
        refl

module _ {f : FloatOps} {math : DeviceMath f} (x : ExactMath f math) where
  -- Columns that a mask excludes do not count.
  pub softmax_mean_dropped :
      (score value : ℕ → f.Float) (n k : ℕ)
      → ((i : ℕ) → n ≤ i → score i ≡ math.neg_inf)
      → ((i : ℕ) → x.IsFinite (value i))
      → x.IsFinite (top f math score (range 0 n))
      → softmax_mean f math score value (range 0 (n + k))
        ≡ softmax_mean f math score value (range 0 n)
  softmax_mean_dropped score value n k masked finite number =
      let seen = range 0 n in
      let rest = range (0 + n) k in
      let m = top f math score seen in
      let start : 0 + n ≡ n = omega arith in
      let from = λ (i : ℕ) (lo : 0 + n ≤ i). masked i (omega arith) in
      let top_same : top f math score (seen ++ rest) ≡ m =
        top-append x score seen rest
        ∙ ap (math.maximum m) (top-neg_inf x score (0 + n) k from)
        ∙ x.max-neg_inf m in
      let weight_zero : (i : ℕ) → 0 + n ≤ i → math.exp (f.sub (score i) m) ≡ zero_float f =
        λ i lo. rw (from i lo) (x.exp-neg_inf m number) in
      let term_zero : (i : ℕ)
          → 0 + n ≤ i
          → f.mul (math.exp (f.sub (score i) m)) (value i) ≡ zero_float f =
        λ i lo. rw (weight_zero i lo) (x.zero-mul (value i) (finite i)) in
      let weights : denominator f math score m (seen ++ rest) ≡ denominator f math score m seen =
        sum-map-append x (λ i. math.exp (f.sub (score i) m)) seen rest
        ∙ ap (f.add (denominator f math score m seen))
            (sum-zeros x (λ i. math.exp (f.sub (score i) m)) (0 + n) k weight_zero)
        ∙ x.add-zero (denominator f math score m seen) in
      let sums : numerator f math score value m (seen ++ rest)
          ≡ numerator f math score value m seen =
        sum-map-append x (λ i. f.mul (math.exp (f.sub (score i) m)) (value i)) seen rest
        ∙ ap (f.add (numerator f math score value m seen))
            (sum-zeros x (λ i. f.mul (math.exp (f.sub (score i) m)) (value i)) (0 + n) k term_zero)
        ∙ x.add-zero (numerator f math score value m seen) in
      rw (softmax_mean, range-add 0 n k, top_same, weights, sums) refl

module _ (f : FloatOps) (math : DeviceMath f) where
  pub softmax_mean_congr :
      (score score' value : ℕ → f.Float) (n : ℕ)
      → ((i : ℕ) → i < n → score i ≡ score' i)
      → softmax_mean f math score value (range 0 n) ≡ softmax_mean f math score' value (range 0 n)
  softmax_mean_congr score score' value n e =
      let same = λ (i : ℕ) (lo : 0 ≤ i) (hi : i < 0 + n). e i (omega arith) in
      let tops : top f math score (range 0 n) ≡ top f math score' (range 0 n) =
        ap (max_of f math) (map-range_congr score score' 0 n same) in
      let m = top f math score' (range 0 n) in
      let weights : denominator f math score m (range 0 n)
          ≡ denominator f math score' m (range 0 n) =
        ap (sum f)
          (map-range_congr _ _ 0 n (λ i lo hi. ap (λ b. math.exp (f.sub b m)) (same i lo hi))) in
      let sums : numerator f math score value m (range 0 n)
          ≡ numerator f math score' value m (range 0 n) =
        ap (sum f) (
          map-range_congr _ _ 0 n
            (λ i lo hi. ap (λ b. f.mul (math.exp (f.sub b m)) (value i)) (same i lo hi))) in
      rw (softmax_mean, tops, weights, sums) refl
