-- ===== src/Quantization/Divergence.antt =====
-- `QuantizationCalibrator.compute_kl_divergence_scale`: the threshold of least divergence.
use cudaforge.Prelude.{
  ℕ, zero, suc, ◌+◌, ◌-◌, List, [], ◌∷◌, map, length, take, drop, replicate, get_elem?, get_or, set,
  min, nat_beq, Option, none, some, if◌then◌else◌,
}
use cudaforge.Prelude.Int.{pos}
use cudaforge.Prelude.Float.{FloatOps}

-- `np.sum`, `np.log`, `np.floor` and `np.ceil` of what is not negative, and infinity.
pub record Numerics (f : FloatOps) : Type 0 where
  pub sum : List f.Float → f.Float
  pub log : f.Float → f.Float
  pub floor : f.Float → ℕ
  pub ceil : f.Float → ℕ
  pub inf : f.Float

module _ (f : FloatOps) (n : Numerics f) where
  open f use {Float}

  abbrev pub zero_float : Float
  zero_float = f.lit (pos 0) 1

  abbrev pub one_float : Float
  one_float = f.lit (pos 10) 1

  -- `1e-12`
  abbrev pub tiny : Float
  tiny = f.lit (pos 1) 12

  -- `np.clip`
  abbrev pub clip : Float → Float → Float → Float
  clip lo hi x = if f.ltb x lo then lo else if f.ltb hi x then hi else x

  abbrev pub zip_with : (Float → Float → Float) → List Float → List Float → List Float
  zip_with g (x ∷ xs) (y ∷ ys) = g x y ∷ zip_with g xs ys
  zip_with g xs ys = []

  -- `xs[-1] += v`
  abbrev pub add_last : Float → List Float → List Float
  add_last v [] = []
  add_last v (x ∷ []) = f.add x v ∷ []
  add_last v (x ∷ y ∷ ys) = x ∷ add_last v (y ∷ ys)

  -- `for k in range(k, k + n): acc = step(k, acc)`
  abbrev pub loop {ℓ} : {A : Type ℓ} → (ℕ → A → A) → ℕ → ℕ → A → A
  loop step zero k acc = acc
  loop step (suc n) k acc = loop step n (k + 1) (step k acc)

  -- The reference distribution with the outliers in its last bin.
  abbrev pub reference : List Float → ℕ → List Float
  reference histogram i = add_last (n.sum (drop i histogram)) (take i histogram)

  -- The bounds of the merged bin `j`, of `i` bins in `target_bins`.
  module _ (target_bins i j : ℕ) where
    abbrev pub num_merged_bins : Float
    num_merged_bins = f.div (f.of_int (pos i)) (f.of_int (pos target_bins))

    abbrev pub start : Float
    start = f.mul (f.of_int (pos j)) num_merged_bins

    abbrev pub end : Float
    end = f.mul (f.of_int (pos (j + 1))) num_merged_bins

    abbrev pub start_idx : ℕ
    start_idx = n.floor start

    abbrev pub end_idx : ℕ
    end_idx = n.ceil end

    -- The number of rounds of `for k in range(start_idx, min(end_idx, i))`
    abbrev pub span : ℕ
    span = min end_idx i - start_idx

    abbrev pub weight : ℕ → Float
    weight k =
        let w =
          if nat_beq k start_idx
          then f.sub one_float (f.sub start (f.of_int (pos start_idx)))
          else one_float in
        if nat_beq (k + 1) end_idx then f.sub w (f.sub (f.of_int (pos end_idx)) end) else w

    unfoldable pub quantized_bin : List Float → Float
    quantized_bin reference_dist =
        loop (λ k acc. f.add acc (f.mul (get_or reference_dist k zero_float) (weight k))) span
          start_idx zero_float

    -- How many of the merged bins hold something, and their share of it.
    unfoldable pub expand_bin : List Float → List Float → List Float
    unfolding quantized_bin
    expand_bin reference_dist q =
        let filled = λ (k : ℕ). f.ltb (f.of_int (pos 0)) (get_or reference_dist k zero_float) in
        let count =
          loop (λ k c. if filled k then f.add c one_float else c) span start_idx zero_float in
        if f.ltb (f.of_int (pos 0)) count
        then (let normalized_val = f.div (quantized_bin reference_dist) count in
            loop (λ k q. if filled k then set q k normalized_val else q) span start_idx q)
        else q

  -- The divergence of the distribution of `i` bins from its quantized form.
  unfoldable pub kl_div : List Float → ℕ → ℕ → Float
  unfolding expand_bin
  kl_div histogram target_bins i =
      let reference_dist = reference histogram i in
      let total = n.sum reference_dist in
      let p = map (λ x. clip tiny one_float (f.div x total)) reference_dist in
      let expanded =
        loop (λ j q. expand_bin target_bins i j reference_dist q) target_bins 0
          (replicate i zero_float) in
      let clipped = map (clip tiny one_float) expanded in
      let q_total = n.sum clipped in
      let q = map (λ x. f.div x q_total) clipped in
      n.sum (zip_with (λ a b. f.mul a (n.log (f.div a b))) p q)

  -- `(edges[i] + edges[i + 1]) / 2.0`; `none` is an `IndexError`.
  unfoldable pub midpoint : List Float → ℕ → Option Float
  midpoint edges i = elim (get_elem? edges i) [
    | none ↦ none
    | some a ↦ elim (get_elem? edges (i + 1)) [
      | none ↦ none
      | some b ↦ some (f.div (f.add a b) (f.lit (pos 20) 1))
    ]
  ]

  -- The scan over `n` thresholds from `i` on. No bins at all are an `IndexError`.
  unfoldable pub scan : (ℕ → Float) → List Float → ℕ → ℕ → Float → Float → Option Float
  unfolding midpoint
  scan kl edges zero i best_kl best_threshold = some best_threshold
  scan kl edges (suc n) zero best_kl best_threshold = none
  scan kl edges (suc n) (suc i) best_kl best_threshold = elim (midpoint edges (suc i)) [
    | none ↦
        if f.ltb (kl (suc i)) best_kl
        then none
        else scan kl edges n (suc i + 1) best_kl best_threshold
    | some t ↦
        if f.ltb (kl (suc i)) best_kl
        then scan kl edges n (suc i + 1) (kl (suc i)) t
        else scan kl edges n (suc i + 1) best_kl best_threshold
  ]

  -- `histogram[0] = 0`
  abbrev pub without_zero_bin : List Float → Option (List Float)
  without_zero_bin [] = none
  without_zero_bin (x ∷ xs) = some (f.of_int (pos 0) ∷ xs)

  unfoldable pub compute_kl_divergence_scale : List Float → List Float → ℕ → Option Float
  unfolding kl_div scan
  compute_kl_divergence_scale activation_histogram edges target_bins =
      elim (without_zero_bin activation_histogram) [
        | none ↦ none
        | some histogram ↦ elim (get_elem? edges (length edges - 1)) [
          | none ↦ none
          | some last ↦
              if f.eqb (n.sum histogram) (f.of_int (pos 0))
              then some last
              else scan (kl_div histogram target_bins) edges (length histogram - target_bins)
                  target_bins n.inf last
        ]
      ]
