-- ===== src/Quantization/Threshold.antt =====
-- Which threshold the scan over divergences returns.
use cudaforge.Prelude.{
  ℕ, zero, suc, ◌+◌, ◌-◌, ◌≤◌, ◌<◌, ◌≡◌, ◌⊎◌, inl, inr, refl, sym, ap, ◌∙◌, true, false, Bool-cases,
  List, ◌∷◌, length, get_elem?, get_of_lt, some, arith,
}
use native.Mathlib.Decide.{ℕ_discrete}
use mathlib.Core.Path.{subst}
use cudaforge.Prelude.Int.{pos}
use cudaforge.Prelude.Float.{FloatOps, FloatOrder}
use cudaforge.Quantization.Divergence.{
  Numerics, midpoint, scan, kl_div, compute_kl_divergence_scale,
}

module _ {f : FloatOps} (n : Numerics f) (order : FloatOrder f) (kl : ℕ → f.Float)
    (edges : List f.Float) where
  midpoint-some : (i : ℕ) → i + 1 < length edges → (t : f.Float) × (midpoint f n edges i ≡ some t)
  unfolding midpoint
  midpoint-some i lt =
      let (a, ea) = get_of_lt edges i (omega arith) in
      let (b, eb) = get_of_lt edges (i + 1) lt in
      (f.div (f.add a b) (f.lit (pos 20) 1), rw (midpoint, ea, eb) refl)

  less_le : (a b : f.Float) → f.ltb a b ≡ true → f.leb a b ≡ true
  less_le a b h = ground (arith, order.ltb-leb a b, order.leb_total a b)

  not_less : (a b : f.Float) → f.ltb a b ≡ false → f.leb b a ≡ true
  not_less a b h = ground (arith, order.ltb-leb a b)

  -- The least divergence so far, and its threshold.
  pub record Found (from count : ℕ) (best threshold best' threshold' : f.Float) : Type 0 where
    pub source :
        ((best' ≡ best) × (threshold' ≡ threshold))
        ⊎ ((i : ℕ) × (from ≤ i)
            × (i < from + count)
            × (best' ≡ kl i)
            × (midpoint f n edges i ≡ some threshold'))
    pub below : f.leb best' best ≡ true
    pub least : (i : ℕ) → from ≤ i → i < from + count → f.leb best' (kl i) ≡ true

  Found-taken :
      (i count : ℕ) (best threshold t b' t' : f.Float)
      → f.ltb (kl i) best ≡ true
      → midpoint f n edges i ≡ some t
      → Found (i + 1) count (kl i) t b' t'
      → Found i (suc count) best threshold b' t'
  Found-taken i count best threshold t b' t' on et found = record {
    source = elim found.source [
      | inl (be, te) ↦ inr (i, omega arith, omega arith, be, et ∙ ap some (sym te))
      | inr (k, lo, hi, be, te) ↦ inr (k, omega arith, omega arith, be, te)
    ];
    below = order.leb_trans b' (kl i) best found.below (less_le (kl i) best on);
    least = λ k lo hi. elim (ℕ_discrete k i) [
      | yes e ↦ subst (λ j. f.leb b' (kl j) ≡ true) (sym e) found.below
      | no ne ↦ found.least k (omega arith) (omega arith)
    ];
  }

  Found-passed :
      (i count : ℕ) (best threshold b' t' : f.Float)
      → f.ltb (kl i) best ≡ false
      → Found (i + 1) count best threshold b' t'
      → Found i (suc count) best threshold b' t'
  Found-passed i count best threshold b' t' off found = record {
    source = elim found.source [
      | inl same ↦ inl same
      | inr (k, lo, hi, be, te) ↦ inr (k, omega arith, omega arith, be, te)
    ];
    below = found.below;
    least = λ k lo hi. elim (ℕ_discrete k i) [
      | yes e ↦
          subst (λ j. f.leb b' (kl j) ≡ true) (sym e)
            (order.leb_trans b' best (kl i) found.below (not_less (kl i) best off))
      | no ne ↦ found.least k (omega arith) (omega arith)
    ];
  }

  scan_taken :
      (count i : ℕ) (best threshold t : f.Float)
      → midpoint f n edges (suc i) ≡ some t
      → f.ltb (kl (suc i)) best ≡ true
      → scan f n kl edges (suc count) (suc i) best threshold
        ≡ scan f n kl edges count (suc i + 1) (kl (suc i)) t
  unfolding scan
  scan_taken count i best threshold t et on = rw (scan, et, on) refl

  scan_passed :
      (count i : ℕ) (best threshold t : f.Float)
      → midpoint f n edges (suc i) ≡ some t
      → f.ltb (kl (suc i)) best ≡ false
      → scan f n kl edges (suc count) (suc i) best threshold
        ≡ scan f n kl edges count (suc i + 1) best threshold
  unfolding scan
  scan_passed count i best threshold t et off = rw (scan, et, off) refl

  scan-Found :
      (count i : ℕ) (best threshold : f.Float)
      → 1 ≤ i
      → (1 ≤ count → i + count < length edges)
      → (best' : f.Float) × (t : f.Float) × (scan f n kl edges count i best threshold ≡ some t)
        × Found i count best threshold best' t
  unfolding scan
  scan-Found zero i best threshold h inside = (
    best,
    threshold,
    refl,
    record {
      source = inl (refl, refl);
      below = ground (arith, order.leb_total best best);
      least = λ k lo hi. absurd (omega arith);
    },
  )
  scan-Found (suc count) zero best threshold h inside = absurd (omega arith)
  scan-Found (suc count) (suc i) best threshold h inside =
      let room = inside (omega arith) in
      let (t, et) = midpoint-some (suc i) (omega arith) in
      elim (Bool-cases (f.ltb (kl (suc i)) best)) [
        | inl on ↦
            let (b', t', e, found) =
              scan-Found count (suc i + 1) (kl (suc i)) t (omega arith) (λ more. omega arith) in
            (
              b',
              t',
              scan_taken count i best threshold t et on ∙ e,
              Found-taken (suc i) count best threshold t b' t' on et found,
            )
        | inr off ↦
            let (b', t', e, found) =
              scan-Found count (suc i + 1) best threshold (omega arith) (λ more. omega arith) in
            (
              b',
              t',
              scan_passed count i best threshold t et off ∙ e,
              Found-passed (suc i) count best threshold b' t' off found,
            )
      ]

module _ {f : FloatOps} (n : Numerics f) (order : FloatOrder f) where
  -- For a histogram with one edge more than bins, and at least one target bin, the calibration returns
  -- a threshold. If the histogram without its first bin is empty, it is the last edge. Otherwise it is
  -- the last edge, or the middle of a bin that was tried with the divergence of that bin; and that
  -- divergence, infinity for the last edge, is not above that of any bin that was tried. This holds
  -- on floats that are no NaN.
  pub compute_kl_divergence_scale_least :
      (first last : f.Float) (bins edges : List f.Float) (target_bins : ℕ)
      → 1 ≤ target_bins
      → length edges ≡ length (first ∷ bins) + 1
      → get_elem? edges (length (first ∷ bins)) ≡ some last
      → let histogram = f.of_int (pos 0) ∷ bins in
        let kl = kl_div f n histogram target_bins in
        (t : f.Float) × (compute_kl_divergence_scale f n (first ∷ bins) edges target_bins ≡ some t)
        × (((f.eqb (n.sum histogram) (f.of_int (pos 0)) ≡ true) × (t ≡ last))
            ⊎ ((best : f.Float) × Found n order kl edges target_bins
                  (length (first ∷ bins) - target_bins)
                  n.inf
                  last
                  best
                  t))
  unfolding compute_kl_divergence_scale
  compute_kl_divergence_scale_least first last bins edges target_bins h size at_end =
      let histogram = f.of_int (pos 0) ∷ bins in
      let kl = kl_div f n histogram target_bins in
      let here : length edges - 1 ≡ length (first ∷ bins) = omega (arith, size) in
      let final : get_elem? edges (length edges - 1) ≡ some last = rw here at_end in
      elim (Bool-cases (f.eqb (n.sum histogram) (f.of_int (pos 0)))) [
        | inl on ↦ (last, rw (compute_kl_divergence_scale, final, on) refl, inl (on, refl))
        | inr off ↦
            let (best, t, e, found) =
              scan-Found n order kl edges (length (first ∷ bins) - target_bins) target_bins n.inf
                last h (λ more. omega (arith, size)) in
            (t, rw (compute_kl_divergence_scale, final, off) e, inr (best, found))
      ]
