-- ===== src/Triton/Attention.antt =====
-- The attention kernel computes the softmax of whole rows.
use cudaforge.Prelude.{
  if_true, if_false, ℕ, suc, ◌+◌, ◌-◌, ◌*◌, ◌≤◌, ◌<◌, ◌≡◌, ◌⊎◌, inl, inr, refl, sym, ap, ◌∙◌, true,
  false, map, min, ltb, leb, if◌then◌else◌, Bool-cases, arith,
}
use mathlib.Core.Path.{subst}
use cudaforge.Prelude.Float.{FloatOps}
use cudaforge.Triton.Device.{DeviceMath, ExactMath, cdiv, zero_float, sum, range, load}
use cudaforge.Triton.OnlineSoftmax.{
  map-range_congr, top, denominator, numerator, softmax_mean, sum_finite, softmax_mean_dropped,
  softmax_mean_congr,
}
use cudaforge.Triton.FlashAttn.{
  Attention, offset, block, qk_dot, qk_at, tiles, fresh_row, end_n, row_out,
}
use cudaforge.Triton.Tiles.{tiles-HasSeen_all}

module _ {f : FloatOps} {math : DeviceMath f} (a : Attention f math) (z h : ℕ) where
  -- The keys and values, with zeros in the rows from `n_ctx` on.
  abbrev pub key : ℕ → ℕ → f.Float
  key n d = if ltb n a.n_ctx then a.K (offset a.stride_k z h n d) else zero_float f

  abbrev pub val : ℕ → ℕ → f.Float
  val d n = if ltb n a.n_ctx then a.V (offset a.stride_v z h n d) else zero_float f

module _ {f : FloatOps} {math : DeviceMath f} (a : Attention f math) (z h m : ℕ) where
  -- The score of row `m` at column `n`: the scaled dot product of query and key.
  abbrev pub score : ℕ → f.Float
  score n = sum f (
      map (λ d. f.mul (f.mul (a.Q (offset a.stride_q z h m d)) a.sm_scale) (key a z h n d))
        (range 0 a.d_head))

  -- The columns that the row sees: up to its own place under the causal mask, and otherwise all of
  -- them, up to the end of the last tile.
  abbrev pub columns : ℕ
  columns = if a.is_causal then suc m else cdiv a.n_ctx block * block

  -- The attention of the row, in dimension `d`.
  abbrev pub attention : ℕ → f.Float
  attention d = softmax_mean f math score (val a z h d) (range 0 columns)

-- All entries of the three inputs are numbers, and so is the scale.
pub record IsNumeric {f : FloatOps} {math : DeviceMath f} (x : ExactMath f math)
    (a : Attention f math) : Type 0 where
  pub q : (i : ℕ) → x.IsFinite (a.Q i)
  pub k : (i : ℕ) → x.IsFinite (a.K i)
  pub v : (i : ℕ) → x.IsFinite (a.V i)
  pub scale : x.IsFinite a.sm_scale

module _ {f : FloatOps} {math : DeviceMath f} (x : ExactMath f math) (a : Attention f math)
    (numeric : IsNumeric x a) (z h : ℕ) where
  key_finite : (n d : ℕ) → x.IsFinite (key a z h n d)
  key_finite n d = elim (Bool-cases (ltb n a.n_ctx)) [
    | inl e ↦ rw e (numeric.k (offset a.stride_k z h n d))
    | inr e ↦ rw e x.zero_finite
  ]

  val_finite : (d n : ℕ) → x.IsFinite (val a z h d n)
  val_finite d n = elim (Bool-cases (ltb n a.n_ctx)) [
    | inl e ↦ rw e (numeric.v (offset a.stride_v z h n d))
    | inr e ↦ rw e x.zero_finite
  ]

cdiv_bound : (n m : ℕ) → m < n → suc m ≤ cdiv n block * block
cdiv_bound n m lt = omega arith

min_bound : (m b c : ℕ) → m < b → m < c → m < min b c
min_bound m b c lt lt' = ground arith

module _ {f : FloatOps} {math : DeviceMath f} (x : ExactMath f math) where
  max_first :
      (score : ℕ → f.Float) (m : ℕ)
      → x.IsFinite (score 0)
      → x.IsFinite (top f math score (range 0 (suc m)))
  max_first score m known = x.max_finite (score 0) (top f math score (range (0 + 1) m)) known

module _ {f : FloatOps} {math : DeviceMath f} (x : ExactMath f math) (a : Attention f math)
    (numeric : IsNumeric x a) (z h m : ℕ) (inside : m < a.n_ctx) where
  qk_dot-score : (n : ℕ) → qk_dot f math a z h m n ≡ score a z h m n
  unfolding qk_dot
  qk_dot-score n = ap (sum f) (
      map-range_congr _ _ 0 a.d_head (λ d lo hi.
        let here : ltb m a.n_ctx ≡ true = ground arith in
        rw
          (
            x.half_exact (
                f.mul (load a.Q (ltb m a.n_ctx) (offset a.stride_q z h m d) (zero_float f))
                  a.sm_scale),
            here,
          )
          refl))

  score_finite : (n : ℕ) → x.IsFinite (score a z h m n)
  score_finite n = sum_finite x _ (range 0 a.d_head) (λ d.
      x.mul_finite _ _ (x.mul_finite _ _ (numeric.q (offset a.stride_q z h m d)) numeric.scale)
        (key_finite x a numeric z h n d))

  qk_at-score : (n : ℕ) → (a.is_causal ≡ false) ⊎ (n ≤ m) → qk_at f math a z h m n ≡ score a z h m n
  unfolding qk_at
  qk_at-score n (inl e) = if_false e _ _ ∙ qk_dot-score n
  qk_at-score n (inr le) =
      let seen : leb n m ≡ true = ground arith in
      elim (Bool-cases a.is_causal) [
        | inl e ↦ if_true e _ _ ∙ if_true seen _ _ ∙ qk_dot-score n
        | inr e ↦ if_false e _ _ ∙ qk_dot-score n
      ]

  qk_at-hidden : (n : ℕ) → a.is_causal ≡ true → suc m ≤ n → qk_at f math a z h m n ≡ math.neg_inf
  unfolding qk_at
  qk_at-hidden n e lt =
      let hidden : leb n m ≡ false = ground arith in if_true e _ _ ∙ if_false hidden _ _

  qk_at_first : x.IsFinite (qk_at f math a z h m 0)
  qk_at_first = subst x.IsFinite (sym (qk_at-score 0 (inr (omega arith)))) (score_finite 0)

  -- The mean over all tiles is the attention of the row.
  visible :
      (d n : ℕ)
      → suc m ≤ n
      → (a.is_causal ≡ false → n ≡ cdiv a.n_ctx block * block)
      → softmax_mean f math (qk_at f math a z h m) (val a z h d) (range 0 n) ≡ attention a z h m d
  visible d n le size = elim (Bool-cases a.is_causal) [
    | inr e ↦
        softmax_mean_congr f math (qk_at f math a z h m) (score a z h m) (val a z h d) n
          (λ i lt. qk_at-score i (inl e))
        ∙ ap (λ c. softmax_mean f math (score a z h m) (val a z h d) (range 0 c))
            (size e ∙ sym (if_false e _ _))
    | inl e ↦
        let first = max_first x (qk_at f math a z h m) m qk_at_first in
        let all : suc m + (n - suc m) ≡ n = omega arith in
        ap (λ c. softmax_mean f math (qk_at f math a z h m) (val a z h d) (range 0 c)) (sym all)
        ∙ softmax_mean_dropped x (qk_at f math a z h m) (val a z h d) (suc m) (n - suc m)
            (λ i lo. qk_at-hidden i e lo) (val_finite x a numeric z h d) first
        ∙ softmax_mean_congr f math (qk_at f math a z h m) (score a z h m) (val a z h d) (suc m)
            (λ i lt. qk_at-score i (inr (omega arith)))
        ∙ ap (λ c. softmax_mean f math (score a z h m) (val a z h d) (range 0 c))
            (sym (if_true e _ _))
  ]

  end_n_bound : (start_m : ℕ) → m < start_m * block + block → m < end_n f math a z h m start_m
  end_n_bound start_m hi =
      let below : m < (start_m + 1) * block = omega arith in
      elim (Bool-cases a.is_causal) [
        | inl e ↦
            subst (λ b. m < b) (sym (if_true e _ _))
              (min_bound m a.n_ctx ((start_m + 1) * block) inside below)
        | inr e ↦ subst (λ b. m < b) (sym (if_false e _ _)) inside
      ]

  -- The quotient after all tiles.
  tiles-attention :
      (n d : ℕ)
      → suc m ≤ suc n * block
      → (a.is_causal ≡ false → suc n * block ≡ cdiv a.n_ctx block * block)
      → (let r = tiles f math a z h m (suc n) 0 (fresh_row f math a z h m) in f.div (r.acc d) r.l_i)
        ≡ attention a z h m d
  tiles-attention n d le size =
      let seen = tiles-HasSeen_all x a z h m n qk_at_first in
      let r = tiles f math a z h m (suc n) 0 (fresh_row f math a z h m) in
      let ns = range 0 (suc n * block) in
      let weights = denominator f math (qk_at f math a z h m) in
      let sums = numerator f math (qk_at f math a z h m) (val a z h d) in
      ap (λ b. f.div b r.l_i) (seen.sums d)
      ∙ ap (f.div (sums r.m_i ns)) seen.weights
      ∙ ap (λ b. f.div (sums b ns) (weights b ns)) seen.maximum
      ∙ visible d (suc n * block) le size

  -- What one program computes for the row.
  pub row_out-attention :
      (start_m d : ℕ)
      → start_m * block ≤ m
      → m < start_m * block + block
      → row_out f math a z h m start_m d ≡ attention a z h m d
  unfolding row_out
  row_out-attention start_m d lo hi =
      let t = cdiv (end_n f math a z h m start_m) block - 1 in
      let inside_end = end_n_bound start_m hi in
      let rounded = cdiv_bound (end_n f math a z h m start_m) m inside_end in
      let count : cdiv (end_n f math a z h m start_m) block ≡ suc t = omega arith in
      let covers : suc m ≤ suc t * block = subst (λ b. suc m ≤ b * block) count rounded in
      let size : a.is_causal ≡ false → suc t * block ≡ cdiv a.n_ctx block * block =
        λ e. ap (λ b. b * block) (sym count) ∙ ap (λ b. cdiv b block * block) (if_false e _ _) in
      x.half_exact _
      ∙ ap
          (λ b.
            let r = tiles f math a z h m b 0 (fresh_row f math a z h m) in f.div (r.acc d) r.l_i)
          count
      ∙ tiles-attention t d covers size
