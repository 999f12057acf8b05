-- ===== src/Triton/Dequant.antt =====
-- The INT4 kernel multiplies with the weights that the packed words stand for.
use cudaforge.Prelude.{
  if_true, if_false, ltb_true, ltb_false, ℕ, zero, suc, ◌+◌, ◌-◌, ◌*◌, ◌/◌, ◌%◌, ◌^◌, ◌≤◌, ◌<◌, ◌≡◌,
  refl, sym, ap, ◌∙◌, Bool, true, false, ◌&&◌, ◌++◌, map, arith,
}
use mathlib.Core.Path.{subst, ap₂}
use native.Mathlib.Nat.{div-div-eq-div-mul}
use cudaforge.Prelude.Int.{pos}
use cudaforge.Prelude.Float.{FloatOps}
use cudaforge.Triton.Device.{DeviceMath, ExactMath, cdiv, range, zero_float, sum}
use cudaforge.Triton.OnlineSoftmax.{map-range_congr, range-add, sum-map-append, sum-zeros}
use cudaforge.Triton.Int4Gemm.{Gemm, block, a_at, b_at, b_int4, dot, acc}
use cudaforge.Triton.Nibbles.{bits, b_int4_lem}

module _ {f : FloatOps} {math : DeviceMath f} (g : Gemm f math) where
  -- The four bits at the place of each weight in its word are that weight.
  abbrev pub IsPacked : (ℕ → ℕ → ℕ) → Type 0
  IsPacked w =
      (k n : ℕ)
      → k < g.K
      → n < g.N
      → bits (g.b_quant (k / 8 * g.stride_bk + n * g.stride_bn)) / 16 ^ (k % 8) % 16 ≡ w k n

  -- Different entries of the output stand at different offsets.
  abbrev pub IsApart : Type 0
  IsApart =
      (m n m' n' : ℕ)
      → (m < g.M) × (n < g.N)
      → (m' < g.M) × (n' < g.N)
      → m * g.stride_cm + n * g.stride_cn ≡ m' * g.stride_cm + n' * g.stride_cn
      → (m ≡ m') × (n ≡ n')

  -- One product of the sum: an activation, a weight and the scale of the weight's group.
  abbrev pub term : (ℕ → ℕ → ℕ) → ℕ → ℕ → ℕ → f.Float
  term w m n i =
      f.mul (g.A (m * g.stride_am + i * g.stride_ak)) (
        f.mul (f.of_int (pos (w i n)))
          (g.scales (i / g.group_size * g.stride_sm + n * g.stride_sn)))

  abbrev pub product : (ℕ → ℕ → ℕ) → ℕ → ℕ → f.Float
  product w m n = sum f (map (term w m n) (range 0 g.K))

-- Scales and small whole numbers are numbers.
pub record IsNumericGemm {f : FloatOps} {math : DeviceMath f} (x : ExactMath f math)
    (g : Gemm f math) : Type 0 where
  pub scale : (i : ℕ) → x.IsFinite (g.scales i)
  pub weight : (n : ℕ) → x.IsFinite (f.of_int (pos n))

block_of : (k i : ℕ) → k * block ≤ i → i < k * block + block → k ≡ i / block
block_of k i lo hi = omega arith

pub and_true : (a b : Bool) → a ≡ true → b ≡ true → (a && b) ≡ true
and_true a b p q = rw (p, q) refl

and_false : (a b : Bool) → b ≡ false → (a && b) ≡ false
and_false true b q = q
and_false false b q = refl

-- All rows of a block are in the group of its first row.
group_of : (i c : ℕ) → i / block * block / (block * suc c) ≡ i / (block * suc c)
group_of i c =
    let same : i / block * block / block ≡ i / block = omega arith in
    sym (div-div-eq-div-mul (i / block * block) block (suc c))
    ∙ ap (λ b. b / suc c) same
    ∙ div-div-eq-div-mul i block (suc c)

module _ {f : FloatOps} {math : DeviceMath f} (x : ExactMath f math) (g : Gemm f math)
    (w : ℕ → ℕ → ℕ) (packed : IsPacked g w) (numeric : IsNumericGemm x g) (c : ℕ)
    (grouped : g.group_size ≡ block * suc c) (m n : ℕ) (m_lt : m < g.M) (n_lt : n < g.N) where
  abbrev loaded : ℕ → f.Float
  loaded i = f.mul (a_at f math g m n i) (b_at f math g m n (i / block) i)

  b_at_lem :
      (i : ℕ)
      → i < g.K
      → b_at f math g m n (i / block) i
        ≡ f.mul
            (f.of_int (pos (w i n)))
            (g.scales (i / g.group_size * g.stride_sm + n * g.stride_sn))
  unfolding b_at
  b_at_lem i lt =
      x.half_exact _
      ∙ ap₂ (λ b s. f.mul (f.of_int (pos b)) s)
          (ap (λ b. b_int4 b i)
              (if_true (and_true _ _ (ltb_true i g.K lt) (ltb_true n g.N n_lt)) _ _)
            ∙ b_int4_lem _ i
            ∙ packed i n lt n_lt)
          (if_true (ltb_true n g.N n_lt) _ _
            ∙ ap (λ b. g.scales (b * g.stride_sm + n * g.stride_sn))
                (ap (λ b. i / block * block / b) grouped
                  ∙ group_of i c
                  ∙ sym (ap (λ b. i / b) grouped)))

  loaded_inside : (i : ℕ) → i < g.K → loaded i ≡ term g w m n i
  loaded_inside i lt =
      ap₂ f.mul (if_true (and_true _ _ (ltb_true m g.M m_lt) (ltb_true i g.K lt)) _ _)
        (b_at_lem i lt)

  loaded_outside : (i : ℕ) → g.K ≤ i → loaded i ≡ zero_float f
  unfolding b_at
  loaded_outside i le =
      ap (λ b. f.mul b (b_at f math g m n (i / block) i))
        (if_false (and_false _ _ (ltb_false i g.K le)) _ _)
      ∙ x.zero-mul _ (
          subst x.IsFinite (sym (x.half_exact _)) (
            x.mul_finite _ _ (numeric.weight _)
              (subst x.IsFinite (sym (if_true (ltb_true n g.N n_lt) _ _)) (numeric.scale _))))

  acc-sum : (t : ℕ) → acc f math g m n t ≡ sum f (map loaded (range 0 (t * block)))
  unfolding acc dot
  acc-sum zero = refl
  acc-sum (suc t) =
      let size : suc t * block ≡ t * block + block = omega arith in
      let here : 0 + t * block ≡ t * block = omega arith in
      ap₂ f.add (acc-sum t) (
        ap (sum f) (
          map-range_congr _ _ (t * block) block (λ i lo hi.
            ap (λ k. f.mul (a_at f math g m n i) (b_at f math g m n k i)) (block_of t i lo hi))))
      ∙ sym (
          ap (λ k. sum f (map loaded (range 0 k))) size
          ∙ ap (λ ns. sum f (map loaded ns))
              (range-add 0 (t * block) block ∙ ap (λ k. range 0 (t * block) ++ range k block) here)
          ∙ sum-map-append x loaded (range 0 (t * block)) (range (t * block) block))

  -- The accumulator at the end of the loop.
  pub acc-product : acc f math g m n (cdiv g.K block) ≡ product g w m n
  acc-product =
      let rest = cdiv g.K block * block - g.K in
      let size : cdiv g.K block * block ≡ g.K + rest = omega arith in
      acc-sum (cdiv g.K block)
      ∙ ap (λ k. sum f (map loaded (range 0 k))) size
      ∙ ap (λ ns. sum f (map loaded ns)) (range-add 0 g.K rest)
      ∙ sum-map-append x loaded (range 0 g.K) (range (0 + g.K) rest)
      ∙ ap₂ f.add
          (ap (sum f) (
            map-range_congr loaded (term g w m n) 0 g.K (λ i lo hi. loaded_inside i (omega arith))))
          (sum-zeros x loaded (0 + g.K) rest (λ i lo. loaded_outside i (omega arith)))
      ∙ x.add-zero _
