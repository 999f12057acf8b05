-- ===== src/Triton/Device.antt =====
-- What the kernels use of Triton's language: memory, masked loads, stores, blocks and reductions.
use cudaforge.Prelude.{
  ℕ, zero, suc, ◌+◌, ◌-◌, ◌/◌, ◌≡◌, Bool, List, [], ◌∷◌, ◌++◌, nat_beq, if◌then◌else◌,
}
use cudaforge.Prelude.Int.{pos}
use cudaforge.Prelude.Float.{FloatOps}

-- `triton.cdiv`
abbrev pub cdiv : ℕ → ℕ → ℕ
cdiv n b = (n + b - 1) / b

-- `start + tl.arange(0, n)`
abbrev pub range : ℕ → ℕ → List ℕ
range start zero = []
range start (suc n) = start ∷ range (start + 1) n

-- `for i in range(n)`, or the programs of one axis of a grid, with what each of them does.
abbrev pub each {ℓ} : {A : Type ℓ} → ℕ → (ℕ → List A) → List A
each zero body = []
each (suc n) body = each n body ++ body n

module _ {ℓ} {A : Type ℓ} where
  -- The memory that a pointer argument points to, by the offset of the element.
  abbrev pub load : (ℕ → A) → Bool → ℕ → A → A
  load mem mask offset other = if mask then mem offset else other

  abbrev pub store : Bool → ℕ → A → List (ℕ × A)
  store mask offset v = if mask then (offset, v) ∷ [] else []

  -- The memory after these stores, in this order.
  abbrev pub after : List (ℕ × A) → (ℕ → A) → ℕ → A
  after [] mem = mem
  after ((a, v) ∷ stores) mem = after stores (λ b. if nat_beq a b then v else mem b)

-- Arithmetic on the device beside the floats' own: `half` is `.to(tl.float16)`.
pub record DeviceMath (f : FloatOps) : Type 0 where
  pub exp : f.Float → f.Float
  pub maximum : f.Float → f.Float → f.Float
  pub neg_inf : f.Float
  pub half : f.Float → f.Float

module _ (f : FloatOps) where
  abbrev pub zero_float : f.Float
  zero_float = f.lit (pos 0) 1

  -- `tl.sum` over one axis, and the sums of `tl.dot`
  abbrev pub sum : List f.Float → f.Float
  sum [] = zero_float
  sum (x ∷ xs) = f.add x (sum xs)

  -- `tl.max` over one axis
  abbrev pub max_of : DeviceMath f → List f.Float → f.Float
  max_of d [] = d.neg_inf
  max_of d (x ∷ xs) = d.maximum x (max_of d xs)

-- Arithmetic without rounding, on floats that are no NaN and not plus infinity. `IsFinite` excludes
-- minus infinity.
pub record ExactMath (f : FloatOps) (d : DeviceMath f) : Type 1 where
  pub IsFinite : f.Float → Type 0
  pub zero_finite : IsFinite (zero_float f)
  pub add_finite : (a b : f.Float) → IsFinite a → IsFinite b → IsFinite (f.add a b)
  pub mul_finite : (a b : f.Float) → IsFinite a → IsFinite b → IsFinite (f.mul a b)
  pub half_exact : (a : f.Float) → d.half a ≡ a
  pub add_assoc : (a b c : f.Float) → f.add (f.add a b) c ≡ f.add a (f.add b c)
  pub zero-add : (a : f.Float) → f.add (zero_float f) a ≡ a
  pub add-zero : (a : f.Float) → f.add a (zero_float f) ≡ a
  pub add-mul : (a b c : f.Float) → IsFinite c → f.mul (f.add a b) c ≡ f.add (f.mul a c) (f.mul b c)
  pub zero-mul : (a : f.Float) → IsFinite a → f.mul (zero_float f) a ≡ zero_float f
  pub mul_swap : (a b c : f.Float) → f.mul (f.mul a b) c ≡ f.mul (f.mul a c) b
  pub max_assoc : (a b c : f.Float) → d.maximum (d.maximum a b) c ≡ d.maximum a (d.maximum b c)
  pub neg_inf-max : (a : f.Float) → d.maximum d.neg_inf a ≡ a
  pub max-neg_inf : (a : f.Float) → d.maximum a d.neg_inf ≡ a
  pub max_finite : (a b : f.Float) → IsFinite a → IsFinite (d.maximum a b)
  pub exp-neg_inf : (a : f.Float) → IsFinite a → d.exp (f.sub d.neg_inf a) ≡ zero_float f
  pub exp_finite : (a b : f.Float) → IsFinite b → IsFinite (d.exp (f.sub a b))
  pub exp_chain :
      (a b c : f.Float)
      → IsFinite b
      → IsFinite c
      → f.mul (d.exp (f.sub a b)) (d.exp (f.sub b c)) ≡ d.exp (f.sub a c)
