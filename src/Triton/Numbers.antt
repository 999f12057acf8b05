-- ===== src/Triton/Numbers.antt =====
-- Exact arithmetic on whole numbers with a minus infinity, for runs of the kernels.
use cudaforge.Prelude.{
  ℕ, ◌+◌, ◌-◌, ◌*◌, ◌/◌, ◌≡◌, refl, Bool, true, false, Option, none, some, max, leb, ltb, nat_beq,
  arith,
}
use cudaforge.Prelude.Int.{ℤ, pos, negsuc}
use cudaforge.Prelude.Float.{FloatOps}
use cudaforge.Triton.Device.{DeviceMath, ExactMath}

-- Whole numbers, with `none` for minus infinity.
abbrev pub Number : Type 0
Number = Option ℕ

abbrev pub lift : (ℕ → ℕ → ℕ) → Number → Number → Number
lift g (some a) (some b) = some (g a b)
lift g (some a) none = none
lift g none b = none

abbrev pub test : (ℕ → ℕ → Bool) → Number → Number → Bool
test g (some a) (some b) = g a b
test g (some a) none = false
test g none b = true

abbrev pub from_int : ℤ → Number
from_int (pos n) = some n
from_int (negsuc n) = some 0

abbrev pub float_max : Number → Number → Number
float_max none b = b
float_max (some a) none = some a
float_max (some a) (some b) = some (max a b)

-- The constant function, as an exponential: zero at minus infinity.
abbrev pub flat_exp : Number → Number
flat_exp none = some 0
flat_exp (some a) = some 1

abbrev pub numbers : FloatOps
numbers = record {
  Float = Number;
  lit = λ m d. from_int m;
  of_int = from_int;
  add = lift (λ a b. a + b);
  sub = lift (λ a b. a - b);
  mul = lift (λ a b. a * b);
  div = lift (λ a b. a / b);
  neg = λ a. a;
  sqrt = λ a. a;
  leb = test leb;
  ltb = test ltb;
  eqb = test nat_beq;
}

abbrev pub device : DeviceMath numbers
device = record { exp = flat_exp; maximum = float_max; neg_inf = none; half = λ a. a }

abbrev pub Known : Number → Type 0
Known none = ⊥
Known (some a) = Unit

lift-Known : (g : ℕ → ℕ → ℕ) (a b : Number) → Known a → Known b → Known (lift g a b)
lift-Known g (some a) (some b) p q = tt
lift-Known g (some a) none p q = q
lift-Known g none b p q = p

add_assoc_numbers :
    (a b c : Number) → numbers.add (numbers.add a b) c ≡ numbers.add a (numbers.add b c)
add_assoc_numbers none b c = refl
add_assoc_numbers (some a) none c = refl
add_assoc_numbers (some a) (some b) none = refl
add_assoc_numbers (some a) (some b) (some c) =
    let e : a + b + c ≡ a + (b + c) = omega arith in rw e refl

add-mul_numbers :
    (a b c : Number)
    → Known c
    → numbers.mul (numbers.add a b) c ≡ numbers.add (numbers.mul a c) (numbers.mul b c)
add-mul_numbers none b (some c) p = refl
add-mul_numbers (some a) none (some c) p = refl
add-mul_numbers (some a) (some b) (some c) p =
    let e : (a + b) * c ≡ a * c + b * c = omega arith in rw e refl
add-mul_numbers a b none p = absurd p

mul_swap_numbers :
    (a b c : Number) → numbers.mul (numbers.mul a b) c ≡ numbers.mul (numbers.mul a c) b
mul_swap_numbers none b c = refl
mul_swap_numbers (some a) none none = refl
mul_swap_numbers (some a) none (some c) = refl
mul_swap_numbers (some a) (some b) none = refl
mul_swap_numbers (some a) (some b) (some c) =
    let e : a * b * c ≡ a * c * b = omega arith in rw e refl

max_assoc_numbers : (a b c : Number) → float_max (float_max a b) c ≡ float_max a (float_max b c)
max_assoc_numbers none b c = refl
max_assoc_numbers (some a) none c = refl
max_assoc_numbers (some a) (some b) none = refl
max_assoc_numbers (some a) (some b) (some c) =
    let e : max (max a b) c ≡ max a (max b c) = ground arith in rw e refl

exp_chain_numbers :
    (a b c : Number)
    → Known b
    → Known c
    → numbers.mul (flat_exp (numbers.sub a b)) (flat_exp (numbers.sub b c))
      ≡ flat_exp (numbers.sub a c)
exp_chain_numbers none (some b) (some c) p q = refl
exp_chain_numbers (some a) (some b) (some c) p q = refl
exp_chain_numbers a none c p q = absurd p
exp_chain_numbers a (some b) none p q = absurd q

zero-add_numbers : (a : Number) → numbers.add (some 0) a ≡ a
zero-add_numbers none = refl
zero-add_numbers (some a) = let e : 0 + a ≡ a = omega arith in rw e refl

add-zero_numbers : (a : Number) → numbers.add a (some 0) ≡ a
add-zero_numbers none = refl
add-zero_numbers (some a) = let e : a + 0 ≡ a = omega arith in rw e refl

zero-mul_numbers : (a : Number) → Known a → numbers.mul (some 0) a ≡ some 0
zero-mul_numbers none p = absurd p
zero-mul_numbers (some a) p = let e : 0 * a ≡ 0 = omega arith in rw e refl

max-neg_inf_numbers : (a : Number) → float_max a none ≡ a
max-neg_inf_numbers none = refl
max-neg_inf_numbers (some a) = refl

max_finite_numbers : (a b : Number) → Known a → Known (float_max a b)
max_finite_numbers none b p = absurd p
max_finite_numbers (some a) none p = p
max_finite_numbers (some a) (some b) p = p

exp_finite_numbers : (a b : Number) → Known b → Known (flat_exp (numbers.sub a b))
exp_finite_numbers none b p = tt
exp_finite_numbers (some a) none p = absurd p
exp_finite_numbers (some a) (some b) p = tt

pub exact_numbers : ExactMath numbers device
exact_numbers = record {
  IsFinite = Known;
  zero_finite = tt;
  add_finite = lift-Known (λ a b. a + b);
  mul_finite = lift-Known (λ a b. a * b);
  half_exact = λ a. refl;
  add_assoc = add_assoc_numbers;
  zero-add = zero-add_numbers;
  add-zero = add-zero_numbers;
  add-mul = add-mul_numbers;
  zero-mul = zero-mul_numbers;
  mul_swap = mul_swap_numbers;
  max_assoc = max_assoc_numbers;
  neg_inf-max = λ a. refl;
  max-neg_inf = max-neg_inf_numbers;
  max_finite = max_finite_numbers;
  exp-neg_inf = λ a p. refl;
  exp_finite = exp_finite_numbers;
  exp_chain = exp_chain_numbers;
}

pub some-IsFinite : (n : ℕ) → exact_numbers.IsFinite (some n)
unfolding exact_numbers
some-IsFinite n = tt
