-- ===== src/Fixed.antt =====
-- Fixed-point numbers in thousandths: a concrete instance of the floats' operations and order, at
-- which theorems over any floats can be tried.
use cudaforge.Prelude.{ℕ, ◌*◌, ◌/◌, ◌+◌, ◌^◌, ◌≡◌, ◌⊎◌, Bool, true, false, arith}
use cudaforge.Prelude.Int.{
  ℤ, pos, negsuc, pos_part, neg_part, sub_ℕ, ◌+ℤ◌, ◌-ℤ◌, leb_ℤ, ltb_ℤ, int_beq,
}
use cudaforge.Prelude.Float.{FloatOps, FloatOrder, FloatNeg}

abbrev magnitude : ℤ → ℕ
magnitude a = pos_part a + neg_part a

abbrev is_negative : ℤ → Bool
is_negative (pos n) = false
is_negative (negsuc n) = true

-- A number with the sign of a product or quotient of `a` and `b`.
abbrev signed : ℤ → ℤ → ℕ → ℤ
signed (pos a) (pos b) n = pos n
signed (negsuc a) (negsuc b) n = pos n
signed _ _ n = sub_ℕ 0 n

abbrev pub fixed : FloatOps
fixed = record {
  Float = ℤ;
  lit = λ m d. signed m (pos 1) (magnitude m * 1000 / 10 ^ d);
  of_int = λ m. signed m (pos 1) (magnitude m * 1000);
  add = ◌+ℤ◌;
  sub = ◌-ℤ◌;
  mul = λ a b. signed a b (magnitude a * magnitude b / 1000);
  div = λ a b. signed a b (magnitude a * 1000 / magnitude b);
  neg = λ a. sub_ℕ (neg_part a) (pos_part a);
  sqrt = λ a. a;
  leb = leb_ℤ;
  ltb = ltb_ℤ;
  eqb = int_beq;
}

leb_ℤ_trans : (a b c : ℤ) → leb_ℤ a b ≡ true → leb_ℤ b c ≡ true → leb_ℤ a c ≡ true
leb_ℤ_trans a b c p q = ground arith

leb_ℤ_total : (a b : ℤ) → (leb_ℤ a b ≡ true) ⊎ (leb_ℤ b a ≡ true)
leb_ℤ_total a b = ground arith

pub fixed-FloatOrder : FloatOrder fixed
fixed-FloatOrder = record {
  leb_refl = λ a. ground arith;
  leb_trans = leb_ℤ_trans;
  leb_total = leb_ℤ_total;
  ltb-leb = λ a b. ground arith;
}

pub fixed-FloatNeg : FloatNeg fixed
fixed-FloatNeg = record { leb-neg = λ a b. ground arith; ltb-neg = λ a b. ground arith }
