-- ===== src/Prelude/Float.antt =====
-- Floating point as a parameter: its operations, and the laws of its order that the proofs use.
use Prim.Native.Nat.{ℕ}
use mathlib.Core.Path.{◌≡◌}
use mathlib.Core.Logic.{◌⊎◌}
use mathlib.Core.Bool.{Bool, true, not}
use cudaforge.Prelude.Int.{ℤ}

-- `lit m d` is the literal with the digits `m`, of which `d` stand behind the point.
pub record FloatOps : Type 1 where
  pub Float : Type 0
  pub lit : ℤ → ℕ → Float
  pub of_int : ℤ → Float
  pub add : Float → Float → Float
  pub sub : Float → Float → Float
  pub mul : Float → Float → Float
  pub div : Float → Float → Float
  pub neg : Float → Float
  pub sqrt : Float → Float
  pub leb : Float → Float → Bool
  pub ltb : Float → Float → Bool
  pub eqb : Float → Float → Bool

-- The order on floats that are no NaN.
pub record FloatOrder (f : FloatOps) : Type 0 where
  pub leb_refl : (a : f.Float) → f.leb a a ≡ true
  pub leb_trans : (a b c : f.Float) → f.leb a b ≡ true → f.leb b c ≡ true → f.leb a c ≡ true
  pub leb_total : (a b : f.Float) → (f.leb a b ≡ true) ⊎ (f.leb b a ≡ true)
  pub ltb-leb : (a b : f.Float) → f.ltb a b ≡ not (f.leb b a)

-- Negation turns the order around.
pub record FloatNeg (f : FloatOps) : Type 0 where
  pub leb-neg : (a b : f.Float) → f.leb (f.neg a) (f.neg b) ≡ f.leb b a
  pub ltb-neg : (a b : f.Float) → f.ltb (f.neg a) (f.neg b) ≡ f.ltb b a
