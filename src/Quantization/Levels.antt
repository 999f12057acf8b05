-- ===== src/Quantization/Levels.antt =====
-- The integer types of the tensors, with their wrap-around, and `quantize_int8`.
use cudaforge.Prelude.{
  ℕ, zero, suc, ◌+◌, ◌-◌, ◌*◌, ◌/◌, ◌%◌, ◌^◌, Bool, List, map, ltb, if◌then◌else◌,
}
use cudaforge.Prelude.Int.{ℤ, pos, negsuc, sub_ℕ, ltb_ℤ}
use cudaforge.Prelude.Float.{FloatOps}

-- `.to(torch.uint8)` and `.to(torch.int8)` of an integer.
unfoldable pub to_uint8 : ℤ → ℕ
to_uint8 (pos n) = n % 2 ^ 8
to_uint8 (negsuc n) = 2 ^ 8 - 1 - n % 2 ^ 8

unfoldable pub to_int8 : ℤ → ℤ
unfolding to_uint8
to_int8 z = let u = to_uint8 z in if ltb u (2 ^ 7) then pos u else sub_ℕ u (2 ^ 8)

-- `torch.clamp(z, lo, hi)`
unfoldable pub clamp : ℤ → ℤ → ℤ → ℤ
clamp z lo hi = if ltb_ℤ z lo then lo else if ltb_ℤ hi z then hi else z

-- The bits of `a & b` and `a | b`, for numbers of `n` bits.
unfoldable pub land : ℕ → ℕ → ℕ → ℕ
land zero a b = 0
land (suc n) a b = (a % 2) * (b % 2) + 2 * land n (a / 2) (b / 2)

unfoldable pub lor : ℕ → ℕ → ℕ → ℕ
lor zero a b = 0
lor (suc n) a b = (a % 2 + b % 2 - (a % 2) * (b % 2)) + 2 * lor n (a / 2) (b / 2)

module _ (f : FloatOps) (round : f.Float → ℤ) where
  open f use {Float}

  -- `round` is `torch.round`, whose result is a whole number.
  unfoldable pub quantize_int8 : List Float → Float → Bool → List ℤ
  unfolding to_int8 to_uint8 clamp
  quantize_int8 tensor scale symmetric =
      if symmetric
      then map (λ w. to_int8 (clamp (round (f.div w scale)) (negsuc 127) (pos 127))) tensor
      else map (λ w. pos (to_uint8 (clamp (round (f.div w scale)) (pos 0) (pos 255)))) tensor

  unfoldable pub dequantize_int8 : List ℤ → Float → List Float
  dequantize_int8 qtensor scale = map (λ q. f.mul (f.of_int q) scale) qtensor
