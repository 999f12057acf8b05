-- ===== src/Quantization/Tests.antt =====
-- A small matrix, packed and unpacked.
use cudaforge.Prelude.{ℕ, ◌*◌, ◌/◌, ◌≡◌, ◌⊎◌, true, arith, refl, List, [], ◌∷◌, map, some}
use cudaforge.Prelude.Int.{ℤ, pos, negsuc, ◌+ℤ◌}
use cudaforge.Fixed.{fixed, fixed-FloatOrder}
use cudaforge.Quantization.Levels.{to_int8, to_uint8, land, lor}
use cudaforge.Quantization.Packing.{
  pack_row, pack_int4_gemm, unpack_int4_gemm, unsigned, low_nibble, high_nibble,
}
use cudaforge.Quantization.Divergence.{Numerics, kl_div, compute_kl_divergence_scale}
use cudaforge.Quantization.Threshold.{Found, compute_kl_divergence_scale_least}
use cudaforge.Quantization.RoundTrip.{AreByteRows, dequantized, unpack-pack_int4_gemm}

-- To the whole number below, in thousandths.
abbrev floor : ℤ → ℤ
floor (pos n) = pos (n / 1000)
floor (negsuc n) = negsuc (n / 1000)

abbrev weights : List (List ℤ)
weights =
    (pos 1500 ∷ negsuc 2999 ∷ pos 90000 ∷ negsuc 90000 ∷ [])
    ∷ (pos 0 ∷ pos 250 ∷ pos 500 ∷ pos 750 ∷ [])
    ∷ []

abbrev scales : List ℤ
scales = pos 1000 ∷ pos 250 ∷ []

bytes_of_levels : pack_row (pos 1 ∷ negsuc 2 ∷ pos 7 ∷ negsuc 7 ∷ []) ≡ 89 ∷ 15 ∷ []
unfolding pack_row unsigned low_nibble high_nibble lor land to_int8 to_uint8 ◌+ℤ◌
bytes_of_levels = refl

unpack-pack_int4_gemm_example :
    (bytes : List (List ℕ)) × (pack_int4_gemm fixed floor
        (λ s. s)
        (record { columns = 2 * 2; rows = weights })
        scales
      ≡ some (record { columns = 2; rows = bytes }, map (λ s. s) scales))
    × AreByteRows 2 bytes
    × (unpack_int4_gemm fixed floor (record { columns = 2; rows = bytes }) scales
        ≡ record { columns = 2 * 2; rows = dequantized fixed floor scales scales weights })
unpack-pack_int4_gemm_example =
    unpack-pack_int4_gemm fixed floor (λ s. s) 2 weights scales scales refl refl (refl, (refl, tt))

-- A logarithm that is the identity, and rounding that takes the whole part.
abbrev total : List ℤ → ℤ
total [] = pos 0
total (x ∷ xs) = fixed.add x (total xs)

abbrev whole : ℤ → ℕ
whole (pos m) = m / 1000
whole (negsuc m) = 0

abbrev numerics : Numerics fixed
numerics = record {
  sum = total;
  log = λ x. x;
  floor = whole;
  ceil = λ x. whole (x +ℤ pos 999);
  inf = pos 1000000000;
}

abbrev bins : List ℤ
bins = pos 2000 ∷ pos 1000 ∷ []

abbrev edges : List ℤ
edges = pos 0 ∷ pos 1000 ∷ pos 2000 ∷ pos 3000 ∷ []

compute_kl_divergence_scale_least_example :
    let histogram = fixed.of_int (pos 0) ∷ bins in
    (t : ℤ) × (compute_kl_divergence_scale fixed numerics (pos 5 ∷ bins) edges 1 ≡ some t)
    × (((fixed.eqb (total histogram) (fixed.of_int (pos 0)) ≡ true) × (t ≡ pos 3000))
        ⊎ ((best : ℤ) × Found numerics fixed-FloatOrder
              (kl_div fixed numerics histogram 1)
              edges
              1
              2
              (pos 1000000000)
              (pos 3000)
              best
              t))
compute_kl_divergence_scale_least_example =
    compute_kl_divergence_scale_least numerics fixed-FloatOrder (pos 5) (pos 3000) bins edges 1
      (omega arith) refl refl
