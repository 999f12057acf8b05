-- ===== src/Quantization/Packing.antt =====
-- `Quantizer.pack_int4_gemm` and `Quantizer.unpack_int4_gemm`: two signed 4-bit levels in a byte.
use cudaforge.Prelude.{
  ℕ, ◌*◌, ◌/◌, ◌%◌, ◌^◌, List, [], ◌∷◌, map, nat_beq, Option, none, some, if◌then◌else◌,
}
use cudaforge.Prelude.Int.{ℤ, pos, negsuc, ◌+ℤ◌, ◌-ℤ◌}
use cudaforge.Prelude.Float.{FloatOps}
use cudaforge.Quantization.Levels.{to_uint8, to_int8, clamp, land, lor}

-- A tensor of two dimensions.
pub record Matrix {ℓ} (A : Type ℓ) : Type ℓ where
  pub columns : ℕ
  pub rows : List (List A)

-- `x[:, 0::2]` and `x[:, 1::2]` of a row, and the assignment to both.
module _ {ℓ} {A : Type ℓ} where
  abbrev pub evens : List A → List A
  evens [] = []
  evens (x ∷ []) = x ∷ []
  evens (x ∷ y ∷ xs) = x ∷ evens xs

  abbrev pub odds : List A → List A
  odds [] = []
  odds (x ∷ []) = []
  odds (x ∷ y ∷ xs) = y ∷ odds xs

  abbrev pub interleave : List A → List A → List A
  interleave (x ∷ xs) (y ∷ ys) = x ∷ y ∷ interleave xs ys
  interleave _ _ = []

abbrev pub zip_with : {A B C : Type 0} → (A → B → C) → List A → List B → List C
zip_with g (a ∷ as') (b ∷ bs) = g a b ∷ zip_with g as' bs
zip_with g _ _ = []

-- `q_u4`: the level as an unsigned number.
unfoldable pub unsigned : ℤ → ℕ
unsigned q = to_uint8 (to_int8 (q +ℤ pos 8))

unfoldable pub low_nibble : ℕ → ℕ
low_nibble u = land 8 u 15

unfoldable pub high_nibble : ℕ → ℕ
high_nibble u = land 8 u 15 * 2 ^ 4 % 2 ^ 8

unfoldable pub pack_row : List ℤ → List ℕ
unfolding unsigned low_nibble high_nibble
pack_row q_weight =
    let q_u4 = map unsigned q_weight in
    zip_with (λ low high. lor 8 low high) (map low_nibble (evens q_u4))
      (map high_nibble (odds q_u4))

unfoldable pub low_level : ℕ → ℤ
low_level byte = to_int8 (pos (land 8 byte 15)) -ℤ pos 8

unfoldable pub high_level : ℕ → ℤ
high_level byte = to_int8 (pos (land 8 (byte / 2 ^ 4) 15)) -ℤ pos 8

unfoldable pub unpack_row : List ℕ → List ℤ
unfolding low_level high_level
unpack_row packed = interleave (map low_level packed) (map high_level packed)

module _ (f : FloatOps) (round : f.Float → ℤ) where
  open f use {Float}

  unfoldable pub level : Float → Float → ℤ
  unfolding clamp
  level scale w = clamp (round (f.div w scale)) (negsuc 7) (pos 7)

  -- The scales are one number a row; `to_float16` rounds one to half precision.
  unfoldable pub pack_int4_gemm :
      (Float → Float) → Matrix Float → List Float → Option (Matrix ℕ × List Float)
  unfolding level pack_row
  pack_int4_gemm to_float16 weight_tensor scale =
      if nat_beq (weight_tensor.columns % 2) 0
      then some (
        record {
          columns = weight_tensor.columns / 2;
          rows =
              zip_with (λ s row. pack_row (map (λ w. to_int8 (level s w)) row)) scale
                weight_tensor.rows;
        },
        map to_float16 scale,
      )
      else none

  unfoldable pub unpack_int4_gemm : Matrix ℕ → List Float → Matrix Float
  unfolding unpack_row
  unpack_int4_gemm packed_bytes scale = record {
    columns = packed_bytes.columns * 2;
    rows =
        zip_with (λ s row. map (λ q. f.mul (f.of_int q) s) (unpack_row row)) scale
          packed_bytes.rows;
  }
