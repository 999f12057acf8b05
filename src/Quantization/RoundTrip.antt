-- ===== src/Quantization/RoundTrip.antt =====
-- Packing keeps the quantized levels.
use cudaforge.Prelude.{
  ℕ, zero, suc, ◌*◌, ◌/◌, ◌%◌, ◌^◌, ◌<◌, ◌≡◌, refl, ap, ◌∙◌, true, List, [], ◌∷◌, map, length, some,
  nat_beq, arith,
}
use cudaforge.Prelude.Int.{ℤ, negsuc, pos}
use cudaforge.Prelude.Float.{FloatOps}
use cudaforge.Quantization.Levels.{clamp, to_int8}
use cudaforge.Quantization.Packing.{
  zip_with, pack_row, unpack_row, level, pack_int4_gemm, unpack_int4_gemm,
}
use cudaforge.Quantization.Nibbles.{IsInt4, byte-levels, clamp-IsInt4, to_int8-clamp}

abbrev pub AreInt4 : List ℤ → Type 0
AreInt4 [] = Unit
AreInt4 (q ∷ qs) = IsInt4 q × AreInt4 qs

abbrev pub AreBytes : List ℕ → Type 0
AreBytes [] = Unit
AreBytes (b ∷ bs) = (b < 2 ^ 8) × AreBytes bs

-- Every row has `n` entries, and each is a byte.
abbrev pub AreByteRows : ℕ → List (List ℕ) → Type 0
AreByteRows n [] = Unit
AreByteRows n (row ∷ rows) = (length row ≡ n) × AreBytes row × AreByteRows n rows

abbrev pub HaveLength {ℓ} : {A : Type ℓ} → ℕ → List (List A) → Type 0
HaveLength n [] = Unit
HaveLength n (row ∷ rows) = (length row ≡ n) × HaveLength n rows

unpack_row-pack_row :
    (n : ℕ) (qs : List ℤ)
    → length qs ≡ n * 2
    → AreInt4 qs
    → (unpack_row (pack_row qs) ≡ qs) × (length (pack_row qs) ≡ n) × AreBytes (pack_row qs)
unfolding unpack_row pack_row
unpack_row-pack_row zero [] e h = (refl, refl, tt)
unpack_row-pack_row (suc n) [] e h = absurd (omega arith)
unpack_row-pack_row n (q ∷ []) e h = absurd (omega arith)
unpack_row-pack_row zero (q ∷ r ∷ qs) e h = absurd (omega arith)
unpack_row-pack_row (suc n) (q ∷ r ∷ qs) e (hq, (hr, hs)) =
    let (whole, len, bytes) = unpack_row-pack_row n qs (omega arith) hs in
    let (small, low, high) = byte-levels q r hq hr in
    (rw (low, high) (ap (λ l. q ∷ r ∷ l) whole), ap suc len, (small, bytes))

module _ (f : FloatOps) (round : f.Float → ℤ) where
  level_row :
      (s : f.Float) (row : List f.Float)
      → AreInt4 (map (λ w. to_int8 (level f round s w)) row)
        × (length (map (λ w. to_int8 (level f round s w)) row) ≡ length row)
        × (map (λ w. to_int8 (level f round s w)) row ≡ map (level f round s) row)
  unfolding level
  level_row s [] = (tt, refl, refl)
  level_row s (w ∷ row) =
      let (int4, len, same) = level_row s row in
      let z = round (f.div w s) in
      (
        (clamp-IsInt4 z, int4),
        ap suc len,
        rw (to_int8-clamp z) (ap (λ l. clamp z (negsuc 7) (pos 7) ∷ l) same),
      )

  -- The quantized weights, as floats: each the nearest level within four bits, times the scale.
  abbrev pub dequantized : List f.Float → List f.Float → List (List f.Float) → List (List f.Float)
  dequantized (s ∷ ss) (t ∷ ts) (row ∷ rows) =
      map (λ q. f.mul (f.of_int q) t) (map (level f round s) row) ∷ dequantized ss ts rows
  dequantized _ _ _ = []

  abbrev pub packed_rows : List f.Float → List (List f.Float) → List (List ℕ)
  packed_rows scale rows =
      zip_with (λ s row. pack_row (map (λ w. to_int8 (level f round s w)) row)) scale rows

  unpack-pack_rows :
      (n : ℕ) (ss ts : List f.Float) (rows : List (List f.Float))
      → length ss ≡ length rows
      → length ts ≡ length rows
      → HaveLength (n * 2) rows
      → (zip_with
            (λ t row. map (λ q. f.mul (f.of_int q) t) (unpack_row row))
            ts
            (packed_rows ss rows)
          ≡ dequantized ss ts rows)
        × AreByteRows n (packed_rows ss rows)
  unpack-pack_rows n [] [] [] e e' h = (refl, tt)
  unpack-pack_rows n (s ∷ ss) ts [] e e' h = absurd (omega arith)
  unpack-pack_rows n [] (t ∷ ts) [] e e' h = absurd (omega arith)
  unpack-pack_rows n [] ts (row ∷ rows) e e' h = absurd (omega arith)
  unpack-pack_rows n (s ∷ ss) [] (row ∷ rows) e e' h = absurd (omega arith)
  unpack-pack_rows n (s ∷ ss) (t ∷ ts) (row ∷ rows) e e' (hr, hs) =
      let (whole, bytes) = unpack-pack_rows n ss ts rows (omega arith) (omega arith) hs in
      let (int4, len, same) = level_row s row in
      let (back, size, small) = unpack_row-pack_row n _ (len ∙ hr) int4 in
      (
        rw (back, same)
            (ap (λ l. map (λ q. f.mul (f.of_int q) t) (map (level f round s) row) ∷ l) whole),
        (size, small, bytes),
      )

  -- A matrix with an even number `n * 2` of columns and one scale a row is packed into rows of `n`
  -- bytes, and unpacking these with any scales `ts`, one a row, gives each weight's level, the rounded
  -- quotient by the packing scale clamped to the range from -8 to 7, times the unpacking scale.
  pub unpack-pack_int4_gemm :
      (to_float16 : f.Float → f.Float) (n : ℕ) (rows : List (List f.Float))
      (scale ts : List f.Float)
      → length scale ≡ length rows
      → length ts ≡ length rows
      → HaveLength (n * 2) rows
      → (bytes : List (List ℕ)) × (pack_int4_gemm f round to_float16
            (record { columns = n * 2; rows = rows })
            scale
          ≡ some (record { columns = n; rows = bytes }, map to_float16 scale))
        × AreByteRows n bytes
        × (unpack_int4_gemm f round (record { columns = n; rows = bytes }) ts
            ≡ record { columns = n * 2; rows = dequantized scale ts rows })
  unfolding pack_int4_gemm unpack_int4_gemm
  unpack-pack_int4_gemm to_float16 n rows scale ts e e' h =
      let (whole, bytes) = unpack-pack_rows n scale ts rows e e' h in
      let even : nat_beq (n * 2 % 2) 0 ≡ true = ground arith in
      let half : n * 2 / 2 ≡ n = omega arith in
      (packed_rows scale rows, rw (even, half) refl, bytes, rw whole refl)
