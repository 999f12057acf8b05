-- ===== src/Quantization/Nibbles.antt =====
-- A byte holds both of its nibbles.
use cudaforge.Prelude.{ℕ, suc, ◌+◌, ◌*◌, ◌/◌, ◌%◌, ◌^◌, ◌<◌, ◌≡◌, ◌∙◌, arith}
use cudaforge.Prelude.Int.{ℤ, pos, negsuc, ◌+ℤ◌, ◌-ℤ◌, ◌≤ℤ◌}
use cudaforge.Quantization.Levels.{to_uint8, to_int8, clamp, land, lor}
use cudaforge.Quantization.Packing.{unsigned, low_nibble, high_nibble, low_level, high_level}

land_15 : (a : ℕ) → land 8 a 15 ≡ a % 16
unfolding land
land_15 a = omega arith

lor_even : (n a b : ℕ) → b % 2 ≡ 0 → lor (suc n) a b ≡ a % 2 + 2 * lor n (a / 2) (b / 2)
unfolding lor
lor_even n a b h = rw h (omega arith)

lor_zero : (b : ℕ) → b < 16 → lor 4 0 b ≡ b
unfolding lor
lor_zero b h = omega arith

lor_nibbles :
    (low high : ℕ) → low < 16 → high < 16 → lor 8 low (high * 2 ^ 4 % 2 ^ 8) ≡ low + high * 16
lor_nibbles low high l h =
    let b = high * 16 in
    let e : high * 2 ^ 4 % 2 ^ 8 ≡ b = omega arith in
    let z : low / 2 / 2 / 2 / 2 ≡ 0 = omega arith in
    let w : b / 2 / 2 / 2 / 2 ≡ high = omega arith in
    let s1 = lor_even 7 low b (omega arith) in
    let s2 = lor_even 6 (low / 2) (b / 2) (omega arith) in
    let s3 = lor_even 5 (low / 2 / 2) (b / 2 / 2) (omega arith) in
    let s4 = lor_even 4 (low / 2 / 2 / 2) (b / 2 / 2 / 2) (omega arith) in
    let s5 : lor 4 (low / 2 / 2 / 2 / 2) (b / 2 / 2 / 2 / 2) ≡ high = rw (z, w) (lor_zero high h) in
    rw e (omega (arith, s1, s2, s3, s4, s5))

-- A level of four bits with its sign.
abbrev pub IsInt4 : ℤ → Type 0
IsInt4 q = (negsuc 7 ≤ℤ q) × (q ≤ℤ pos 7)

unsigned_lem : (q : ℤ) → IsInt4 q → (unsigned q < 16) × (to_int8 (pos (unsigned q)) -ℤ pos 8 ≡ q)
unfolding unsigned to_int8 to_uint8 ◌+ℤ◌ ◌-ℤ◌
unsigned_lem q h = ground arith

-- The byte of two levels, and the levels of that byte.
pub byte-levels :
    (q r : ℤ)
    → IsInt4 q
    → IsInt4 r
    → let byte = lor 8 (low_nibble (unsigned q)) (high_nibble (unsigned r)) in
      (byte < 2 ^ 8) × (low_level byte ≡ q) × (high_level byte ≡ r)
unfolding low_nibble high_nibble low_level high_level
byte-levels q r hq hr =
    let (lq, eq) = unsigned_lem q hq in
    let (lr, er) = unsigned_lem r hr in
    let u = unsigned q in
    let v = unsigned r in
    let nq : land 8 u 15 ≡ u = land_15 u ∙ omega arith in
    let nr : land 8 v 15 ≡ v = land_15 v ∙ omega arith in
    let b : lor 8 (land 8 u 15) (land 8 v 15 * 2 ^ 4 % 2 ^ 8) ≡ u + v * 16 =
      rw (nq, nr) (lor_nibbles u v lq lr) in
    let low : land 8 (u + v * 16) 15 ≡ u = land_15 (u + v * 16) ∙ omega arith in
    let high : land 8 ((u + v * 16) / 2 ^ 4) 15 ≡ v =
      land_15 ((u + v * 16) / 2 ^ 4) ∙ omega arith in
    rw b (omega arith, rw low eq, rw high er)

pub clamp-IsInt4 : (z : ℤ) → IsInt4 (to_int8 (clamp z (negsuc 7) (pos 7)))
unfolding clamp to_int8 to_uint8
clamp-IsInt4 z = ground arith

pub to_int8-clamp : (z : ℤ) → to_int8 (clamp z (negsuc 7) (pos 7)) ≡ clamp z (negsuc 7) (pos 7)
unfolding clamp to_int8 to_uint8
to_int8-clamp z = ground arith
