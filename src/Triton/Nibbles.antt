-- ===== src/Triton/Nibbles.antt =====
-- Which bits of a packed word the INT4 kernel reads.
use cudaforge.Prelude.{ℕ, zero, suc, ◌-◌, ◌*◌, ◌/◌, ◌%◌, ◌^◌, ◌<◌, ◌≡◌, arith}
use cudaforge.Prelude.Int.{ℤ, pos, negsuc}
use cudaforge.Triton.Int4Gemm.{shift_right, and_0x0f, b_int4}

-- The bits of a word of 32 bits.
abbrev pub bits : ℤ → ℕ
bits (pos w) = w % 2 ^ 32
bits (negsuc w) = 2 ^ 32 - 1 - w % 2 ^ 32

below_eight {ℓ} :
    (P : ℕ → Type ℓ)
    → (P 0 × (P 1 × (P 2 × (P 3 × (P 4 × (P 5 × (P 6 × P 7)))))))
    → (j : ℕ) → j < 8
    → P j
below_eight P (p0, (p1, (p2, (p3, (p4, (p5, (p6, p7))))))) zero h = p0
below_eight P (p0, (p1, (p2, (p3, (p4, (p5, (p6, p7))))))) (suc zero) h = p1
below_eight P (p0, (p1, (p2, (p3, (p4, (p5, (p6, p7))))))) (suc (suc zero)) h = p2
below_eight P (p0, (p1, (p2, (p3, (p4, (p5, (p6, p7))))))) (suc (suc (suc zero))) h = p3
below_eight P (p0, (p1, (p2, (p3, (p4, (p5, (p6, p7))))))) (suc (suc (suc (suc zero)))) h = p4
below_eight P (p0, (p1, (p2, (p3, (p4, (p5, (p6, p7))))))) (suc (suc (suc (suc (suc zero))))) h = p5
below_eight P (p0, (p1, (p2, (p3, (p4, (p5, (p6, p7))))))) (suc (suc (suc (suc (suc (suc zero))))))
      h =
    p6
below_eight P (p0, (p1, (p2, (p3, (p4, (p5, (p6, p7)))))))
      (suc (suc (suc (suc (suc (suc (suc zero))))))) h =
    p7
below_eight P ps (suc (suc (suc (suc (suc (suc (suc (suc j)))))))) h = absurd (omega arith)

nibble : (z : ℤ) (j : ℕ) → j < 8 → and_0x0f (shift_right z (j * 4)) ≡ bits z / 16 ^ j % 16
nibble (pos w) j h =
    below_eight (λ j. w / 2 ^ (j * 4) % 16 ≡ w % 2 ^ 32 / 16 ^ j % 16)
      (
        omega arith,
        (
          omega arith,
          (omega arith, (omega arith, (omega arith, (omega arith, (omega arith, omega arith))))),
        ),
      )
      j h
nibble (negsuc w) j h =
    below_eight (λ j. 15 - w / 2 ^ (j * 4) % 16 ≡ (2 ^ 32 - 1 - w % 2 ^ 32) / 16 ^ j % 16)
      (
        omega arith,
        (
          omega arith,
          (omega arith, (omega arith, (omega arith, (omega arith, (omega arith, omega arith))))),
        ),
      )
      j h

pub b_int4_lem : (z : ℤ) (k : ℕ) → b_int4 z k ≡ bits z / 16 ^ (k % 8) % 16
unfolding b_int4
b_int4_lem z k = nibble z (k % 8) (omega arith)
