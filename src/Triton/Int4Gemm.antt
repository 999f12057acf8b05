-- ===== src/Triton/Int4Gemm.antt =====
-- `_int4_dequant_gemm_kernel` and `int4_gemm_dequant_triton` of int4_dequant_triton.py: one entry of a
-- tile of the output, with its accumulator over the blocks of the inner dimension.
use cudaforge.Prelude.{ℕ, zero, suc, ◌+◌, ◌-◌, ◌*◌, ◌/◌, ◌%◌, ◌^◌, ◌&&◌, List, map, ltb, Option}
use cudaforge.Prelude.Int.{ℤ, pos, negsuc}
use cudaforge.Prelude.Float.{FloatOps}
use cudaforge.Triton.Device.{cdiv, range, each, load, store, after, DeviceMath, zero_float, sum}

-- `BLOCK_M`, `BLOCK_N` and `BLOCK_K`
abbrev pub block : ℕ
block = 32

-- `>>` of a signed word, and `& 0x0F` of its two's complement.
abbrev pub shift_right : ℤ → ℕ → ℤ
shift_right (pos w) s = pos (w / 2 ^ s)
shift_right (negsuc w) s = negsuc (w / 2 ^ s)

abbrev pub and_0x0f : ℤ → ℕ
and_0x0f (pos w) = w % 16
and_0x0f (negsuc w) = 15 - w % 16

-- `(b_packed >> shift) & 0x0F` for the row `k` of the unpacked weights
unfoldable pub b_int4 : ℤ → ℕ → ℕ
b_int4 b_packed k = and_0x0f (shift_right b_packed ((k % 8) * 4))

module _ (f : FloatOps) (math : DeviceMath f) where
  open f use {Float}

  -- The arguments of a launch. `zeros` reaches the kernel and is not read there.
  pub record Gemm : Type 0 where
    pub A : ℕ → Float
    pub b_quant : ℕ → ℤ
    pub scales : ℕ → Float
    pub zeros : Option (ℕ → Float)
    pub M : ℕ
    pub N : ℕ
    pub K : ℕ
    pub stride_am : ℕ
    pub stride_ak : ℕ
    pub stride_bk : ℕ
    pub stride_bn : ℕ
    pub stride_sm : ℕ
    pub stride_sn : ℕ
    pub stride_cm : ℕ
    pub stride_cn : ℕ
    pub group_size : ℕ

  module _ (g : Gemm) (m n : ℕ) where
    abbrev pub a_at : ℕ → Float
    a_at i = load g.A (ltb m g.M && ltb i g.K) (m * g.stride_am + i * g.stride_ak) (zero_float f)

    -- The dequantised weight of row `i`, in the block `k`.
    unfoldable pub b_at : ℕ → ℕ → Float
    unfolding b_int4
    b_at k i =
        let group_idx = (k * block) / g.group_size in
        let scale =
          load g.scales (ltb n g.N) (group_idx * g.stride_sm + n * g.stride_sn)
            (f.lit (pos 10) 1) in
        let b_packed =
          load g.b_quant (ltb i g.K && ltb n g.N) (i / 8 * g.stride_bk + n * g.stride_bn) (pos 0) in
        math.half (f.mul (f.of_int (pos (b_int4 b_packed i))) scale)

    -- `tl.dot(a, b_fp16)` of block `k`, and the accumulator after the first blocks
    unfoldable pub dot : ℕ → Float
    unfolding b_at
    dot k = sum f (map (λ i. f.mul (a_at i) (b_at k i)) (range (k * block) block))

    unfoldable pub acc : ℕ → Float
    unfolding dot
    acc zero = zero_float f
    acc (suc k) = f.add (acc k) (dot k)

  -- The stores of one program.
  unfoldable pub gemm_program : Gemm → ℕ → ℕ → List (ℕ × Float)
  unfolding acc
  gemm_program g pid_m pid_n = each block (λ i. each block (λ j.
      let m = pid_m * block + i in
      let n = pid_n * block + j in
      store (ltb m g.M && ltb n g.N) (m * g.stride_cm + n * g.stride_cn)
        (math.half (acc g m n (cdiv g.K block)))))

  -- `int4_gemm_dequant_triton`: the output buffer after the programs of the grid.
  unfoldable pub int4_gemm_dequant_triton : Gemm → (ℕ → Float) → ℕ → Float
  unfolding gemm_program
  int4_gemm_dequant_triton g c =
      after
        (each (cdiv g.M block)
          (λ pid_m. each (cdiv g.N block) (λ pid_n. gemm_program g pid_m pid_n)))
        c
