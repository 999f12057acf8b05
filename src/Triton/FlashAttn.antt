-- ===== src/Triton/FlashAttn.antt =====
-- `_flash_attn_v2_fwd_kernel` and `flash_attn_triton` of flash_attn_triton.py: one row of a block of
-- queries, with the running maximum, the running denominator and the accumulator of that row.
use cudaforge.Prelude.{
  ℕ, zero, suc, ◌+◌, ◌*◌, Bool, List, map, ltb, leb, min, if◌then◌else◌, Option, none, some,
}
use cudaforge.Prelude.Int.{pos}
use cudaforge.Prelude.Float.{FloatOps}
use cudaforge.Triton.Device.{
  cdiv, range, each, load, store, after, DeviceMath, zero_float, sum, max_of,
}

-- The strides of one tensor of four dimensions.
pub record Strides : Type 0 where
  pub batch : ℕ
  pub head : ℕ
  pub row : ℕ
  pub dim : ℕ

abbrev pub offset : Strides → ℕ → ℕ → ℕ → ℕ → ℕ
offset s z h m d = z * s.batch + h * s.head + (m * s.row + d * s.dim)

-- `BLOCK_M` and `BLOCK_N`
abbrev pub block : ℕ
block = 64

module _ (f : FloatOps) (math : DeviceMath f) where
  open f use {Float}

  -- The arguments of a launch.
  pub record Attention : Type 0 where
    pub Q : ℕ → Float
    pub K : ℕ → Float
    pub V : ℕ → Float
    pub sm_scale : Float
    pub stride_q : Strides
    pub stride_k : Strides
    pub stride_v : Strides
    pub stride_o : Strides
    pub Z : ℕ
    pub H : ℕ
    pub n_ctx : ℕ
    pub d_head : ℕ
    pub is_causal : Bool

  -- The accumulators of one row.
  pub record Row : Type 0 where
    pub m_i : Float
    pub l_i : Float
    pub acc : ℕ → Float

  module _ (a : Attention) (z h m : ℕ) where
    -- The loaded entries of the three tiles.
    abbrev pub q_at : ℕ → Float
    q_at d =
        math.half
          (f.mul (load a.Q (ltb m a.n_ctx) (offset a.stride_q z h m d) (zero_float f)) a.sm_scale)

    abbrev pub k_at : ℕ → ℕ → Float
    k_at n d = load a.K (ltb n a.n_ctx) (offset a.stride_k z h n d) (zero_float f)

    abbrev pub v_at : ℕ → ℕ → Float
    v_at n d = load a.V (ltb n a.n_ctx) (offset a.stride_v z h n d) (zero_float f)

    -- `qk` at column `n`, before and after the causal mask
    unfoldable pub qk_dot : ℕ → Float
    qk_dot n = sum f (map (λ d. f.mul (q_at d) (k_at n d)) (range 0 a.d_head))

    unfoldable pub qk_at : ℕ → Float
    qk_at n = if a.is_causal then (if leb n m then qk_dot n else math.neg_inf) else qk_dot n

    -- One round of the loop over the tiles of keys and values.
    unfoldable pub tile : ℕ → Row → Row
    tile start_n r =
        let curr_offs_n = range start_n block in
        let m_ij = math.maximum r.m_i (max_of f math (map qk_at curr_offs_n)) in
        let alpha = math.exp (f.sub r.m_i m_ij) in
        record {
          m_i = m_ij;
          l_i =
              f.add (f.mul r.l_i alpha)
                (sum f (map (λ n. math.exp (f.sub (qk_at n) m_ij)) curr_offs_n));
          acc = λ d. f.add (f.mul (r.acc d) alpha) (
              sum f (
                map (λ n. f.mul (math.half (math.exp (f.sub (qk_at n) m_ij))) (v_at n d))
                  curr_offs_n));
        }

    -- `for start_n in range(start_n, end_n, BLOCK_N)`, with the number of rounds
    unfoldable pub tiles : ℕ → ℕ → Row → Row
    unfolding tile
    tiles zero start_n r = r
    tiles (suc n) start_n r = tiles n (start_n + block) (tile start_n r)

    abbrev pub fresh_row : Row
    fresh_row = record { m_i = math.neg_inf; l_i = zero_float f; acc = λ d. zero_float f }

    abbrev pub end_n : ℕ → ℕ
    end_n start_m = if a.is_causal then min a.n_ctx ((start_m + 1) * block) else a.n_ctx

    -- The row's entries of the output tile, in the program of block `start_m`.
    unfoldable pub row_out : ℕ → ℕ → Float
    unfolding tiles
    row_out start_m d =
        let r = tiles (cdiv (end_n start_m) block) 0 fresh_row in math.half (f.div (r.acc d) r.l_i)

  -- The stores of one row of the output tile, and those of one program.
  unfoldable pub row_stores : Attention → ℕ → ℕ → ℕ → ℕ → List (ℕ × Float)
  row_stores a start_m h z m =
      each a.d_head
        (λ d. store (ltb m a.n_ctx) (offset a.stride_o z h m d) (row_out a z h m start_m d))

  unfoldable pub attn_program : Attention → ℕ → ℕ → ℕ → List (ℕ × Float)
  unfolding row_stores
  attn_program a start_m h z = each block (λ i. row_stores a start_m h z (start_m * block + i))

  -- The output buffer after the programs of the grid.
  unfoldable pub launch : Attention → (ℕ → Float) → ℕ → Float
  unfolding attn_program
  launch a out =
      after
        (each (cdiv a.n_ctx block)
          (λ start_m. each a.H (λ h. each a.Z (λ z. attn_program a start_m h z))))
        out

  -- `1.0 / (D_HEAD**0.5)` where no scale is given
  abbrev pub with_scale : Option Float → Attention → Attention
  with_scale none a = record a {
    sm_scale = f.div (f.lit (pos 10) 1) (f.sqrt (f.of_int (pos a.d_head)));
  }
  with_scale (some sm_scale) a = record a { sm_scale = sm_scale }

  -- `flash_attn_triton`, with the shapes and strides of its tensors
  unfoldable pub flash_attn_triton : Option Float → Attention → (ℕ → Float) → ℕ → Float
  unfolding launch
  flash_attn_triton sm_scale a out = launch (with_scale sm_scale a) out
