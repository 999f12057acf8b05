-- ===== src/Triton/Tests.antt =====
-- Inputs on which the theorems about the kernels are used.
use cudaforge.Prelude.{ℕ, zero, suc, ◌+◌, ◌-◌, ◌*◌, ◌≡◌, refl, true, none, some, arith}
use cudaforge.Prelude.Int.{pos}
use cudaforge.Triton.FlashAttn.{Attention, Strides, flash_attn_triton}
use cudaforge.Triton.Attention.{IsNumeric}
use cudaforge.Triton.Int4Gemm.{Gemm, int4_gemm_dequant_triton}
use cudaforge.Triton.Dequant.{IsPacked, IsApart, IsNumericGemm}
use cudaforge.Triton.GemmLaunch.{int4_gemm_dequant_triton-product}
use cudaforge.Triton.Rope.{Side, query, key, Tensors, Rope, grid, fused_rope_triton}
use cudaforge.Triton.Rotation.{rotated, Apart}
use cudaforge.Triton.RopeGrid.{grid-IsSchedule}
use cudaforge.Triton.RopeLaunch.{fused_rope_triton-rotated}
use cudaforge.Triton.Launch.{IsLayout, flash_attn_triton-attention}
use cudaforge.Triton.Numbers.{numbers, device, exact_numbers, some-IsFinite}

-- Three tokens with the values 2, 4 and 6, of one head with one dimension.
abbrev row_strides : Strides
row_strides = record { batch = 3; head = 3; row = 1; dim = 1 }

abbrev launch : Attention numbers device
launch = record {
  Q = λ i. some 1;
  K = λ i. some 1;
  V = λ i. some (2 + 2 * i);
  sm_scale = some 1;
  stride_q = row_strides;
  stride_k = row_strides;
  stride_v = row_strides;
  stride_o = row_strides;
  Z = 1;
  H = 1;
  n_ctx = 3;
  d_head = 1;
  is_causal = true;
}

launch-IsNumeric : IsNumeric exact_numbers launch
launch-IsNumeric = record {
  q = λ i. some-IsFinite 1;
  k = λ i. some-IsFinite 1;
  v = λ i. some-IsFinite (2 + 2 * i);
  scale = some-IsFinite 1;
}

one_head-IsLayout : IsLayout row_strides 1 1 3 1
one_head-IsLayout = record {
  apart = λ z h m d z' h' m' d' (z_lt, (h_lt, (m_lt, d_lt))) (z_lt', (h_lt', (m_lt', d_lt'))) e.
      (omega arith, (omega arith, (omega arith, omega arith)));
}

flash_attn_triton-attention_example :
    flash_attn_triton numbers device (some (some 1)) launch (λ i. none) 2 ≡ some 4
flash_attn_triton-attention_example =
    flash_attn_triton-attention exact_numbers (some (some 1)) launch launch-IsNumeric
      one_head-IsLayout 0 0 2 0 (omega arith) (omega arith) (omega arith) (omega arith) (λ i. none)

-- One activation row of two entries, and one column of the weights 3 and 5 in the word 0x53.
abbrev small_gemm : Gemm numbers device
small_gemm = record {
  A = λ i. some 1;
  b_quant = λ i. pos 83;
  scales = λ i. some 2;
  zeros = none;
  M = 1;
  N = 1;
  K = 2;
  stride_am = 2;
  stride_ak = 1;
  stride_bk = 1;
  stride_bn = 1;
  stride_sm = 1;
  stride_sn = 1;
  stride_cm = 1;
  stride_cn = 1;
  group_size = 32;
}

abbrev small_weights : ℕ → ℕ → ℕ
small_weights zero n = 3
small_weights (suc k) n = 5

small_gemm-IsPacked : IsPacked small_gemm small_weights
small_gemm-IsPacked zero n k_lt n_lt = refl
small_gemm-IsPacked (suc zero) n k_lt n_lt = refl
small_gemm-IsPacked (suc (suc k)) n k_lt n_lt = absurd (omega arith)

small_gemm-IsNumericGemm : IsNumericGemm exact_numbers small_gemm
small_gemm-IsNumericGemm = record { scale = λ i. some-IsFinite 2; weight = λ n. some-IsFinite n }

small_gemm-IsApart : IsApart small_gemm
small_gemm-IsApart m n m' n' (m_lt, n_lt) (m_lt', n_lt') e = (omega arith, omega arith)

int4_gemm_dequant_triton-product_example :
    int4_gemm_dequant_triton numbers device small_gemm (λ i. none) 0 ≡ some 16
int4_gemm_dequant_triton-product_example =
    int4_gemm_dequant_triton-product exact_numbers small_gemm small_weights small_gemm-IsPacked
      small_gemm-IsNumericGemm 0 refl small_gemm-IsApart 0 0 (omega arith) (omega arith) (λ i. none)

-- One token with one head of two dimensions, in both tensors.
abbrev pair_strides : Strides
pair_strides = record { batch = 2; head = 2; row = 2; dim = 1 }

abbrev small_rope : Rope numbers device
small_rope = record {
  cos = λ i. some 2;
  sin = λ i. some 1;
  stride_q = pair_strides;
  stride_k = pair_strides;
  stride_cos_s = 1;
  stride_cos_d = 1;
  stride_sin_s = 1;
  stride_sin_d = 1;
  batch_size = 1;
  seq_len = 1;
  num_q_heads = 1;
  num_kv_heads = 1;
  head_dim = 2;
  block_dim = 1;
}

small_rope-Apart : (side : Side) → Apart device small_rope side
small_rope-Apart query = record {
  apart = λ z h m d z' h' m' d' (z_lt, (h_lt, (m_lt, d_lt))) (z_lt', (h_lt', (m_lt', d_lt'))) e.
      (omega arith, (omega arith, (omega arith, omega arith)));
}
small_rope-Apart key = record {
  apart = λ z h m d z' h' m' d' (z_lt, (h_lt, (m_lt, d_lt))) (z_lt', (h_lt', (m_lt', d_lt'))) e.
      (omega arith, (omega arith, (omega arith, omega arith)));
}

abbrev small_tensors : Tensors numbers device
small_tensors = record { q = λ i. some (5 - 2 * i); k = λ i. some 1 }

fused_rope_triton-rotated_example :
    (fused_rope_triton numbers device small_rope (grid numbers device small_rope) small_tensors).q 1
    ≡ some 11
unfolding rotated
fused_rope_triton-rotated_example =
    fused_rope_triton-rotated device small_rope small_rope-Apart query 0 0 0 1 (omega arith)
      (omega arith) (omega arith) (omega arith) (omega arith) (grid numbers device small_rope)
      (grid-IsSchedule small_rope) small_tensors
