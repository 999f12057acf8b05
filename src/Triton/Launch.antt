-- ===== src/Triton/Launch.antt =====
-- The launch of the attention kernel: the output buffer after all programs of the grid.
use cudaforge.Prelude.{
  ltb-lt, ℕ, ◌+◌, ◌*◌, ◌/◌, ◌%◌, ◌≤◌, ◌<◌, ◌≡◌, ◌∙◌, true, ltb, arith, Option, none, some,
}
use mathlib.Core.Path.{subst, ap₂}
use cudaforge.Prelude.Float.{FloatOps}
use cudaforge.Triton.Device.{DeviceMath, ExactMath, cdiv, each, store}
use cudaforge.Triton.Stores.{
  Agree, hits, Agree-each, Agree-store, hits-each, hits-store, after_value,
}
use cudaforge.Triton.FlashAttn.{
  Attention, Strides, offset, block, row_out, row_stores, attn_program, launch, with_scale,
  flash_attn_triton,
}
use cudaforge.Triton.Attention.{attention, IsNumeric, row_out-attention}

-- Different entries of the tensor stand at different offsets.
pub record IsLayout (s : Strides) (b n r c : ℕ) : Type 0 where
  pub apart :
      (z h m d z' h' m' d' : ℕ)
      → (z < b) × ((h < n) × ((m < r) × (d < c)))
      → (z' < b) × ((h' < n) × ((m' < r) × (d' < c)))
      → offset s z h m d ≡ offset s z' h' m' d'
      → (z ≡ z') × ((h ≡ h') × ((m ≡ m') × (d ≡ d')))

module _ {f : FloatOps} {math : DeviceMath f} (x : ExactMath f math) (a : Attention f math)
    (numeric : IsNumeric x a) (apart : IsLayout a.stride_o a.Z a.H a.n_ctx a.d_head) (z h m d : ℕ)
    (z_lt : z < a.Z) (h_lt : h < a.H) (m_lt : m < a.n_ctx) (d_lt : d < a.d_head) where
  abbrev here : ℕ
  here = offset a.stride_o z h m d

  -- A store of another program, row or dimension does not touch this entry, and its own is right.
  row_stores-Agree :
      (start_m h' z' m' : ℕ)
      → h' < a.H
      → z' < a.Z
      → start_m * block ≤ m'
      → m' < start_m * block + block
      → Agree here (attention a z h m d) (row_stores f math a start_m h' z' m')
  unfolding row_stores
  row_stores-Agree start_m h' z' m' h_lt' z_lt' lo hi = Agree-each here _ a.d_head _ (λ d' d_lt'.
      Agree-store here _ (ltb m' a.n_ctx) _ _ (λ mask e.
        let m_lt' = ltb-lt m' a.n_ctx mask in
        let (ze, (he, (me, de))) =
          apart.apart z' h' m' d' z h m d (z_lt', (h_lt', (m_lt', d_lt')))
            (z_lt, (h_lt, (m_lt, d_lt))) e in
        row_out-attention x a numeric z' h' m' m_lt' start_m d' lo hi
        ∙ ap₂ (λ b c. attention a b c m' d') ze he
        ∙ ap₂ (λ b c. attention a z h b c) me de))

  row_stores-hits : (start_m : ℕ) → hits here (row_stores f math a start_m h z m) ≡ true
  unfolding row_stores
  row_stores-hits start_m =
      let mask : ltb m a.n_ctx ≡ true = ground arith in
      hits-each here d a.d_head
        (λ c. store (ltb m a.n_ctx) (offset a.stride_o z h m c) (row_out f math a z h m start_m c))
        d_lt (hits-store here (ltb m a.n_ctx) (row_out f math a z h m start_m d) mask)

  attn_program-hits : hits here (attn_program f math a (m / block) h z) ≡ true
  unfolding attn_program
  attn_program-hits =
      let split : m ≡ m / block * block + m % block = omega arith in
      hits-each here (m % block) block
        (λ i. row_stores f math a (m / block) h z (m / block * block + i)) (omega arith)
        (subst (λ b. hits here (row_stores f math a (m / block) h z b) ≡ true) split
          (row_stores-hits (m / block)))

  launch-attention :
      (out : ℕ → f.Float) → launch f math a out (offset a.stride_o z h m d) ≡ attention a z h m d
  unfolding launch attn_program
  launch-attention out =
      after_value here (attention a z h m d) _ out
        (Agree-each here _ (cdiv a.n_ctx block) _ (λ start_m lt.
          Agree-each here _ a.H _ (λ h' h_lt'. Agree-each here _ a.Z _ (λ z' z_lt'.
            Agree-each here _ block _ (λ i lt'.
              row_stores-Agree start_m h' z' (start_m * block + i) h_lt' z_lt' (omega arith)
                (omega arith))))))
        (hits-each here (m / block) (cdiv a.n_ctx block)
          (λ start_m. each a.H (λ h'. each a.Z (λ z'. attn_program f math a start_m h' z')))
          (omega arith)
          (hits-each here h a.H (λ h'. each a.Z (λ z'. attn_program f math a (m / block) h' z'))
            h_lt
            (hits-each here z a.Z (attn_program f math a (m / block) h) z_lt attn_program-hits)))

-- After the launch, an entry of the output buffer is the softmax-weighted mean of the values that its
-- row sees, whatever the buffer held before, at the given scale of the scores or that of the head's
-- dimension. Under the causal mask the row sees the columns up to its own; without it, all of the
-- tiles, and so also the zeros behind the last key. This holds in arithmetic without rounding, when
-- the inputs and the scale are numbers and the output's strides keep its entries apart.
pub flash_attn_triton-attention :
    {f : FloatOps} {math : DeviceMath f} (x : ExactMath f math) (sm_scale : Option f.Float)
    (a : Attention f math)
    → IsNumeric x (with_scale f math sm_scale a)
    → IsLayout a.stride_o a.Z a.H a.n_ctx a.d_head
    → (z h m d : ℕ) → z < a.Z
    → h < a.H
    → m < a.n_ctx
    → d < a.d_head
    → (out : ℕ → f.Float)
    → flash_attn_triton f math sm_scale a out (offset a.stride_o z h m d)
      ≡ attention (with_scale f math sm_scale a) z h m d
unfolding flash_attn_triton
flash_attn_triton-attention x none a numeric apart z h m d z_lt h_lt m_lt d_lt out =
    launch-attention x (with_scale _ _ none a) numeric apart z h m d z_lt h_lt m_lt d_lt out
flash_attn_triton-attention x (some s) a numeric apart z h m d z_lt h_lt m_lt d_lt out =
    launch-attention x (with_scale _ _ (some s) a) numeric apart z h m d z_lt h_lt m_lt d_lt out
