-- ===== src/Triton/Rope.antt =====
-- `_fused_rope_kernel` and `fused_rope_triton` of fused_rope_triton.py: the programs of the grid on the
-- two tensors, which they change in place, in the order in which the device runs them.
use cudaforge.Prelude.{ℕ, ◌+◌, ◌*◌, ◌/◌, ◌%◌, Bool, List, [], ◌∷◌, ◌++◌, ltb, max, if◌then◌else◌}
use cudaforge.Prelude.Float.{FloatOps}
use cudaforge.Triton.Device.{each, load, store, after, DeviceMath, zero_float}
use cudaforge.Triton.FlashAttn.{Strides, offset}

-- `is_key == 0` and `is_key == 1`: which tensor a program rotates.
pub data Side : Type 0 where
  query : Side
  key : Side

module _ (f : FloatOps) (math : DeviceMath f) where
  open f use {Float}

  pub record Tensors : Type 0 where
    pub q : ℕ → Float
    pub k : ℕ → Float

  -- The arguments of a launch: the strides are those of batch, token, head and dimension.
  pub record Rope : Type 0 where
    pub cos : ℕ → Float
    pub sin : ℕ → Float
    pub stride_q : Strides
    pub stride_k : Strides
    pub stride_cos_s : ℕ
    pub stride_cos_d : ℕ
    pub stride_sin_s : ℕ
    pub stride_sin_d : ℕ
    pub batch_size : ℕ
    pub seq_len : ℕ
    pub num_q_heads : ℕ
    pub num_kv_heads : ℕ
    pub head_dim : ℕ
    pub block_dim : ℕ

  abbrev pub half_dim : Rope → ℕ
  half_dim r = r.head_dim / 2

  abbrev pub buffer : Side → Tensors → ℕ → Float
  buffer query t = t.q
  buffer key t = t.k

  abbrev pub set_buffer : Side → (ℕ → Float) → Tensors → Tensors
  set_buffer query m t = record t { q = m }
  set_buffer key m t = record t { k = m }

  abbrev pub strides : Rope → Side → Strides
  strides r query = r.stride_q
  strides r key = r.stride_k

  abbrev pub heads : Rope → Side → ℕ
  heads r query = r.num_q_heads
  heads r key = r.num_kv_heads

  -- One lane of a program: `o1` and `o2` of dimension `d`.
  module _ (r : Rope) (s : Strides) (mem : ℕ → Float) (token_idx head_idx d : ℕ) where
    abbrev pub first_ptr : ℕ
    first_ptr = offset s (token_idx / r.seq_len) (token_idx % r.seq_len) head_idx d

    abbrev pub second_ptr : ℕ
    second_ptr = offset s (token_idx / r.seq_len) (token_idx % r.seq_len) head_idx (d + half_dim r)

    -- `cos` and `sin`, and the two results, under the mask
    abbrev pub cos_at : Bool → Float
    cos_at mask =
        load r.cos mask (token_idx % r.seq_len * r.stride_cos_s + d * r.stride_cos_d) (zero_float f)

    abbrev pub sin_at : Bool → Float
    sin_at mask =
        load r.sin mask (token_idx % r.seq_len * r.stride_sin_s + d * r.stride_sin_d) (zero_float f)

    abbrev pub o1 : Bool → Float
    o1 mask =
        let x1 = load mem mask first_ptr (zero_float f) in
        let x2 = load mem mask second_ptr (zero_float f) in
        f.sub (f.mul x1 (cos_at mask)) (f.mul x2 (sin_at mask))

    abbrev pub o2 : Bool → Float
    o2 mask =
        let x1 = load mem mask first_ptr (zero_float f) in
        let x2 = load mem mask second_ptr (zero_float f) in
        f.add (f.mul x1 (sin_at mask)) (f.mul x2 (cos_at mask))

    abbrev pub first_store : List (ℕ × Float)
    first_store = let mask = ltb d (half_dim r) in store mask first_ptr (math.half (o1 mask))

    abbrev pub second_store : List (ℕ × Float)
    second_store = let mask = ltb d (half_dim r) in store mask second_ptr (math.half (o2 mask))

  -- The two stores of a program, of all its lanes.
  abbrev pub rotation : Rope → Strides → (ℕ → Float) → ℕ → ℕ → List (ℕ × Float)
  rotation r s mem token_idx head_idx =
      each r.block_dim (first_store r s mem token_idx head_idx)
      ++ each r.block_dim (second_store r s mem token_idx head_idx)

  -- The identifiers of a program.
  pub record Program : Type 0 where
    pub token_idx : ℕ
    pub head_idx : ℕ
    pub side : Side

  unfoldable pub rope_program : Rope → Program → Tensors → Tensors
  rope_program r p t =
      if ltb p.head_idx (heads r p.side)
      then set_buffer p.side
          (after (rotation r (strides r p.side) (buffer p.side t) p.token_idx p.head_idx)
            (buffer p.side t))
          t
      else t

  -- `fused_rope_triton`: both tensors after the programs of the launch, one after the other.
  unfoldable pub fused_rope_triton : Rope → List Program → Tensors → Tensors
  unfolding rope_program
  fused_rope_triton r [] t = t
  fused_rope_triton r (p ∷ schedule) t = fused_rope_triton r schedule (rope_program r p t)

  -- `grid`, in the order of the programs' numbers
  abbrev pub grid : Rope → List Program
  grid r = each (r.batch_size * r.seq_len) (λ token_idx.
      each (max r.num_q_heads r.num_kv_heads) (λ head_idx.
        record { token_idx = token_idx; head_idx = head_idx; side = query }
        ∷ record { token_idx = token_idx; head_idx = head_idx; side = key }
        ∷ []))
