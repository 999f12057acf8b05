-- ===== src/Triton/RopeLaunch.antt =====
-- The launch of the rotary embedding, for every order of its programs.
use cudaforge.Prelude.{
  if_true, if_false, ltb_true, ltb-lt, ℕ, ◌+◌, ◌*◌, ◌/◌, ◌%◌, ◌≤◌, ◌<◌, ◌≡◌, ◌⊎◌, inl, inr, refl,
  sym, ap, ◌∙◌, List, [], ◌∷◌, Bool-cases, ltb, max, arith,
}
use mathlib.Core.Path.{subst, ap₂}
use native.Mathlib.Nat.{
  mul-add-div_right, mul-add-mod_self_right, mul-le-mul_right, div-eq_of_lt, mod-eq_of_lt,
}
use cudaforge.Prelude.Float.{FloatOps}
use cudaforge.Triton.Device.{DeviceMath, after}
use cudaforge.Triton.FlashAttn.{offset}
use cudaforge.Triton.Rope.{
  Side, query, key, Tensors, Rope, Program, half_dim, buffer, set_buffer, strides, heads, rotation,
  rope_program, fused_rope_triton,
}
use cudaforge.Triton.Rotation.{rotated, rotated_congr, Apart, rotation_other, rotation_own}

module _ {f : FloatOps} (math : DeviceMath f) (r : Rope f math) where
  -- No program of the list has these identifiers; exactly one has.
  abbrev pub Absent : Program f math → List (Program f math) → Type 0
  Absent p [] = Unit
  Absent p (p' ∷ schedule) = (p' ≡ p → ⊥) × Absent p schedule

  abbrev pub Once : Program f math → List (Program f math) → Type 0
  Once p [] = ⊥
  Once p (p' ∷ schedule) = ((p' ≡ p) × Absent p schedule) ⊎ ((p' ≡ p → ⊥) × Once p schedule)

  abbrev pub AreInside : List (Program f math) → Type 0
  AreInside [] = Unit
  AreInside (p ∷ schedule) = (p.token_idx < r.batch_size * r.seq_len) × AreInside schedule

  -- The programs of the grid, each of them once, in any order.
  pub record IsSchedule (schedule : List (Program f math)) : Type 0 where
    pub inside : AreInside schedule
    pub once :
        (p : Program f math)
        → p.token_idx < r.batch_size * r.seq_len
        → p.head_idx < max r.num_q_heads r.num_kv_heads
        → Once p schedule

heads-max :
    {f : FloatOps} {math : DeviceMath f} (r : Rope f math) (s : Side) (h : ℕ)
    → h < heads f math r s
    → h < max r.num_q_heads r.num_kv_heads
heads-max r query h lt = ground arith
heads-max r key h lt = ground arith

same_side : (s s' : Side) → (s ≡ s') ⊎ (s ≡ s' → ⊥)
same_side query query = inl refl
same_side query key = inr (λ e. absurd (cc e))
same_side key query = inr (λ e. absurd (cc e))
same_side key key = inl refl

module _ (f : FloatOps) (math : DeviceMath f) where
  program_eq :
      (p p' : Program f math)
      → p.token_idx ≡ p'.token_idx
      → p.head_idx ≡ p'.head_idx
      → p.side ≡ p'.side
      → p ≡ p'
  program_eq p p' te he se =
      let make : ℕ → ℕ → Side → Program f math =
        λ t h s. record { token_idx = t; head_idx = h; side = s } in
      ap₂ (λ t h. make t h p.side) te he ∙ ap (make p'.token_idx p'.head_idx) se

module _ {f : FloatOps} (math : DeviceMath f) where
  buffer-set_buffer :
      (s : Side) (m : ℕ → f.Float) (t : Tensors f math)
      → buffer f math s (set_buffer f math s m t) ≡ m
  buffer-set_buffer query m t = refl
  buffer-set_buffer key m t = refl

  buffer-set_buffer_other :
      (s s' : Side) (m : ℕ → f.Float) (t : Tensors f math)
      → (s' ≡ s → ⊥)
      → buffer f math s (set_buffer f math s' m t) ≡ buffer f math s t
  buffer-set_buffer_other query query m t ne = absurd (ne refl)
  buffer-set_buffer_other query key m t ne = refl
  buffer-set_buffer_other key query m t ne = refl
  buffer-set_buffer_other key key m t ne = absurd (ne refl)

module _ {f : FloatOps} (math : DeviceMath f) (r : Rope f math)
    (apart : (side : Side) → Apart math r side) (side : Side) (b i h d : ℕ)
    (b_lt : b < r.batch_size) (i_lt : i < r.seq_len) (h_lt : h < heads f math r side)
    (d_lt : d < r.head_dim) where
  abbrev here : ℕ
  here = offset (strides f math r side) b i h d

  abbrev own : Program f math
  own = record { token_idx = b * r.seq_len + i; head_idx = h; side = side }

  program_other :
      (p : Program f math) (t : Tensors f math)
      → p.token_idx < r.batch_size * r.seq_len
      → (p ≡ own → ⊥)
      → buffer f math side (rope_program f math r p t) here ≡ buffer f math side t here
  unfolding rope_program
  program_other p t p_lt other =
      let program = λ (s : Side).
        set_buffer f math s
          (after (rotation f math r (strides f math r s) (buffer f math s t) p.token_idx p.head_idx)
            (buffer f math s t))
          t in
      elim (Bool-cases (ltb p.head_idx (heads f math r p.side))) [
        | inr off ↦ ap (λ u. buffer f math side u here) (if_false off _ _)
        | inl on ↦
            ap (λ u. buffer f math side u here) (if_true on _ _) ∙ elim (same_side p.side side) [
              | inr ne ↦ ap (λ m. m here) (buffer-set_buffer_other math side p.side _ t ne)
              | inl e ↦
                  let head_lt = subst (λ s. p.head_idx < heads f math r s) e (ltb-lt _ _ on) in
                  ap (λ s. buffer f math side (program s) here) e
                  ∙ ap (λ m. m here) (buffer-set_buffer math side _ t)
                  ∙ rotation_other math r side (apart side) (buffer f math side t) p.token_idx
                      p.head_idx p_lt head_lt b i h d b_lt i_lt h_lt d_lt
                      (λ te he. other (program_eq f math p own te he e))
            ]
      ]

  own_lt : own.token_idx < r.batch_size * r.seq_len
  own_lt = let le = mul-le-mul_right r.seq_len b_lt in omega arith

  own_row : (b * r.seq_len + i) / r.seq_len ≡ b
  own_row =
      let e : b + 0 ≡ b = omega arith in
      mul-add-div_right {m = r.seq_len} (omega arith) b i ∙ ap (λ k. b + k) (div-eq_of_lt i_lt) ∙ e

  own_place : (b * r.seq_len + i) % r.seq_len ≡ i
  own_place = mul-add-mod_self_right b r.seq_len i ∙ mod-eq_of_lt i_lt

  program_own :
      half_dim f math r ≤ r.block_dim
      → (t : Tensors f math)
      → buffer f math side (rope_program f math r own t) here
        ≡ rotated math r (strides f math r side) (buffer f math side t) b i h d
  unfolding rope_program
  program_own wide t =
      let mem = buffer f math side t in
      let s = strides f math r side in
      let stored = after (rotation f math r s mem (b * r.seq_len + i) h) mem in
      ap (λ u. buffer f math side u here) (if_true (ltb_true h (heads f math r side) h_lt) _ _)
      ∙ ap (λ m. m here) (buffer-set_buffer math side _ t)
      ∙ sym (ap₂ (λ b i. stored (offset s b i h d)) own_row own_place)
      ∙ rotation_own math r side (apart side) mem (b * r.seq_len + i) h own_lt h_lt wide d d_lt
      ∙ ap₂ (λ b i. rotated math r s mem b i h d) own_row own_place

  others_kept :
      (schedule : List (Program f math)) (t : Tensors f math)
      → AreInside math r schedule
      → Absent math r own schedule
      → buffer f math side (fused_rope_triton f math r schedule t) here ≡ buffer f math side t here
  unfolding fused_rope_triton
  others_kept [] t inside absent = refl
  others_kept (p ∷ schedule) t (p_lt, inside) (other, absent) =
      others_kept schedule (rope_program f math r p t) inside absent ∙ program_other p t p_lt other

module _ {f : FloatOps} (math : DeviceMath f) (r : Rope f math)
    (apart : (side : Side) → Apart math r side) (side : Side) (b i h d : ℕ)
    (b_lt : b < r.batch_size) (i_lt : i < r.seq_len) (h_lt : h < heads f math r side)
    (d_lt : d < r.head_dim) where
  abbrev entry : ℕ
  entry = offset (strides f math r side) b i h d

  abbrev program : Program f math
  program = record { token_idx = b * r.seq_len + i; head_idx = h; side = side }

  Once-rotated :
      half_dim f math r ≤ r.block_dim
      → (schedule : List (Program f math)) (t : Tensors f math) → AreInside math r schedule
      → Once math r program schedule
      → buffer f math side (fused_rope_triton f math r schedule t) entry
        ≡ rotated math r (strides f math r side) (buffer f math side t) b i h d
  unfolding fused_rope_triton
  Once-rotated wide [] t inside once = absurd once
  Once-rotated wide (p ∷ schedule) t (p_lt, inside) (inl (e, absent)) =
      others_kept math r apart side b i h d b_lt i_lt h_lt d_lt schedule (rope_program f math r p t)
        inside absent
      ∙ ap (λ p. buffer f math side (rope_program f math r p t) entry) e
      ∙ program_own math r apart side b i h d b_lt i_lt h_lt d_lt wide t
  Once-rotated wide (p ∷ schedule) t (p_lt, inside) (inr (other, once)) =
      Once-rotated wide schedule (rope_program f math r p t) inside once
      ∙ rotated_congr math r (strides f math r side) _ _ b i h d d_lt
          (λ e e_lt. program_other math r apart side b i h e b_lt i_lt h_lt e_lt p t p_lt other)

  -- When every program of the grid runs once, in whatever order, each pair of each head of both
  -- tensors is rotated once by its token's angles, in place, and an odd last dimension stays. This
  -- needs tensors whose strides keep their entries apart, and blocks as wide as half a head.
  pub fused_rope_triton-rotated :
      half_dim f math r ≤ r.block_dim
      → (schedule : List (Program f math)) → IsSchedule math r schedule
      → (t : Tensors f math)
      → buffer f math side
          (fused_rope_triton f math r schedule t)
          (offset (strides f math r side) b i h d)
        ≡ rotated math r (strides f math r side) (buffer f math side t) b i h d
  fused_rope_triton-rotated wide schedule all t =
      let inside = own_lt math r apart side b i h d b_lt i_lt h_lt d_lt in
      Once-rotated wide schedule t all.inside (all.once program inside (heads-max r side h h_lt))
