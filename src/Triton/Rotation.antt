-- ===== src/Triton/Rotation.antt =====
-- The rotary embedding rotates every pair of every head once, whatever the order of the programs.
use cudaforge.Prelude.{
  if_true, if_false, ltb_true, ltb_false, ltb-lt, ltb_false-le, ℕ, zero, suc, ◌+◌, ◌-◌, ◌*◌, ◌/◌,
  ◌%◌, ◌≤◌, ◌<◌, ◌≡◌, inl, inr, refl, sym, ap, ◌∙◌, true, Bool-cases, ltb, if◌then◌else◌, arith,
}
use mathlib.Core.Path.{subst, ap₂}
use native.Mathlib.Nat.{div-add-mod', div-lt_iff_lt-mul, mod-lt}
use cudaforge.Prelude.Float.{FloatOps}
use cudaforge.Triton.Device.{DeviceMath, each, after}
use cudaforge.Triton.FlashAttn.{Strides, offset}
use cudaforge.Triton.Stores.{
  Agree, hits, Agree-append, Agree-each, Agree-store, hits-append, hits-each, hits-store,
  after_value, after_kept,
}
use cudaforge.Triton.Launch.{IsLayout}
use cudaforge.Triton.Rope.{
  Side, Rope, half_dim, strides, heads, o1, o2, first_store, second_store, rotation,
}

module _ {f : FloatOps} (math : DeviceMath f) (r : Rope f math) where
  -- An entry after the rotation: of the first half, of the second half, or beyond both.
  unfoldable pub rotated : Strides → (ℕ → f.Float) → ℕ → ℕ → ℕ → ℕ → f.Float
  rotated s mem b i h d =
      let half = half_dim f math r in
      let at = λ (d : ℕ). mem (offset s b i h d) in
      let cos = λ (d : ℕ). r.cos (i * r.stride_cos_s + d * r.stride_cos_d) in
      let sin = λ (d : ℕ). r.sin (i * r.stride_sin_s + d * r.stride_sin_d) in
      if ltb d half
      then math.half (f.sub (f.mul (at d) (cos d)) (f.mul (at (d + half)) (sin d)))
      else if ltb d (half + half)
      then (let e = d - half in math.half (f.add (f.mul (at e) (sin e)) (f.mul (at d) (cos e))))
      else at d

  -- It depends on the entries of its own row alone.
  pub rotated_congr :
      (s : Strides) (mem mem' : ℕ → f.Float) (b i h d : ℕ)
      → d < r.head_dim
      → ((e : ℕ) → e < r.head_dim → mem (offset s b i h e) ≡ mem' (offset s b i h e))
      → rotated s mem b i h d ≡ rotated s mem' b i h d
  unfolding rotated
  rotated_congr s mem mem' b i h d d_lt same =
      let half = half_dim f math r in
      let cos = λ (d : ℕ). r.cos (i * r.stride_cos_s + d * r.stride_cos_d) in
      let sin = λ (d : ℕ). r.sin (i * r.stride_sin_s + d * r.stride_sin_d) in
      elim (Bool-cases (ltb d half)) [
        | inl on ↦
            let lt = ltb-lt d half on in
            if_true on _ _
            ∙ ap₂ (λ u v. math.half (f.sub (f.mul u (cos d)) (f.mul v (sin d)))) (same d d_lt)
                (same (d + half) (omega arith))
            ∙ sym (if_true on _ _)
        | inr off ↦ elim (Bool-cases (ltb d (half + half))) [
          | inl on ↦
              let e = d - half in
              if_false off _ _
              ∙ if_true on _ _
              ∙ ap₂ (λ u v. math.half (f.add (f.mul u (sin e)) (f.mul v (cos e))))
                  (same e (omega arith)) (same d d_lt)
              ∙ sym (if_true on _ _)
              ∙ sym (if_false off _ _)
          | inr beyond ↦
              if_false off _ _
              ∙ if_false beyond _ _
              ∙ same d d_lt
              ∙ sym (if_false beyond _ _)
              ∙ sym (if_false off _ _)
        ]
      ]

  -- The layout keeps the entries of a tensor apart.
  abbrev pub Apart : Side → Type 0
  Apart side =
      IsLayout (strides f math r side) r.batch_size r.seq_len (heads f math r side) r.head_dim

div-mod_bounds : (x n m : ℕ) → x < n * m → (x / m < n) × (x % m < m)
div-mod_bounds x n zero lt = absurd (omega arith)
div-mod_bounds x n (suc m) lt =
    let (there, back) = div-lt_iff_lt-mul {k = suc m} {x = x} {y = n} (omega arith) in
    (back lt, mod-lt x (omega arith))

module _ {f : FloatOps} (math : DeviceMath f) (r : Rope f math) (side : Side)
    (apart : Apart math r side) (mem : ℕ → f.Float) (token head : ℕ)
    (token_lt : token < r.batch_size * r.seq_len) (head_lt : head < heads f math r side) where
  abbrev s : Strides
  s = strides f math r side

  row_bounds : (token / r.seq_len < r.batch_size) × (token % r.seq_len < r.seq_len)
  row_bounds = div-mod_bounds token r.batch_size r.seq_len token_lt

  -- An entry of another token or head stays.
  pub rotation_other :
      (b i h d : ℕ) (b_lt : b < r.batch_size) (i_lt : i < r.seq_len)
      (h_lt : h < heads f math r side) (d_lt : d < r.head_dim)
      → (token ≡ b * r.seq_len + i → head ≡ h → ⊥)
      → after (rotation f math r s mem token head) mem (offset s b i h d) ≡ mem (offset s b i h d)
  rotation_other b i h d b_lt i_lt h_lt d_lt other =
      let here = offset s b i h d in
      let miss : (e : ℕ)
          → e < r.head_dim
          → offset s (token / r.seq_len) (token % r.seq_len) head e ≡ here
          → ⊥ =
        λ e e_lt p.
          let (bp, (ip, (hp, dp))) =
            apart.apart (token / r.seq_len) (token % r.seq_len) head e b i h d
              (row_bounds.0, (row_bounds.1, (head_lt, e_lt))) (b_lt, (i_lt, (h_lt, d_lt))) p in
          other (sym (div-add-mod' token r.seq_len) ∙ ap₂ (λ b i. b * r.seq_len + i) bp ip) hp in
      after_kept here (mem here) (rotation f math r s mem token head) mem
        (Agree-append here (mem here) _ _
          (Agree-each here (mem here) r.block_dim _ (λ e lt.
            Agree-store here (mem here) _ _ _
              (λ on p. let e_lt = ltb-lt e _ on in absurd (miss e (omega arith) p))))
          (Agree-each here (mem here) r.block_dim _ (λ e lt.
            Agree-store here (mem here) _ _ _ (λ on p.
              let e_lt = ltb-lt e _ on in absurd (miss (e + half_dim f math r) (omega arith) p)))))
        refl

  abbrev row : ℕ
  row = token / r.seq_len

  abbrev place : ℕ
  place = token % r.seq_len

  first_lane :
      (e : ℕ)
      → (on : ltb e (half_dim f math r) ≡ true)
      → math.half (o1 f math r s mem token head e (ltb e (half_dim f math r)))
        ≡ rotated math r s mem row place head e
  unfolding rotated
  first_lane e on = ap (λ b. math.half (o1 f math r s mem token head e b)) on ∙ sym (if_true on _ _)

  second_lane :
      (e : ℕ)
      → ltb e (half_dim f math r) ≡ true
      → math.half (o2 f math r s mem token head e (ltb e (half_dim f math r)))
        ≡ rotated math r s mem row place head (e + half_dim f math r)
  unfolding rotated
  second_lane e on =
      let half = half_dim f math r in
      let lt = ltb-lt e half on in
      let back : e ≡ e + half - half = omega arith in
      let cos = λ (d : ℕ). r.cos (place * r.stride_cos_s + d * r.stride_cos_d) in
      let sin = λ (d : ℕ). r.sin (place * r.stride_sin_s + d * r.stride_sin_d) in
      let at = λ (d : ℕ). mem (offset s row place head d) in
      let second = e + half in
      ap (λ b. math.half (o2 f math r s mem token head e b)) on
      ∙ ap (λ e. math.half (f.add (f.mul (at e) (sin e)) (f.mul (at second) (cos e)))) back
      ∙ sym (if_true (ltb_true (e + half) (half + half) (omega arith)) _ _)
      ∙ sym (if_false (ltb_false (e + half) half (omega arith)) _ _)

  -- The entries of the program's own token and head are rotated.
  pub rotation_own :
      half_dim f math r ≤ r.block_dim
      → (d : ℕ) → d < r.head_dim
      → after (rotation f math r s mem token head) mem (offset s row place head d)
        ≡ rotated math r s mem row place head d
  unfolding rotated
  rotation_own wide d d_lt =
      let half = half_dim f math r in
      let here = offset s row place head d in
      let x = rotated math r s mem row place head d in
      let same : (e : ℕ) → e < r.head_dim → offset s row place head e ≡ here → e ≡ d = λ e e_lt p.
        (apart.apart row place head e row place head d
          (row_bounds.0, (row_bounds.1, (head_lt, e_lt)))
          (row_bounds.0, (row_bounds.1, (head_lt, d_lt))) p).1.1.1 in
      let agree : Agree here x (rotation f math r s mem token head) =
        Agree-append here x _ _
          (Agree-each here x r.block_dim _ (λ e lt. Agree-store here x _ _ _ (λ on p.
            let e_lt = ltb-lt e _ on in
            first_lane e on ∙ ap (rotated math r s mem row place head) (same e (omega arith) p))))
          (Agree-each here x r.block_dim _ (λ e lt. Agree-store here x _ _ _ (λ on p.
            let e_lt = ltb-lt e _ on in
            second_lane e on
            ∙ ap (rotated math r s mem row place head) (same (e + half) (omega arith) p)))) in
      let first = first_store f math r s mem token head in
      let second = second_store f math r s mem token head in
      elim (Bool-cases (ltb d half)) [
        | inl on ↦
            let lt = ltb-lt d half on in
            after_value here x (rotation f math r s mem token head) mem agree (
              hits-append here _ _ (
                inl (
                  hits-each here d r.block_dim first (omega arith)
                    (hits-store here (ltb d half) _ on))))
        | inr off ↦ elim (Bool-cases (ltb d (half + half))) [
          | inl on ↦
              let lt = ltb-lt d (half + half) on in
              let le = ltb_false-le d half off in
              let back : d - half + half ≡ d = omega arith in
              let inside = ltb_true (d - half) half (omega arith) in
              let hit : hits here (second (d - half)) ≡ true =
                subst (λ b. hits (offset s row place head b) (second (d - half)) ≡ true) back
                  (hits-store (offset s row place head (d - half + half)) (ltb (d - half) half) _
                    inside) in
              after_value here x (rotation f math r s mem token head) mem agree (
                hits-append here (each r.block_dim first) _
                  (inr (hits-each here (d - half) r.block_dim second (omega arith) hit)))
          | inr beyond ↦
              after_kept here x (rotation f math r s mem token head) mem agree
                (sym (if_false off _ _ ∙ if_false beyond _ _))
        ]
      ]
