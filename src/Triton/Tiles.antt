-- ===== src/Triton/Tiles.antt =====
-- The accumulators of a row after some tiles are those of one pass over their columns.
use cudaforge.Prelude.{
  ℕ, zero, suc, ◌+◌, ◌*◌, ◌≡◌, ◌⊎◌, inl, inr, refl, sym, ap, ◌∙◌, List, [], ◌∷◌, ◌++◌, map, arith,
}
use mathlib.Core.Path.{subst}
use mathlib.Core.List.{append_assoc, append-nil}
use cudaforge.Prelude.Float.{FloatOps}
use cudaforge.Triton.Device.{DeviceMath, ExactMath, zero_float, sum, range}
use cudaforge.Triton.OnlineSoftmax.{
  range-add, top, denominator, numerator, sum-map-append, top-append, denominator_rescaled,
  numerator_rescaled,
}
use cudaforge.Triton.FlashAttn.{Attention, Row, block, qk_at, v_at, tile, tiles, fresh_row}

module _ {f : FloatOps} {math : DeviceMath f} (x : ExactMath f math) (a : Attention f math)
    (z h m : ℕ) where
  abbrev score : ℕ → f.Float
  score = qk_at f math a z h m

  abbrev value : ℕ → ℕ → f.Float
  value d n = v_at f math a z h m n d

  pub record HasSeen (ns : List ℕ) (r : Row f math) : Type 0 where
    pub maximum : r.m_i ≡ top f math score ns
    pub weights : r.l_i ≡ denominator f math score r.m_i ns
    pub sums : (d : ℕ) → r.acc d ≡ numerator f math score (value d) r.m_i ns

  half_weights :
      (m' : f.Float) (d : ℕ) (ns : List ℕ)
      → sum f (map (λ n. f.mul (math.half (math.exp (f.sub (score n) m'))) (value d n)) ns)
        ≡ numerator f math score (value d) m' ns
  half_weights m' d [] = refl
  half_weights m' d (n ∷ ns) =
      rw (x.half_exact (math.exp (f.sub (score n) m')), half_weights m' d ns) refl

  -- Nothing was seen, or the maximum so far is a number.
  abbrev IsReady : List ℕ → Row f math → Type 0
  IsReady ns r = (ns ≡ []) ⊎ x.IsFinite r.m_i

  denominator_carried :
      (ns : List ℕ) (r : Row f math) (m' : f.Float)
      → HasSeen ns r
      → IsReady ns r
      → x.IsFinite m'
      → f.mul r.l_i (math.exp (f.sub r.m_i m')) ≡ denominator f math score m' ns
  denominator_carried ns r m' seen (inl e) finite =
      let none_yet : r.l_i ≡ zero_float f = seen.weights ∙ ap (denominator f math score r.m_i) e in
      rw (none_yet, e) (x.zero-mul _ (x.exp_finite r.m_i m' finite))
  denominator_carried ns r m' seen (inr known) finite =
      rw (seen.weights) (denominator_rescaled x score r.m_i m' known finite ns)

  numerator_carried :
      (ns : List ℕ) (r : Row f math) (m' : f.Float) (d : ℕ)
      → HasSeen ns r
      → IsReady ns r
      → x.IsFinite m'
      → f.mul (r.acc d) (math.exp (f.sub r.m_i m')) ≡ numerator f math score (value d) m' ns
  numerator_carried ns r m' d seen (inl e) finite =
      let none_yet : r.acc d ≡ zero_float f =
        seen.sums d ∙ ap (numerator f math score (value d) r.m_i) e in
      rw (none_yet, e) (x.zero-mul _ (x.exp_finite r.m_i m' finite))
  numerator_carried ns r m' d seen (inr known) finite =
      rw (seen.sums d) (numerator_rescaled x score r.m_i m' known finite (value d) ns)

  tile-HasSeen :
      (start_n : ℕ) (ns : List ℕ) (r : Row f math)
      → HasSeen ns r
      → IsReady ns r
      → x.IsFinite (tile f math a z h m start_n r).m_i
      → HasSeen (ns ++ range start_n block) (tile f math a z h m start_n r)
  unfolding tile
  tile-HasSeen start_n ns r seen ready finite =
      let cols = range start_n block in
      let m' = math.maximum r.m_i (top f math score cols) in
      record {
        maximum =
            ap (λ b. math.maximum b (top f math score cols)) seen.maximum
            ∙ sym (top-append x score ns cols);
        weights =
            ap (λ b. f.add b (denominator f math score m' cols))
              (denominator_carried ns r m' seen ready finite)
            ∙ sym (sum-map-append x (λ n. math.exp (f.sub (score n) m')) ns cols);
        sums = λ d.
            ap (f.add _) (half_weights m' d cols)
            ∙ ap (λ b. f.add b (numerator f math score (value d) m' cols))
                (numerator_carried ns r m' d seen ready finite)
            ∙ sym
                (sum-map-append x (λ n. f.mul (math.exp (f.sub (score n) m')) (value d n)) ns cols);
      }

  tiles-HasSeen :
      (n start_n : ℕ) (ns : List ℕ) (r : Row f math)
      → HasSeen ns r
      → x.IsFinite r.m_i
      → HasSeen (ns ++ range start_n (n * block)) (tiles f math a z h m n start_n r)
  unfolding tiles tile
  tiles-HasSeen zero start_n ns r seen known = rw (append-nil ns) seen
  tiles-HasSeen (suc n) start_n ns r seen known =
      let finite = x.max_finite r.m_i (top f math score (range start_n block)) known in
      let next = tile-HasSeen start_n ns r seen (inr known) finite in
      let all = tiles-HasSeen n (start_n + block) (ns ++ range start_n block) _ next finite in
      let size : suc n * block ≡ block + n * block = omega arith in
      rw
        (
          size,
          range-add start_n block (n * block),
          ← append_assoc ns (range start_n block) (range (start_n + block) (n * block)),
        )
        all

  -- After all tiles from column 0 on.
  pub tiles-HasSeen_all :
      (n : ℕ)
      → x.IsFinite (score 0)
      → HasSeen
          (range 0 (suc n * block))
          (tiles f math a z h m (suc n) 0 (fresh_row f math a z h m))
  unfolding tiles tile
  tiles-HasSeen_all n known =
      let fresh = fresh_row f math a z h m in
      let cols = range 0 block in
      let rest = range 1 63 in
      let number : x.IsFinite (top f math score cols) =
        x.max_finite (score 0) (top f math score rest) known in
      let finite = subst x.IsFinite (sym (x.neg_inf-max (top f math score cols))) number in
      let first =
        tile-HasSeen 0 [] fresh (record { maximum = refl; weights = refl; sums = λ d. refl })
          (inl refl) finite in
      let all = tiles-HasSeen n block cols (tile f math a z h m 0 fresh) first finite in
      let size : suc n * block ≡ block + n * block = omega arith in
      rw (size, range-add 0 block (n * block)) all
