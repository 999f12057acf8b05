-- ===== src/Eval/Accuracy/Subsequence.antt =====
-- Common subsequences of the prefixes of two sequences, and the length of a longest one.
use cudaforge.Prelude.{
  ℕ, zero, suc, ◌+◌, ◌≤◌, ◌≡◌, refl, max, Bool, List, [], ◌∷◌, some, length, get_elem?, get_or,
  get_of_lt, get_or_of_get, nat_beq, nat_beq_iff, Bool-cases, inl, inr, arith, if◌then◌else◌,
}
use native.Mathlib.Decide.{dec_le}

-- `Within a l i`: read backwards, `l` is a subsequence of the first `i` elements of `a`.
pub data Within (a : List ℕ) : List ℕ → ℕ → Type 0 where
  none_left : Within a [] zero
  skip : {l : List ℕ} {i : ℕ} → Within a l i → Within a l (suc i)
  keep :
      {l : List ℕ} {i : ℕ} (x : ℕ)
      → get_elem? a i ≡ some x
      → Within a l i
      → Within a (x ∷ l) (suc i)

module _ (a b : List ℕ) where
  same : ℕ → ℕ → Bool
  same i j = nat_beq (get_or a i 0) (get_or b j 0)

  -- The recurrence of the table.
  unfoldable pub longest : ℕ → ℕ → ℕ
  longest zero j = 0
  longest (suc i) zero = 0
  longest (suc i) (suc j) =
      let both = longest i j in
      let left = longest i (suc j) in
      let up = longest (suc i) j in
      if nat_beq (get_or a i 0) (get_or b j 0) then both + 1 else max left up

  longest-zero : (i : ℕ) → longest i zero ≡ 0
  unfolding longest
  longest-zero zero = refl
  longest-zero (suc i) = refl

  record IsSmooth (i j : ℕ) : Type 0 where
    down : longest i j ≤ longest (suc i) j
    right : longest i j ≤ longest i (suc j)
    down_one : longest (suc i) j ≤ longest i j + 1
    right_one : longest i (suc j) ≤ longest i j + 1

  smooth : (i j : ℕ) → IsSmooth i j
  unfolding longest
  smooth zero zero = omega arith
  smooth zero (suc j) = let h = smooth zero j in ground arith
  smooth (suc i) zero = let h = smooth i zero in ground (arith, longest-zero i)
  smooth (suc i) (suc j) =
      let h = smooth i j in
      let u = smooth i (suc j) in
      let v = smooth (suc i) j in ground (arith, smooth i (suc j), smooth (suc i) j)

  -- No common subsequence of two prefixes is longer.
  pub longest_bounds : (i j : ℕ) (l : List ℕ) → Within a l i → Within b l j → length l ≤ longest i j
  unfolding longest
  longest_bounds i j l none_left v = omega arith
  longest_bounds (suc i) j l (skip u) v = omega (arith, (smooth i j).down, longest_bounds i j l u v)
  longest_bounds (suc i) zero (x ∷ l) (keep _ at u) v = elim v [ ]
  longest_bounds (suc i) (suc j) l (keep x at u) (skip v) =
      omega (arith, (smooth (suc i) j).right, longest_bounds (suc i) j l (keep x at u) v)
  longest_bounds (suc i) (suc j) (x ∷ l) (keep _ at u) (keep _ at' v) =
      ground (arith, longest_bounds i j l u v, get_or_of_get a i 0 at, get_or_of_get b j 0 at')

  skip_all : (c : List ℕ) (j : ℕ) → Within c [] j
  skip_all c zero = none_left
  skip_all c (suc j) = skip (skip_all c j)

  -- Some common subsequence has that length.
  pub longest_attained :
      (i j : ℕ)
      → i ≤ length a
      → j ≤ length b
      → (l : List ℕ) × Within a l i × Within b l j × (length l ≡ longest i j)
  unfolding longest
  longest_attained zero j p q = ([], none_left, skip_all b j, refl)
  longest_attained (suc i) zero p q = ([], skip_all a (suc i), none_left, refl)
  longest_attained (suc i) (suc j) p q = elim (Bool-cases (nat_beq (get_or a i 0) (get_or b j 0))) [
    | inl e ↦
        let (x, at) = get_of_lt a i p in
        let (y, at') = get_of_lt b j q in
        let e' : x ≡ y = omega (
          arith,
          (nat_beq_iff (get_or a i 0) (get_or b j 0)).0 e,
          get_or_of_get a i 0 at,
          get_or_of_get b j 0 at',
        ) in
        let (l, u, v, len) = longest_attained i j (omega arith) (omega arith) in
        (x ∷ l, keep x at u, keep x (rw e' at') v, rw e (omega (arith, len)))
    | inr ne ↦ elim (dec_le (longest (suc i) j) (longest i (suc j))) [
      | yes le ↦
          let (l, u, v, len) = longest_attained i (suc j) (omega arith) q in
          (l, skip u, v, rw ne (omega (arith, len)))
      | no gt ↦
          let (l, u, v, len) = longest_attained (suc i) j p (omega arith) in
          (l, u, skip v, rw ne (omega (arith, len)))
    ]
  ]
