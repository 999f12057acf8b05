-- ===== src/Eval/Pareto/Maximal.antt =====
-- In a finite list, whatever is dominated is dominated by a row that nothing dominates.
use cudaforge.Prelude.{
  ℕ, zero, suc, ◌+◌, ◌≤◌, ◌<◌, ◌≡◌, refl, Bool, true, false, List, [], ◌∷◌, some, get_elem?,
  Bool-cases, inl, inr, arith, if◌then◌else◌,
}

module _ {ℓ} {R : Type ℓ} where
  abbrev any : (R → Bool) → List R → Bool
  any p [] = false
  any p (r ∷ rs) = if p r then true else any p rs

  count : (R → Bool) → List R → ℕ
  count p [] = 0
  count p (r ∷ rs) = (if p r then 1 else 0) + count p rs

  find :
      (p : R → Bool) (rs : List R)
      → any p rs ≡ true
      → (k : ℕ) × (r : R) × (get_elem? rs k ≡ some r) × (p r ≡ true)
  find p [] h = cc
  find p (r ∷ rs) h = elim (Bool-cases (p r)) [
    | inl here ↦ (0, r, refl, here)
    | inr there ↦ let (k, r', at, hit) = find p rs (ground arith) in (suc k, r', at, hit)
  ]

  any_of_get :
      (p : R → Bool) (rs : List R) (k : ℕ) {r : R}
      → get_elem? rs k ≡ some r
      → p r ≡ true
      → any p rs ≡ true
  any_of_get p [] k at hit = cc
  any_of_get p (x ∷ rs) zero at hit = ground arith
  any_of_get p (x ∷ rs) (suc k) at hit = ground (arith, any_of_get p rs k at hit)

  count_mono :
      (p q : R → Bool) (rs : List R) → ((r : R) → p r ≡ true → q r ≡ true) → count p rs ≤ count q rs
  unfolding count
  count_mono p q [] h = omega arith
  count_mono p q (r ∷ rs) h = ground (arith, h r, count_mono p q rs h)

  count_strict :
      (p q : R → Bool) (rs : List R) (k : ℕ) {r : R}
      → ((r : R) → p r ≡ true → q r ≡ true)
      → get_elem? rs k ≡ some r
      → p r ≡ false
      → q r ≡ true
      → count p rs < count q rs
  unfolding count
  count_strict p q [] k h at no_p hit = cc
  count_strict p q (x ∷ rs) zero h at no_p hit = ground (arith, count_mono p q rs h)
  count_strict p q (x ∷ rs) (suc k) h at no_p hit =
      ground (arith, h x, count_strict p q rs k h at no_p hit)

module _ {ℓ} {R : Type ℓ} (dominates : R → R → Bool) where
  -- Some row of the list dominates `row`.
  abbrev pub is_dominated : R → List R → Bool
  is_dominated row = any (λ r. dominates r row)

module _ {ℓ} {R : Type ℓ} (dominates : R → R → Bool) (irreflexive : (r : R) → dominates r r ≡ false)
    (transitive : (a b c : R)
      → dominates a b ≡ true
      → dominates b c ≡ true
      → dominates a c ≡ true) where
  maximal_below :
      (n : ℕ) (rs : List R) (row : R)
      → count (λ r. dominates r row) rs < n
      → is_dominated dominates row rs ≡ true
      → (k : ℕ) × (r : R) × (get_elem? rs k ≡ some r)
        × (dominates r row ≡ true)
        × (is_dominated dominates r rs ≡ false)
  maximal_below zero rs row few h = elim few [ ]
  maximal_below (suc n) rs row few h =
      let (k, r, at, hit) = find (λ r. dominates r row) rs h in
      elim (Bool-cases (is_dominated dominates r rs)) [
        | inr free ↦ (k, r, at, hit, free)
        | inl again ↦
            let fewer =
              count_strict (λ s. dominates s r) (λ s. dominates s row) rs k
                (λ s p. transitive s r row p hit) at (irreflexive r) hit in
            let (k', r', at', hit', free) = maximal_below n rs r (omega (arith, fewer)) again in
            (k', r', at', transitive r' r row hit' hit, free)
      ]

  pub maximal_dominator :
      (rs : List R) (row : R)
      → is_dominated dominates row rs ≡ true
      → (k : ℕ) × (r : R) × (get_elem? rs k ≡ some r)
        × (dominates r row ≡ true)
        × (is_dominated dominates r rs ≡ false)
  maximal_dominator rs row h =
      maximal_below (suc (count (λ r. dominates r row) rs)) rs row (omega arith) h
