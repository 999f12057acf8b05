-- ===== src/Profiling/Keys.antt =====
-- Lists of different keys, and filters on them.
use cudaforge.Prelude.{
  if_true, if_false, ◌≡◌, refl, sym, ap, ◌∙◌, Bool, true, false, ◌||◌, ◌&&◌, not, Bool-cases, inl,
  inr, List, [], ◌∷◌, ◌++◌, Option, none, some, Eq, ◌==◌, arith,
}
use mathlib.Core.Path.{subst}
use cudaforge.Profiling.Csv.{filter}

module _ {ℓ} {K : Type ℓ} ⦃e : Eq K⦄ where
  abbrev pub elem : K → List K → Bool
  elem k [] = false
  elem k (j ∷ js) = (j == k) || elem k js

  abbrev pub Distinct : List K → Type 0
  Distinct [] = Unit
  Distinct (k ∷ ks) = (elem k ks ≡ false) × Distinct ks

  pub elem-snoc : (j k : K) (ks : List K) → elem j (ks ++ k ∷ []) ≡ (elem j ks || (k == j))
  elem-snoc j k [] = elim (Bool-cases (k == j)) [ inl on ↦ rw on refl | inr off ↦ rw off refl ]
  elem-snoc j k (i ∷ is) = elim (Bool-cases (i == j)) [
    | inl on ↦ rw on refl
    | inr off ↦ rw off (elem-snoc j k is)
  ]

  pub Distinct-snoc :
      (k : K) (ks : List K) → Distinct ks → elem k ks ≡ false → Distinct (ks ++ k ∷ [])
  Distinct-snoc k [] distinct fresh = (refl, tt)
  Distinct-snoc k (j ∷ js) (new, distinct) fresh = (
    elem-snoc j k js ∙ ground (arith, e.beq_iff j k, e.beq_iff k j),
    Distinct-snoc k js distinct (ground arith),
  )

  pub ==-sym : (j k : K) → (j == k) ≡ true → (k == j) ≡ true
  ==-sym j k h = ground (arith, e.beq_iff j k, e.beq_iff k j)

  pub ==-sym_false : (j k : K) → (j == k) ≡ false → (k == j) ≡ false
  ==-sym_false j k h = ground (arith, e.beq_iff j k, e.beq_iff k j)

  pub elem-apart : (k j : K) (js : List K) → elem k js ≡ false → elem j js ≡ true → (k == j) ≡ false
  elem-apart k j js absent there = elim (Bool-cases (k == j)) [
    | inr off ↦ off
    | inl on ↦
        let here : elem j js ≡ false =
          subst (λ i. elem i js ≡ false) ((e.beq_iff k j).0 on) absent in
        absurd (cc (here, there))
  ]

module _ {ℓ} {A : Type ℓ} where
  filter-filter :
      (p q s : A → Bool)
      → ((x : A) → (p x && q x) ≡ s x)
      → (xs : List A) → filter q (filter p xs) ≡ filter s xs
  filter-filter p q s same [] = refl
  filter-filter p q s same (x ∷ xs) = ground (arith, same x, filter-filter p q s same xs)

  abbrev pub or_else : A → Option A → A
  or_else v none = v
  or_else v (some w) = w

hide_old : (a b : Bool) → (a ≡ true → b ≡ true) → (not a && not b) ≡ not b
hide_old true b h = ap not (sym (h refl))
hide_old false b h = refl

pub or_left : (a b : Bool) → (a || b) ≡ false → a ≡ false
or_left a b h = ground arith

pub or_right : (a b : Bool) → (a || b) ≡ false → b ≡ false
or_right a b h = ground arith

hide_new : (a b : Bool) → (not a && not b) ≡ not (b || a)
hide_new true true = refl
hide_new true false = refl
hide_new false true = refl
hide_new false false = refl

module _ {ℓ} {K : Type ℓ} ⦃e : Eq K⦄ where
  -- The names that are in neither list.
  pub keep_old :
      (k : K) (ks : List K) (L : List K)
      → elem k ks ≡ true
      → filter (λ j. not (elem j ks)) (k ∷ filter (λ j. not (k == j)) L)
        ≡ filter (λ j. not (elem j ks)) L
  keep_old k ks L there =
      if_false (ap not there) _ _
      ∙ filter-filter _ _ _
          (λ j.
            hide_old (k == j) (elem j ks)
              (λ on. subst (λ i. elem i ks ≡ true) ((e.beq_iff k j).0 on) there))
          L

  pub keep_new :
      (k : K) (ks : List K) (L : List K)
      → elem k ks ≡ false
      → filter (λ j. not (elem j ks)) (k ∷ filter (λ j. not (k == j)) L)
        ≡ k ∷ filter (λ j. not (elem j (ks ++ k ∷ []))) L
  keep_new k ks L absent =
      if_true (ap not absent) _ _
      ∙ ap (λ l. k ∷ l)
          (filter-filter _ _ _
            (λ j. hide_new (k == j) (elem j ks) ∙ ap not (sym (elem-snoc j k ks))) L)
