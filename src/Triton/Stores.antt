-- ===== src/Triton/Stores.antt =====
-- Memory after stores in any order, as long as those to one element agree.
use cudaforge.Prelude.{
  ℕ, zero, suc, ◌<◌, ◌≡◌, ◌⊎◌, inl, inr, refl, Bool, true, false, List, [], ◌∷◌, ◌++◌, nat_beq,
  nat_beq_iff, if◌then◌else◌, arith,
}
use native.Mathlib.Decide.{ℕ_discrete}
use cudaforge.Triton.Device.{each, after, store}

-- Every store to element `a` puts `x` there.
abbrev pub Agree {ℓ} : {A : Type ℓ} → ℕ → A → List (ℕ × A) → Type ℓ
Agree a x [] = Unit
Agree a x ((b, v) ∷ stores) = (b ≡ a → v ≡ x) × Agree a x stores

module _ {ℓ} {A : Type ℓ} where
  -- There is a store to element `a`.
  abbrev pub hits : ℕ → List (ℕ × A) → Bool
  hits a [] = false
  hits a ((b, v) ∷ stores) = if nat_beq b a then true else hits a stores

  pub Agree-append :
      (a : ℕ) (x : A) (s t : List (ℕ × A)) → Agree a x s → Agree a x t → Agree a x (s ++ t)
  Agree-append a x [] t p q = q
  Agree-append a x (w ∷ s) t (h, p) q = (h, Agree-append a x s t p q)

  pub Agree-each :
      (a : ℕ) (x : A) (n : ℕ) (body : ℕ → List (ℕ × A))
      → ((i : ℕ) → i < n → Agree a x (body i))
      → Agree a x (each n body)
  Agree-each a x zero body h = tt
  Agree-each a x (suc n) body h =
      Agree-append a x (each n body) (body n) (Agree-each a x n body (λ i lt. h i (omega arith)))
        (h n (omega arith))

  pub Agree-store :
      (a : ℕ) (x : A) (mask : Bool) (offset : ℕ) (v : A)
      → (mask ≡ true → offset ≡ a → v ≡ x)
      → Agree a x (store mask offset v)
  Agree-store a x true offset v h = (h refl, tt)
  Agree-store a x false offset v h = tt

  pub hits-append :
      (a : ℕ) (s t : List (ℕ × A)) → (hits a s ≡ true) ⊎ (hits a t ≡ true) → hits a (s ++ t) ≡ true
  hits-append a [] t (inl h) = absurd (cc h)
  hits-append a [] t (inr h) = h
  hits-append a (w ∷ s) t h = ground (arith, hits-append a s t)

  pub hits-each :
      (a i n : ℕ) (body : ℕ → List (ℕ × A))
      → i < n
      → hits a (body i) ≡ true
      → hits a (each n body) ≡ true
  hits-each a i zero body lt h = absurd (omega arith)
  hits-each a i (suc n) body lt h = hits-append a (each n body) (body n) (elim (ℕ_discrete i n) [
    | yes e ↦ inr (rw e at h)
    | no ne ↦ inl (hits-each a i n body (omega arith) h)
  ])

  pub hits-store : (a : ℕ) (mask : Bool) (v : A) → mask ≡ true → hits a (store mask a v) ≡ true
  hits-store a mask v h = ground (arith, nat_beq_iff a a)

  pub after_kept :
      (a : ℕ) (x : A) (s : List (ℕ × A)) (mem : ℕ → A) → Agree a x s → mem a ≡ x → after s mem a ≡ x
  after_kept a x [] mem p e = e
  after_kept a x ((b, v) ∷ s) mem (h, p) e =
      after_kept a x s (λ c. if nat_beq b c then v else mem c) p (ground (arith, h, e))

  pub after_value :
      (a : ℕ) (x : A) (s : List (ℕ × A)) (mem : ℕ → A)
      → Agree a x s
      → hits a s ≡ true
      → after s mem a ≡ x
  after_value a x [] mem p h = absurd (cc h)
  after_value a x ((b, v) ∷ s) mem (g, p) h = elim (ℕ_discrete b a) [
    | yes e ↦ after_kept a x s (λ c. if nat_beq b c then v else mem c) p (ground (arith, g, e))
    | no ne ↦ after_value a x s (λ c. if nat_beq b c then v else mem c) p (ground (arith, h, ne))
  ]
