-- ===== src/Speculative/Verified.antt =====
-- What the verification of drafted columns keeps: those that are accepted, and one after a rejection.
use cudaforge.Prelude.{
  ◌↔◌, true, get_or, ℕ, zero, suc, ◌+◌, ◌<◌, ◌≡◌, refl, ap, ◌∙◌, List, [], ◌∷◌, ◌++◌, map, length,
  take, length-map, Bool-cases, nat_eq, inl, inr, ◌⊎◌, arith, if◌then◌else◌,
}
use cudaforge.Prelude.Int.{pos}
use cudaforge.Prelude.Float.{FloatOps}
use cudaforge.Speculative.Tensors.{Row, Rows, Column, Torch, zip_with}
use cudaforge.Speculative.Step.{
  SpeculativeEngine, draft, verify, accepts, at_positions, target_rows, modified,
}

module _ (f : FloatOps) (torch : Torch f) where
  pub length-draft :
      (t : f.Float) (k : ℕ) (ids : List Column) (rng : torch.Rng)
      → length (draft f torch t k ids rng).0 ≡ k
  unfolding draft
  length-draft t zero ids rng = refl
  length-draft t (suc k) ids rng = ap suc (length-draft t k _ _)

  length-at_positions :
      (n i : ℕ) (logits : List (Rows f)) → length (at_positions f torch n i logits) ≡ n
  unfolding at_positions
  length-at_positions zero i logits = refl
  length-at_positions (suc n) i logits = ap suc (length-at_positions n (i + 1) logits)

  pub length-target_rows :
      (e : SpeculativeEngine f) (ids : List Column) (ds : List (Column × Rows f))
      → length (target_rows f torch e ids ds) ≡ e.k
  unfolding target_rows
  length-target_rows e ids ds = length-map _ _ ∙ length-at_positions e.k 0 _

  abbrev pub columns : List (Column × Rows f) → List Column
  columns = map (λ (d : Column × Rows f). d.0)

  -- Every sequence of the batch takes its token: its random number is below the target's probability of
  -- the token over the draft's, or below one where that ratio is larger.
  abbrev pub AreAccepted : Row f → Column → Rows f → Rows f → Type 0
  AreAccepted (r ∷ rs) (t ∷ ts) (q ∷ qs) (p ∷ ps) =
      let zero_ = f.lit (pos 0) 1 in
      let one = f.lit (pos 10) 1 in
      let x = f.div (get_or q t zero_) (f.add (get_or p t zero_) (f.lit (pos 1) 8)) in
      (f.ltb r (if f.ltb x one then x else one) ≡ true) × AreAccepted rs ts qs ps
  AreAccepted _ _ _ _ = Unit

  accepts_iff :
      (r : Row f) (token : Column) (target probs : Rows f)
      → (accepts f torch r target (token, probs) ≡ true) ↔ AreAccepted r token target probs
  unfolding accepts
  accepts_iff [] token target probs = (λ e. tt, λ h. refl)
  accepts_iff (r ∷ rs) [] [] probs = (λ e. tt, λ h. refl)
  accepts_iff (r ∷ rs) [] (q ∷ qs) probs = (λ e. tt, λ h. refl)
  accepts_iff (r ∷ rs) (t ∷ ts) [] probs = (λ e. tt, λ h. refl)
  accepts_iff (r ∷ rs) (t ∷ ts) (q ∷ qs) [] = (λ e. tt, λ h. refl)
  accepts_iff (r ∷ rs) (t ∷ ts) (q ∷ qs) (p ∷ ps) =
      let rest = accepts_iff rs ts qs ps in ground (arith, rest)

  -- With these random numbers every drafted column is accepted.
  abbrev pub Accepts : List (Column × Rows f) → List (Rows f) → torch.Rng → Type 0
  Accepts (d ∷ ds) (t ∷ targets) rng =
      let (r, rng') = torch.rand (length d.0) rng in
      AreAccepted r d.0 t d.1 × Accepts ds targets rng'
  Accepts _ _ rng = Unit

  -- With these random numbers the first `n` columns are accepted and the next one is not, and `c` is
  -- drawn from the modified distribution at its position.
  abbrev pub Rejects : ℕ → List (Column × Rows f) → List (Rows f) → torch.Rng → Column → Type 0
  Rejects n [] targets rng c = ⊥
  Rejects n (d ∷ ds) [] rng c = ⊥
  Rejects zero (d ∷ ds) (t ∷ targets) rng c =
      let (r, rng') = torch.rand (length d.0) rng in
      (AreAccepted r d.0 t d.1 → ⊥)
      × (c ≡ (torch.multinomial (zip_with (modified f torch) t d.1) rng').0)
  Rejects (suc n) (d ∷ ds) (t ∷ targets) rng c =
      let (r, rng') = torch.rand (length d.0) rng in
      AreAccepted r d.0 t d.1 × Rejects n ds targets rng' c

  -- The verified columns are all the drafted ones, or those before a rejection and one more.
  abbrev pub IsVerified : List (Column × Rows f) → List (Rows f) → torch.Rng → List Column → Type 0
  IsVerified ds targets rng tokens =
      (Accepts ds targets rng × (tokens ≡ columns ds))
      ⊎ ((n : ℕ) × (c : Column) × Rejects n ds targets rng c
          × (n < length ds)
          × (tokens ≡ take n (columns ds) ++ c ∷ []))

  pub verify-IsVerified :
      (ds : List (Column × Rows f)) (targets : List (Rows f)) (rng : torch.Rng)
      → length targets ≡ length ds
      → IsVerified ds targets rng (verify f torch ds targets rng).0
  unfolding verify
  verify-IsVerified [] [] rng e = inl (tt, refl)
  verify-IsVerified [] (t ∷ targets) rng e = absurd (omega arith)
  verify-IsVerified (d ∷ ds) [] rng e = absurd (omega arith)
  verify-IsVerified (d ∷ ds) (t ∷ targets) rng e =
      let (r, rng') = torch.rand (length d.0) rng in
      let accepted = accepts_iff r d.0 t d.1 in
      elim (Bool-cases (accepts f torch r t d)) [
        | inr no_ ↦ inr (
          0,
          (torch.multinomial (zip_with (modified f torch) t d.1) rng').0,
          (λ h. cc (accepted.1 h, no_), refl),
          omega arith,
          rw no_ refl,
        )
        | inl yes_ ↦ elim (verify-IsVerified ds targets rng' (omega arith)) [
          | inl (all_, same) ↦ inl ((accepted.0 yes_, all_), rw yes_ (ap (λ l. d.0 ∷ l) same))
          | inr (n, c, rejects, lt, eq) ↦
              inr
                (suc n, c, (accepted.0 yes_, rejects), omega arith, rw yes_ (ap (λ l. d.0 ∷ l) eq))
        ]
      ]
