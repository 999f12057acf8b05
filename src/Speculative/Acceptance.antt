-- ===== src/Speculative/Acceptance.antt =====
-- What one round of speculation emits, and how it moves the counters.
use cudaforge.Prelude.{
  ℕ, suc, ◌+◌, ◌≤◌, ◌<◌, ◌≡◌, refl, ap, sym, ◌∙◌, List, [], ◌∷◌, ◌++◌, some, length, take,
  length-append, length-map, length-take, nat_beq, nat_beq_iff, beq_of_ne, nat_eq, inl, inr, arith,
  if◌then◌else◌,
}
use cudaforge.Prelude.Float.{FloatOps}
use cudaforge.Speculative.Tensors.{Rows, Column, Torch}
use cudaforge.Speculative.Step.{
  SpeculativeEngine, SpeculativeBatchResult, draft, verify, target_rows, bonus_token, step,
}
use native.Mathlib.Decide.{ℕ_discrete}
use cudaforge.Speculative.Verified.{
  length-draft, length-target_rows, IsVerified, verify-IsVerified, columns, Accepts, Rejects,
}

module _ (f : FloatOps) (torch : Torch f) where
  -- The three ways a round can end, over the drafts, the target's rows, the generator and the bonus.
  pub data Ends (ds : List (Column × Rows f)) (targets : List (Rows f)) (rng : torch.Rng)
      (bonus : Column) (tokens : List Column) : Type 0 where
    all_accepted :
        Accepts f torch ds targets rng
        → tokens ≡ columns f torch ds ++ bonus ∷ []
        → Ends ds targets rng bonus tokens
    rejected :
        (n : ℕ) (c : Column)
        → Rejects f torch n ds targets rng c
        → suc n < length ds
        → tokens ≡ take n (columns f torch ds) ++ c ∷ []
        → Ends ds targets rng bonus tokens
    rejected_last :
        (n : ℕ) (c : Column)
        → Rejects f torch n ds targets rng c
        → suc n ≡ length ds
        → tokens ≡ (take n (columns f torch ds) ++ c ∷ []) ++ bonus ∷ []
        → Ends ds targets rng bonus tokens

  length-columns : (ds : List (Column × Rows f)) → length (columns f torch ds) ≡ length ds
  length-columns ds = length-map _ ds

  ends :
      (k : ℕ) (ds : List (Column × Rows f)) (targets : List (Rows f)) (rng : torch.Rng)
      (accepted : List Column) (bonus : Column)
      → length ds ≡ k
      → IsVerified f torch ds targets rng accepted
      → Ends ds targets rng bonus
          (if nat_beq (length accepted) k then accepted ++ bonus ∷ [] else accepted)
  ends k ds targets rng accepted bonus e (inl (all_, same)) =
      rw (same, (nat_beq_iff (length (columns f torch ds)) k).1 (length-columns ds ∙ e))
        (all_accepted all_ refl)
  ends k ds targets rng accepted bonus e (inr (n, c, rejects, lt, same)) =
      let size = length-columns ds in
      let len : length (take n (columns f torch ds) ++ c ∷ []) ≡ suc n = omega (
        arith,
        size,
        length-append {0} (take n (columns f torch ds)) (c ∷ []),
        length-take {0} n (columns f torch ds),
      ) in
      elim (ℕ_discrete (suc n) k) [
        | yes full ↦
            rw (same, len, (nat_beq_iff (suc n) k).1 full)
              (rejected_last n c rejects (omega arith) refl)
        | no short ↦
            rw (same, len, beq_of_ne (suc n) k short) (rejected n c rejects (omega arith) refl)
      ]

  length-Ends :
      (ds : List (Column × Rows f)) (targets : List (Rows f)) (rng : torch.Rng) (bonus : Column)
      (tokens : List Column)
      → Ends ds targets rng bonus tokens
      → 0 < length ds
      → (1 ≤ length tokens) × (length tokens ≤ length ds + 1)
  length-Ends ds targets rng b tokens (all_accepted a e) p =
      rw e (omega (arith, length-columns ds, length-append {0} (columns f torch ds) (b ∷ [])))
  length-Ends ds targets rng b tokens (rejected n c a lt e) p = rw e (
      omega (
        arith,
        length-columns ds,
        length-append {0} (take n (columns f torch ds)) (c ∷ []),
        length-take {0} n (columns f torch ds),
      ))
  length-Ends ds targets rng b tokens (rejected_last n c a eq e) p = rw e (
      omega (
        arith,
        length-columns ds,
        length-append {0} (take n (columns f torch ds) ++ c ∷ []) (b ∷ []),
        length-append {0} (take n (columns f torch ds)) (c ∷ []),
        length-take {0} n (columns f torch ds),
      ))

  -- A round that does not raise emits the drafted columns and a bonus, if all of them are accepted; or
  -- the columns before the first that is rejected and a replacement from the modified distribution; or,
  -- if that rejection is at the last position, a replacement and a bonus after it. A column is accepted
  -- if for every sequence the random number drawn at that position is below the target's probability of
  -- its token over the draft's, cut at one. The round counts what it emits, between one and `k + 1`
  -- columns, and adds `k` and this count to the totals.
  pub step_emits :
      (ids : List Column) (rng rng' : torch.Rng) (e e' : SpeculativeEngine f)
      (result : SpeculativeBatchResult f)
      → step f torch ids rng e ≡ some (result, e', rng')
      → let drafted = draft f torch e.temperature e.k ids rng in
        let targets = target_rows f torch e ids drafted.0 in
        let verified = verify f torch drafted.0 targets drafted.1 in
        Ends drafted.0 targets drafted.1
          (bonus_token f torch e ids drafted.0 verified.1).0
          result.accepted_tokens
        × (result.num_accepted ≡ length result.accepted_tokens)
        × (1 ≤ result.num_accepted)
        × (result.num_accepted ≤ e.k + 1)
        × (e'.total_draft_tokens ≡ e.total_draft_tokens + e.k)
        × (e'.total_accepted_tokens ≡ e.total_accepted_tokens + result.num_accepted)
  unfolding step
  step_emits ids rng rng' e e' result h =
      let drafted = draft f torch e.temperature e.k ids rng in
      let targets = target_rows f torch e ids drafted.0 in
      let accepted = verify f torch drafted.0 targets drafted.1 in
      let bonus = (bonus_token f torch e ids drafted.0 accepted.1).0 in
      let tokens =
        if nat_beq (length accepted.0) e.k then accepted.0 ++ bonus ∷ [] else accepted.0 in
      let facts : (result.accepted_tokens ≡ tokens)
          × (result.num_accepted ≡ length tokens)
          × (0 < e.k)
          × (e'.total_draft_tokens ≡ e.total_draft_tokens + e.k)
          × (e'.total_accepted_tokens ≡ e.total_accepted_tokens + length tokens) =
        ground arith in
      let len = length-draft f torch e.temperature e.k ids rng in
      let shape = ends e.k drafted.0 targets drafted.1 accepted.0 bonus len (
        verify-IsVerified f torch drafted.0 targets drafted.1
          (length-target_rows f torch e ids drafted.0 ∙ sym len)) in
      let size = length-Ends drafted.0 targets drafted.1 bonus tokens shape (omega arith) in
      (
        rw facts.0 shape,
        facts.1 ∙ sym (ap length facts.0),
        omega arith,
        omega arith,
        facts.3,
        omega arith,
      )
