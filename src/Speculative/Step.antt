-- ===== src/Speculative/Step.antt =====
-- `SpeculativeEngine.step`: the draft, its verification and the counters. Clock readings are left out.
use cudaforge.Prelude.{
  ℕ, zero, suc, ◌+◌, Bool, List, [], ◌∷◌, ◌++◌, map, Option, none, some, length, get_or, nat_beq,
  if◌then◌else◌,
}
use cudaforge.Prelude.Int.{pos}
use cudaforge.Prelude.Float.{FloatOps}
use cudaforge.Speculative.Tensors.{
  Row, Rows, Column, Torch, last, take_last, append_column, zip_with, all,
}
use cudaforge.Speculative.Sampling.{sample_next_token}

pub record SpeculativeEngine (f : FloatOps) : Type 0 where
  pub k : ℕ
  pub temperature : f.Float
  pub top_p : f.Float
  pub total_draft_tokens : ℕ
  pub total_accepted_tokens : ℕ

pub record SpeculativeBatchResult (f : FloatOps) : Type 0 where
  pub accepted_tokens : List Column
  pub num_accepted : ℕ
  pub draft_tokens_generated : ℕ
  pub acceptance_rate : f.Float

module _ (f : FloatOps) (torch : Torch f) where
  -- `__init__`
  unfoldable pub create : ℕ → f.Float → f.Float → SpeculativeEngine f
  create num_speculative_tokens temperature top_p = record {
    k = num_speculative_tokens;
    temperature =
        let least = f.lit (pos 1) 5 in if f.ltb temperature least then least else temperature;
    top_p = top_p;
    total_draft_tokens = 0;
    total_accepted_tokens = 0;
  }

  abbrev pub scaled : f.Float → Row f → Row f
  scaled temperature row = torch.softmax (map (λ x. f.div x temperature) row)

  -- A drafted column of tokens with the distributions that it was drawn from.
  abbrev pub Draft : Type 0
  Draft = Column × Rows f

  -- Phase 1, with the rounds that are left
  unfoldable pub draft : f.Float → ℕ → List Column → torch.Rng → List Draft × torch.Rng
  draft temperature zero ids rng = ([], rng)
  draft temperature (suc k) ids rng =
      let probs =
        map (λ positions. scaled temperature (last positions)) (torch.draft_forward ids) in
      let (token, rng') = torch.multinomial probs rng in
      let (rest, rng'') = draft temperature k (append_column ids token) rng' in
      ((token, probs) ∷ rest, rng'')

  abbrev gather : Rows f → Column → Row f
  gather = zip_with (λ row token. get_or row token (f.lit (pos 0) 1))

  abbrev lesser : f.Float → f.Float → f.Float
  lesser a b = if f.ltb b a then b else a

  abbrev ratio : f.Float → f.Float → f.Float
  ratio q p = lesser (f.lit (pos 10) 1) (f.div q (f.add p (f.lit (pos 1) 8)))

  -- `(r < acceptance_ratio).all()`
  unfoldable pub accepts : Row f → Rows f → Draft → Bool
  accepts r target (token, probs) =
      all (zip_with f.ltb r (zip_with ratio (gather target token) (gather probs token)))

  abbrev positive : f.Float → f.Float
  positive x = let z = f.lit (pos 0) 1 in if f.ltb x z then z else x

  abbrev sum : Row f → f.Float
  sum [] = f.lit (pos 0) 1
  sum (x ∷ xs) = f.add x (sum xs)

  -- max(0, q - p), or q where that has no mass
  unfoldable pub modified : Row f → Row f → Row f
  modified q p =
      let dist = zip_with (λ a b. positive (f.sub a b)) q p in
      if f.leb (sum dist) (f.lit (pos 1) 6) then q else dist

  -- Phase 3: the loop over `i`, on the drafts and the target's rows at the same positions.
  unfoldable pub verify : List Draft → List (Rows f) → torch.Rng → List Column × torch.Rng
  unfolding accepts modified
  verify (d ∷ ds) (target ∷ targets) rng =
      let (r, rng') = torch.rand (length d.0) rng in
      let rest = verify ds targets rng' in
      let (column, rng'') = torch.multinomial (zip_with modified target d.1) rng' in
      if accepts r target d then (d.0 ∷ rest.0, rest.1) else (column ∷ [], rng'')
  verify _ _ rng = ([], rng)

  -- The target's rows of logits at the last `k + 1` positions, one entry for each position.
  unfoldable pub at_positions : ℕ → ℕ → List (Rows f) → List (Rows f)
  at_positions zero i logits = []
  at_positions (suc n) i logits =
      map (λ positions. get_or positions i []) logits ∷ at_positions n (i + 1) logits

  -- The sequences with all drafted columns appended.
  unfoldable pub extend : List Column → List Draft → List Column
  extend ids [] = ids
  extend ids (d ∷ ds) = extend (append_column ids d.0) ds

  -- Phase 2: `target_candidate_logits`, and the distributions at the first `k` positions of it.
  unfoldable pub candidate_logits : SpeculativeEngine f → List Column → List Draft → List (Rows f)
  unfolding extend
  candidate_logits e input_ids drafts =
      map (take_last (e.k + 1)) (torch.target_forward (extend input_ids drafts))

  unfoldable pub target_rows : SpeculativeEngine f → List Column → List Draft → List (Rows f)
  unfolding candidate_logits at_positions
  target_rows e input_ids drafts =
      map (map (scaled e.temperature)) (at_positions e.k 0 (candidate_logits e input_ids drafts))

  unfoldable pub bonus_token :
      SpeculativeEngine f → List Column → List Draft → torch.Rng → Column × torch.Rng
  unfolding candidate_logits
  bonus_token e input_ids drafts =
      sample_next_token f torch e.temperature e.top_p
        (map last (candidate_logits e input_ids drafts))

  -- `torch.cat` of an empty list raises, so `k = 0` does.
  unfoldable pub step :
      List Column
      → torch.Rng
      → SpeculativeEngine f
      → Option (SpeculativeBatchResult f × SpeculativeEngine f × torch.Rng)
  step input_ids rng e =
      let (drafts, rng1) = draft e.temperature e.k input_ids rng in
      let (accepted, rng2) = verify drafts (target_rows e input_ids drafts) rng1 in
      let (final, rng3) = bonus_token e input_ids drafts rng2 in
      let full = nat_beq (length accepted) e.k in
      let tokens = if full then accepted ++ final ∷ [] else accepted in
      let num_accepted = length tokens in
      elim e.k [
        | zero ↦ none
        | suc _ ↦ some (
          record {
            accepted_tokens = tokens;
            num_accepted = num_accepted;
            draft_tokens_generated = e.k;
            acceptance_rate = f.div (f.of_int (pos num_accepted)) (f.of_int (pos e.k));
          },
          record e {
            total_draft_tokens = e.total_draft_tokens + e.k;
            total_accepted_tokens = e.total_accepted_tokens + num_accepted;
          },
          if full then rng3 else rng2,
        )
      ]

  unfoldable pub get_aggregate_acceptance_rate : SpeculativeEngine f → f.Float
  get_aggregate_acceptance_rate e =
      if nat_beq e.total_draft_tokens 0
      then f.lit (pos 0) 1
      else f.div (f.of_int (pos e.total_accepted_tokens)) (f.of_int (pos e.total_draft_tokens))
