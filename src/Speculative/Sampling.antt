-- ===== src/Speculative/Sampling.antt =====
-- `SpeculativeEngine._sample_next_token`: temperature, nucleus filter, sampling.
use cudaforge.Prelude.{ℕ, Bool, false, List, [], ◌∷◌, map, set, if◌then◌else◌}
use cudaforge.Prelude.Int.{pos}
use cudaforge.Prelude.Float.{FloatOps}
use cudaforge.Speculative.Tensors.{Row, Rows, Column, Torch}

module _ (f : FloatOps) (torch : Torch f) where
  unfoldable pub cumsum : f.Float → Row f → Row f
  cumsum acc [] = []
  cumsum acc (x ∷ xs) = let s = f.add acc x in s ∷ cumsum s xs

  -- `remove[1:] = remove[:-1]; remove[0] = 0`
  unfoldable pub shift : Bool → List Bool → List Bool
  shift b [] = []
  shift b (c ∷ cs) = b ∷ shift c cs

  unfoldable pub to_remove : f.Float → Row f → List Bool
  unfolding cumsum shift
  to_remove top_p sorted =
      let cumulative = cumsum (f.lit (pos 0) 1) (torch.softmax sorted) in
      shift false (map (λ c. f.ltb top_p c) cumulative)

  -- The scatter of the flags to the original indices, and the write of minus infinity there.
  unfoldable pub mask : List (f.Float × ℕ) → List Bool → Row f → Row f
  mask ((v, i) ∷ sorted) (b ∷ flags) logits =
      mask sorted flags (if b then set logits i torch.neg_inf else logits)
  mask _ _ logits = logits

  unfoldable pub nucleus : f.Float → Row f → Row f
  unfolding to_remove mask
  nucleus top_p logits =
      if f.ltb top_p (f.lit (pos 10) 1)
      then (let sorted = torch.sort logits in
          mask sorted (to_remove top_p (map (λ (e : f.Float × ℕ). e.0) sorted)) logits)
      else logits

  unfoldable pub sample_next_token : f.Float → f.Float → Rows f → torch.Rng → Column × torch.Rng
  unfolding nucleus
  sample_next_token temperature top_p logits rng =
      let scaled = map (map (λ x. f.div x temperature)) logits in
      torch.multinomial (map (λ row. torch.softmax (nucleus top_p row)) scaled) rng
