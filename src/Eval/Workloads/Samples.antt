-- ===== src/Eval/Workloads/Samples.antt =====
-- `EvaluationSample` and `WorkloadDatasetLoader.stream_dataset` of dataset_loader.py.
use cudaforge.Prelude.{
  ℕ, zero, suc, ◌+◌, String, List, [], ◌∷◌, take, drop, length, ltb, if◌then◌else◌, Dict,
}

pub record EvaluationSample : Type 0 where
  pub sample_id : String
  pub prompt : String
  pub target_reference : String
  pub task_type : String
  pub metadata : Dict String String

module _ {ℓ} {A : Type ℓ} where
  -- `range(i, len(samples), batch_size)`, for a positive step; `n` bounds the number of rounds.
  unfoldable pub stream_from : ℕ → ℕ → List A → ℕ → List (List A)
  stream_from zero i samples batch_size = []
  stream_from (suc n) i samples batch_size =
      let rest = stream_from n (i + batch_size) samples batch_size in
      if ltb i (length samples) then take batch_size (drop i samples) ∷ rest else []

  -- The chunks that the generator yields; each round moves by one place at least.
  unfoldable pub stream_dataset : List A → ℕ → List (List A)
  unfolding stream_from
  stream_dataset samples batch_size = stream_from (length samples) 0 samples batch_size
