-- ===== src/Speculative/Tensors.antt =====
-- What cudaforge/speculative.py takes from PyTorch, on batches as lists of rows, and the two models.
use cudaforge.Prelude.{ℕ, Bool, true, ◌&&◌, List, [], ◌∷◌, ◌++◌, length, drop, ◌-◌}
use cudaforge.Prelude.Float.{FloatOps}

-- A row of logits or probabilities; one for each sequence of the batch; a token for each of them.
abbrev pub Row : FloatOps → Type 0
Row f = List f.Float

abbrev pub Rows : FloatOps → Type 0
Rows f = List (List f.Float)

abbrev pub Column : Type 0
Column = List ℕ

-- `forward` gives a row of logits for each position of each sequence. `sort` is `torch.sort` in
-- descending order, each value beside its index. The random generator is passed along.
pub record Torch (f : FloatOps) : Type 1 where
  pub Rng : Type 0
  pub softmax : Row f → Row f
  pub sort : Row f → List (f.Float × ℕ)
  pub neg_inf : f.Float
  pub multinomial : Rows f → Rng → Column × Rng
  pub rand : ℕ → Rng → Row f × Rng
  pub draft_forward : List Column → List (Rows f)
  pub target_forward : List Column → List (Rows f)

-- `x[-1]` of the positions, and `x[-n:]`
abbrev pub last : {A : Type 0} → List (List A) → List A
last [] = []
last (x ∷ []) = x
last (x ∷ xs) = last xs

abbrev pub take_last : {A : Type 0} → ℕ → List A → List A
take_last n xs = drop (length xs - n) xs

-- `torch.cat([ids, column], dim=-1)`
abbrev pub append_column : List Column → Column → List Column
append_column (r ∷ rs) (t ∷ ts) = (r ++ t ∷ []) ∷ append_column rs ts
append_column rs _ = rs

abbrev pub zip_with {ℓ} : {A B C : Type ℓ} → (A → B → C) → List A → List B → List C
zip_with op (a ∷ as') (b ∷ bs) = op a b ∷ zip_with op as' bs
zip_with op _ _ = []

abbrev pub all : List Bool → Bool
all [] = true
all (b ∷ bs) = b && all bs
