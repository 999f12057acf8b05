-- ===== src/Eval/Workloads/Stream.antt =====
-- The chunks of a stream are the samples, cut.
use cudaforge.Prelude.{
  ℕ, zero, suc, ◌+◌, ◌≤◌, ◌<◌, ◌≡◌, refl, ap, sym, ◌∙◌, List, [], ◌∷◌, ◌++◌, take, drop, length,
  inl, inr, ltb, arith, Bool-cases,
}
use cudaforge.Eval.Workloads.Samples.{stream_from, stream_dataset}

module _ {ℓ} {A : Type ℓ} where
  abbrev pub concat : List (List A) → List A
  concat [] = []
  concat (xs ∷ xss) = xs ++ concat xss

  -- No chunk is empty or longer than `b`.
  abbrev pub AreChunks : ℕ → List (List A) → Type 0
  AreChunks b [] = Unit
  AreChunks b (xs ∷ xss) = (0 < length xs) × (length xs ≤ b) × AreChunks b xss

  drop_all : (n : ℕ) (xs : List A) → length xs ≤ n → drop n xs ≡ []
  drop_all zero [] h = refl
  drop_all zero (x ∷ xs) h = absurd (omega arith)
  drop_all (suc n) [] h = refl
  drop_all (suc n) (x ∷ xs) h = drop_all n xs (omega arith)

  take-drop : (b i : ℕ) (xs : List A) → take b (drop i xs) ++ drop (i + b) xs ≡ drop i xs
  take-drop zero zero xs = refl
  take-drop (suc b) zero [] = drop_all (0 + suc b) [] (omega arith)
  take-drop (suc b) zero (x ∷ xs) = ground (arith, take-drop b zero xs)
  take-drop zero (suc i) [] = drop_all (suc i + 0) [] (omega arith)
  take-drop (suc b) (suc i) [] = drop_all (suc i + suc b) [] (omega arith)
  take-drop b (suc i) (x ∷ xs) =
      let e : suc i + b ≡ suc (i + b) = omega arith in rw e (take-drop b i xs)

  length-take-drop :
      (b i : ℕ) (xs : List A)
      → (length (take b (drop i xs)) ≤ b)
        × (0 < b → i < length xs → 0 < length (take b (drop i xs)))
  length-take-drop zero zero xs = omega arith
  length-take-drop (suc b) zero [] = omega arith
  length-take-drop (suc b) zero (x ∷ xs) = ground (arith, length-take-drop b zero xs)
  length-take-drop zero (suc i) [] = ground arith
  length-take-drop (suc b) (suc i) [] = ground arith
  length-take-drop b (suc i) (x ∷ xs) = ground (arith, length-take-drop b i xs)

  stream_from_lem :
      (n i : ℕ) (xs : List A) (b : ℕ)
      → 0 < b
      → length xs ≤ i + n
      → (concat (stream_from n i xs b) ≡ drop i xs) × AreChunks b (stream_from n i xs b)
  unfolding stream_from
  stream_from_lem zero i xs b some_ le = (sym (drop_all i xs (omega arith)), tt)
  stream_from_lem (suc n) i xs b some_ le =
      let (whole, chunks) = stream_from_lem n (i + b) xs b some_ (omega arith) in
      let (short, full) = length-take-drop b i xs in
      elim (Bool-cases (ltb i (length xs))) [
        | inl more ↦ rw more (
          ap (λ l. take b (drop i xs) ++ l) whole ∙ take-drop b i xs,
          (full some_ (ground arith), short, chunks),
        )
        | inr end ↦ rw end (sym (drop_all i xs (ground arith)), tt)
      ]

  -- For a positive batch size the chunks follow each other to give all the samples in order, and no
  -- chunk is empty or larger than the batch size.
  pub stream_dataset_lossless :
      (samples : List A) (batch_size : ℕ)
      → 0 < batch_size
      → (concat (stream_dataset samples batch_size) ≡ samples)
        × AreChunks batch_size (stream_dataset samples batch_size)
  unfolding stream_dataset
  stream_dataset_lossless samples batch_size some_ =
      stream_from_lem (length samples) 0 samples batch_size some_ (omega arith)
