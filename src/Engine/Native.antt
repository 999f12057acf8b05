-- ===== src/Engine/Native.antt =====
-- The native extension `_C` behind the Python engine, as operations on a state of its own, and what
-- the engine relies on: which sequences the paged cache holds after each call.
use cudaforge.Prelude.{
  ℕ, ◌≡◌, refl, ◌⊎◌, inl, inr, Bool, false, List, nat_eq, ◌==◌, if◌then◌else◌, ◌||◌,
}
use cudaforge.Prelude.Int.{ℤ}
use cudaforge.Engine.Types.{KvCacheConfig, StreamOutput}

-- A call that may raise: what it wrote before the raise stays written.
pub data Result {ℓ} (A : Type ℓ) : Type ℓ where
  ok : A → Result A
  raised : Result A

pub Result-cases {ℓ} : {A : Type ℓ} (r : Result A) → ((a : A) × (r ≡ ok a)) ⊎ (r ≡ raised)
Result-cases (ok a) = inl (a, refl)
Result-cases raised = inr refl

abbrev pub Call : Type 0 → Type 0 → Type 0
Call S A = S → Result A × S

module _ {S : Type 0} where
  abbrev pub pure : {A : Type 0} → A → Call S A
  pure a s = (ok a, s)

  infixl 5 ◌>>=◌ ◌>>◌
  abbrev pub ◌>>=◌ : {A B : Type 0} → Call S A → (A → Call S B) → Call S B
  ◌>>=◌ m f s = let (r, s') = m s in elim r [ ok a ↦ f a s' | raised ↦ (raised, s') ]

  abbrev pub ◌>>◌ : {A B : Type 0} → Call S A → Call S B → Call S B
  m >> k = m >>= λ _. k

pub record Native : Type 1 where
  pub State : Type 0
  -- The constructors that `LLMEngine.__init__` calls: the cache's configuration, then the number
  -- and size of blocks, the batcher's two limits, and the runner's vocabulary and end token.
  pub construct : KvCacheConfig → ℕ → ℕ → ℕ → ℕ → ℕ → ℤ → State
  pub register_sequence_with_prefix : ℕ → List ℤ → State → Result ℕ × State
  pub append_tokens : ℕ → ℕ → State → Result (Unit {0}) × State
  pub unregister_sequence : ℕ → State → State
  pub add_request : ℕ → List ℤ → ℤ → ℤ → State → Bool × State
  pub update_requests_state : List ℕ → State → State
  pub get_running_count : State → ℕ
  pub get_pending_count : State → ℕ
  pub runner_step : State → State
  pub pop_all : State → List StreamOutput × State
  pub runner_cancel_request : ℕ → State → State

-- `registered s i`: the cache has a page table for sequence `i`. Only registration and
-- unregistration change that, and a registration that raises does not.
pub record Registers (native : Native) : Type 0 where
  pub registered : native.State → ℕ → Bool
  pub register_ok :
      (i : ℕ) (prompt : List ℤ) (s : native.State) (n j : ℕ)
      → (native.register_sequence_with_prefix i prompt s).0 ≡ ok n
      → registered (native.register_sequence_with_prefix i prompt s).1 j
        ≡ (i == j || registered s j)
  pub register_raised :
      (i : ℕ) (prompt : List ℤ) (s : native.State) (j : ℕ)
      → (native.register_sequence_with_prefix i prompt s).0 ≡ raised
      → registered (native.register_sequence_with_prefix i prompt s).1 j ≡ registered s j
  pub append :
      (i n : ℕ) (s : native.State) (j : ℕ)
      → registered (native.append_tokens i n s).1 j ≡ registered s j
  pub unregister :
      (i : ℕ) (s : native.State) (j : ℕ)
      → registered (native.unregister_sequence i s) j ≡ (if i == j then false else registered s j)
  pub add :
      (i : ℕ) (prompt : List ℤ) (m p : ℤ) (s : native.State) (j : ℕ)
      → registered (native.add_request i prompt m p s).1 j ≡ registered s j
  pub update :
      (l : List ℕ) (s : native.State) (j : ℕ)
      → registered (native.update_requests_state l s) j ≡ registered s j
  pub step : (s : native.State) (j : ℕ) → registered (native.runner_step s) j ≡ registered s j
  pub pop : (s : native.State) (j : ℕ) → registered (native.pop_all s).1 j ≡ registered s j
  pub cancel :
      (i : ℕ) (s : native.State) (j : ℕ)
      → registered (native.runner_cancel_request i s) j ≡ registered s j
