-- ===== src/Benchmarks/Pool.antt =====
-- The page pool in `run_paged_kv_benchmark` of benchmarks/suite/bench_paged_kv.py.
use cudaforge.Prelude.{ℕ, zero, suc, ◌/◌, ◌≡◌, List, [], ◌∷◌, ◌++◌, length, min}

-- `list(range(num_blocks))` from the end, where `pop` takes: the last block first.
unfoldable pub free_blocks : ℕ → List ℕ
free_blocks zero = []
free_blocks (suc n) = n ∷ free_blocks n

-- `for _ in range(blocks_per_req)`: the blocks of one request, and those that stay free.
unfoldable pub take_blocks : ℕ → List ℕ → List ℕ × List ℕ
take_blocks zero free = ([], free)
take_blocks (suc n) [] = take_blocks n []
take_blocks (suc n) (b ∷ free) = let rest = take_blocks n free in (b ∷ rest.0, rest.1)

-- The block tables of all requests, and the blocks that stay free.
unfoldable pub allocate : ℕ → List ℕ → List (List ℕ) × List ℕ
unfolding take_blocks
allocate zero free = ([], free)
allocate (suc n) free =
    let req = take_blocks 8 free in let rest = allocate n req.1 in (req.0 ∷ rest.0, rest.1)

unfoldable pub allocate_pool : ℕ → ℕ → List (List ℕ) × List ℕ
unfolding free_blocks allocate
allocate_pool num_blocks num_allocations =
    allocate (min num_allocations (num_blocks / 8)) (free_blocks num_blocks)

abbrev pub concat : List (List ℕ) → List ℕ
concat [] = []
concat (table ∷ tables) = table ++ concat tables

-- Every table has eight blocks.
abbrev pub AreFull : List (List ℕ) → Type 0
AreFull [] = Unit
AreFull (table ∷ tables) = (length table ≡ 8) × AreFull tables
