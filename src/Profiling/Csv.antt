-- ===== src/Profiling/Csv.antt =====
-- The text operations of `NsightComputeProfiler._parse_ncu_csv` in cudaforge/profiler.py.
use Prim.Native.Char.{Char, code}
use Prim.Native.String.{String}
use cudaforge.Prelude.{
  ℕ, zero, suc, Bool, true, false, ◌&&◌, List, [], ◌∷◌, Option, none, some, nat_beq, ◌==◌,
  string_eq, if◌then◌else◌,
}

abbrev pub is_quote : Char → Bool
is_quote c = nat_beq (code c) 34

abbrev pub is_comma : Char → Bool
is_comma c = nat_beq (code c) 44

-- `s.strip(chars)`, for a test on characters
abbrev pub lstrip : (Char → Bool) → String → String
lstrip chars String.[] = ""
lstrip chars (String.◌∷◌ c s) =
    let rest = lstrip chars s in if chars c then rest else String.◌∷◌ c s

abbrev pub cons_unless : Bool → Char → String → String
cons_unless strips c String.[] = if strips then "" else String.◌∷◌ c ""
cons_unless strips c (String.◌∷◌ d s) = String.◌∷◌ c (String.◌∷◌ d s)

abbrev pub rstrip : (Char → Bool) → String → String
rstrip chars String.[] = ""
rstrip chars (String.◌∷◌ c s) = cons_unless (chars c) c (rstrip chars s)

abbrev pub strip : (Char → Bool) → String → String
strip chars s = rstrip chars (lstrip chars s)

-- `s.startswith(prefix)`
abbrev pub startswith : String → String → Bool
startswith s String.[] = true
startswith String.[] (String.◌∷◌ p ps) = false
startswith (String.◌∷◌ c s) (String.◌∷◌ p ps) = nat_beq (code c) (code p) && startswith s ps

-- `s.split('","')`: a piece ends at the separator, whose two other characters are skipped.
abbrev pub cons_first : Char → List String → List String
cons_first c [] = String.◌∷◌ c "" ∷ []
cons_first c (p ∷ ps) = String.◌∷◌ c p ∷ ps

abbrev pub split_from : ℕ → String → List String
split_from n String.[] = "" ∷ []
split_from (suc n) (String.◌∷◌ c s) = split_from n s
split_from zero (String.◌∷◌ c s) =
    let cut = split_from 2 s in
    let rest = split_from 0 s in
    if is_quote c && startswith s ",\"" then "" ∷ cut else cons_first c rest

abbrev pub split : String → List String
split = split_from 0

-- `s.replace(",", "")`
abbrev pub remove_commas : String → String
remove_commas String.[] = ""
remove_commas (String.◌∷◌ c s) =
    let rest = remove_commas s in if is_comma c then rest else String.◌∷◌ c rest

-- `xs.index(x)`
abbrev pub index : String → List String → Option ℕ
index x [] = none
index x (y ∷ ys) =
    if y == x then some 0 else (elim (index x ys) [ none ↦ none | some n ↦ some (suc n) ])

-- `[x for x in xs if keep(x)]`
abbrev pub filter {ℓ} : {A : Type ℓ} → (A → Bool) → List A → List A
filter keep [] = []
filter keep (x ∷ xs) = let rest = filter keep xs in if keep x then x ∷ rest else rest
