-- ===== src/Profiling/CsvPrint.antt =====
-- Reading the fields of a printed line gives them back.
use Prim.Native.Char.{Char, code}
use Prim.Native.String.{String}
use cudaforge.Prelude.{
  if_true, if_false, ℕ, zero, suc, ◌≡◌, refl, sym, ap, ◌∙◌, Bool, true, false, ◌&&◌, Bool-cases,
  inl, inr, List, [], ◌∷◌, map, nat_beq,
}
use mathlib.Core.Path.{ap₂}
use cudaforge.Profiling.Csv.{
  is_quote, rstrip, cons_unless, strip, startswith, cons_first, split_from, split,
}

abbrev pub cat : String → String → String
cat String.[] t = t
cat (String.◌∷◌ c s) t = String.◌∷◌ c (cat s t)

-- The fields in quotes, with commas between.
abbrev pub print_rest : List String → String
print_rest [] = "\""
print_rest (x ∷ []) = cat x "\""
print_rest (x ∷ y ∷ ys) = cat x (cat "\",\"" (print_rest (y ∷ ys)))

abbrev pub print_line : List String → String
print_line fields = cat "\"" (print_rest fields)

-- A text without quotes.
abbrev pub IsBare : String → Type 0
IsBare String.[] = Unit
IsBare (String.◌∷◌ c s) = (is_quote c ≡ false) × IsBare s

abbrev pub AreBare : List String → Type 0
AreBare [] = Unit
AreBare (x ∷ xs) = IsBare x × AreBare xs

-- The fields of a line: at least one, bare, and the first does not start with a comma.
abbrev pub IsRow : List String → Type 0
IsRow [] = ⊥
IsRow (x ∷ xs) = (startswith x "," ≡ false) × AreBare (x ∷ xs)

abbrev onto_first : String → List String → List String
onto_first s [] = s ∷ []
onto_first s (p ∷ ps) = cat s p ∷ ps

onto_first-cons_first :
    (c : Char) (ps : List String) → onto_first "" (cons_first c ps) ≡ cons_first c ps
onto_first-cons_first c [] = refl
onto_first-cons_first c (p ∷ ps) = refl

cons_first-onto_first :
    (c : Char) (x : String) (ps : List String)
    → cons_first c (onto_first x ps) ≡ onto_first (String.◌∷◌ c x) ps
cons_first-onto_first c x [] = refl
cons_first-onto_first c x (p ∷ ps) = refl

-- There is always a piece.
split_first : (n : ℕ) (t : String) → onto_first "" (split_from n t) ≡ split_from n t
split_first zero String.[] = refl
split_first (suc n) String.[] = refl
split_first (suc n) (String.◌∷◌ c t) = split_first n t
split_first zero (String.◌∷◌ c t) =
    let cut = "" ∷ split_from 2 t in
    let rest = cons_first c (split_from 0 t) in
    elim (Bool-cases (is_quote c && startswith t ",\"")) [
      | inl on ↦ ap (onto_first "") (if_true on cut rest) ∙ sym (if_true on cut rest)
      | inr off ↦
          ap (onto_first "") (if_false off cut rest)
          ∙ onto_first-cons_first c (split_from 0 t)
          ∙ sym (if_false off cut rest)
    ]

not_first : (a b : Bool) → a ≡ false → (a && b) ≡ false
not_first a b e = rw e refl

-- Up to the first quote, nothing is cut.
split-bare : (x t : String) → IsBare x → split_from 0 (cat x t) ≡ onto_first x (split_from 0 t)
split-bare String.[] t bare = sym (split_first 0 t)
split-bare (String.◌∷◌ c x) t (plain, bare) =
    if_false (not_first (is_quote c) (startswith (cat x t) ",\"") plain) _ _
    ∙ ap (cons_first c) (split-bare x t bare)
    ∙ cons_first-onto_first c x (split_from 0 t)

cat-empty : (x : String) → cat x "" ≡ x
cat-empty String.[] = refl
cat-empty (String.◌∷◌ c x) = ap (String.◌∷◌ c) (cat-empty x)

cons_unless-plain :
    (b : Bool) (c : Char) (s : String) → b ≡ false → cons_unless b c s ≡ String.◌∷◌ c s
cons_unless-plain b c String.[] e = rw e refl
cons_unless-plain b c (String.◌∷◌ d s) e = refl

rstrip-bare : (x : String) → IsBare x → rstrip is_quote x ≡ x
rstrip-bare String.[] bare = refl
rstrip-bare (String.◌∷◌ c x) (plain, bare) =
    ap (cons_unless (is_quote c) c) (rstrip-bare x bare) ∙ cons_unless-plain (is_quote c) c x plain

rstrip-quoted : (x : String) → IsBare x → rstrip is_quote (cat x "\"") ≡ x
rstrip-quoted String.[] bare = refl
rstrip-quoted (String.◌∷◌ c x) (plain, bare) =
    ap (cons_unless (is_quote c) c) (rstrip-quoted x bare)
    ∙ cons_unless-plain (is_quote c) c x plain

strip-bare : (x : String) → IsBare x → strip is_quote x ≡ x
strip-bare String.[] bare = refl
strip-bare (String.◌∷◌ c x) (plain, bare) =
    ap (rstrip is_quote) (if_false plain _ _) ∙ rstrip-bare (String.◌∷◌ c x) (plain, bare)

strip-quoted : (x : String) → IsBare x → strip is_quote (cat x "\"") ≡ x
strip-quoted String.[] bare = refl
strip-quoted (String.◌∷◌ c x) (plain, bare) =
    ap (rstrip is_quote) (if_false plain _ _) ∙ rstrip-quoted (String.◌∷◌ c x) (plain, bare)

abbrev pub fields : String → List String
fields line = map (strip is_quote) (split line)

fields-print_rest :
    (x : String) (xs : List String) → AreBare (x ∷ xs) → fields (print_rest (x ∷ xs)) ≡ x ∷ xs
fields-print_rest x [] (bare, _) =
    ap (map (strip is_quote)) (split-bare x "\"" bare) ∙ ap (λ s. s ∷ []) (strip-quoted x bare)
fields-print_rest x (y ∷ ys) (bare, rest) =
    ap (map (strip is_quote)) (split-bare x (cat "\",\"" (print_rest (y ∷ ys))) bare)
    ∙ ap₂ (λ s ss. s ∷ ss) (ap (strip is_quote) (cat-empty x) ∙ strip-bare x bare)
        (fields-print_rest y ys rest)

and_first : (a b : Bool) → (a && true) ≡ false → (a && b) ≡ false
and_first true b e = absurd (cc e)
and_first false b e = refl

no_cut :
    (x t : String) → startswith x "," ≡ false → startswith (cat x (String.◌∷◌ "\"" t)) ",\"" ≡ false
no_cut String.[] t e = refl
no_cut (String.◌∷◌ c x) t e = and_first (nat_beq (code c) 44) _ e

uncut :
    (x : String) (xs : List String)
    → startswith x "," ≡ false
    → startswith (print_rest (x ∷ xs)) ",\"" ≡ false
uncut x [] e = no_cut x "" e
uncut x (y ∷ ys) e = no_cut x (cat ",\"" (print_rest (y ∷ ys))) e

fields-quote :
    (ps : List String)
    → map (strip is_quote) (cons_first "\"" (onto_first "" ps))
      ≡ map (strip is_quote) (onto_first "" ps)
fields-quote [] = refl
fields-quote (p ∷ ps) = refl

-- The fields of a printed line.
pub fields-print_line : (row : List String) → IsRow row → fields (print_line row) ≡ row
fields-print_line [] h = absurd h
fields-print_line (x ∷ xs) (e, bare) =
    ap (map (strip is_quote)) (
      if_false (uncut x xs e) _ _
      ∙ ap (cons_first "\"") (sym (split_first 0 (print_rest (x ∷ xs)))))
    ∙ fields-quote (split (print_rest (x ∷ xs)))
    ∙ ap (map (strip is_quote)) (split_first 0 (print_rest (x ∷ xs)))
    ∙ fields-print_rest x xs bare
