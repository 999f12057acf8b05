-- ===== src/Profiling/Reports.antt =====
-- The reports of a printed table: one for each kernel, with the values of its own rows.

use cudaforge.Prelude.{
  if_true, if_false, ℕ, zero, suc, ◌≤◌, ◌<◌, ◌≡◌, ◌⊎◌, refl, sym, ap, ◌∙◌, false, not, Bool-cases,
  inl, inr, String, List, [], ◌∷◌, map, length, get_elem?, Option, none, some, Dict, insert,
  string_eq, leb, max, if◌then◌else◌, arith,
}
use cudaforge.Prelude.Float.{FloatOps}
use cudaforge.Profiling.Csv.{index, filter}
use cudaforge.Profiling.Ncu.{
  System, NcuMetrics, metrics_of, Reports, or_empty, record_value, value_of, parse_row, parse_rows,
  parse_body, parse_table,
}
use cudaforge.Profiling.CsvPrint.{print_line, IsRow, fields-print_line}
use cudaforge.Profiling.Grouping.{fill, firsts, changed, table, fill-table}

get_elem?-none : {A : Type 0} (xs : List A) (i : ℕ) → length xs ≤ i → get_elem? xs i ≡ none
get_elem?-none [] i h = refl
get_elem?-none (x ∷ xs) zero h = absurd (omega arith)
get_elem?-none (x ∷ xs) (suc i) h = get_elem?-none xs i (omega arith)

get_elem?-some :
    {A : Type 0} (xs : List A) (i : ℕ) → i < length xs → (x : A) × (get_elem? xs i ≡ some x)
get_elem?-some [] i h = absurd (omega arith)
get_elem?-some (x ∷ xs) zero h = (x, refl)
get_elem?-some (x ∷ xs) (suc i) h = get_elem?-some xs i (omega arith)

module _ (f : FloatOps) (sys : System f) where
  abbrev Change : Type 0
  Change = String × (Dict String f.Float → Dict String f.Float)

  -- What a row with a kernel, a metric and a value changes: that metric of that kernel.
  abbrev pub change : Option String → Option String → Option String → List Change → List Change
  change (some k) (some m) (some v) rest = (k, insert m (value_of f sys v)) ∷ rest
  change (some k) (some m) none rest = rest
  change (some k) none v rest = rest
  change none m v rest = rest

  -- The rows that have the three columns, in order.
  abbrev pub measured : ℕ → ℕ → ℕ → List (List String) → List Change
  measured k m v [] = []
  measured k m v (row ∷ rows) =
      change (get_elem? row k) (get_elem? row m) (get_elem? row v) (measured k m v rows)

  -- The reports: the kernels in the order of their first rows, each with the values of its own rows,
  -- a later one over an earlier one.
  abbrev pub reports_of : List Change → List (NcuMetrics f sys)
  reports_of changes = map (λ k. metrics_of f sys k (changed k changes [])) (firsts changes)

  abbrev pub AreRows : List (List String) → Type 0
  AreRows [] = Unit
  AreRows (row ∷ rows) = IsRow row × AreRows rows

  change-none :
      (k m v : Option String) (rest : List Change)
      → (k ≡ none) ⊎ ((m ≡ none) ⊎ (v ≡ none))
      → change k m v rest ≡ rest
  change-none none m v rest h = refl
  change-none (some k) none v rest h = refl
  change-none (some k) (some m) none rest h = refl
  change-none (some k) (some m) (some v) rest h = absurd (ground arith)

  -- The body of the loop, from the parts of the row on.
  abbrev effect : ℕ → ℕ → ℕ → Reports f sys → List String → Reports f sys
  effect k m v parsed parts =
      if leb (length parts) (max (max k m) v)
      then parsed
      else record_value f sys (or_empty f sys (get_elem? parts k))
          (or_empty f sys (get_elem? parts m)) (value_of f sys (or_empty f sys (get_elem? parts v)))
          parsed

  short :
      (k m v : ℕ) (parts : List String)
      → length parts ≤ max (max k m) v
      → (length parts ≤ k) ⊎ ((length parts ≤ m) ⊎ (length parts ≤ v))
  short k m v parts h = ground arith

  effect-change :
      (k m v : ℕ) (rest : List Change) (parsed : Reports f sys) (parts : List String)
      → fill [] (change (get_elem? parts k) (get_elem? parts m) (get_elem? parts v) rest) parsed
        ≡ fill [] rest (effect k m v parsed parts)
  unfolding record_value
  effect-change k m v rest parsed parts = elim (Bool-cases (leb (length parts) (max (max k m) v))) [
    | inl on ↦
        let le : length parts ≤ max (max k m) v = ground arith in
        ap (λ c. fill [] c parsed)
          (change-none _ _ _ rest (elim (short k m v parts le) [
            | inl h ↦ inl (get_elem?-none parts k h)
            | inr (inl h) ↦ inr (inl (get_elem?-none parts m h))
            | inr (inr h) ↦ inr (inr (get_elem?-none parts v h))
          ]))
        ∙ ap (fill [] rest) (sym (if_true on _ _))
    | inr off ↦
        let (a, ka) = get_elem?-some parts k (ground arith) in
        let (b, mb) = get_elem?-some parts m (ground arith) in
        let (c, vc) = get_elem?-some parts v (ground arith) in
        rw (ka, mb, vc) (ap (fill [] rest) (sym (if_false off _ _)))
  ]

  -- One row of the loop is one change.
  parse_row-change :
      (k m v : ℕ) (row : List String) (rest : List Change) (parsed : Reports f sys)
      → IsRow row
      → fill [] (change (get_elem? row k) (get_elem? row m) (get_elem? row v) rest) parsed
        ≡ fill [] rest (parse_row f sys k m v (print_line row) parsed)
  unfolding parse_row
  parse_row-change k m v row rest parsed is_row =
      effect-change k m v rest parsed row
      ∙ ap (λ parts. fill [] rest (effect k m v parsed parts)) (sym (fields-print_line row is_row))

  parse_rows-fill :
      (k m v : ℕ) (rows : List (List String)) (parsed : Reports f sys)
      → AreRows rows
      → parse_rows f sys k m v (map print_line rows) parsed ≡ fill [] (measured k m v rows) parsed
  parse_rows-fill k m v [] parsed h = refl
  parse_rows-fill k m v (row ∷ rows) parsed (is_row, h) =
      parse_rows-fill k m v rows (parse_row f sys k m v (print_line row) parsed) h
      ∙ sym (parse_row-change k m v row (measured k m v rows) parsed is_row)

  parse_body-fill :
      (header : List String) (lines : List String) (k m v : ℕ)
      → index "Kernel Name" header ≡ some k
      → index "Metric Name" header ≡ some m
      → index "Metric Value" header ≡ some v
      → parse_body f sys header lines
        ≡ map (λ (name, d). metrics_of f sys name d) (parse_rows f sys k m v lines [])
  unfolding parse_body
  parse_body-fill header lines k m v ek em ev = rw (parse_body, ek, em, ev) refl

  map-table :
      (ks : List String) (raw : String → Dict String f.Float)
      → map (λ (name, d). metrics_of f sys name d) (table ks raw)
        ≡ map (λ k. metrics_of f sys k (raw k)) ks
  map-table [] raw = refl
  map-table (k ∷ ks) raw = ap (λ l. metrics_of f sys k (raw k) ∷ l) (map-table ks raw)

  filter_all : (ks : List String) → filter (λ j. not false) ks ≡ ks
  filter_all [] = refl
  filter_all (k ∷ ks) = ap (λ l. k ∷ l) (filter_all ks)

  -- The whole table.
  pub parse_table-print :
      (header row : List String) (rows : List (List String)) (k m v : ℕ)
      → AreRows (header ∷ row ∷ rows)
      → index "Kernel Name" header ≡ some k
      → index "Metric Name" header ≡ some m
      → index "Metric Value" header ≡ some v
      → parse_table f sys (map print_line (header ∷ row ∷ rows))
        ≡ reports_of (measured k m v (row ∷ rows))
  unfolding parse_table
  parse_table-print header row rows k m v (is_header, are_rows) ek em ev =
      let changes = measured k m v (row ∷ rows) in
      let all = map (λ (name, d). metrics_of f sys name d) in
      ap (λ hs. parse_body f sys hs (map print_line (row ∷ rows)))
        (fields-print_line header is_header)
      ∙ parse_body-fill header (map print_line (row ∷ rows)) k m v ek em ev
      ∙ ap all (parse_rows-fill k m v (row ∷ rows) [] are_rows)
      ∙ ap all (fill-table [] changes [] (λ j. []) tt (λ j h. refl))
      ∙ ap (λ ks. all (table ks (λ j. changed j changes []))) (filter_all (firsts changes))
      ∙ map-table (firsts changes) (λ j. changed j changes [])
