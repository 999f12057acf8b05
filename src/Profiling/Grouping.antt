-- ===== src/Profiling/Grouping.antt =====
-- A dictionary that is filled by a pass over keyed changes, grouped by key.
use cudaforge.Prelude.{
  if_true, if_false, ◌≡◌, refl, sym, ap, ◌∙◌, true, false, not, Bool-cases, inl, inr, List, [], ◌∷◌,
  ◌++◌, map, none, some, Dict, lookup, insert, Eq, ◌==◌, beq_refl, if◌then◌else◌, arith,
}
use mathlib.Core.Path.{subst, ap₂}
use mathlib.Core.List.{append_assoc, append-nil}
use cudaforge.Profiling.Csv.{filter}
use cudaforge.Profiling.Keys.{
  elem, Distinct, elem-snoc, Distinct-snoc, ==-sym, ==-sym_false, elem-apart, or_else, or_left,
  or_right, keep_old, keep_new,
}

module _ {ℓ κ} {K : Type ℓ} {V : Type κ} ⦃e : Eq K⦄ where
  -- The pass: each change finds the value of its key, or the empty one.
  abbrev pub fill : V → List (K × (V → V)) → Dict K V → Dict K V
  fill empty [] d = d
  fill empty ((k, h) ∷ changes) d = fill empty changes (insert k (h (or_else empty (lookup k d))) d)

  -- The keys in the order of their first changes.
  abbrev pub firsts : List (K × (V → V)) → List K
  firsts [] = []
  firsts ((k, h) ∷ changes) = k ∷ filter (λ j. not (k == j)) (firsts changes)

  -- The changes of one key, applied to its value.
  abbrev pub changed : K → List (K × (V → V)) → V → V
  changed k [] v = v
  changed k ((j, h) ∷ changes) v = changed k changes (if j == k then h v else v)

  abbrev pub table : List K → (K → V) → Dict K V
  table ks raw = map (λ k. (k, raw k)) ks

  lookup-table :
      (k : K) (ks : List K) (raw : K → V)
      → lookup k (table ks raw) ≡ (if elem k ks then some (raw k) else none)
  lookup-table k [] raw = refl
  lookup-table k (j ∷ js) raw = elim (Bool-cases (j == k)) [
    | inl on ↦ let same : j ≡ k = (e.beq_iff j k).0 on in rw (on, same) refl
    | inr off ↦ rw off (lookup-table k js raw)
  ]

  table_congr :
      (ks : List K) (raw raw' : K → V)
      → ((j : K) → elem j ks ≡ true → raw j ≡ raw' j)
      → table ks raw ≡ table ks raw'
  table_congr [] raw raw' same = refl
  table_congr (k ∷ ks) raw raw' same =
      ap₂ (λ v d. (k, v) ∷ d) (same k (rw (beq_refl k) refl))
        (table_congr ks raw raw' (λ j h. same j (ground arith)))

  abbrev update : K → V → (K → V) → K → V
  update k v raw j = if k == j then v else raw j

  insert-table_old :
      (k : K) (v : V) (ks : List K) (raw : K → V)
      → Distinct ks
      → elem k ks ≡ true
      → insert k v (table ks raw) ≡ table ks (update k v raw)
  insert-table_old k v [] raw distinct h = absurd (cc h)
  insert-table_old k v (j ∷ js) raw (fresh, distinct) h = elim (Bool-cases (j == k)) [
    | inl on ↦
        let same = (e.beq_iff j k).0 on in
        let absent = subst (λ i. elem i js ≡ false) same fresh in
        if_true on _ _
        ∙ ap₂ (λ w d. (j, w) ∷ d) (sym (if_true (==-sym j k on) v (raw j)))
            (table_congr js raw (update k v raw)
              (λ i there. sym (if_false (elem-apart k i js absent there) v (raw i))))
    | inr off ↦
        if_false off _ _
        ∙ ap₂ (λ w d. (j, w) ∷ d) (sym (if_false (==-sym_false j k off) v (raw j)))
            (insert-table_old k v js raw distinct (ground arith))
  ]

  insert-table_new :
      (k : K) (v : V) (ks : List K) (raw : K → V)
      → elem k ks ≡ false
      → insert k v (table ks raw) ≡ table (ks ++ k ∷ []) (update k v raw)
  insert-table_new k v [] raw h = ap (λ w. (k, w) ∷ []) (sym (if_true (beq_refl k) v (raw k)))
  insert-table_new k v (j ∷ js) raw h =
      let off : (j == k) ≡ false = ground arith in
      if_false off _ _
      ∙ ap₂ (λ w d. (j, w) ∷ d) (sym (if_false (==-sym_false j k off) v (raw j)))
          (insert-table_new k v js raw (ground arith))

  or_else-lookup :
      (empty : V) (k : K) (ks : List K) (raw : K → V)
      → ((j : K) → elem j ks ≡ false → raw j ≡ empty)
      → or_else empty (lookup k (table ks raw)) ≡ raw k
  or_else-lookup empty k ks raw none_yet =
      ap (or_else empty) (lookup-table k ks raw) ∙ elim (Bool-cases (elem k ks)) [
        | inl there ↦ ap (or_else empty) (if_true there _ _)
        | inr absent ↦ ap (or_else empty) (if_false absent _ _) ∙ sym (none_yet k absent)
      ]

  update_lem :
      (k : K) (h : V → V) (raw : K → V) (j : K)
      → update k (h (raw k)) raw j ≡ (if k == j then h (raw j) else raw j)
  update_lem k h raw j = elim (Bool-cases (k == j)) [
    | inl on ↦ if_true on _ _ ∙ ap (λ i. h (raw i)) ((e.beq_iff k j).0 on) ∙ sym (if_true on _ _)
    | inr off ↦ if_false off _ _ ∙ sym (if_false off _ _)
  ]

  -- The pass over a table leaves its keys in place, adds the new ones in the order of their first
  -- changes, and applies to each key its own changes.
  pub fill-table :
      (empty : V) (changes : List (K × (V → V))) (ks : List K) (raw : K → V)
      → Distinct ks
      → ((j : K) → elem j ks ≡ false → raw j ≡ empty)
      → fill empty changes (table ks raw)
        ≡ table
            (ks ++ filter (λ j. not (elem j ks)) (firsts changes))
            (λ j. changed j changes (raw j))
  fill-table empty [] ks raw distinct none_yet = ap (λ l. table l raw) (sym (append-nil ks))
  fill-table empty ((k, h) ∷ changes) ks raw distinct none_yet =
      let v = h (raw k) in
      let hidden = λ (l : List K). filter (λ j. not (elem j l)) in
      let last = λ (j : K). changed j ((k, h) ∷ changes) (raw j) in
      let start =
        ap (λ w. fill empty changes (insert k (h w) (table ks raw)))
          (or_else-lookup empty k ks raw none_yet) in
      let values = λ (l : List K).
        table_congr l _ last (λ j there. ap (changed j changes) (update_lem k h raw j)) in
      elim (Bool-cases (elem k ks)) [
        | inl there ↦
            start
            ∙ ap (fill empty changes) (insert-table_old k v ks raw distinct there)
            ∙ fill-table empty changes ks (update k v raw) distinct (λ j absent.
              if_false (==-sym_false j k (elem-apart j k ks absent there)) v (raw j)
              ∙ none_yet j absent)
            ∙ values (ks ++ hidden ks (firsts changes))
            ∙ ap (λ l. table (ks ++ l) last) (sym (keep_old k ks (firsts changes) there))
        | inr absent ↦
            start
            ∙ ap (fill empty changes) (insert-table_new k v ks raw absent)
            ∙ fill-table empty changes (ks ++ k ∷ []) (update k v raw)
                (Distinct-snoc k ks distinct absent)
                (λ j out.
                  let apart = sym (elem-snoc j k ks) ∙ out in
                  if_false (or_right (elem j ks) (k == j) apart) v (raw j)
                  ∙ none_yet j (or_left (elem j ks) (k == j) apart))
            ∙ values ((ks ++ k ∷ []) ++ hidden (ks ++ k ∷ []) (firsts changes))
            ∙ ap (λ l. table l last)
                (append_assoc ks (k ∷ []) _
                  ∙ ap (λ l. ks ++ l) (sym (keep_new k ks (firsts changes) absent)))
      ]
