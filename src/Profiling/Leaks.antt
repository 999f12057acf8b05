-- ===== src/Profiling/Leaks.antt =====
-- `GPUMemoryTracker` of profiling/memory_leak_detector.py. The allocator's statistics are an argument.
use cudaforge.Prelude.{
  ℕ, ◌*◌, ltb, ◌≡◌, ◌≢◌, refl, sym, ◌∙◌, String, List, [], ◌∷◌, ◌++◌, Option, none, some,
  Option-cases, inl, inr, Dict, lookup, insert, string_eq, ◌==◌, lookup-insert, beq_refl, beq_of_ne,
  if◌then◌else◌, arith,
}
use cudaforge.Prelude.Int.{pos, ◌-ℤ◌}
use cudaforge.Prelude.Float.{FloatOps}

module _ (f : FloatOps) where
  open f use {Float}

  pub record MemorySnapshot : Type 0 where
    pub allocated_bytes : ℕ
    pub reserved_bytes : ℕ
    pub active_bytes : ℕ
    pub inactive_split_bytes : ℕ
    pub max_allocated_bytes : ℕ
    pub free_bytes : ℕ
    pub total_bytes : ℕ
    pub fragmentation_ratio : Float

  abbrev pub stat : String → Dict String ℕ → ℕ
  stat key stats = elim (lookup key stats) [ none ↦ 0 | some n ↦ n ]

  unfoldable pub snapshot_of : Dict String ℕ → ℕ × ℕ → MemorySnapshot
  snapshot_of stats (free_gpu, total_gpu) =
      let allocated = stat "allocated_bytes.all.current" stats in
      let reserved = stat "reserved_bytes.all.current" stats in
      record {
        allocated_bytes = allocated;
        reserved_bytes = reserved;
        active_bytes = stat "active_bytes.all.current" stats;
        inactive_split_bytes = stat "inactive_split_bytes.all.current" stats;
        max_allocated_bytes = stat "allocated_bytes.all.peak" stats;
        free_bytes = free_gpu;
        total_bytes = total_gpu;
        fragmentation_ratio =
            if ltb 0 reserved
            then f.div (f.of_int (pos reserved -ℤ pos allocated)) (f.of_int (pos reserved))
            else f.lit (pos 0) 1;
      }

  -- The tracker is its list of snapshots.
  unfoldable pub capture :
      String
      → Dict String ℕ
      → ℕ × ℕ
      → List (String × MemorySnapshot)
      → MemorySnapshot × List (String × MemorySnapshot)
  unfolding snapshot_of
  capture label stats mem_info snapshots =
      let snapshot = snapshot_of stats mem_info in (snapshot, snapshots ++ (label, snapshot) ∷ [])

  -- `dict(pairs)`, added to a dictionary.
  abbrev pub dict_onto :
      Dict String MemorySnapshot → List (String × MemorySnapshot) → Dict String MemorySnapshot
  dict_onto d [] = d
  dict_onto d ((k, s) ∷ pairs) = dict_onto (insert k s d) pairs

  pub data Verdict : Type 0 where
    missing_labels leak no_leak : Verdict

  abbrev judge : Float → MemorySnapshot → MemorySnapshot → Verdict
  judge threshold_mb base target =
      let diff_bytes = pos target.allocated_bytes -ℤ pos base.allocated_bytes in
      let diff_mb = f.div (f.of_int diff_bytes) (f.of_int (pos (1024 * 1024))) in
      if f.ltb threshold_mb diff_mb then leak else no_leak

  unfoldable pub assert_no_leak : String → String → Float → List (String × MemorySnapshot) → Verdict
  assert_no_leak baseline_label target_label threshold_mb snapshots =
      let snaps = dict_onto [] snapshots in
      elim (lookup baseline_label snaps) [
        | none ↦ missing_labels
        | some base ↦ elim (lookup target_label snaps) [
          | none ↦ missing_labels
          | some target ↦ judge threshold_mb base target
        ]
      ]

  -- The last snapshot with a label.
  abbrev pub latest : String → List (String × MemorySnapshot) → Option MemorySnapshot
  latest label [] = none
  latest label ((k, s) ∷ pairs) = elim (latest label pairs) [
    | some s' ↦ some s'
    | none ↦ if k == label then some s else none
  ]

  abbrev or_else : Option MemorySnapshot → Option MemorySnapshot → Option MemorySnapshot
  or_else (some s) o = some s
  or_else none o = o

  lookup-dict_onto :
      (label : String) (d : Dict String MemorySnapshot) (pairs : List (String × MemorySnapshot))
      → lookup label (dict_onto d pairs) ≡ or_else (latest label pairs) (lookup label d)
  lookup-dict_onto label d [] = refl
  lookup-dict_onto label d ((k, s) ∷ pairs) =
      ground (arith, lookup-dict_onto label (insert k s d) pairs, lookup-insert k label s d)

  latest-snoc :
      (label k : String) (s : MemorySnapshot) (pairs : List (String × MemorySnapshot))
      → latest label (pairs ++ (k, s) ∷ []) ≡ (if k == label then some s else latest label pairs)
  latest-snoc label k s [] = refl
  latest-snoc label k s ((j, s') ∷ pairs) = ground (arith, latest-snoc label k s pairs)

  lookup-dict :
      (label : String) (pairs : List (String × MemorySnapshot))
      → lookup label (dict_onto [] pairs) ≡ latest label pairs
  lookup-dict label pairs = ground (arith, lookup-dict_onto label [] pairs)

  -- After a capture under the target's label, the check compares the bytes that were allocated then
  -- with those of the last capture under another, the baseline's, label: it reports a leak exactly if
  -- the growth in MiB is above the threshold, and misses a label exactly if that one was never captured.
  pub assert_no_leak-capture :
      (baseline_label target_label : String) (threshold_mb : Float) (stats : Dict String ℕ)
      (mem_info : ℕ × ℕ) (snapshots : List (String × MemorySnapshot))
      → baseline_label ≢ target_label
      → assert_no_leak baseline_label target_label threshold_mb
          (capture target_label stats mem_info snapshots).1
        ≡ (elim (latest baseline_label snapshots) [
          | none ↦ missing_labels
          | some base ↦
              let growth =
                pos (stat "allocated_bytes.all.current" stats) -ℤ pos base.allocated_bytes in
              if f.ltb threshold_mb (f.div (f.of_int growth) (f.of_int (pos 1048576)))
              then leak
              else no_leak
        ])
  unfolding assert_no_leak capture snapshot_of
  assert_no_leak-capture baseline_label target_label threshold_mb stats mem_info snapshots ne =
      let s = snapshot_of stats mem_info in
      let after = snapshots ++ (target_label, s) ∷ [] in
      let base =
        lookup-dict baseline_label after ∙ latest-snoc baseline_label target_label s snapshots in
      let target =
        lookup-dict target_label after ∙ latest-snoc target_label target_label s snapshots in
      let other = beq_of_ne target_label baseline_label (λ e. ne (sym e)) in
      elim (Option-cases (latest baseline_label snapshots)) [
        | inl e ↦ rw (assert_no_leak, capture, base, other, e) refl
        | inr (b, e) ↦
            rw (assert_no_leak, capture, base, other, e)
              (rw (capture, target, beq_refl target_label) refl)
      ]
