-- ===== src/Eval/Tracking/Stored.antt =====
-- A stored file is indexed as it stands in the store.
use cudaforge.Prelude.{
  ◌≡◌, ◌≢◌, refl, sym, not, String, none, some, inl, inr, lookup-insert, beq_refl, beq_of_ne,
  Bool-cases, if◌then◌else◌,
}
use cudaforge.Eval.Tracking.Store.{
  Files, stored, file_not_found, outside_store, FileSystem, read, write, same, dest_of, manifest_of,
  index, store_file,
}

module _ (F : Files) where
  pub read-write :
      (p q : F.FilePath) (c : F.Content) (fs : FileSystem F)
      → read F q (write F p c fs) ≡ (if same F p q then some c else read F q fs)
  read-write p q c fs = lookup-insert ⦃e = F.path_eq⦄ p q c fs

  copy_lem :
      (src dest : F.FilePath) (c : F.Content) (fs : FileSystem F)
      → read F src fs ≡ some c
      → let fs' = if not (same F src dest) then write F dest c fs else fs in
        (read F dest fs' ≡ some c) × ((p : F.FilePath) → p ≢ dest → read F p fs' ≡ read F p fs)
  copy_lem src dest c fs h = elim (Bool-cases (same F src dest)) [
    | inl equal ↦
        let e : src ≡ dest = (F.path_eq.beq_iff src dest).0 equal in
        rw equal (rw e at h, λ p ne. refl)
    | inr differ ↦ rw differ (
      rw (read-write dest dest c fs, beq_refl ⦃e = F.path_eq⦄ dest) refl,
      λ p ne. rw (read-write dest p c fs, beq_of_ne ⦃e = F.path_eq⦄ dest p (λ e. ne (sym e))) refl,
    )
  ]

  pub store_file_indexed :
      (source_path : F.FilePath) (run_id content_type now : String) (fs : FileSystem F)
      → let src = F.resolve source_path in
        let dest = dest_of F source_path run_id in
        let result = store_file F source_path run_id content_type now fs in
        (read F src fs ≡ none → result ≡ (file_not_found, fs))
        × ((c : F.Content)
            → read F src fs ≡ some c
            → (read F dest result.1 ≡ some c)
              × ((p : F.FilePath) → p ≢ dest → read F p result.1 ≡ read F p fs)
              × (result.0 ≡ (elim (F.relative dest) [
                | none ↦ outside_store
                | some rel ↦ stored (manifest_of F src content_type now c rel)
              ])))
  unfolding store_file index
  store_file_indexed source_path run_id content_type now fs =
      let src = F.resolve source_path in
      let dest = dest_of F source_path run_id in
      (
        λ e. rw (e, store_file) refl,
        λ c e.
            let (put, other) = copy_lem src dest c fs e in
            rw (e, store_file) (put, other, rw (put, index) refl),
      )
