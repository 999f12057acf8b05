-- ===== src/Eval/Tracking/Store.antt =====
-- `ArtifactStore` of artifact_store.py, over a file system that maps paths to contents.
use cudaforge.Prelude.{
  ℕ, Bool, not, String, Option, none, some, Dict, lookup, insert, Eq, ◌==◌, if◌then◌else◌,
}

-- Paths, texts and contents: `resolve`, `name` and `relative_to(store_root)`, which fails outside of
-- the store, are pathlib's; `under run_id name` is `self.store_root / run_id / name`.
pub record Files : Type 1 where
  pub FilePath : Type 0
  pub path_eq : Eq FilePath
  pub Content : Type 0
  pub resolve : FilePath → FilePath
  pub name : FilePath → String
  pub under : String → String → FilePath
  pub relative : FilePath → Option String
  pub sha256 : Content → String
  pub size : Content → ℕ
  pub ends_with : String → String → Bool
  pub append : String → String → String
  pub artifact_id : String → String

pub record ArtifactManifest : Type 0 where
  pub artifact_id : String
  pub filename : String
  pub sha256_hash : String
  pub size_bytes : ℕ
  pub content_type : String
  pub created_at : String
  pub relative_path : String

pub data Stored : Type 0 where
  stored : ArtifactManifest → Stored
  file_not_found outside_store : Stored
  not_serializable : String → Stored

module _ (F : Files) where
  open F use {FilePath, Content}

  abbrev pub FileSystem : Type 0
  FileSystem = Dict FilePath Content

  abbrev pub read : FilePath → FileSystem → Option Content
  read p fs = lookup ⦃e = F.path_eq⦄ p fs

  abbrev pub write : FilePath → Content → FileSystem → FileSystem
  write p c fs = insert ⦃e = F.path_eq⦄ p c fs

  abbrev pub same : FilePath → FilePath → Bool
  same p q = ◌==◌ ⦃e = F.path_eq⦄ p q

  -- Where `store_file` puts a file.
  abbrev pub dest_of : FilePath → String → FilePath
  dest_of source_path run_id = F.resolve (F.under run_id (F.name (F.resolve source_path)))

  abbrev pub manifest_of : FilePath → String → String → Content → String → ArtifactManifest
  manifest_of src content_type now c rel = record {
    artifact_id = F.artifact_id (F.sha256 c);
    filename = F.name src;
    sha256_hash = F.sha256 c;
    size_bytes = F.size c;
    content_type = content_type;
    created_at = now;
    relative_path = rel;
  }

  -- The hash and the size are read back from the destination.
  unfoldable pub index : FilePath → FilePath → String → String → FileSystem → Stored
  index src dest content_type now fs = elim (read dest fs) [
    | none ↦ file_not_found
    | some c ↦ elim (F.relative dest) [
      | none ↦ outside_store
      | some rel ↦ stored (manifest_of src content_type now c rel)
    ]
  ]

  unfoldable pub store_file : FilePath → String → String → String → FileSystem → Stored × FileSystem
  unfolding index
  store_file source_path run_id content_type now fs =
      let src = F.resolve source_path in
      let dest = dest_of source_path run_id in
      elim (read src fs) [
        | none ↦ (file_not_found, fs)
        | some c ↦
            let fs' = if not (same src dest) then write dest c fs else fs in
            (index src dest content_type now fs', fs')
      ]

  unfoldable pub json_name : String → String
  json_name filename =
      if not (F.ends_with filename ".json") then F.append filename ".json" else filename

  -- `dump` is `json.dump`: what it writes, and the text of the exception that it raises then, if any.
  unfoldable pub store_json :
      {D : Type 0}
      → (D → Content × Option String)
      → D
      → String
      → String
      → String
      → FileSystem
      → Stored × FileSystem
  unfolding json_name store_file
  store_json dump value run_id filename now fs =
      let target_path = F.under run_id (json_name filename) in
      let (written, failure) = dump value in
      let fs' = write (F.resolve target_path) written fs in
      elim failure [
        | none ↦ store_file target_path run_id "application/json" now fs'
        | some e ↦ (not_serializable e, fs')
      ]

  unfoldable pub store_pt_tensor :
      {T : Type 0} → (T → Content) → T → String → String → String → FileSystem → Stored × FileSystem
  unfolding store_file
  store_pt_tensor save tensor run_id filename now fs =
      let name = if not (F.ends_with filename ".pt") then F.append filename ".pt" else filename in
      let target_path = F.under run_id name in
      store_file target_path run_id "application/octet-stream" now
        (write (F.resolve target_path) (save tensor) fs)
