-- ===== src/Recovery/Uploads.antt =====
-- services/file_operations.rs: the recovery of an upload.
use teatro.Prelude.{ℕ, Bool, true, false, not, List, [], ◌∷◌, all, list_eq, nat_eq, if◌then◌else◌}
use teatro.Prelude.Stateful.{Done, pure, raise, ◌>>=◌, ◌>>◌, continue}
use teatro.Prelude.Text.{Text}
use teatro.Files.{FileStore}
use teatro.Recovery.{
  UploadOperationPayload, partial_upload, missing_file, Repositories, lifted, queried, Run,
  ensure_version, find_root,
}

module _ (S : FileStore) (db : Repositories S.Failure) where
  -- `for path in paths { file_store().remove(root, path)?; }`
  abbrev pub remove_all : Text → List Text → Run S db Done
  remove_all root [] d = pure tt d
  remove_all root (path ∷ rest) d =
      continue (lifted (S.remove (record { root = root; path = path }) d))
        (λ _. remove_all root rest)

  -- The loop that asks which of the paths the database has.
  abbrev pub persisted_paths : ℕ → List Text → Run S db (List Bool)
  persisted_paths root_id [] d = pure [] d
  persisted_paths root_id (path ∷ rest) d =
      continue (queried (db.relative_path_exists root_id path) d)
        (λ here d1. continue (persisted_paths root_id rest d1) (λ others. pure (here ∷ others)))

  abbrev pub require_all : Text → List Text → Run S db Done
  require_all root [] d = pure tt d
  require_all root (path ∷ rest) d =
      continue (lifted (S.exists (record { root = root; path = path }) d)) (λ there d1. elim there [
        | true ↦ require_all root rest d1
        | false ↦ raise (missing_file path) d1
      ])

  -- Which side won: no row is there, or all are.
  abbrev pub settle_upload : Text → List Text → List Bool → Run S db Done
  settle_upload root paths persisted =
      if all not persisted
      then remove_all root paths
      else if all (λ here. here) persisted
      then require_all root paths
      else raise partial_upload

  unfoldable pub reconcile_prepared_upload : UploadOperationPayload → Run S db Done
  reconcile_prepared_upload payload = do
    ensure_version S db payload.version
    root ← find_root S db payload.root_id
    (λ d. lifted (S.lock_root root d))
    remove_all root payload.staged_relative_paths
    persisted ← persisted_paths payload.root_id payload.relative_paths
    settle_upload root payload.relative_paths persisted

  unfoldable pub reconcile_committed_upload : UploadOperationPayload → Run S db Done
  reconcile_committed_upload payload = do
    ensure_version S db payload.version
    root ← find_root S db payload.root_id
    (λ d. lifted (S.lock_root root d))
    remove_all root payload.staged_relative_paths
    require_all root payload.relative_paths
