-- ===== src/Recovery/Covers.antt =====
-- services/file_operations.rs: what the recovery of a replaced cover does to the files, below the
-- root of the assets.
use teatro.Prelude.{Bool, true, false, Option, none, some, List, [], ◌∷◌, ◌++◌}
use teatro.Prelude.Stateful.{Done, pure, raise, ◌>>◌, continue}
use teatro.Prelude.Text.{Text}
use teatro.Files.{FileStore, Place}
use teatro.Recovery.{
  CoverOperationEntry, CoverOperationPayload, missing_cover, ambiguous_cover, Repositories, lifted,
  Run,
}

module _ (S : FileStore) (db : Repositories S.Failure) where
  abbrev pub at : Text → Text → Place
  at root path = record { root = root; path = path }

  abbrev pub remove_at : Place → Run S db Done
  remove_at p d = continue (lifted (S.remove p d)) (λ _. pure tt)

  -- The `match (backup_exists, resource_exists)` of an entry that was replaced.
  abbrev pub roll_back : Text → Text → Text → Bool → Bool → Run S db Done
  roll_back root resource backup true true d =
      continue (remove_at (at root resource) d)
        (λ _ d1. lifted (S.move_managed (at root backup) (at root resource) d1))
  roll_back root resource backup true false d =
      lifted (S.move_managed (at root backup) (at root resource) d)
  roll_back root resource backup false true d = pure tt d
  roll_back root resource backup false false d = raise (missing_cover resource) d

  -- The `match` of an entry that became obsolete.
  abbrev pub put_back : Text → Text → Text → Bool → Bool → Run S db Done
  put_back root resource backup true false d =
      lifted (S.move_managed (at root backup) (at root resource) d)
  put_back root resource backup false true d = pure tt d
  put_back root resource backup true true d = raise (ambiguous_cover resource) d
  put_back root resource backup false false d = raise (missing_cover resource) d

  -- Both questions, and what follows from the answers.
  abbrev pub asked : Place → Place → (Bool → Bool → Run S db Done) → Run S db Done
  asked backup resource next d = continue (lifted (S.exists backup d)) (λ in_backup d1.
      continue (lifted (S.exists resource d1)) (λ in_place. next in_backup in_place))

  abbrev pub roll_back_entry : Text → Text → Option Text → Run S db Done
  roll_back_entry root resource (some backup) =
      asked (at root backup) (at root resource) (roll_back root resource backup)
  roll_back_entry root resource none = remove_at (at root resource)

  abbrev pub put_back_entry : Text → Text → Option Text → Run S db Done
  put_back_entry root resource (some backup) =
      asked (at root backup) (at root resource) (put_back root resource backup)
  put_back_entry root resource none = pure tt

  -- The loops go through their entries from the last to the first.
  unfoldable pub roll_back_entries : Text → List CoverOperationEntry → Run S db Done
  roll_back_entries root [] d = pure tt d
  roll_back_entries root (e ∷ rest) d =
      continue (roll_back_entries root rest d)
        (λ _. roll_back_entry root e.resource_path e.backup_relative_path)

  unfoldable pub put_back_entries : Text → List CoverOperationEntry → Run S db Done
  put_back_entries root [] d = pure tt d
  put_back_entries root (e ∷ rest) d =
      continue (put_back_entries root rest d)
        (λ _. put_back_entry root e.resource_path e.backup_relative_path)

  unfoldable pub rollback_cover_files : Text → CoverOperationPayload → Run S db Done
  rollback_cover_files root payload =
      roll_back_entries root payload.entries >> put_back_entries root payload.obsolete_entries

  abbrev pub verify_replacements : Text → List CoverOperationEntry → Run S db Done
  verify_replacements root [] d = pure tt d
  verify_replacements root (e ∷ rest) d =
      continue (lifted (S.exists (at root e.resource_path) d)) (λ there d1. elim there [
        | true ↦ verify_replacements root rest d1
        | false ↦ raise (missing_cover e.resource_path) d1
      ])

  abbrev pub verify_if : Bool → Text → List CoverOperationEntry → Run S db Done
  verify_if true root entries = verify_replacements root entries
  verify_if false root entries = pure tt

  abbrev pub remove_backup : Text → Option Text → Run S db Done
  remove_backup root (some backup) = remove_at (at root backup)
  remove_backup root none = pure tt

  abbrev pub remove_backups : Text → List CoverOperationEntry → Run S db Done
  remove_backups root [] d = pure tt d
  remove_backups root (e ∷ rest) d =
      continue (remove_backup root e.backup_relative_path d) (λ _. remove_backups root rest)

  unfoldable pub cleanup_cover_files : Text → CoverOperationPayload → Bool → Run S db Done
  cleanup_cover_files root payload verify =
      verify_if verify root payload.entries
      >> remove_backups root (payload.entries ++ payload.obsolete_entries)

  abbrev pub discard_entries : Text → List CoverOperationEntry → Run S db Done
  discard_entries root [] d = pure tt d
  discard_entries root (e ∷ rest) d = continue (remove_at (at root e.resource_path) d) (λ _ d1.
      continue (remove_backup root e.backup_relative_path d1) (λ _. discard_entries root rest))

  unfoldable pub discard_cover_files : Text → CoverOperationPayload → Run S db Done
  discard_cover_files root payload =
      discard_entries root (payload.entries ++ payload.obsolete_entries)
