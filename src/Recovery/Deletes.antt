-- ===== src/Recovery/Deletes.antt =====
-- services/file_operations.rs: the recovery of a delete.
use teatro.Prelude.{
  ℕ, Bool, true, false, not, List, [], ◌∷◌, all, nat_beq, list_eq, nat_eq, if◌then◌else◌,
}
use teatro.Prelude.Fallible.{Result}
use teatro.Prelude.Stateful.{Done, pure, raise, ◌>>=◌, ◌>>◌, continue}
use teatro.Prelude.Text.{Text}
use teatro.Files.{FileStore}
use teatro.Recovery.{
  DeleteOperationEntry, DeleteOperationPayload, partial_delete, both_exist, missing_both,
  Repositories, ResolvedDeleteEntry, original, trash, insert_root, lifted, queried, Run,
  ensure_version, find_root,
}

module _ (S : FileStore) (db : Repositories S.Failure) where
  abbrev pub operation_root_path : ℕ → Run S db Text
  operation_root_path root_id =
      if nat_beq root_id 0 then queried db.asset_root else find_root S db root_id

  abbrev pub resolve_delete_entries :
      List DeleteOperationEntry → Run S db (List ResolvedDeleteEntry)
  resolve_delete_entries [] d = pure [] d
  resolve_delete_entries (entry ∷ rest) d =
      continue (operation_root_path entry.root_id d) (λ root d1.
        continue (resolve_delete_entries rest d1)
          (λ others. pure (record { entry = entry; root_path = root } ∷ others)))

  -- The roots of the entries, and those that the payload lists.
  abbrev pub listed_roots : List ℕ → List Text → Run S db (List Text)
  listed_roots [] roots d = pure roots d
  listed_roots (root_id ∷ rest) roots d =
      continue (operation_root_path root_id d)
        (λ root. listed_roots rest (insert_root db.is_before root roots))

  abbrev pub entry_roots : List ResolvedDeleteEntry → List Text
  entry_roots [] = []
  entry_roots (e ∷ rest) = insert_root db.is_before e.root_path (entry_roots rest)

  abbrev pub lock_delete_roots : List Text → Run S db Done
  lock_delete_roots [] d = pure tt d
  lock_delete_roots (root ∷ rest) d =
      continue (lifted (S.lock_root root d)) (λ _. lock_delete_roots rest)

  -- What an entry's trash is removed by.
  abbrev pub remove_trash : ResolvedDeleteEntry → S.Disk → Result S.Failure Bool × S.Disk
  remove_trash e d =
      if e.entry.directory then S.remove_directory_all (trash e) d else S.remove (trash e) d

  unfoldable pub cleanup_resolved_delete_entries : List ResolvedDeleteEntry → Run S db Done
  cleanup_resolved_delete_entries [] d = pure tt d
  cleanup_resolved_delete_entries (e ∷ rest) d =
      continue (lifted (remove_trash e d)) (λ _. cleanup_resolved_delete_entries rest)

  abbrev pub restore : ResolvedDeleteEntry → S.Disk → Result S.Failure Done × S.Disk
  restore e d =
      if e.entry.directory
      then S.move_managed_directory (trash e) (original e) d
      else S.move_managed (trash e) (original e) d

  -- The `match (trash_exists, original_exists)`.
  abbrev pub restore_if : ResolvedDeleteEntry → Bool → Bool → Run S db Done
  restore_if e true false d = lifted (restore e d)
  restore_if e false true d = pure tt d
  restore_if e false false d = raise (missing_both e.entry.original_relative_path) d
  restore_if e true true d = raise both_exist d

  abbrev pub restore_entry : ResolvedDeleteEntry → Run S db Done
  restore_entry e d = continue (lifted (S.exists (trash e) d)) (λ in_trash d1.
      continue (lifted (S.exists (original e) d1)) (λ in_place. restore_if e in_trash in_place))

  unfoldable pub restore_entries : List ResolvedDeleteEntry → Run S db Done
  restore_entries [] d = pure tt d
  restore_entries (e ∷ rest) d = continue (restore_entry e d) (λ _. restore_entries rest)

  abbrev pub present_roms : List ℕ → Run S db (List Bool)
  present_roms [] d = pure [] d
  present_roms (rom_id ∷ rest) d =
      continue (queried (db.rom_exists rom_id) d)
        (λ here d1. continue (present_roms rest d1) (λ others. pure (here ∷ others)))

  -- Which side won, where the payload names roms.
  abbrev pub settle_roms : List ResolvedDeleteEntry → List Bool → Run S db Done
  settle_roms entries present =
      if all not present
      then cleanup_resolved_delete_entries entries
      else if not (all (λ here. here) present)
      then raise partial_delete
      else restore_entries entries

  abbrev pub settle_delete : List ResolvedDeleteEntry → List ℕ → Run S db Done
  settle_delete entries [] d = restore_entries entries d
  settle_delete entries (rom_id ∷ rest) d =
      continue (present_roms (rom_id ∷ rest) d) (λ present. settle_roms entries present)

  unfoldable pub reconcile_prepared_delete : DeleteOperationPayload → Run S db Done
  reconcile_prepared_delete payload = do
    ensure_version S db payload.version
    entries ← resolve_delete_entries payload.entries
    roots ← listed_roots payload.root_ids (entry_roots entries)
    lock_delete_roots roots
    settle_delete entries payload.rom_ids

  unfoldable pub cleanup_delete_entries : List DeleteOperationEntry → List ℕ → Run S db Done
  cleanup_delete_entries unresolved root_ids = do
    entries ← resolve_delete_entries unresolved
    roots ← listed_roots root_ids (entry_roots entries)
    lock_delete_roots roots
    cleanup_resolved_delete_entries entries

  unfoldable pub reconcile_committed_delete : DeleteOperationPayload → Run S db Done
  reconcile_committed_delete payload = do
    ensure_version S db payload.version
    cleanup_delete_entries payload.entries payload.root_ids
