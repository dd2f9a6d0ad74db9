-- ===== src/Recovery/Reconcile.antt =====
-- `reconcile` of services/file_operations.rs: what it does with each unfinished row of the journal, and
-- where an error of the journal's database stops it. The parsers of the payloads, the texts of errors,
-- the clock of the database and what its calls on the journal answer are parameters; no other process
-- writes the journal meanwhile.
pub mod Left
pub mod Finished
use teatro.Prelude.{
  ℕ, Bool, true, false, not, ◌&&◌, Option, none, some, List, [], ◌∷◌, ◌++◌, map, ◌==◌, nat_eq,
  list_eq, if◌then◌else◌,
}
use teatro.Prelude.Fallible.{Result, ok, err}
use teatro.Prelude.Stateful.{Action, Done, pure, raise, ◌>>=◌, ◌>>◌, continue}
use teatro.Prelude.Text.{Text}
use teatro.Files.{FileStore}
use teatro.Workflow.{FileOperationKind, FileOperationState}
use teatro.Journal.{FileOperation, set_state, state_by_id, pending, prune_completed, is_completed}
use teatro.Recovery.{
  UploadOperationPayload, DeleteOperationPayload, CoverOperationPayload, CoverOperationEntry,
  RecoveryError, failed, missing_row, ambiguous_state, Repositories, lifted, queried, Run,
  ensure_version,
}
use teatro.Recovery.Uploads.{reconcile_prepared_upload, reconcile_committed_upload}
use teatro.Recovery.Deletes.{reconcile_prepared_delete, reconcile_committed_delete}
use teatro.Recovery.Covers.{rollback_cover_files, cleanup_cover_files, discard_cover_files}

pub record Codecs (F : Type 0) : Type 0 where
  pub upload_of : Text → Result F UploadOperationPayload
  pub delete_of : Text → Result F DeleteOperationPayload
  pub cover_of : Text → Result F CoverOperationPayload
  -- `Error::to_string`, and the time at which the row of an operation is written.
  pub message : RecoveryError F → Text
  pub written_at : FileOperation → Text

-- What the database answers where a call on the journal fails, by the id of the operation: such a call
-- writes nothing.
pub record JournalFaults (F : Type 0) : Type 0 where
  pub lists : Option F
  pub reads : Text → Option F
  pub completes : Text → Option F
  pub marks : Text → Option F
  pub prunes : Option F

-- A write of the journal, from the rows before it to the rows after it.
abbrev pub written :
    {F D : Type 0}
    → Option F
    → List FileOperation
    → D × List FileOperation
    → Result (RecoveryError F) Done × (D × List FileOperation)
written none after (d, before) = (ok tt, (d, after))
written (some error) after (d, before) = (err (failed error), (d, before))

-- A read of the journal.
abbrev pub read_of : {F A : Type 0} → Option F → A → Result F A
read_of none a = ok a
read_of (some error) a = err error

-- What a call answers that leaves the journal alone.
abbrev pub beside :
    {E D A : Type 0} → List FileOperation → Result E A × D → Result E A × (D × List FileOperation)
beside rows (result, d) = (result, (d, rows))

abbrev pub some_path : Option Text → List Text
some_path none = []
some_path (some path) = path ∷ []

abbrev pub current_paths : Option (Option Text × Option Text) → List Text
current_paths none = []
current_paths (some (large, small)) = some_path large ++ some_path small

abbrev pub is_present {ℓ} : {A : Type ℓ} → Option A → Bool
is_present none = false
is_present (some a) = true

abbrev pub completed_history_to_retain : ℕ
completed_history_to_retain = 1000

module _ (S : FileStore) (db : Repositories S.Failure) (codecs : Codecs S.Failure)
    (faults : JournalFaults S.Failure) where
  abbrev pub settle_legacy :
      Text → CoverOperationPayload → Option (Option Text × Option Text) → Run S db Done
  settle_legacy root payload current =
      let paths = current_paths current in
      let new_paths = map (λ e. e.resource_path) payload.entries in
      if paths == payload.previous_paths && not (paths == new_paths)
      then rollback_cover_files S db root payload
      else if paths == new_paths && not (paths == payload.previous_paths)
      then cleanup_cover_files S db root payload (is_present current)
      else raise ambiguous_state

  unfoldable pub reconcile_legacy_prepared_cover : Text → CoverOperationPayload → Run S db Done
  reconcile_legacy_prepared_cover root payload = do
    current ← queried (db.cover_paths_for_rom payload.rom_id)
    settle_legacy root payload current

  abbrev pub settle_prepared : Text → CoverOperationPayload → Bool → Run S db Done
  settle_prepared root payload rom_exists =
      if payload.transactional_state
      then (if rom_exists
          then rollback_cover_files S db root payload
          else discard_cover_files S db root payload)
      else reconcile_legacy_prepared_cover root payload

  abbrev pub settle_committed : Text → CoverOperationPayload → Bool → Run S db Done
  settle_committed root payload rom_exists =
      if rom_exists
      then cleanup_cover_files S db root payload true
      else discard_cover_files S db root payload

  -- The `match operation_state`.
  abbrev pub settle_cover : Text → CoverOperationPayload → FileOperationState → Bool → Run S db Done
  settle_cover root payload FileOperationState.prepared rom_exists =
      settle_prepared root payload rom_exists
  settle_cover root payload FileOperationState.failed rom_exists =
      settle_prepared root payload rom_exists
  settle_cover root payload FileOperationState.db_committed rom_exists =
      settle_committed root payload rom_exists
  settle_cover root payload FileOperationState.cleanup_pending rom_exists =
      settle_committed root payload rom_exists
  settle_cover root payload FileOperationState.completed rom_exists = pure tt

  -- Whether the row is still to be completed: another process may have completed it.
  abbrev pub from_state : Text → CoverOperationPayload → Option FileOperationState → Run S db Bool
  from_state root payload none = raise missing_row
  from_state root payload (some state) = if is_completed state then pure false else (do
    rom_exists ← queried (db.rom_exists payload.rom_id)
    settle_cover root payload state rom_exists
    pure true)

  -- What stands before the `complete` of `reconcile_cover_operation`.
  unfoldable pub settle_cover_operation : List FileOperation → FileOperation → Run S db Bool
  settle_cover_operation rows operation = do
    root ← queried db.asset_root
    (λ d. lifted (S.lock_root root d))
    payload ← queried (codecs.cover_of operation.payload_json)
    ensure_version S db payload.version
    state ← queried (read_of (faults.reads operation.id) (state_by_id operation.id rows))
    from_state root payload state

  -- The disk and the journal.
  abbrev pub Recovering : Type 0 → Type 0
  Recovering A = Action (S.Disk × List FileOperation) (RecoveryError S.Failure) A

  unfoldable pub complete : FileOperation → Recovering Done
  complete operation (d, rows) =
      written (faults.completes operation.id)
        (set_state (codecs.written_at operation) operation.id FileOperationState.completed none
          rows)
        (d, rows)

  -- A write that fails is logged, and nothing else.
  unfoldable pub fail : FileOperation → Text → Recovering Done
  fail operation message (d, rows) = (
    ok tt,
    (written (faults.marks operation.id)
        (set_state (codecs.written_at operation) operation.id FileOperationState.failed
          (some message) rows)
        (d, rows)).1,
  )

  -- The row is completed before the lock is released.
  abbrev pub complete_locked : FileOperation → Bool → Recovering Done
  complete_locked operation true = complete operation
  complete_locked operation false = pure tt

  unfoldable pub reconcile_cover_operation : FileOperation → Recovering Done
  reconcile_cover_operation operation (d, rows) =
      continue (beside rows (settle_cover_operation rows operation d)) (complete_locked operation)

  abbrev pub upload_step : FileOperationState → UploadOperationPayload → Run S db Done
  upload_step FileOperationState.prepared payload = reconcile_prepared_upload S db payload
  upload_step FileOperationState.failed payload = reconcile_prepared_upload S db payload
  upload_step FileOperationState.db_committed payload = reconcile_committed_upload S db payload
  upload_step FileOperationState.cleanup_pending payload = reconcile_committed_upload S db payload
  upload_step FileOperationState.completed payload = pure tt

  abbrev pub delete_step : FileOperationState → DeleteOperationPayload → Run S db Done
  delete_step FileOperationState.prepared payload = reconcile_prepared_delete S db payload
  delete_step FileOperationState.failed payload = reconcile_prepared_delete S db payload
  delete_step FileOperationState.db_committed payload = reconcile_committed_delete S db payload
  delete_step FileOperationState.cleanup_pending payload = reconcile_committed_delete S db payload
  delete_step FileOperationState.completed payload = pure tt

  abbrev pub reconcile_upload : FileOperation → Run S db Bool
  reconcile_upload operation = do
    payload ← queried (codecs.upload_of operation.payload_json)
    upload_step operation.state payload
    pure false

  abbrev pub reconcile_delete : FileOperation → Run S db Bool
  reconcile_delete operation = do
    payload ← queried (codecs.delete_of operation.payload_json)
    delete_step operation.state payload
    pure false

  -- The `match (operation.kind, operation.state)`: whether the row was completed while locked. An
  -- upload or a delete that is completed, which `pending` never gives, is left as it is.
  abbrev pub dispatch_kind : FileOperationKind → FileOperation → Recovering Bool
  dispatch_kind FileOperationKind.upload operation (d, rows) =
      if is_completed operation.state
      then (ok true, (d, rows))
      else beside rows (reconcile_upload operation d)
  dispatch_kind FileOperationKind.delete operation (d, rows) =
      if is_completed operation.state
      then (ok true, (d, rows))
      else beside rows (reconcile_delete operation d)
  dispatch_kind FileOperationKind.cover_replace operation (d, rows) =
      continue (reconcile_cover_operation operation (d, rows)) (λ _. pure true)

  -- The `match result`: the error of an operation is written to its row, and the loop goes on; an error
  -- of `complete` ends the loop.
  abbrev pub record_result : FileOperation → Result (RecoveryError S.Failure) Bool → Recovering Done
  record_result operation (ok true) = pure tt
  record_result operation (ok false) = complete operation
  record_result operation (err error) = fail operation (codecs.message error)

  unfoldable pub reconcile_rows : List FileOperation → Recovering Done
  reconcile_rows [] state = (ok tt, state)
  reconcile_rows (operation ∷ rest) state =
      let (result, after) = dispatch_kind operation.kind operation state in
      continue (record_result operation result after) (λ _. reconcile_rows rest)

  unfoldable pub reconcile : Recovering Done
  reconcile (d, rows) =
      continue (beside rows (queried (read_of faults.lists (pending rows)) d)) (λ operations state.
        continue (reconcile_rows operations state) (λ _ (after, settled).
          written faults.prunes (prune_completed completed_history_to_retain settled)
            (after, settled)))
