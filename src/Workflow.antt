-- ===== src/Workflow.antt =====
-- domain/workflow.rs: the values that the database keeps of workflows, and their texts.
pub mod Texts
use teatro.Prelude.{Option, none, some, List, [], ◌∷◌, if◌then◌else◌, ◌==◌, nat_eq, list_eq}
use teatro.Prelude.Text.{Text, codes}

-- `from_str` of the macro: the first of the variants whose text the value is.
abbrev pub from_arms {ℓ} : {A : Type ℓ} → (A → Text) → List A → Text → Option A
from_arms as_str [] value = none
from_arms as_str (variant ∷ variants) value =
    let rest = from_arms as_str variants value in
    if as_str variant == value then some variant else rest

pub data FileOperationKind : Type 0 where
  upload delete cover_replace : FileOperationKind

abbrev pub file_operation_kind_as_str : FileOperationKind → Text
file_operation_kind_as_str FileOperationKind.upload = codes "upload"
file_operation_kind_as_str FileOperationKind.delete = codes "delete"
file_operation_kind_as_str FileOperationKind.cover_replace = codes "cover_replace"

unfoldable pub file_operation_kind_from_str : Text → Option FileOperationKind
file_operation_kind_from_str value =
    from_arms file_operation_kind_as_str
      (FileOperationKind.upload ∷ FileOperationKind.delete ∷ FileOperationKind.cover_replace ∷ [])
      value

pub data FileOperationState : Type 0 where
  prepared db_committed cleanup_pending completed failed : FileOperationState

abbrev pub file_operation_state_as_str : FileOperationState → Text
file_operation_state_as_str FileOperationState.prepared = codes "prepared"
file_operation_state_as_str FileOperationState.db_committed = codes "db_committed"
file_operation_state_as_str FileOperationState.cleanup_pending = codes "cleanup_pending"
file_operation_state_as_str FileOperationState.completed = codes "completed"
file_operation_state_as_str FileOperationState.failed = codes "failed"

unfoldable pub file_operation_state_from_str : Text → Option FileOperationState
file_operation_state_from_str value =
    from_arms file_operation_state_as_str
      (FileOperationState.prepared ∷ FileOperationState.db_committed
        ∷ FileOperationState.cleanup_pending ∷ FileOperationState.completed
        ∷ FileOperationState.failed ∷ [])
      value

pub data IntegrityJobKind : Type 0 where
  hash_and_match : IntegrityJobKind

abbrev pub integrity_job_kind_as_str : IntegrityJobKind → Text
integrity_job_kind_as_str IntegrityJobKind.hash_and_match = codes "hash_and_match"

unfoldable pub integrity_job_kind_from_str : Text → Option IntegrityJobKind
integrity_job_kind_from_str value =
    from_arms integrity_job_kind_as_str (IntegrityJobKind.hash_and_match ∷ []) value

pub data IntegrityJobStatus : Type 0 where
  queued running completed failed : IntegrityJobStatus

abbrev pub integrity_job_status_as_str : IntegrityJobStatus → Text
integrity_job_status_as_str IntegrityJobStatus.queued = codes "queued"
integrity_job_status_as_str IntegrityJobStatus.running = codes "running"
integrity_job_status_as_str IntegrityJobStatus.completed = codes "completed"
integrity_job_status_as_str IntegrityJobStatus.failed = codes "failed"

unfoldable pub integrity_job_status_from_str : Text → Option IntegrityJobStatus
integrity_job_status_from_str value =
    from_arms integrity_job_status_as_str
      (IntegrityJobStatus.queued ∷ IntegrityJobStatus.running ∷ IntegrityJobStatus.completed
        ∷ IntegrityJobStatus.failed ∷ [])
      value

pub data FileHashStatus : Type 0 where
  pending hashing complete failed : FileHashStatus

abbrev pub file_hash_status_as_str : FileHashStatus → Text
file_hash_status_as_str FileHashStatus.pending = codes "pending"
file_hash_status_as_str FileHashStatus.hashing = codes "hashing"
file_hash_status_as_str FileHashStatus.complete = codes "complete"
file_hash_status_as_str FileHashStatus.failed = codes "failed"

unfoldable pub file_hash_status_from_str : Text → Option FileHashStatus
file_hash_status_from_str value =
    from_arms file_hash_status_as_str
      (FileHashStatus.pending ∷ FileHashStatus.hashing ∷ FileHashStatus.complete
        ∷ FileHashStatus.failed ∷ [])
      value

pub data DatMatchMethod : Type 0 where
  crc32 md5 sha1 sha256 : DatMatchMethod

abbrev pub dat_match_method_as_str : DatMatchMethod → Text
dat_match_method_as_str DatMatchMethod.crc32 = codes "crc32"
dat_match_method_as_str DatMatchMethod.md5 = codes "md5"
dat_match_method_as_str DatMatchMethod.sha1 = codes "sha1"
dat_match_method_as_str DatMatchMethod.sha256 = codes "sha256"

unfoldable pub dat_match_method_from_str : Text → Option DatMatchMethod
dat_match_method_from_str value =
    from_arms dat_match_method_as_str
      (DatMatchMethod.crc32 ∷ DatMatchMethod.md5 ∷ DatMatchMethod.sha1 ∷ DatMatchMethod.sha256 ∷ [])
      value

pub data RomIntegrityStatus : Type 0 where
  pending hashing unmatched verified failed : RomIntegrityStatus

abbrev pub rom_integrity_status_as_str : RomIntegrityStatus → Text
rom_integrity_status_as_str RomIntegrityStatus.pending = codes "pending"
rom_integrity_status_as_str RomIntegrityStatus.hashing = codes "hashing"
rom_integrity_status_as_str RomIntegrityStatus.unmatched = codes "unmatched"
rom_integrity_status_as_str RomIntegrityStatus.verified = codes "verified"
rom_integrity_status_as_str RomIntegrityStatus.failed = codes "failed"

unfoldable pub rom_integrity_status_from_str : Text → Option RomIntegrityStatus
rom_integrity_status_from_str value =
    from_arms rom_integrity_status_as_str
      (RomIntegrityStatus.pending ∷ RomIntegrityStatus.hashing ∷ RomIntegrityStatus.unmatched
        ∷ RomIntegrityStatus.verified ∷ RomIntegrityStatus.failed ∷ [])
      value
