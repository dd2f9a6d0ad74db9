-- ===== src/Workflow/Texts.antt =====
-- The texts of domain/workflow.rs are read back, and no other text is read.
use mathlib.Core.Option.{some-injective}
use teatro.Prelude.{
  ◌≡◌, ◌↔◌, refl, inl, inr, ap, sym, ◌∙◌, Option, some, List, [], ◌∷◌, ◌==◌, nat_eq, list_eq,
  list_beq_iff, Bool-cases,
}
use teatro.Prelude.Text.{Text}
use teatro.Workflow.{
  from_arms, FileOperationKind, FileOperationState, IntegrityJobKind, IntegrityJobStatus,
  FileHashStatus, DatMatchMethod, RomIntegrityStatus, file_operation_kind_as_str,
  file_operation_state_as_str, integrity_job_kind_as_str, integrity_job_status_as_str,
  file_hash_status_as_str, dat_match_method_as_str, rom_integrity_status_as_str,
  file_operation_kind_from_str, file_operation_state_from_str, integrity_job_kind_from_str,
  integrity_job_status_from_str, file_hash_status_from_str, dat_match_method_from_str,
  rom_integrity_status_from_str,
}

-- The text of every value is read as that value.
abbrev pub ReadsBack {ℓ} : {A : Type ℓ} → (A → Text) → (Text → Option A) → Type ℓ
ReadsBack {A = A} as_str from_str = (a : A) → from_str (as_str a) ≡ some a

-- What is read has the text that it was read from.
from_arms-text {ℓ} :
    {A : Type ℓ} (as_str : A → Text) (variants : List A) (value : Text) (a : A)
    → from_arms as_str variants value ≡ some a
    → as_str a ≡ value
from_arms-text as_str [] value a h = cc
from_arms-text as_str (variant ∷ variants) value a h = elim (Bool-cases (as_str variant == value)) [
  | inl hit ↦
      ap as_str (sym (some-injective variant a (rw hit at h)))
      ∙ (list_beq_iff (as_str variant) value).0 hit
  | inr miss ↦ from_arms-text as_str variants value a (rw miss at h)
]

file_operation_kind-ReadsBack : ReadsBack file_operation_kind_as_str file_operation_kind_from_str
unfolding file_operation_kind_from_str
file_operation_kind-ReadsBack FileOperationKind.upload = refl
file_operation_kind-ReadsBack FileOperationKind.delete = refl
file_operation_kind-ReadsBack FileOperationKind.cover_replace = refl

file_operation_state-ReadsBack : ReadsBack file_operation_state_as_str file_operation_state_from_str
unfolding file_operation_state_from_str
file_operation_state-ReadsBack FileOperationState.prepared = refl
file_operation_state-ReadsBack FileOperationState.db_committed = refl
file_operation_state-ReadsBack FileOperationState.cleanup_pending = refl
file_operation_state-ReadsBack FileOperationState.completed = refl
file_operation_state-ReadsBack FileOperationState.failed = refl

integrity_job_kind-ReadsBack : ReadsBack integrity_job_kind_as_str integrity_job_kind_from_str
unfolding integrity_job_kind_from_str
integrity_job_kind-ReadsBack IntegrityJobKind.hash_and_match = refl

integrity_job_status-ReadsBack : ReadsBack integrity_job_status_as_str integrity_job_status_from_str
unfolding integrity_job_status_from_str
integrity_job_status-ReadsBack IntegrityJobStatus.queued = refl
integrity_job_status-ReadsBack IntegrityJobStatus.running = refl
integrity_job_status-ReadsBack IntegrityJobStatus.completed = refl
integrity_job_status-ReadsBack IntegrityJobStatus.failed = refl

file_hash_status-ReadsBack : ReadsBack file_hash_status_as_str file_hash_status_from_str
unfolding file_hash_status_from_str
file_hash_status-ReadsBack FileHashStatus.pending = refl
file_hash_status-ReadsBack FileHashStatus.hashing = refl
file_hash_status-ReadsBack FileHashStatus.complete = refl
file_hash_status-ReadsBack FileHashStatus.failed = refl

dat_match_method-ReadsBack : ReadsBack dat_match_method_as_str dat_match_method_from_str
unfolding dat_match_method_from_str
dat_match_method-ReadsBack DatMatchMethod.crc32 = refl
dat_match_method-ReadsBack DatMatchMethod.md5 = refl
dat_match_method-ReadsBack DatMatchMethod.sha1 = refl
dat_match_method-ReadsBack DatMatchMethod.sha256 = refl

rom_integrity_status-ReadsBack : ReadsBack rom_integrity_status_as_str rom_integrity_status_from_str
unfolding rom_integrity_status_from_str
rom_integrity_status-ReadsBack RomIntegrityStatus.pending = refl
rom_integrity_status-ReadsBack RomIntegrityStatus.hashing = refl
rom_integrity_status-ReadsBack RomIntegrityStatus.unmatched = refl
rom_integrity_status-ReadsBack RomIntegrityStatus.verified = refl
rom_integrity_status-ReadsBack RomIntegrityStatus.failed = refl

-- A text is read as a value exactly where it is the text of that value.
abbrev pub IsCodec {ℓ} : {A : Type ℓ} → (A → Text) → (Text → Option A) → Type ℓ
IsCodec {A = A} as_str from_str =
    (text : Text) (a : A) → (from_str text ≡ some a) ↔ (as_str a ≡ text)

codec {ℓ} :
    {A : Type ℓ} (as_str : A → Text) (variants : List A)
    → ReadsBack as_str (from_arms as_str variants)
    → IsCodec as_str (from_arms as_str variants)
codec as_str variants h text a =
    (from_arms-text as_str variants text a, λ e. ap (from_arms as_str variants) (sym e) ∙ h a)

-- For each of the seven types of workflow values, a text is read as a value exactly where it is the
-- text that the database keeps for that value.
pub workflow_values_read_back :
    IsCodec file_operation_kind_as_str file_operation_kind_from_str
    × IsCodec file_operation_state_as_str file_operation_state_from_str
    × IsCodec integrity_job_kind_as_str integrity_job_kind_from_str
    × IsCodec integrity_job_status_as_str integrity_job_status_from_str
    × IsCodec file_hash_status_as_str file_hash_status_from_str
    × IsCodec dat_match_method_as_str dat_match_method_from_str
    × IsCodec rom_integrity_status_as_str rom_integrity_status_from_str
unfolding file_operation_kind_from_str file_operation_state_from_str integrity_job_kind_from_str
    integrity_job_status_from_str file_hash_status_from_str dat_match_method_from_str
    rom_integrity_status_from_str
workflow_values_read_back = (
  codec file_operation_kind_as_str
      (FileOperationKind.upload ∷ FileOperationKind.delete ∷ FileOperationKind.cover_replace ∷ [])
      file_operation_kind-ReadsBack,
  codec file_operation_state_as_str
      (FileOperationState.prepared ∷ FileOperationState.db_committed
        ∷ FileOperationState.cleanup_pending ∷ FileOperationState.completed
        ∷ FileOperationState.failed ∷ [])
      file_operation_state-ReadsBack,
  codec integrity_job_kind_as_str (IntegrityJobKind.hash_and_match ∷ [])
      integrity_job_kind-ReadsBack,
  codec integrity_job_status_as_str
      (IntegrityJobStatus.queued ∷ IntegrityJobStatus.running ∷ IntegrityJobStatus.completed
        ∷ IntegrityJobStatus.failed ∷ [])
      integrity_job_status-ReadsBack,
  codec file_hash_status_as_str
      (FileHashStatus.pending ∷ FileHashStatus.hashing ∷ FileHashStatus.complete
        ∷ FileHashStatus.failed ∷ [])
      file_hash_status-ReadsBack,
  codec dat_match_method_as_str
      (DatMatchMethod.crc32 ∷ DatMatchMethod.md5 ∷ DatMatchMethod.sha1 ∷ DatMatchMethod.sha256 ∷ [])
      dat_match_method-ReadsBack,
  codec rom_integrity_status_as_str
      (RomIntegrityStatus.pending ∷ RomIntegrityStatus.hashing ∷ RomIntegrityStatus.unmatched
        ∷ RomIntegrityStatus.verified ∷ RomIntegrityStatus.failed ∷ [])
      rom_integrity_status-ReadsBack,
)
