-- ===== src/Recovery.antt =====
-- services/file_operations.rs: the recovery of managed uploads and deletes after a crash. The file
-- store is an interface; the database, the parser of the payloads and `canonicalize` are parameters.
pub mod Uploads
pub mod Deletes
pub mod Recorded
pub mod Roots
pub mod Rules
pub mod Disciplined
pub mod Covers
pub mod Reconcile
use teatro.Prelude.{
  ℕ, Bool, true, false, not, ◌&&◌, Option, none, some, List, [], ◌∷◌, all, nat_beq, map, ◌==◌,
  list_eq, nat_eq, if◌then◌else◌,
}
use teatro.Prelude.Fallible.{Result, ok, err}
use teatro.Prelude.Stateful.{Action, Done, pure, raise, ◌>>=◌, ◌>>◌, raise_if, for_each, continue}
use teatro.Prelude.Text.{Text, text_le}
use teatro.Files.{FileStore, Place}

pub record UploadOperationPayload : Type 0 where
  pub version : ℕ
  pub root_id : ℕ
  pub relative_paths : List Text
  pub staged_relative_paths : List Text

pub record DeleteOperationEntry : Type 0 where
  pub root_id : ℕ
  pub original_relative_path : Text
  pub trash_relative_path : Text
  pub directory : Bool

pub record DeleteOperationPayload : Type 0 where
  pub version : ℕ
  pub rom_ids : List ℕ
  pub entries : List DeleteOperationEntry
  pub root_ids : List ℕ

pub record CoverOperationEntry : Type 0 where
  pub resource_path : Text
  pub backup_relative_path : Option Text

pub record CoverOperationPayload : Type 0 where
  pub version : ℕ
  pub rom_id : ℕ
  pub previous_paths : List Text
  pub entries : List CoverOperationEntry
  pub obsolete_entries : List CoverOperationEntry
  pub transactional_state : Bool

-- What stops a recovery: an error of the file store or the database, or one of `AppError`.
pub data RecoveryError (F : Type 0) : Type 0 where
  failed : F → RecoveryError F
  unsupported_version : ℕ → RecoveryError F
  missing_root partial_upload partial_delete both_exist missing_row ambiguous_state :
      RecoveryError F
  missing_file missing_both missing_cover ambiguous_cover : Text → RecoveryError F

abbrev pub payload_version : ℕ
payload_version = 1

-- What the repositories answer, and the roots as `canonicalize` gives them. Root 0 is the assets'.
pub record Repositories (F : Type 0) : Type 0 where
  pub find_root : ℕ → Result F (Option Text)
  pub asset_root : Result F Text
  pub relative_path_exists : ℕ → Text → Result F Bool
  pub rom_exists : ℕ → Result F Bool
  pub cover_paths_for_rom : ℕ → Result F (Option (Option Text × Option Text))
  -- `Ord for Path`: whether the first of two roots stands before the other.
  pub is_before : Text → Text → Bool

pub record ResolvedDeleteEntry : Type 0 where
  pub entry : DeleteOperationEntry
  pub root_path : Text

abbrev pub original : ResolvedDeleteEntry → Place
original e = record { root = e.root_path; path = e.entry.original_relative_path }

abbrev pub trash : ResolvedDeleteEntry → Place
trash e = record { root = e.root_path; path = e.entry.trash_relative_path }

-- `BTreeSet::insert`: the roots in their order, each once.
abbrev pub insert_root : (Text → Text → Bool) → Text → List Text → List Text
insert_root is_before root [] = root ∷ []
insert_root is_before root (first ∷ rest) =
    let later = insert_root is_before root rest in
    if root == first
    then first ∷ rest
    else if is_before root first
    then root ∷ first ∷ rest
    else first ∷ later

-- A step of the file store or the database, whose error `?` converts.
abbrev pub lifted : {F A D : Type 0} → Result F A × D → Result (RecoveryError F) A × D
lifted (ok a, d) = (ok a, d)
lifted (err error, d) = (err (failed error), d)

abbrev pub queried : {F A D : Type 0} → Result F A → D → Result (RecoveryError F) A × D
queried (ok a) d = (ok a, d)
queried (err error) d = (err (failed error), d)

abbrev pub or_missing_root : {F D : Type 0} → Option Text → D → Result (RecoveryError F) Text × D
or_missing_root none d = (err missing_root, d)
or_missing_root (some root) d = (ok root, d)

module _ (S : FileStore) (db : Repositories S.Failure) where
  abbrev pub Run : Type 0 → Type 0
  Run A = Action S.Disk (RecoveryError S.Failure) A

  abbrev pub ensure_version : ℕ → Run Done
  ensure_version version =
      raise_if (not (nat_beq version payload_version)) (unsupported_version version)

  abbrev pub find_root : ℕ → Run Text
  find_root root_id = do root ← queried (db.find_root root_id); or_missing_root root
