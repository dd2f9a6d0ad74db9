-- ===== src/Files.antt =====
-- What the services use of storage/file_store.rs, as an interface: nothing is said of what the file
-- store does or answers.
use teatro.Prelude.{Bool}
use teatro.Prelude.Fallible.{Result}
use teatro.Prelude.Stateful.{Done}
use teatro.Prelude.Text.{Text}

-- A relative path under the path of a root.
pub record Place : Type 0 where
  pub root : Text
  pub path : Text

pub record FileStore : Type 1 where
  pub Disk : Type 0
  -- An error of the file store or of the database.
  pub Failure : Type 0
  pub lock_root : Text → Disk → Result Failure Done × Disk
  pub exists : Place → Disk → Result Failure Bool × Disk
  pub remove : Place → Disk → Result Failure Bool × Disk
  pub remove_directory_all : Place → Disk → Result Failure Bool × Disk
  pub move_managed : Place → Place → Disk → Result Failure Done × Disk
  pub move_managed_directory : Place → Place → Disk → Result Failure Done × Disk
