-- ===== src/Examples/Disks.antt =====
-- A disk as a function from its places, which is a file store that never fails.
use teatro.Prelude.{
  [], Bool, true, false, ◌&&◌, Option, none, some, ◌==◌, nat_eq, list_eq, if◌then◌else◌,
}
use teatro.Prelude.Fallible.{Result, ok, err}
use teatro.Prelude.Stateful.{Done}
use teatro.Prelude.Text.{Text}
use teatro.Files.{FileStore, Place}

abbrev is_there {ℓ} : {A : Type ℓ} → Option A → Bool
is_there none = false
is_there (some a) = true

abbrev pub same : Place → Place → Bool
same p q = p.root == q.root && p.path == q.path

-- An artifact is whether it is a directory.
abbrev pub Disk : Type 0
Disk = Place → Option Bool

abbrev pub without : Place → Disk → Disk
without p d = λ q. if same p q then none else d q

abbrev pub with_artifact : Place → Bool → Disk → Disk
with_artifact p a d = λ q. if same p q then some a else d q

abbrev agrees : Bool → Bool → Bool
agrees true b = b
agrees false true = false
agrees false false = true

abbrev removed : Bool → Place → Disk → Option Bool → Result Text Bool × Disk
removed kind p d none = (ok false, d)
removed kind p d (some a) = if agrees kind a then (ok true, without p d) else (err [], d)

abbrev moved : Bool → Place → Place → Disk → Option Bool → Option Bool → Result Text Done × Disk
moved kind p q d (some a) none =
    if agrees kind a then (ok tt, with_artifact q a (without p d)) else (err [], d)
moved kind p q d (some a) (some b) = (err [], d)
moved kind p q d none b = (err [], d)

abbrev pub disk_store : FileStore
disk_store = record {
  Disk = Disk;
  Failure = Text;
  lock_root = λ root d. (ok tt, d);
  exists = λ p d. (ok (is_there (d p)), d);
  remove = λ p d. removed false p d (d p);
  remove_directory_all = λ p d. removed true p d (d p);
  move_managed = λ p q d. moved false p q d (d p) (d q);
  move_managed_directory = λ p q d. moved true p q d (d p) (d q);
}
