-- ===== src/Examples/Recoveries.antt =====
-- A crash in the middle of a delete of two files of one rom: the first one is in the trash.
use teatro.Prelude.{
  ◌≡◌, refl, ℕ, Bool, true, false, ◌||◌, none, some, List, [], ◌∷◌, ◌==◌, nat_eq, list_eq, nat_beq,
  if◌then◌else◌,
}
use teatro.Prelude.Fallible.{Result, ok, err}
use teatro.Prelude.Text.{Text, codes, text_le}
use teatro.Files.{Place}
use teatro.Recovery.{Repositories, DeleteOperationEntry, DeleteOperationPayload, partial_delete}
use teatro.Recovery.Deletes.{
  reconcile_prepared_delete, reconcile_committed_delete, restore_entries, cleanup_delete_entries,
  cleanup_resolved_delete_entries,
}
use teatro.Recovery.Recorded.{
  Call, locks, asks, removes, removes_directory, moves, moves_directory, Answers, recorder,
}
use teatro.Examples.Disks.{Disk, same, without, with_artifact, disk_store}

abbrev games : Text
games = codes "/games"

abbrev at : Text → Place
at path = record { root = games; path = path }

abbrev disc : DeleteOperationEntry
disc = record {
  root_id = 1;
  original_relative_path = codes "psx/game.bin";
  trash_relative_path = codes ".trash/0";
  directory = false;
}

abbrev folder : DeleteOperationEntry
folder = record {
  root_id = 1;
  original_relative_path = codes "psx/extras";
  trash_relative_path = codes ".trash/1";
  directory = true;
}

-- The file is in the trash, the directory still in its place.
abbrev pub crashed : Disk
crashed p =
    if same p (at (codes ".trash/0"))
    then some false
    else if same p (at (codes "psx/extras"))
    then some true
    else none

abbrev pub payload_of : List ℕ → DeleteOperationPayload
payload_of rom_ids = record {
  version = 1;
  rom_ids = rom_ids;
  entries = disc ∷ folder ∷ [];
  root_ids = 1 ∷ [];
}

-- The roms up to 7 are there.
abbrev pub repositories : Repositories Text
repositories = record {
  find_root = λ root_id. ok (if nat_beq root_id 1 then some games else none);
  asset_root = ok (codes "/assets");
  relative_path_exists = λ root_id path. ok false;
  rom_exists = λ rom_id. ok (if nat_beq rom_id 7 then true else false);
  cover_paths_for_rom = λ rom_id. ok none;
  is_before = text_le;
}

-- What the recovery leaves of it where the roms are there.
abbrev pub restored : Disk
restored = with_artifact (at (codes "psx/game.bin")) false (without (at (codes ".trash/0")) crashed)

restores :
    reconcile_prepared_delete disk_store repositories (payload_of (7 ∷ [])) crashed
    ≡ (ok tt, restored)
unfolding reconcile_prepared_delete restore_entries
restores = refl

-- Where they are gone, the trash is emptied.
discards :
    reconcile_prepared_delete disk_store repositories (payload_of (8 ∷ [])) crashed
    ≡ (ok tt, without (at (codes ".trash/0")) crashed)
unfolding reconcile_prepared_delete cleanup_resolved_delete_entries
discards = refl

refuses :
    reconcile_prepared_delete disk_store repositories (payload_of (7 ∷ 8 ∷ [])) crashed
    ≡ (err partial_delete, crashed)
unfolding reconcile_prepared_delete
refuses = refl

discards_committed :
    reconcile_committed_delete disk_store repositories (payload_of (8 ∷ [])) crashed
    ≡ (ok tt, without (at (codes ".trash/0")) crashed)
unfolding reconcile_committed_delete cleanup_delete_entries cleanup_resolved_delete_entries
discards_committed = refl

-- The file store answers as for the crash: the file is in the trash, the directory is not.
abbrev last_call : List Call → Result Text Bool
last_call [] = err []
last_call (asks p ∷ calls) = ok (p.path == codes ".trash/0" || p.path == codes "psx/extras")
last_call (locks root ∷ calls) = ok true
last_call (removes p ∷ calls) = ok true
last_call (removes_directory p ∷ calls) = ok true
last_call (moves p q ∷ calls) = ok true
last_call (moves_directory p q ∷ calls) = ok true

abbrev answers : Answers Text
answers = record { finishes = λ calls. ok tt; says = last_call }

makes_calls :
    (reconcile_prepared_delete (recorder answers) repositories (payload_of (7 ∷ [])) []).1
    ≡ asks (at (codes "psx/extras"))
      ∷ asks (at (codes ".trash/1"))
      ∷ moves (at (codes ".trash/0")) (at (codes "psx/game.bin"))
      ∷ asks (at (codes "psx/game.bin"))
      ∷ asks (at (codes ".trash/0"))
      ∷ locks games
      ∷ []
unfolding reconcile_prepared_delete restore_entries
makes_calls = refl
