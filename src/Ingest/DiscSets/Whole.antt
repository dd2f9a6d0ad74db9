-- ===== src/Ingest/DiscSets/Whole.antt =====
-- What `plan_generated_m3u_rom` of services/library/ingest/disc_sets.rs answers for candidates of a
-- batch.
use teatro.Prelude.{ℕ, ◌≡◌, refl, false, Option, none, some, List, map}
use teatro.Prelude.Fallible.{Result, ok, err}
use teatro.Prelude.Text.{Text, is_empty}
use teatro.Table.{Table}
use teatro.Ingest.{PreparedPlanFile, IngestPlanError, IngestPlanRom}
use teatro.Ingest.DiscSets.{Candidate, plan_generated_m3u_rom}
use teatro.Ingest.DiscSets.Numbered.{IsDiscSet, plan_generated_m3u_rom-IsDiscSet}
use teatro.Ingest.Covered.{Covers}
use teatro.Ingest.Covered.Roms.{
  PlansCovered, IsBatch, AreCandidates, files_at-some, plan_generated_m3u_rom-Covers,
}

-- No panic; a rom only of a whole set, with what was used for it, and an error otherwise.
abbrev pub PlansSet :
    List ℕ → List Candidate → Option (Result (List IngestPlanError) IngestPlanRom × List ℕ) → Type 0
PlansSet before candidates none = ⊥
PlansSet before candidates (some (ok rom, used)) =
    IsDiscSet candidates × Covers before used rom.files
PlansSet before candidates (some (err errors, used)) = is_empty errors ≡ false

found-PlansSet :
    (before : List ℕ) (candidates : List Candidate)
    (found : Option (Result (List IngestPlanError) IngestPlanRom × List ℕ))
    → PlansCovered before found
    → ((rom : IngestPlanRom) (used : List ℕ) → found ≡ some (ok rom, used) → IsDiscSet candidates)
    → PlansSet before candidates found
found-PlansSet before candidates none h set = h
found-PlansSet before candidates (some (ok rom, used)) h set = (set rom used refl, h)
found-PlansSet before candidates (some (err errors, used)) h set = h

-- In a batch that was prepared without an error, for candidates that are files of it, at least one:
-- no panic; a playlist is planned only where every candidate has a disc number, these are the
-- numbers from 1 to the number of the candidates, each of them once, and no name gives a larger
-- count; every index that is used then was used before or is that of a file of the rom; and where
-- no playlist is planned there is an error.
pub plan_generated_m3u_rom-PlansSet :
    (prepared : List PreparedPlanFile) (name_to_index : Table Text ℕ) (candidates : List Candidate)
    (reserved_file_names : List Text) (used : List ℕ) (rom_index : ℕ)
    → IsBatch prepared name_to_index
    → is_empty candidates ≡ false
    → AreCandidates prepared candidates
    → PlansSet used candidates (
        plan_generated_m3u_rom prepared name_to_index
          (map (λ (c : Candidate). c.0) candidates)
          reserved_file_names
          used
          rom_index)
plan_generated_m3u_rom-PlansSet prepared name_to_index candidates reserved_file_names used rom_index
      batch full a =
    found-PlansSet used candidates _
      (plan_generated_m3u_rom-Covers prepared name_to_index batch used candidates
        reserved_file_names rom_index full a)
      (λ rom after e.
        plan_generated_m3u_rom-IsDiscSet prepared name_to_index
          (map (λ (c : Candidate). c.0) candidates) reserved_file_names used rom_index candidates
          rom after (files_at-some prepared candidates a) e)
