-- ===== src/Examples/JobCalls.antt =====
-- services/job_registry.rs with two jobs of an import.
use teatro.Prelude.{ℕ, ◌≤◌, ◌≡◌, refl, some, List, [], ◌∷◌, arith, nat_eq, list_eq, length}
use teatro.Prelude.Text.{Text, codes}
use teatro.Table.{lookup, insert, contains_key}
use teatro.Retention.{terminals, terminal_capacity}
use teatro.Job.{JobSnapshot, new_job}
use teatro.Job.Lifecycle.{starts, change}
use teatro.Jobs.{Jobs, terminal_at, prune}
use teatro.Jobs
use teatro.Jobs.Invariant.{IsSound, changes, reserves, empty-IsSound, Step-IsSound}
use teatro.Jobs.Following.{Runs, FollowsRun, stays, goes, Runs-Follows}
use teatro.Jobs.Calls.{
  Call, reserve, start, set_progress, succeed, cancel, performs, performs-IsSound,
}
use teatro.Jobs.Capacity.{performs-Fits}
use teatro.Jobs.Reservation.{IsReserved, reserve_free}

abbrev job_1 : Text
job_1 = codes "job_1"

abbrev job_2 : Text
job_2 = codes "job_2"

-- One job, queued at time 5.
abbrev one_job : Jobs ℕ
one_job = (job_1, new_job job_1 5) ∷ []

one_job-IsSound : IsSound one_job
unfolding lookup insert
one_job-IsSound = Step-IsSound (reserves job_1 5 refl refl) empty-IsSound

abbrev started : Jobs ℕ
started = insert job_1 (change (starts 7) (new_job job_1 5)) one_job

starting : Runs job_1 one_job started
unfolding lookup
starting = goes stays (changes job_1 (new_job job_1 5) (starts 7) refl refl) tt

Runs-Follows_example : FollowsRun job_1 (new_job job_1 5) starting (lookup job_1 started)
unfolding lookup
Runs-Follows_example = Runs-Follows job_1 (new_job job_1 5) starting one_job-IsSound refl

-- An import that succeeds, and a second one that its user cancels.
abbrev imports : List (Call ℕ)
imports =
    reserve (job_1 ∷ []) 5
    ∷ start job_1 6
    ∷ set_progress job_1 3 10 7
    ∷ reserve (job_1 ∷ job_2 ∷ []) 8
    ∷ succeed job_1 42 9 9
    ∷ cancel job_2 10 10
    ∷ []

performs-IsSound_example : IsSound (performs (codes "job_") imports [])
performs-IsSound_example = performs-IsSound (codes "job_") imports [] empty-IsSound

performs-Fits_example :
    length (terminals terminal_at (performs (codes "job_") imports [])) ≤ terminal_capacity
unfolding terminals
performs-Fits_example = performs-Fits (codes "job_") imports [] (omega arith)

-- The first id that is drawn is taken.
reserve_free_example :
    (clone : JobSnapshot ℕ) × (after : Jobs ℕ) × (Jobs.reserve (job_1 ∷ job_2 ∷ []) 9 one_job
      ≡ some (clone, after))
    × IsReserved (job_1 ∷ job_2 ∷ []) 9 one_job clone after
unfolding contains_key lookup
reserve_free_example = reserve_free (job_1 ∷ job_2 ∷ []) 9 one_job one_job-IsSound refl
