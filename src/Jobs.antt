-- ===== src/Jobs.antt =====
-- services/job_registry.rs: the registry, a table of job records under a mutex. Each operation
-- takes the table and the clock readings that it makes, and returns its answer with the table that
-- it leaves. The handlers of `JobReporter` are these operations at the reporter's id.
pub mod Invariant
pub mod Following
pub mod Calls
pub mod Capacity
pub mod Reservation
use teatro.Prelude.{
  ℕ, Bool, true, false, not, ◌&&◌, ◌||◌, Option, none, some, List, [], ◌∷◌, nat_eq, list_eq,
  nat_beq, ltb, leb, all, if◌then◌else◌,
}
use teatro.Prelude.Text.{Text, text_le, byte_len, strip_prefix, is_empty, is_ascii_alphanumeric}
use teatro.Table.{Table, lookup, contains_key, insert}
use teatro.Retention
use teatro.Job.{
  JobProgress, JobError, not_found, progress_regressed, Result, ok, err, JobRecord, JobSnapshot,
  terminal, is_running, new_job, snapshot_of, start_job, set_phase_job, set_progress_job,
  succeed_job, fail_job, cancel_job, attach_job,
}

abbrev pub Jobs : Type 0 → Type 0
Jobs R = Table Text (JobRecord R)

abbrev pub max_id_bytes : ℕ
max_id_bytes = 128

-- `byte.is_ascii_alphanumeric() || matches!(byte, b'-' | b'_')`.
abbrev pub is_id_byte : ℕ → Bool
is_id_byte c = is_ascii_alphanumeric c || nat_beq c b'-' || nat_beq c b'_'

unfoldable pub valid_id : Text → Text → Bool
valid_id id_prefix value =
    let suffix : Text = elim (strip_prefix id_prefix value) [ none ↦ [] | some rest ↦ rest ] in
    leb (byte_len value) max_id_bytes && not (is_empty suffix) && all is_id_byte suffix

-- The order of `terminal.sort()`: the end, then the id.
unfoldable pub ended_before : ℕ × Text → ℕ × Text → Bool
ended_before (a, k) (b, j) = ltb a b || (nat_beq a b && text_le k j)

module _ {R : Type 0} where
  abbrev pub terminal_at : JobRecord R → Option ℕ
  terminal_at job = job.terminal_at

  unfoldable pub prune : ℕ → Jobs R → Jobs R
  prune now jobs = Retention.prune ended_before terminal_at now jobs

  -- `jobs.get_mut(id).ok_or(NotFound)?`, and what is done to the record that is found.
  unfoldable pub with_job {ℓ} :
      {A : Type ℓ} → Text → (JobRecord R → Result A × JobRecord R) → Jobs R → Result A × Jobs R
  with_job id f jobs = elim (lookup id jobs) [
    | none ↦ (err not_found, jobs)
    | some job ↦ let (answer, job') = f job in (answer, insert id job' jobs)
  ]

  -- The ids are those that the generator draws, one for each round of the loop; `none` is a loop
  -- that goes on after the last of them.
  unfoldable pub reserve : List Text → ℕ → Jobs R → Option (JobSnapshot R × Jobs R)
  reserve [] now jobs = none
  reserve (id ∷ ids) now jobs =
      let pruned = prune now jobs in
      let again = reserve ids now pruned in
      if contains_key id pruned
      then again
      else some (snapshot_of (new_job id now), insert id (new_job id now) pruned)

  unfoldable pub snapshot : Text → Text → ℕ → Jobs R → Result (JobSnapshot R) × Jobs R
  snapshot id_prefix id now jobs =
      if not (valid_id id_prefix id)
      then (err not_found, jobs)
      else (let pruned = prune now jobs in
          elim (lookup id pruned) [
            | none ↦ (err not_found, pruned)
            | some job ↦ (ok (snapshot_of job), pruned)
          ])

  unfoldable pub start : Text → ℕ → Jobs R → Result Bool × Jobs R
  start id now jobs = with_job id (start_job now) jobs

  unfoldable pub set_phase : Text → Text → ℕ → ℕ → Jobs R → Result (Unit {0}) × Jobs R
  set_phase id phase order now jobs = with_job id (set_phase_job phase order now) jobs

  unfoldable pub set_progress : Text → ℕ → ℕ → ℕ → Jobs R → Result (Unit {0}) × Jobs R
  set_progress id current total now jobs =
      if ltb total current
      then (err progress_regressed, jobs)
      else with_job id (set_progress_job (record { current = current; total = total }) now) jobs

  -- The same for an operation that may end the job: where it did, the table is pruned.
  unfoldable pub with_ending {ℓ} :
      {A : Type ℓ} → Text → ℕ → (JobRecord R → Result A × JobRecord R) → Jobs R → Result A × Jobs R
  with_ending id now f jobs = elim (lookup id jobs) [
    | none ↦ (err not_found, jobs)
    | some job ↦
        let (answer, job') = f job in
        let after = insert id job' jobs in
        (answer, if not (terminal job.state) && terminal job'.state then prune now after else after)
  ]

  unfoldable pub succeed : Text → R → ℕ → ℕ → Jobs R → Result (Unit {0}) × Jobs R
  succeed id result now touched jobs = with_ending id now (succeed_job result touched) jobs

  unfoldable pub fail : Text → JobError → ℕ → ℕ → Jobs R → Result (Unit {0}) × Jobs R
  fail id error now touched jobs = with_ending id now (fail_job error touched) jobs

  -- The lock is given up between the mark and the pruning: see `Step` in Jobs/Invariant.
  unfoldable pub cancel : Text → Text → ℕ → ℕ → Jobs R → Result (JobSnapshot R × Option ℕ) × Jobs R
  cancel id_prefix id now touched jobs =
      if not (valid_id id_prefix id)
      then (err not_found, jobs)
      else with_ending id now (cancel_job touched) jobs

  unfoldable pub attach_abort_handle : Text → ℕ → Jobs R → Result (Option ℕ) × Jobs R
  attach_abort_handle id handle jobs = with_job id (attach_job handle) jobs
