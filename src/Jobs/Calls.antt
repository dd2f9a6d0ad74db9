-- ===== src/Jobs/Calls.antt =====
-- The calls of services/job_registry.rs, each a few of the steps that it takes under the lock.
use mathlib.Core.Option.{some-injective}
use teatro.Prelude.{
  ℕ, ◌≤◌, ◌≡◌, refl, ap, sym, inl, inr, not, ◌&&◌, Option, none, some, List, [], ◌∷◌, arith, nat_eq,
  list_eq, ltb, Bool-cases, Option-cases, if◌then◌else◌,
}
use teatro.Prelude.Text.{Text}
use teatro.Table.{lookup, contains_key, insert}
use teatro.Job.{
  JobProgress, JobError, Result, JobRecord, JobSnapshot, terminal, start_job, set_phase_job,
  set_progress_job, succeed_job, fail_job, cancel_job, attach_job, complete_phase_order,
}
use teatro.Job.Lifecycle.{
  Change, starts, enters, reports, succeeds, fails, cancels, attaches, change,
}
use teatro.Jobs.{Jobs, prune, with_job, with_ending, valid_id}
use teatro.Jobs
use teatro.Jobs.Invariant.{IsSound, changes, prunes, reserves, Steps, here, next, Steps-IsSound}

pub data Call (R : Type 0) : Type 0 where
  reserve : List Text → ℕ → Call R
  snapshot : Text → ℕ → Call R
  start : Text → ℕ → Call R
  set_phase : Text → Text → (order : ℕ) → order ≤ complete_phase_order → ℕ → Call R
  set_progress : Text → ℕ → ℕ → ℕ → Call R
  succeed : Text → R → ℕ → ℕ → Call R
  fail : Text → JobError → ℕ → ℕ → Call R
  cancel : Text → ℕ → ℕ → Call R
  attach_abort_handle : Text → ℕ → Call R

abbrev pub reserved : {R : Type 0} → Jobs R → Option (JobSnapshot R × Jobs R) → Jobs R
reserved jobs none = jobs
reserved jobs (some (clone, after)) = after

-- The table after a call; a reservation that drew no free id has not returned.
abbrev pub perform : {R : Type 0} → Text → Call R → Jobs R → Jobs R
perform p (reserve ids now) jobs = reserved jobs (Jobs.reserve ids now jobs)
perform p (snapshot id now) jobs = (Jobs.snapshot p id now jobs).1
perform p (start id now) jobs = (Jobs.start id now jobs).1
perform p (set_phase id phase order h now) jobs = (Jobs.set_phase id phase order now jobs).1
perform p (set_progress id current total now) jobs = (Jobs.set_progress id current total now jobs).1
perform p (succeed id result now touched) jobs = (Jobs.succeed id result now touched jobs).1
perform p (fail id error now touched) jobs = (Jobs.fail id error now touched jobs).1
perform p (cancel id now touched) jobs = (Jobs.cancel p id now touched jobs).1
perform p (attach_abort_handle id handle) jobs = (Jobs.attach_abort_handle id handle jobs).1

module _ {R : Type 0} where
  with_job-Steps {ℓ} :
      {A : Type ℓ} (id : Text) (f : JobRecord R → Result A × JobRecord R) (c : Change R)
      (jobs : Jobs R)
      → ((job : JobRecord R) → (f job).1 ≡ change c job)
      → Steps jobs (with_job id f jobs).1
  unfolding with_job
  with_job-Steps id f c jobs same = elim (Option-cases (lookup id jobs)) [
    | inl e ↦ rw (e, with_job) here
    | inr (job, e) ↦
        rw (e, with_job) (next here (changes id job c e (ap (λ j. insert id j jobs) (same job))))
  ]

  with_ending-Steps {ℓ} :
      {A : Type ℓ} (id : Text) (now : ℕ) (f : JobRecord R → Result A × JobRecord R) (c : Change R)
      (jobs : Jobs R)
      → ((job : JobRecord R) → (f job).1 ≡ change c job)
      → Steps jobs (with_ending id now f jobs).1
  unfolding with_ending
  with_ending-Steps id now f c jobs same = elim (Option-cases (lookup id jobs)) [
    | inl e ↦ rw (e, with_ending) here
    | inr (job, e) ↦
        let changed = changes id job c e (ap (λ j. insert id j jobs) (same job)) in
        elim (Bool-cases (not (terminal job.state) && terminal ((f job).1).state)) [
          | inl ends ↦ rw (e, ends, with_ending) (next (next here changed) (prunes now refl))
          | inr goes_on ↦ rw (e, goes_on, with_ending) (next here changed)
        ]
  ]

  Steps_trans : {a b c : Jobs R} → Steps a b → Steps b c → Steps a c
  Steps_trans h here = h
  Steps_trans h (next k st) = next (Steps_trans h k) st

  reserve-Steps :
      (ids : List Text) (now : ℕ) (jobs : Jobs R) (r : JobSnapshot R × Jobs R)
      → Jobs.reserve ids now jobs ≡ some r
      → Steps jobs r.1
  unfolding Jobs.reserve contains_key
  reserve-Steps [] now jobs r e = cc
  reserve-Steps (id ∷ ids) now jobs r e =
      let pruned : Jobs R = prune now jobs in
      let first : Steps jobs pruned = next here (prunes now refl) in
      elim (Bool-cases (contains_key id pruned)) [
        | inl taken ↦ Steps_trans first (reserve-Steps ids now pruned r (rw taken at e))
        | inr free ↦
            let got = rw free at e in
            next first (
              reserves id now (ground arith)
                (ap (λ (x : JobSnapshot R × Jobs R). x.1) (sym (some-injective _ _ got))))
      ]

  pub snapshot-table :
      (p id : Text) (now : ℕ) (jobs : Jobs R)
      → (Jobs.snapshot p id now jobs).1 ≡ (if valid_id p id then prune now jobs else jobs)
  unfolding Jobs.snapshot
  snapshot-table p id now jobs = ground arith

  snapshot-Steps :
      (p id : Text) (now : ℕ) (jobs : Jobs R) → Steps jobs (Jobs.snapshot p id now jobs).1
  snapshot-Steps p id now jobs = elim (Bool-cases (valid_id p id)) [
    | inl valid ↦ rw (snapshot-table p id now jobs, valid) (next here (prunes now refl))
    | inr invalid ↦ rw (snapshot-table p id now jobs, invalid) here
  ]

  -- Each call is steps of the registry.
  perform-Steps : (p : Text) (c : Call R) (jobs : Jobs R) → Steps jobs (perform p c jobs)
  unfolding Jobs.start Jobs.set_phase Jobs.set_progress Jobs.succeed Jobs.fail Jobs.cancel
      Jobs.attach_abort_handle
  perform-Steps p (reserve ids now) jobs = elim (Option-cases (Jobs.reserve ids now jobs)) [
    | inl e ↦ rw e here
    | inr (r, e) ↦ rw e (reserve-Steps ids now jobs r e)
  ]
  perform-Steps p (snapshot id now) jobs = snapshot-Steps p id now jobs
  perform-Steps p (start id now) jobs =
      with_job-Steps id (start_job now) (starts now) jobs (λ job. refl)
  perform-Steps p (set_phase id phase order h now) jobs =
      with_job-Steps id (set_phase_job phase order now) (enters phase order h now) jobs
        (λ job. refl)
  perform-Steps p (set_progress id current total now) jobs = elim (Bool-cases (ltb total current)) [
    | inl over ↦ rw (over, perform) here
    | inr within ↦
        let report : JobProgress = record { current = current; total = total } in
        rw (within, perform)
          (with_job-Steps id (set_progress_job report now) (reports report (ground arith) now) jobs
            (λ job. refl))
  ]
  perform-Steps p (succeed id result now touched) jobs =
      with_ending-Steps id now (succeed_job result touched) (succeeds result touched) jobs
        (λ job. refl)
  perform-Steps p (fail id error now touched) jobs =
      with_ending-Steps id now (fail_job error touched) (fails error touched) jobs (λ job. refl)
  perform-Steps p (cancel id now touched) jobs = elim (Bool-cases (valid_id p id)) [
    | inl valid ↦
        rw (valid, perform)
          (with_ending-Steps id now (cancel_job touched) (cancels touched) jobs (λ job. refl))
    | inr invalid ↦ rw (invalid, perform) here
  ]
  perform-Steps p (attach_abort_handle id handle) jobs =
      with_job-Steps id (attach_job handle) (attaches handle) jobs (λ job. refl)

  -- The table after a list of calls, each with its own arguments and clock readings.
  unfoldable pub performs : Text → List (Call R) → Jobs R → Jobs R
  performs p [] jobs = jobs
  performs p (c ∷ cs) jobs = performs p cs (perform p c jobs)

  -- Any calls lead from a sound registry, as the empty one is, to a sound one: every id stands once
  -- above its own record, and every record is consistent.
  pub performs-IsSound :
      (p : Text) (cs : List (Call R)) (jobs : Jobs R) → IsSound jobs → IsSound (performs p cs jobs)
  unfolding performs
  performs-IsSound p [] jobs s = s
  performs-IsSound p (c ∷ cs) jobs s =
      performs-IsSound p cs (perform p c jobs) (Steps-IsSound (perform-Steps p c jobs) s)
