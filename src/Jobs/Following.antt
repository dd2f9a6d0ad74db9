-- ===== src/Jobs/Following.antt =====
-- One job followed through the calls of services/job_registry.rs.
use teatro.Prelude.{
  ℕ, ◌≡◌, ◌≢◌, ◌⊎◌, sym, ap, subst, ◌∙◌, inl, inr, ◌==◌, true, false, Option, none, some, arith,
  nat_eq, list_eq, list_beq_iff, Bool-cases, Option-cases,
}
use mathlib.Core.Option.{some-injective}
use teatro.Prelude.Text.{Text}
use teatro.Table.{lookup}
use teatro.Table.Laws.{lookup-insert}
use teatro.Retention.Kept.{lookup-prune_active, lookup-prune-some, lookup-prune-none}
use teatro.Job.{JobRecord, terminal, new_job}
use teatro.Job.Lifecycle.{
  IsConsistent, change, change-Advances, Advances, Advances-refl, Advances-trans,
}
use teatro.Jobs.{Jobs, ended_before, terminal_at, prune}
use teatro.Jobs.Invariant.{IsSound, Step, changes, prunes, reserves, Step-IsSound}

-- Where a job is after one step: still there and not gone back, or gone, having ended before it.
abbrev pub Follows : {R : Type 0} → JobRecord R → Option (JobRecord R) → Type 0
Follows old none = terminal old.state ≡ true
Follows old (some new) = Advances old new

module _ {R : Type 0} where
  not_ended :
      (job : JobRecord R) → IsConsistent job → terminal job.state ≡ false → job.terminal_at ≡ none
  not_ended job h active = ground arith

  prune-Follows :
      (now : ℕ) (id : Text) (job : JobRecord R) (jobs : Jobs R)
      → IsSound jobs
      → lookup id jobs ≡ some job
      → Follows job (lookup id (prune now jobs))
  unfolding prune
  prune-Follows now id job jobs s l = elim (Option-cases (lookup id (prune now jobs))) [
    | inr (new, e) ↦
        let before = (lookup-prune-some ended_before terminal_at now id new jobs s.unique e).0 in
        let same : job ≡ new = some-injective _ _ (sym l ∙ before) in
        rw e (subst (Advances job) same (Advances-refl job))
    | inl e ↦ rw e (elim (Bool-cases (terminal job.state)) [
      | inl ended ↦ ended
      | inr active ↦
          let kept =
            lookup-prune_active ended_before terminal_at now id job jobs s.unique l
              (not_ended job (s.held id job l).1 active) in
          cc kept
    ])
  ]

  -- In one step a job that is there goes on, or is pruned after its end. The step is of any call on
  -- any job, a reservation too.
  pub Step-Follows :
      {jobs after : Jobs R} (id : Text) (job : JobRecord R)
      → Step jobs after
      → IsSound jobs
      → lookup id jobs ≡ some job
      → Follows job (lookup id after)
  Step-Follows {jobs} id job (changes other old c l' e) s l =
      let found = ap (lookup id) e ∙ lookup-insert other id (change c old) jobs in
      elim (Bool-cases (other == id)) [
        | inl hit ↦
            let same_key : other ≡ id = (list_beq_iff other id).0 hit in
            let same : old ≡ job =
              some-injective _ _ (sym l' ∙ ap (λ k. lookup k jobs) same_key ∙ l) in
            rw (found, hit)
              (subst (λ j. Advances j (change c old)) same
                (change-Advances c old (s.held other old l').1))
        | inr miss ↦ rw (found, miss, l) (Advances-refl job)
      ]
  Step-Follows {jobs} id job (prunes now e) s l = rw e (prune-Follows now id job jobs s l)
  Step-Follows {jobs} id job (reserves new now l' e) s l =
      let found = ap (lookup id) e ∙ lookup-insert new id (new_job new now) jobs in
      elim (Bool-cases (new == id)) [
        | inl hit ↦ cc ((list_beq_iff new id).0 hit)
        | inr miss ↦ rw (found, miss, l) (Advances-refl job)
      ]

abbrev pub Spares : {R : Type 0} {jobs after : Jobs R} → Text → Step jobs after → Type 0
Spares id (changes other old c l e) = Unit
Spares id (prunes now e) = Unit
Spares id (reserves new now l e) = new ≢ id

-- Steps in which no reservation draws the id.
pub data Runs {R : Type 0} (id : Text) (jobs : Jobs R) : Jobs R → Type 0 where
  stays : Runs id jobs jobs
  goes :
      {mid after : Jobs R}
      → Runs id jobs mid
      → (st : Step mid after) → Spares id st
      → Runs id jobs after

-- In a table that the run passed before its end, the job stood under its id, moved on and ended.
abbrev pub EndedOn :
    {R : Type 0} (id : Text) (job : JobRecord R) {jobs after : Jobs R} → Runs id jobs after → Type 0
EndedOn id job stays = ⊥
EndedOn {R} id job (goes {mid = mid} run st sp) =
    ((last : JobRecord R) × (lookup id mid ≡ some last)
      × Advances job last
      × (terminal last.state ≡ true))
    ⊎ EndedOn id job run

-- Where a job is after a run: still there and not gone back, or gone after it ended on this run.
abbrev pub FollowsRun :
    {R : Type 0} (id : Text) (job : JobRecord R) {jobs after : Jobs R}
    → Runs id jobs after
    → Option (JobRecord R)
    → Type 0
FollowsRun id job run none = EndedOn id job run
FollowsRun id job run (some new) = Advances job new

module _ {R : Type 0} where
  FollowsRun-held :
      (id : Text) (job new : JobRecord R) {jobs mid after : Jobs R} (run : Runs id jobs mid)
      (st : Step mid after) (sp : Spares id st) (found : Option (JobRecord R))
      → lookup id mid ≡ some new
      → Advances job new
      → Follows new found
      → FollowsRun id job (goes run st sp) found
  FollowsRun-held id job new run st sp none l h ended = inl (new, l, h, ended)
  FollowsRun-held id job new run st sp (some last) l h k = Advances-trans job new last h k

  Step-gone :
      {jobs after : Jobs R} (id : Text) (st : Step jobs after)
      → Spares id st
      → IsSound jobs
      → lookup id jobs ≡ none
      → lookup id after ≡ none
  unfolding prune
  Step-gone {jobs} id (changes other old c l' e) sp s l =
      ap (lookup id) e
      ∙ lookup-insert other id (change c old) jobs
      ∙ ground (arith, list_beq_iff other id)
  Step-gone {jobs} id (prunes now e) sp s l =
      ap (lookup id) e ∙ lookup-prune-none ended_before terminal_at now id jobs s.unique l
  Step-gone {jobs} id (reserves new now l' e) sp s l =
      ap (lookup id) e
      ∙ lookup-insert new id (new_job new now) jobs
      ∙ ground (arith, list_beq_iff new id)

  Runs-IsSound :
      (id : Text) {jobs after : Jobs R} → Runs id jobs after → IsSound jobs → IsSound after
  Runs-IsSound id stays s = s
  Runs-IsSound id (goes run st sp) s = Step-IsSound st (Runs-IsSound id run s)

  FollowsRun-Step :
      (id : Text) (job : JobRecord R) {jobs mid after : Jobs R} (run : Runs id jobs mid)
      (st : Step mid after) (sp : Spares id st)
      → IsSound mid
      → FollowsRun id job run (lookup id mid)
      → FollowsRun id job (goes run st sp) (lookup id after)
  FollowsRun-Step id job {mid = mid} {after} run st sp s f = elim (Option-cases (lookup id mid)) [
    | inl gone ↦ rw (Step-gone id st sp s gone) (inr (rw gone at f))
    | inr (new, l) ↦
        let advances : Advances job new = rw l at f in
        FollowsRun-held id job new run st sp (lookup id after) l advances
          (Step-Follows id new st s l)
  ]

  -- Through any steps of the registry, interleaved as they may be between their locks, where no
  -- reservation draws the id of a job that is in the table, what is found under that id is that
  -- job, moved on and never back in state, phase, progress within a phase or time, and unchanged
  -- once it ended; and where nothing is found, the table before one of these steps held the job
  -- under that id, moved on in this way and ended.
  pub Runs-Follows :
      (id : Text) (job : JobRecord R) {jobs after : Jobs R} (run : Runs id jobs after)
      → IsSound jobs
      → lookup id jobs ≡ some job
      → FollowsRun id job run (lookup id after)
  Runs-Follows id job stays s l = rw l (Advances-refl job)
  Runs-Follows id job (goes run st sp) s l =
      FollowsRun-Step id job run st sp (Runs-IsSound id run s) (Runs-Follows id job run s l)
