-- ===== src/Jobs/Workers/Attempts.antt =====
-- How a job's row changes in one transaction: its attempt counter and whether an attempt runs.
use coder_manager.Base.{
  ◌∙◌, ℕ, ◌≤◌, ◌≡◌, refl, ap, ◌⊎◌, inl, inr, Bool, true, false, String, Option, none, some, nat_eq,
  find, delete, Option-cases, arith,
}
use coder_manager.Model.{
  pending, running, success, error, JobExecution, Lifecycle, Db, modify_job, find-modify_job,
  jobs-delete_resource,
}
use coder_manager.Jobs.Execution.{
  ExecutionClaim, Resource, resource_for_job, resource_matches, on_resource, owned_execution,
  set_status, claimable, claim_execution, start_attempt, ok, Mutation, close_job, next_step_job,
  beat, KeepsJobs, commit, next_step_row, persist_next_step, complete_execution, settle_completed,
  complete_row, defer_execution, fail_execution, heartbeat_execution, prepare_execution_retry,
}
use coder_manager.Jobs.Execution.Resources.{
  jobs-on_resource, commit-inv, claimable-inv, owned_execution-inv,
}

pub record Later (job job' : JobExecution) : Type 0 where
  pub grows : job.attempt ≤ job'.attempt
  pub stays_stopped : job.attempt ≡ job'.attempt → job'.status ≡ running → job.status ≡ running
  pub stays_done : job.status ≡ success → job' ≡ job

pub Later-refl : (job : JobExecution) → Later job job
Later-refl job = record { grows = omega arith; stays_stopped = λ e r. r; stays_done = λ e. refl }

pub Later-trans : {a b c : JobExecution} → Later a b → Later b c → Later a c
Later-trans p q = record {
  grows = omega arith;
  stays_stopped = λ e r.
      p.stays_stopped (omega (arith, p.grows, q.grows))
        (q.stays_stopped (omega (arith, p.grows, q.grows)) r);
  stays_done = λ d. let same = p.stays_done d in q.stays_done (rw same d) ∙ same;
}

-- Every job that is there after a transaction was there before it, no later than it is now.
abbrev pub JobsEvolve : Db → Db → Type 0
JobsEvolve db db' =
    (j : ℕ) (job' : JobExecution)
    → find j db'.jobs ≡ some job'
    → (job : JobExecution) × (find j db.jobs ≡ some job) × Later job job'

pub JobsEvolve-same : (db db' : Db) → db'.jobs ≡ db.jobs → JobsEvolve db db'
JobsEvolve-same db db' same j job' h = (job', rw same at h, Later-refl job')

pub JobsEvolve-modify :
    (id : ℕ) (g : JobExecution → JobExecution) (db db' mid : Db)
    → mid.jobs ≡ db.jobs
    → db'.jobs ≡ (modify_job id g mid).jobs
    → ((job : JobExecution) → find id db.jobs ≡ some job → Later job (g job))
    → JobsEvolve db db'
JobsEvolve-modify id g db db' mid same done later j job' h = elim (Option-cases (find j db.jobs)) [
  | inl e ↦ ground (arith, done, same, find-modify_job j id g mid)
  | inr (job, e) ↦
      (job, e, ground (arith, done, same, find-modify_job j id g mid, later job, Later-refl job))
]

pub JobsEvolve-update :
    (r : Option Resource) (f : Lifecycle → Lifecycle) (id : ℕ) (g : JobExecution → JobExecution)
    (db db' : Db)
    → db'.jobs ≡ db.jobs
    → ((job : JobExecution) → find id db.jobs ≡ some job → Later job (g job))
    → JobsEvolve db (on_resource r f (modify_job id g db'))
JobsEvolve-update r f id g db db' same later =
    JobsEvolve-modify id g db (on_resource r f (modify_job id g db')) db' same
      (jobs-on_resource r f (modify_job id g db')) later

pub jobs-settle_completed :
    (delete : Bool) (r : Option Resource) (db : Db) → (settle_completed delete r db).jobs ≡ db.jobs
jobs-settle_completed delete none db = refl
jobs-settle_completed true (some r) db = jobs-delete_resource r.kind r.id db
jobs-settle_completed false (some r) db = jobs-on_resource (some r) complete_row db

-- The change that a transaction makes to the one job that it found, which was not done.
Later-of :
    (found : Option JobExecution) (job : JobExecution) (g : JobExecution → JobExecution)
    → found ≡ some job
    → (job.status ≡ success → ⊥)
    → job.attempt ≤ (g job).attempt
    → (job.attempt ≡ (g job).attempt → (g job).status ≡ running → job.status ≡ running)
    → (j : JobExecution) → found ≡ some j
    → Later j (g j)
Later-of found job g e open_job grows stopped j f =
    let same : j ≡ job = cc in
    rw same
      (record { grows = grows; stays_stopped = stopped; stays_done = λ d. absurd (open_job d) })

-- A claim raises the attempt.
pub claim_execution-evolves :
    (id : ℕ) (task : String) (now : ℕ) (db : Db) → JobsEvolve db (claim_execution id task now db).0
unfolding claim_execution
claim_execution-evolves id task now db = elim (Option-cases (claimable id task db)) [
  | inl e ↦ rw (e, claim_execution) (JobsEvolve-same db db refl)
  | inr ((job, r), e) ↦
      let c = claimable-inv db id task e in
      rw (e, claim_execution)
        (JobsEvolve-update r (set_status running) id (start_attempt now) db db refl (
          Later-of (find id db.jobs) job (start_attempt now) c.found
            (λ d. ground (arith, c.is_waiting)) (omega arith) (λ e r. absurd (omega arith))))
]

pub fail_execution-evolves :
    (claim : ExecutionClaim) (mutate : Db → Db) (db : Db)
    → ((d : Db) → (mutate d).jobs ≡ d.jobs)
    → JobsEvolve db (fail_execution claim mutate db)
unfolding fail_execution
fail_execution-evolves claim mutate db keeps = elim (Option-cases (owned_execution db claim)) [
  | inl e ↦ rw (e, fail_execution) (JobsEvolve-same db db refl)
  | inr ((job, r), e) ↦
      let o = owned_execution-inv db claim e in
      rw (e, fail_execution)
        (JobsEvolve-update r (set_status error) claim.job_id (close_job error) db (mutate db)
          (keeps db)
          (Later-of (find claim.job_id db.jobs) job (close_job error) o.found
            (λ d. ground (arith, o.is_running)) (omega arith) (λ e r. cc)))
]

pub heartbeat_execution-evolves :
    (claim : ExecutionClaim) (now : ℕ) (db : Db)
    → JobsEvolve db (heartbeat_execution claim now db).0
unfolding heartbeat_execution modify_job on_resource
heartbeat_execution-evolves claim now db = elim (Option-cases (owned_execution db claim)) [
  | inl e ↦ rw (e, heartbeat_execution) (JobsEvolve-same db db refl)
  | inr ((job, r), e) ↦
      let o = owned_execution-inv db claim e in
      rw (e, heartbeat_execution)
        (JobsEvolve-update none (set_status running) claim.job_id (beat now) db db refl (
          Later-of (find claim.job_id db.jobs) job (beat now) o.found
            (λ d. ground (arith, o.is_running)) (omega arith) (λ e r. r)))
]

pub reclaimed_or_same :
    (id stale_before : ℕ) (db : Db) (job : JobExecution)
    → find id db.jobs ≡ some job
    → ((prepare_execution_retry id stale_before db).0 ≡ db)
      ⊎ ((job.status ≡ running)
          × (resource_matches id job (resource_for_job db job) ≡ true)
          × ((prepare_execution_retry id stale_before db).0
              ≡ on_resource
                  (resource_for_job db job)
                  (set_status pending)
                  (modify_job id (close_job pending) db)))
unfolding prepare_execution_retry
reclaimed_or_same id stale_before db job e = ground arith

pub prepare_execution_retry-evolves :
    (id stale_before : ℕ) (db : Db) → JobsEvolve db (prepare_execution_retry id stale_before db).0
unfolding prepare_execution_retry
prepare_execution_retry-evolves id stale_before db = elim (Option-cases (find id db.jobs)) [
  | inl e ↦ rw (e, prepare_execution_retry) (JobsEvolve-same db db refl)
  | inr (job, e) ↦ elim (reclaimed_or_same id stale_before db job e) [
    | inl same ↦ rw same (JobsEvolve-same db db refl)
    | inr (run, matched, reclaimed) ↦ rw reclaimed (
        JobsEvolve-update (resource_for_job db job) (set_status pending) id (close_job pending) db
          db refl
          (Later-of (find id db.jobs) job (close_job pending) e (λ d. cc) (omega arith)
            (λ e r. cc)))
  ]
]

commit-evolves :
    (claim : ExecutionClaim) (mutate : Mutation) (g : JobExecution → JobExecution)
    (settle : Option Resource → Db → Db) (db db' : Db) (b : Bool)
    → KeepsJobs mutate
    → ((job : JobExecution) → job.attempt ≤ (g job).attempt)
    → ((job : JobExecution) → (g job).status ≡ running → ⊥)
    → ((r : Option Resource) (d : Db) → (settle r d).jobs ≡ d.jobs)
    → commit claim mutate g settle db ≡ ok (db', b)
    → JobsEvolve db db'
commit-evolves claim mutate g settle db db' b keeps grows stops still h =
    elim (commit-inv claim mutate g settle db db' b h) [
      | inl (e, same, f) ↦ JobsEvolve-same db db' (ap (λ (d : Db). d.jobs) same)
      | inr (job, r, mid, e, m, done, f) ↦
          let o = owned_execution-inv db claim e in
          JobsEvolve-modify claim.job_id g db db' mid (keeps r db mid m)
            (rw done (still r (modify_job claim.job_id g mid)))
            (Later-of (find claim.job_id db.jobs) job g o.found (λ d. ground (arith, o.is_running))
              (grows job) (λ e s. absurd (stops job s)))
    ]

pub persist_next_step-evolves :
    (claim : ExecutionClaim) (task step : String) (mutate : Mutation) (db db' : Db) (b : Bool)
    → KeepsJobs mutate
    → persist_next_step claim task step mutate db ≡ ok (db', b)
    → JobsEvolve db db'
unfolding persist_next_step
persist_next_step-evolves claim task step mutate db db' b keeps =
    commit-evolves claim mutate (next_step_job task step) (λ r. on_resource r (next_step_row step))
      db db' b keeps (λ job. omega arith) (λ job s. cc)
      (λ r d. jobs-on_resource r (next_step_row step) d)

pub complete_execution-evolves :
    (claim : ExecutionClaim) (mutate : Mutation) (delete : Bool) (db db' : Db) (b : Bool)
    → KeepsJobs mutate
    → complete_execution claim mutate delete db ≡ ok (db', b)
    → JobsEvolve db db'
unfolding complete_execution
complete_execution-evolves claim mutate delete db db' b keeps =
    commit-evolves claim mutate (close_job success) (settle_completed delete) db db' b keeps
      (λ job. omega arith) (λ job s. cc) (jobs-settle_completed delete)

pub defer_execution-evolves :
    (claim : ExecutionClaim) (mutate : Mutation) (db db' : Db) (b : Bool)
    → KeepsJobs mutate
    → defer_execution claim mutate db ≡ ok (db', b)
    → JobsEvolve db db'
unfolding defer_execution
defer_execution-evolves claim mutate db db' b keeps =
    commit-evolves claim mutate (close_job pending) (λ r. on_resource r (set_status pending)) db db'
      b keeps (λ job. omega arith) (λ job s. cc) (λ r d. jobs-on_resource r (set_status pending) d)
