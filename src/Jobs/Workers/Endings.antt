-- ===== src/Jobs/Workers/Endings.antt =====
-- How an attempt ends, and its claim and its job over the runs that follow.
use coder_manager.Base.{
  Bool, String, ℕ, ◌≡◌, ◌≢◌, refl, ◌∙◌, inl, inr, Bool, true, String, Option, none, some, nat_eq,
  find, arith,
}
use coder_manager.Model.{
  pending, running, success, error, JobExecution, Db, modify_job, find-modify_job,
}
use coder_manager.Jobs.Execution.{
  ExecutionClaim, Mutation, Resource, persist_next_step, complete_execution, Mutation, KeepsJobs,
  ok, commit, persist_next_step, complete_execution, defer_execution, next_step_job, next_step_row,
  close_job, on_resource, set_status, settle_completed, ExecutionClaim, Resource, owned_execution,
  fail_execution,
}
use coder_manager.Jobs.Execution.Resources.{jobs-on_resource, commit-inv, owned_execution-inv}
use coder_manager.Jobs.Workers.Attempts.{jobs-settle_completed}
use coder_manager.Jobs.Workers.Runs.{System, Run}
use coder_manager.Jobs.Workers.Exclusion.{IsIssued, Run-Evolves, IsLost, IsLost-Run, not-owned}

-- The transactions that end an owned attempt.
pub data Ends (db : Db) (c : ExecutionClaim) (db' : Db) : Type 0 where
  advanced :
      (task step : String) (mutate : Mutation)
      → KeepsJobs mutate
      → persist_next_step c task step mutate db ≡ ok (db', true)
      → Ends db c db'
  completed :
      (mutate : Mutation) (gone : Bool)
      → KeepsJobs mutate
      → complete_execution c mutate gone db ≡ ok (db', true)
      → Ends db c db'
  deferred :
      (mutate : Mutation)
      → KeepsJobs mutate
      → defer_execution c mutate db ≡ ok (db', true)
      → Ends db c db'
  failed :
      (mutate : Db → Db) (owner : JobExecution × Option Resource)
      → ((d : Db) → (mutate d).jobs ≡ d.jobs)
      → owned_execution db c ≡ some owner
      → db' ≡ fail_execution c mutate db
      → Ends db c db'

commit-stops :
    (c : ExecutionClaim) (mutate : Mutation) (g : JobExecution → JobExecution)
    (settle : Option Resource → Db → Db) (db db' : Db)
    → KeepsJobs mutate
    → ((job : JobExecution) → ((g job).attempt ≡ job.attempt) × ((g job).status ≢ running))
    → ((r : Option Resource) (d : Db) → (settle r d).jobs ≡ d.jobs)
    → commit c mutate g settle db ≡ ok (db', true)
    → (job : JobExecution) × (find c.job_id db.jobs ≡ some job)
      × ((job' : JobExecution)
          → find c.job_id db'.jobs ≡ some job'
          → (job'.attempt ≡ c.attempt) × (job'.status ≢ running))
commit-stops c mutate g settle db db' keeps stops still h =
    elim (commit-inv c mutate g settle db db' true h) [
      | inl (e, same, f) ↦ absurd (cc)
      | inr (job, r, mid, e, m, done, f) ↦
          let o = owned_execution-inv db c e in
          let held : find c.job_id db'.jobs ≡ some (g job) = ground (
            arith,
            done,
            still r (modify_job c.job_id g mid),
            keeps r db mid m,
            o.found,
            find-modify_job c.job_id c.job_id g mid,
          ) in
          (job, o.found, λ job' f. ground (arith, held, o.same_attempt, stops job))
    ]

-- Such a transaction leaves the attempt's number in the job, and the job not running.
Ends-stops :
    (db db' : Db) (c : ExecutionClaim)
    → Ends db c db'
    → (job : JobExecution) × (find c.job_id db.jobs ≡ some job)
      × ((job' : JobExecution)
          → find c.job_id db'.jobs ≡ some job'
          → (job'.attempt ≡ c.attempt) × (job'.status ≢ running))
unfolding persist_next_step complete_execution defer_execution fail_execution
Ends-stops db db' c (Ends.advanced task step mutate k e) =
    commit-stops c mutate (next_step_job task step) (λ r. on_resource r (next_step_row step)) db db'
      k (λ job. (refl, λ x. cc)) (λ r d. jobs-on_resource r (next_step_row step) d) e
Ends-stops db db' c (Ends.completed mutate gone k e) =
    commit-stops c mutate (close_job success) (settle_completed gone) db db' k
      (λ job. (refl, λ x. cc)) (jobs-settle_completed gone) e
Ends-stops db db' c (Ends.deferred mutate k e) =
    commit-stops c mutate (close_job pending) (λ r. on_resource r (set_status pending)) db db' k
      (λ job. (refl, λ x. cc)) (λ r d. jobs-on_resource r (set_status pending) d) e
Ends-stops db db' c (Ends.failed mutate (job, r) k e done) =
    let o = owned_execution-inv db c e in
    (
      job,
      o.found,
      λ job' f. ground (
        arith,
        o,
        k db,
        done,
        jobs-on_resource r (set_status error) (modify_job c.job_id (close_job error) (mutate db)),
        find-modify_job c.job_id c.job_id (close_job error) (mutate db),
      ),
    )

-- In a system whose jobs all have issued identifiers, let the owner of an attempt advance,
-- complete, defer or fail it, with a callback that touches no job: after any run of transactions
-- from there, the claim does not own the job.
pub ended_never_owned :
    (s t : System) (c : ExecutionClaim) (db : Db)
    → IsIssued s
    → Ends s.db c db
    → Run (record s { db = db }) t
    → owned_execution t.db c ≡ none
unfolding IsLost
ended_never_owned s t c db known end after =
    let (job, found, stopped) = Ends-stops s.db db c end in
    not-owned t c (IsLost-Run c (known c.job_id job found, λ j f. inr (stopped j f)) after)

-- In a system whose jobs all have issued identifiers, a job that has succeeded and is still in the
-- table after any run of transactions has the same row there.
pub success_final :
    (s t : System) (id : ℕ) (job job' : JobExecution)
    → IsIssued s
    → find id s.db.jobs ≡ some job
    → job.status ≡ success
    → Run s t
    → find id t.db.jobs ≡ some job'
    → job' ≡ job
success_final s t id job job' known found done run found' =
    let (before, held, l) = (Run-Evolves run).later id job' (known id job found) found' in
    let same : before ≡ job = cc in l.stays_done (rw same done) ∙ same
