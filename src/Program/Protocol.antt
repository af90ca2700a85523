-- ===== src/Program/Protocol.antt =====
-- The life of one job, as an abstract machine on its status and its number of attempts, and the
-- transactions of tasks/common/execution.py seen through it.
use mathlib.Core.Option
use coder_manager.Base.{
  ℕ, ◌+◌, ◌≡◌, refl, ap, ◌⊎◌, inl, inr, Bool, String, Option, none, some, ◌==◌, nat_eq, find,
  Option-cases, Bool-cases, arith,
}
use coder_manager.Model.{
  Status, pending, running, success, error, JobExecution, Db, modify_job, find-modify_job,
}
use coder_manager.Jobs.Execution.{
  ExecutionClaim, Resource, on_resource, owned_execution, claimable, set_status, resource_for_job,
  claim_execution, start_attempt, ok, Mutation, close_job, next_step_job, beat, KeepsJobs, commit,
  next_step_row, persist_next_step, complete_execution, settle_completed, defer_execution,
  fail_execution, heartbeat_execution, prepare_execution_retry,
}
use coder_manager.Jobs.Execution.Resources.{
  jobs-on_resource, commit-inv, claimable-inv, owned_execution-inv,
}
use coder_manager.Jobs.Workers.Attempts.{reclaimed_or_same, jobs-settle_completed}
use coder_manager.Program.{Transaction}

pub record JobState : Type 0 where
  pub status : Status
  pub attempt : ℕ

abbrev pub state_of : JobExecution → JobState
state_of job = record { status = job.status; attempt = job.attempt }

-- The abstract state of a job; it has none before it is created and once it is discarded.
abbrev pub job_state : ℕ → Db → Option JobState
job_state j db = Option.map state_of (find j db.jobs)

-- One move of the abstract machine.
pub data Move : Option JobState → Option JobState → Type 0 where
  stays : {s : Option JobState} → Move s s
  created : Move none (some (record { status = pending; attempt = 0 }))
  claimed :
      {s : Status} {n : ℕ}
      → (s ≡ pending) ⊎ (s ≡ error)
      → Move
          (some (record { status = s; attempt = n }))
          (some (record { status = running; attempt = n + 1 }))
  closed :
      {s : Status} {n : ℕ}
      → (s ≡ running → ⊥)
      → Move
          (some (record { status = running; attempt = n }))
          (some (record { status = s; attempt = n }))
  discarded : {n : ℕ} → Move (some (record { status = success; attempt = n })) none

abbrev pub JobsMove : Db → Db → Type 0
JobsMove db db' = (j : ℕ) → Move (job_state j db) (job_state j db')

pub JobsMove-same : (db db' : Db) → db'.jobs ≡ db.jobs → JobsMove db db'
JobsMove-same db db' same j = rw same stays

JobsMove-modify :
    (id : ℕ) (g : JobExecution → JobExecution) (job : JobExecution) (db mid db' : Db)
    → mid.jobs ≡ db.jobs
    → db'.jobs ≡ (modify_job id g mid).jobs
    → find id db.jobs ≡ some job
    → Move (some (state_of job)) (some (state_of (g job)))
    → JobsMove db db'
JobsMove-modify id g job db mid db' same done found move j = elim (Bool-cases (j == id)) [
  | inl hit ↦
      let key : j ≡ id = ground (arith, hit) in
      let before : job_state j db ≡ some (state_of job) = ground (arith, key, found) in
      let after : job_state j db' ≡ some (state_of (g job)) =
        ground (arith, key, found, done, same, find-modify_job j id g mid) in
      rw (before, after) move
  | inr miss ↦
      let after : job_state j db' ≡ job_state j db =
        ground (arith, done, same, miss, find-modify_job j id g mid) in
      rw after stays
]

closed_move :
    (job job' : JobExecution) (s : Status)
    → job.status ≡ running
    → state_of job' ≡ record { status = s; attempt = job.attempt }
    → (s ≡ running → ⊥)
    → Move (some (state_of job)) (some (state_of job'))
closed_move job job' s run sets stops =
    let before : state_of job ≡ record { status = running; attempt = job.attempt } =
      ground (arith, run) in
    rw (before, sets) (closed stops)

claimed_move :
    (job : JobExecution) (now : ℕ)
    → (job.status ≡ pending) ⊎ (job.status ≡ error)
    → Move (some (state_of job)) (some (state_of (start_attempt now job)))
claimed_move job now waits = claimed waits

-- A claim, successful or not.
claim-JobsMove :
    (id : ℕ) (task : String) (now : ℕ) (db : Db) → JobsMove db (claim_execution id task now db).0
unfolding claim_execution
claim-JobsMove id task now db = elim (Option-cases (claimable id task db)) [
  | inl e ↦ rw (e, claim_execution) (JobsMove-same db db refl)
  | inr ((job, r), e) ↦
      let c = claimable-inv db id task e in
      rw (e, claim_execution)
        (JobsMove-modify id (start_attempt now) job db db
          (on_resource r (set_status running) (modify_job id (start_attempt now) db)) refl
          (jobs-on_resource r (set_status running) (modify_job id (start_attempt now) db)) c.found
          (claimed_move job now c.is_waiting))
]

retry-JobsMove :
    (id stale_before : ℕ) (db : Db) → JobsMove db (prepare_execution_retry id stale_before db).0
unfolding prepare_execution_retry
retry-JobsMove id stale_before db = elim (Option-cases (find id db.jobs)) [
  | inl e ↦ rw (e, prepare_execution_retry) (JobsMove-same db db refl)
  | inr (job, e) ↦ elim (reclaimed_or_same id stale_before db job e) [
    | inl same ↦ rw same (JobsMove-same db db refl)
    | inr (run, matched, reclaimed) ↦
        let r = resource_for_job db job in
        rw reclaimed (
          JobsMove-modify id (close_job pending) job db db
            (on_resource r (set_status pending) (modify_job id (close_job pending) db)) refl
            (jobs-on_resource r (set_status pending) (modify_job id (close_job pending) db)) e
            (closed_move job (close_job pending job) pending run refl (λ x. cc)))
  ]
]

module _ (c : ExecutionClaim) (db : Db) where
  fail-JobsMove :
      (mutate : Db → Db)
      → ((d : Db) → (mutate d).jobs ≡ d.jobs)
      → JobsMove db (fail_execution c mutate db)
  unfolding fail_execution
  fail-JobsMove mutate keeps = elim (Option-cases (owned_execution db c)) [
    | inl e ↦ rw (e, fail_execution) (JobsMove-same db db refl)
    | inr ((job, r), e) ↦
        let o = owned_execution-inv db c e in
        rw (e, fail_execution)
          (JobsMove-modify c.job_id (close_job error) job db (mutate db)
            (on_resource r (set_status error) (modify_job c.job_id (close_job error) (mutate db)))
            (keeps db)
            (jobs-on_resource r (set_status error)
              (modify_job c.job_id (close_job error) (mutate db)))
            o.found (closed_move job (close_job error job) error o.is_running refl (λ x. cc)))
  ]

  heartbeat-JobsMove : (now : ℕ) → JobsMove db (heartbeat_execution c now db).0
  unfolding heartbeat_execution
  heartbeat-JobsMove now = elim (Option-cases (owned_execution db c)) [
    | inl e ↦ rw (e, heartbeat_execution) (JobsMove-same db db refl)
    | inr ((job, r), e) ↦
        let o = owned_execution-inv db c e in
        rw (e, heartbeat_execution)
          (JobsMove-modify c.job_id (beat now) job db db (modify_job c.job_id (beat now) db) refl
            refl o.found stays)
  ]

  -- The owner of an execution closes it, or nothing happens.
  commit-JobsMove :
      (mutate : Mutation) (g : JobExecution → JobExecution) (settle : Option Resource → Db → Db)
      (db' : Db) (b : Bool) (s : Status)
      → KeepsJobs mutate
      → ((job : JobExecution) → state_of (g job) ≡ record { status = s; attempt = job.attempt })
      → (s ≡ running → ⊥)
      → ((r : Option Resource) (d : Db) → (settle r d).jobs ≡ d.jobs)
      → commit c mutate g settle db ≡ ok (db', b)
      → JobsMove db db'
  commit-JobsMove mutate g settle db' b s keeps sets stops still h =
      elim (commit-inv c mutate g settle db db' b h) [
        | inl (e, same, f) ↦ JobsMove-same db db' (ap (λ (d : Db). d.jobs) same)
        | inr (job, r, mid, e, m, done, f) ↦
            let o = owned_execution-inv db c e in
            JobsMove-modify c.job_id g job db mid db' (keeps r db mid m)
              (rw done (still r (modify_job c.job_id g mid))) o.found
              (closed_move job (g job) s o.is_running (sets job) stops)
      ]

-- Every transaction of a worker moves every job by at most one move of the machine.
pub Transaction-JobsMove : (db db' : Db) → Transaction db db' → JobsMove db db'
unfolding persist_next_step complete_execution defer_execution
Transaction-JobsMove db _ (Transaction.claim id task now) = claim-JobsMove id task now db
Transaction-JobsMove db db' (Transaction.advance c task step mutate _ b jobs rows h) =
    commit-JobsMove c db mutate (next_step_job task step) (λ r. on_resource r (next_step_row step))
      db' b pending jobs (λ job. refl) (λ x. cc) (λ r d. jobs-on_resource r (next_step_row step) d)
      h
Transaction-JobsMove db db' (Transaction.complete c mutate gone _ b jobs rows h) =
    commit-JobsMove c db mutate (close_job success) (settle_completed gone) db' b success jobs
      (λ job. refl) (λ x. cc) (λ r d. jobs-settle_completed gone r d) h
Transaction-JobsMove db db' (Transaction.defer c mutate _ b jobs rows h) =
    commit-JobsMove c db mutate (close_job pending) (λ r. on_resource r (set_status pending)) db' b
      pending jobs (λ job. refl) (λ x. cc) (λ r d. jobs-on_resource r (set_status pending) d) h
Transaction-JobsMove db _ (Transaction.fail c mutate jobs rows) = fail-JobsMove c db mutate jobs
Transaction-JobsMove db db' (Transaction.write _ jobs rows) = JobsMove-same db db' jobs
Transaction-JobsMove db _ (Transaction.heartbeat c now) = heartbeat-JobsMove c db now
Transaction-JobsMove db _ (Transaction.retry id stale_before) = retry-JobsMove id stale_before db
