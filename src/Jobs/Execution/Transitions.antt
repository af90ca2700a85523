-- ===== src/Jobs/Execution/Transitions.antt =====
-- The transactions of tasks/common/execution.py: claim, advance, complete, defer, fail, heartbeat
-- and the preparation of a retry, and the frame that runs one step.
use coder_manager.Base.{
  ℕ, ◌+◌, Bool, true, false, ◌&&◌, ◌||◌, String, Option, none, some, ◌==◌, nat_eq, string_eq, find,
  ◌>>=◌, ◌>>◌, ◌≡◌, refl, ◌⊎◌, inl, inr, require, leb, if◌then◌else◌,
}
use coder_manager.Model.{
  Status, pending, running, success, error, status_eq, JobExecution, Lifecycle, Db, modify_job,
  delete_resource,
}
use coder_manager.Jobs.Registry.{Celery, Queue, dispatch_registered_step}
use coder_manager.Jobs.Execution.Ownership.{
  ExecutionClaim, Resource, resource_for_job, resource_matches, on_resource, set_status,
  owned_execution,
}

-- The guards of `claim_execution`.
unfoldable pub claimable : ℕ → String → Db → Option (JobExecution × Option Resource)
claimable job_id task_name db = do
  job ← find job_id db.jobs
  require (job.task_name == task_name && (job.status == pending || job.status == error))
  let resource = resource_for_job db job
  require (resource_matches job_id job resource)
  some (job, resource)

abbrev pub start_attempt : ℕ → JobExecution → JobExecution
start_attempt now job = record job {
  status = running;
  attempt = job.attempt + 1;
  claimed_at = some now;
}

abbrev pub claim_for : ℕ → JobExecution → ExecutionClaim
claim_for job_id job = record {
  job_id = job_id;
  task_name = job.task_name;
  step = job.step;
  attempt = job.attempt + 1;
  resource_type = job.resource_type;
  resource_id = job.resource_id;
}

unfoldable pub claim_execution : ℕ → String → ℕ → Db → Db × Option ExecutionClaim
claim_execution job_id task_name now db = elim (claimable job_id task_name db) [
  | none ↦ (db, none)
  | some (job, resource) ↦ (
    on_resource resource (set_status running) (modify_job job_id (start_attempt now) db),
    some (claim_for job_id job),
  )
]

-- A raised exception carries its message.
pub data Result {ℓ} (A : Type ℓ) : Type ℓ where
  ok : A → Result A
  raised : String → Result A

pub Result-cases {ℓ} :
    {A : Type ℓ} (r : Result A)
    → ((a : A) × (r ≡ ok a)) ⊎ ((message : String) × (r ≡ raised message))
Result-cases (ok a) = inl (a, refl)
Result-cases (raised message) = inr (message, refl)

-- A `mutate` callback: it edits rows in the open transaction, or raises, and all is rolled back.
abbrev pub Mutation : Type 0
Mutation = Option Resource → Db → Result Db

-- `mutate=None`
abbrev pub no_mutation : Mutation
no_mutation resource db = ok db

abbrev pub close_job : Status → JobExecution → JobExecution
close_job s job = record job { status = s; claimed_at = none }

-- A callback that touches no job.
abbrev pub KeepsJobs : Mutation → Type 0
KeepsJobs mutate = (r : Option Resource) (db db' : Db) → mutate r db ≡ ok db' → db'.jobs ≡ db.jobs

-- What a helper does once it owns the execution: the callback, then the job, then the resource.
abbrev pub commit :
    ExecutionClaim
    → Mutation
    → (JobExecution → JobExecution)
    → (Option Resource → Db → Db)
    → Db
    → Result (Db × Bool)
commit claim mutate on_job settle db = elim (owned_execution db claim) [
  | none ↦ ok (db, false)
  | some (job, resource) ↦ elim (mutate resource db) [
    | raised message ↦ raised message
    | ok db' ↦ ok (settle resource (modify_job claim.job_id on_job db'), true)
  ]
]

abbrev pub next_step_job : String → String → JobExecution → JobExecution
next_step_job task step job = record job {
  task_name = task;
  step = step;
  status = pending;
  claimed_at = none;
}

abbrev pub next_step_row : String → Lifecycle → Lifecycle
next_step_row step l = record l { step = some step; status = pending }

abbrev pub complete_row : Lifecycle → Lifecycle
complete_row l = record l { status = success; step = none }

-- The transaction of `advance_execution`.
unfoldable pub persist_next_step :
    ExecutionClaim → String → String → Mutation → Db → Result (Db × Bool)
persist_next_step claim next_task_name next_step mutate =
    commit claim mutate (next_step_job next_task_name next_step)
      (λ resource. on_resource resource (next_step_row next_step))

-- The message that follows a committed step. The answer of the dispatch is not looked at.
abbrev pub dispatch_after : Celery → String → ℕ → Queue → Result (Db × Bool) → Queue
dispatch_after celery task_name job_id queue (raised message) = queue
dispatch_after celery task_name job_id queue (ok (db, false)) = queue
dispatch_after celery task_name job_id queue (ok (db, true)) =
    (dispatch_registered_step celery task_name job_id queue).1

unfoldable pub advance_execution :
    Celery → ExecutionClaim → String → String → Mutation → Db → Queue → Result (Db × Bool) × Queue
advance_execution celery claim next_task_name next_step mutate db queue =
    let outcome = persist_next_step claim next_task_name next_step mutate db in
    (outcome, dispatch_after celery next_task_name claim.job_id queue outcome)

-- A completed resource is deleted, or it succeeds and has no step any more.
abbrev pub settle_completed : Bool → Option Resource → Db → Db
settle_completed delete none db = db
settle_completed true (some r) db = delete_resource r.kind r.id db
settle_completed false (some r) db = on_resource (some r) complete_row db

unfoldable pub complete_execution : ExecutionClaim → Mutation → Bool → Db → Result (Db × Bool)
complete_execution claim mutate delete =
    commit claim mutate (close_job success) (settle_completed delete)

unfoldable pub defer_execution : ExecutionClaim → Mutation → Db → Result (Db × Bool)
defer_execution claim mutate =
    commit claim mutate (close_job pending) (λ resource. on_resource resource (set_status pending))

-- The callback of `fail_execution` takes the session alone, and does not raise.
unfoldable pub fail_execution : ExecutionClaim → (Db → Db) → Db → Db
fail_execution claim mutate db = elim (owned_execution db claim) [
  | none ↦ db
  | some (job, resource) ↦
      on_resource resource (set_status error)
        (modify_job claim.job_id (close_job error) (mutate db))
]

abbrev pub beat : ℕ → JobExecution → JobExecution
beat now job = record job { claimed_at = some now }

unfoldable pub heartbeat_execution : ExecutionClaim → ℕ → Db → Db × Bool
heartbeat_execution claim now db = elim (owned_execution db claim) [
  | none ↦ (db, false)
  | some _ ↦ (modify_job claim.job_id (beat now) db, true)
]

-- The body of a step: it commits transactions of its own, and returns its status or raises.
abbrev pub Operation : Type 0
Operation = ExecutionClaim → Db → Db × Result String

unfoldable pub run_claimed_step : ℕ → String → ℕ → Operation → Db → Db × Result String
run_claimed_step job_id task_name now operation db =
    let (claimed, owner) = claim_execution job_id task_name now db in
    elim owner [
      | none ↦ (claimed, ok "noop")
      | some claim ↦
          let (db', outcome) = operation claim claimed in
          elim outcome [
            | ok status ↦ (db', ok status)
            | raised message ↦ (fail_execution claim (λ d. d) db', raised message)
          ]
    ]

-- Whether a running attempt has gone without a heartbeat since `stale_before`.
abbrev pub is_stale : ℕ → Option ℕ → Bool
is_stale stale_before none = false
is_stale stale_before (some claimed_at) = leb claimed_at stale_before

unfoldable pub prepare_execution_retry : ℕ → ℕ → Db → Db × Option String
prepare_execution_retry job_id stale_before db = elim (find job_id db.jobs) [
  | none ↦ (db, none)
  | some job ↦
      let resource = resource_for_job db job in
      if job.status == success
      then (db, none)
      else if resource_matches job_id job resource
      then (if job.status == running
          then (if is_stale stale_before job.claimed_at
              then (
                on_resource resource (set_status pending)
                    (modify_job job_id (close_job pending) db),
                some job.task_name,
              )
              else (db, none))
          else (db, some job.task_name))
      else (db, none)
]

-- `required_resource_id`
unfoldable pub required_resource_id : ExecutionClaim → Result ℕ
required_resource_id claim = elim claim.resource_id [
  | none ↦ raised "Job resource is missing"
  | some id ↦ ok id
]
