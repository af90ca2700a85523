-- ===== src/Jobs/Consistency/Queued.antt =====
-- A job that a request has just queued, and the claim of its task.
use coder_manager.Base.{
  ℕ, ◌≡◌, refl, inl, true, String, some, nat_eq, string_eq, option_eq, beq_refl, find, arith,
}
use coder_manager.Model.{pending, JobExecution, Lifecycle, Db, Kind, lifecycle_of}
use coder_manager.Jobs.Registry.{expected_action}
use coder_manager.Jobs.Execution.{
  ExecutionClaim, claim_execution, claim_for, resource_for_job, resource_matches,
}
use coder_manager.Jobs.Execution.Progress.{claim_execution-claimable}
use coder_manager.Jobs.Consistency.Settling.{Belongs, Belongs-located}

-- A row that was requested for a job, and the job: all that `_resource_matches` compares.
pub record IsQueued (db : Db) (k : Kind) (i : ℕ) (job_id : ℕ) (task : String) : Type 0 where
  pub job : JobExecution
  pub row : Lifecycle
  pub found : find job_id db.jobs ≡ some job
  pub located : lifecycle_of k i db ≡ some row
  pub belongs : Belongs job k i row
  pub task_name : job.task_name ≡ task
  pub waits : job.status ≡ pending
  pub first : job.attempt ≡ 0
  pub job_link : row.job_id ≡ some job_id
  pub expected : expected_action job.name ≡ some row.action
  pub step : row.step ≡ some job.step

matches-queued :
    {db : Db} {k : Kind} {i job_id : ℕ} {task : String} (q : IsQueued db k i job_id task)
    → resource_matches job_id q.job (resource_for_job db q.job) ≡ true
unfolding resource_matches
matches-queued {db} {k} {i} {job_id} q = ground (
  arith,
  Belongs-located db q.job k i q.row q.located q.belongs,
  q.belongs.type,
  q.expected,
  q.job_link,
  q.step,
  beq_refl q.row.action,
  beq_refl q.job.step,
  beq_refl job_id,
)

pub queued-claimable :
    {db : Db} {k : Kind} {i job_id : ℕ} {task : String}
    → (now : ℕ) → IsQueued db k i job_id task
    → (c : ExecutionClaim) × ((claim_execution job_id task now db).1 ≡ some c) × (c.attempt ≡ 1)
queued-claimable {db} {k} {i} {job_id} {task} now q = (
  claim_for job_id q.job,
  claim_execution-claimable job_id task now db q.job (resource_for_job db q.job) (record {
    found = q.found;
    same_task = rw q.task_name (beq_refl task);
    is_waiting = inl q.waits;
    loaded = refl;
    matched = matches-queued q;
  }),
  ground (arith, q.first),
)
