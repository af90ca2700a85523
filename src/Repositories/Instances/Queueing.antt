-- ===== src/Repositories/Instances/Queueing.antt =====
-- The database after an accepted request: the row of the instance and the job that was queued.
use coder_manager.Base.{
  ℕ, ◌≡◌, refl, ◌∙◌, true, ◌&&◌, String, none, some, contains, ◌==◌, nat_eq, string_eq, option_eq,
  find, find-add, arith, if◌then◌else◌,
}
use coder_manager.Model.{
  pending, Lifecycle, JobExecution, Db, Kind, instance_kind, template_kind, assignment_kind,
  workspace_kind, kind_beq, lifecycle_of, modify_lifecycle, lifecycle_of-modify_lifecycle,
  jobs-modify_lifecycle,
}
use coder_manager.Jobs.Registry.{registered_step_names}
use coder_manager.Jobs.Execution.{ExecutionClaim, claim_execution}
use coder_manager.Jobs.Consistency.Settling.{IsConsistent}
use coder_manager.Jobs.Consistency.Requests.{requested-IsConsistent}
use coder_manager.Jobs.Consistency.Queued.{IsQueued, queued-claimable}
use coder_manager.Repositories.Reply.{accepted}
use coder_manager.Repositories.Jobs.{add_job_execution, requested, lifecycle_of-add_job_execution}
use coder_manager.Repositories.Instances.Staging.{Request, perform, Staged, perform-Staged}

-- The queued job.
abbrev pub staged_job :
    {job_id instance_id : ℕ} {db db' : Db} → Staged job_id instance_id db db' → JobExecution
staged_job {instance_id} s = record {
  name = s.name;
  task_name = s.task;
  resource_type = some "instance";
  resource_id = some instance_id;
  step = s.step;
  status = pending;
  attempt = 0;
  claimed_at = none;
}

abbrev staged_row :
    {job_id instance_id : ℕ} {db db' : Db} → Staged job_id instance_id db db' → Lifecycle
staged_row {job_id} s = requested s.action job_id s.step s.instance_row.lifecycle

module _ {job_id instance_id : ℕ} {db db' : Db} (s : Staged job_id instance_id db db') where
  pub staged_jobs :
      (j : ℕ) → find j db'.jobs ≡ (if j == job_id then some (staged_job s) else find j db.jobs)
  unfolding add_job_execution
  staged_jobs j = rw s.done (
      find-add j job_id (staged_job s)
        (modify_lifecycle instance_kind instance_id (requested s.action job_id s.step) s.base).jobs
      ∙ ground (
        arith,
        jobs-modify_lifecycle instance_kind instance_id (requested s.action job_id s.step) s.base,
        s.same_jobs,
      ))

  staged_rows :
      (h : Kind) (n : ℕ)
      → lifecycle_of h n db' ≡ (
          if kind_beq h instance_kind && n == instance_id
          then some (staged_row s)
          else lifecycle_of h n db)
  unfolding lifecycle_of
  staged_rows h n =
      let link = requested s.action job_id s.step in
      let changed = modify_lifecycle instance_kind instance_id link s.base in
      rw s.done (
        lifecycle_of-add_job_execution h n job_id s.name s.task (some "instance") (some instance_id)
          s.step changed
        ∙ (lifecycle_of-modify_lifecycle h instance_kind n instance_id link s.base
            ∙ ground (arith, s.same_rows h n, at_instance h n)))
    where
      at_instance :
          (h : Kind) (n : ℕ)
          → (kind_beq h instance_kind && n == instance_id) ≡ true
          → lifecycle_of h n db ≡ some s.instance_row.lifecycle
      at_instance instance_kind n e = ground (arith, s.found)
      at_instance template_kind n e = ground arith
      at_instance assignment_kind n e = ground arith
      at_instance workspace_kind n e = ground arith

  pub Staged-IsQueued : IsQueued db' instance_kind instance_id job_id s.task
  Staged-IsQueued = record {
    job = staged_job s;
    row = staged_row s;
    found = ground (arith, staged_jobs job_id);
    located = ground (arith, staged_rows instance_kind instance_id);
    belongs = record { type = refl; id = refl; status = refl };
    task_name = refl;
    waits = refl;
    first = refl;
    job_link = refl;
    expected = s.expected;
    step = refl;
  }

  pub Staged-IsConsistent : find job_id db.jobs ≡ none → IsConsistent db → IsConsistent db'
  Staged-IsConsistent fresh =
      requested-IsConsistent db db' instance_kind instance_id job_id (staged_job s)
        (some (staged_row s)) fresh staged_jobs staged_rows (λ l e. ground arith) (refl, refl, refl)

-- An accepted deletion, sync, start or stop of an instance queues a job for a registered task,
-- which then claims it for its first attempt.
pub perform-claimable :
    (q : Request) (job_id instance_id now : ℕ) (db db' : Db)
    → perform q job_id instance_id db ≡ accepted db'
    → (task : String) × (c : ExecutionClaim) × (contains registered_step_names task ≡ true)
      × ((claim_execution job_id task now db').1 ≡ some c)
      × (c.attempt ≡ 1)
perform-claimable q job_id instance_id now db db' h =
    let s = perform-Staged q job_id instance_id db db' h in
    let (c, claimed, first) = queued-claimable now (Staged-IsQueued s) in
    (s.task, c, s.registered, claimed, first)

-- An accepted deletion, sync, start or stop of an instance, under a job identifier that was not in
-- use, keeps the link between resources and jobs (each job that a resource names is in the table,
-- is of that resource, and has its status).
pub perform-IsConsistent :
    (q : Request) (job_id instance_id : ℕ) (db db' : Db)
    → find job_id db.jobs ≡ none
    → perform q job_id instance_id db ≡ accepted db'
    → IsConsistent db
    → IsConsistent db'
perform-IsConsistent q job_id instance_id db db' fresh h =
    Staged-IsConsistent (perform-Staged q job_id instance_id db db' h) fresh
