-- ===== src/Repositories/Assignments/Linking.antt =====
-- `put`, the link between resources and jobs, and the claim of the job that it queues.
use coder_manager.Base.{
  ℕ, ◌≡◌, refl, inl, inr, Bool, ◌&&◌, none, some, ◌==◌, nat_eq, string_eq, option_eq, find,
  find-add, Option-cases, arith, if◌then◌else◌,
}
use coder_manager.Model.{
  Kind, assignment_kind, kind_beq, lifecycle_of, JobExecution, Db, pending, status_eq,
}
use coder_manager.Jobs.Registry.{
  template_assignment_create_step_01, template_assignment_create_step_01_task, expected_action,
}
use coder_manager.Jobs.Execution.{ExecutionClaim, claim_execution}
use coder_manager.Jobs.Consistency.Settling.{IsConsistent}
use coder_manager.Jobs.Consistency.Requests.{requested-IsConsistent}
use coder_manager.Jobs.Consistency.Queued.{IsQueued, queued-claimable}
use coder_manager.Repositories.Reply.{accepted}
use coder_manager.Repositories.Jobs.{add_job_execution}
use coder_manager.Repositories.Assignments.{lock_assignment, put, create_assignment, new_assignment}
use coder_manager.Repositories.Assignments.Outcomes.{put-inv}
use coder_manager.Repositories.Assignments.Idempotence.{put_existing-unchanged}

abbrev pub created_job : ℕ → JobExecution
created_job assignment_id = record {
  name = "template_assignment.create";
  task_name = template_assignment_create_step_01_task;
  resource_type = some "template_assignment";
  resource_id = some assignment_id;
  step = template_assignment_create_step_01;
  status = pending;
  attempt = 0;
  claimed_at = none;
}

module _ (assignment_id job_id instance_id template_id : ℕ) (db : Db) where
  pub created_jobs :
      (j : ℕ)
      → find j (create_assignment assignment_id job_id instance_id template_id db).jobs
        ≡ (if j == job_id then some (created_job assignment_id) else find j db.jobs)
  unfolding create_assignment add_job_execution
  created_jobs j = find-add j job_id (created_job assignment_id) db.jobs

  created_rows :
      (h : Kind) (n : ℕ)
      → lifecycle_of h n (create_assignment assignment_id job_id instance_id template_id db) ≡ (
          if kind_beq h assignment_kind && n == assignment_id
          then some (new_assignment job_id instance_id template_id).lifecycle
          else lifecycle_of h n db)
  unfolding create_assignment add_job_execution lifecycle_of
  created_rows assignment_kind n = ground (
    arith,
    find-add n assignment_id (new_assignment job_id instance_id template_id) db.assignments,
  )
  created_rows _ n = refl

  create_assignment-IsConsistent :
      find job_id db.jobs ≡ none
      → IsConsistent db
      → IsConsistent (create_assignment assignment_id job_id instance_id template_id db)
  create_assignment-IsConsistent fresh =
      requested-IsConsistent db (create_assignment assignment_id job_id instance_id template_id db)
        assignment_kind assignment_id job_id (created_job assignment_id)
        (some (new_assignment job_id instance_id template_id).lifecycle) fresh created_jobs
        created_rows (λ l e. ground arith) (refl, refl, refl)

  create_assignment-IsQueued :
      IsQueued
        (create_assignment assignment_id job_id instance_id template_id db)
        assignment_kind
        assignment_id
        job_id
        template_assignment_create_step_01_task
  unfolding expected_action
  create_assignment-IsQueued = record {
    job = created_job assignment_id;
    row = (new_assignment job_id instance_id template_id).lifecycle;
    found = ground (arith, created_jobs job_id);
    located = ground (arith, created_rows assignment_kind assignment_id);
    belongs = record { type = refl; id = refl; status = refl };
    task_name = refl;
    waits = refl;
    first = refl;
    job_link = refl;
    expected = refl;
    step = refl;
  }

-- An accepted `put` for an instance and a template that had no assignment queues a job, which the
-- task of the first creation step then claims for its first attempt.
pub put-claimable :
    (assignment_id job_id instance_id template_id id now : ℕ) (db db' : Db) (b : Bool)
    → lock_assignment instance_id template_id db.assignments ≡ none
    → put assignment_id job_id instance_id template_id db ≡ accepted (db', id, b)
    → (c : ExecutionClaim) × ((claim_execution job_id template_assignment_create_step_01_task now
          db').1
        ≡ some c)
      × (c.attempt ≡ 1)
put-claimable assignment_id job_id instance_id template_id id now db db' b l h =
    let (open_now, row) = put-inv assignment_id job_id instance_id template_id db (db', id, b) h in
    let same : db' ≡ create_assignment assignment_id job_id instance_id template_id db =
      ground arith in
    rw same (
      queued-claimable now
        (create_assignment-IsQueued assignment_id job_id instance_id template_id db))

-- An accepted `put`, under a job identifier that was not in use, keeps the link between resources
-- and jobs (each job that a resource names is in the table, is of that resource, and has its
-- status).
pub put-IsConsistent :
    (assignment_id job_id instance_id template_id id : ℕ) (db db' : Db) (b : Bool)
    → find job_id db.jobs ≡ none
    → put assignment_id job_id instance_id template_id db ≡ accepted (db', id, b)
    → IsConsistent db
    → IsConsistent db'
put-IsConsistent assignment_id job_id instance_id template_id id db db' b fresh h c =
    let (open_now, row) = put-inv assignment_id job_id instance_id template_id db (db', id, b) h in
    elim (Option-cases (lock_assignment instance_id template_id db.assignments)) [
      | inl l ↦
          let same : db' ≡ create_assignment assignment_id job_id instance_id template_id db =
            ground arith in
          rw same
            (create_assignment-IsConsistent assignment_id job_id instance_id template_id db fresh c)
      | inr ((n, a), l) ↦
          let (same, same_id) = put_existing-unchanged n a db db' id b (ground arith) in rw same c
    ]
