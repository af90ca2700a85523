-- ===== src/Repositories/Assignments/Withdrawal.antt =====
-- Deletions of an assignment, and the link between resources and jobs.
use mathlib.Core.Option
use coder_manager.Base.{
  ℕ, ◌≡◌, refl, ◌∙◌, Bool, ◌&&◌, Option, none, some, ◌==◌, nat_eq, string_eq, option_eq, find,
  find-add, arith, if◌then◌else◌,
}
use coder_manager.Model.{
  Kind, assignment_kind, kind_beq, kind_beq_iff, lifecycle_of, modify_lifecycle,
  lifecycle_of-modify_lifecycle, jobs-modify_lifecycle, Lifecycle, JobExecution, Db, pending,
  status_eq,
}
use coder_manager.Jobs.Registry.{
  template_assignment_delete_step_01, template_assignment_delete_step_01_task,
}
use coder_manager.Jobs.Consistency.Settling.{IsConsistent}
use coder_manager.Jobs.Consistency.Requests.{requested-IsConsistent}
use coder_manager.Repositories.Reply.{accepted}
use coder_manager.Repositories.Jobs.{add_job_execution, requested, lifecycle_of-add_job_execution}
use coder_manager.Repositories.Assignments.{request_deletion, delete_assignment}
use coder_manager.Repositories.Assignments.Deletion.{repeated, begun, deletion-inv}

abbrev pub deletion_job : ℕ → JobExecution
deletion_job id = record {
  name = "template_assignment.delete";
  task_name = template_assignment_delete_step_01_task;
  resource_type = some "template_assignment";
  resource_id = some id;
  step = template_assignment_delete_step_01;
  status = pending;
  attempt = 0;
  claimed_at = none;
}

module _ (job_id id : ℕ) (db : Db) where
  abbrev asked : Lifecycle → Lifecycle
  asked = requested "deleting" job_id template_assignment_delete_step_01

  pub deleted_jobs :
      (j : ℕ)
      → find j (delete_assignment job_id id db).jobs
        ≡ (if j == job_id then some (deletion_job id) else find j db.jobs)
  unfolding delete_assignment add_job_execution
  deleted_jobs j = ground (
    arith,
    find-add j job_id (deletion_job id) (modify_lifecycle assignment_kind id asked db).jobs,
    jobs-modify_lifecycle assignment_kind id asked db,
  )

  deleted_rows :
      (h : Kind) (n : ℕ)
      → lifecycle_of h n (delete_assignment job_id id db) ≡ (
          if kind_beq h assignment_kind && n == id
          then Option.map asked (lifecycle_of assignment_kind id db)
          else lifecycle_of h n db)
  unfolding delete_assignment
  deleted_rows h n =
      lifecycle_of-add_job_execution h n job_id "template_assignment.delete"
        template_assignment_delete_step_01_task (some "template_assignment") (some id)
        template_assignment_delete_step_01 (modify_lifecycle assignment_kind id asked db)
      ∙ (lifecycle_of-modify_lifecycle h assignment_kind n id asked db
          ∙ ground (arith, kind_beq_iff h assignment_kind))

  is_asked :
      (row : Option Lifecycle) (l : Lifecycle)
      → Option.map asked row ≡ some l
      → (l.job_id ≡ some job_id) × (l.status ≡ pending)
  is_asked none l e = absurd (ground arith)
  is_asked (some old) l e = ground arith

  delete_assignment-IsConsistent :
      find job_id db.jobs ≡ none → IsConsistent db → IsConsistent (delete_assignment job_id id db)
  delete_assignment-IsConsistent fresh =
      requested-IsConsistent db (delete_assignment job_id id db) assignment_kind id job_id
        (deletion_job id) (Option.map asked (lifecycle_of assignment_kind id db)) fresh deleted_jobs
        deleted_rows (λ l e. is_asked (lifecycle_of assignment_kind id db) l e) (refl, refl, refl)

-- An accepted deletion of an assignment that was there, under a job identifier that was not in use,
-- keeps the link between resources and jobs (each job that a resource names is in the table, is of
-- that resource, and has its status).
pub deletion-IsConsistent :
    (job_id instance_id template_id id : ℕ) (db db' : Db) (b : Bool)
    → find job_id db.jobs ≡ none
    → request_deletion job_id instance_id template_id db ≡ accepted (db', some id, b)
    → IsConsistent db
    → IsConsistent db'
deletion-IsConsistent job_id instance_id template_id id db db' b fresh h c =
    elim (deletion-inv job_id instance_id template_id id db db' b h).outcome [
      | repeated same again ↦ rw same c
      | begun quiet done ↦ rw done (delete_assignment-IsConsistent job_id id db fresh c)
    ]
