-- ===== src/Repositories/Assignments.antt =====
-- TemplateAssignmentRepository (repositories/template_assignments.py).
use coder_manager.Base.{
  ℕ, Bool, true, false, not, ◌&&◌, String, Option, none, some, ◌==◌, nat_eq, string_eq, option_eq,
  Table, [], ◌∷◌, find, add, exists_where, if◌then◌else◌,
}
use coder_manager.Model.{
  pending, success, status_eq, started, state_eq, Instance, Template, TemplateAssignment, Workspace,
  JobExecution, Db, modify_lifecycle, assignment_kind,
}
use coder_manager.Jobs.Registry.{
  template_assignment_create_step_01, template_assignment_create_step_01_task,
  template_assignment_delete_step_01, template_assignment_delete_step_01_task,
}
use coder_manager.Repositories.Reply.{Reply, accepted, refused, ◌>>=◌, ◌>>◌, refuse_if, found_or}
use coder_manager.Repositories.Jobs.{add_job_execution, is_retryable, requested}
pub mod Outcomes
pub mod Idempotence
pub mod Linking
pub mod Deletion
pub mod Withdrawal

pub data AssignmentError : Type 0 where
  instance_not_found template_not_found instance_unavailable action_conflict : AssignmentError
  job_conflict sync_in_progress workspaces_busy : AssignmentError

-- `_lock_assignment`: the row of one instance and template, with its identifier. The unique
-- constraint on the two columns leaves at most one.
unfoldable pub lock_assignment : ℕ → ℕ → Table TemplateAssignment → Option (ℕ × TemplateAssignment)
lock_assignment instance_id template_id [] = none
lock_assignment instance_id template_id ((id, a) ∷ rest) =
    if a.instance_id == instance_id && a.template_id == template_id
    then some (id, a)
    else lock_assignment instance_id template_id rest

abbrev pub is_available : Instance → Bool
is_available i = i.state == started && i.status == success

unfoldable pub require_mutation_available : Instance → Template → Reply AssignmentError (Unit {0})
require_mutation_available i t = do
  refuse_if (not (is_available i)) instance_unavailable
  refuse_if (is_retryable t.status) sync_in_progress

abbrev pub owned_job : TemplateAssignment → Db → Option JobExecution
owned_job a db = elim a.job_id [ none ↦ none | some job_id ↦ find job_id db.jobs ]

abbrev pub is_consistent : ℕ → TemplateAssignment → String → String → String → JobExecution → Bool
is_consistent id a job_name task_name step job =
    job.name == job_name
    && job.task_name == task_name
    && job.resource_type == some "template_assignment"
    && job.resource_id == some id
    && job.step == step
    && a.step == some step
    && job.status == a.status

-- `_require_consistent_job`
unfoldable pub require_consistent_job :
    ℕ → TemplateAssignment → String → String → String → Db → Reply AssignmentError (Unit {0})
require_consistent_job id a job_name task_name step db = elim (owned_job a db) [
  | none ↦ refused job_conflict
  | some job ↦ refuse_if (not (is_consistent id a job_name task_name step job)) job_conflict
]

abbrev pub new_assignment : ℕ → ℕ → ℕ → TemplateAssignment
new_assignment job_id instance_id template_id = record {
  lifecycle = record {
    action = "creating";
    status = pending;
    job_id = some job_id;
    step = some template_assignment_create_step_01;
  };
  template_id = template_id;
  instance_id = instance_id;
}

unfoldable pub create_assignment : ℕ → ℕ → ℕ → ℕ → Db → Db
create_assignment assignment_id job_id instance_id template_id db =
    add_job_execution job_id "template_assignment.create" template_assignment_create_step_01_task
      (some "template_assignment") (some assignment_id) template_assignment_create_step_01
      (record db {
        assignments =
            add assignment_id (new_assignment job_id instance_id template_id) db.assignments;
      })

abbrev pub is_created : TemplateAssignment → Bool
is_created a = a.action == "created" && a.status == success

-- The branches of `put` on the assignment's row. The reply holds the database, the assignment's
-- identifier and whether work is still to come.
unfoldable pub put_existing : ℕ → TemplateAssignment → Db → Reply AssignmentError (Db × ℕ × Bool)
put_existing id a db =
    if is_created a
    then accepted (db, id, false)
    else if a.action == "creating" && is_retryable a.status
    then (do
      require_consistent_job id a "template_assignment.create"
          template_assignment_create_step_01_task template_assignment_create_step_01 db
      accepted (db, id, true))
    else refused action_conflict

-- `put`, with the identifiers that `uuid4` returns for a new assignment and its job.
unfoldable pub put : ℕ → ℕ → ℕ → ℕ → Db → Reply AssignmentError (Db × ℕ × Bool)
put assignment_id job_id instance_id template_id db = do
  i ← found_or (find instance_id db.instances) instance_not_found
  t ← found_or (find template_id db.templates) template_not_found
  require_mutation_available i t
  elim (lock_assignment instance_id template_id db.assignments) [
    | none ↦
        accepted
          (create_assignment assignment_id job_id instance_id template_id db, assignment_id, true)
    | some (id, a) ↦ put_existing id a db
  ]

abbrev pub workspace_is_busy : ℕ → ℕ → ℕ → Workspace → Bool
workspace_is_busy instance_id template_id _ w =
    w.instance_id == instance_id && w.template_id == template_id && is_retryable w.status

unfoldable pub delete_assignment : ℕ → ℕ → Db → Db
delete_assignment job_id id db =
    add_job_execution job_id "template_assignment.delete" template_assignment_delete_step_01_task
      (some "template_assignment") (some id) template_assignment_delete_step_01
      (modify_lifecycle assignment_kind id
        (requested "deleting" job_id template_assignment_delete_step_01) db)

-- The branches of `request_deletion` on an assignment that is there.
unfoldable pub delete_existing :
    ℕ → ℕ → ℕ → ℕ → TemplateAssignment → Db → Reply AssignmentError (Db × Option ℕ × Bool)
delete_existing job_id instance_id template_id id a db =
    if a.action == "deleting" && is_retryable a.status
    then (do
      require_consistent_job id a "template_assignment.delete"
          template_assignment_delete_step_01_task template_assignment_delete_step_01 db
      accepted (db, some id, true))
    else do
      refuse_if (not (is_created a)) action_conflict
      refuse_if (exists_where (workspace_is_busy instance_id template_id) db.workspaces)
          workspaces_busy
      accepted (delete_assignment job_id id db, some id, true)

unfoldable pub request_deletion : ℕ → ℕ → ℕ → Db → Reply AssignmentError (Db × Option ℕ × Bool)
request_deletion job_id instance_id template_id db = do
  i ← found_or (find instance_id db.instances) instance_not_found
  t ← found_or (find template_id db.templates) template_not_found
  elim (lock_assignment instance_id template_id db.assignments) [
    | none ↦ accepted (db, none, false)
    | some (id, a) ↦ do
      require_mutation_available i t
      delete_existing job_id instance_id template_id id a db
  ]
