-- ===== src/Tasks/Removal.antt =====
-- The last step of an instance's deletion (tasks/instance/delete/step_04_remove_local_configuration.py).
use coder_manager.Base.{ℕ, String, Option, none, some, ◌==◌, nat_eq, delete, delete_where}
use coder_manager.Model.{
  success, instance_kind, template_kind, assignment_kind, workspace_kind, Db, modify_job,
  delete_resource,
}
use coder_manager.Jobs.Registry.{instance_delete_step_04_task}
use coder_manager.Jobs.Execution.{
  Resource, owned_execution, close_job, Result, ok, run_claimed_step, Operation,
}

-- The rows that only the instance uses.
unfoldable pub delete_dependents : ℕ → Db → Db
delete_dependents instance_id db = record db {
  workspaces = delete_where (λ _ w. w.instance_id == instance_id) db.workspaces;
  members = delete_where (λ _ m. m.instance_id == instance_id) db.members;
  allocations = delete_where (λ _ a. a.instance_id == instance_id) db.allocations;
  kubernetes = delete instance_id db.kubernetes;
}

-- What the step does with the pair that it owns: nothing if the resource is no instance.
unfoldable pub remove_owned : ℕ → Option Resource → Db → Db × Result String
remove_owned job_id none db = (db, ok "noop")
remove_owned job_id (some r) db = elim r.kind [
  | instance_kind ↦ (
    delete_resource instance_kind r.id
        (modify_job job_id (close_job success) (delete_dependents r.id db)),
    ok "deleted",
  )
  | template_kind ↦ (db, ok "noop")
  | assignment_kind ↦ (db, ok "noop")
  | workspace_kind ↦ (db, ok "noop")
]

unfoldable pub remove_local_configuration : Operation
remove_local_configuration claim db = elim (owned_execution db claim) [
  | none ↦ (db, ok "noop")
  | some (job, resource) ↦ remove_owned claim.job_id resource db
]

unfoldable pub step_04_remove_local_configuration : ℕ → ℕ → Db → Db × Result String
step_04_remove_local_configuration job_id now db =
    run_claimed_step job_id instance_delete_step_04_task now remove_local_configuration db
