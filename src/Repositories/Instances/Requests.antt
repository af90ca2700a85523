-- ===== src/Repositories/Instances/Requests.antt =====
-- `request_deletion`, `request_sync`, `request_start` and `request_stop`.
use coder_manager.Base.{
  ℕ, Bool, not, ◌&&◌, ◌||◌, String, none, some, ◌==◌, nat_eq, string_eq, option_eq, find,
  modify_where, if◌then◌else◌,
}
use coder_manager.Model.{
  pending, success, error, status_eq, Instance, Member, Db, modify_lifecycle, instance_kind,
}
use coder_manager.Jobs.Registry.{
  instance_start_step_01, instance_start_step_01_task, instance_stop_step_01,
  instance_stop_step_01_task, instance_update_step_01, instance_update_step_01_task,
  instance_delete_step_01, instance_delete_step_01_task, instance_delete_step_02,
  instance_delete_step_02_task,
}
use coder_manager.Repositories.Reply.{Reply, accepted, ◌>>=◌, ◌>>◌, refuse_if, found_or}
use coder_manager.Repositories.Jobs.{
  add_job_execution, in_progress, requested, has_active_template_assignment,
}

pub data InstanceError : Type 0 where
  already_exists not_found action_conflict database_unavailable : InstanceError

abbrev pub creation_is_incomplete : Instance → Bool
creation_is_incomplete i = i.action == "creating" && not (i.status == success)

-- What every request does after its guards: the columns of the instance, and a new pending job.
abbrev pub stage : ℕ → ℕ → String → String → String → String → Db → Db
stage job_id instance_id action name task_name step db =
    add_job_execution job_id name task_name (some "instance") (some instance_id) step
      (modify_lifecycle instance_kind instance_id (requested action job_id step) db)

abbrev pub failed_creation : Instance → Bool
failed_creation i = i.action == "creating" && i.status == error

abbrev pub successfully_reconciled : Instance → Bool
successfully_reconciled i =
    (i.action == "creating"
      || i.action == "updating"
      || i.action == "starting"
      || i.action == "stopping")
    && i.status == success

-- Workspaces need no cleanup if the creation failed before there was a password.
abbrev pub skip_workspace_cleanup : Instance → Bool
skip_workspace_cleanup i = failed_creation i && i.password_enc == none

unfoldable pub request_deletion : ℕ → ℕ → Db → Reply InstanceError Db
request_deletion job_id instance_id db = do
  i ← found_or (find instance_id db.instances) not_found
  refuse_if (has_active_template_assignment instance_id db) action_conflict
  refuse_if (not (successfully_reconciled i) && not (failed_creation i)) action_conflict
  accepted (
      if skip_workspace_cleanup i
      then stage job_id instance_id "deleting" "instance.delete" instance_delete_step_02_task
          instance_delete_step_02 db
      else stage job_id instance_id "deleting" "instance.delete" instance_delete_step_01_task
          instance_delete_step_01 db)

-- The guard that a sync, a start and a stop share.
abbrev pub is_busy : ℕ → Instance → Db → Bool
is_busy instance_id i db =
    creation_is_incomplete i
    || i.action == "deleting"
    || in_progress i.status
    || has_active_template_assignment instance_id db

abbrev pub retry_member : Member → Member
retry_member m = record m { status = pending }

-- The members whose last change failed wait again.
abbrev pub retry_failed_members : ℕ → Db → Db
retry_failed_members instance_id db = record db {
  members =
      modify_where (λ _ m. m.instance_id == instance_id && m.status == error) retry_member
        db.members;
}

unfoldable pub request_sync : ℕ → ℕ → Db → Reply InstanceError Db
request_sync job_id instance_id db = do
  i ← found_or (find instance_id db.instances) not_found
  refuse_if (is_busy instance_id i db) action_conflict
  accepted (
      stage job_id instance_id "updating" "instance.update" instance_update_step_01_task
        instance_update_step_01 (retry_failed_members instance_id db))

-- `_request_power_action`
unfoldable pub request_power_action :
    String → String → String → String → ℕ → ℕ → Db → Reply InstanceError Db
request_power_action action job_name task_name step job_id instance_id db = do
  i ← found_or (find instance_id db.instances) not_found
  refuse_if (is_busy instance_id i db) action_conflict
  accepted (stage job_id instance_id action job_name task_name step db)

unfoldable pub request_start : ℕ → ℕ → Db → Reply InstanceError Db
request_start =
    request_power_action "starting" "instance.start" instance_start_step_01_task
      instance_start_step_01

unfoldable pub request_stop : ℕ → ℕ → Db → Reply InstanceError Db
request_stop =
    request_power_action "stopping" "instance.stop" instance_stop_step_01_task instance_stop_step_01
