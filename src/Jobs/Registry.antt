-- ===== src/Jobs/Registry.antt =====
-- The allowlist of task names and the dispatch of tasks (tasks/common/registry.py), and the
-- action that each job expects its resource to be in (RESOURCE_ACTIONS of
-- tasks/common/execution.py).
use coder_manager.Base.{
  ℕ, Bool, true, false, ◌&&◌, String, Option, none, some, List, [], ◌∷◌, ◌==◌, string_eq, contains,
  if◌then◌else◌,
}

abbrev pub instance_create_step_01 : String
instance_create_step_01 = "step_01_create_schema"

abbrev pub instance_create_step_02 : String
instance_create_step_02 = "step_02_create_instance"

abbrev pub instance_create_step_03 : String
instance_create_step_03 = "step_03_bootstrap_admin"

abbrev pub instance_update_step_01 : String
instance_update_step_01 = "step_01_update_instance"

abbrev pub instance_update_step_02 : String
instance_update_step_02 = "step_02_cleanup_users"

abbrev pub instance_start_step_01 : String
instance_start_step_01 = "step_01_start_instance"

abbrev pub instance_stop_step_01 : String
instance_stop_step_01 = "step_01_stop_workspaces"

abbrev pub instance_stop_step_02 : String
instance_stop_step_02 = "step_02_stop_instance"

abbrev pub instance_delete_step_01 : String
instance_delete_step_01 = "step_01_remove_workspaces"

abbrev pub instance_delete_step_02 : String
instance_delete_step_02 = "step_02_remove_instance"

abbrev pub instance_delete_step_03 : String
instance_delete_step_03 = "step_03_remove_schema"

abbrev pub instance_delete_step_04 : String
instance_delete_step_04 = "step_04_remove_local_configuration"

abbrev pub workspace_create_step_01 : String
workspace_create_step_01 = "step_01_create_workspace"

abbrev pub workspace_update_step_01 : String
workspace_update_step_01 = "step_01_update_workspace"

abbrev pub workspace_delete_step_01 : String
workspace_delete_step_01 = "step_01_delete_workspace"

abbrev pub template_sync_step_01 : String
template_sync_step_01 = "step_01_sync_template"

abbrev pub template_assignment_create_step_01 : String
template_assignment_create_step_01 = "step_01_create_template"

abbrev pub template_assignment_delete_step_01 : String
template_assignment_delete_step_01 = "step_01_delete_template"

abbrev pub instance_create_step_01_task : String
instance_create_step_01_task = "coder_manager.instance.create.step_01_create_schema"

abbrev pub instance_create_step_02_task : String
instance_create_step_02_task = "coder_manager.instance.create.step_02_create_instance"

abbrev pub instance_create_step_03_task : String
instance_create_step_03_task = "coder_manager.instance.create.step_03_bootstrap_admin"

abbrev pub instance_update_step_01_task : String
instance_update_step_01_task = "coder_manager.instance.update.step_01_update_instance"

abbrev pub instance_update_step_02_task : String
instance_update_step_02_task = "coder_manager.instance.update.step_02_cleanup_users"

abbrev pub instance_start_step_01_task : String
instance_start_step_01_task = "coder_manager.instance.start.step_01_start_instance"

abbrev pub instance_stop_step_01_task : String
instance_stop_step_01_task = "coder_manager.instance.stop.step_01_stop_workspaces"

abbrev pub instance_stop_step_02_task : String
instance_stop_step_02_task = "coder_manager.instance.stop.step_02_stop_instance"

abbrev pub instance_delete_step_01_task : String
instance_delete_step_01_task = "coder_manager.instance.delete.step_01_remove_workspaces"

abbrev pub instance_delete_step_02_task : String
instance_delete_step_02_task = "coder_manager.instance.delete.step_02_remove_instance"

abbrev pub instance_delete_step_03_task : String
instance_delete_step_03_task = "coder_manager.instance.delete.step_03_remove_schema"

abbrev pub instance_delete_step_04_task : String
instance_delete_step_04_task = "coder_manager.instance.delete.step_04_remove_local_configuration"

abbrev pub workspace_create_step_01_task : String
workspace_create_step_01_task = "coder_manager.workspace.create.step_01_create_workspace"

abbrev pub workspace_update_step_01_task : String
workspace_update_step_01_task = "coder_manager.workspace.update.step_01_update_workspace"

abbrev pub workspace_delete_step_01_task : String
workspace_delete_step_01_task = "coder_manager.workspace.delete.step_01_delete_workspace"

abbrev pub database_sync_step_01_task : String
database_sync_step_01_task = "coder_manager.database.sync.step_01_sync_database"

abbrev pub template_sync_step_01_task : String
template_sync_step_01_task = "coder_manager.template.sync.step_01_sync_template"

abbrev pub template_assignment_create_step_01_task : String
template_assignment_create_step_01_task = "coder_manager.template.create.step_01_create_template"

abbrev pub template_assignment_delete_step_01_task : String
template_assignment_delete_step_01_task = "coder_manager.template.delete.step_01_delete_template"

-- REGISTERED_STEP_NAMES
unfoldable pub registered_step_names : List String
registered_step_names =
    instance_create_step_01_task ∷ instance_create_step_02_task ∷ instance_create_step_03_task
    ∷ instance_update_step_01_task ∷ instance_update_step_02_task ∷ instance_start_step_01_task
    ∷ instance_stop_step_01_task ∷ instance_stop_step_02_task ∷ instance_delete_step_01_task
    ∷ instance_delete_step_02_task ∷ instance_delete_step_03_task ∷ instance_delete_step_04_task
    ∷ workspace_create_step_01_task ∷ workspace_update_step_01_task ∷ workspace_delete_step_01_task
    ∷ database_sync_step_01_task ∷ template_sync_step_01_task
    ∷ template_assignment_create_step_01_task ∷ template_assignment_delete_step_01_task ∷ []

-- `RESOURCE_ACTIONS.get(name)`
unfoldable pub expected_action : String → Option String
expected_action name =
    if name == "instance.create"
    then some "creating"
    else if name == "instance.update"
    then some "updating"
    else if name == "instance.start"
    then some "starting"
    else if name == "instance.stop"
    then some "stopping"
    else if name == "instance.delete"
    then some "deleting"
    else if name == "template.sync"
    then some "syncing"
    else if name == "template_assignment.create"
    then some "creating"
    else if name == "template_assignment.delete"
    then some "deleting"
    else if name == "workspace.create"
    then some "creating"
    else if name == "workspace.update"
    then some "updating"
    else if name == "workspace.delete"
    then some "deleting"
    else none

-- Celery, as the dispatcher sees it: the tasks that are loaded, and the broker's answer to
-- `task.delay`, which raises or not.
pub record Celery : Type 0 where
  pub is_loaded : String → Bool
  pub accepts : String → ℕ → Bool

-- The messages handed to the broker: a task's name and a job's identifier, the latest first.
abbrev pub Queue : Type 0
Queue = List (String × ℕ)

-- The result says whether the broker accepted the message.
unfoldable pub dispatch_registered_step : Celery → String → ℕ → Queue → Bool × Queue
unfolding registered_step_names
dispatch_registered_step celery task_name job_id queue =
    if contains registered_step_names task_name
    then (if celery.is_loaded task_name && celery.accepts task_name job_id
        then (true, (task_name, job_id) ∷ queue)
        else (false, queue))
    else (false, queue)
