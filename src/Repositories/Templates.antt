-- ===== src/Repositories/Templates.antt =====
-- TemplateRepository (repositories/templates.py), without its reads.
use mathlib.Core.Option
use coder_manager.Base.{
  ℕ, Bool, true, false, not, ◌&&◌, ◌||◌, String, Option, none, some, ◌==◌, nat_eq, string_eq, List,
  list_eq, Table, all, contains, find, add, modify, delete, delete_where, exists_where,
  if◌then◌else◌,
}
use coder_manager.Model.{
  success, JobExecution, Lifecycle, Template, TemplateAssignment, Workspace, Db, template_kind,
  modify_lifecycle, delete_resource,
}
use coder_manager.Jobs.Registry.{template_sync_step_01, template_sync_step_01_task}
use coder_manager.Repositories.Reply.{Reply, accepted, ◌>>=◌, ◌>>◌, refuse_if, found_or}
use coder_manager.Repositories.Jobs.{add_job_execution, is_retryable, requested}
pub mod Catalog
pub mod Discarding
pub mod Fitting
pub mod Linking
pub mod Modules

-- The exceptions of the module, and the refusal of a RESTRICT foreign key, which it does not catch.
pub data TemplateError : Type 0 where
  already_exists not_found has_assignments workspace_compatibility : TemplateError
  sync_in_progress assignments_in_progress workspaces_in_progress : TemplateError
  restricted : TemplateError

pub record TemplateCreate : Type 0 where
  pub display_name : String
  pub name : String
  pub git_url : String
  pub source_path : String
  pub branch : String
  pub modules : List String

pub record TemplateUpdate : Type 0 where
  pub display_name : String
  pub git_url : String
  pub source_path : String
  pub branch : String
  pub modules : List String

-- `template.job_id = None`
abbrev pub unlinked : Lifecycle → Lifecycle
unlinked l = record l { job_id = none }

-- `_discard_current_job`
unfoldable pub discard_current_job : ℕ → Template → Db → Db
discard_current_job template_id t db = elim t.job_id [
  | none ↦ db
  | some job_id ↦
      let free = modify_lifecycle template_kind template_id unlinked db in
      record free { jobs = delete job_id free.jobs }
]

unfoldable pub ensure_no_active_assignments : ℕ → Db → Reply TemplateError (Unit {0})
ensure_no_active_assignments template_id db =
    refuse_if
      (exists_where (λ _ a. a.template_id == template_id && is_retryable a.status) db.assignments)
      assignments_in_progress

unfoldable pub ensure_no_active_workspaces : ℕ → Db → Reply TemplateError (Unit {0})
ensure_no_active_workspaces template_id db =
    refuse_if
      (exists_where (λ _ w. w.template_id == template_id && is_retryable w.status) db.workspaces)
      workspaces_in_progress

abbrev pub new_template : TemplateCreate → Template
new_template payload = record {
  lifecycle = record { action = "created"; status = success; job_id = none; step = none };
  display_name = payload.display_name;
  name = payload.name;
  git_url = payload.git_url;
  source_path = payload.source_path;
  branch = payload.branch;
  modules = payload.modules;
  system_parameter_revision = 0;
}

-- `create`, under the identifier of `uuid4`; `lower` is the database's, behind the unique index.
unfoldable pub create : (String → String) → ℕ → TemplateCreate → Db → Reply TemplateError Db
create lower template_id payload db = do
  refuse_if (exists_where (λ _ t. lower t.name == lower payload.name) db.templates) already_exists
  accepted (record db { templates = add template_id (new_template payload) db.templates })

abbrev pub is_changed : Template → TemplateUpdate → Bool
is_changed t payload =
    not (t.display_name == payload.display_name)
    || not (t.git_url == payload.git_url)
    || not (t.source_path == payload.source_path)
    || not (t.branch == payload.branch)
    || not (t.modules == payload.modules)

-- A workspace of the template that uses a module which is no longer allowed.
abbrev pub is_invalidated : ℕ → List String → ℕ → Workspace → Bool
is_invalidated template_id modules _ w =
    w.template_id == template_id && not (all (contains modules) w.modules)

abbrev pub replaced : TemplateUpdate → Template → Template
replaced payload t = record t {
  display_name = payload.display_name;
  git_url = payload.git_url;
  source_path = payload.source_path;
  branch = payload.branch;
  modules = payload.modules;
}

abbrev pub settled : Lifecycle → Lifecycle
settled l = record l { action = "updated"; status = success; step = none }

abbrev pub apply_update : ℕ → Template → TemplateUpdate → Db → Db
apply_update template_id t payload db = modify_lifecycle template_kind template_id settled (
    discard_current_job template_id t
      (record db { templates = modify template_id (replaced payload) db.templates }))

unfoldable pub update : ℕ → TemplateUpdate → Db → Reply TemplateError Db
update template_id payload db = do
  t ← found_or (find template_id db.templates) not_found
  refuse_if (is_retryable t.status) sync_in_progress
  ensure_no_active_assignments template_id db
  ensure_no_active_workspaces template_id db
  if not (is_changed t payload) then accepted db else do
    refuse_if (exists_where (is_invalidated template_id payload.modules) db.workspaces)
        workspace_compatibility
    accepted (apply_update template_id t payload db)

-- The rows that go with the template, which no workspace may still refer to.
abbrev pub remove_template : ℕ → Db → Db
remove_template template_id db = delete_resource template_kind template_id (record db {
  images = delete_where (λ _ i. i.template_id == template_id) db.images;
  parameters = delete_where (λ _ p. p.template_id == template_id) db.parameters;
})

-- `delete`
unfoldable pub remove : ℕ → Db → Reply TemplateError Db
remove template_id db = do
  t ← found_or (find template_id db.templates) not_found
  refuse_if (is_retryable t.status) sync_in_progress
  refuse_if (exists_where (λ _ a. a.template_id == template_id) db.assignments) has_assignments
  refuse_if (exists_where (λ _ w. w.template_id == template_id) db.workspaces) restricted
  accepted (remove_template template_id (discard_current_job template_id t db))

unfoldable pub request_sync : ℕ → ℕ → Db → Reply TemplateError Db
request_sync job_id template_id db = do
  t ← found_or (find template_id db.templates) not_found
  refuse_if (is_retryable t.status) sync_in_progress
  ensure_no_active_assignments template_id db
  ensure_no_active_workspaces template_id db
  accepted (
      modify_lifecycle template_kind template_id (requested "syncing" job_id template_sync_step_01)
        (add_job_execution job_id "template.sync" template_sync_step_01_task (some "template")
          (some template_id) template_sync_step_01 (discard_current_job template_id t db)))
