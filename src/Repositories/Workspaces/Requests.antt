-- ===== src/Repositories/Workspaces/Requests.antt =====
-- `create`, `update` and `request_deletion` of the workspaces, with their guards.
use coder_manager.Base.{
  list_eq, ℕ, ◌+◌, Bool, true, false, not, ◌&&◌, ◌||◌, String, Option, none, some, ◌==◌, nat_eq,
  string_eq, option_eq, List, [], ◌∷◌, Table, all, contains, lookup, find, add, modify,
  exists_where, if◌then◌else◌,
}
use coder_manager.Model.{
  pending, success, status_eq, Instance, Template, TemplateAssignment, TemplateParameter,
  TemplateParameterType, user_type, system_type, Workspace, Db, modify_lifecycle, workspace_kind,
}
use coder_manager.Jobs.Registry.{
  workspace_create_step_01, workspace_create_step_01_task, workspace_update_step_01,
  workspace_update_step_01_task, workspace_delete_step_01, workspace_delete_step_01_task,
}
use coder_manager.Repositories.Reply.{Reply, accepted, refused, ◌>>=◌, ◌>>◌, refuse_if, found_or}
use coder_manager.Repositories.Jobs.{add_job_execution, in_progress, requested}
use coder_manager.Repositories.Workspaces.Parameters.{
  ParameterError, configuration, immutable, Values, resolve_parameters,
}

pub data WorkspaceError : Type 0 where
  already_exists not_found instance_not_found instance_busy template_not_found : WorkspaceError
  member_not_found member_unavailable image_not_found image_unavailable : WorkspaceError
  configuration_error parameter_immutable template_not_deployed busy : WorkspaceError

unfoldable pub lock_available_instance : ℕ → Db → Reply WorkspaceError Instance
lock_available_instance instance_id db = do
  i ← found_or (find instance_id db.instances) instance_not_found
  refuse_if (not (i.status == success)) instance_busy
  accepted i

unfoldable pub lock_template : ℕ → Db → Reply WorkspaceError Template
lock_template template_id db = found_or (find template_id db.templates) template_not_found

unfoldable pub validate_owner : ℕ → ℕ → Db → Reply WorkspaceError (Unit {0})
validate_owner member_id instance_id db = do
  m ← found_or (find member_id db.members) member_not_found
  refuse_if (not (m.instance_id == instance_id) || not (m.status == success)) member_unavailable

unfoldable pub validate_image : ℕ → ℕ → Db → Reply WorkspaceError (Unit {0})
validate_image image_id template_id db = do
  image ← found_or (find image_id db.images) image_not_found
  refuse_if (not (image.template_id == template_id)) image_unavailable

unfoldable pub lock_workspace : ℕ → Db → Reply WorkspaceError Workspace
lock_workspace workspace_id db = found_or (find workspace_id db.workspaces) not_found

unfoldable pub ensure_workspace_available : Workspace → Reply WorkspaceError (Unit {0})
ensure_workspace_available w = refuse_if (in_progress w.status) busy

unfoldable pub validate_modules : Template → List String → Reply WorkspaceError (Unit {0})
validate_modules t modules = refuse_if (not (all (contains t.modules) modules)) configuration_error

-- The rows that the query of `_require_remote_template` joins, tested from the deployment's side.
abbrev pub is_deployed_to : ℕ → ℕ → Option TemplateAssignment → Option Template → Bool
is_deployed_to template_id instance_id none t = false
is_deployed_to template_id instance_id (some a) none = false
is_deployed_to template_id instance_id (some a) (some t) =
    a.template_id == template_id
    && a.instance_id == instance_id
    && a.action == "created"
    && a.status == success
    && t.status == success

abbrev pub assigned_template : Option TemplateAssignment → Db → Option Template
assigned_template none db = none
assigned_template (some a) db = find a.template_id db.templates

unfoldable pub require_remote_template : ℕ → ℕ → Db → Reply WorkspaceError (Unit {0})
require_remote_template template_id instance_id db =
    refuse_if
      (not (
        exists_where
          (λ _ d.
            not (d.coder_template_id == none)
            && is_deployed_to template_id instance_id (find d.assignment_id db.assignments)
                (assigned_template (find d.assignment_id db.assignments) db))
          db.deployments))
      template_not_deployed

abbrev pub is_user : TemplateParameterType → Bool
is_user user_type = true
is_user system_type = false

-- The definitions that `_resolve_parameters` selects, before they are ordered.
unfoldable pub user_parameters : ℕ → Table TemplateParameter → List TemplateParameter
user_parameters template_id [] = []
user_parameters template_id ((_, p) ∷ rest) =
    let others = user_parameters template_id rest in
    if p.template_id == template_id && is_user p.type then p ∷ others else others

abbrev pub as_workspace_error : ParameterError → WorkspaceError
as_workspace_error configuration = configuration_error
as_workspace_error immutable = parameter_immutable

abbrev pub of_parameters : Reply ParameterError Values → Reply WorkspaceError Values
of_parameters (accepted values) = accepted values
of_parameters (refused e) = refused (as_workspace_error e)

-- Python's `==` on dictionaries, which does not look at the order.
unfoldable pub same_values : Values → Values → Bool
same_values a b = all (λ (k, v). lookup k b == some v) a && all (λ (k, v). lookup k a == some v) b

pub record WorkspaceCreate : Type 0 where
  pub name : String
  pub instance_id : ℕ
  pub template_id : ℕ
  pub member_id : ℕ
  pub image_id : ℕ
  pub modules : List String
  pub parameters : Values

pub record WorkspaceUpdate : Type 0 where
  pub name : String
  pub image_id : ℕ
  pub modules : List String
  pub parameters : Values

abbrev pub new_workspace : ℕ → WorkspaceCreate → Values → Workspace
new_workspace job_id payload parameters = record {
  lifecycle = record {
    action = "creating";
    status = pending;
    job_id = some job_id;
    step = some workspace_create_step_01;
  };
  name = payload.name;
  instance_id = payload.instance_id;
  template_id = payload.template_id;
  member_id = payload.member_id;
  image_id = payload.image_id;
  modules = payload.modules;
  parameters = parameters;
  parameters_revision = 0;
  applied_parameters_revision = none;
  coder_workspace_id = none;
  coder_workspace_build_id = none;
}

abbrev pub is_changed : Workspace → WorkspaceUpdate → Values → Bool
is_changed w payload parameters =
    not (w.name == payload.name)
    || not (w.image_id == payload.image_id)
    || not (w.modules == payload.modules)
    || not (same_values w.parameters parameters)

abbrev pub updated : Workspace → WorkspaceUpdate → Values → ℕ → Workspace
updated w payload parameters job_id = record w {
  lifecycle = requested "updating" job_id workspace_update_step_01 w.lifecycle;
  name = payload.name;
  image_id = payload.image_id;
  modules = payload.modules;
  parameters = if same_values w.parameters parameters then w.parameters else parameters;
  parameters_revision =
      if same_values w.parameters parameters
      then w.parameters_revision
      else w.parameters_revision + 1;
}

-- The text functions of the database: `lower`, behind the unique index on an instance and a
-- workspace's name, and the order of the parameters by their names.
pub record Collation : Type 0 where
  pub lower : String → String
  pub order_by_name : List TemplateParameter → List TemplateParameter

module _ (collation : Collation) where
  -- Whether another workspace of the instance has the name: the commit fails then.
  unfoldable pub name_is_taken : ℕ → ℕ → String → Db → Bool
  name_is_taken workspace_id instance_id name db =
      exists_where
        (λ id w.
          not (id == workspace_id)
          && w.instance_id == instance_id
          && collation.lower w.name == collation.lower name)
        db.workspaces

  unfoldable pub create : ℕ → ℕ → WorkspaceCreate → Db → Reply WorkspaceError Db
  create workspace_id job_id payload db = do
    _ ← lock_available_instance payload.instance_id db
    t ← lock_template payload.template_id db
    require_remote_template payload.template_id payload.instance_id db
    validate_owner payload.member_id payload.instance_id db
    validate_image payload.image_id payload.template_id db
    validate_modules t payload.modules
    parameters ← of_parameters (
        resolve_parameters
          (collation.order_by_name (user_parameters payload.template_id db.parameters))
          payload.parameters none)
    refuse_if (name_is_taken workspace_id payload.instance_id payload.name db) already_exists
    accepted (
        add_job_execution job_id "workspace.create" workspace_create_step_01_task (some "workspace")
          (some workspace_id) workspace_create_step_01
          (record db {
            workspaces = add workspace_id (new_workspace job_id payload parameters) db.workspaces;
          }))

  -- The reply says whether there is work for the worker.
  unfoldable pub update : ℕ → ℕ → WorkspaceUpdate → Db → Reply WorkspaceError (Db × Bool)
  update job_id workspace_id payload db = do
    w ← lock_workspace workspace_id db
    ensure_workspace_available w
    _ ← lock_available_instance w.instance_id db
    t ← lock_template w.template_id db
    require_remote_template w.template_id w.instance_id db
    validate_image payload.image_id w.template_id db
    validate_modules t payload.modules
    parameters ← of_parameters (
        resolve_parameters (collation.order_by_name (user_parameters w.template_id db.parameters))
          payload.parameters (some w.parameters))
    if not (is_changed w payload parameters) && w.status == success
        then accepted (db, false)
        else do
          refuse_if (name_is_taken workspace_id w.instance_id payload.name db) already_exists
          accepted (
            add_job_execution job_id "workspace.update" workspace_update_step_01_task
                (some "workspace") (some workspace_id) workspace_update_step_01
                (record db {
                  workspaces =
                      modify workspace_id (λ old. updated old payload parameters job_id)
                        db.workspaces;
                }),
            true,
          )

unfoldable pub request_deletion : ℕ → ℕ → Db → Reply WorkspaceError Db
request_deletion job_id workspace_id db = do
  w ← lock_workspace workspace_id db
  ensure_workspace_available w
  _ ← lock_available_instance w.instance_id db
  _ ← lock_template w.template_id db
  require_remote_template w.template_id w.instance_id db
  accepted (
      add_job_execution job_id "workspace.delete" workspace_delete_step_01_task (some "workspace")
        (some workspace_id) workspace_delete_step_01
        (modify_lifecycle workspace_kind workspace_id
          (requested "deleting" job_id workspace_delete_step_01) db))
