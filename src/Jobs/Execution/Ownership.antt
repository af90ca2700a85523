-- ===== src/Jobs/Execution/Ownership.antt =====
-- ExecutionClaim, `_resource_for_job`, `_resource_matches` and `owned_execution`.
use coder_manager.Base.{
  ℕ, Bool, true, false, ◌&&◌, String, Option, none, some, ◌==◌, nat_eq, string_eq, option_eq, find,
  ◌>>=◌, ◌>>◌, require, if◌then◌else◌,
}
use coder_manager.Model.{
  Status, running, status_eq, JobExecution, Lifecycle, Db, Kind, instance_kind, template_kind,
  assignment_kind, workspace_kind, lifecycle_of, modify_lifecycle,
}
use coder_manager.Jobs.Registry.{expected_action}

pub record ExecutionClaim : Type 0 where
  pub job_id : ℕ
  pub task_name : String
  pub step : String
  pub attempt : ℕ
  pub resource_type : Option String
  pub resource_id : Option ℕ

-- A loaded row of one of the four resource tables.
pub record Resource : Type 0 where
  pub kind : Kind
  pub id : ℕ
  pub row : Lifecycle

-- The dictionary in `_resource_for_job`.
unfoldable pub model_of : String → Option Kind
model_of resource_type =
    if resource_type == "instance"
    then some instance_kind
    else if resource_type == "template"
    then some template_kind
    else if resource_type == "template_assignment"
    then some assignment_kind
    else if resource_type == "workspace"
    then some workspace_kind
    else none

unfoldable pub resource_for_job : Db → JobExecution → Option Resource
resource_for_job db job = do
  resource_type ← job.resource_type
  id ← job.resource_id
  kind ← model_of resource_type
  row ← lifecycle_of kind id db
  some (record { kind = kind; id = id; row = row })

-- Whether the resource still owns this exact job step. The job's identifier is its primary key.
unfoldable pub resource_matches : ℕ → JobExecution → Option Resource → Bool
resource_matches job_id job resource = elim job.resource_type [
  | none ↦ true
  | some _ ↦ elim resource [
    | none ↦ false
    | some r ↦ elim (expected_action job.name) [
      | none ↦ false
      | some action ↦
          r.row.job_id == some job_id && r.row.action == action && r.row.step == some job.step
    ]
  ]
]

-- An update of the loaded resource, if there is one: the `isinstance` ladders.
unfoldable pub on_resource : Option Resource → (Lifecycle → Lifecycle) → Db → Db
on_resource none f db = db
on_resource (some r) f db = modify_lifecycle r.kind r.id f db

abbrev pub set_status : Status → Lifecycle → Lifecycle
set_status s l = record l { status = s }

unfoldable pub owned_execution : Db → ExecutionClaim → Option (JobExecution × Option Resource)
owned_execution db claim = do
  job ← find claim.job_id db.jobs
  require (
      job.task_name == claim.task_name
      && job.step == claim.step
      && job.attempt == claim.attempt
      && job.status == running)
  let resource = resource_for_job db job
  require (resource_matches claim.job_id job resource)
  some (job, resource)
