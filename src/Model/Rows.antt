-- ===== src/Model/Rows.antt =====
-- The tables of src/coder_manager/models, with the columns that the modelled code reads or writes.
-- The `created_at` and `updated_at` columns, which nothing modelled reads, descriptive text and
-- relationships are left out.
use coder_manager.Base.{
  ℕ, ◌≡◌, ◌↔◌, Bool, true, false, String, Option, List, Table, Equality, arith,
}

-- The four values that JobStatus, InstanceStatus, WorkspaceStatus, MemberStatus,
-- TemplateAssignmentStatus, TemplateSyncStatus and TemplateDeploymentStatus all have.
pub data Status : Type 0 where
  pending running success error : Status

abbrev pub status_beq : Status → Status → Bool
status_beq pending pending = true
status_beq running running = true
status_beq success success = true
status_beq error error = true
status_beq _ _ = false

pub status_beq_iff : (a b : Status) → (status_beq a b ≡ true) ↔ (a ≡ b)
status_beq_iff a b = ground arith

instance abbrev pub status_eq : Equality Status
status_eq = record { equals = status_beq; equals_iff = status_beq_iff }

pub data InstanceState : Type 0 where
  started stopped : InstanceState

abbrev pub state_beq : InstanceState → InstanceState → Bool
state_beq started started = true
state_beq stopped stopped = true
state_beq _ _ = false

pub state_beq_iff : (a b : InstanceState) → (state_beq a b ≡ true) ↔ (a ≡ b)
state_beq_iff a b = ground arith

instance abbrev pub state_eq : Equality InstanceState
state_eq = record { equals = state_beq; equals_iff = state_beq_iff }

pub data MemberRole : Type 0 where
  user admin : MemberRole

abbrev pub role_beq : MemberRole → MemberRole → Bool
role_beq user user = true
role_beq admin admin = true
role_beq _ _ = false

pub role_beq_iff : (a b : MemberRole) → (role_beq a b ≡ true) ↔ (a ≡ b)
role_beq_iff a b = ground arith

instance abbrev pub role_eq : Equality MemberRole
role_eq = record { equals = role_beq; equals_iff = role_beq_iff }

pub record JobExecution : Type 0 where
  pub name : String
  pub task_name : String
  pub resource_type : Option String
  pub resource_id : Option ℕ
  pub step : String
  pub status : Status
  pub attempt : ℕ
  pub claimed_at : Option ℕ

-- The columns that the four kinds of resource share. A template's `sync_status` is its `status`.
pub record Lifecycle : Type 0 where
  pub action : String
  pub status : Status
  pub job_id : Option ℕ
  pub step : Option String

pub record Instance : Type 0 where
  pub lifecycle : Lifecycle
  pub open lifecycle use *
  pub application : String
  pub slug : String
  pub state : InstanceState
  pub password_enc : Option ℕ
  pub password_candidate_enc : Option ℕ
  pub argocd_application_name : Option String

pub record Template : Type 0 where
  pub lifecycle : Lifecycle
  pub open lifecycle use *
  pub display_name : String
  pub name : String
  pub git_url : String
  pub source_path : String
  pub branch : String
  pub modules : List String
  pub system_parameter_revision : ℕ

pub record TemplateAssignment : Type 0 where
  pub lifecycle : Lifecycle
  pub open lifecycle use *
  pub template_id : ℕ
  pub instance_id : ℕ

pub record Workspace : Type 0 where
  pub lifecycle : Lifecycle
  pub open lifecycle use *
  pub name : String
  pub instance_id : ℕ
  pub template_id : ℕ
  pub member_id : ℕ
  pub image_id : ℕ
  pub modules : List String
  pub parameters : List (String × String)
  pub parameters_revision : ℕ
  pub applied_parameters_revision : Option ℕ
  pub coder_workspace_id : Option ℕ
  pub coder_workspace_build_id : Option ℕ

pub record Member : Type 0 where
  pub instance_id : ℕ
  pub username : String
  pub role : MemberRole
  pub action : String
  pub status : Status

pub record TemplateDeployment : Type 0 where
  pub assignment_id : ℕ
  pub coder_organization_id : Option ℕ
  pub coder_template_id : Option ℕ
  pub coder_template_version_id : Option ℕ
  pub target_commit : Option String
  pub applied_commit : Option String
  pub target_system_parameter_revision : Option ℕ
  pub applied_system_parameter_revision : Option ℕ
  pub status : Status

pub record Database : Type 0 where
  pub name : String
  pub instance_max : ℕ
  pub host : String
  pub port : ℕ
  pub database_name : String
  pub username : String
  pub password_enc : ℕ

pub record DatabaseAllocation : Type 0 where
  pub database_id : ℕ
  pub instance_id : ℕ
  pub schema_name : String

pub record TemplateImage : Type 0 where
  pub template_id : ℕ
  pub registry_name : String
  pub name : String
  pub version : String

pub data TemplateParameterType : Type 0 where
  user_type system_type : TemplateParameterType

-- `required`, `mutable` and `default_value` are of use for a user parameter, `value_enc` (the row
-- of `template_parameter_system_values`) for a system one.
pub record TemplateParameter : Type 0 where
  pub template_id : ℕ
  pub type : TemplateParameterType
  pub name : String
  pub required : Bool
  pub mutable : Bool
  pub default_value : Option String
  pub value_enc : Option ℕ

pub record Db : Type 0 where
  pub jobs : Table JobExecution
  pub instances : Table Instance
  pub templates : Table Template
  pub assignments : Table TemplateAssignment
  pub workspaces : Table Workspace
  pub members : Table Member
  pub deployments : Table TemplateDeployment
  pub databases : Table Database
  pub allocations : Table DatabaseAllocation
  pub images : Table TemplateImage
  pub parameters : Table TemplateParameter
  -- The encrypted kubeconfig of an instance, by its identifier.
  pub kubernetes : Table ℕ
