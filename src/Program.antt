-- ===== src/Program.antt =====
-- The program as one system: every transaction of tasks/common/execution.py and every request of the
-- repositories but `update_action`, each an atomic step on the database, in any order.
use coder_manager.Base.{
  ℕ, ◌≡◌, Bool, true, false, String, Option, none, some, List, [], ◌∷◌, find, nat_eq,
}
use coder_manager.Model.{Db, Kind, lifecycle_of}
use coder_manager.Jobs.Execution.{
  ExecutionClaim, Mutation, KeepsJobs, ok, claim_execution, persist_next_step, complete_execution,
  defer_execution, fail_execution, heartbeat_execution, prepare_execution_retry,
}
use coder_manager.Jobs.Consistency.Settling.{KeptLinks}
use coder_manager.Jobs.Consistency.Transactions.{KeepsLinks}
use coder_manager.Repositories.Reply.{accepted}
use coder_manager.Repositories.Databases.{DatabaseServices, DatabaseCreate, DatabaseUpdate}
use coder_manager.Repositories.Databases as Databases
use coder_manager.Repositories.Jobs.{create_system_job}
use coder_manager.Repositories.Images.{ImageCreate}
use coder_manager.Repositories.Images as Images
use coder_manager.Repositories.Kubernetes.{create_and_request_update}
use coder_manager.Repositories.Parameters.Revisions.{ParameterStep}
use coder_manager.Repositories.Instances.Creation.{Placement, NewIds}
use coder_manager.Repositories.Instances.Creation as Creation
use coder_manager.Repositories.Instances.Staging as Instances
use coder_manager.Repositories.Assignments as Assignments
use coder_manager.Repositories.Members.Changes as Members
use coder_manager.Repositories.Templates.{TemplateCreate, TemplateUpdate}
use coder_manager.Repositories.Templates as Templates
use coder_manager.Repositories.Workspaces.Requests.{Collation}
use coder_manager.Repositories.Workspaces.Staging as Workspaces
pub mod Settled
pub mod Consistency
pub mod Protocol
pub mod Requests
pub mod Refinement

-- An accepted request of the API. The job identifiers that `uuid4` returns are not in use.
pub data Request (db : Db) : Db → Type 0 where
  instance_creation :
      (placement : Placement) (ids : NewIds) (application : String) (draws : List String) (db' : Db)
      → find ids.job_id db.jobs ≡ none
      → Creation.create placement ids application draws db ≡ some (accepted db')
      → Request db db'
  instance_request :
      (q : Instances.Request) (job_id instance_id : ℕ) (db' : Db)
      → find job_id db.jobs ≡ none
      → Instances.perform q job_id instance_id db ≡ accepted db'
      → Request db db'
  instance_kubernetes :
      (job_id instance_id kubeconfig_enc : ℕ) (db' : Db)
      → find job_id db.jobs ≡ none
      → create_and_request_update job_id instance_id kubeconfig_enc db ≡ accepted db'
      → Request db db'
  assignment_put :
      (assignment_id job_id instance_id template_id id : ℕ) (db' : Db) (b : Bool)
      → find job_id db.jobs ≡ none
      → Assignments.put assignment_id job_id instance_id template_id db ≡ accepted (db', id, b)
      → Request db db'
  assignment_deletion :
      (job_id instance_id template_id : ℕ) (id : Option ℕ) (db' : Db) (b : Bool)
      → find job_id db.jobs ≡ none
      → Assignments.request_deletion job_id instance_id template_id db ≡ accepted (db', id, b)
      → Request db db'
  member_change :
      (x : Members.Change) (member_id job_id instance_id : ℕ) (db' : Db)
      → find job_id db.jobs ≡ none
      → Members.change x member_id job_id instance_id db ≡ accepted db'
      → Request db db'
  workspace_request :
      (collation : Collation) (q : Workspaces.Request) (job_id workspace_id : ℕ) (db' : Db)
      (b : Bool)
      → find job_id db.jobs ≡ none
      → Workspaces.perform collation q job_id workspace_id db ≡ accepted (db', b)
      → Request db db'
  template_creation :
      (lower : String → String) (id : ℕ) (payload : TemplateCreate) (db' : Db)
      → Templates.create lower id payload db ≡ accepted db'
      → Request db db'
  template_update :
      (id : ℕ) (payload : TemplateUpdate) (db' : Db)
      → Templates.update id payload db ≡ accepted db'
      → Request db db'
  template_deletion : (id : ℕ) (db' : Db) → Templates.remove id db ≡ accepted db' → Request db db'
  template_sync :
      (job_id id : ℕ) (db' : Db)
      → find job_id db.jobs ≡ none
      → Templates.request_sync job_id id db ≡ accepted db'
      → Request db db'
  parameter_request : (db' : Db) → ParameterStep db db' → Request db db'
  image_creation :
      (image_id template_id : ℕ) (payload : ImageCreate) (db' : Db)
      → Images.create image_id template_id payload db ≡ accepted db'
      → Request db db'
  image_deletion :
      (template_id image_id : ℕ) (db' : Db)
      → Images.remove template_id image_id db ≡ accepted db'
      → Request db db'
  database_creation :
      (services : DatabaseServices) (id : ℕ) (payload : DatabaseCreate) (db' : Db)
      → Databases.create services id payload db ≡ accepted db'
      → Request db db'
  database_update :
      (services : DatabaseServices) (id : ℕ) (payload : DatabaseUpdate) (db' : Db)
      → Databases.update services id payload db ≡ accepted db'
      → Request db db'
  database_deletion : (id : ℕ) (db' : Db) → Databases.remove id db ≡ accepted db' → Request db db'
  system_job :
      (job_id : ℕ) (name task_name step : String)
      → find job_id db.jobs ≡ none
      → Request db (create_system_job job_id name task_name step db)

-- A transaction of a worker, by the holder of any claim. Its callback touches no job, and keeps the
-- job and the status of each row that it leaves; steps, actions and all other columns are free, and
-- so are the other tables. A worker's own write (of the deployments, the members that it claims, the
-- identifiers that Coder answers) is one of the same kind.
pub data Transaction (db : Db) : Db → Type 0 where
  claim : (id : ℕ) (task : String) (now : ℕ) → Transaction db (claim_execution id task now db).0
  advance :
      (c : ExecutionClaim) (task step : String) (mutate : Mutation) (db' : Db) (b : Bool)
      → KeepsJobs mutate
      → KeepsLinks mutate
      → persist_next_step c task step mutate db ≡ ok (db', b)
      → Transaction db db'
  complete :
      (c : ExecutionClaim) (mutate : Mutation) (gone : Bool) (db' : Db) (b : Bool)
      → KeepsJobs mutate
      → KeepsLinks mutate
      → complete_execution c mutate gone db ≡ ok (db', b)
      → Transaction db db'
  defer :
      (c : ExecutionClaim) (mutate : Mutation) (db' : Db) (b : Bool)
      → KeepsJobs mutate
      → KeepsLinks mutate
      → defer_execution c mutate db ≡ ok (db', b)
      → Transaction db db'
  fail :
      (c : ExecutionClaim) (mutate : Db → Db)
      → ((d : Db) → (mutate d).jobs ≡ d.jobs)
      → ((d : Db) → KeptLinks d (mutate d))
      → Transaction db (fail_execution c mutate db)
  write : (db' : Db) → db'.jobs ≡ db.jobs → KeptLinks db db' → Transaction db db'
  heartbeat : (c : ExecutionClaim) (now : ℕ) → Transaction db (heartbeat_execution c now db).0
  retry : (id stale_before : ℕ) → Transaction db (prepare_execution_retry id stale_before db).0

-- What the program can do to the database in any number of steps.
pub data History (db : Db) : Db → Type 0 where
  start : History db db
  request : {mid db' : Db} → History db mid → Request mid db' → History db db'
  transaction : {mid db' : Db} → History db mid → Transaction mid db' → History db db'

-- The database after the first migration.
abbrev pub empty : Db
empty = record {
  jobs = [];
  instances = [];
  templates = [];
  assignments = [];
  workspaces = [];
  members = [];
  deployments = [];
  databases = [];
  allocations = [];
  images = [];
  parameters = [];
  kubernetes = [];
}
