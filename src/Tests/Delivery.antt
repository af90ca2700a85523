-- ===== src/Tests/Delivery.antt =====
-- A history that goes on to a workspace: the template of a published assignment gets an image, a
-- member joins the instance, the workers write the member and the deployment, and a workspace of the
-- member is requested and claimed.
use coder_manager.Base.{
  ◌≡◌, refl, true, false, none, some, nat_eq, string_eq, option_eq, list_eq, keep_keys, arith, [],
  ◌∷◌, add, find, modify, exists_where,
}
use coder_manager.Model.{
  Db, user, instance_kind, template_kind, assignment_kind, workspace_kind, lifecycle_of,
  modify_lifecycle, modify_job,
}
use coder_manager.Jobs.Registry.{
  expected_action, instance_update_step_01, instance_update_step_01_task,
  workspace_create_step_01_task,
}
use coder_manager.Jobs.Execution.{
  ExecutionClaim, ok, no_mutation, claimable, claim_execution, complete_execution, owned_execution,
  resource_for_job, resource_matches, on_resource, model_of,
}
use coder_manager.Jobs.Consistency.Settling.{IsConsistent, KeptLinks}
use coder_manager.Jobs.Consistency.Transactions.{KeepsLinks}
use coder_manager.Repositories.Reply.{Reply, accepted, refused}
use coder_manager.Repositories.Jobs.{add_job_execution, has_active_template_assignment}
use coder_manager.Repositories.Images.{ImageCreate, new_image}
use coder_manager.Repositories.Images as Images
use coder_manager.Repositories.Instances.Creation.{place}
use coder_manager.Repositories.Assignments.{create_assignment}
use coder_manager.Repositories.Members.{
  create, request_instance_update, lock_available_instance, username_is_taken,
}
use coder_manager.Repositories.Members.Changes.{Change, change}
use coder_manager.Repositories.Workspaces.Requests.{Collation, WorkspaceCreate, WorkspaceError}
use coder_manager.Repositories.Workspaces.Requests as Requests
use coder_manager.Repositories.Workspaces.Parameters.{
  resolve_parameters, unknown_is_kept, resolve_all,
}
use coder_manager.Repositories.Workspaces.Staging.{Request, perform}
use coder_manager.Tasks.Updating.{store_application_name}
use coder_manager.Tasks.Marking.{mark_created}
use coder_manager.Program.{
  History, request, transaction, empty, image_creation, member_change, workspace_request, claim,
  complete, write,
}
use coder_manager.Program.Consistency.{History-IsConsistent}
use coder_manager.Tests.Data.{ready_member, deployed}
use coder_manager.Tests.Histories.{left, published, published-History}

abbrev image : ImageCreate
image = record { registry = "docker.io"; name = "python"; version = "3" }

abbrev pictured : Db
pictured = record published { images = (5, new_image 2 image) ∷ [] }

published-pictured : Images.create 5 2 image published ≡ accepted pictured
unfolding complete_execution claim_execution claimable owned_execution resource_for_job
    resource_matches on_resource model_of expected_action place add_job_execution
    store_application_name lifecycle_of modify_lifecycle modify_job find modify add
    create_assignment mark_created create request_instance_update lock_available_instance
    has_active_template_assignment username_is_taken exists_where Images.create
published-pictured = refl

-- What an accepted request leaves.
abbrev left_by {ℓ} : {E : Type ℓ} → Reply E Db → Db
left_by (accepted db) = db
left_by (refused e) = empty

abbrev joining : Db
joining = left_by (change (Change.creation "ada" user) 6 14 1 pictured)

pictured-joining : change (Change.creation "ada" user) 6 14 1 pictured ≡ accepted joining
unfolding complete_execution claim_execution claimable owned_execution resource_for_job
    resource_matches on_resource model_of expected_action place add_job_execution
    store_application_name lifecycle_of modify_lifecycle modify_job find modify add
    create_assignment mark_created create request_instance_update lock_available_instance
    has_active_template_assignment username_is_taken exists_where
pictured-joining = refl

fresh_14 : find 14 pictured.jobs ≡ none
unfolding complete_execution claim_execution claimable owned_execution resource_for_job
    resource_matches on_resource model_of expected_action place add_job_execution
    store_application_name lifecycle_of modify_lifecycle modify_job find modify add
    create_assignment mark_created create request_instance_update lock_available_instance
    has_active_template_assignment username_is_taken exists_where
fresh_14 = refl

abbrev updating : Db
updating = (claim_execution 14 instance_update_step_01_task 7 joining).0

abbrev of_update : ExecutionClaim
of_update = record {
  job_id = 14;
  task_name = instance_update_step_01_task;
  step = instance_update_step_01;
  attempt = 1;
  resource_type = some "instance";
  resource_id = some 1;
}

abbrev joined : Db
joined = left (complete_execution of_update no_mutation false updating)

updating-joined : complete_execution of_update no_mutation false updating ≡ ok (joined, true)
unfolding complete_execution claim_execution claimable owned_execution resource_for_job
    resource_matches on_resource model_of expected_action place add_job_execution
    store_application_name lifecycle_of modify_lifecycle modify_job find modify add
    create_assignment mark_created create request_instance_update lock_available_instance
    has_active_template_assignment username_is_taken exists_where
updating-joined = refl

-- The member and the deployment, as the workers leave them.
abbrev stocked : Db
stocked = record joined { members = (6, ready_member) ∷ []; deployments = (30, deployed) ∷ [] }

joined-stocked : KeptLinks joined stocked
unfolding lifecycle_of
joined-stocked instance_kind i l row = (l, row, refl, refl)
joined-stocked template_kind i l row = (l, row, refl, refl)
joined-stocked assignment_kind i l row = (l, row, refl, refl)
joined-stocked workspace_kind i l row = (l, row, refl, refl)

abbrev collation : Collation
collation = record { lower = λ s. s; order_by_name = λ parameters. parameters }

abbrev work : WorkspaceCreate
work = record {
  name = "work";
  instance_id = 1;
  template_id = 2;
  member_id = 6;
  image_id = 5;
  modules = [];
  parameters = [];
}

abbrev demanded : Db
demanded = left_by (Requests.create collation 4 15 work stocked)

stocked-demanded :
    perform collation (Request.creation work) 15 4 stocked ≡ accepted (demanded, true)
unfolding complete_execution claim_execution claimable owned_execution resource_for_job
    resource_matches on_resource model_of expected_action place add_job_execution
    store_application_name lifecycle_of modify_lifecycle modify_job find modify add
    create_assignment mark_created create request_instance_update lock_available_instance
    has_active_template_assignment username_is_taken exists_where Requests.create
    Requests.lock_available_instance Requests.lock_template Requests.require_remote_template
    Requests.validate_owner Requests.validate_image Requests.validate_modules
    Requests.user_parameters Requests.name_is_taken resolve_parameters unknown_is_kept resolve_all
    keep_keys
stocked-demanded = refl

fresh_15 : find 15 stocked.jobs ≡ none
unfolding complete_execution claim_execution claimable owned_execution resource_for_job
    resource_matches on_resource model_of expected_action place add_job_execution
    store_application_name lifecycle_of modify_lifecycle modify_job find modify add
    create_assignment mark_created create request_instance_update lock_available_instance
    has_active_template_assignment username_is_taken exists_where
fresh_15 = refl

no_mutation-KeepsLinks : KeepsLinks no_mutation
no_mutation-KeepsLinks r db db' e k i l row = (l, ground (arith, e, row), refl, refl)

claimed-History : History empty (claim_execution 15 workspace_create_step_01_task 8 demanded).0
claimed-History =
    transaction
      (request
        (transaction
          (transaction
            (transaction
              (request
                (request published-History (image_creation 5 2 image pictured published-pictured))
                (member_change (Change.creation "ada" user) 6 14 1 joining fresh_14
                  pictured-joining))
              (claim 14 instance_update_step_01_task 7))
            (complete of_update no_mutation false joined true (λ r db db' e. ground arith)
              no_mutation-KeepsLinks updating-joined))
          (write stocked refl joined-stocked))
        (workspace_request collation (Request.creation work) 15 4 demanded true fresh_15
          stocked-demanded))
      (claim 15 workspace_create_step_01_task 8)

History-IsConsistent_example :
    IsConsistent (claim_execution 15 workspace_create_step_01_task 8 demanded).0
History-IsConsistent_example =
    History-IsConsistent (claim_execution 15 workspace_create_step_01_task 8 demanded).0
      claimed-History
