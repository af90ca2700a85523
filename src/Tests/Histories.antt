-- ===== src/Tests/Histories.antt =====
-- A history in which a template is assigned to an instance: both are created, the assignment is put,
-- its job is claimed and completed with `_mark_created`, and its deletion is begun.
use mathlib.Core.Option
use coder_manager.Base.{
  ◌≡◌, refl, inl, Bool, true, false, none, some, nat_eq, string_eq, option_eq, [], ◌∷◌, add, find,
  modify, exists_where, ltb,
}
use coder_manager.Model.{Lifecycle, Db, assignment_kind, lifecycle_of, modify_lifecycle, modify_job}
use coder_manager.Jobs.Registry.{
  expected_action, instance_create_step_01, instance_create_step_01_task,
  template_assignment_create_step_01, template_assignment_create_step_01_task,
}
use coder_manager.Jobs.Execution.{
  ExecutionClaim, Result, ok, raised, claimable, claim_execution, complete_execution,
  owned_execution, resource_for_job, resource_matches, on_resource, model_of,
}
use coder_manager.Repositories.Reply.{accepted}
use coder_manager.Repositories.Jobs.{add_job_execution}
use coder_manager.Repositories.Databases.{DatabaseServices, DatabaseCreate, allocation_count}
use coder_manager.Repositories.Databases as Databases
use coder_manager.Repositories.Instances.Creation.{
  Placement, NewIds, available_databases, least, free_slug, slug_is_taken, application_is_taken,
  place,
}
use coder_manager.Repositories.Instances.Creation as Creation
use coder_manager.Repositories.Assignments.{
  lock_assignment, require_mutation_available, put, create_assignment, request_deletion,
  delete_existing, delete_assignment,
}
use coder_manager.Tasks.Updating.{store_application_name}
use coder_manager.Tasks.Marking.{
  mark_created, mark_created-KeepsJobs, mark_created-KeepsLinks, store_application_name-KeepsJobs,
  store_application_name-KeepsLinks,
}
use coder_manager.Program.{
  History, start, request, transaction, empty, template_creation, database_creation,
  instance_creation, assignment_put, assignment_deletion, claim, complete,
}
use coder_manager.Program.Protocol.{JobsMove}
use coder_manager.Program.Refinement.{History-JobsMove}
use coder_manager.Tests.Catalog.{python, created, empty-created}

abbrev services : DatabaseServices
services = record { lower = λ s. s; encrypt = λ password id. 9 }

abbrev main : DatabaseCreate
main = record {
  name = "main";
  instance_max = 2;
  host = "db";
  port = 5432;
  database_name = "coder";
  username = "coder";
  password = "secret";
}

abbrev with_database : Db
with_database = record created { databases = (20, Databases.new_database services 20 main) ∷ [] }

created-with_database : Databases.create services 20 main created ≡ accepted with_database
unfolding Databases.create Databases.name_is_taken exists_where add
created-with_database = refl

abbrev placement : Placement
placement = record { is_earlier = λ a b. ltb a.id b.id; schema_name = λ id. "coder_1" }

abbrev ids : NewIds
ids = record { instance_id = 1; job_id = 11; allocation_id = 40 }

abbrev with_instance : Db
with_instance =
    place placement ids "shop" "abcdefgh"
      (record { id = 20; row = Databases.new_database services 20 main; count = 0 }) with_database

database-with_instance :
    Creation.create placement ids "shop" ("abcdefgh" ∷ []) with_database
    ≡ some (accepted with_instance)
unfolding Creation.create available_databases allocation_count least free_slug slug_is_taken
    application_is_taken exists_where
database-with_instance = refl

-- What a completed transaction leaves.
abbrev pub left : Result (Db × Bool) → Db
left (ok (db, b)) = db
left (raised message) = empty

abbrev creating : Db
creating = (claim_execution 11 instance_create_step_01_task 5 with_instance).0

abbrev of_instance : ExecutionClaim
of_instance = record {
  job_id = 11;
  task_name = instance_create_step_01_task;
  step = instance_create_step_01;
  attempt = 1;
  resource_type = some "instance";
  resource_id = some 1;
}

abbrev ready : Db
ready = left (complete_execution of_instance (store_application_name "coder-shop") false creating)

creating-ready :
    complete_execution of_instance (store_application_name "coder-shop") false creating
    ≡ ok (ready, true)
unfolding complete_execution claim_execution claimable owned_execution resource_for_job
    resource_matches on_resource model_of expected_action place add_job_execution
    store_application_name lifecycle_of modify_lifecycle modify_job find modify add
creating-ready = refl

abbrev assigning : Db
assigning = create_assignment 3 12 1 2 ready

ready-assigning : put 3 12 1 2 ready ≡ accepted (assigning, 3, true)
unfolding put lock_assignment require_mutation_available complete_execution claim_execution
    claimable owned_execution resource_for_job resource_matches on_resource model_of expected_action
    place add_job_execution store_application_name lifecycle_of modify_lifecycle modify_job find
    modify add
ready-assigning = refl

abbrev publishing : Db
publishing = (claim_execution 12 template_assignment_create_step_01_task 6 assigning).0

abbrev of_assignment : ExecutionClaim
of_assignment = record {
  job_id = 12;
  task_name = template_assignment_create_step_01_task;
  step = template_assignment_create_step_01;
  attempt = 1;
  resource_type = some "template_assignment";
  resource_id = some 3;
}

abbrev pub published : Db
published = left (complete_execution of_assignment mark_created false publishing)

publishing-published :
    complete_execution of_assignment mark_created false publishing ≡ ok (published, true)
unfolding complete_execution claim_execution claimable owned_execution resource_for_job
    resource_matches on_resource model_of expected_action place add_job_execution
    store_application_name lifecycle_of modify_lifecycle modify_job find modify add
    create_assignment mark_created
publishing-published = refl

abbrev withdrawing : Db
withdrawing = delete_assignment 13 3 published

published-withdrawing : request_deletion 13 1 2 published ≡ accepted (withdrawing, some 3, true)
unfolding request_deletion delete_existing lock_assignment require_mutation_available exists_where
    complete_execution claim_execution claimable owned_execution resource_for_job resource_matches
    on_resource model_of expected_action place add_job_execution store_application_name lifecycle_of
    modify_lifecycle modify_job find modify add create_assignment mark_created
published-withdrawing = refl

-- The assignment is created when its publication completes.
published-created :
    Option.map (λ (l : Lifecycle). l.action) (lifecycle_of assignment_kind 3 published)
    ≡ some "created"
unfolding complete_execution claim_execution claimable owned_execution resource_for_job
    resource_matches on_resource model_of expected_action place add_job_execution
    store_application_name lifecycle_of modify_lifecycle modify_job find modify add
    create_assignment mark_created
published-created = refl

fresh_11 : find 11 with_database.jobs ≡ none
unfolding find
fresh_11 = refl

fresh_12 : find 12 ready.jobs ≡ none
unfolding complete_execution claim_execution claimable owned_execution resource_for_job
    resource_matches on_resource model_of expected_action place add_job_execution
    store_application_name lifecycle_of modify_lifecycle modify_job find modify add
fresh_12 = refl

fresh_13 : find 13 published.jobs ≡ none
unfolding complete_execution claim_execution claimable owned_execution resource_for_job
    resource_matches on_resource model_of expected_action place add_job_execution
    store_application_name lifecycle_of modify_lifecycle modify_job find modify add
    create_assignment mark_created
fresh_13 = refl

ready-History : History empty ready
ready-History =
    transaction
      (transaction
        (request
          (request (request start (template_creation (λ s. s) 2 python created empty-created))
            (database_creation services 20 main with_database created-with_database))
          (instance_creation placement ids "shop" ("abcdefgh" ∷ []) with_instance fresh_11
            database-with_instance))
        (claim 11 instance_create_step_01_task 5))
      (complete of_instance (store_application_name "coder-shop") false ready true
        (store_application_name-KeepsJobs "coder-shop")
        (store_application_name-KeepsLinks "coder-shop") creating-ready)

pub published-History : History empty published
published-History =
    transaction
      (transaction
        (request ready-History (assignment_put 3 12 1 2 3 assigning true fresh_12 ready-assigning))
        (claim 12 template_assignment_create_step_01_task 6))
      (complete of_assignment mark_created false published true mark_created-KeepsJobs
        mark_created-KeepsLinks publishing-published)

History-JobsMove_example : JobsMove published withdrawing
History-JobsMove_example =
    History-JobsMove published withdrawing published-History
      (inl (assignment_deletion 13 1 2 (some 3) withdrawing true fresh_13 published-withdrawing))
