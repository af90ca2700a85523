-- ===== src/Tests/Requests.antt =====
-- Requests on instances, assignments and members at a small database.
use coder_manager.Base.{
  ◌≡◌, refl, String, none, some, [], ◌∷◌, true, nat_eq, string_eq, option_eq, find, modify, add,
  exists_where, contains,
}
use coder_manager.Model.{pending, error, Instance, Db, modify_lifecycle}
use coder_manager.Jobs.Registry.{registered_step_names}
use coder_manager.Jobs.Execution.{ExecutionClaim, claim_execution}
use coder_manager.Repositories.Reply.{accepted, refused}
use coder_manager.Repositories.Jobs.{add_job_execution, has_active_template_assignment}
use coder_manager.Repositories.Instances.Requests.{
  action_conflict, request_start, request_power_action,
}
use coder_manager.Repositories.Instances.Staging.{Request, perform}
use coder_manager.Repositories.Instances.Queueing.{perform-claimable}
use coder_manager.Repositories.Instances.Exclusion.{perform-excludes, deleting-refused}
use coder_manager.Tests.Data.{lifecycle, instance_with, quiet, updated}

-- The start of instance 1 that has just been accepted, with job 11.
abbrev starting : Db
starting = record updated {
  jobs =
      (
        11,
        record {
          name = "instance.start";
          task_name = "coder_manager.instance.start.step_01_start_instance";
          resource_type = some "instance";
          resource_id = some 1;
          step = "step_01_start_instance";
          status = pending;
          attempt = 0;
          claimed_at = none;
        },
      )
      ∷ [];
  instances =
      (1, instance_with (lifecycle "starting" pending (some 11) (some "step_01_start_instance")))
      ∷ [];
}

updated-starting : perform Request.start 11 1 updated ≡ accepted starting
unfolding request_start request_power_action has_active_template_assignment exists_where find
    add_job_execution add modify_lifecycle modify
updated-starting = refl

perform-claimable_example :
    (task : String) × (c : ExecutionClaim) × (contains registered_step_names task ≡ true)
    × ((claim_execution 11 task 5 starting).1 ≡ some c)
    × (c.attempt ≡ 1)
perform-claimable_example = perform-claimable Request.start 11 1 5 updated starting updated-starting

perform-excludes_example : perform Request.deletion 12 1 starting ≡ refused action_conflict
perform-excludes_example =
    perform-excludes Request.start Request.deletion 11 12 1 updated starting updated-starting

abbrev undeleted : Instance
undeleted = instance_with (lifecycle "deleting" error (some 7) (some "step_02_remove_instance"))

abbrev failing : Db
failing = record quiet { instances = (1, undeleted) ∷ [] }

failing-found : find 1 failing.instances ≡ some undeleted
unfolding find
failing-found = refl

deleting-refused_example : perform Request.deletion 12 1 failing ≡ refused action_conflict
deleting-refused_example =
    deleting-refused Request.deletion 12 1 failing undeleted failing-found refl
