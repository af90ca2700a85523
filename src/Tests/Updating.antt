-- ===== src/Tests/Updating.antt =====
-- The end of an instance's update at a small database.
use coder_manager.Base.{
  ◌≡◌, refl, some, nat_eq, string_eq, option_eq, [], ◌∷◌, find, exists_where, Table,
}
use coder_manager.Model.{pending, running, success, status_eq, Member, Db, modify_job, lifecycle_of}
use coder_manager.Jobs.Registry.{
  instance_update_step_01_task, instance_update_step_02, instance_update_step_02_task,
  expected_action,
}
use coder_manager.Jobs.Execution.{
  ExecutionClaim, owned_execution, resource_for_job, model_of, resource_matches, close_job,
}
use coder_manager.Tasks.Updating.{
  finalize, finalize_resource, finalize_owned, settle_instance, settle_members, continue_update,
}
use coder_manager.Tasks.Finalizing.{Ending, finalize-Ending}
use coder_manager.Tasks.Settling.{Settled, find-settle_members}
use coder_manager.Tests.Data.{lifecycle, instance_with, ready_member, quiet}

-- Member 6 is being updated, and member 8 was changed meanwhile.
abbrev changing : Table Member
changing =
    (6, record ready_member { status = running })
    ∷ (8, record ready_member { username = "bob"; status = pending })
    ∷ []

-- Job 7 is at the second step of the update of instance 1.
abbrev updating : Db
updating = record quiet {
  jobs =
      (
        7,
        record {
          name = "instance.update";
          task_name = instance_update_step_02_task;
          resource_type = some "instance";
          resource_id = some 1;
          step = instance_update_step_02;
          status = running;
          attempt = 2;
          claimed_at = some 5;
        },
      )
      ∷ [];
  instances =
      (1, instance_with (lifecycle "updating" running (some 7) (some instance_update_step_02)))
      ∷ [];
  members = changing;
}

abbrev owner : ExecutionClaim
owner = record {
  job_id = 7;
  task_name = instance_update_step_02_task;
  step = instance_update_step_02;
  attempt = 2;
  resource_type = some "instance";
  resource_id = some 1;
}

abbrev updated_again : Db
updated_again =
    continue_update 12 1
      (modify_job 7 (close_job success) (settle_instance (6 ∷ []) "coder-shop" 1 updating))

updating-finalize :
    finalize owner (6 ∷ []) "coder-shop" 12 updating
    ≡ (updated_again, some (instance_update_step_01_task, 12), "pending")
unfolding finalize finalize_resource finalize_owned owned_execution resource_for_job model_of
    resource_matches expected_action lifecycle_of find settle_instance settle_members exists_where
updating-finalize = refl

finalize-Ending_example :
    Ending owner 12 30 updating updated_again (some (instance_update_step_01_task, 12)) "pending"
finalize-Ending_example =
    finalize-Ending owner (6 ∷ []) "coder-shop" 12 30 updating updated_again
      (some (instance_update_step_01_task, 12)) "pending" updating-finalize

find-settle_members_example :
    Settled (6 ∷ 8 ∷ []) 1 8 (find 8 changing) (find 8 (settle_members (6 ∷ 8 ∷ []) 1 changing))
unfolding find
find-settle_members_example = find-settle_members (6 ∷ 8 ∷ []) 1 8 changing (refl, (refl, tt))
