-- ===== src/Repositories/Instances/Staging.antt =====
-- The requests of the API on one instance, and what each of them stages.
use coder_manager.Base.{
  ℕ, ◌≡◌, refl, inl, inr, true, String, some, contains, nat_eq, string_eq, option_eq, find,
  Bool-cases, Option-cases, arith,
}
use coder_manager.Model.{Instance, Db, instance_kind, lifecycle_of}
use coder_manager.Jobs.Registry.{
  instance_update_step_01, instance_update_step_01_task, instance_delete_step_01,
  instance_delete_step_01_task, instance_delete_step_02, instance_delete_step_02_task,
  expected_action, registered_step_names,
}
use coder_manager.Jobs.Execution.Resources.{SameRows}
use coder_manager.Repositories.Reply.{Reply, accepted}
use coder_manager.Repositories.Instances.Requests.{
  InstanceError, stage, request_deletion, request_sync, request_start, request_stop,
  request_power_action, retry_failed_members, skip_workspace_cleanup,
}

pub data Request : Type 0 where
  deletion sync start stop : Request

abbrev pub perform : Request → ℕ → ℕ → Db → Reply InstanceError Db
perform deletion = request_deletion
perform sync = request_sync
perform start = request_start
perform stop = request_stop

-- A request that was accepted has staged one of the actions, for the instance that it found.
pub record Staged (job_id instance_id : ℕ) (db db' : Db) : Type 0 where
  pub instance_row : Instance
  pub base : Db
  pub action : String
  pub name : String
  pub task : String
  pub step : String
  pub found : find instance_id db.instances ≡ some instance_row
  pub same_jobs : base.jobs ≡ db.jobs
  pub same_instances : base.instances ≡ db.instances
  pub same_rows : SameRows db base
  pub expected : expected_action name ≡ some action
  pub registered : contains registered_step_names task ≡ true
  pub done : db' ≡ stage job_id instance_id action name task step base

retry_failed_members-SameRows :
    (instance_id : ℕ) (db : Db) → SameRows db (retry_failed_members instance_id db)
unfolding lifecycle_of
retry_failed_members-SameRows instance_id db instance_kind i = refl
retry_failed_members-SameRows instance_id db _ i = refl

power-Staged :
    (action name task step : String) (job_id instance_id : ℕ) (db db' : Db)
    → expected_action name ≡ some action
    → contains registered_step_names task ≡ true
    → request_power_action action name task step job_id instance_id db ≡ accepted db'
    → Staged job_id instance_id db db'
unfolding request_power_action
power-Staged action name task step job_id instance_id db db' e r h =
    elim (Option-cases (find instance_id db.instances)) [
      | inl missing ↦ absurd (ground arith)
      | inr (i, found) ↦ record {
        instance_row = i;
        base = db;
        action = action;
        name = name;
        task = task;
        step = step;
        found = found;
        same_jobs = refl;
        same_instances = refl;
        same_rows = λ k n. refl;
        expected = e;
        registered = r;
        done = ground arith;
      }
    ]

pub perform-Staged :
    (q : Request) (job_id instance_id : ℕ) (db db' : Db)
    → perform q job_id instance_id db ≡ accepted db'
    → Staged job_id instance_id db db'
unfolding request_sync request_start request_stop request_deletion expected_action
    registered_step_names
perform-Staged start job_id instance_id db db' h =
    power-Staged "starting" "instance.start" _ _ job_id instance_id db db' refl refl h
perform-Staged stop job_id instance_id db db' h =
    power-Staged "stopping" "instance.stop" _ _ job_id instance_id db db' refl refl h
perform-Staged sync job_id instance_id db db' h =
    elim (Option-cases (find instance_id db.instances)) [
      | inl missing ↦ absurd (ground arith)
      | inr (i, found) ↦ record {
        instance_row = i;
        base = retry_failed_members instance_id db;
        action = "updating";
        name = "instance.update";
        task = instance_update_step_01_task;
        step = instance_update_step_01;
        found = found;
        same_jobs = refl;
        same_instances = refl;
        same_rows = retry_failed_members-SameRows instance_id db;
        expected = refl;
        registered = refl;
        done = ground arith;
      }
    ]
perform-Staged deletion job_id instance_id db db' h =
    elim (Option-cases (find instance_id db.instances)) [
      | inl missing ↦ absurd (ground arith)
      | inr (i, found) ↦ elim (Bool-cases (skip_workspace_cleanup i)) [
        | inl skip ↦ record {
          instance_row = i;
          base = db;
          action = "deleting";
          name = "instance.delete";
          task = instance_delete_step_02_task;
          step = instance_delete_step_02;
          found = found;
          same_jobs = refl;
          same_instances = refl;
          same_rows = λ k n. refl;
          expected = refl;
          registered = refl;
          done = ground arith;
        }
        | inr clean ↦ record {
          instance_row = i;
          base = db;
          action = "deleting";
          name = "instance.delete";
          task = instance_delete_step_01_task;
          step = instance_delete_step_01;
          found = found;
          same_jobs = refl;
          same_instances = refl;
          same_rows = λ k n. refl;
          expected = refl;
          registered = refl;
          done = ground arith;
        }
      ]
    ]
