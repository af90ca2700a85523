-- ===== src/Repositories/Instances/Exclusion.antt =====
-- What an instance that is being worked on, or deleted, answers to a request.
use coder_manager.Base.{
  ℕ, ◌≡◌, refl, inl, inr, true, false, some, ◌==◌, nat_eq, string_eq, option_eq, find, Option-cases,
  arith,
}
use coder_manager.Model.{status_eq, Instance, Db, lifecycle_of}
use coder_manager.Repositories.Reply.{accepted, refused}
use coder_manager.Repositories.Jobs.{in_progress}
use coder_manager.Repositories.Instances.Requests.{
  action_conflict, request_deletion, request_sync, request_start, request_stop,
  request_power_action,
}
use coder_manager.Repositories.Instances.Staging.{Request, perform, perform-Staged}
use coder_manager.Repositories.Instances.Queueing.{Staged-IsQueued}

-- An instance whose status is pending or running refuses its deletion, sync, start and stop as a
-- conflict.
pub in_progress-refused :
    (q : Request) (job_id instance_id : ℕ) (db : Db) (i : Instance)
    → find instance_id db.instances ≡ some i
    → in_progress i.status ≡ true
    → perform q job_id instance_id db ≡ refused action_conflict
unfolding request_deletion request_sync request_start request_stop request_power_action
in_progress-refused Request.deletion job_id instance_id db i found busy = ground arith
in_progress-refused Request.sync job_id instance_id db i found busy = ground arith
in_progress-refused Request.start job_id instance_id db i found busy = ground arith
in_progress-refused Request.stop job_id instance_id db i found busy = ground arith

deleted_action :
    (i : Instance)
    → i.action ≡ "deleting"
    → ((i.action == "creating") ≡ false)
      × ((i.action == "updating") ≡ false)
      × ((i.action == "starting") ≡ false)
      × ((i.action == "stopping") ≡ false)
      × ((i.action == "deleting") ≡ true)
deleted_action i e = rw e (refl, refl, refl, refl, refl)

-- An instance under the action "deleting", whatever its status, refuses its deletion, sync, start
-- and stop as a conflict.
pub deleting-refused :
    (q : Request) (job_id instance_id : ℕ) (db : Db) (i : Instance)
    → find instance_id db.instances ≡ some i
    → i.action ≡ "deleting"
    → perform q job_id instance_id db ≡ refused action_conflict
unfolding request_deletion request_sync request_start request_stop request_power_action
deleting-refused Request.deletion job_id instance_id db i found e =
    ground (arith, deleted_action i e)
deleting-refused Request.sync job_id instance_id db i found e = ground (arith, deleted_action i e)
deleting-refused Request.start job_id instance_id db i found e = ground (arith, deleted_action i e)
deleting-refused Request.stop job_id instance_id db i found e = ground (arith, deleted_action i e)

-- Once a deletion, sync, start or stop of an instance has been accepted, each of these requests on
-- it is refused as a conflict.
pub perform-excludes :
    (q q' : Request) (job_id job_id' instance_id : ℕ) (db db' : Db)
    → perform q job_id instance_id db ≡ accepted db'
    → perform q' job_id' instance_id db' ≡ refused action_conflict
unfolding lifecycle_of
perform-excludes q q' job_id job_id' instance_id db db' h =
    let s = perform-Staged q job_id instance_id db db' h in
    let located = (Staged-IsQueued s).located in
    elim (Option-cases (find instance_id db'.instances)) [
      | inl e ↦ absurd (ground arith)
      | inr (i, e) ↦ in_progress-refused q' job_id' instance_id db' i e (ground arith)
    ]
