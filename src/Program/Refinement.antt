-- ===== src/Program/Refinement.antt =====
-- Every step of the program, seen through the abstract machine of a job.
use coder_manager.Base.{refl, ◌⊎◌, inl, inr, nat_eq, option_eq}
use coder_manager.Model.{Db}
use coder_manager.Jobs.Consistency.Settling.{IsConsistent}
use coder_manager.Repositories.Instances.Created.{create-Requested}
use coder_manager.Repositories.Instances.Staging as Instances
use coder_manager.Repositories.Instances.Queueing as Instances_queueing
use coder_manager.Repositories.Kubernetes.{create_and_request_update-Requested}
use coder_manager.Repositories.Jobs.{create_system_job, system_job_row, find-create_system_job}
use coder_manager.Program.{Request, Transaction, History, empty}
use coder_manager.Program.Consistency.{History-IsConsistent}
use coder_manager.Program.Protocol.{JobsMove, JobsMove-same, Transaction-JobsMove}
use coder_manager.Program.Settled.{
  create_database-SameTables, update_database-SameTables, remove_database-SameTables,
  create_image-SameTables, remove_image-SameTables, ParameterStep-SameTables,
}
use coder_manager.Program.Requests.{
  queued-JobsMove, sync-JobsMove, put-JobsMove, deletion-JobsMove, member-JobsMove,
  workspace-JobsMove, update-JobsMove, removal-JobsMove, create-jobs, new_job,
}

Request-JobsMove : (db db' : Db) → Request db db' → IsConsistent db → JobsMove db db'
Request-JobsMove db db' (Request.instance_creation placement ids application draws _ fresh h) c =
    let r = create-Requested placement ids application draws db db' h in
    queued-JobsMove ids.job_id (new_job r) db db' fresh refl r.jobs
Request-JobsMove db db' (Request.instance_request q job_id instance_id _ fresh h) c =
    let s = Instances.perform-Staged q job_id instance_id db db' h in
    queued-JobsMove job_id (Instances_queueing.staged_job s) db db' fresh refl
      (Instances_queueing.staged_jobs s)
Request-JobsMove db db' (Request.instance_kubernetes job_id instance_id e _ fresh h) c =
    let r = create_and_request_update-Requested job_id instance_id e db db' h in
    queued-JobsMove job_id (new_job r) db db' fresh refl r.jobs
Request-JobsMove db db'
      (Request.assignment_put assignment_id job_id instance_id template_id id _ b fresh h) c =
    put-JobsMove assignment_id job_id instance_id template_id id db db' b fresh h
Request-JobsMove db db' (Request.assignment_deletion job_id instance_id template_id id _ b fresh h)
      c =
    deletion-JobsMove job_id instance_id template_id id db db' b fresh h
Request-JobsMove db db' (Request.member_change x member_id job_id instance_id _ fresh h) c =
    member-JobsMove x member_id job_id instance_id db db' fresh h
Request-JobsMove db db' (Request.workspace_request collation q job_id id _ b fresh h) c =
    workspace-JobsMove collation q job_id id db db' b fresh h
Request-JobsMove db db' (Request.template_creation lower id payload _ h) c =
    JobsMove-same db db' (create-jobs lower id payload db db' h)
Request-JobsMove db db' (Request.template_update id payload _ h) c =
    update-JobsMove id payload db db' h c
Request-JobsMove db db' (Request.template_deletion id _ h) c = removal-JobsMove id db db' h c
Request-JobsMove db db' (Request.template_sync job_id id _ fresh h) c =
    sync-JobsMove job_id id db db' fresh h c
Request-JobsMove db db' (Request.parameter_request _ step) c =
    JobsMove-same db db' (ParameterStep-SameTables db db' step).jobs
Request-JobsMove db db' (Request.image_creation image_id template_id payload _ h) c =
    JobsMove-same db db' (create_image-SameTables image_id template_id payload db db' h).jobs
Request-JobsMove db db' (Request.image_deletion template_id image_id _ h) c =
    JobsMove-same db db' (remove_image-SameTables template_id image_id db db' h).jobs
Request-JobsMove db db' (Request.database_creation services id payload _ h) c =
    JobsMove-same db db' (create_database-SameTables services id payload db db' h).jobs
Request-JobsMove db db' (Request.database_update services id payload _ h) c =
    JobsMove-same db db' (update_database-SameTables services id payload db db' h).jobs
Request-JobsMove db db' (Request.database_deletion id _ h) c =
    JobsMove-same db db' (remove_database-SameTables id db db' h).jobs
Request-JobsMove db _ (Request.system_job job_id name task_name step fresh) c =
    queued-JobsMove job_id (system_job_row name task_name step) db
      (create_system_job job_id name task_name step db) fresh refl
      (find-create_system_job job_id name task_name step db)

-- After any sequence of accepted requests of the repositories (`update_action` is none of them),
-- transactions of tasks/common/execution.py and other writes of the workers from the empty
-- database, each further request or transaction moves every job by at most one move of an abstract
-- machine: a job is created as pending at attempt 0, claimed from pending or error at one attempt
-- more, closed from running at the same attempt, or discarded after success. The requests take job
-- identifiers that are not in use, and the callbacks of the workers, and the workers' own writes,
-- touch no job and keep the job and the status of each resource that they leave; its action, its
-- step and everything else are free.
pub History-JobsMove :
    (db db' : Db) → History empty db → Request db db' ⊎ Transaction db db' → JobsMove db db'
History-JobsMove db db' h (inl r) = Request-JobsMove db db' r (History-IsConsistent db h)
History-JobsMove db db' h (inr t) = Transaction-JobsMove db db' t
