-- ===== src/Program/Consistency.antt =====
-- The link between resources and jobs, over whole histories of the program.
use coder_manager.Base.{
  String, arith, nat_eq, none, sym, ◌∙◌, ℕ, ◌≡◌, Bool, true, false, Option, none, some, nat_eq,
  find, arith,
}
use coder_manager.Model.{
  Db, instance_kind, template_kind, assignment_kind, workspace_kind, lifecycle_of,
}
use coder_manager.Jobs.Consistency.Settling.{IsConsistent}
use coder_manager.Jobs.Consistency.Transactions.{
  claim_execution-IsConsistent, fail_execution-IsConsistent, persist_next_step-IsConsistent,
  defer_execution-IsConsistent, complete_execution-IsConsistent, heartbeat_execution-IsConsistent,
  prepare_execution_retry-IsConsistent, write-IsConsistent,
}
use coder_manager.Repositories.Jobs.{
  create_system_job, find-create_system_job, lifecycle_of-add_job_execution,
}
use coder_manager.Repositories.Reply.{accepted}
use coder_manager.Repositories.Requested.{Requested-IsConsistent}
use coder_manager.Repositories.Instances.Created.{create-Requested}
use coder_manager.Repositories.Instances.Queueing.{perform-IsConsistent}
use coder_manager.Repositories.Kubernetes.{create_and_request_update-IsConsistent}
use coder_manager.Repositories.Assignments as Assignments
use coder_manager.Repositories.Assignments.Linking.{put-IsConsistent}
use coder_manager.Repositories.Assignments.Withdrawal.{deletion-IsConsistent}
use coder_manager.Repositories.Members.Linking.{change-IsConsistent}
use coder_manager.Repositories.Workspaces.Requests.{Collation}
use coder_manager.Repositories.Workspaces.Staging as Workspaces
use coder_manager.Repositories.Workspaces.Queueing.{workspace-IsConsistent}
use coder_manager.Repositories.Templates.Linking.{request_sync-IsConsistent}
use coder_manager.Repositories.Templates.Catalog as Catalog
use coder_manager.Program.{Request, Transaction, History, start, request, transaction, empty}
use coder_manager.Program.Settled.{
  settled-IsConsistent, create_database-SameTables, update_database-SameTables,
  remove_database-SameTables, create_image-SameTables, remove_image-SameTables,
  ParameterStep-SameTables, no_assignment-unchanged, no_work-unchanged,
}

-- The two requests whose reply says whether there is work.
assignment_deletion-IsConsistent :
    (job_id instance_id template_id : ℕ) (id : Option ℕ) (db db' : Db) (b : Bool)
    → find job_id db.jobs ≡ none
    → Assignments.request_deletion job_id instance_id template_id db ≡ accepted (db', id, b)
    → IsConsistent db
    → IsConsistent db'
assignment_deletion-IsConsistent job_id instance_id template_id none db db' b fresh h c =
    rw (no_assignment-unchanged job_id instance_id template_id db db' b h) c
assignment_deletion-IsConsistent job_id instance_id template_id (some id) db db' b fresh h c =
    deletion-IsConsistent job_id instance_id template_id id db db' b fresh h c

workspace_request-IsConsistent :
    (collation : Collation) (q : Workspaces.Request) (job_id id : ℕ) (db db' : Db) (b : Bool)
    → find job_id db.jobs ≡ none
    → Workspaces.perform collation q job_id id db ≡ accepted (db', b)
    → IsConsistent db
    → IsConsistent db'
workspace_request-IsConsistent collation q job_id id db db' true fresh h c =
    workspace-IsConsistent collation q job_id id db db' fresh h c
workspace_request-IsConsistent collation q job_id id db db' false fresh h c =
    rw (no_work-unchanged collation q job_id id db db' h) c

create_system_job-IsConsistent :
    (job_id : ℕ) (name task_name step : String) (db : Db)
    → find job_id db.jobs ≡ none
    → IsConsistent db
    → IsConsistent (create_system_job job_id name task_name step db)
unfolding create_system_job
create_system_job-IsConsistent job_id name task_name step db fresh c k i l j row named =
    let before = lifecycle_of-add_job_execution k i job_id name task_name none none step db in
    let (job, found, b) = c k i l j (sym before ∙ row) named in
    (job, ground (arith, found, fresh, find-create_system_job job_id name task_name step db j), b)

request-IsConsistent : (db db' : Db) → Request db db' → IsConsistent db → IsConsistent db'
request-IsConsistent db db' (Request.instance_creation placement ids application draws _ fresh h)
      c =
    Requested-IsConsistent (create-Requested placement ids application draws db db' h) fresh c
request-IsConsistent db db' (Request.instance_request q job_id instance_id _ fresh h) c =
    perform-IsConsistent q job_id instance_id db db' fresh h c
request-IsConsistent db db' (Request.instance_kubernetes job_id instance_id e _ fresh h) c =
    create_and_request_update-IsConsistent job_id instance_id e db db' fresh h c
request-IsConsistent db db'
      (Request.assignment_put assignment_id job_id instance_id template_id id _ b fresh h) c =
    put-IsConsistent assignment_id job_id instance_id template_id id db db' b fresh h c
request-IsConsistent db db'
      (Request.assignment_deletion job_id instance_id template_id id _ b fresh h) c =
    assignment_deletion-IsConsistent job_id instance_id template_id id db db' b fresh h c
request-IsConsistent db db' (Request.member_change x member_id job_id instance_id _ fresh h) c =
    change-IsConsistent x member_id job_id instance_id db db' fresh h c
request-IsConsistent db db' (Request.workspace_request collation q job_id id _ b fresh h) c =
    workspace_request-IsConsistent collation q job_id id db db' b fresh h c
request-IsConsistent db db' (Request.template_creation lower id payload _ h) c =
    Catalog.create-IsConsistent lower id payload db db' h c
request-IsConsistent db db' (Request.template_update id payload _ h) c =
    Catalog.update-IsConsistent id payload db db' h c
request-IsConsistent db db' (Request.template_deletion id _ h) c =
    Catalog.remove-IsConsistent id db db' h c
request-IsConsistent db db' (Request.template_sync job_id id _ fresh h) c =
    request_sync-IsConsistent job_id id db db' fresh h c
request-IsConsistent db db' (Request.parameter_request _ step) c =
    settled-IsConsistent (ParameterStep-SameTables db db' step) c
request-IsConsistent db db' (Request.image_creation image_id template_id payload _ h) c =
    settled-IsConsistent (create_image-SameTables image_id template_id payload db db' h) c
request-IsConsistent db db' (Request.image_deletion template_id image_id _ h) c =
    settled-IsConsistent (remove_image-SameTables template_id image_id db db' h) c
request-IsConsistent db db' (Request.database_creation services id payload _ h) c =
    settled-IsConsistent (create_database-SameTables services id payload db db' h) c
request-IsConsistent db db' (Request.database_update services id payload _ h) c =
    settled-IsConsistent (update_database-SameTables services id payload db db' h) c
request-IsConsistent db db' (Request.database_deletion id _ h) c =
    settled-IsConsistent (remove_database-SameTables id db db' h) c
request-IsConsistent db _ (Request.system_job job_id name task_name step fresh) c =
    create_system_job-IsConsistent job_id name task_name step db fresh c

transaction-IsConsistent : (db db' : Db) → Transaction db db' → IsConsistent db → IsConsistent db'
transaction-IsConsistent db _ (Transaction.claim id task now) c =
    claim_execution-IsConsistent id task now db c
transaction-IsConsistent db db' (Transaction.advance x task step mutate _ b jobs rows h) c =
    persist_next_step-IsConsistent x task step mutate db db' b jobs rows h c
transaction-IsConsistent db db' (Transaction.complete x mutate gone _ b jobs rows h) c =
    complete_execution-IsConsistent x mutate gone db db' b jobs rows h c
transaction-IsConsistent db db' (Transaction.defer x mutate _ b jobs rows h) c =
    defer_execution-IsConsistent x mutate db db' b jobs rows h c
transaction-IsConsistent db _ (Transaction.fail x mutate jobs rows) c =
    fail_execution-IsConsistent x mutate db jobs rows c
transaction-IsConsistent db db' (Transaction.write _ jobs rows) c =
    write-IsConsistent db db' jobs rows c
transaction-IsConsistent db _ (Transaction.heartbeat x now) c =
    heartbeat_execution-IsConsistent x now db c
transaction-IsConsistent db _ (Transaction.retry id stale_before) c =
    prepare_execution_retry-IsConsistent id stale_before db c

kept-IsConsistent :
    (before after : Db) → History before after → IsConsistent before → IsConsistent after
kept-IsConsistent before _ start c = c
kept-IsConsistent before after (request {mid} h r) c =
    request-IsConsistent mid after r (kept-IsConsistent before mid h c)
kept-IsConsistent before after (transaction {mid} h t) c =
    transaction-IsConsistent mid after t (kept-IsConsistent before mid h c)

empty-IsConsistent : IsConsistent empty
unfolding lifecycle_of find
empty-IsConsistent instance_kind i l j e f = absurd (ground arith)
empty-IsConsistent template_kind i l j e f = absurd (ground arith)
empty-IsConsistent assignment_kind i l j e f = absurd (ground arith)
empty-IsConsistent workspace_kind i l j e f = absurd (ground arith)

-- After any sequence of accepted requests of the repositories (`update_action` is none of them),
-- transactions of tasks/common/execution.py and other writes of the workers from the empty
-- database, the link between resources and jobs (each job that a resource names is in the table, is
-- of that resource, and has its status) holds. The requests take job identifiers that are not in
-- use, and the callbacks of the workers, and the workers' own writes, touch no job and keep the job
-- and the status of each resource that they leave; its action, its step and everything else are
-- free.
pub History-IsConsistent : (db : Db) → History empty db → IsConsistent db
History-IsConsistent db h = kept-IsConsistent empty db h empty-IsConsistent
