-- ===== src/Tasks/Updating.antt =====
-- The local part of an instance's update (tasks/instance/update): the members that an attempt claims,
-- and what becomes of them when it fails, is deferred or ends. Argo CD and Coder are called between.
use coder_manager.Base.{
  ℕ, Bool, ◌&&◌, ◌||◌, String, Option, none, some, ◌==◌, nat_eq, string_eq, option_eq, List, [],
  ◌∷◌, contains, Table, find, modify, modify_where, exists_where, if◌then◌else◌,
}
use coder_manager.Model.{
  pending, running, success, error, status_eq, started, Member, Db, instance_kind, template_kind,
  assignment_kind, workspace_kind, modify_lifecycle, modify_job,
}
use coder_manager.Jobs.Registry.{
  Celery, Queue, dispatch_registered_step, instance_update_step_01, instance_update_step_01_task,
}
use coder_manager.Jobs.Execution.{
  ExecutionClaim, Resource, owned_execution, Result, ok, raised, close_job, complete_row,
}
use coder_manager.Repositories.Jobs.{add_job_execution, requested, is_retryable}

-- The identifiers that an attempt claimed.
abbrev pub claims_member : ℕ → ℕ → Member → Bool
claims_member instance_id _ m = m.instance_id == instance_id && is_retryable m.status

-- `select Member.id ...`, before it is ordered.
unfoldable pub member_ids_where : (ℕ → Member → Bool) → Table Member → List ℕ
member_ids_where p [] = []
member_ids_where p ((id, m) ∷ rest) =
    let others = member_ids_where p rest in if p id m then id ∷ others else others

abbrev pub with_status_running : Member → Member
with_status_running m = record m { status = running }

-- What `_claim_members` writes, and the identifiers it returns; the other values that it returns are
-- arguments of the call of Argo CD.
unfoldable pub claim_members : ExecutionClaim → Db → Result (Db × List ℕ)
claim_members claim db = elim claim.resource_id [
  | none ↦ raised "Instance is missing"
  | some instance_id ↦ elim (find instance_id db.instances) [
    | none ↦ raised "Instance is missing"
    | some i ↦ ok (
      record db {
        members = modify_where (claims_member instance_id) with_status_running db.members;
      },
      member_ids_where (claims_member instance_id) db.members,
    )
  ]
]

-- The condition of `_fail_members` and `_defer_members`.
abbrev pub is_claimed : List ℕ → ℕ → Member → Bool
is_claimed member_ids id m = contains member_ids id && m.status == running

unfoldable pub fail_members : List ℕ → Db → Db
fail_members member_ids db = record db {
  members = modify_where (is_claimed member_ids) (λ m. record m { status = error }) db.members;
}

unfoldable pub defer_members : List ℕ → Db → Db
defer_members member_ids db = record db {
  members = modify_where (is_claimed member_ids) (λ m. record m { status = pending }) db.members;
}

-- `_store_application_name`
unfoldable pub store_application_name : String → Option Resource → Db → Result Db
store_application_name application_name none db = raised "Instance update resource is missing"
store_application_name application_name (some r) db = elim r.kind [
  | instance_kind ↦ ok (record db {
    instances =
        modify r.id
          (λ i. record i { argocd_application_name = some application_name; state = started })
          db.instances;
  })
  | template_kind ↦ raised "Instance update resource is missing"
  | assignment_kind ↦ raised "Instance update resource is missing"
  | workspace_kind ↦ raised "Instance update resource is missing"
]

abbrev pub is_reconciled : Member → Bool
is_reconciled m = m.status == running || m.status == error

-- What `_claim_cleanup` writes, and the identifiers it returns.
unfoldable pub claim_cleanup : ExecutionClaim → Db → Result (Db × List ℕ)
claim_cleanup claim db = elim claim.resource_id [
  | none ↦ raised "Instance is missing"
  | some instance_id ↦ elim (find instance_id db.instances) [
    | none ↦ raised "Instance is missing"
    | some i ↦
        if i.argocd_application_name == none || i.argocd_application_name == some ""
        then raised "Instance Argo CD application name is missing"
        else ok (
          record db {
            members =
                modify_where (λ _ m. m.instance_id == instance_id && is_reconciled m)
                  with_status_running db.members;
          },
          member_ids_where (λ _ m. m.instance_id == instance_id && is_reconciled m) db.members,
        )
  ]
]

-- The loop over the members of the attempt that ends.
unfoldable pub settle_members : List ℕ → ℕ → Table Member → Table Member
settle_members member_ids instance_id [] = []
settle_members member_ids instance_id ((id, m) ∷ rest) =
    let others = settle_members member_ids instance_id rest in
    if is_claimed member_ids id m && m.instance_id == instance_id
    then (if m.action == "deleting" then others else (id, record m { status = success }) ∷ others)
    else (id, m) ∷ others

abbrev pub is_waiting_member : ℕ → ℕ → Member → Bool
is_waiting_member instance_id _ m = m.instance_id == instance_id && m.status == pending

-- The members and the instance's name, before the job is settled.
unfoldable pub settle_instance : List ℕ → String → ℕ → Db → Db
settle_instance member_ids application_name instance_id db = record db {
  instances =
      modify instance_id (λ i. record i { argocd_application_name = some application_name })
        db.instances;
  members = settle_members member_ids instance_id db.members;
}

-- A new job for the members whose change came later.
abbrev pub continue_update : ℕ → ℕ → Db → Db
continue_update next_job_id instance_id db =
    modify_lifecycle instance_kind instance_id
      (requested "updating" next_job_id instance_update_step_01)
      (add_job_execution next_job_id "instance.update" instance_update_step_01_task
        (some "instance") (some instance_id) instance_update_step_01 db)

-- The transaction on the instance that the claim owns: the database, the message and the status.
unfoldable pub finalize_owned : ℕ → List ℕ → String → ℕ → ℕ → Db → Db × Option (String × ℕ) × String
finalize_owned job_id member_ids application_name next_job_id instance_id db =
    let settled = settle_instance member_ids application_name instance_id db in
    let closed = modify_job job_id (close_job success) settled in
    if exists_where (is_waiting_member instance_id) settled.members
    then (
      continue_update next_job_id instance_id closed,
      some (instance_update_step_01_task, next_job_id),
      "pending",
    )
    else (modify_lifecycle instance_kind instance_id complete_row closed, none, "success")

unfoldable pub finalize_resource :
    ℕ → List ℕ → String → ℕ → Option Resource → Db → Db × Option (String × ℕ) × String
finalize_resource job_id member_ids application_name next_job_id none db = (db, none, "noop")
finalize_resource job_id member_ids application_name next_job_id (some r) db = elim r.kind [
  | instance_kind ↦ finalize_owned job_id member_ids application_name next_job_id r.id db
  | template_kind ↦ (db, none, "noop")
  | assignment_kind ↦ (db, none, "noop")
  | workspace_kind ↦ (db, none, "noop")
]

-- The transaction of `_finalize_update`; the identifier is the one that `uuid4` returns.
unfoldable pub finalize :
    ExecutionClaim → List ℕ → String → ℕ → Db → Db × Option (String × ℕ) × String
finalize claim member_ids application_name next_job_id db = elim (owned_execution db claim) [
  | none ↦ (db, none, "noop")
  | some (job, resource) ↦
      finalize_resource claim.job_id member_ids application_name next_job_id resource db
]

abbrev pub send : Celery → Option (String × ℕ) → Queue → Queue
send celery none queue = queue
send celery (some (task_name, job_id)) queue =
    (dispatch_registered_step celery task_name job_id queue).1

-- `_finalize_update`: the message follows the commit.
unfoldable pub finalize_update :
    Celery → ExecutionClaim → List ℕ → String → ℕ → Db → Queue → Db × Queue × String
finalize_update celery claim member_ids application_name next_job_id db queue =
    let (db', message, status) = finalize claim member_ids application_name next_job_id db in
    (db', send celery message queue, status)
