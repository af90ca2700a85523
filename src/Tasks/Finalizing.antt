-- ===== src/Tasks/Finalizing.antt =====
-- The end of an instance's update (`_finalize_update` of tasks/instance/update): no member's change
-- that came while the update ran is forgotten.
use coder_manager.Base.{
  subst, find-modify, ℕ, ◌≡◌, ◌≢◌, refl, sym, ◌∙◌, inl, inr, String, Option, none, some, nat_eq,
  string_eq, option_eq, List, find, exists_where, exists_where-find, Option-cases, Bool-cases,
  arith,
}
use coder_manager.Model.{
  pending, success, status_eq, Instance, Member, Lifecycle, Db, JobExecution, Kind, instance_kind,
  template_kind, assignment_kind, workspace_kind, modify_lifecycle, modify_job, lifecycle_of,
  lifecycle_of-modify_job,
}
use coder_manager.Jobs.Registry.{
  instance_update_step_01, instance_update_step_01_task, expected_action,
}
use coder_manager.Jobs.Execution.{
  ExecutionClaim, Resource, owned_execution, close_job, claim_execution,
}
use coder_manager.Jobs.Execution.Resources.{owned_execution-inv}
use coder_manager.Jobs.Consistency.Settling.{located_row}
use coder_manager.Jobs.Consistency.Queued.{queued-claimable}
use coder_manager.Repositories.Requested.{queued-Requested, Requested-IsQueued}
use coder_manager.Tasks.Updating.{
  is_waiting_member, settle_instance, continue_update, finalize_owned, finalize_resource, finalize,
}

settle_instance-row :
    (ids : List ℕ) (name : String) (id : ℕ) (db : Db)
    → lifecycle_of instance_kind id (settle_instance ids name id db)
      ≡ lifecycle_of instance_kind id db
unfolding settle_instance lifecycle_of
settle_instance-row ids name id db = ground (
  arith,
  find-modify id id (λ (i : Instance). record i { argocd_application_name = some name })
      db.instances,
)

-- A job for the instance whose row is there.
continue_update-claimable :
    (next_job_id id now : ℕ) (l : Lifecycle) (db : Db)
    → lifecycle_of instance_kind id db ≡ some l
    → (c : ExecutionClaim) × ((claim_execution next_job_id instance_update_step_01_task now
          (continue_update next_job_id id db)).1
        ≡ some c)
      × (c.attempt ≡ 1)
unfolding expected_action
continue_update-claimable next_job_id id now l db e = queued-claimable now (
    Requested-IsQueued (
      queued-Requested instance_kind id next_job_id "updating" "instance.update"
        instance_update_step_01_task instance_update_step_01 l db e refl))

-- The three ways in which the transaction ends.
pub data Ending (claim : ExecutionClaim) (next_job_id now : ℕ) (db db' : Db)
    : Option (String × ℕ) → String → Type 0 where
  idle : db' ≡ db → Ending claim next_job_id now db db' none "noop"
  continued :
      (c : ExecutionClaim)
      → (claim_execution next_job_id instance_update_step_01_task now db').1 ≡ some c
      → c.attempt ≡ 1
      → Ending claim next_job_id now db db'
          (some (instance_update_step_01_task, next_job_id))
          "pending"
  finished :
      (job : JobExecution) (r : Resource)
      → owned_execution db claim ≡ some (job, some r)
      → ((n : ℕ) (m : Member)
          → find n db'.members ≡ some m
          → m.instance_id ≡ r.id
          → m.status ≢ pending)
      → Ending claim next_job_id now db db' none "success"

module _ (claim : ExecutionClaim) (ids : List ℕ) (name : String) (next_job_id now : ℕ)
    (db : Db) where
  abbrev Ended : Db × Option (String × ℕ) × String → Type 0
  Ended (db', message, status) = Ending claim next_job_id now db db' message status

  finalize_owned-Ended :
      (job : JobExecution) (r : Resource)
      → owned_execution db claim ≡ some (job, some r)
      → r.kind ≡ instance_kind
      → Ended (finalize_owned claim.job_id ids name next_job_id r.id db)
  unfolding finalize_owned settle_instance modify_lifecycle modify_job
  finalize_owned-Ended job r e kind =
      let o = owned_execution-inv db claim e in
      let (row, typed) = located_row db job r (sym o.loaded) in
      let settled = settle_instance ids name r.id db in
      let closed = modify_job claim.job_id (close_job success) settled in
      let there : lifecycle_of instance_kind r.id closed ≡ some r.row =
        lifecycle_of-modify_job instance_kind r.id claim.job_id (close_job success) settled
        ∙ settle_instance-row ids name r.id db
        ∙ rw kind at row in
      elim (Bool-cases (exists_where (is_waiting_member r.id) settled.members)) [
        | inl some_wait ↦
            let (c, claims, first) =
              continue_update-claimable next_job_id r.id now r.row closed there in
            rw (some_wait, finalize_owned) (continued c claims first)
        | inr none_waits ↦
            rw (none_waits, finalize_owned)
              (finished job r e (λ n m at mine waits. ground (
                arith,
                exists_where-find (is_waiting_member r.id) n m settled.members at,
                mine,
                waits,
                none_waits,
              )))
      ]

  finalize_resource-Ended :
      (job : JobExecution) (r : Option Resource)
      → owned_execution db claim ≡ some (job, r)
      → Ended (finalize_resource claim.job_id ids name next_job_id r db)
  unfolding finalize_resource
  finalize_resource-Ended job none e = idle refl
  finalize_resource-Ended job (some r) e = of_kind r.kind refl
    where
      of_kind :
          (k : Kind)
          → r.kind ≡ k
          → Ended (finalize_resource claim.job_id ids name next_job_id (some r) db)
      of_kind instance_kind k = rw (k, finalize_resource) (finalize_owned-Ended job r e k)
      of_kind template_kind k = rw (k, finalize_resource) (idle refl)
      of_kind assignment_kind k = rw (k, finalize_resource) (idle refl)
      of_kind workspace_kind k = rw (k, finalize_resource) (idle refl)

  finalize-Ended : Ended (finalize claim ids name next_job_id db)
  unfolding finalize
  finalize-Ended = elim (Option-cases (owned_execution db claim)) [
    | inl e ↦ rw (e, finalize) (idle refl)
    | inr ((job, r), e) ↦ rw (e, finalize) (finalize_resource-Ended job r e)
  ]

-- The transaction that ends the update of an instance changes nothing and sends no message; or it
-- leaves a new job, for which it has a message and which the task of the first step then claims for
-- its first attempt; or it has no message, and no member of the instance whose job the claim owns
-- is pending.
pub finalize-Ending :
    (claim : ExecutionClaim) (ids : List ℕ) (name : String) (next_job_id now : ℕ) (db db' : Db)
    (message : Option (String × ℕ)) (status : String)
    → finalize claim ids name next_job_id db ≡ (db', message, status)
    → Ending claim next_job_id now db db' message status
finalize-Ending claim ids name next_job_id now db db' message status h =
    subst
      (λ (out : Db × Option (String × ℕ) × String).
        Ending claim next_job_id now db out.0 out.1 out.2)
      h (finalize-Ended claim ids name next_job_id now db)
