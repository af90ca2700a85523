-- ===== src/Repositories/Templates/Linking.antt =====
-- The requests on a template (repositories/templates.py), and the link between resources and jobs.
use coder_manager.Base.{
  ℕ, ◌≡◌, refl, inl, inr, false, none, some, nat_eq, find, Option-cases, arith, option_eq,
}
use coder_manager.Model.{Template, Db, template_kind, modify_lifecycle}
use coder_manager.Jobs.Registry.{expected_action, template_sync_step_01, template_sync_step_01_task}
use coder_manager.Jobs.Execution.{ExecutionClaim, claim_execution}
use coder_manager.Jobs.Consistency.Settling.{IsConsistent}
use coder_manager.Jobs.Consistency.Queued.{queued-claimable}
use coder_manager.Repositories.Reply.{accepted}
use coder_manager.Repositories.Jobs.{add_job_execution, requested, is_retryable}
use coder_manager.Repositories.Requested.{
  Requested, queued-Requested, Requested-IsQueued, Requested-IsConsistent,
}
use coder_manager.Repositories.Templates.{
  discard_current_job, unlinked, request_sync, ensure_no_active_assignments,
  ensure_no_active_workspaces,
}
use coder_manager.Repositories.Templates.Discarding.{
  lifecycle_of-discard, find-discard, discarded-IsConsistent, row_of-template,
}

-- A request that found its template.
pub request_sync-inv :
    (job_id id : ℕ) (db db' : Db)
    → request_sync job_id id db ≡ accepted db'
    → (t : Template) × (find id db.templates ≡ some t)
      × (is_retryable t.status ≡ false)
      × (db'
          ≡ modify_lifecycle template_kind id (requested "syncing" job_id template_sync_step_01) (
              add_job_execution job_id "template.sync" template_sync_step_01_task
                (some "template")
                (some id)
                template_sync_step_01
                (discard_current_job id t db)))
unfolding request_sync ensure_no_active_assignments ensure_no_active_workspaces
request_sync-inv job_id id db db' h = elim (Option-cases (find id db.templates)) [
  | inl e ↦ absurd (ground arith)
  | inr (t, e) ↦ (t, e, ground arith, ground arith)
]

discard-IsConsistent :
    (id : ℕ) (t : Template) (db : Db)
    → find id db.templates ≡ some t
    → IsConsistent db
    → IsConsistent (discard_current_job id t db)
discard-IsConsistent id t db e =
    discarded-IsConsistent db (discard_current_job id t db) template_kind id t.lifecycle
      (some (unlinked t.lifecycle)) (row_of-template id t db e) (λ j. find-discard j id t db)
      (λ h n. lifecycle_of-discard h n id t db e) (λ l same. ground (arith, same))

pub request_sync-Requested :
    (job_id id : ℕ) (t : Template) (db : Db)
    → find id db.templates ≡ some t
    → Requested
        (discard_current_job id t db)
        (modify_lifecycle template_kind id (requested "syncing" job_id template_sync_step_01) (
          add_job_execution job_id "template.sync" template_sync_step_01_task
            (some "template")
            (some id)
            template_sync_step_01
            (discard_current_job id t db)))
        template_kind
        id
        job_id
        "syncing"
        "template.sync"
        template_sync_step_01_task
        template_sync_step_01
unfolding expected_action
request_sync-Requested job_id id t db e =
    queued-Requested template_kind id job_id "syncing" "template.sync" template_sync_step_01_task
      template_sync_step_01 (unlinked t.lifecycle) (discard_current_job id t db)
      (ground (arith, lifecycle_of-discard template_kind id id t db e)) refl

-- An accepted sync of a template queues a job, which the task of the first sync step then claims
-- for its first attempt.
pub request_sync-claimable :
    (job_id id now : ℕ) (db db' : Db)
    → request_sync job_id id db ≡ accepted db'
    → (c : ExecutionClaim) × ((claim_execution job_id template_sync_step_01_task now db').1
        ≡ some c)
      × (c.attempt ≡ 1)
request_sync-claimable job_id id now db db' h =
    let (t, e, quiet, done) = request_sync-inv job_id id db db' h in
    rw done (queued-claimable now (Requested-IsQueued (request_sync-Requested job_id id t db e)))

-- An accepted sync of a template, under a job identifier that was not in use, keeps the link between
-- resources and jobs (each job that a resource names is in the table, is of that resource, and has
-- its status).
pub request_sync-IsConsistent :
    (job_id id : ℕ) (db db' : Db)
    → find job_id db.jobs ≡ none
    → request_sync job_id id db ≡ accepted db'
    → IsConsistent db
    → IsConsistent db'
request_sync-IsConsistent job_id id db db' fresh h c =
    let (t, e, quiet, done) = request_sync-inv job_id id db db' h in
    rw done (
      Requested-IsConsistent (request_sync-Requested job_id id t db e)
        (ground (arith, find-discard job_id id t db, fresh)) (discard-IsConsistent id t db e c))
