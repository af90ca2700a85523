-- ===== src/Program/Requests.antt =====
-- The requests of the API that add or discard a job, seen through the abstract machine of a job.
use coder_manager.Base.{
  ℕ, ◌≡◌, refl, inl, inr, Bool, true, false, String, Option, none, some, ◌==◌, nat_eq, option_eq,
  find, Option-cases, Bool-cases, arith, if◌then◌else◌,
}
use coder_manager.Model.{Kind, pending, success, JobExecution, Template, Db, template_kind}
use coder_manager.Jobs.Consistency.Settling.{IsConsistent}
use coder_manager.Repositories.Reply.{accepted}
use coder_manager.Repositories.Jobs.{is_retryable}
use coder_manager.Repositories.Requested.{Requested, queued_job}
use coder_manager.Repositories.Assignments.{
  delete_assignment, put, request_deletion, lock_assignment,
}
use coder_manager.Repositories.Assignments.Outcomes.{put-inv}
use coder_manager.Repositories.Assignments.Idempotence.{put_existing-unchanged}
use coder_manager.Repositories.Assignments.Linking.{created_jobs, created_job}
use coder_manager.Repositories.Assignments.Withdrawal.{deleted_jobs, deletion_job}
use coder_manager.Repositories.Assignments.Deletion.{repeated, begun, deletion-inv}
use coder_manager.Repositories.Members.Changes.{Change, change, change-Changed, unchanged, written}
use coder_manager.Repositories.Members.Updates.{
  with_update, request_instance_update-cases, update_jobs, update_job,
}
use coder_manager.Repositories.Workspaces.Requests.{Collation}
use coder_manager.Repositories.Workspaces.Staging as Workspaces
use coder_manager.Repositories.Workspaces.Queueing as Workspaces_queueing
use coder_manager.Repositories.Templates.{TemplateUpdate}
use coder_manager.Repositories.Templates as Templates
use coder_manager.Repositories.Templates.Discarding.{find-discard, row_of-template}
use coder_manager.Repositories.Templates.Linking.{request_sync-inv, request_sync-Requested}
use coder_manager.Repositories.Templates.Catalog.{
  update-inv, remove-inv, find-apply_update, find-remove_template,
}
use coder_manager.Program.Protocol.{state_of, job_state, stays, created, discarded, JobsMove}
use coder_manager.Program.Settled.{no_assignment-unchanged, no_work-unchanged}

-- One new job.
module _ (job_id : ℕ) (new : JobExecution) (db db' : Db) (fresh : find job_id db.jobs ≡ none)
    (is_new : state_of new ≡ record { status = pending; attempt = 0 })
    (jobs : (j : ℕ) → find j db'.jobs ≡ (if j == job_id then some new else find j db.jobs)) where
  pub queued-JobsMove : JobsMove db db'
  queued-JobsMove j = elim (Bool-cases (j == job_id)) [
    | inl hit ↦
        let key : j ≡ job_id = ground (arith, hit) in
        let before : job_state j db ≡ none = ground (arith, key, fresh) in
        let after : job_state j db' ≡ some (state_of new) = ground (arith, jobs j, hit) in
        rw (before, after, is_new) created
    | inr miss ↦
        let after : job_state j db' ≡ job_state j db = ground (arith, jobs j, miss) in
        rw after stays
  ]

-- The job of a request.
abbrev pub new_job :
    {db db' : Db} {k : Kind} {i job_id : ℕ} {action name task step : String}
    → Requested db db' k i job_id action name task step
    → JobExecution
new_job {k} {i} {name} {task} {step} r = queued_job k i name task step

pub create-jobs :
    (lower : String → String) (id : ℕ) (payload : Templates.TemplateCreate) (db db' : Db)
    → Templates.create lower id payload db ≡ accepted db'
    → db'.jobs ≡ db.jobs
unfolding Templates.create
create-jobs lower id payload db db' h = ground arith

-- The job of a template that is not at work, which goes.
module _ (id : ℕ) (t : Template) (db db' : Db) (c : IsConsistent db)
    (found : find id db.templates ≡ some t) (quiet : is_retryable t.status ≡ false)
    (jobs : (j : ℕ) → find j db'.jobs ≡ (if some j == t.job_id then none else find j db.jobs)) where
  discarded-JobsMove : JobsMove db db'
  discarded-JobsMove j = elim (Bool-cases (some j == t.job_id)) [
    | inl hit ↦
        let named : t.job_id ≡ some j =
          ground (arith, (option_eq {A = ℕ}).equals_iff (some j) t.job_id, hit) in
        let (job, at, b) = c template_kind id t.lifecycle j (row_of-template id t db found) named in
        let done : job.status ≡ success = ground (arith, b.status, quiet) in
        let before : job_state j db ≡ some (record { status = success; attempt = job.attempt }) =
          ground (arith, at, done) in
        let after : job_state j db' ≡ none = ground (arith, jobs j, hit) in
        rw (before, after) discarded
    | inr miss ↦
        let after : job_state j db' ≡ job_state j db = ground (arith, jobs j, miss) in
        rw after stays
  ]

pub sync-JobsMove :
    (job_id id : ℕ) (db db' : Db)
    → find job_id db.jobs ≡ none
    → Templates.request_sync job_id id db ≡ accepted db'
    → IsConsistent db
    → JobsMove db db'
sync-JobsMove job_id id db db' fresh h c j =
    let (t, e, quiet, done) = request_sync-inv job_id id db db' h in
    let mid = Templates.discard_current_job id t db in
    let gone = discarded-JobsMove id t db mid c e quiet (λ n. find-discard n id t db) in
    let r = request_sync-Requested job_id id t db e in
    let fresh' : find job_id mid.jobs ≡ none = ground (arith, find-discard job_id id t db, fresh) in
    elim (Bool-cases (j == job_id)) [
      | inl hit ↦
          let key : j ≡ job_id = ground (arith, hit) in
          let before : job_state j db ≡ none = ground (arith, key, fresh) in
          let after : job_state j db' ≡ some (record { status = pending; attempt = 0 }) =
            ground (arith, done, r.jobs j, hit) in
          rw (before, after) created
      | inr miss ↦
          let after : job_state j db' ≡ job_state j mid = ground (arith, done, r.jobs j, miss) in
          rw after (gone j)
    ]

pub put-JobsMove :
    (assignment_id job_id instance_id template_id id : ℕ) (db db' : Db) (b : Bool)
    → find job_id db.jobs ≡ none
    → put assignment_id job_id instance_id template_id db ≡ accepted (db', id, b)
    → JobsMove db db'
put-JobsMove assignment_id job_id instance_id template_id id db db' b fresh h =
    let (open_now, row) = put-inv assignment_id job_id instance_id template_id db (db', id, b) h in
    elim (Option-cases (lock_assignment instance_id template_id db.assignments)) [
      | inl l ↦ queued-JobsMove job_id (created_job assignment_id) db db' fresh refl (λ j.
          ground (arith, created_jobs assignment_id job_id instance_id template_id db j, row, l))
      | inr ((n, a), l) ↦
          let (same, same_id) = put_existing-unchanged n a db db' id b (ground arith) in
          rw same (λ j. stays)
    ]

pub deletion-JobsMove :
    (job_id instance_id template_id : ℕ) (id : Option ℕ) (db db' : Db) (b : Bool)
    → find job_id db.jobs ≡ none
    → request_deletion job_id instance_id template_id db ≡ accepted (db', id, b)
    → JobsMove db db'
deletion-JobsMove job_id instance_id template_id none db db' b fresh h =
    rw (no_assignment-unchanged job_id instance_id template_id db db' b h) (λ j. stays)
deletion-JobsMove job_id instance_id template_id (some id) db db' b fresh h =
    elim (deletion-inv job_id instance_id template_id id db db' b h).outcome [
      | repeated same again ↦ rw same (λ j. stays)
      | begun quiet done ↦ rw done (
          queued-JobsMove job_id (deletion_job id) db (delete_assignment job_id id db) fresh refl
            (deleted_jobs job_id id db))
    ]

pub member-JobsMove :
    (x : Change) (member_id job_id instance_id : ℕ) (db db' : Db)
    → find job_id db.jobs ≡ none
    → change x member_id job_id instance_id db ≡ accepted db'
    → JobsMove db db'
member-JobsMove x member_id job_id instance_id db db' fresh h =
    elim (change-Changed x member_id job_id instance_id db db' h) [
      | unchanged m held asked same ↦ rw same (λ j. stays)
      | written i members l found m held owned waits asked kept done ↦
          let base : Db = record db { members = members } in
          elim (request_instance_update-cases job_id instance_id i base) [
            | inl (same, acts, busy) ↦ rw (done, same) (λ j. stays)
            | inr queued ↦
                rw (done, queued)
                  (queued-JobsMove job_id (update_job instance_id) db
                    (with_update job_id instance_id base) fresh refl
                    (update_jobs job_id instance_id base))
          ]
    ]

pub workspace-JobsMove :
    (collation : Collation) (q : Workspaces.Request) (job_id id : ℕ) (db db' : Db) (b : Bool)
    → find job_id db.jobs ≡ none
    → Workspaces.perform collation q job_id id db ≡ accepted (db', b)
    → JobsMove db db'
workspace-JobsMove collation q job_id id db db' true fresh h =
    let s = Workspaces.perform-Staged collation q job_id id db db' h in
    queued-JobsMove job_id (Workspaces_queueing.staged_job s) db db' fresh refl
      (Workspaces_queueing.staged_jobs s)
workspace-JobsMove collation q job_id id db db' false fresh h =
    rw (no_work-unchanged collation q job_id id db db' h) (λ j. stays)

pub update-JobsMove :
    (id : ℕ) (payload : TemplateUpdate) (db db' : Db)
    → Templates.update id payload db ≡ accepted db'
    → IsConsistent db
    → JobsMove db db'
update-JobsMove id payload db db' h c = elim (update-inv id payload db db' h) [
  | inl same ↦ rw same (λ j. stays)
  | inr (t, e, quiet, done) ↦ rw done (
      discarded-JobsMove id t db (Templates.apply_update id t payload db) c e quiet
        (λ j. find-apply_update j id t payload db))
]

pub removal-JobsMove :
    (id : ℕ) (db db' : Db)
    → Templates.remove id db ≡ accepted db'
    → IsConsistent db
    → JobsMove db db'
removal-JobsMove id db db' h c =
    let (t, e, quiet, done) = remove-inv id db db' h in
    rw done (
      discarded-JobsMove id t db
        (Templates.remove_template id (Templates.discard_current_job id t db)) c e quiet
        (λ j. find-remove_template j id t db))
