-- ===== src/Repositories/Workspaces/Queueing.antt =====
-- The database after an accepted request on a workspace: its row and the job that was queued.
use coder_manager.Base.{
  string_eq, sym, ℕ, ◌≡◌, refl, ◌∙◌, inl, inr, true, ◌&&◌, String, none, some, ◌==◌, nat_eq,
  contains, find, find-add, Option-cases, arith, if◌then◌else◌,
}
use coder_manager.Model.{
  Db, JobExecution, Lifecycle, pending, status_eq, Workspace, Kind, workspace_kind, kind_beq,
  lifecycle_of,
}
use coder_manager.Jobs.Registry.{registered_step_names}
use coder_manager.Jobs.Execution.{ExecutionClaim, claim_execution}
use coder_manager.Jobs.Consistency.Settling.{IsConsistent}
use coder_manager.Jobs.Consistency.Requests.{requested-IsConsistent}
use coder_manager.Jobs.Consistency.Queued.{IsQueued, queued-claimable}
use coder_manager.Repositories.Reply.{accepted, refused}
use coder_manager.Repositories.Jobs.{add_job_execution, lifecycle_of-add_job_execution}
use coder_manager.Repositories.Workspaces.Requests.{
  Collation, WorkspaceUpdate, busy, lock_workspace, ensure_workspace_available, update,
  request_deletion,
}
use coder_manager.Repositories.Workspaces.Staging.{Request, perform, Staged, perform-Staged}

abbrev staged_row :
    {job_id workspace_id : ℕ} {db db' : Db} → Staged job_id workspace_id db db' → Lifecycle
staged_row {job_id} s = record {
  action = s.action;
  status = pending;
  job_id = some job_id;
  step = some s.step;
}

abbrev pub staged_job :
    {job_id workspace_id : ℕ} {db db' : Db} → Staged job_id workspace_id db db' → JobExecution
staged_job {workspace_id} s = record {
  name = s.name;
  task_name = s.task;
  resource_type = some "workspace";
  resource_id = some workspace_id;
  step = s.step;
  status = pending;
  attempt = 0;
  claimed_at = none;
}

module _ {job_id workspace_id : ℕ} {db db' : Db} (s : Staged job_id workspace_id db db') where
  pub staged_jobs :
      (j : ℕ) → find j db'.jobs ≡ (if j == job_id then some (staged_job s) else find j db.jobs)
  unfolding add_job_execution
  staged_jobs j = rw s.done (find-add j job_id (staged_job s) db.jobs)

  other_rows :
      (h : Kind) (n : ℕ)
      → lifecycle_of h n (record db { workspaces = s.workspaces }) ≡ (
          if kind_beq h workspace_kind && n == workspace_id
          then some (staged_row s)
          else lifecycle_of h n db)
  unfolding lifecycle_of
  other_rows workspace_kind n = s.written n
  other_rows _ n = refl

  staged_rows :
      (h : Kind) (n : ℕ)
      → lifecycle_of h n db' ≡ (
          if kind_beq h workspace_kind && n == workspace_id
          then some (staged_row s)
          else lifecycle_of h n db)
  staged_rows h n = rw s.done (
      lifecycle_of-add_job_execution h n job_id s.name s.task (some "workspace") (some workspace_id)
        s.step (record db { workspaces = s.workspaces })
      ∙ other_rows h n)

  Staged-IsQueued : IsQueued db' workspace_kind workspace_id job_id s.task
  Staged-IsQueued = record {
    job = staged_job s;
    row = staged_row s;
    found = ground (arith, staged_jobs job_id);
    located = ground (arith, staged_rows workspace_kind workspace_id);
    belongs = record { type = refl; id = refl; status = refl };
    task_name = refl;
    waits = refl;
    first = refl;
    job_link = refl;
    expected = s.expected;
    step = refl;
  }

  Staged-IsConsistent : find job_id db.jobs ≡ none → IsConsistent db → IsConsistent db'
  Staged-IsConsistent fresh =
      requested-IsConsistent db db' workspace_kind workspace_id job_id (staged_job s)
        (some (staged_row s)) fresh staged_jobs staged_rows (λ l e. ground arith) (refl, refl, refl)

-- An accepted creation, change or deletion of a workspace that answers that there is work queues a
-- job for a registered task, which then claims it for its first attempt.
pub workspace-claimable :
    (collation : Collation) (q : Request) (job_id workspace_id now : ℕ) (db db' : Db)
    → perform collation q job_id workspace_id db ≡ accepted (db', true)
    → (task : String) × (c : ExecutionClaim) × (contains registered_step_names task ≡ true)
      × ((claim_execution job_id task now db').1 ≡ some c)
      × (c.attempt ≡ 1)
workspace-claimable collation q job_id workspace_id now db db' h =
    let s = perform-Staged collation q job_id workspace_id db db' h in
    let (c, claimed, first) = queued-claimable now (Staged-IsQueued s) in
    (s.task, c, s.registered, claimed, first)

-- An accepted creation, change or deletion of a workspace that answers that there is work, under a
-- job identifier that was not in use, keeps the link between resources and jobs (each job that a
-- resource names is in the table, is of that resource, and has its status).
pub workspace-IsConsistent :
    (collation : Collation) (q : Request) (job_id workspace_id : ℕ) (db db' : Db)
    → find job_id db.jobs ≡ none
    → perform collation q job_id workspace_id db ≡ accepted (db', true)
    → IsConsistent db
    → IsConsistent db'
workspace-IsConsistent collation q job_id workspace_id db db' fresh h =
    Staged-IsConsistent (perform-Staged collation q job_id workspace_id db db' h) fresh

waiting-busy :
    (workspace_id : ℕ) (db : Db) (l : Lifecycle)
    → lifecycle_of workspace_kind workspace_id db ≡ some l
    → l.status ≡ pending
    → (w : Workspace) × (lock_workspace workspace_id db ≡ accepted w)
      × (ensure_workspace_available w ≡ refused busy)
unfolding lifecycle_of lock_workspace ensure_workspace_available
waiting-busy workspace_id db l e p = elim (Option-cases (find workspace_id db.workspaces)) [
  | inl f ↦ absurd (ground arith)
  | inr (w, f) ↦ (w, ground arith, ground arith)
]

-- After an accepted creation, change or deletion of a workspace that answers that there is work, a
-- change and a deletion of that workspace are refused as busy.
pub workspace-excludes :
    (collation : Collation) (q : Request) (payload : WorkspaceUpdate)
    (job_id job_id' workspace_id : ℕ) (db db' : Db)
    → perform collation q job_id workspace_id db ≡ accepted (db', true)
    → (update collation job_id' workspace_id payload db' ≡ refused busy)
      × (request_deletion job_id' workspace_id db' ≡ refused busy)
unfolding update request_deletion
workspace-excludes collation q payload job_id job_id' workspace_id db db' h =
    let s = perform-Staged collation q job_id workspace_id db db' h in
    let k = Staged-IsQueued s in
    let (w, locked, refuses) =
      waiting-busy workspace_id db' k.row k.located (sym k.belongs.status ∙ k.waits) in
    (ground arith, ground arith)
