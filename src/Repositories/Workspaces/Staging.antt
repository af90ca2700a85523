-- ===== src/Repositories/Workspaces/Staging.antt =====
-- The requests of the API on one workspace, and what each of them stages.
use coder_manager.Base.{
  ℕ, ◌≡◌, refl, inl, inr, Bool, true, String, none, some, ◌==◌, nat_eq, string_eq, option_eq,
  contains, Table, find, find-add, find-modify, add, modify, Option-cases, arith, if◌then◌else◌,
}
use coder_manager.Model.{
  Workspace, Db, Lifecycle, pending, status_eq, workspace_kind, lifecycle_of, modify_lifecycle,
}
use coder_manager.Jobs.Registry.{
  workspace_create_step_01, workspace_create_step_01_task, workspace_update_step_01,
  workspace_update_step_01_task, workspace_delete_step_01, workspace_delete_step_01_task,
  expected_action, registered_step_names,
}
use coder_manager.Repositories.Reply.{Reply, accepted, ◌>>=◌, Reply-cases}
use coder_manager.Repositories.Jobs.{add_job_execution, requested}
use coder_manager.Repositories.Workspaces.Parameters.{resolve_parameters}
use coder_manager.Repositories.Workspaces.Requests.{
  Collation, WorkspaceError, WorkspaceCreate, WorkspaceUpdate, of_parameters, user_parameters,
  lock_workspace, lock_available_instance, lock_template, new_workspace, updated, create, update,
  request_deletion,
}

pub data Request : Type 0 where
  creation : WorkspaceCreate → Request
  change : WorkspaceUpdate → Request
  deletion : Request

abbrev pub perform : Collation → Request → ℕ → ℕ → Db → Reply WorkspaceError (Db × Bool)
perform collation (creation payload) job_id workspace_id db = do
  db' ← create collation workspace_id job_id payload db
  accepted (db', true)
perform collation (change payload) job_id workspace_id db =
    update collation job_id workspace_id payload db
perform collation deletion job_id workspace_id db = do
  db' ← request_deletion job_id workspace_id db
  accepted (db', true)

-- A request that left work for the worker: the workspaces it wrote, the columns of its own
-- workspace, and the job.
pub record Staged (job_id workspace_id : ℕ) (db db' : Db) : Type 0 where
  pub workspaces : Table Workspace
  pub action : String
  pub name : String
  pub task : String
  pub step : String
  pub written :
      (n : ℕ)
      → lifecycle_of workspace_kind n (record db { workspaces = workspaces }) ≡ (
          if n == workspace_id
          then some
              (record { action = action; status = pending; job_id = some job_id; step = some step })
          else lifecycle_of workspace_kind n db)
  pub expected : expected_action name ≡ some action
  pub registered : contains registered_step_names task ≡ true
  pub done :
      db'
      ≡ add_job_execution job_id name task
          (some "workspace")
          (some workspace_id)
          step
          (record db { workspaces = workspaces })

modify-lifecycle :
    (workspace_id : ℕ) (f : Workspace → Workspace) (l : Lifecycle) (w : Workspace) (db : Db)
    → find workspace_id db.workspaces ≡ some w
    → ((x : Workspace) → (f x).lifecycle ≡ l)
    → (n : ℕ)
    → lifecycle_of workspace_kind n (record db { workspaces = modify workspace_id f db.workspaces })
      ≡ (if n == workspace_id then some l else lifecycle_of workspace_kind n db)
unfolding lifecycle_of
modify-lifecycle workspace_id f l w db found sets n =
    ground (arith, find-modify n workspace_id f db.workspaces, sets w)

pub found_workspace :
    (workspace_id : ℕ) (db : Db) (w : Workspace)
    → lock_workspace workspace_id db ≡ accepted w
    → find workspace_id db.workspaces ≡ some w
unfolding lock_workspace
found_workspace workspace_id db w h = elim (Option-cases (find workspace_id db.workspaces)) [
  | inl e ↦ absurd (ground arith)
  | inr (w', e) ↦ ground arith
]

create-Staged :
    (collation : Collation) (payload : WorkspaceCreate) (job_id workspace_id : ℕ) (db db' : Db)
    → create collation workspace_id job_id payload db ≡ accepted db'
    → Staged job_id workspace_id db db'
unfolding create lifecycle_of expected_action registered_step_names
create-Staged collation payload job_id workspace_id db db' h =
    elim (Reply-cases (lock_available_instance payload.instance_id db)) [
      | inr (e, l) ↦ absurd (ground arith)
      | inl (i, l) ↦ elim (Reply-cases (lock_template payload.template_id db)) [
        | inr (e, k) ↦ absurd (ground arith)
        | inl (t, k) ↦
            elim (Reply-cases (
              of_parameters (
                resolve_parameters
                  (collation.order_by_name (user_parameters payload.template_id db.parameters))
                  payload.parameters none))) [
                    | inr (e, r) ↦ absurd (ground arith)
                    | inl (parameters, r) ↦ record {
                      workspaces =
                          add workspace_id (new_workspace job_id payload parameters) db.workspaces;
                      action = "creating";
                      name = "workspace.create";
                      task = workspace_create_step_01_task;
                      step = workspace_create_step_01;
                      written = λ n. ground (
                        arith,
                        find-add n workspace_id (new_workspace job_id payload parameters)
                            db.workspaces,
                      );
                      expected = refl;
                      registered = refl;
                      done = ground arith;
                    }
                  ]
      ]
    ]

update-Staged :
    (collation : Collation) (payload : WorkspaceUpdate) (job_id workspace_id : ℕ) (db db' : Db)
    → update collation job_id workspace_id payload db ≡ accepted (db', true)
    → Staged job_id workspace_id db db'
unfolding update expected_action registered_step_names
update-Staged collation payload job_id workspace_id db db' h =
    elim (Reply-cases (lock_workspace workspace_id db)) [
      | inr (e, x) ↦ absurd (ground arith)
      | inl (w, x) ↦ elim (Reply-cases (lock_available_instance w.instance_id db)) [
        | inr (e, l) ↦ absurd (ground arith)
        | inl (i, l) ↦ elim (Reply-cases (lock_template w.template_id db)) [
          | inr (e, k) ↦ absurd (ground arith)
          | inl (t, k) ↦
              elim (Reply-cases (
                of_parameters (
                  resolve_parameters
                    (collation.order_by_name (user_parameters w.template_id db.parameters))
                    payload.parameters (some w.parameters)))) [
                      | inr (e, r) ↦ absurd (ground arith)
                      | inl (parameters, r) ↦
                          let f : Workspace → Workspace =
                            λ old. updated old payload parameters job_id in
                          record {
                            workspaces = modify workspace_id f db.workspaces;
                            action = "updating";
                            name = "workspace.update";
                            task = workspace_update_step_01_task;
                            step = workspace_update_step_01;
                            written =
                                modify-lifecycle workspace_id f _ w db
                                  (found_workspace workspace_id db w x) (λ old. refl);
                            expected = refl;
                            registered = refl;
                            done = ground arith;
                          }
                    ]
        ]
      ]
    ]

deletion-Staged :
    (job_id workspace_id : ℕ) (db db' : Db)
    → request_deletion job_id workspace_id db ≡ accepted db'
    → Staged job_id workspace_id db db'
unfolding request_deletion modify_lifecycle expected_action registered_step_names
deletion-Staged job_id workspace_id db db' h = elim (Reply-cases (lock_workspace workspace_id db)) [
  | inr (e, x) ↦ absurd (ground arith)
  | inl (w, x) ↦ elim (Reply-cases (lock_available_instance w.instance_id db)) [
    | inr (e, l) ↦ absurd (ground arith)
    | inl (i, l) ↦ elim (Reply-cases (lock_template w.template_id db)) [
      | inr (e, k) ↦ absurd (ground arith)
      | inl (t, k) ↦
          let f : Workspace → Workspace = λ old. record old {
            lifecycle = requested "deleting" job_id workspace_delete_step_01 old.lifecycle;
          } in
          record {
            workspaces = modify workspace_id f db.workspaces;
            action = "deleting";
            name = "workspace.delete";
            task = workspace_delete_step_01_task;
            step = workspace_delete_step_01;
            written =
                modify-lifecycle workspace_id f _ w db (found_workspace workspace_id db w x)
                  (λ old. refl);
            expected = refl;
            registered = refl;
            done = ground arith;
          }
    ]
  ]
]

pub perform-Staged :
    (collation : Collation) (q : Request) (job_id workspace_id : ℕ) (db db' : Db)
    → perform collation q job_id workspace_id db ≡ accepted (db', true)
    → Staged job_id workspace_id db db'
perform-Staged collation (creation payload) job_id workspace_id db db' h =
    elim (Reply-cases (create collation workspace_id job_id payload db)) [
      | inr (e, c) ↦ absurd (ground arith)
      | inl (out, c) ↦ create-Staged collation payload job_id workspace_id db db' (ground arith)
    ]
perform-Staged collation (change payload) job_id workspace_id db db' h =
    update-Staged collation payload job_id workspace_id db db' h
perform-Staged collation deletion job_id workspace_id db db' h =
    elim (Reply-cases (request_deletion job_id workspace_id db)) [
      | inr (e, c) ↦ absurd (ground arith)
      | inl (out, c) ↦ deletion-Staged job_id workspace_id db db' (ground arith)
    ]
