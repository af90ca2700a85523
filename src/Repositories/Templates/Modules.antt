-- ===== src/Repositories/Templates/Modules.antt =====
-- The modules of a template and those of its workspaces, over the requests on both
-- (repositories/templates.py, repositories/workspaces.py).
use mathlib.Core.Option
use coder_manager.Base.{
  ℕ, ◌≡◌, ◌⊎◌, inl, inr, Bool, true, String, none, some, ◌==◌, nat_eq, string_eq, option_eq,
  list_eq, find, Option-cases, Bool-cases, arith, if◌then◌else◌, find-add, find-modify, add, modify,
}
use coder_manager.Model.{Template, Workspace, Db, modify_lifecycle, status_eq}
use coder_manager.Jobs.Registry.{workspace_delete_step_01}
use coder_manager.Repositories.Reply.{accepted, Reply-cases}
use coder_manager.Repositories.Jobs.{add_job_execution, requested}
use coder_manager.Repositories.Templates.{
  TemplateCreate, TemplateUpdate, create, update, remove, request_sync,
}
use coder_manager.Repositories.Templates.Fitting.{
  IsFitting, fits, KeepsWorkspaces, kept-IsFitting, add_template-IsFitting, remove-IsFitting,
  request_sync-IsFitting,
}
use coder_manager.Repositories.Templates.Fitting as Fitting
use coder_manager.Repositories.Workspaces.Parameters.{resolve_parameters}
use coder_manager.Repositories.Workspaces.Requests.{
  Collation, WorkspaceCreate, WorkspaceUpdate, lock_workspace, lock_available_instance,
  lock_template, validate_modules, of_parameters, user_parameters, new_workspace, updated,
}
use coder_manager.Repositories.Workspaces.Requests as Requests
use coder_manager.Repositories.Workspaces.Staging.{
  found_workspace, Request, creation, change, deletion, perform,
}

-- The requests of the API on the templates and the workspaces. The database gives a new template an
-- identifier that is not in use.
pub data CatalogStep (db : Db) : Db → Type 0 where
  add_template :
      (lower : String → String) (id : ℕ) (payload : TemplateCreate) (db' : Db)
      → find id db.templates ≡ none
      → create lower id payload db ≡ accepted db'
      → CatalogStep db db'
  update_template :
      (id : ℕ) (payload : TemplateUpdate) (db' : Db)
      → update id payload db ≡ accepted db'
      → CatalogStep db db'
  remove_template_of : (id : ℕ) (db' : Db) → remove id db ≡ accepted db' → CatalogStep db db'
  sync_template :
      (job_id id : ℕ) (db' : Db) → request_sync job_id id db ≡ accepted db' → CatalogStep db db'
  workspace_request :
      (collation : Collation) (q : Request) (job_id id : ℕ) (db' : Db) (b : Bool)
      → perform collation q job_id id db ≡ accepted (db', b)
      → CatalogStep db db'

-- The template that a workspace's request locked, and what it found.
locked_template :
    (id : ℕ) (t : Template) (db : Db)
    → lock_template id db ≡ accepted t
    → find id db.templates ≡ some t
unfolding lock_template
locked_template id t db h = elim (Option-cases (find id db.templates)) [
  | inl e ↦ absurd (ground arith)
  | inr (x, e) ↦ ground arith
]

-- Another workspace, whose template has its modules.
added :
    (id : ℕ) (v : Workspace) (t : Template) (db db' : Db)
    → db'.templates ≡ db.templates
    → db'.workspaces ≡ add id v db.workspaces
    → find v.template_id db.templates ≡ some t
    → fits t v.modules ≡ true
    → IsFitting db
    → IsFitting db'
added id v t db db' templates workspaces there ok fit n w at =
    let found : (if n == id then some v else find n db.workspaces) ≡ some w =
      ground (arith, at, workspaces, find-add n id v db.workspaces) in
    elim (Bool-cases (n == id)) [
      | inl hit ↦
          let same : v ≡ w = ground (arith, found, hit) in
          (t, rw templates (rw same at there), rw same at ok)
      | inr miss ↦ rw templates (fit n w (ground (arith, found, miss)))
    ]

-- A workspace's new columns, for which its template has the modules.
rewritten :
    (id : ℕ) (f : Workspace → Workspace) (v : Workspace) (t : Template) (db db' : Db)
    → db'.templates ≡ db.templates
    → db'.workspaces ≡ modify id f db.workspaces
    → find id db.workspaces ≡ some v
    → find (f v).template_id db.templates ≡ some t
    → fits t (f v).modules ≡ true
    → IsFitting db
    → IsFitting db'
rewritten id f v t db db' templates workspaces was there ok fit n w at =
    let found : (if n == id then Option.map f (find n db.workspaces) else find n db.workspaces)
        ≡ some w =
      ground (arith, at, workspaces, find-modify n id f db.workspaces) in
    elim (Bool-cases (n == id)) [
      | inl hit ↦
          let same : f v ≡ w = ground (arith, found, hit, was) in
          (t, rw templates (rw same at there), rw same at ok)
      | inr miss ↦ rw templates (fit n w (ground (arith, found, miss)))
    ]

create-IsFitting :
    (collation : Collation) (payload : WorkspaceCreate) (job_id id : ℕ) (db db' : Db)
    → Requests.create collation id job_id payload db ≡ accepted db'
    → IsFitting db
    → IsFitting db'
unfolding Requests.create add_job_execution validate_modules
create-IsFitting collation payload job_id id db db' h =
    elim (Reply-cases (lock_available_instance payload.instance_id db)) [
      | inr (e, l) ↦ absurd (ground arith)
      | inl (i, l) ↦ elim (Reply-cases (lock_template payload.template_id db)) [
        | inr (e, k) ↦ absurd (ground arith)
        | inl (t, k) ↦
            elim (Reply-cases (
              of_parameters (
                resolve_parameters
                  (collation.order_by_name (user_parameters payload.template_id db.parameters))
                  payload.parameters none))) [
                    | inr (e, r) ↦ absurd (ground arith)
                    | inl (parameters, r) ↦
                        added id (new_workspace job_id payload parameters) t db db' (ground arith)
                          (ground arith) (locked_template payload.template_id t db k) (ground arith)
                  ]
      ]
    ]

update-IsFitting :
    (collation : Collation) (payload : WorkspaceUpdate) (job_id id : ℕ) (db db' : Db) (b : Bool)
    → Requests.update collation job_id id payload db ≡ accepted (db', b)
    → IsFitting db
    → IsFitting db'
unfolding Requests.update add_job_execution validate_modules
update-IsFitting collation payload job_id id db db' b h =
    elim (Reply-cases (lock_workspace id db)) [
      | inr (e, x) ↦ absurd (ground arith)
      | inl (w, x) ↦ elim (Reply-cases (lock_available_instance w.instance_id db)) [
        | inr (e, l) ↦ absurd (ground arith)
        | inl (i, l) ↦ elim (Reply-cases (lock_template w.template_id db)) [
          | inr (e, k) ↦ absurd (ground arith)
          | inl (t, k) ↦
              elim (Reply-cases (
                of_parameters (
                  resolve_parameters
                    (collation.order_by_name (user_parameters w.template_id db.parameters))
                    payload.parameters (some w.parameters)))) [
                      | inr (e, r) ↦ absurd (ground arith)
                      | inl (parameters, r) ↦
                          let f : Workspace → Workspace =
                            λ old. updated old payload parameters job_id in
                          let outcome : (db' ≡ db)
                              ⊎ ((db'.templates ≡ db.templates)
                                  × (db'.workspaces ≡ modify id f db.workspaces)) =
                            ground arith in
                          elim outcome [
                            | inl same ↦ rw same (λ fit. fit)
                            | inr (templates, workspaces) ↦
                                rewritten id f w t db db' templates workspaces
                                  (found_workspace id db w x) (locked_template w.template_id t db k)
                                  (ground arith)
                          ]
                    ]
        ]
      ]
    ]

deletion-IsFitting :
    (job_id id : ℕ) (db db' : Db)
    → Requests.request_deletion job_id id db ≡ accepted db'
    → IsFitting db
    → IsFitting db'
unfolding Requests.request_deletion add_job_execution modify_lifecycle
deletion-IsFitting job_id id db db' h fit = elim (Reply-cases (lock_workspace id db)) [
  | inr (e, x) ↦ absurd (ground arith)
  | inl (w, x) ↦
      let f : Workspace → Workspace = λ old. record old {
        lifecycle = requested "deleting" job_id workspace_delete_step_01 old.lifecycle;
      } in
      let (t, there, ok) = fit id w (found_workspace id db w x) in
      elim (Reply-cases (lock_available_instance w.instance_id db)) [
        | inr (e, l) ↦ absurd (ground arith)
        | inl (i, l) ↦ elim (Reply-cases (lock_template w.template_id db)) [
          | inr (e, k) ↦ absurd (ground arith)
          | inl (s, k) ↦
              rewritten id f w t db db' (ground arith) (ground arith) (found_workspace id db w x)
                there ok fit
        ]
      ]
]

request-IsFitting :
    (collation : Collation) (q : Request) (job_id id : ℕ) (db db' : Db) (b : Bool)
    → perform collation q job_id id db ≡ accepted (db', b)
    → IsFitting db
    → IsFitting db'
request-IsFitting collation (creation payload) job_id id db db' b h =
    elim (Reply-cases (Requests.create collation id job_id payload db)) [
      | inr (e, c) ↦ absurd (ground arith)
      | inl (out, c) ↦ create-IsFitting collation payload job_id id db db' (ground arith)
    ]
request-IsFitting collation (change payload) job_id id db db' b h =
    update-IsFitting collation payload job_id id db db' b h
request-IsFitting collation deletion job_id id db db' b h =
    elim (Reply-cases (Requests.request_deletion job_id id db)) [
      | inr (e, c) ↦ absurd (ground arith)
      | inl (out, c) ↦ deletion-IsFitting job_id id db db' (ground arith)
    ]

-- Every workspace has a template that is there and has all modules of the workspace, after an
-- accepted creation, update, deletion or sync of a template or an accepted creation, change or
-- deletion of a workspace, if that held before; a new template takes an identifier that was not in
-- use.
pub CatalogStep-IsFitting : (db db' : Db) → CatalogStep db db' → IsFitting db → IsFitting db'
CatalogStep-IsFitting db db' (add_template lower id payload _ fresh h) =
    add_template-IsFitting lower id payload db db' fresh h
CatalogStep-IsFitting db db' (update_template id payload _ h) =
    Fitting.update-IsFitting id payload db db' h
CatalogStep-IsFitting db db' (remove_template_of id _ h) = remove-IsFitting id db db' h
CatalogStep-IsFitting db db' (sync_template job_id id _ h) =
    request_sync-IsFitting job_id id db db' h
CatalogStep-IsFitting db db' (workspace_request collation q job_id id _ b h) =
    request-IsFitting collation q job_id id db db' b h
