-- ===== src/Repositories/Templates/Fitting.antt =====
-- The modules of a template and those of its workspaces, over the requests on templates
-- (repositories/templates.py).
use coder_manager.Base.{
  ℕ, ◌≡◌, refl, ◌∙◌, ◌⊎◌, inl, inr, Bool, true, false, String, none, some, ◌==◌, nat_eq, string_eq,
  option_eq, list_eq, List, all, contains, Table, find, find-delete, Option-cases, Bool-cases,
  arith, if◌then◌else◌, find-add, find-modify, add, modify, exists_where, exists_where-find,
}
use coder_manager.Model.{
  Template, Workspace, Db, template_kind, modify_lifecycle, delete_resource, status_eq,
}
use coder_manager.Jobs.Registry.{template_sync_step_01, template_sync_step_01_task}
use coder_manager.Repositories.Reply.{accepted}
use coder_manager.Repositories.Jobs.{add_job_execution, requested}
use coder_manager.Repositories.Templates.{
  unlinked, settled, discard_current_job, TemplateCreate, TemplateUpdate, create, update, remove,
  request_sync, new_template, apply_update, remove_template, replaced, ensure_no_active_assignments,
  ensure_no_active_workspaces, is_invalidated,
}
use coder_manager.Repositories.Templates.Linking.{request_sync-inv}

-- The template has the modules.
abbrev pub fits : Template → List String → Bool
fits t modules = all (contains t.modules) modules

-- Every workspace's template is there, and has the workspace's modules.
abbrev pub IsFitting : Db → Type 0
IsFitting db =
    (id : ℕ) (w : Workspace)
    → find id db.workspaces ≡ some w
    → (t : Template) × (find w.template_id db.templates ≡ some t) × (fits t w.modules ≡ true)

-- The templates keep their modules.
abbrev pub KeepsModules : Db → Db → Type 0
KeepsModules db db' =
    (id : ℕ) (t : Template)
    → find id db.templates ≡ some t
    → (t' : Template) × (find id db'.templates ≡ some t') × (t'.modules ≡ t.modules)

-- Each workspace that is left has the template and the modules of one that was there.
abbrev pub KeepsWorkspaces : Db → Db → Type 0
KeepsWorkspaces db db' =
    (id : ℕ) (w' : Workspace)
    → find id db'.workspaces ≡ some w'
    → (w : Workspace) × (find id db.workspaces ≡ some w)
      × (w'.template_id ≡ w.template_id)
      × (w'.modules ≡ w.modules)

pub kept-IsFitting :
    (db db' : Db) → KeepsModules db db' → KeepsWorkspaces db db' → IsFitting db → IsFitting db'
kept-IsFitting db db' templates workspaces fit id w' e =
    let (w, at, same, modules) = workspaces id w' e in
    let (t, there, ok) = fit id w at in
    let (t', there', same_modules) = templates w.template_id t there in
    (t', rw same there', ground (arith, same_modules, modules, ok))

pub add_template-IsFitting :
    (lower : String → String) (id : ℕ) (payload : TemplateCreate) (db db' : Db)
    → find id db.templates ≡ none
    → create lower id payload db ≡ accepted db'
    → IsFitting db
    → IsFitting db'
unfolding create
add_template-IsFitting lower id payload db db' fresh h fit =
    let done : db' ≡ record db { templates = add id (new_template payload) db.templates } =
      ground arith in
    rw done (λ n w e.
      let (t, there, ok) = fit n w e in
      (
        t,
        ground (arith, there, fresh, find-add w.template_id id (new_template payload) db.templates),
        ok,
      ))

find-kept :
    (n id : ℕ) (f : Template → Template) (t : Table Template) (x : Template)
    → ((y : Template) → (f y).modules ≡ y.modules)
    → find n t ≡ some x
    → (x' : Template) × (find n (modify id f t) ≡ some x') × (x'.modules ≡ x.modules)
find-kept n id f t x same e = elim (Bool-cases (n == id)) [
  | inl hit ↦ (f x, ground (arith, find-modify n id f t, e, hit), same x)
  | inr miss ↦ (x, ground (arith, find-modify n id f t, e, miss), refl)
]

discard-find : (id : ℕ) (t : Template) (db : Db) → KeepsModules db (discard_current_job id t db)
unfolding discard_current_job modify_lifecycle
discard-find id t db n x e = elim (Option-cases t.job_id) [
  | inl free ↦ rw (free, discard_current_job) (x, e, refl)
  | inr (j, named) ↦
      rw (named, discard_current_job)
        (find-kept n id (λ r. record r { lifecycle = unlinked r.lifecycle }) db.templates x
          (λ y. refl) e)
]

discard-workspaces :
    (id : ℕ) (t : Template) (db : Db) → (discard_current_job id t db).workspaces ≡ db.workspaces
unfolding discard_current_job modify_lifecycle
discard-workspaces id t db = elim (Option-cases t.job_id) [
  | inl e ↦ rw (e, discard_current_job) refl
  | inr (j, e) ↦ rw (e, discard_current_job) refl
]

apply_update-workspaces :
    (id : ℕ) (payload : TemplateUpdate) (t : Template) (db : Db)
    → (apply_update id t payload db).workspaces ≡ db.workspaces
unfolding modify_lifecycle
apply_update-workspaces id payload t db =
    discard-workspaces id t (record db { templates = modify id (replaced payload) db.templates })

apply_update-templates :
    (n id : ℕ) (payload : TemplateUpdate) (t x : Template) (db : Db)
    → find n db.templates ≡ some x
    → (x' : Template) × (find n (apply_update id t payload db).templates ≡ some x')
      × (x'.modules ≡ (if n == id then payload.modules else x.modules))
unfolding modify_lifecycle
apply_update-templates n id payload t x db e =
    let mid : Db = record db { templates = modify id (replaced payload) db.templates } in
    let changed : find n mid.templates ≡ some (if n == id then replaced payload x else x) =
      ground (arith, find-modify n id (replaced payload) db.templates, e) in
    let (y, at, same) =
      discard-find id t mid n (if n == id then replaced payload x else x) changed in
    let (z, there, kept) =
      find-kept n id (λ r. record r { lifecycle = settled r.lifecycle })
        (discard_current_job id t mid).templates y (λ w. refl) at in
    (z, there, ground (arith, kept, same))

applied :
    (id : ℕ) (payload : TemplateUpdate) (t : Template) (db : Db)
    → exists_where (is_invalidated id payload.modules) db.workspaces ≡ false
    → IsFitting db
    → IsFitting (apply_update id t payload db)
applied id payload t db valid fit n w at =
    let held : find n db.workspaces ≡ some w =
      ground (arith, at, apply_update-workspaces id payload t db) in
    let (x, there, ok) = fit n w held in
    let (x', there', modules) = apply_update-templates w.template_id id payload t x db there in
    let seen = exists_where-find (is_invalidated id payload.modules) n w db.workspaces held in
    (x', there', ground (arith, modules, ok, valid, seen))

pub update-IsFitting :
    (id : ℕ) (payload : TemplateUpdate) (db db' : Db)
    → update id payload db ≡ accepted db'
    → IsFitting db
    → IsFitting db'
unfolding update modify_lifecycle ensure_no_active_assignments ensure_no_active_workspaces
update-IsFitting id payload db db' h fit = elim (Option-cases (find id db.templates)) [
  | inl e ↦ absurd (ground arith)
  | inr (t, e) ↦
      let outcome : (db' ≡ db)
          ⊎ ((exists_where (is_invalidated id payload.modules) db.workspaces ≡ false)
              × (db' ≡ apply_update id t payload db)) =
        ground arith in
      elim outcome [
        | inl same ↦ rw same fit
        | inr (valid, done) ↦ rw done (applied id payload t db valid fit)
      ]
]

pub remove-IsFitting :
    (id : ℕ) (db db' : Db) → remove id db ≡ accepted db' → IsFitting db → IsFitting db'
unfolding remove delete_resource
remove-IsFitting id db db' h fit = elim (Option-cases (find id db.templates)) [
  | inl e ↦ absurd (ground arith)
  | inr (t, e) ↦
      let unused : exists_where (λ _ w. w.template_id == id) db.workspaces ≡ false = ground arith in
      let done : db' ≡ remove_template id (discard_current_job id t db) = ground arith in
      rw done (λ n w at.
        let held : find n db.workspaces ≡ some w = ground (arith, at, discard-workspaces id t db) in
        let (x, there, ok) = fit n w held in
        let (y, there', same) = discard-find id t db w.template_id x there in
        let seen = exists_where-find (λ _ v. v.template_id == id) n w db.workspaces held in
        (
          y,
          ground (
            arith,
            find-delete w.template_id id (discard_current_job id t db).templates,
            there',
            seen,
            unused,
          ),
          ground (arith, same, ok),
        ))
]

pub request_sync-IsFitting :
    (job_id id : ℕ) (db db' : Db)
    → request_sync job_id id db ≡ accepted db'
    → IsFitting db
    → IsFitting db'
unfolding modify_lifecycle add_job_execution
request_sync-IsFitting job_id id db db' h =
    let (t, e, quiet, done) = request_sync-inv job_id id db db' h in
    let mid = discard_current_job id t db in
    let link = requested "syncing" job_id template_sync_step_01 in
    rw done (
      kept-IsFitting db
        (modify_lifecycle template_kind id link (
          add_job_execution job_id "template.sync" template_sync_step_01_task (some "template")
            (some id) template_sync_step_01 mid))
        (λ n x at.
          let (y, there, same) = discard-find id t db n x at in
          let (z, there', same') =
            find-kept n id (λ r. record r { lifecycle = link r.lifecycle }) mid.templates y
              (λ w. refl) there in
          (z, there', same' ∙ same))
        (λ n w at. (w, ground (arith, at, discard-workspaces id t db), refl, refl)))
