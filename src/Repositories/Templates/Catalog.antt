-- ===== src/Repositories/Templates/Catalog.antt =====
-- The catalog of templates (`create`, `update` and `delete` of repositories/templates.py), and the link between resources and jobs.
use coder_manager.Base.{
  false, if◌then◌else◌, option_eq, ℕ, ◌≡◌, refl, ◌⊎◌, inl, inr, String, none, some, ◌==◌, nat_eq,
  find, delete_where, Table, Option-cases, Bool-cases, arith, find-add, find-modify, add, modify,
  option_eq,
}
use coder_manager.Model.{
  TemplateImage, TemplateParameter, Template, Db, instance_kind, template_kind, assignment_kind,
  workspace_kind, lifecycle_of, lifecycle_of-modify_lifecycle, jobs-modify_lifecycle,
  lifecycle_of-delete_resource, jobs-delete_resource,
}
use coder_manager.Jobs.Consistency.Settling.{IsConsistent}
use coder_manager.Jobs.Consistency.Requests.{unchanged-IsConsistent}
use coder_manager.Jobs.Execution.Resources.{SameRows}
use coder_manager.Repositories.Jobs.{is_retryable}
use coder_manager.Repositories.Reply.{accepted}
use coder_manager.Repositories.Templates.{
  discard_current_job, unlinked, TemplateCreate, TemplateUpdate, create, update, remove,
  new_template, apply_update, remove_template, replaced, settled, ensure_no_active_assignments,
  ensure_no_active_workspaces,
}
use coder_manager.Repositories.Templates.Discarding.{
  lifecycle_of-discard, find-discard, discarded-IsConsistent, row_of-template,
}

pub update-inv :
    (id : ℕ) (payload : TemplateUpdate) (db db' : Db)
    → update id payload db ≡ accepted db'
    → (db' ≡ db)
      ⊎ ((t : Template) × (find id db.templates ≡ some t)
          × (is_retryable t.status ≡ false)
          × (db' ≡ apply_update id t payload db))
unfolding update ensure_no_active_assignments ensure_no_active_workspaces
update-inv id payload db db' h = elim (Option-cases (find id db.templates)) [
  | inl e ↦ absurd (ground arith)
  | inr (t, e) ↦ ground (arith, e)
]

pub remove-inv :
    (id : ℕ) (db db' : Db)
    → remove id db ≡ accepted db'
    → (t : Template) × (find id db.templates ≡ some t)
      × (is_retryable t.status ≡ false)
      × (db' ≡ remove_template id (discard_current_job id t db))
unfolding remove
remove-inv id db db' h = elim (Option-cases (find id db.templates)) [
  | inl e ↦ absurd (ground arith)
  | inr (t, e) ↦ (t, e, ground arith, ground arith)
]

added-IsConsistent :
    (id : ℕ) (t : Template) (db : Db)
    → t.job_id ≡ none
    → IsConsistent db
    → IsConsistent (record db { templates = add id t db.templates })
unfolding lifecycle_of
added-IsConsistent id t db free c template_kind i l j row named = elim (Bool-cases (i == id)) [
  | inl hit ↦ absurd (ground (arith, find-add i id t db.templates, hit))
  | inr miss ↦ c template_kind i l j (ground (arith, find-add i id t db.templates, miss)) named
]
added-IsConsistent id t db free c instance_kind i l j row named = c instance_kind i l j row named
added-IsConsistent id t db free c assignment_kind i l j row named =
    c assignment_kind i l j row named
added-IsConsistent id t db free c workspace_kind i l j row named = c workspace_kind i l j row named

replaced-SameRows :
    (id : ℕ) (payload : TemplateUpdate) (db : Db)
    → SameRows db (record db { templates = modify id (replaced payload) db.templates })
unfolding lifecycle_of
replaced-SameRows id payload db template_kind i =
    ground (arith, find-modify i id (replaced payload) db.templates)
replaced-SameRows id payload db _ i = refl

apply_update-IsConsistent :
    (id : ℕ) (t : Template) (payload : TemplateUpdate) (db : Db)
    → find id db.templates ≡ some t
    → IsConsistent db
    → IsConsistent (apply_update id t payload db)
unfolding discard_current_job
apply_update-IsConsistent id t payload db e c =
    let mid : Db = record db { templates = modify id (replaced payload) db.templates } in
    let new = replaced payload t in
    let at : find id mid.templates ≡ some new =
      ground (arith, find-modify id id (replaced payload) db.templates, e) in
    discarded-IsConsistent mid (apply_update id t payload db) template_kind id t.lifecycle
      (some (settled (unlinked t.lifecycle))) (row_of-template id new mid at)
      (λ j. ground (
        arith,
        jobs-modify_lifecycle template_kind id settled (discard_current_job id new mid),
        find-discard j id new mid,
      ))
      (λ h n. ground (
        arith,
        lifecycle_of-modify_lifecycle h template_kind n id settled (discard_current_job id new mid),
        lifecycle_of-discard h n id new mid at,
      ))
      (λ l same. ground (arith, same))
      (unchanged-IsConsistent db mid refl (replaced-SameRows id payload db) c)

with_rows-SameRows :
    (images : Table TemplateImage) (parameters : Table TemplateParameter) (db : Db)
    → SameRows db (record db { images = images; parameters = parameters })
unfolding lifecycle_of
with_rows-SameRows images parameters db template_kind i = refl
with_rows-SameRows images parameters db _ i = refl

remove_template-IsConsistent :
    (id : ℕ) (t : Template) (db : Db)
    → find id db.templates ≡ some t
    → IsConsistent db
    → IsConsistent (remove_template id (discard_current_job id t db))
remove_template-IsConsistent id t db e =
    let mid = discard_current_job id t db in
    let bare : Db = record mid {
      images = delete_where (λ _ i. i.template_id == id) mid.images;
      parameters = delete_where (λ _ p. p.template_id == id) mid.parameters;
    } in
    discarded-IsConsistent db (remove_template id mid) template_kind id t.lifecycle none
      (row_of-template id t db e)
      (λ j. ground (arith, jobs-delete_resource template_kind id bare, find-discard j id t db))
      (λ h n. ground (
        arith,
        lifecycle_of-delete_resource h template_kind n id bare,
        with_rows-SameRows bare.images bare.parameters mid h n,
        lifecycle_of-discard h n id t db e,
      ))
      (λ l same. ground (arith, same))

pub create-IsConsistent :
    (lower : String → String) (id : ℕ) (payload : TemplateCreate) (db db' : Db)
    → create lower id payload db ≡ accepted db'
    → IsConsistent db
    → IsConsistent db'
unfolding create
create-IsConsistent lower id payload db db' h =
    let done : db' ≡ record db { templates = add id (new_template payload) db.templates } =
      ground arith in
    rw done (added-IsConsistent id (new_template payload) db refl)

pub update-IsConsistent :
    (id : ℕ) (payload : TemplateUpdate) (db db' : Db)
    → update id payload db ≡ accepted db'
    → IsConsistent db
    → IsConsistent db'
update-IsConsistent id payload db db' h c = elim (update-inv id payload db db' h) [
  | inl same ↦ rw same c
  | inr (t, e, quiet, done) ↦ rw done (apply_update-IsConsistent id t payload db e c)
]

pub remove-IsConsistent :
    (id : ℕ) (db db' : Db) → remove id db ≡ accepted db' → IsConsistent db → IsConsistent db'
remove-IsConsistent id db db' h c =
    let (t, e, quiet, done) = remove-inv id db db' h in
    rw done (remove_template-IsConsistent id t db e c)

-- The jobs that are left.
pub find-apply_update :
    (j id : ℕ) (t : Template) (payload : TemplateUpdate) (db : Db)
    → find j (apply_update id t payload db).jobs
      ≡ (if some j == t.job_id then none else find j db.jobs)
find-apply_update j id t payload db =
    let mid : Db = record db { templates = modify id (replaced payload) db.templates } in
    ground (
      arith,
      jobs-modify_lifecycle template_kind id settled (discard_current_job id t mid),
      find-discard j id t mid,
    )

pub find-remove_template :
    (j id : ℕ) (t : Template) (db : Db)
    → find j (remove_template id (discard_current_job id t db)).jobs
      ≡ (if some j == t.job_id then none else find j db.jobs)
find-remove_template j id t db =
    let mid = discard_current_job id t db in
    let bare : Db = record mid {
      images = delete_where (λ _ i. i.template_id == id) mid.images;
      parameters = delete_where (λ _ p. p.template_id == id) mid.parameters;
    } in
    ground (arith, jobs-delete_resource template_kind id bare, find-discard j id t db)
