-- ===== src/Program/Settled.antt =====
-- The requests of the API that queue no job, or whose reply says that there is no work, and the
-- link between resources and jobs.
use coder_manager.Base.{
  add, delete, Table, not, ℕ, ◌≡◌, refl, inl, inr, Bool, false, none, some, nat_eq, find, modify,
  find-modify, Option-cases, arith,
}
use coder_manager.Model.{
  instance_kind, template_kind, assignment_kind, workspace_kind, lifecycle_of, TemplateImage,
  TemplateParameter, Database, Db,
}
use coder_manager.Jobs.Consistency.Settling.{IsConsistent}
use coder_manager.Jobs.Consistency.Requests.{unchanged-IsConsistent}
use coder_manager.Jobs.Execution.Resources.{SameRows}
use coder_manager.Repositories.Reply.{accepted, Reply-cases}
use coder_manager.Repositories.Databases.{DatabaseServices, DatabaseCreate, DatabaseUpdate}
use coder_manager.Repositories.Databases as Databases
use coder_manager.Repositories.Images.{ImageCreate}
use coder_manager.Repositories.Images as Images
use coder_manager.Repositories.Parameters.{
  ParameterCreate, ParameterUpdate, ValueCipher, lock_template, locked_parameter, new_parameter,
  apply_update, advance, advance_if, advanced,
}
use coder_manager.Repositories.Parameters as Parameters
use coder_manager.Repositories.Parameters.Revisions.{ParameterStep, creation, change, deletion}
use coder_manager.Repositories.Assignments.{lock_assignment}
use coder_manager.Repositories.Assignments as Assignments
use coder_manager.Repositories.Workspaces.Parameters.{resolve_parameters}
use coder_manager.Repositories.Workspaces.Requests.{
  is_user, Collation, WorkspaceUpdate, of_parameters, user_parameters, lock_workspace,
  lock_available_instance,
}
use coder_manager.Repositories.Workspaces.Requests as Workspaces
use coder_manager.Repositories.Workspaces.Staging as Staging

-- The tables that hold the resources are those of another database.
pub record SameTables (db db' : Db) : Type 0 where
  pub jobs : db'.jobs ≡ db.jobs
  instances : db'.instances ≡ db.instances
  templates : (n : ℕ) → lifecycle_of template_kind n db' ≡ lifecycle_of template_kind n db
  assignments : db'.assignments ≡ db.assignments
  workspaces : db'.workspaces ≡ db.workspaces

same_rows : {db db' : Db} → SameTables db db' → SameRows db db'
unfolding lifecycle_of
same_rows s instance_kind n = rw (s.instances) refl
same_rows s template_kind n = s.templates n
same_rows s assignment_kind n = rw (s.assignments) refl
same_rows s workspace_kind n = rw (s.workspaces) refl

pub settled-IsConsistent : {db db' : Db} → SameTables db db' → IsConsistent db → IsConsistent db'
settled-IsConsistent {db} {db'} s = unchanged-IsConsistent db db' s.jobs (same_rows s)

module _ {db db' : Db} where
  with_databases : (t : Table Database) → db' ≡ record db { databases = t } → SameTables db db'
  unfolding lifecycle_of
  with_databases t done = rw done (record {
    jobs = refl;
    instances = refl;
    templates = λ n. refl;
    assignments = refl;
    workspaces = refl;
  })

  with_images : (t : Table TemplateImage) → db' ≡ record db { images = t } → SameTables db db'
  unfolding lifecycle_of
  with_images t done = rw done (record {
    jobs = refl;
    instances = refl;
    templates = λ n. refl;
    assignments = refl;
    workspaces = refl;
  })

  with_parameters :
      (changed : Bool) (template_id : ℕ) (t : Table TemplateParameter)
      → db' ≡ advance_if changed template_id (record db { parameters = t })
      → SameTables db db'
  unfolding advance lifecycle_of
  with_parameters changed template_id t done = record {
    jobs = ground (arith, done);
    instances = ground (arith, done);
    templates = λ n. ground (arith, done, find-modify n template_id advanced db.templates);
    assignments = ground (arith, done);
    workspaces = ground (arith, done);
  }

pub create_database-SameTables :
    (services : DatabaseServices) (id : ℕ) (payload : DatabaseCreate) (db db' : Db)
    → Databases.create services id payload db ≡ accepted db'
    → SameTables db db'
unfolding Databases.create
create_database-SameTables services id payload db db' h =
    (with_databases (add id (Databases.new_database services id payload) db.databases)
      (ground arith))

pub update_database-SameTables :
    (services : DatabaseServices) (id : ℕ) (payload : DatabaseUpdate) (db db' : Db)
    → Databases.update services id payload db ≡ accepted db'
    → SameTables db db'
unfolding Databases.update
update_database-SameTables services id payload db db' h =
    elim (Option-cases (find id db.databases)) [
      | inl e ↦ absurd (ground arith)
      | inr (d, e) ↦
          (with_databases (modify id (Databases.replaced services id payload) db.databases)
            (ground arith))
    ]

pub remove_database-SameTables :
    (id : ℕ) (db db' : Db) → Databases.remove id db ≡ accepted db' → SameTables db db'
unfolding Databases.remove
remove_database-SameTables id db db' h = elim (Option-cases (find id db.databases)) [
  | inl e ↦ absurd (ground arith)
  | inr (d, e) ↦ (with_databases (delete id db.databases) (ground arith))
]

pub create_image-SameTables :
    (image_id template_id : ℕ) (payload : ImageCreate) (db db' : Db)
    → Images.create image_id template_id payload db ≡ accepted db'
    → SameTables db db'
unfolding Images.create
create_image-SameTables image_id template_id payload db db' h =
    elim (Option-cases (find template_id db.templates)) [
      | inl e ↦ absurd (ground arith)
      | inr (t, e) ↦
          (with_images (add image_id (Images.new_image template_id payload) db.images)
            (ground arith))
    ]

pub remove_image-SameTables :
    (template_id image_id : ℕ) (db db' : Db)
    → Images.remove template_id image_id db ≡ accepted db'
    → SameTables db db'
unfolding Images.remove
remove_image-SameTables template_id image_id db db' h =
    elim (Option-cases (find template_id db.templates)) [
      | inl e ↦ absurd (ground arith)
      | inr (t, e) ↦ elim (Option-cases (find image_id db.images)) [
        | inl n ↦ absurd (ground arith)
        | inr (i, n) ↦ (with_images (delete image_id db.images) (ground arith))
      ]
    ]

pub ParameterStep-SameTables : (db db' : Db) → ParameterStep db db' → SameTables db db'
unfolding Parameters.create Parameters.update Parameters.remove
ParameterStep-SameTables db db' (creation parameter_id template_id payload cipher _ fresh h) =
    elim (Reply-cases (lock_template template_id db)) [
      | inr (e, l) ↦ absurd (ground arith)
      | inl (x, l) ↦ elim (Reply-cases (new_parameter parameter_id template_id payload cipher)) [
        | inr (e, r) ↦ absurd (ground arith)
        | inl ((q, changed), r) ↦
            (with_parameters changed template_id (add parameter_id q db.parameters) (ground arith))
      ]
    ]
ParameterStep-SameTables db db' (change template_id parameter_id payload cipher _ h) =
    elim (Reply-cases (lock_template template_id db)) [
      | inr (e, l) ↦ absurd (ground arith)
      | inl (x, l) ↦ elim (Reply-cases (locked_parameter template_id parameter_id db)) [
        | inr (e, k) ↦ absurd (ground arith)
        | inl (p, k) ↦ elim (Reply-cases (apply_update parameter_id p payload cipher)) [
          | inr (e, r) ↦ absurd (ground arith)
          | inl ((q, changed), r) ↦
              (with_parameters changed template_id (modify parameter_id (λ _. q) db.parameters)
                (ground arith))
        ]
      ]
    ]
ParameterStep-SameTables db db' (deletion template_id parameter_id _ h) =
    elim (Reply-cases (lock_template template_id db)) [
      | inr (e, l) ↦ absurd (ground arith)
      | inl (x, l) ↦ elim (Reply-cases (locked_parameter template_id parameter_id db)) [
        | inr (e, k) ↦ absurd (ground arith)
        | inl (p, k) ↦
            (with_parameters (not (is_user p.type)) template_id (delete parameter_id db.parameters)
              (ground arith))
      ]
    ]

-- A deletion of an assignment that is not there.
pub no_assignment-unchanged :
    (job_id instance_id template_id : ℕ) (db db' : Db) (b : Bool)
    → Assignments.request_deletion job_id instance_id template_id db ≡ accepted (db', none, b)
    → db' ≡ db
unfolding Assignments.request_deletion Assignments.require_mutation_available
    Assignments.delete_existing
no_assignment-unchanged job_id instance_id template_id db db' b h =
    elim (Option-cases (find instance_id db.instances)) [
      | inl e ↦ absurd (ground arith)
      | inr (i, e) ↦ elim (Option-cases (find template_id db.templates)) [
        | inl k ↦ absurd (ground arith)
        | inr (t, k) ↦
            elim (Option-cases (lock_assignment instance_id template_id db.assignments)) [
              | inl l ↦ ground arith
              | inr ((id, a), l) ↦ absurd (ground arith)
            ]
      ]
    ]

-- A change of a workspace whose reply says that there is no work.
pub no_work-unchanged :
    (collation : Collation) (q : Staging.Request) (job_id id : ℕ) (db db' : Db)
    → Staging.perform collation q job_id id db ≡ accepted (db', false)
    → db' ≡ db
unfolding Workspaces.update
no_work-unchanged collation (Staging.Request.creation payload) job_id id db db' h =
    elim (Reply-cases (Workspaces.create collation id job_id payload db)) [
      | inr (e, c) ↦ absurd (ground arith)
      | inl (out, c) ↦ absurd (ground arith)
    ]
no_work-unchanged collation (Staging.Request.change payload) job_id id db db' h =
    elim (Reply-cases (lock_workspace id db)) [
      | inr (e, x) ↦ absurd (ground arith)
      | inl (w, x) ↦ elim (Reply-cases (lock_available_instance w.instance_id db)) [
        | inr (e, l) ↦ absurd (ground arith)
        | inl (i, l) ↦ elim (Reply-cases (Workspaces.lock_template w.template_id db)) [
          | inr (e, k) ↦ absurd (ground arith)
          | inl (t, k) ↦
              elim (Reply-cases (
                of_parameters (
                  resolve_parameters
                    (collation.order_by_name (user_parameters w.template_id db.parameters))
                    payload.parameters (some w.parameters)))) [
                      | inr (e, r) ↦ absurd (ground arith)
                      | inl (parameters, r) ↦ ground arith
                    ]
        ]
      ]
    ]
no_work-unchanged collation Staging.Request.deletion job_id id db db' h =
    elim (Reply-cases (Workspaces.request_deletion job_id id db)) [
      | inr (e, c) ↦ absurd (ground arith)
      | inl (out, c) ↦ absurd (ground arith)
    ]
