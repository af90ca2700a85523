-- ===== src/Repositories/Assignments/Deletion.antt =====
-- Deletions of an assignment: repeated ones, and those that wait for workspaces.
use coder_manager.Base.{
  ℕ, ◌≡◌, refl, ◌∙◌, ◌⊎◌, inl, inr, Bool, true, false, ◌&&◌, some, ◌==◌, nat_eq, string_eq,
  option_eq, Table, [], ◌∷◌, find, add, modify, exists_where, exists_where-find, Bool-cases,
  Option-cases, arith,
}
use coder_manager.Model.{modify_lifecycle, TemplateAssignment, Workspace, Db, status_eq}
use coder_manager.Jobs.Registry.{
  template_assignment_delete_step_01, template_assignment_delete_step_01_task,
}
use coder_manager.Repositories.Reply.{accepted, Reply-cases}
use coder_manager.Repositories.Jobs.{add_job_execution, is_retryable, requested}
use coder_manager.Repositories.Assignments.{
  lock_assignment, require_mutation_available, request_deletion, delete_existing, delete_assignment,
  is_created, workspace_is_busy, require_consistent_job,
}
use coder_manager.Repositories.Assignments.Outcomes.{IsAvailable}
use coder_manager.Repositories.Assignments.Idempotence.{deletion-intro}

-- An accepted deletion of an assignment: one that was outstanding already, or a new one.
pub data Outcome (job_id instance_id template_id id : ℕ) (a : TemplateAssignment) (db db' : Db)
    : Type 0 where
  repeated :
      db' ≡ db
      → ((j : ℕ) → delete_existing j instance_id template_id id a db ≡ accepted (db, some id, true))
      → Outcome job_id instance_id template_id id a db db'
  begun :
      exists_where (workspace_is_busy instance_id template_id) db.workspaces ≡ false
      → db' ≡ delete_assignment job_id id db
      → Outcome job_id instance_id template_id id a db db'

-- What an accepted deletion found.
pub record Found (job_id instance_id template_id id : ℕ) (db db' : Db) : Type 0 where
  pub assignment : TemplateAssignment
  pub locked : lock_assignment instance_id template_id db.assignments ≡ some (id, assignment)
  pub available : IsAvailable instance_id template_id db
  pub outcome : Outcome job_id instance_id template_id id assignment db db'

delete_existing-inv :
    (job_id instance_id template_id n id : ℕ) (a : TemplateAssignment) (db db' : Db) (b : Bool)
    → delete_existing job_id instance_id template_id n a db ≡ accepted (db', some id, b)
    → (n ≡ id) × Outcome job_id instance_id template_id n a db db'
unfolding delete_existing
delete_existing-inv job_id instance_id template_id n id a db db' b h =
    elim (Bool-cases (a.action == "deleting" && is_retryable a.status)) [
      | inl c ↦
          elim (Reply-cases (
            require_consistent_job n a "template_assignment.delete"
              template_assignment_delete_step_01_task template_assignment_delete_step_01 db)) [
                | inl (x, r) ↦ (ground arith, Outcome.repeated (ground arith) (λ j. ground arith))
                | inr (x, r) ↦ absurd (ground arith)
              ]
      | inr c ↦ elim (Bool-cases (is_created a)) [
        | inl d ↦
            elim (Bool-cases
              (exists_where (workspace_is_busy instance_id template_id) db.workspaces)) [
                | inl w ↦ absurd (ground arith)
                | inr w ↦ (ground arith, Outcome.begun w (ground arith))
              ]
        | inr d ↦ absurd (ground arith)
      ]
    ]

pub deletion-inv :
    (job_id instance_id template_id id : ℕ) (db db' : Db) (b : Bool)
    → request_deletion job_id instance_id template_id db ≡ accepted (db', some id, b)
    → Found job_id instance_id template_id id db db'
unfolding request_deletion
deletion-inv job_id instance_id template_id id db db' b h =
    elim (Option-cases (find instance_id db.instances)) [
      | inl e ↦ absurd (ground arith)
      | inr (i, e) ↦ elim (Option-cases (find template_id db.templates)) [
        | inl e' ↦ absurd (ground arith)
        | inr (t, e') ↦
            elim (Option-cases (lock_assignment instance_id template_id db.assignments)) [
              | inl l ↦ absurd (ground arith)
              | inr ((n, a), l) ↦ elim (Reply-cases (require_mutation_available i t)) [
                | inr (x, r) ↦ absurd (ground arith)
                | inl (x, r) ↦
                    let (same, out) =
                      delete_existing-inv job_id instance_id template_id n id a db db' b
                        (ground arith) in
                    let found : Found job_id instance_id template_id n db db' = record {
                      assignment = a;
                      locked = l;
                      available = record {
                        instance_row = i;
                        template_row = t;
                        instance_found = e;
                        template_found = e';
                        open_for_change = r;
                      };
                      outcome = out;
                    } in
                    rw same at found
              ]
            ]
      ]
    ]

-- An update of one row that keeps its instance and its template.
lock_assignment-modify :
    (instance_id template_id id : ℕ) (a : TemplateAssignment)
    (f : TemplateAssignment → TemplateAssignment) (t : Table TemplateAssignment)
    → ((x : TemplateAssignment)
        → ((f x).instance_id ≡ x.instance_id) × ((f x).template_id ≡ x.template_id))
    → lock_assignment instance_id template_id t ≡ some (id, a)
    → lock_assignment instance_id template_id (modify id f t) ≡ some (id, f a)
unfolding lock_assignment modify
lock_assignment-modify instance_id template_id id a f [] keeps h = ground arith
lock_assignment-modify instance_id template_id id a f ((j, x) ∷ t) keeps h =
    ground (arith, lock_assignment-modify instance_id template_id id a f t keeps, keeps x)

abbrev deleting : ℕ → TemplateAssignment → TemplateAssignment
deleting job_id a = record a {
  lifecycle = requested "deleting" job_id template_assignment_delete_step_01 a.lifecycle;
}

-- The deletion that has just begun, asked for again.
begun_again :
    (job_id job_id' instance_id template_id id : ℕ) (a : TemplateAssignment) (db : Db)
    → IsAvailable instance_id template_id db
    → lock_assignment instance_id template_id db.assignments ≡ some (id, a)
    → request_deletion job_id' instance_id template_id (delete_assignment job_id id db)
      ≡ accepted (delete_assignment job_id id db, some id, true)
unfolding delete_assignment add_job_execution modify_lifecycle delete_existing
    require_consistent_job find add
begun_again job_id job_id' instance_id template_id id a db open_now locked =
    let after = delete_assignment job_id id db in
    let held : lock_assignment instance_id template_id after.assignments
        ≡ some (id, deleting job_id a) =
      lock_assignment-modify instance_id template_id id a (deleting job_id) db.assignments
        (λ x. (refl, refl)) locked in
    let kept : IsAvailable instance_id template_id after = record {
      instance_row = open_now.instance_row;
      template_row = open_now.template_row;
      instance_found = open_now.instance_found;
      template_found = open_now.template_found;
      open_for_change = open_now.open_for_change;
    } in
    deletion-intro job_id' instance_id template_id id (deleting job_id a) after kept held
    ∙ ground arith

-- An accepted deletion of an assignment that was there is accepted again in the database that it
-- left, for the same assignment, and changes nothing more.
pub deletion-deletion :
    (job_id job_id' instance_id template_id id : ℕ) (db db' : Db) (b : Bool)
    → request_deletion job_id instance_id template_id db ≡ accepted (db', some id, b)
    → request_deletion job_id' instance_id template_id db' ≡ accepted (db', some id, true)
deletion-deletion job_id job_id' instance_id template_id id db db' b h =
    let f = deletion-inv job_id instance_id template_id id db db' b h in
    elim f.outcome [
      | repeated same again ↦ rw same (
          deletion-intro job_id' instance_id template_id id f.assignment db f.available f.locked
          ∙ again job_id')
      | begun quiet done ↦ rw done (
          begun_again job_id job_id' instance_id template_id id f.assignment db f.available
            f.locked)
    ]

-- An accepted deletion of an assignment that was there changes nothing, or no workspace of the
-- instance and the template is pending, running or in error.
pub deletion-quiet :
    (job_id instance_id template_id id : ℕ) (db db' : Db) (b : Bool)
    → request_deletion job_id instance_id template_id db ≡ accepted (db', some id, b)
    → (db' ≡ db)
      ⊎ ((n : ℕ) (w : Workspace)
          → find n db.workspaces ≡ some w
          → w.instance_id ≡ instance_id
          → w.template_id ≡ template_id
          → is_retryable w.status ≡ false)
deletion-quiet job_id instance_id template_id id db db' b h =
    let f = deletion-inv job_id instance_id template_id id db db' b h in
    elim f.outcome [
      | repeated same again ↦ inl same
      | begun quiet done ↦ inr (λ n w found i t. elim (Bool-cases (is_retryable w.status)) [
        | inr e ↦ e
        | inl e ↦ absurd (
            ground (
              arith,
              exists_where-find (workspace_is_busy instance_id template_id) n w db.workspaces found
                  (ground arith),
            ))
      ])
    ]
