-- ===== src/Repositories/Assignments/Outcomes.antt =====
-- The outcomes of `put` and `request_deletion`, branch by branch.
use coder_manager.Base.{
  ℕ, ◌≡◌, inl, inr, Bool, true, Option, none, some, nat_eq, string_eq, option_eq, find,
  Option-cases, arith,
}
use coder_manager.Model.{Instance, Template, TemplateAssignment, Db, status_eq}
use coder_manager.Repositories.Reply.{Reply, accepted, Reply-cases}
use coder_manager.Repositories.Assignments.{
  AssignmentError, lock_assignment, require_mutation_available, put, put_existing,
  create_assignment,
}

-- The guards that `put` and a deletion share.
pub record IsAvailable (instance_id template_id : ℕ) (db : Db) : Type 0 where
  pub instance_row : Instance
  pub template_row : Template
  pub instance_found : find instance_id db.instances ≡ some instance_row
  pub template_found : find template_id db.templates ≡ some template_row
  pub open_for_change : require_mutation_available instance_row template_row ≡ accepted tt

-- The part of `put` after its guards.
abbrev pub put_row :
    ℕ → ℕ → ℕ → ℕ → Db → Option (ℕ × TemplateAssignment) → Reply AssignmentError (Db × ℕ × Bool)
put_row assignment_id job_id instance_id template_id db none =
    accepted
      (create_assignment assignment_id job_id instance_id template_id db, assignment_id, true)
put_row assignment_id job_id instance_id template_id db (some (id, a)) = put_existing id a db

pub put-inv :
    (assignment_id job_id instance_id template_id : ℕ) (db : Db) (out : Db × ℕ × Bool)
    → put assignment_id job_id instance_id template_id db ≡ accepted out
    → IsAvailable instance_id template_id db
      × (put_row assignment_id job_id instance_id template_id db
            (lock_assignment instance_id template_id db.assignments)
          ≡ accepted out)
unfolding put
put-inv assignment_id job_id instance_id template_id db out h =
    elim (Option-cases (find instance_id db.instances)) [
      | inl e ↦ absurd (ground arith)
      | inr (i, e) ↦ elim (Option-cases (find template_id db.templates)) [
        | inl e' ↦ absurd (ground arith)
        | inr (t, e') ↦ elim (Reply-cases (require_mutation_available i t)) [
          | inr (x, r) ↦ absurd (ground arith)
          | inl (x, r) ↦ (
            record {
              instance_row = i;
              template_row = t;
              instance_found = e;
              template_found = e';
              open_for_change = r;
            },
            elim (Option-cases (lock_assignment instance_id template_id db.assignments)) [
              | inl l ↦ ground arith
              | inr (row, l) ↦ ground arith
            ],
          )
        ]
      ]
    ]

pub put-intro :
    (assignment_id job_id instance_id template_id : ℕ) (db : Db)
    → IsAvailable instance_id template_id db
    → put assignment_id job_id instance_id template_id db
      ≡ put_row assignment_id job_id instance_id template_id db
          (lock_assignment instance_id template_id db.assignments)
unfolding put
put-intro assignment_id job_id instance_id template_id db a =
    elim (Option-cases (lock_assignment instance_id template_id db.assignments)) [
      | inl l ↦ ground (arith, a)
      | inr (row, l) ↦ ground (arith, a)
    ]
