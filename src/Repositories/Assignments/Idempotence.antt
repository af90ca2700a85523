-- ===== src/Repositories/Assignments/Idempotence.antt =====
-- Repeated calls of `put`, and a deletion after a `put`.
use coder_manager.Base.{
  ℕ, ◌≡◌, refl, ◌∙◌, inl, inr, Bool, true, false, ◌&&◌, some, ◌==◌, nat_eq, string_eq, option_eq,
  find, add, Bool-cases, Option-cases, eq_of_beq, arith,
}
use coder_manager.Model.{TemplateAssignment, Db, status_eq}
use coder_manager.Jobs.Registry.{
  template_assignment_create_step_01, template_assignment_create_step_01_task,
}
use coder_manager.Repositories.Reply.{accepted, refused, Reply-cases}
use coder_manager.Repositories.Jobs.{add_job_execution, is_retryable}
use coder_manager.Repositories.Assignments.{
  action_conflict, lock_assignment, put, put_existing, create_assignment, request_deletion,
  delete_existing, is_created, new_assignment, require_consistent_job,
}
use coder_manager.Repositories.Assignments.Outcomes.{IsAvailable, put-inv, put-intro}

-- A created assignment, asked for again.
created_again :
    (assignment_id job_id instance_id template_id : ℕ) (db : Db)
    → (lock_assignment instance_id template_id
          (create_assignment assignment_id job_id instance_id template_id db).assignments
        ≡ some (assignment_id, new_assignment job_id instance_id template_id))
      × (put_existing assignment_id
            (new_assignment job_id instance_id template_id)
            (create_assignment assignment_id job_id instance_id template_id db)
          ≡ accepted (
            create_assignment assignment_id job_id instance_id template_id db,
            assignment_id,
            true,
          ))
unfolding lock_assignment create_assignment add_job_execution add put_existing
    require_consistent_job find
created_again assignment_id job_id instance_id template_id db = (ground arith, ground arith)

-- The guards look at the instance and the template alone.
create_assignment-IsAvailable :
    (assignment_id job_id instance_id template_id : ℕ) (db : Db)
    → IsAvailable instance_id template_id db
    → IsAvailable instance_id template_id
        (create_assignment assignment_id job_id instance_id template_id db)
unfolding create_assignment add_job_execution
create_assignment-IsAvailable assignment_id job_id instance_id template_id db a = record {
  instance_row = a.instance_row;
  template_row = a.template_row;
  instance_found = a.instance_found;
  template_found = a.template_found;
  open_for_change = a.open_for_change;
}

-- An assignment that was there is left as it is.
pub put_existing-unchanged :
    (id : ℕ) (a : TemplateAssignment) (db db' : Db) (id' : ℕ) (b : Bool)
    → put_existing id a db ≡ accepted (db', id', b)
    → (db' ≡ db) × (id' ≡ id)
unfolding put_existing
put_existing-unchanged id a db db' id' b h = elim (Bool-cases (is_created a)) [
  | inl e ↦ (ground arith, ground arith)
  | inr e ↦ elim (Bool-cases (a.action == "creating" && is_retryable a.status)) [
    | inl c ↦
        elim (Reply-cases (
          require_consistent_job id a "template_assignment.create"
            template_assignment_create_step_01_task template_assignment_create_step_01 db)) [
              | inl (x, r) ↦ (ground arith, ground arith)
              | inr (x, r) ↦ absurd (ground arith)
            ]
    | inr c ↦ absurd (ground arith)
  ]
]

-- A `put` of an assignment that was accepted is accepted again in the database that it left, with
-- the same assignment and the same answer whether work is outstanding, and changes nothing more.
pub put-put :
    (assignment_id job_id assignment_id' job_id' instance_id template_id id : ℕ) (db db' : Db)
    (b : Bool)
    → put assignment_id job_id instance_id template_id db ≡ accepted (db', id, b)
    → put assignment_id' job_id' instance_id template_id db' ≡ accepted (db', id, b)
put-put assignment_id job_id assignment_id' job_id' instance_id template_id id db db' b h =
    let (open_now, row) = put-inv assignment_id job_id instance_id template_id db (db', id, b) h in
    elim (Option-cases (lock_assignment instance_id template_id db.assignments)) [
      | inl l ↦
          let after = create_assignment assignment_id job_id instance_id template_id db in
          let (locked, again) = created_again assignment_id job_id instance_id template_id db in
          let kept =
            create_assignment-IsAvailable assignment_id job_id instance_id template_id db
              open_now in
          let out : put assignment_id' job_id' instance_id template_id after
              ≡ accepted (after, assignment_id, true) =
            (put-intro assignment_id' job_id' instance_id template_id after kept
              ∙ rw locked again) in
          let same : db' ≡ after = ground arith in rw same (ground arith)
      | inr ((n, a), l) ↦
          let (same, same_id) = put_existing-unchanged n a db db' id b (ground arith) in
          rw same
            (put-intro assignment_id' job_id' instance_id template_id db open_now ∙ ground arith)
    ]

-- The guards of a deletion, once it has found the assignment.
pub deletion-intro :
    (job_id instance_id template_id id : ℕ) (a : TemplateAssignment) (db : Db)
    → IsAvailable instance_id template_id db
    → lock_assignment instance_id template_id db.assignments ≡ some (id, a)
    → request_deletion job_id instance_id template_id db
      ≡ delete_existing job_id instance_id template_id id a db
unfolding request_deletion
deletion-intro job_id instance_id template_id id a db open_now l = ground (arith, open_now)

-- An assignment whose creation is outstanding cannot be deleted.
creating-not_deletable :
    (job_id instance_id template_id id : ℕ) (a : TemplateAssignment) (db : Db)
    → a.action ≡ "creating"
    → is_retryable a.status ≡ true
    → delete_existing job_id instance_id template_id id a db ≡ refused action_conflict
unfolding delete_existing
creating-not_deletable job_id instance_id template_id id a db e r =
    let other : (a.action == "deleting") ≡ false = rw e refl in
    let other' : (a.action == "created") ≡ false = rw e refl in ground arith

put_existing-creating :
    (id : ℕ) (a : TemplateAssignment) (db db' : Db) (id' : ℕ)
    → put_existing id a db ≡ accepted (db', id', true)
    → (a.action ≡ "creating") × (is_retryable a.status ≡ true)
unfolding put_existing
put_existing-creating id a db db' id' h = elim (Bool-cases (is_created a)) [
  | inl e ↦ absurd (ground arith)
  | inr e ↦ elim (Bool-cases (a.action == "creating" && is_retryable a.status)) [
    | inl c ↦ (eq_of_beq a.action "creating" (ground arith), ground arith)
    | inr c ↦ absurd (ground arith)
  ]
]

-- After a `put` that answered that work is outstanding, a deletion of the assignment is refused as
-- a conflict.
pub put-excludes-deletion :
    (assignment_id job_id job_id' instance_id template_id id : ℕ) (db db' : Db)
    → put assignment_id job_id instance_id template_id db ≡ accepted (db', id, true)
    → request_deletion job_id' instance_id template_id db' ≡ refused action_conflict
put-excludes-deletion assignment_id job_id job_id' instance_id template_id id db db' h =
    let (open_now, row) =
      put-inv assignment_id job_id instance_id template_id db (db', id, true) h in
    elim (Option-cases (lock_assignment instance_id template_id db.assignments)) [
      | inl l ↦
          let after = create_assignment assignment_id job_id instance_id template_id db in
          let (locked, again) = created_again assignment_id job_id instance_id template_id db in
          let kept =
            create_assignment-IsAvailable assignment_id job_id instance_id template_id db
              open_now in
          let new = new_assignment job_id instance_id template_id in
          let same : db' ≡ after = ground arith in
          rw same (
            deletion-intro job_id' instance_id template_id assignment_id new after kept locked
            ∙ creating-not_deletable job_id' instance_id template_id assignment_id new after refl
                refl)
      | inr ((n, a), l) ↦
          let (same, same_id) = put_existing-unchanged n a db db' id true (ground arith) in
          let (e, r) = put_existing-creating n a db db' id (ground arith) in
          rw same (
            deletion-intro job_id' instance_id template_id n a db open_now l
            ∙ creating-not_deletable job_id' instance_id template_id n a db e r)
    ]
