-- ===== src/Tasks/Marking.antt =====
-- The callback `_mark_created` of tasks/template/create/step_01_create_template.py, with which the
-- creation of a template assignment is completed, and what the callbacks keep.
use coder_manager.Base.{
  ℕ, ◌≡◌, refl, subst, inl, inr, String, Option, find, modify, find-modify, none, some, nat_eq,
  Option-cases, arith,
}
use coder_manager.Model.{
  Instance, started, Lifecycle, Db, Kind, lifecycle_of, lifecycle_of-modify_lifecycle,
  modify_lifecycle, jobs-modify_lifecycle, instance_kind, template_kind, assignment_kind,
  workspace_kind,
}
use coder_manager.Jobs.Execution.{Resource, Result, ok, raised, KeepsJobs}
use coder_manager.Tasks.Updating.{store_application_name}
use coder_manager.Jobs.Consistency.Settling.{KeptLinks}
use coder_manager.Jobs.Consistency.Transactions.{KeepsLinks}

abbrev pub with_action_created : Lifecycle → Lifecycle
with_action_created l = record l { action = "created" }

-- `isinstance(resource, TemplateAssignment)`, and the write.
abbrev mark_row : Kind → ℕ → Db → Result Db
mark_row assignment_kind id db = ok (modify_lifecycle assignment_kind id with_action_created db)
mark_row instance_kind id db = raised "Template assignment is missing"
mark_row template_kind id db = raised "Template assignment is missing"
mark_row workspace_kind id db = raised "Template assignment is missing"

unfoldable pub mark_created : Option Resource → Db → Result Db
mark_created none db = raised "Template assignment is missing"
mark_created (some r) db = mark_row r.kind r.id db

marked_row :
    (k : Kind) (id : ℕ) (db db' : Db)
    → mark_row k id db ≡ ok db'
    → db' ≡ modify_lifecycle assignment_kind id with_action_created db
marked_row assignment_kind id db db' e = ground arith
marked_row instance_kind id db db' e = absurd (ground arith)
marked_row template_kind id db db' e = absurd (ground arith)
marked_row workspace_kind id db db' e = absurd (ground arith)

-- What it wrote, where it did not raise.
marked :
    (r : Option Resource) (db db' : Db)
    → mark_created r db ≡ ok db'
    → (i : ℕ) × (db' ≡ modify_lifecycle assignment_kind i with_action_created db)
unfolding mark_created
marked none db db' e = absurd (ground arith)
marked (some r) db db' e = (r.id, marked_row r.kind r.id db db' e)

pub mark_created-KeepsJobs : KeepsJobs mark_created
mark_created-KeepsJobs r db db' e =
    let (i, done) = marked r db db' e in
    rw done (jobs-modify_lifecycle assignment_kind i with_action_created db)

-- The callback changes the action, and neither the job nor the status of a row.
pub mark_created-KeepsLinks : KeepsLinks mark_created
mark_created-KeepsLinks r db db' e k i l row =
    let (at, done) = marked r db db' e in
    let after = lifecycle_of-modify_lifecycle k assignment_kind i at with_action_created db in
    elim (Option-cases (lifecycle_of k i db)) [
      | inl none_there ↦ absurd (ground (arith, done, after, row, none_there))
      | inr (old, there) ↦ (
        old,
        there,
        ground (arith, done, after, row, there),
        ground (arith, done, after, row, there),
      )
    ]

-- An update of the other columns of one instance.
modify_instance-KeptLinks :
    (id : ℕ) (f : Instance → Instance) (db : Db)
    → ((i : Instance) → (f i).lifecycle ≡ i.lifecycle)
    → KeptLinks db (record db { instances = modify id f db.instances })
unfolding lifecycle_of
modify_instance-KeptLinks id f db keeps instance_kind i l row =
    elim (Option-cases (find i db.instances)) [
      | inl e ↦ absurd (ground (arith, find-modify i id f db.instances, e, row))
      | inr (old, e) ↦ (
        old.lifecycle,
        ground (arith, e),
        ground (arith, find-modify i id f db.instances, e, row, keeps old),
        ground (arith, find-modify i id f db.instances, e, row, keeps old),
      )
    ]
modify_instance-KeptLinks id f db keeps template_kind i l row = (l, row, refl, refl)
modify_instance-KeptLinks id f db keeps assignment_kind i l row = (l, row, refl, refl)
modify_instance-KeptLinks id f db keeps workspace_kind i l row = (l, row, refl, refl)

abbrev with_application : String → Instance → Instance
with_application name i = record i { argocd_application_name = some name; state = started }

abbrev stored_row : String → Kind → ℕ → Db → Result Db
stored_row name k id db = elim k [
  | instance_kind ↦ ok (record db { instances = modify id (with_application name) db.instances })
  | template_kind ↦ raised "Instance update resource is missing"
  | assignment_kind ↦ raised "Instance update resource is missing"
  | workspace_kind ↦ raised "Instance update resource is missing"
]

stored_in :
    (name : String) (k : Kind) (id : ℕ) (db db' : Db)
    → stored_row name k id db ≡ ok db'
    → db' ≡ record db { instances = modify id (with_application name) db.instances }
stored_in name instance_kind id db db' e = ground arith
stored_in name template_kind id db db' e = absurd (ground arith)
stored_in name assignment_kind id db db' e = absurd (ground arith)
stored_in name workspace_kind id db db' e = absurd (ground arith)

stored :
    (name : String) (r : Option Resource) (db db' : Db)
    → store_application_name name r db ≡ ok db'
    → (id : ℕ) × (db' ≡ record db { instances = modify id (with_application name) db.instances })
unfolding store_application_name
stored name none db db' e = absurd (ground arith)
stored name (some r) db db' e = (r.id, stored_in name r.kind r.id db db' e)

pub store_application_name-KeepsJobs : (name : String) → KeepsJobs (store_application_name name)
store_application_name-KeepsJobs name r db db' e = ground (arith, stored name r db db' e)

pub store_application_name-KeepsLinks : (name : String) → KeepsLinks (store_application_name name)
store_application_name-KeepsLinks name r db db' e k i l row =
    let (id, done) = stored name r db db' e in
    modify_instance-KeptLinks id (with_application name) db (λ x. refl) k i l
      (subst (λ (d : Db). lifecycle_of k i d ≡ some l) done row)
