-- ===== src/Model/Resource.antt =====
-- A row of `instances`, `templates`, `template_assignments` or `workspaces`, seen through the
-- columns that the four share: the `isinstance` ladders of tasks/common/execution.py.
use mathlib.Core.Option
use coder_manager.Base.{
  ℕ, ◌≡◌, refl, ◌↔◌, Bool, true, false, ◌&&◌, Option, none, Equality, ◌==◌, nat_eq, find, modify,
  delete, find-modify, find-delete, if◌then◌else◌, arith,
}
use coder_manager.Model.Rows.{
  JobExecution, Lifecycle, Instance, Template, TemplateAssignment, Workspace, Db,
}

pub data Kind : Type 0 where
  instance_kind template_kind assignment_kind workspace_kind : Kind

abbrev pub kind_beq : Kind → Kind → Bool
kind_beq instance_kind instance_kind = true
kind_beq template_kind template_kind = true
kind_beq assignment_kind assignment_kind = true
kind_beq workspace_kind workspace_kind = true
kind_beq _ _ = false

pub kind_beq_iff : (a b : Kind) → (kind_beq a b ≡ true) ↔ (a ≡ b)
kind_beq_iff a b = ground arith

instance abbrev pub kind_eq : Equality Kind
kind_eq = record { equals = kind_beq; equals_iff = kind_beq_iff }

-- The shared columns of one row.
unfoldable pub lifecycle_of : Kind → ℕ → Db → Option Lifecycle
lifecycle_of instance_kind id db = Option.map (λ (r : Instance). r.lifecycle) (find id db.instances)
lifecycle_of template_kind id db = Option.map (λ (r : Template). r.lifecycle) (find id db.templates)
lifecycle_of assignment_kind id db =
    Option.map (λ (r : TemplateAssignment). r.lifecycle) (find id db.assignments)
lifecycle_of workspace_kind id db =
    Option.map (λ (r : Workspace). r.lifecycle) (find id db.workspaces)

-- An update of the shared columns of one row.
unfoldable pub modify_lifecycle : Kind → ℕ → (Lifecycle → Lifecycle) → Db → Db
modify_lifecycle instance_kind id f db = record db {
  instances = modify id (λ r. record r { lifecycle = f r.lifecycle }) db.instances;
}
modify_lifecycle template_kind id f db = record db {
  templates = modify id (λ r. record r { lifecycle = f r.lifecycle }) db.templates;
}
modify_lifecycle assignment_kind id f db = record db {
  assignments = modify id (λ r. record r { lifecycle = f r.lifecycle }) db.assignments;
}
modify_lifecycle workspace_kind id f db = record db {
  workspaces = modify id (λ r. record r { lifecycle = f r.lifecycle }) db.workspaces;
}

-- `session.delete(resource)`
unfoldable pub delete_resource : Kind → ℕ → Db → Db
delete_resource instance_kind id db = record db { instances = delete id db.instances }
delete_resource template_kind id db = record db { templates = delete id db.templates }
delete_resource assignment_kind id db = record db { assignments = delete id db.assignments }
delete_resource workspace_kind id db = record db { workspaces = delete id db.workspaces }

unfoldable pub modify_job : ℕ → (JobExecution → JobExecution) → Db → Db
modify_job id f db = record db { jobs = modify id f db.jobs }

pub jobs-modify_lifecycle :
    (k : Kind) (id : ℕ) (f : Lifecycle → Lifecycle) (db : Db)
    → (modify_lifecycle k id f db).jobs ≡ db.jobs
unfolding modify_lifecycle
jobs-modify_lifecycle instance_kind id f db = refl
jobs-modify_lifecycle _ id f db = refl

pub jobs-delete_resource : (k : Kind) (id : ℕ) (db : Db) → (delete_resource k id db).jobs ≡ db.jobs
unfolding delete_resource
jobs-delete_resource instance_kind id db = refl
jobs-delete_resource _ id db = refl

pub find-modify_job :
    (j id : ℕ) (f : JobExecution → JobExecution) (db : Db)
    → find j (modify_job id f db).jobs
      ≡ (if j == id then Option.map f (find j db.jobs) else find j db.jobs)
unfolding modify_job
find-modify_job j id f db = find-modify j id f db.jobs

pub lifecycle_of-modify_job :
    (k : Kind) (i id : ℕ) (f : JobExecution → JobExecution) (db : Db)
    → lifecycle_of k i (modify_job id f db) ≡ lifecycle_of k i db
unfolding lifecycle_of modify_job
lifecycle_of-modify_job instance_kind i id f db = refl
lifecycle_of-modify_job _ i id f db = refl

-- An update of one row is seen in that row alone.
pub lifecycle_of-modify_lifecycle :
    (k h : Kind) (i id : ℕ) (f : Lifecycle → Lifecycle) (db : Db)
    → lifecycle_of k i (modify_lifecycle h id f db) ≡ (
        if kind_beq k h && i == id then Option.map f (lifecycle_of k i db) else lifecycle_of k i db)
unfolding lifecycle_of modify_lifecycle
lifecycle_of-modify_lifecycle instance_kind instance_kind i id f db = ground (
  arith,
  find-modify i id (λ (r : Instance). record r { lifecycle = f r.lifecycle }) db.instances,
)
lifecycle_of-modify_lifecycle template_kind template_kind i id f db = ground (
  arith,
  find-modify i id (λ (r : Template). record r { lifecycle = f r.lifecycle }) db.templates,
)
lifecycle_of-modify_lifecycle assignment_kind assignment_kind i id f db = ground (
  arith,
  find-modify i id (λ (r : TemplateAssignment). record r { lifecycle = f r.lifecycle })
      db.assignments,
)
lifecycle_of-modify_lifecycle workspace_kind workspace_kind i id f db = ground (
  arith,
  find-modify i id (λ (r : Workspace). record r { lifecycle = f r.lifecycle }) db.workspaces,
)
lifecycle_of-modify_lifecycle _ _ i id f db = refl

pub lifecycle_of-delete_resource :
    (k h : Kind) (i id : ℕ) (db : Db)
    → lifecycle_of k i (delete_resource h id db)
      ≡ (if kind_beq k h && i == id then none else lifecycle_of k i db)
unfolding lifecycle_of delete_resource
lifecycle_of-delete_resource instance_kind instance_kind i id db =
    ground (arith, find-delete i id db.instances)
lifecycle_of-delete_resource template_kind template_kind i id db =
    ground (arith, find-delete i id db.templates)
lifecycle_of-delete_resource assignment_kind assignment_kind i id db =
    ground (arith, find-delete i id db.assignments)
lifecycle_of-delete_resource workspace_kind workspace_kind i id db =
    ground (arith, find-delete i id db.workspaces)
lifecycle_of-delete_resource _ _ i id db = refl
