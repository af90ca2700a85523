-- ===== src/Repositories/Members/Updates.antt =====
-- The update of the instance that a change of a member asks for.
use mathlib.Core.Option
use coder_manager.Base.{
  ℕ, ◌≡◌, refl, ◌∙◌, ◌⊎◌, inl, inr, true, ◌&&◌, Option, none, some, ◌==◌, nat_eq, string_eq,
  option_eq, find, find-add, Bool-cases, arith, eq_of_beq, if◌then◌else◌,
}
use coder_manager.Model.{
  Instance, role_eq, Db, JobExecution, Lifecycle, pending, status_eq, Kind, instance_kind, kind_beq,
  kind_beq_iff, lifecycle_of, modify_lifecycle, lifecycle_of-modify_lifecycle,
  jobs-modify_lifecycle,
}
use coder_manager.Jobs.Registry.{instance_update_step_01, instance_update_step_01_task}
use coder_manager.Jobs.Consistency.Settling.{IsConsistent}
use coder_manager.Jobs.Consistency.Requests.{requested-IsConsistent}
use coder_manager.Repositories.Jobs.{
  add_job_execution, in_progress, requested, lifecycle_of-add_job_execution,
}
use coder_manager.Repositories.Members.{request_instance_update}

abbrev pub update_job : ℕ → JobExecution
update_job instance_id = record {
  name = "instance.update";
  task_name = instance_update_step_01_task;
  resource_type = some "instance";
  resource_id = some instance_id;
  step = instance_update_step_01;
  status = pending;
  attempt = 0;
  claimed_at = none;
}

-- The branch of `request_instance_update` that queues a job.
abbrev pub with_update : ℕ → ℕ → Db → Db
with_update job_id instance_id db =
    add_job_execution job_id "instance.update" instance_update_step_01_task (some "instance")
      (some instance_id) instance_update_step_01
      (modify_lifecycle instance_kind instance_id
        (requested "updating" job_id instance_update_step_01) db)

pub request_instance_update-cases :
    (job_id instance_id : ℕ) (i : Instance) (db : Db)
    → (((request_instance_update job_id instance_id i db).0 ≡ db)
        × (i.action ≡ "updating")
        × (in_progress i.status ≡ true))
      ⊎ ((request_instance_update job_id instance_id i db).0 ≡ with_update job_id instance_id db)
unfolding request_instance_update
request_instance_update-cases job_id instance_id i db =
    elim (Bool-cases (i.action == "updating" && in_progress i.status)) [
      | inl e ↦ inl (ground arith, eq_of_beq i.action "updating" (ground arith), ground arith)
      | inr e ↦ inr (ground arith)
    ]

module _ (job_id instance_id : ℕ) (db : Db) where
  abbrev asked : Lifecycle → Lifecycle
  asked = requested "updating" job_id instance_update_step_01

  pub update_jobs :
      (j : ℕ)
      → find j (with_update job_id instance_id db).jobs
        ≡ (if j == job_id then some (update_job instance_id) else find j db.jobs)
  unfolding add_job_execution
  update_jobs j =
      find-add j job_id (update_job instance_id)
        (modify_lifecycle instance_kind instance_id asked db).jobs
      ∙ ground (arith, jobs-modify_lifecycle instance_kind instance_id asked db)

  update_rows :
      (h : Kind) (n : ℕ)
      → lifecycle_of h n (with_update job_id instance_id db) ≡ (
          if kind_beq h instance_kind && n == instance_id
          then Option.map asked (lifecycle_of instance_kind instance_id db)
          else lifecycle_of h n db)
  update_rows h n =
      lifecycle_of-add_job_execution h n job_id "instance.update" instance_update_step_01_task
        (some "instance") (some instance_id) instance_update_step_01
        (modify_lifecycle instance_kind instance_id asked db)
      ∙ (lifecycle_of-modify_lifecycle h instance_kind n instance_id asked db
          ∙ ground (arith, kind_beq_iff h instance_kind))

  is_asked :
      (row : Option Lifecycle) (l : Lifecycle)
      → Option.map asked row ≡ some l
      → (l.job_id ≡ some job_id) × (l.status ≡ pending)
  is_asked none l e = absurd (ground arith)
  is_asked (some old) l e = ground arith

  pub with_update-IsConsistent :
      find job_id db.jobs ≡ none
      → IsConsistent db
      → IsConsistent (with_update job_id instance_id db)
  with_update-IsConsistent fresh =
      requested-IsConsistent db (with_update job_id instance_id db) instance_kind instance_id job_id
        (update_job instance_id) (Option.map asked (lifecycle_of instance_kind instance_id db))
        fresh update_jobs update_rows
        (λ l e. is_asked (lifecycle_of instance_kind instance_id db) l e) (refl, refl, refl)

-- The instance's row once its update waits.
pub updating_row :
    (job_id instance_id : ℕ) (i : Instance) (base : Db)
    → find instance_id base.instances ≡ some i
    → (l : Lifecycle) × (lifecycle_of instance_kind instance_id
          (request_instance_update job_id instance_id i base).0
        ≡ some l)
      × (l.action ≡ "updating")
      × (in_progress l.status ≡ true)
unfolding lifecycle_of
updating_row job_id instance_id i base found =
    elim (request_instance_update-cases job_id instance_id i base) [
      | inl (same, acts, busy) ↦ (i.lifecycle, rw same (ground (arith, found)), acts, busy)
      | inr queued ↦ (
        asked job_id instance_id base i.lifecycle,
        rw queued
            (update_rows job_id instance_id base instance_kind instance_id ∙ ground (arith, found)),
        refl,
        refl,
      )
    ]

pub members-request_instance_update :
    (job_id instance_id : ℕ) (i : Instance) (base : Db)
    → (request_instance_update job_id instance_id i base).0.members ≡ base.members
unfolding request_instance_update add_job_execution modify_lifecycle
members-request_instance_update job_id instance_id i base = ground arith
