-- ===== src/Repositories/Jobs.antt =====
-- `add_job_execution` (repositories/job_executions.py), and the tests on statuses that the
-- repositories share.
use coder_manager.Base.{
  find-add, if◌then◌else◌, ◌≡◌, refl, ℕ, Bool, false, ◌||◌, String, Option, none, some, ◌==◌,
  nat_eq, find, add, exists_where, ◌&&◌,
}
use coder_manager.Model.{
  Kind, instance_kind, lifecycle_of, Status, pending, running, error, status_eq, Lifecycle,
  JobExecution, Template, TemplateAssignment, Db,
}

-- The identifier is the one that `uuid4` returns.
unfoldable pub add_job_execution : ℕ → String → String → Option String → Option ℕ → String → Db → Db
add_job_execution id name task_name resource_type resource_id step db = record db {
  jobs =
      add id
        (record {
          name = name;
          task_name = task_name;
          resource_type = resource_type;
          resource_id = resource_id;
          step = step;
          status = pending;
          attempt = 0;
          claimed_at = none;
        })
        db.jobs;
}

-- `status in {PENDING, RUNNING}`
abbrev pub in_progress : Status → Bool
in_progress s = s == pending || s == running

-- `status in {PENDING, RUNNING, ERROR}`
abbrev pub is_retryable : Status → Bool
is_retryable s = s == pending || s == running || s == error

-- The four columns that a request sets on its resource.
abbrev pub requested : String → ℕ → String → Lifecycle → Lifecycle
requested action job_id step l = record {
  action = action;
  status = pending;
  job_id = some job_id;
  step = some step;
}

-- The template's side of the join: a template that is missing joins with nothing.
abbrev pub work_is_active : Option Template → TemplateAssignment → Bool
work_is_active none a = false
work_is_active (some t) a = is_retryable a.status || is_retryable t.status

-- The join in `_has_active_template_assignment` of the instances, and in `_lock_available_instance`
-- of the members: template work of the instance that is waiting, running or failed.
unfoldable pub has_active_template_assignment : ℕ → Db → Bool
has_active_template_assignment instance_id db =
    exists_where
      (λ _ a. a.instance_id == instance_id && work_is_active (find a.template_id db.templates) a)
      db.assignments

pub lifecycle_of-add_job_execution :
    (h : Kind) (n id : ℕ) (name task : String) (t : Option String) (r : Option ℕ) (step : String)
    (db : Db)
    → lifecycle_of h n (add_job_execution id name task t r step db) ≡ lifecycle_of h n db
unfolding lifecycle_of add_job_execution
lifecycle_of-add_job_execution instance_kind n id name task t r step db = refl
lifecycle_of-add_job_execution _ n id name task t r step db = refl

-- `create_system_job`, under the identifier of `uuid4`.
unfoldable pub create_system_job : ℕ → String → String → String → Db → Db
create_system_job id name task_name step db = add_job_execution id name task_name none none step db

abbrev pub system_job_row : String → String → String → JobExecution
system_job_row name task_name step = record {
  name = name;
  task_name = task_name;
  resource_type = none;
  resource_id = none;
  step = step;
  status = pending;
  attempt = 0;
  claimed_at = none;
}

pub find-create_system_job :
    (id : ℕ) (name task_name step : String) (db : Db) (j : ℕ)
    → find j (create_system_job id name task_name step db).jobs
      ≡ (if j == id then some (system_job_row name task_name step) else find j db.jobs)
unfolding create_system_job add_job_execution
find-create_system_job id name task_name step db j =
    find-add j id (system_job_row name task_name step) db.jobs
