-- ===== src/Repositories/Requested.antt =====
-- What the requests have in common that give one resource a new job: the row waits under its new
-- action, and the job is queued for it.
use coder_manager.Base.{
  ℕ, ◌≡◌, refl, true, find-add, ◌&&◌, String, none, some, ◌==◌, nat_eq, find, arith, if◌then◌else◌,
}
use coder_manager.Model.{
  modify_lifecycle, lifecycle_of-modify_lifecycle, jobs-modify_lifecycle, pending, JobExecution,
  Lifecycle, Db, Kind, kind_beq, kind_beq_iff, lifecycle_of,
}
use coder_manager.Repositories.Jobs.{add_job_execution, requested, lifecycle_of-add_job_execution}
use coder_manager.Jobs.Registry.{expected_action}
use coder_manager.Jobs.Consistency.Settling.{IsConsistent, type_name}
use coder_manager.Jobs.Consistency.Requests.{requested-IsConsistent}
use coder_manager.Jobs.Consistency.Queued.{IsQueued}

abbrev pub queued_job : Kind → ℕ → String → String → String → JobExecution
queued_job k i name task step = record {
  name = name;
  task_name = task;
  resource_type = some (type_name k);
  resource_id = some i;
  step = step;
  status = pending;
  attempt = 0;
  claimed_at = none;
}

abbrev pub queued_row : ℕ → String → String → Lifecycle
queued_row job_id action step = record {
  action = action;
  status = pending;
  job_id = some job_id;
  step = some step;
}

pub record Requested (db db' : Db) (k : Kind) (i job_id : ℕ) (action name task step : String)
    : Type 0 where
  pub jobs :
      (j : ℕ)
      → find j db'.jobs
        ≡ (if j == job_id then some (queued_job k i name task step) else find j db.jobs)
  pub rows :
      (h : Kind) (n : ℕ)
      → lifecycle_of h n db' ≡ (
          if kind_beq h k && n == i
          then some (queued_row job_id action step)
          else lifecycle_of h n db)
  pub expected : expected_action name ≡ some action

module _ {db db' : Db} {k : Kind} {i job_id : ℕ} {action name task step : String}
    (r : Requested db db' k i job_id action name task step) where
  pub Requested-IsQueued : IsQueued db' k i job_id task
  Requested-IsQueued = record {
    job = queued_job k i name task step;
    row = queued_row job_id action step;
    found = ground (arith, r.jobs job_id);
    located = ground (arith, r.rows k i, kind_beq_iff k k);
    belongs = record { type = refl; id = refl; status = refl };
    task_name = refl;
    waits = refl;
    first = refl;
    job_link = refl;
    expected = r.expected;
    step = refl;
  }

  pub Requested-IsConsistent : find job_id db.jobs ≡ none → IsConsistent db → IsConsistent db'
  Requested-IsConsistent fresh =
      requested-IsConsistent db db' k i job_id (queued_job k i name task step)
        (some (queued_row job_id action step)) fresh r.jobs r.rows (λ l e. ground arith)
        (refl, refl, refl)

-- A row that is there, and waits for a new job.
module _ (k : Kind) (i job_id : ℕ) (action name task step : String) (old : Lifecycle) (db : Db)
    (was : lifecycle_of k i db ≡ some old) (expected : expected_action name ≡ some action) where
  at_row : (h : Kind) (n : ℕ) → (kind_beq h k && n == i) ≡ true → lifecycle_of h n db ≡ some old
  at_row h n hit =
      let same_kind : h ≡ k = ground (arith, kind_beq_iff h k, hit) in
      let same_id : n ≡ i = ground (arith, hit) in rw (same_kind, same_id) was

  pub queued-Requested :
      Requested db
        (modify_lifecycle k i
          (requested action job_id step)
          (add_job_execution job_id name task (some (type_name k)) (some i) step db))
        k
        i
        job_id
        action
        name
        task
        step
  unfolding add_job_execution
  queued-Requested =
      let link = requested action job_id step in
      record {
        jobs = λ j. ground (
          arith,
          jobs-modify_lifecycle k i link
              (add_job_execution job_id name task (some (type_name k)) (some i) step db),
          find-add j job_id (queued_job k i name task step) db.jobs,
        );
        rows = λ h n. ground (
          arith,
          lifecycle_of-modify_lifecycle h k n i link
              (add_job_execution job_id name task (some (type_name k)) (some i) step db),
          lifecycle_of-add_job_execution h n job_id name task (some (type_name k)) (some i) step db,
          at_row h n,
        );
        expected = expected;
      }
