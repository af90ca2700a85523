-- ===== src/Tasks/Retrying.antt =====
-- The periodic recovery of jobs (tasks/retry_job_executions.py).
use coder_manager.Base.{
  ℕ, ◌+◌, ◌≡◌, refl, inl, inr, Bool, true, false, ◌&&◌, ◌||◌, String, Option, none, some, ◌==◌,
  List, contains, string_eq, Table, [], ◌∷◌, length, Bool-cases, arith, if◌then◌else◌,
}
use coder_manager.Model.{pending, running, error, status_eq, JobExecution, Db}
use coder_manager.Jobs.Registry.{Celery, Queue, dispatch_registered_step, registered_step_names}
use coder_manager.Jobs.Execution.{prepare_execution_retry, is_stale}
use coder_manager.Jobs.Consistency.Settling.{IsConsistent}
use coder_manager.Jobs.Consistency.Transactions.{prepare_execution_retry-IsConsistent}

-- The condition of the scan.
abbrev pub is_scanned : ℕ → JobExecution → Bool
is_scanned stale_before job =
    job.status == pending
    || job.status == error
    || (job.status == running && is_stale stale_before job.claimed_at)

unfoldable pub scanned_ids : ℕ → Table JobExecution → List ℕ
scanned_ids stale_before [] = []
scanned_ids stale_before ((id, job) ∷ rest) =
    let others = scanned_ids stale_before rest in
    if is_scanned stale_before job then id ∷ others else others

pub record Scan : Type 0 where
  pub db : Db
  pub queue : Queue
  pub scheduled : ℕ
  pub skipped : ℕ

-- The dispatch of a job that the preparation of its retry handed out.
abbrev pub dispatch_prepared : Celery → ℕ → Option String → Queue → Bool × Queue
dispatch_prepared celery job_id none queue = (false, queue)
dispatch_prepared celery job_id (some task_name) queue =
    dispatch_registered_step celery task_name job_id queue

-- One round of the loop.
unfoldable pub retry_job : Celery → ℕ → ℕ → Scan → Scan
retry_job celery stale_before job_id s =
    let (db, task_name) = prepare_execution_retry job_id stale_before s.db in
    let (sent, queue) = dispatch_prepared celery job_id task_name s.queue in
    if sent
    then record { db = db; queue = queue; scheduled = s.scheduled + 1; skipped = s.skipped }
    else record { db = db; queue = queue; scheduled = s.scheduled; skipped = s.skipped + 1 }

unfoldable pub retry_jobs : Celery → ℕ → List ℕ → Scan → Scan
retry_jobs celery stale_before [] s = s
retry_jobs celery stale_before (job_id ∷ rest) s =
    retry_jobs celery stale_before rest (retry_job celery stale_before job_id s)

-- `retry_job_executions`; the database orders the jobs by their age.
unfoldable pub retry_job_executions : Celery → (List ℕ → List ℕ) → ℕ → Db → Queue → Scan
retry_job_executions celery by_age stale_before db queue =
    retry_jobs celery stale_before (by_age (scanned_ids stale_before db.jobs))
      (record { db = db; queue = queue; scheduled = 0; skipped = 0 })

-- What a scan has done since another point of it, for a number of jobs.
pub record Counted (n : ℕ) (s s' : Scan) : Type 0 where
  pub all_jobs : s'.scheduled + s'.skipped ≡ s.scheduled + s.skipped + n
  pub messages : length s'.queue + s.scheduled ≡ length s.queue + s'.scheduled
  pub linked : IsConsistent s.db → IsConsistent s'.db

-- The dispatch, by its two tests.
abbrev dispatched : String → ℕ → Queue → Bool → Bool → Bool × Queue
dispatched task job_id queue true true = (true, (task, job_id) ∷ queue)
dispatched task job_id queue _ _ = (false, queue)

length-dispatched :
    (task : String) (job_id : ℕ) (queue : Queue) (registered taken : Bool)
    → length (dispatched task job_id queue registered taken).1 ≡ (
        if (dispatched task job_id queue registered taken).0
        then length queue + 1
        else length queue)
length-dispatched task job_id queue true true = omega arith
length-dispatched task job_id queue true false = refl
length-dispatched task job_id queue false taken = refl

dispatch-dispatched :
    (celery : Celery) (task : String) (job_id : ℕ) (queue : Queue)
    → dispatch_registered_step celery task job_id queue
      ≡ dispatched task job_id queue
          (contains registered_step_names task)
          (celery.is_loaded task && celery.accepts task job_id)
unfolding dispatch_registered_step
dispatch-dispatched celery task job_id queue =
    elim (Bool-cases (contains registered_step_names task)) [
      | inl e ↦ elim (Bool-cases (celery.is_loaded task && celery.accepts task job_id)) [
        | inl f ↦ rw (e, f, dispatch_registered_step) refl
        | inr f ↦ rw (e, f, dispatch_registered_step) refl
      ]
      | inr e ↦ rw (e, dispatch_registered_step) refl
    ]

length-dispatch_prepared :
    (celery : Celery) (job_id : ℕ) (task : Option String) (queue : Queue)
    → length (dispatch_prepared celery job_id task queue).1
      ≡ (if (dispatch_prepared celery job_id task queue).0 then length queue + 1 else length queue)
length-dispatch_prepared celery job_id none queue = refl
length-dispatch_prepared celery job_id (some task) queue =
    rw (dispatch-dispatched celery task job_id queue) (
      length-dispatched task job_id queue (contains registered_step_names task)
        (celery.is_loaded task && celery.accepts task job_id))

retry_job-Counted :
    (celery : Celery) (stale_before job_id : ℕ) (s : Scan)
    → Counted 1 s (retry_job celery stale_before job_id s)
unfolding retry_job
retry_job-Counted celery stale_before job_id s =
    let task = (prepare_execution_retry job_id stale_before s.db).1 in
    let grows = length-dispatch_prepared celery job_id task s.queue in
    let kept = prepare_execution_retry-IsConsistent job_id stale_before s.db in
    elim (Bool-cases (dispatch_prepared celery job_id task s.queue).0) [
      | inl sent ↦
          rw (sent, retry_job)
            (record {
              all_jobs = omega arith;
              messages = ground (arith, grows, sent);
              linked = kept;
            })
      | inr lost ↦
          rw (lost, retry_job)
            (record {
              all_jobs = omega arith;
              messages = ground (arith, grows, lost);
              linked = kept;
            })
    ]

retry_jobs-Counted :
    (celery : Celery) (stale_before : ℕ) (ids : List ℕ) (s : Scan)
    → Counted (length ids) s (retry_jobs celery stale_before ids s)
unfolding retry_jobs
retry_jobs-Counted celery stale_before [] s = record {
  all_jobs = omega arith;
  messages = omega arith;
  linked = λ c. c;
}
retry_jobs-Counted celery stale_before (job_id ∷ rest) s =
    let first = retry_job-Counted celery stale_before job_id s in
    let others =
      retry_jobs-Counted celery stale_before rest (retry_job celery stale_before job_id s) in
    record {
      all_jobs = omega (arith, first.all_jobs, others.all_jobs);
      messages = omega (arith, first.messages, others.messages);
      linked = λ c. others.linked (first.linked c);
    }

-- A scan counts each job of the list that the database returned, as it was ordered, as scheduled or
-- as skipped, adds as many messages to the queue as it counts as scheduled, and keeps the link
-- between resources and jobs (each job that a resource names is in the table, is of that resource,
-- and has its status).
pub retry_job_executions-Counted :
    (celery : Celery) (by_age : List ℕ → List ℕ) (stale_before : ℕ) (db : Db) (queue : Queue)
    → Counted
        (length (by_age (scanned_ids stale_before db.jobs)))
        (record { db = db; queue = queue; scheduled = 0; skipped = 0 })
        (retry_job_executions celery by_age stale_before db queue)
unfolding retry_job_executions
retry_job_executions-Counted celery by_age stale_before db queue =
    retry_jobs-Counted celery stale_before (by_age (scanned_ids stale_before db.jobs))
      (record { db = db; queue = queue; scheduled = 0; skipped = 0 })
