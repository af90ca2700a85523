-- ===== src/Tests/Retrying.antt =====
-- The periodic recovery of jobs at a small database.
use coder_manager.Base.{true, [], length}
use coder_manager.Jobs.Registry.{Celery}
use coder_manager.Tasks.Retrying.{
  Counted, scanned_ids, retry_job_executions, retry_job_executions-Counted,
}
use coder_manager.Tests.Data.{waiting}

-- Every task is loaded, and the broker takes every message.
abbrev willing : Celery
willing = record { is_loaded = λ task_name. true; accepts = λ task_name job_id. true }

retry_job_executions-Counted_example :
    Counted
      (length (scanned_ids 100 waiting.jobs))
      (record { db = waiting; queue = []; scheduled = 0; skipped = 0 })
      (retry_job_executions willing (λ ids. ids) 100 waiting [])
retry_job_executions-Counted_example =
    retry_job_executions-Counted willing (λ ids. ids) 100 waiting []
