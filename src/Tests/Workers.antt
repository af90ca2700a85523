-- ===== src/Tests/Workers.antt =====
-- Runs of workers at a small database.
use mathlib.Core.Option
use coder_manager.Base.{
  ◌≡◌, refl, Option, none, some, [], ◌∷◌, true, false, nat_eq, string_eq, ◌==◌, option_eq, find,
  modify, arith,
}
use coder_manager.Model.{
  pending, running, success, JobExecution, Db, instance_kind, lifecycle_of, modify_lifecycle,
  modify_job,
}
use coder_manager.Jobs.Registry.{
  instance_start_step_01_task, instance_start_step_01, expected_action,
}
use coder_manager.Jobs.Execution.{
  ExecutionClaim, claim_execution, claimable, claim_for, owned_execution, resource_for_job,
  model_of, resource_matches, on_resource, ok, no_mutation, KeepsJobs, Resource,
  prepare_execution_retry, complete_execution, heartbeat_execution, persist_next_step,
  fail_execution, start_attempt, set_status,
}
use coder_manager.Jobs.Execution.{Operation, raised, run_claimed_step}
use coder_manager.Jobs.Registry.{Celery}
use coder_manager.Base.{◌⊎◌}
use coder_manager.Jobs.Execution.Steps.{run_claimed_step-Ran, Ran}
use coder_manager.Jobs.Execution.Fencing.{claim_execution-owns}
use coder_manager.Jobs.Execution.Resources.{on_row}
use coder_manager.Jobs.Execution.Progress.{
  KeepsRows, persist_next_step-claimable, fail_execution-claimable,
  prepare_execution_retry-claimable, heartbeat-protects,
}
use coder_manager.Jobs.Workers.Runs.{System, Step, Run}
use coder_manager.Jobs.Workers.Exclusion.{IsIssued, claim_exclusive}
use coder_manager.Jobs.Workers.Endings.{Ends, ended_never_owned, success_final}
use coder_manager.Tests.Data.{lifecycle, instance_with, start_job, waiting, busy, finished}

abbrev first : ExecutionClaim
first = claim_for 7 start_job

abbrev second : ExecutionClaim
second = record first { attempt = 2 }

no_mutation-KeepsRows : KeepsRows no_mutation
no_mutation-KeepsRows r db db' e k i = ground arith

no_mutation-KeepsJobs : KeepsJobs no_mutation
no_mutation-KeepsJobs r db db' e = ground arith

-- Worker one claims job 7 at second 5; the retry scan takes the job back; worker two claims it at
-- second 200; and worker one sends a heartbeat.
abbrev started : System
started = record { db = waiting; issued = 7 ∷ [] }

abbrev taken_back : System
taken_back = record {
  db =
      (prepare_execution_retry 7 100 (claim_execution 7 instance_start_step_01_task 5 waiting).0).0;
  issued = 7 ∷ [];
}

abbrev overtaken : System
overtaken = record {
  db =
      (heartbeat_execution first 300
        (claim_execution 7 instance_start_step_01_task 200 taken_back.db).0).0;
  issued = 7 ∷ [];
}

started-IsIssued : IsIssued started
unfolding find
started-IsIssued j job e = ground arith

first_claim : (claim_execution 7 instance_start_step_01_task 5 waiting).1 ≡ some first
unfolding claim_execution claimable resource_for_job model_of resource_matches expected_action
    lifecycle_of find
first_claim = refl

second_claim : (claim_execution 7 instance_start_step_01_task 200 taken_back.db).1 ≡ some second
unfolding claim_execution claimable resource_for_job model_of resource_matches expected_action
    on_resource lifecycle_of modify_lifecycle modify_job modify find prepare_execution_retry
second_claim = refl

claim_exclusive_example : owned_execution overtaken.db first ≡ none
claim_exclusive_example =
    claim_exclusive started taken_back overtaken 7 instance_start_step_01_task
      instance_start_step_01_task 5 200 first second started-IsIssued first_claim
      (Run.next Run.here (Step.retry 7 100)) second_claim
      (Run.next Run.here (Step.heartbeat first 300))

abbrev working : System
working = record { db = busy; issued = 7 ∷ [] }

working-IsIssued : IsIssued working
unfolding find
working-IsIssued j job e = ground arith

busy-completed : complete_execution first no_mutation false busy ≡ ok (finished, true)
unfolding complete_execution owned_execution resource_for_job model_of resource_matches
    expected_action on_resource lifecycle_of modify_lifecycle modify_job modify find
busy-completed = refl

ended_never_owned_example : owned_execution (heartbeat_execution first 300 finished).0 first ≡ none
ended_never_owned_example =
    ended_never_owned working
      (record { db = (heartbeat_execution first 300 finished).0; issued = 7 ∷ [] }) first finished
      working-IsIssued (Ends.completed no_mutation false no_mutation-KeepsJobs busy-completed)
      (Run.next Run.here (Step.heartbeat first 300))

finished-IsIssued : IsIssued (record { db = finished; issued = 7 ∷ [] })
unfolding find
finished-IsIssued j job e = ground arith

abbrev finished_job : JobExecution
finished_job = record start_job { status = success; attempt = 1 }

finished-found : find 7 finished.jobs ≡ some finished_job
unfolding find
finished-found = refl

retried-found : find 7 (prepare_execution_retry 7 400 finished).0.jobs ≡ some finished_job
unfolding find prepare_execution_retry resource_for_job model_of lifecycle_of
retried-found = refl

success_final_example : finished_job ≡ finished_job
success_final_example =
    success_final (record { db = finished; issued = 7 ∷ [] })
      (record { db = (prepare_execution_retry 7 400 finished).0; issued = 7 ∷ [] }) 7 finished_job
      finished_job finished-IsIssued finished-found refl (Run.next Run.here (Step.retry 7 400))
      retried-found

claim_execution-owns_example :
    (job : JobExecution) × (find 7 waiting.jobs ≡ some job)
    × (first ≡ claim_for 7 job)
    × (owned_execution (claim_execution 7 instance_start_step_01_task 5 waiting).0 first
        ≡ some (
          start_attempt 5 job,
          Option.map (on_row (set_status running)) (resource_for_job waiting job),
        ))
claim_execution-owns_example =
    claim_execution-owns 7 instance_start_step_01_task 5 waiting first first_claim

-- The attempt of `busy`, moved on to a second step.
abbrev moved_on : Db
moved_on = record busy {
  jobs = (7, record start_job { task_name = "next_task"; step = "next_step"; attempt = 1 }) ∷ [];
  instances = (1, instance_with (lifecycle "starting" pending (some 7) (some "next_step"))) ∷ [];
}

busy-moved_on :
    persist_next_step first "next_task" "next_step" no_mutation busy ≡ ok (moved_on, true)
unfolding persist_next_step owned_execution resource_for_job model_of resource_matches
    expected_action on_resource lifecycle_of modify_lifecycle modify_job modify find
busy-moved_on = refl

persist_next_step-claimable_example :
    (next : ExecutionClaim) × ((claim_execution 7 "next_task" 9 moved_on).1 ≡ some next)
    × (next.attempt ≡ 2)
    × (next.step ≡ "next_step")
persist_next_step-claimable_example =
    persist_next_step-claimable first "next_task" "next_step" no_mutation 9 busy moved_on
      no_mutation-KeepsJobs no_mutation-KeepsRows busy-moved_on

abbrev owner : JobExecution × Option Resource
owner = (
  record start_job { status = running; attempt = 1; claimed_at = some 5 },
  some (record {
    kind = instance_kind;
    id = 1;
    row = lifecycle "starting" running (some 7) (some instance_start_step_01);
  }),
)

busy-owned : owned_execution busy first ≡ some owner
unfolding owned_execution resource_for_job model_of resource_matches expected_action lifecycle_of
    find
busy-owned = refl

fail_execution-claimable_example :
    (next : ExecutionClaim) × ((claim_execution 7 instance_start_step_01_task 9
        (fail_execution first (λ d. d) busy)).1
      ≡ some next)
    × (next.attempt ≡ 2)
    × ((next.step == instance_start_step_01) ≡ true)
fail_execution-claimable_example =
    fail_execution-claimable first (λ d. d) 9 busy owner (λ d. refl) (λ d k i. refl) busy-owned

busy-reclaimed : (prepare_execution_retry 7 100 busy).1 ≡ some instance_start_step_01_task
unfolding prepare_execution_retry resource_for_job model_of resource_matches expected_action
    lifecycle_of find
busy-reclaimed = refl

prepare_execution_retry-claimable_example :
    (next : ExecutionClaim) × ((claim_execution 7 instance_start_step_01_task 9
        (prepare_execution_retry 7 100 busy).0).1
      ≡ some next)
prepare_execution_retry-claimable_example =
    prepare_execution_retry-claimable 7 100 9 instance_start_step_01_task busy busy-reclaimed

busy-heartbeat : (heartbeat_execution first 300 busy).1 ≡ true
unfolding heartbeat_execution owned_execution resource_for_job model_of resource_matches
    expected_action lifecycle_of find
busy-heartbeat = refl

heartbeat-protects_example :
    prepare_execution_retry 7 100 (heartbeat_execution first 300 busy).0
    ≡ ((heartbeat_execution first 300 busy).0, none)
heartbeat-protects_example = heartbeat-protects first 300 100 busy busy-heartbeat (omega arith)

-- A step whose body raises at once.
abbrev failing_body : Operation
failing_body c db = (db, raised "no cluster")

run_claimed_step-Ran_example :
    (((claim_execution 7 instance_start_step_01_task 5 waiting).1 ≡ none)
      × (run_claimed_step 7 instance_start_step_01_task 5 failing_body waiting
          ≡ (waiting, ok "noop")))
    ⊎ ((c : ExecutionClaim) × ((claim_execution 7 instance_start_step_01_task 5 waiting).1 ≡ some c)
        × Ran c 9
            (failing_body c (claim_execution 7 instance_start_step_01_task 5 waiting).0)
            (run_claimed_step 7 instance_start_step_01_task 5 failing_body waiting))
run_claimed_step-Ran_example =
    run_claimed_step-Ran 7 instance_start_step_01_task 5 9 failing_body waiting

abbrev celery : Celery
celery = record { is_loaded = λ task. true; accepts = λ task id. true }
