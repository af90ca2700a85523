-- ===== src/Jobs/Execution/Steps.antt =====
-- A step from its claim to its end: what a raised exception does to the job, and when the message
-- for the next step is sent.
use coder_manager.Base.{
  ℕ, ◌+◌, ◌≡◌, refl, ap, ◌∙◌, ◌⊎◌, inl, inr, true, false, String, Option, some, ◌∷◌, nat_eq,
  string_eq, find, contains, none, Option-cases, arith,
}
use coder_manager.Model.{error, JobExecution, Db}
use coder_manager.Jobs.Registry.{Celery, Queue, registered_step_names}
use coder_manager.Jobs.Execution.Ownership.{ExecutionClaim, Resource, owned_execution, set_status}
use coder_manager.Jobs.Execution.Transitions.{
  claimable, claim_execution, Result, ok, raised, Result-cases, close_job, fail_execution,
  Operation, run_claimed_step,
}
use coder_manager.Jobs.Execution.Resources.{owned_execution-inv}
use coder_manager.Jobs.Execution.Fencing.{find-on_resource}
use coder_manager.Jobs.Execution.Progress.{fail_execution-claimable}

failed_job :
    (c : ExecutionClaim) (db : Db) (job : JobExecution) (r : Option Resource)
    → owned_execution db c ≡ some (job, r)
    → find c.job_id (fail_execution c (λ d. d) db).jobs ≡ some (close_job error job)
unfolding fail_execution
failed_job c db job r e =
    let o = owned_execution-inv db c e in
    rw (e, fail_execution)
      (find-on_resource r (set_status error) c.job_id c.job_id (close_job error) db
        ∙ ground (arith, o.found))

-- What a step does that claimed its job as `c`, where `ran` is what its body left and answered, and
-- `out` what the step leaves and answers: the answer of the body, or, where it raised, the same
-- exception, and either the database as the body left it, if the claim does not own the job any
-- more, or the job in error without a claim time, which the same task can claim again.
abbrev pub Ran : ExecutionClaim → ℕ → Db × Result String → Db × Result String → Type 0
Ran c later ran out =
    ((status : String) × (ran.1 ≡ ok status) × (out ≡ ran))
    ⊎ ((message : String) × (ran.1 ≡ raised message)
        × (out.1 ≡ raised message)
        × (((owned_execution ran.0 c ≡ none) × (out.0 ≡ ran.0))
            ⊎ ((job : JobExecution) × (find c.job_id ran.0.jobs ≡ some job)
                × (find c.job_id out.0.jobs
                    ≡ some (record job { status = error; claimed_at = none }))
                × (next : ExecutionClaim) × ((claim_execution c.job_id c.task_name later out.0).1
                    ≡ some next)
                × (next.attempt ≡ c.attempt + 1))))

kept_unowned :
    (c : ExecutionClaim) (db : Db) → owned_execution db c ≡ none → fail_execution c (λ d. d) db ≡ db
unfolding fail_execution
kept_unowned c db e = rw (e, fail_execution) refl

raised-Ran :
    (c : ExecutionClaim) (later : ℕ) (db : Db) (message : String)
    → Ran c later (db, raised message) (fail_execution c (λ d. d) db, raised message)
raised-Ran c later db message = elim (Option-cases (owned_execution db c)) [
  | inl e ↦ inr (message, refl, refl, inl (e, kept_unowned c db e))
  | inr ((job, r), e) ↦
      let (next, claims, counted, at) =
        fail_execution-claimable c (λ d. d) later db (job, r) (λ d. refl) (λ d k i. refl) e in
      inr (
        message,
        refl,
        refl,
        inr (
          job,
          (owned_execution-inv db c e).found,
          failed_job c db job r e,
          next,
          claims,
          counted,
        ),
      )
]

-- A claim that is refused changes nothing.
refused_same :
    (id : ℕ) (task : String) (now : ℕ) (db : Db)
    → (claim_execution id task now db).1 ≡ none
    → (claim_execution id task now db).0 ≡ db
unfolding claim_execution
refused_same id task now db e = elim (Option-cases (claimable id task db)) [
  | inl n ↦ ground arith
  | inr (found, n) ↦ absurd (ground arith)
]

-- A step whose claim is refused changes nothing and answers "noop". A step that claims its job
-- leaves and answers what its body does; or, if the body raises, it raises the same exception, and
-- it leaves the database as the body did, if the claim no longer owns the job, or else it leaves
-- the row of the job in error and without a claim time, but otherwise as the body left it, and the
-- same task can claim the job again, at one attempt more.
pub run_claimed_step-Ran :
    (id : ℕ) (task : String) (now later : ℕ) (operation : Operation) (db : Db)
    → (((claim_execution id task now db).1 ≡ none)
        × (run_claimed_step id task now operation db ≡ (db, ok "noop")))
      ⊎ ((c : ExecutionClaim) × ((claim_execution id task now db).1 ≡ some c)
          × Ran c later
              (operation c (claim_execution id task now db).0)
              (run_claimed_step id task now operation db))
unfolding run_claimed_step
run_claimed_step-Ran id task now later operation db =
    elim (Option-cases (claim_execution id task now db).1) [
      | inl e ↦ inl (
        e,
        rw (e, run_claimed_step) (ap (λ (d : Db). (d, ok "noop")) (refused_same id task now db e)),
      )
      | inr (c, e) ↦
          let ran : Db × Result String = operation c (claim_execution id task now db).0 in
          elim (Result-cases ran.1) [
            | inl (status, r) ↦ inr (c, e, inl (status, r, rw (e, run_claimed_step, r) refl))
            | inr (message, r) ↦
                inr (c, e, rw (e, run_claimed_step, r) (raised-Ran c later ran.0 message))
          ]
    ]

-- What becomes of the message of a step: it is sent for a registered task that is loaded and that the
-- broker accepts, and not else.
abbrev pub Dispatched : Celery → String → ℕ → Queue → Queue → Type 0
Dispatched celery task id queue after =
    ((contains registered_step_names task ≡ true)
      × (celery.is_loaded task ≡ true)
      × (celery.accepts task id ≡ true)
      × (after ≡ (task, id) ∷ queue))
    ⊎ (((contains registered_step_names task ≡ false)
          ⊎ ((celery.is_loaded task ≡ false) ⊎ (celery.accepts task id ≡ false)))
        × (after ≡ queue))
