-- ===== src/Jobs/Execution/Progress.antt =====
-- Progress: which claims succeed after an attempt has advanced, failed, or was taken back.
use mathlib.Core.Option
use coder_manager.Base.{
  ℕ, ◌+◌, ◌<◌, ◌≡◌, refl, sym, subst, ◌∙◌, ◌⊎◌, inl, inr, true, String, Option, none, some, ◌==◌,
  nat_eq, string_eq, option_eq, beq_refl, eq_of_beq, find, Option-cases, arith,
}
use coder_manager.Model.{
  pending, error, JobExecution, Lifecycle, Db, modify_job, lifecycle_of-modify_job, find-modify_job,
}
use coder_manager.Jobs.Execution.Ownership.{
  ExecutionClaim, Resource, resource_for_job, resource_matches, on_resource, owned_execution,
  set_status,
}
use coder_manager.Jobs.Execution.Transitions.{
  claim_execution, claim_for, ok, Mutation, KeepsJobs, close_job, fail_execution,
  heartbeat_execution, persist_next_step, next_step_job, next_step_row, prepare_execution_retry,
  beat,
}
use coder_manager.Jobs.Execution.Resources.{
  on_row, jobs-on_resource, SameRows, SameResource, resource_for_job-on_resource,
  resource_matches-on_row, IsClaimable, owned_execution-inv, claimable-intro, commit-inv,
}

-- A callback that leaves the columns alone that resources share.
abbrev pub KeepsRows : Mutation → Type 0
KeepsRows mutate = (r : Option Resource) (db db' : Db) → mutate r db ≡ ok db' → SameRows db db'

-- An owned job, put back to wait with its resource, can be claimed under its task's name.
waiting-IsClaimable :
    (db mid : Db) (id : ℕ) (job : JobExecution) (r : Option Resource)
    (g : JobExecution → JobExecution) (f : Lifecycle → Lifecycle)
    → mid.jobs ≡ db.jobs
    → SameRows db mid
    → find id db.jobs ≡ some job
    → r ≡ resource_for_job db job
    → resource_matches id job r ≡ true
    → (((g job).status ≡ pending) ⊎ ((g job).status ≡ error))
    → SameResource job (g job)
    → (g job).name ≡ job.name
    → ((l : Lifecycle) → ((f l).job_id ≡ l.job_id) × ((f l).action ≡ l.action))
    → ((l : Lifecycle)
        → (l.step == some job.step) ≡ true
        → ((f l).step == some (g job).step) ≡ true)
    → IsClaimable
        (on_resource r f (modify_job id g mid))
        id
        (g job).task_name
        (g job)
        (Option.map (on_row f) r)
waiting-IsClaimable db mid id job r g f jobs rows found loaded matched waits same named keep steps =
    record {
      found = ground (
        arith,
        jobs,
        found,
        jobs-on_resource r f (modify_job id g mid),
        find-modify_job id id g mid,
      );
      same_task = beq_refl (g job).task_name;
      is_waiting = waits;
      loaded = rw loaded (
          sym (
            resource_for_job-on_resource db (modify_job id g mid) job (g job) f
              (λ k i. lifecycle_of-modify_job k i id g mid ∙ rows k i) same));
      matched =
          resource_matches-on_row id job (g job) r f named (sym same.0) (λ l. (keep l).0)
            (λ l. (keep l).1) steps matched;
    }

pub claim_execution-claimable :
    (id : ℕ) (task : String) (now : ℕ) (db : Db) (job : JobExecution) (r : Option Resource)
    → IsClaimable db id task job r
    → (claim_execution id task now db).1 ≡ some (claim_for id job)
unfolding claim_execution
claim_execution-claimable id task now db job r c =
    rw (claimable-intro db id task c, claim_execution)

-- After the owner of an attempt has persisted a next step, with a callback that touches no job and
-- none of the columns that resources share, the task of that step claims the job, at one attempt
-- more and at that step.
pub persist_next_step-claimable :
    (c : ExecutionClaim) (task step : String) (mutate : Mutation) (now : ℕ) (db db' : Db)
    → KeepsJobs mutate
    → KeepsRows mutate
    → persist_next_step c task step mutate db ≡ ok (db', true)
    → (next : ExecutionClaim) × ((claim_execution c.job_id task now db').1 ≡ some next)
      × (next.attempt ≡ c.attempt + 1)
      × (next.step ≡ step)
unfolding persist_next_step
persist_next_step-claimable c task step mutate now db db' jobs rows h =
    elim (commit-inv c mutate (next_step_job task step) (λ r. on_resource r (next_step_row step)) db
      db' true h) [
        | inl (e, same, f) ↦ absurd (cc)
        | inr (job, r, mid, e, m, done, f) ↦
            let o = owned_execution-inv db c e in
            let w =
              waiting-IsClaimable db mid c.job_id job r (next_step_job task step)
                (next_step_row step) (jobs r db mid m) (rows r db mid m) o.found o.loaded o.matched
                (inl refl) (refl, refl) refl (λ l. (refl, refl)) (λ l s. beq_refl step) in
            (
              claim_for c.job_id (next_step_job task step job),
              rw done (
                  claim_execution-claimable c.job_id task now
                    (on_resource r (next_step_row step)
                      (modify_job c.job_id (next_step_job task step) mid))
                    (next_step_job task step job) (Option.map (on_row (next_step_row step)) r) w),
              ground (arith, o.same_attempt),
              refl,
            )
      ]

-- After an attempt that its claim owns has been failed, with a callback that touches no job and
-- none of the columns that resources share, the same task claims the job again, at one attempt more
-- and at the same step.
pub fail_execution-claimable :
    (c : ExecutionClaim) (mutate : Db → Db) (now : ℕ) (db : Db)
    (owner : JobExecution × Option Resource)
    → ((d : Db) → (mutate d).jobs ≡ d.jobs)
    → ((d : Db) → SameRows d (mutate d))
    → owned_execution db c ≡ some owner
    → (next : ExecutionClaim) × ((claim_execution c.job_id c.task_name now
          (fail_execution c mutate db)).1
        ≡ some next)
      × (next.attempt ≡ c.attempt + 1)
      × ((next.step == c.step) ≡ true)
unfolding fail_execution
fail_execution-claimable c mutate now db (job, r) jobs rows e =
    let o = owned_execution-inv db c e in
    let w =
      waiting-IsClaimable db (mutate db) c.job_id job r (close_job error) (set_status error)
        (jobs db) (rows db) o.found o.loaded o.matched (inr refl) (refl, refl) refl
        (λ l. (refl, refl)) (λ l s. s) in
    let after =
      on_resource r (set_status error) (modify_job c.job_id (close_job error) (mutate db)) in
    let task : job.task_name ≡ c.task_name = eq_of_beq job.task_name c.task_name o.same_task in
    (
      claim_for c.job_id (close_job error job),
      rw (e, fail_execution)
          (subst
            (λ (t : String).
              (claim_execution c.job_id t now after).1
              ≡ some (claim_for c.job_id (close_job error job)))
            task
            (claim_execution-claimable c.job_id job.task_name now after (close_job error job)
              (Option.map (on_row (set_status error)) r) w)),
      ground (arith, o.same_attempt),
      o.same_step,
    )

prepare_execution_retry-inv :
    (id stale_before : ℕ) (task : String) (db : Db) (job : JobExecution)
    → find id db.jobs ≡ some job
    → (prepare_execution_retry id stale_before db).1 ≡ some task
    → (task ≡ job.task_name)
      × (resource_matches id job (resource_for_job db job) ≡ true)
      × (((job.status ≡ pending) ⊎ (job.status ≡ error))
            × ((prepare_execution_retry id stale_before db).0 ≡ db)
          ⊎ ((prepare_execution_retry id stale_before db).0
              ≡ on_resource
                  (resource_for_job db job)
                  (set_status pending)
                  (modify_job id (close_job pending) db)))
unfolding prepare_execution_retry
prepare_execution_retry-inv id stale_before task db job e h =
    (ground arith, ground arith, ground arith)

-- If the preparation of a retry returns the name of a task, then that task claims the job in the
-- database that the preparation leaves.
pub prepare_execution_retry-claimable :
    (id stale_before now : ℕ) (task : String) (db : Db)
    → (prepare_execution_retry id stale_before db).1 ≡ some task
    → (next : ExecutionClaim) × ((claim_execution id task now
          (prepare_execution_retry id stale_before db).0).1
        ≡ some next)
prepare_execution_retry-claimable id stale_before now task db h =
    elim (Option-cases (find id db.jobs)) [
      | inl e ↦ absurd (unfold prepare_execution_retry in ground arith)
      | inr (job, e) ↦
          let r = resource_for_job db job in
          let (named, matched, cases) =
            prepare_execution_retry-inv id stale_before task db job e h in
          elim cases [
            | inl (waits, same) ↦ (
              claim_for id job,
              rw (same, named)
                  (claim_execution-claimable id job.task_name now db job r (record {
                    found = e;
                    same_task = beq_refl job.task_name;
                    is_waiting = waits;
                    loaded = refl;
                    matched = matched;
                  })),
            )
            | inr reclaimed ↦ (
              claim_for id (close_job pending job),
              rw (reclaimed, named)
                  (claim_execution-claimable id job.task_name now
                    (on_resource r (set_status pending) (modify_job id (close_job pending) db))
                    (close_job pending job) (Option.map (on_row (set_status pending)) r)
                    (waiting-IsClaimable db db id job r (close_job pending) (set_status pending)
                      refl (λ k i. refl) e refl matched (inl refl) (refl, refl) refl
                      (λ l. (refl, refl)) (λ l s. s))),
            )
          ]
    ]

-- After a heartbeat that was accepted at a time later than `stale_before`, the preparation of a
-- retry with this `stale_before` returns no task and changes nothing.
pub heartbeat-protects :
    (c : ExecutionClaim) (now stale_before : ℕ) (db : Db)
    → (heartbeat_execution c now db).1 ≡ true
    → stale_before < now
    → prepare_execution_retry c.job_id stale_before (heartbeat_execution c now db).0
      ≡ ((heartbeat_execution c now db).0, none)
unfolding prepare_execution_retry heartbeat_execution
heartbeat-protects c now stale_before db h late = elim (Option-cases (owned_execution db c)) [
  | inl e ↦ ground arith
  | inr ((job, r), e) ↦
      let o = owned_execution-inv db c e in
      ground (arith, o, e, find-modify_job c.job_id c.job_id (beat now) db)
]
