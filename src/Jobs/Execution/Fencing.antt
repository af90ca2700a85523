-- ===== src/Jobs/Execution/Fencing.antt =====
-- Fencing: what a claim leaves in the row of its job, and who owns the attempt.
use mathlib.Core.Option
use coder_manager.Base.{
  ℕ, ◌+◌, ◌≡◌, refl, sym, subst, ◌∙◌, ap, inl, inr, String, Option, some, ◌==◌, nat_eq, string_eq,
  option_eq, beq_refl, find, Option-cases, arith, if◌then◌else◌,
}
use coder_manager.Model.{
  running, JobExecution, Lifecycle, Db, modify_job, lifecycle_of-modify_job, find-modify_job,
}
use coder_manager.Jobs.Execution.Ownership.{
  ExecutionClaim, Resource, resource_for_job, on_resource, owned_execution, set_status,
}
use coder_manager.Jobs.Execution.Transitions.{claimable, claim_execution, claim_for, start_attempt}
use coder_manager.Jobs.Execution.Resources.{
  on_row, jobs-on_resource, resource_for_job-on_resource, resource_matches-on_row, IsOwned,
  IsClaimable, owned_execution-inv, owned_execution-intro, claimable-inv,
}

-- The job's row after a transaction that updated it and its resource.
pub find-on_resource :
    (r : Option Resource) (f : Lifecycle → Lifecycle) (id j : ℕ) (g : JobExecution → JobExecution)
    (db : Db)
    → find j (on_resource r f (modify_job id g db)).jobs
      ≡ (if j == id then Option.map g (find j db.jobs) else find j db.jobs)
find-on_resource r f id j g db =
    rw (jobs-on_resource r f (modify_job id g db)) (find-modify_job j id g db)

-- A claim leaves its job running, at one attempt more, and the resource still matches.
claimed-IsOwned :
    (id : ℕ) (task : String) (now : ℕ) (db : Db) (job : JobExecution) (r : Option Resource)
    → IsClaimable db id task job r
    → IsOwned
        (on_resource r (set_status running) (modify_job id (start_attempt now) db))
        (claim_for id job)
        (start_attempt now job)
        (Option.map (on_row (set_status running)) r)
claimed-IsOwned id task now db job r c = record {
  found =
      find-on_resource r (set_status running) id id (start_attempt now) db
      ∙ ground (arith, c.found);
  same_task = beq_refl job.task_name;
  same_step = beq_refl job.step;
  same_attempt = refl;
  is_running = refl;
  loaded = rw c.loaded (
      sym (
        resource_for_job-on_resource db (modify_job id (start_attempt now) db) job
          (start_attempt now job) (set_status running)
          (λ k i. lifecycle_of-modify_job k i id (start_attempt now) db) (refl, refl)));
  matched =
      resource_matches-on_row id job (start_attempt now job) r (set_status running) refl refl
        (λ l. refl) (λ l. refl) (λ l e. e) c.matched;
}

-- A successful claim is the one for the job as it was found, at one attempt more, and owns the
-- execution in the database that it leaves, where the job has started and the resource that it had
-- runs.
pub claim_execution-owns :
    (id : ℕ) (task : String) (now : ℕ) (db : Db) (claim : ExecutionClaim)
    → (claim_execution id task now db).1 ≡ some claim
    → (job : JobExecution) × (find id db.jobs ≡ some job)
      × (claim ≡ claim_for id job)
      × (owned_execution (claim_execution id task now db).0 claim
          ≡ some (
            start_attempt now job,
            Option.map (on_row (set_status running)) (resource_for_job db job),
          ))
unfolding claim_execution
claim_execution-owns id task now db claim h = elim (Option-cases (claimable id task db)) [
  | inl e ↦ ground arith
  | inr ((job, r), e) ↦
      let c = claimable-inv db id task e in
      let owned = owned_execution-intro _ _ (claimed-IsOwned id task now db job r c) in
      (job, c.found, ground arith, ground (arith, owned, c.loaded))
]

-- What the claim left in the job's row.
pub claim_execution-found :
    (id : ℕ) (task : String) (now : ℕ) (db : Db) (claim : ExecutionClaim)
    → (claim_execution id task now db).1 ≡ some claim
    → (job : JobExecution) × (find id db.jobs ≡ some job)
      × (find id (claim_execution id task now db).0.jobs ≡ some (start_attempt now job))
      × (claim.job_id ≡ id)
      × (claim.attempt ≡ job.attempt + 1)
claim_execution-found id task now db claim h =
    let (job, found, made, owned) = claim_execution-owns id task now db claim h in
    let o = owned_execution-inv (claim_execution id task now db).0 claim owned in
    let same : claim.job_id ≡ id = ap (λ (c : ExecutionClaim). c.job_id) made in
    (
      job,
      found,
      subst
          (λ (i : ℕ). find i (claim_execution id task now db).0.jobs ≡ some (start_attempt now job))
          same o.found,
      same,
      ap (λ (c : ExecutionClaim). c.attempt) made,
    )
