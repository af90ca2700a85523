-- ===== src/Jobs/Consistency/Transactions.antt =====
-- The transactions of tasks/common/execution.py, and the link between resources and jobs.
use coder_manager.Base.{
  nat_eq, ◌==◌, ℕ, ◌≡◌, refl, sym, ◌∙◌, inl, inr, Bool, true, false, String, Option, none, some,
  find, Option-cases, Bool-cases, arith,
}
use coder_manager.Model.{
  pending, running, success, error, JobExecution, Lifecycle, Db, modify_job,
  lifecycle_of-modify_job, find-modify_job,
}
use coder_manager.Jobs.Execution.{
  ExecutionClaim, Resource, resource_for_job, resource_matches, on_resource, owned_execution,
  set_status, claimable, claim_execution, start_attempt, Mutation, KeepsJobs, ok, commit, close_job,
  next_step_job, next_step_row, complete_row, persist_next_step, complete_execution,
  settle_completed, defer_execution, fail_execution, heartbeat_execution, beat,
  prepare_execution_retry,
}
use coder_manager.Jobs.Execution.Resources.{claimable-inv, owned_execution-inv, commit-inv}
use coder_manager.Jobs.Workers.Attempts.{reclaimed_or_same}
use coder_manager.Jobs.Consistency.Settling.{
  IsConsistent, KeptLinks, KeptLinks-same, settled-IsConsistent, deleted-IsConsistent,
}

-- What a callback has to keep for the link: the job and the status of each row that it leaves. Its
-- step and action are free, as in `_mark_created` of the templates.
abbrev pub KeepsLinks : Mutation → Type 0
KeepsLinks mutate = (r : Option Resource) (db db' : Db) → mutate r db ≡ ok db' → KeptLinks db db'

-- A write that touches no job, and keeps the job and the status of each row that it leaves, keeps the
-- link.
pub write-IsConsistent :
    (db db' : Db) → db'.jobs ≡ db.jobs → KeptLinks db db' → IsConsistent db → IsConsistent db'
write-IsConsistent db db' jobs rows c k i l j row named =
    let (old, before, own, status) = rows k i l row in
    let (held, at, b) = c k i old j before (sym own ∙ named) in
    (held, rw jobs at, record { type = b.type; id = b.id; status = b.status ∙ sym status })

-- The link between resources and jobs (each job that a resource names is in the table, is of that
-- resource, and has its status) is kept by every claim, successful or not.
pub claim_execution-IsConsistent :
    (id : ℕ) (task : String) (now : ℕ) (db : Db)
    → IsConsistent db
    → IsConsistent (claim_execution id task now db).0
unfolding claim_execution
claim_execution-IsConsistent id task now db c = elim (Option-cases (claimable id task db)) [
  | inl e ↦ rw (e, claim_execution) c
  | inr ((job, r), e) ↦
      let w = claimable-inv db id task e in
      rw (e, claim_execution, w.loaded)
        (settled-IsConsistent db db id job (start_attempt now) (set_status running) refl
          (KeptLinks-same db) w.found (rw w.loaded at w.matched) (refl, refl) (λ l. (refl, refl)) c)
]

-- The link between resources and jobs (each job that a resource names is in the table, is of that
-- resource, and has its status) is kept when an attempt is failed, or the claim does not own it,
-- with a callback that touches no job and keeps the job and the status of each row that it leaves.
pub fail_execution-IsConsistent :
    (claim : ExecutionClaim) (mutate : Db → Db) (db : Db)
    → ((d : Db) → (mutate d).jobs ≡ d.jobs)
    → ((d : Db) → KeptLinks d (mutate d))
    → IsConsistent db
    → IsConsistent (fail_execution claim mutate db)
unfolding fail_execution
fail_execution-IsConsistent claim mutate db jobs rows c =
    elim (Option-cases (owned_execution db claim)) [
      | inl e ↦ rw (e, fail_execution) c
      | inr ((job, r), e) ↦
          let o = owned_execution-inv db claim e in
          rw (e, fail_execution, o.loaded)
            (settled-IsConsistent db (mutate db) claim.job_id job (close_job error)
              (set_status error) (jobs db) (rows db) o.found (rw o.loaded at o.matched) (refl, refl)
              (λ l. (refl, refl)) c)
    ]

commit-IsConsistent :
    (claim : ExecutionClaim) (mutate : Mutation) (g : JobExecution → JobExecution)
    (f : Lifecycle → Lifecycle) (db db' : Db) (b : Bool)
    → KeepsJobs mutate
    → KeepsLinks mutate
    → ((job : JobExecution)
        → ((g job).resource_type ≡ job.resource_type) × ((g job).resource_id ≡ job.resource_id))
    → ((job : JobExecution) (l : Lifecycle)
        → ((f l).job_id ≡ l.job_id) × ((f l).status ≡ (g job).status))
    → commit claim mutate g (λ r. on_resource r f) db ≡ ok (db', b)
    → IsConsistent db
    → IsConsistent db'
commit-IsConsistent claim mutate g f db db' b jobs rows same keeps h c =
    elim (commit-inv claim mutate g (λ r. on_resource r f) db db' b h) [
      | inl (e, unchanged, n) ↦ rw unchanged c
      | inr (job, r, mid, e, m, done, n) ↦
          let o = owned_execution-inv db claim e in
          rw (done, o.loaded)
            (settled-IsConsistent db mid claim.job_id job g f (jobs r db mid m) (rows r db mid m)
              o.found (rw o.loaded at o.matched) (same job) (keeps job) c)
    ]

-- The link between resources and jobs (each job that a resource names is in the table, is of that
-- resource, and has its status) is kept when a next step is persisted, or the claim does not own
-- the attempt, with a callback that touches no job and keeps the job and the status of each row that it leaves.
pub persist_next_step-IsConsistent :
    (claim : ExecutionClaim) (task step : String) (mutate : Mutation) (db db' : Db) (b : Bool)
    → KeepsJobs mutate
    → KeepsLinks mutate
    → persist_next_step claim task step mutate db ≡ ok (db', b)
    → IsConsistent db
    → IsConsistent db'
unfolding persist_next_step
persist_next_step-IsConsistent claim task step mutate db db' b jobs rows =
    commit-IsConsistent claim mutate (next_step_job task step) (next_step_row step) db db' b jobs
      rows (λ job. (refl, refl)) (λ job l. (refl, refl))

-- The link between resources and jobs (each job that a resource names is in the table, is of that
-- resource, and has its status) is kept when an attempt is deferred, or the claim does not own it,
-- with a callback that touches no job and keeps the job and the status of each row that it leaves.
pub defer_execution-IsConsistent :
    (claim : ExecutionClaim) (mutate : Mutation) (db db' : Db) (b : Bool)
    → KeepsJobs mutate
    → KeepsLinks mutate
    → defer_execution claim mutate db ≡ ok (db', b)
    → IsConsistent db
    → IsConsistent db'
unfolding defer_execution
defer_execution-IsConsistent claim mutate db db' b jobs rows =
    commit-IsConsistent claim mutate (close_job pending) (set_status pending) db db' b jobs rows
      (λ job. (refl, refl)) (λ job l. (refl, refl))

completed_kept :
    (db mid : Db) (id : ℕ) (job : JobExecution) (r : Option Resource)
    → mid.jobs ≡ db.jobs
    → KeptLinks db mid
    → find id db.jobs ≡ some job
    → r ≡ resource_for_job db job
    → resource_matches id job r ≡ true
    → IsConsistent db
    → IsConsistent (on_resource r complete_row (modify_job id (close_job success) mid))
completed_kept db mid id job r jobs rows found loaded matched c = rw loaded (
    settled-IsConsistent db mid id job (close_job success) complete_row jobs rows found
      (rw loaded at matched) (refl, refl) (λ l. (refl, refl)) c)

settle_completed-IsConsistent :
    (gone : Bool) (db mid : Db) (id : ℕ) (job : JobExecution) (r : Option Resource)
    → mid.jobs ≡ db.jobs
    → KeptLinks db mid
    → find id db.jobs ≡ some job
    → r ≡ resource_for_job db job
    → resource_matches id job r ≡ true
    → IsConsistent db
    → IsConsistent (settle_completed gone r (modify_job id (close_job success) mid))
unfolding on_resource
settle_completed-IsConsistent true db mid id job (some r) jobs rows found loaded matched c =
    deleted-IsConsistent db mid id job r (close_job success) jobs rows found (sym loaded) c
settle_completed-IsConsistent gone db mid id job none jobs rows found loaded matched c =
    completed_kept db mid id job none jobs rows found loaded matched c
settle_completed-IsConsistent false db mid id job (some r) jobs rows found loaded matched c =
    completed_kept db mid id job (some r) jobs rows found loaded matched c

beat-IsConsistent :
    (id now : ℕ) (db : Db) → IsConsistent db → IsConsistent (modify_job id (beat now) db)
beat-IsConsistent id now db c k i l j row named =
    let (job, found, b) =
      c k i l j (sym (lifecycle_of-modify_job k i id (beat now) db) ∙ row) named in
    elim (Bool-cases (j == id)) [
      | inl e ↦ (
        beat now job,
        ground (arith, find-modify_job j id (beat now) db, e, found),
        record { type = b.type; id = b.id; status = b.status },
      )
      | inr e ↦ (job, ground (arith, find-modify_job j id (beat now) db, e, found), b)
    ]

-- The link between resources and jobs (each job that a resource names is in the table, is of that
-- resource, and has its status) is kept when an attempt is completed, whether its resource is
-- deleted or not, or the claim does not own the attempt, with a callback that touches no job and keeps the job and the status of each row that it leaves.
pub complete_execution-IsConsistent :
    (claim : ExecutionClaim) (mutate : Mutation) (gone : Bool) (db db' : Db) (b : Bool)
    → KeepsJobs mutate
    → KeepsLinks mutate
    → complete_execution claim mutate gone db ≡ ok (db', b)
    → IsConsistent db
    → IsConsistent db'
unfolding complete_execution
complete_execution-IsConsistent claim mutate gone db db' b jobs rows h c =
    elim (commit-inv claim mutate (close_job success) (settle_completed gone) db db' b h) [
      | inl (e, unchanged, n) ↦ rw unchanged c
      | inr (job, r, mid, e, m, done, n) ↦
          let o = owned_execution-inv db claim e in
          rw done (
            settle_completed-IsConsistent gone db mid claim.job_id job r (jobs r db mid m)
              (rows r db mid m) o.found o.loaded o.matched c)
    ]

pub heartbeat_execution-IsConsistent :
    (claim : ExecutionClaim) (now : ℕ) (db : Db)
    → IsConsistent db
    → IsConsistent (heartbeat_execution claim now db).0
unfolding heartbeat_execution
heartbeat_execution-IsConsistent claim now db c = elim (Option-cases (owned_execution db claim)) [
  | inl e ↦ rw (e, heartbeat_execution) c
  | inr (owner, e) ↦ rw (e, heartbeat_execution) (beat-IsConsistent claim.job_id now db c)
]

-- The link between resources and jobs (each job that a resource names is in the table, is of that
-- resource, and has its status) is kept by every preparation of a retry.
pub prepare_execution_retry-IsConsistent :
    (id stale_before : ℕ) (db : Db)
    → IsConsistent db
    → IsConsistent (prepare_execution_retry id stale_before db).0
unfolding prepare_execution_retry
prepare_execution_retry-IsConsistent id stale_before db c = elim (Option-cases (find id db.jobs)) [
  | inl e ↦ rw (e, prepare_execution_retry) c
  | inr (job, e) ↦ elim (reclaimed_or_same id stale_before db job e) [
    | inl same ↦ rw same c
    | inr (run, matched, reclaimed) ↦ rw reclaimed (
        settled-IsConsistent db db id job (close_job pending) (set_status pending) refl
          (KeptLinks-same db) e matched (refl, refl) (λ l. (refl, refl)) c)
  ]
]
