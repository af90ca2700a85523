-- ===== src/Jobs/Execution/Resources.antt =====
-- How the resource of a job looks after a transaction that updated the job and the resource.
use mathlib.Core.Option
use coder_manager.Base.{
  ℕ, ◌≡◌, refl, ◌⊎◌, inl, inr, Bool, true, false, String, Option, none, some, ◌==◌, nat_eq,
  string_eq, option_eq, find, ◌>>=◌, Option-cases, arith,
}
use coder_manager.Model.{
  pending, running, error, JobExecution, Lifecycle, Db, Kind, kind_beq_iff, lifecycle_of,
  modify_job, jobs-modify_lifecycle, lifecycle_of-modify_lifecycle,
}
use coder_manager.Jobs.Execution.Ownership.{
  ExecutionClaim, Resource, model_of, resource_for_job, resource_matches, on_resource,
  owned_execution,
}
use coder_manager.Jobs.Execution.Transitions.{claimable, commit, Mutation, ok, Result-cases}

abbrev pub on_row : (Lifecycle → Lifecycle) → Resource → Resource
on_row f r = record r { row = f r.row }

pub jobs-on_resource :
    (r : Option Resource) (f : Lifecycle → Lifecycle) (db : Db)
    → (on_resource r f db).jobs ≡ db.jobs
unfolding on_resource
jobs-on_resource none f db = refl
jobs-on_resource (some r) f db = jobs-modify_lifecycle r.kind r.id f db

abbrev pub SameResource : JobExecution → JobExecution → Type 0
SameResource job job' =
    (job.resource_type ≡ job'.resource_type) × (job.resource_id ≡ job'.resource_id)

-- Two databases that hold the same shared columns.
abbrev pub SameRows : Db → Db → Type 0
SameRows db db' = (k : Kind) (i : ℕ) → lifecycle_of k i db' ≡ lifecycle_of k i db

-- The lookup behind `resource_for_job`, in its two arguments.
locate : Db → Option String → Option ℕ → Option Resource
locate db resource_type resource_id = resource_type >>= λ t. resource_id >>= λ i.
    model_of t >>= λ k. lifecycle_of k i db >>= λ row. some (record { kind = k; id = i; row = row })

resource_for_job-locate :
    (db : Db) (job : JobExecution)
    → resource_for_job db job ≡ locate db job.resource_type job.resource_id
unfolding resource_for_job locate
resource_for_job-locate db job = refl

locate-on_resource :
    (db db' : Db) (t : Option String) (i : Option ℕ) (f : Lifecycle → Lifecycle)
    → SameRows db db'
    → locate (on_resource (locate db t i) f db') t i ≡ Option.map (on_row f) (locate db t i)
unfolding locate on_resource
locate-on_resource db db' none i f same = refl
locate-on_resource db db' (some t) none f same = refl
locate-on_resource db db' (some t) (some i) f same = elim (Option-cases (model_of t)) [
  | inl e ↦ rw e refl
  | inr (k, e) ↦
      ground
        (arith, e, same k i, lifecycle_of-modify_lifecycle k k i i f db', (kind_beq_iff k k).1 refl)
]

-- The job finds its resource again, updated, whatever happened to the other columns.
pub resource_for_job-on_resource :
    (db db' : Db) (job job' : JobExecution) (f : Lifecycle → Lifecycle)
    → SameRows db db'
    → SameResource job job'
    → resource_for_job (on_resource (resource_for_job db job) f db') job'
      ≡ Option.map (on_row f) (resource_for_job db job)
resource_for_job-on_resource db db' job job' f same (types, ids) =
    rw (resource_for_job-locate, resource_for_job-locate, ← types, ← ids)
      (locate-on_resource db db' job.resource_type job.resource_id f same)

-- What a match compares: the row must name this job, the expected action and the job's step.
pub resource_matches-on_row :
    (id : ℕ) (job job' : JobExecution) (r : Option Resource) (f : Lifecycle → Lifecycle)
    → job'.name ≡ job.name
    → job'.resource_type ≡ job.resource_type
    → ((l : Lifecycle) → (f l).job_id ≡ l.job_id)
    → ((l : Lifecycle) → (f l).action ≡ l.action)
    → ((l : Lifecycle) → (l.step == some job.step) ≡ true → ((f l).step == some job'.step) ≡ true)
    → resource_matches id job r ≡ true
    → resource_matches id job' (Option.map (on_row f) r) ≡ true
unfolding resource_matches
resource_matches-on_row id job job' none f n t j a s h = ground arith
resource_matches-on_row id job job' (some r) f n t j a s h =
    ground (arith, j r.row, a r.row, s r.row)

-- The facts behind a successful `owned_execution`.
pub record IsOwned (db : Db) (claim : ExecutionClaim) (job : JobExecution) (r : Option Resource)
    : Type 0 where
  pub found : find claim.job_id db.jobs ≡ some job
  pub same_task : (job.task_name == claim.task_name) ≡ true
  pub same_step : (job.step == claim.step) ≡ true
  pub same_attempt : job.attempt ≡ claim.attempt
  pub is_running : job.status ≡ running
  pub loaded : r ≡ resource_for_job db job
  pub matched : resource_matches claim.job_id job r ≡ true

pub owned_execution-inv :
    (db : Db) (claim : ExecutionClaim) {job : JobExecution} {r : Option Resource}
    → owned_execution db claim ≡ some (job, r)
    → IsOwned db claim job r
unfolding owned_execution
owned_execution-inv db claim h = ground arith

pub owned_execution-intro :
    (db : Db) (claim : ExecutionClaim) {job : JobExecution} {r : Option Resource}
    → IsOwned db claim job r
    → owned_execution db claim ≡ some (job, r)
unfolding owned_execution
owned_execution-intro db claim o = ground (arith, o)

-- The facts behind a successful claim.
pub record IsClaimable (db : Db) (id : ℕ) (task : String) (job : JobExecution) (r : Option Resource)
    : Type 0 where
  pub found : find id db.jobs ≡ some job
  pub same_task : (job.task_name == task) ≡ true
  pub is_waiting : (job.status ≡ pending) ⊎ (job.status ≡ error)
  pub loaded : r ≡ resource_for_job db job
  pub matched : resource_matches id job r ≡ true

pub claimable-inv :
    (db : Db) (id : ℕ) (task : String) {job : JobExecution} {r : Option Resource}
    → claimable id task db ≡ some (job, r)
    → IsClaimable db id task job r
unfolding claimable
claimable-inv db id task h = ground arith

pub claimable-intro :
    (db : Db) (id : ℕ) (task : String) {job : JobExecution} {r : Option Resource}
    → IsClaimable db id task job r
    → claimable id task db ≡ some (job, r)
unfolding claimable
claimable-intro db id task o = ground (arith, o)

-- A transaction with a callback that did not raise did nothing, or the owner's work went through.
pub commit-inv :
    (claim : ExecutionClaim) (mutate : Mutation) (g : JobExecution → JobExecution)
    (settle : Option Resource → Db → Db) (db db' : Db) (b : Bool)
    → commit claim mutate g settle db ≡ ok (db', b)
    → (owned_execution db claim ≡ none) × (db' ≡ db) × (b ≡ false)
      ⊎ ((job : JobExecution) × (r : Option Resource) × (mid : Db) × (owned_execution db claim
            ≡ some (job, r))
          × (mutate r db ≡ ok mid)
          × (db' ≡ settle r (modify_job claim.job_id g mid))
          × (b ≡ true))
commit-inv claim mutate g settle db db' b h = elim (Option-cases (owned_execution db claim)) [
  | inl e ↦ inl (ground arith)
  | inr ((job, r), e) ↦ elim (Result-cases (mutate r db)) [
    | inl (mid, m) ↦ inr (job, r, mid, e, m, ground arith, ground arith)
    | inr (message, m) ↦ absurd (ground arith)
  ]
]
