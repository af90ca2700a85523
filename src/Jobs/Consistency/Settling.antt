-- ===== src/Jobs/Consistency/Settling.antt =====
-- The link, and the general case of a transaction that updates a job with its resource.
use mathlib.Core.Option
use coder_manager.Base.{
  ℕ, ◌≡◌, ◌≢◌, refl, sym, ap, ◌∙◌, inl, inr, true, String, none, some, ◌==◌, nat_eq, string_eq,
  ◌&&◌, option_eq, find, Option-cases, Bool-cases, arith, if◌then◌else◌,
}
use coder_manager.Model.{
  delete_resource, jobs-delete_resource, lifecycle_of-delete_resource, JobExecution, Lifecycle, Db,
  Kind, instance_kind, template_kind, assignment_kind, workspace_kind, kind_beq, kind_beq_iff,
  lifecycle_of, modify_job, lifecycle_of-modify_job, find-modify_job, lifecycle_of-modify_lifecycle,
}
use coder_manager.Jobs.Execution.{
  Resource, model_of, resource_for_job, resource_matches, on_resource,
}
use coder_manager.Jobs.Execution.Resources.{jobs-on_resource}

-- The name under which a job refers to a table.
abbrev pub type_name : Kind → String
type_name instance_kind = "instance"
type_name template_kind = "template"
type_name assignment_kind = "template_assignment"
type_name workspace_kind = "workspace"

model_of-type_name : (k : Kind) → model_of (type_name k) ≡ some k
unfolding model_of
model_of-type_name instance_kind = refl
model_of-type_name _ = refl

-- The job that a resource names: its resource is this one, and it has this status.
pub record Belongs (job : JobExecution) (k : Kind) (i : ℕ) (l : Lifecycle) : Type 0 where
  pub type : job.resource_type ≡ some (type_name k)
  pub id : job.resource_id ≡ some i
  pub status : job.status ≡ l.status

abbrev pub IsConsistent : Db → Type 0
IsConsistent db =
    (k : Kind) (i : ℕ) (l : Lifecycle) (j : ℕ)
    → lifecycle_of k i db ≡ some l
    → l.job_id ≡ some j
    → (job : JobExecution) × (find j db.jobs ≡ some job) × Belongs job k i l

-- A job that belongs to a row finds that row.
pub Belongs-located :
    (db : Db) (job : JobExecution) (k : Kind) (i : ℕ) (l : Lifecycle)
    → lifecycle_of k i db ≡ some l
    → Belongs job k i l
    → resource_for_job db job ≡ some (record { kind = k; id = i; row = l })
unfolding resource_for_job
Belongs-located db job k i l e b = ground (arith, b.type, b.id, model_of-type_name k, e)

-- A resource that matches a job names it.
matches-named :
    (id : ℕ) (job : JobExecution) (r : Resource)
    → job.resource_type ≢ none
    → resource_matches id job (some r) ≡ true
    → r.row.job_id ≡ some id
unfolding resource_matches
matches-named id job r typed h =
    ground (arith, (option_eq {A = ℕ}).equals_iff r.row.job_id (some id))

-- A resource that a job found is in its table.
pub located_row :
    (db : Db) (job : JobExecution) (r : Resource)
    → resource_for_job db job ≡ some r
    → (lifecycle_of r.kind r.id db ≡ some r.row) × (job.resource_type ≢ none)
unfolding resource_for_job
located_row db job r h = elim (Option-cases job.resource_type) [
  | inl e ↦ absurd (ground arith)
  | inr (t, e) ↦ elim (Option-cases job.resource_id) [
    | inl e' ↦ absurd (ground arith)
    | inr (i, e') ↦ elim (Option-cases (model_of t)) [
      | inl m ↦ absurd (ground arith)
      | inr (k, m) ↦ elim (Option-cases (lifecycle_of k i db)) [
        | inl n ↦ absurd (ground arith)
        | inr (l, n) ↦ (ground arith, ground arith)
      ]
    ]
  ]
]

-- Every row of the second database was there before, with the same job and status. Its step and
-- action may be others, and rows may be gone.
abbrev pub KeptLinks : Db → Db → Type 0
KeptLinks before after =
    (k : Kind) (i : ℕ) (l : Lifecycle)
    → lifecycle_of k i after ≡ some l
    → (old : Lifecycle) × (lifecycle_of k i before ≡ some old)
      × (l.job_id ≡ old.job_id)
      × (l.status ≡ old.status)

pub KeptLinks-same : (db : Db) → KeptLinks db db
KeptLinks-same db k i l row = (l, row, refl, refl)

-- A job belongs to every row that keeps the status.
Belongs-kept :
    (job : JobExecution) (k : Kind) (i : ℕ) (old l : Lifecycle)
    → l.status ≡ old.status
    → Belongs job k i old
    → Belongs job k i l
Belongs-kept job k i old l same b = record {
  type = b.type;
  id = b.id;
  status = b.status ∙ sym same;
}

-- The general case. The transaction found a job and its matching resource, updated the job by `g`
-- and the resource by `f`, and both have the same status afterwards.
module _ (db mid : Db) (id : ℕ) (job : JobExecution) (g : JobExecution → JobExecution)
    (f : Lifecycle → Lifecycle) (jobs : mid.jobs ≡ db.jobs) (rows : KeptLinks db mid)
    (found : find id db.jobs ≡ some job)
    (matched : resource_matches id job (resource_for_job db job) ≡ true)
    (same : ((g job).resource_type ≡ job.resource_type) × ((g job).resource_id ≡ job.resource_id))
    (keeps : (l : Lifecycle) → ((f l).job_id ≡ l.job_id) × ((f l).status ≡ (g job).status)) where
  settled : Db
  settled = on_resource (resource_for_job db job) f (modify_job id g mid)

  find-settled :
      (j : ℕ)
      → find j settled.jobs ≡ (if j == id then Option.map g (find j db.jobs) else find j db.jobs)
  unfolding settled
  find-settled j =
      rw (jobs-on_resource (resource_for_job db job) f (modify_job id g mid), find-modify_job, jobs)
        refl

  -- A system job has no resource, and only its own row changed.
  settled_no_resource :
      resource_for_job db job ≡ none
      → (k : Kind) (i : ℕ) → lifecycle_of k i settled ≡ lifecycle_of k i mid
  unfolding settled on_resource
  settled_no_resource e k i = rw e (lifecycle_of-modify_job k i id g mid)

  settled_resource :
      (r : Resource)
      → resource_for_job db job ≡ some r
      → (k : Kind) (i : ℕ)
      → lifecycle_of k i settled ≡ (
          if kind_beq k r.kind && i == r.id
          then Option.map f (lifecycle_of k i mid)
          else lifecycle_of k i mid)
  unfolding settled on_resource
  settled_resource r e k i = rw (e, lifecycle_of-modify_lifecycle, lifecycle_of-modify_job) refl

  -- A row that is not the job's own resource.
  untouched :
      IsConsistent db
      → (k : Kind) (i : ℕ) (l : Lifecycle) (j : ℕ) → lifecycle_of k i mid ≡ some l
      → l.job_id ≡ some j
      → ((old : Lifecycle)
          → resource_for_job db job ≡ some (record { kind = k; id = i; row = old })
          → ⊥)
      → (x : JobExecution) × (find j settled.jobs ≡ some x) × Belongs x k i l
  untouched c k i l j row named other =
      let (old, before, own, status) = rows k i l row in
      let (held, at, b) = c k i old j before (sym own ∙ named) in
      elim (Bool-cases (j == id)) [
        | inl e ↦
            let one : held ≡ job = ground (arith, at, found, e) in
            absurd (other old (Belongs-located db job k i old before (rw one at b)))
        | inr e ↦
            (held, ground (arith, find-settled j, e, at), Belongs-kept held k i old l status b)
      ]

  -- The row of the job's own resource.
  touched :
      IsConsistent db
      → (r : Resource) (l : Lifecycle) (j : ℕ) → resource_for_job db job ≡ some r
      → (l.job_id ≡ r.row.job_id) × (l.status ≡ (g job).status)
      → l.job_id ≡ some j
      → (x : JobExecution) × (find j settled.jobs ≡ some x) × Belongs x r.kind r.id l
  touched c r l j e done named =
      let (row, typed) = located_row db job r e in
      let own : r.row.job_id ≡ some id = matches-named id job r typed (rw e at matched) in
      let (held, at, b) = c r.kind r.id r.row id row own in
      let one : held ≡ job = cc in
      let key : j ≡ id = ground (arith, own, done, named) in
      (
        g job,
        ground (arith, find-settled j, key, found),
        record {
          type = same.0 ∙ rw one at b.type;
          id = same.1 ∙ rw one at b.id;
          status = sym done.1;
        },
      )

  pub settled-IsConsistent :
      IsConsistent db → IsConsistent (on_resource (resource_for_job db job) f (modify_job id g mid))
  unfolding settled
  settled-IsConsistent c k i l j row named = elim (Option-cases (resource_for_job db job)) [
    | inl e ↦ untouched c k i l j (sym (settled_no_resource e k i) ∙ row) named (λ old x. cc)
    | inr (r, e) ↦ elim (Bool-cases (kind_beq k r.kind && i == r.id)) [
      | inl hit ↦
          let (at, typed) = located_row db job r e in
          let k_r : k ≡ r.kind = ground (arith, kind_beq_iff k r.kind, hit) in
          let i_r : i ≡ r.id = ground (arith, hit) in
          elim (Option-cases (lifecycle_of k i mid)) [
            | inl gone ↦ absurd (ground (arith, settled_resource r e k i, row, hit, gone))
            | inr (between, there) ↦
                let done : f between ≡ l =
                  ground (arith, settled_resource r e k i, row, hit, there) in
                let (old, before, own, status) = rows k i between there in
                let one : old ≡ r.row = ground (arith, before, at, k_r, i_r) in
                let after = keeps between in
                let linked : (l.job_id ≡ r.row.job_id) × (l.status ≡ (g job).status) = (
                  rw (sym done) (after.0 ∙ own ∙ ap (λ (o : Lifecycle). o.job_id) one),
                  rw (sym done) after.1,
                ) in
                rw (k_r, i_r) (touched c r l j e linked named)
          ]
      | inr miss ↦
          untouched c k i l j (ground (arith, settled_resource r e k i, row, miss)) named
            (λ old x. ground (arith, e, x, miss, kind_beq_iff k k))
    ]
  ]

-- The same for a transaction that deletes the job's resource.
module _ (db mid : Db) (id : ℕ) (job : JobExecution) (r : Resource)
    (g : JobExecution → JobExecution) (jobs : mid.jobs ≡ db.jobs) (rows : KeptLinks db mid)
    (found : find id db.jobs ≡ some job) (located : resource_for_job db job ≡ some r) where
  pub deleted-IsConsistent :
      IsConsistent db → IsConsistent (delete_resource r.kind r.id (modify_job id g mid))
  deleted-IsConsistent c k i l j row named =
      let left = lifecycle_of-delete_resource k r.kind i r.id (modify_job id g mid) in
      let before = lifecycle_of-modify_job k i id g mid in
      elim (Bool-cases (kind_beq k r.kind && i == r.id)) [
        | inl hit ↦ absurd (ground (arith, left, row, hit))
        | inr miss ↦
            let there : lifecycle_of k i mid ≡ some l = ground (arith, left, before, row, miss) in
            let (old, kept, own, status) = rows k i l there in
            let (held, at, b) = c k i old j kept (sym own ∙ named) in
            elim (Bool-cases (j == id)) [
              | inl e ↦
                  let one : held ≡ job = ground (arith, at, found, e) in
                  let mine = Belongs-located db job k i old kept (rw one at b) in
                  absurd (ground (arith, located, mine, miss, kind_beq_iff k k))
              | inr e ↦ (
                held,
                ground (
                  arith,
                  jobs-delete_resource r.kind r.id (modify_job id g mid),
                  find-modify_job j id g mid,
                  jobs,
                  e,
                  at,
                ),
                Belongs-kept held k i old l status b,
              )
            ]
      ]
