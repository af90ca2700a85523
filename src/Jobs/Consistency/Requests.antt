-- ===== src/Jobs/Consistency/Requests.antt =====
-- The general case of a request, for the link between resources and jobs: it adds a job under a
-- fresh identifier, and gives one row, old or new, that job and the status of a job that waits.
use coder_manager.Base.{
  ℕ, ◌≡◌, sym, ◌∙◌, inl, inr, Option, none, some, ◌==◌, nat_eq, ◌&&◌, find, Bool-cases, arith,
  if◌then◌else◌,
}
use coder_manager.Model.{
  pending, JobExecution, Lifecycle, Db, Kind, kind_beq, kind_beq_iff, lifecycle_of,
}
use coder_manager.Jobs.Execution.Resources.{SameRows}
use coder_manager.Jobs.Consistency.Settling.{IsConsistent, type_name}

module _ (db db' : Db) (k : Kind) (i : ℕ) (job_id : ℕ) (new : JobExecution) (row : Option Lifecycle)
    (fresh : find job_id db.jobs ≡ none)
    (jobs : (j : ℕ) → find j db'.jobs ≡ (if j == job_id then some new else find j db.jobs))
    (rows : (h : Kind) (n : ℕ)
      → lifecycle_of h n db' ≡ (if kind_beq h k && n == i then row else lifecycle_of h n db))
    (of_row : (l : Lifecycle) → row ≡ some l → (l.job_id ≡ some job_id) × (l.status ≡ pending))
    (of_job : (new.resource_type ≡ some (type_name k))
      × (new.resource_id ≡ some i)
      × (new.status ≡ pending)) where
  pub requested-IsConsistent : IsConsistent db → IsConsistent db'
  requested-IsConsistent c h n l j at named = elim (Bool-cases (kind_beq h k && n == i)) [
    | inl hit ↦
        let same_kind : h ≡ k = ground (arith, kind_beq_iff h k, hit) in
        let same_id : n ≡ i = ground (arith, hit) in
        let is_row : row ≡ some l = ground (arith, rows h n, at, hit) in
        let facts = of_row l is_row in
        let key : j ≡ job_id = ground (arith, facts, named) in
        (
          new,
          ground (arith, jobs j, key),
          record {
            type = rw same_kind of_job.0;
            id = rw same_id of_job.1;
            status = of_job.2 ∙ sym facts.1;
          },
        )
    | inr miss ↦
        let kept : lifecycle_of h n db ≡ some l = ground (arith, rows h n, at, miss) in
        let (job, found, b) = c h n l j kept named in (job, ground (arith, jobs j, found, fresh), b)
  ]

-- A change of other columns and tables.
pub unchanged-IsConsistent :
    (db db' : Db) → db'.jobs ≡ db.jobs → SameRows db db' → IsConsistent db → IsConsistent db'
unchanged-IsConsistent db db' jobs rows c k i l j row named =
    rw jobs (c k i l j (sym (rows k i) ∙ row) named)
