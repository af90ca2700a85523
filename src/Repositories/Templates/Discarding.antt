-- ===== src/Repositories/Templates/Discarding.antt =====
-- `_discard_current_job` (repositories/templates.py), and the link between resources and jobs.
use coder_manager.Base.{
  option_eq, Table, ℕ, ◌≡◌, refl, ◌∙◌, inl, inr, Option, none, some, ◌==◌, nat_eq, ◌&&◌, find,
  delete, find-delete, Option-cases, Bool-cases, arith, if◌then◌else◌,
}
use coder_manager.Model.{
  JobExecution, Lifecycle, Template, Db, Kind, instance_kind, template_kind, kind_beq, kind_beq_iff,
  lifecycle_of, modify_lifecycle, lifecycle_of-modify_lifecycle, jobs-modify_lifecycle,
}
use coder_manager.Jobs.Consistency.Settling.{IsConsistent, Belongs-located}
use coder_manager.Repositories.Templates.{discard_current_job, unlinked}

lifecycle_of-with_jobs :
    (h : Kind) (n : ℕ) (jobs : Table JobExecution) (db : Db)
    → lifecycle_of h n (record db { jobs = jobs }) ≡ lifecycle_of h n db
unfolding lifecycle_of
lifecycle_of-with_jobs instance_kind n jobs db = refl
lifecycle_of-with_jobs _ n jobs db = refl

pub row_of-template :
    (id : ℕ) (t : Template) (db : Db)
    → find id db.templates ≡ some t
    → lifecycle_of template_kind id db ≡ some t.lifecycle
unfolding lifecycle_of
row_of-template id t db e = ground (arith, e)

-- The template's row loses its job, and no other row changes.
pub lifecycle_of-discard :
    (h : Kind) (n id : ℕ) (t : Template) (db : Db)
    → find id db.templates ≡ some t
    → lifecycle_of h n (discard_current_job id t db) ≡ (
        if kind_beq h template_kind && n == id
        then some (unlinked t.lifecycle)
        else lifecycle_of h n db)
unfolding discard_current_job
lifecycle_of-discard h n id t db e = elim (Option-cases t.job_id) [
  | inl free ↦ elim (Bool-cases (kind_beq h template_kind && n == id)) [
    | inl hit ↦
        let same_kind : h ≡ template_kind = ground (arith, kind_beq_iff h template_kind, hit) in
        let same_id : n ≡ id = ground (arith, hit) in
        rw (free, discard_current_job, same_kind, same_id, row_of-template id t db e)
          (ground (arith, free))
    | inr miss ↦ rw (free, discard_current_job, miss) refl
  ]
  | inr (job_id, named) ↦
      rw (named, discard_current_job)
        (lifecycle_of-with_jobs h n
            (delete job_id (modify_lifecycle template_kind id unlinked db).jobs)
            (modify_lifecycle template_kind id unlinked db)
          ∙ elim (Bool-cases (kind_beq h template_kind && n == id)) [
            | inl hit ↦
                let same_kind : h ≡ template_kind =
                  ground (arith, kind_beq_iff h template_kind, hit) in
                let same_id : n ≡ id = ground (arith, hit) in
                ground (
                  arith,
                  lifecycle_of-modify_lifecycle h template_kind n id unlinked db,
                  hit,
                  same_kind,
                  same_id,
                  row_of-template id t db e,
                )
            | inr miss ↦
                ground (arith, lifecycle_of-modify_lifecycle h template_kind n id unlinked db, miss)
          ])
]

pub find-discard :
    (j id : ℕ) (t : Template) (db : Db)
    → find j (discard_current_job id t db).jobs
      ≡ (if some j == t.job_id then none else find j db.jobs)
unfolding discard_current_job
find-discard j id t db = elim (Option-cases t.job_id) [
  | inl free ↦ rw (free, discard_current_job) refl
  | inr (job_id, named) ↦
      rw (named, discard_current_job)
        (ground
          (arith, find-delete j job_id db.jobs, jobs-modify_lifecycle template_kind id unlinked db))
]

-- A row that gives its job up, or goes, and the job with it.
module _ (db db' : Db) (k : Kind) (i : ℕ) (old : Lifecycle) (row : Option Lifecycle)
    (was : lifecycle_of k i db ≡ some old)
    (jobs : (j : ℕ) → find j db'.jobs ≡ (if some j == old.job_id then none else find j db.jobs))
    (rows : (h : Kind) (n : ℕ)
      → lifecycle_of h n db' ≡ (if kind_beq h k && n == i then row else lifecycle_of h n db))
    (of_row : (l : Lifecycle) → row ≡ some l → l.job_id ≡ none) where
  pub discarded-IsConsistent : IsConsistent db → IsConsistent db'
  discarded-IsConsistent c h n l j at named = elim (Bool-cases (kind_beq h k && n == i)) [
    | inl hit ↦
        let is_row : row ≡ some l = ground (arith, rows h n, at, hit) in
        absurd (ground (arith, of_row l is_row, named))
    | inr miss ↦
        let kept : lifecycle_of h n db ≡ some l = ground (arith, rows h n, at, miss) in
        let (job, found, b) = c h n l j kept named in
        elim (Bool-cases (some j == old.job_id)) [
          | inl shared ↦
              let (mine, at', b') =
                c k i old j was
                  (ground (arith, shared, (option_eq {A = ℕ}).equals_iff (some j) old.job_id)) in
              let one : job ≡ mine = ground (arith, found, at') in
              absurd (
                ground (
                  arith,
                  Belongs-located db mine h n l kept (rw one at b),
                  Belongs-located db mine k i old was b',
                  miss,
                  kind_beq_iff k k,
                ))
          | inr other ↦ (job, ground (arith, jobs j, found, other), b)
        ]
  ]
