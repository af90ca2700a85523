-- ===== src/Jobs/Workers/Exclusion.antt =====
-- Claims that another claim of the same job has overtaken, over runs of transactions.
use coder_manager.Base.{
  ℕ, ◌<◌, ◌≤◌, ◌≡◌, ◌≢◌, ◌⊎◌, inl, inr, true, String, none, some, nat_eq, find, find-add,
  find-delete, contains, Option-cases, arith,
}
use coder_manager.Model.{running, JobExecution, Db}
use coder_manager.Jobs.Execution.{ExecutionClaim, owned_execution, claim_execution, fail_execution}
use coder_manager.Jobs.Execution.Resources.{owned_execution-inv}
use coder_manager.Jobs.Execution.Fencing.{claim_execution-found}
use coder_manager.Jobs.Workers.Attempts.{
  Later, Later-refl, Later-trans, JobsEvolve, JobsEvolve-same, claim_execution-evolves,
  persist_next_step-evolves, complete_execution-evolves, defer_execution-evolves,
  fail_execution-evolves, heartbeat_execution-evolves, prepare_execution_retry-evolves,
}
use coder_manager.Jobs.Workers.Runs.{System, Step, Run}

-- Every identifier in the table has been issued.
abbrev pub IsIssued : System → Type 0
IsIssued s = (j : ℕ) (job : JobExecution) → find j s.db.jobs ≡ some job → contains s.issued j ≡ true

-- What any run does to the jobs whose identifiers had been issued when it began.
pub record Evolves (s t : System) : Type 0 where
  pub stays_issued : IsIssued s → IsIssued t
  pub issued : (j : ℕ) → contains s.issued j ≡ true → contains t.issued j ≡ true
  pub later :
      (j : ℕ) (job' : JobExecution)
      → contains s.issued j ≡ true
      → find j t.db.jobs ≡ some job'
      → (job : JobExecution) × (find j s.db.jobs ≡ some job) × Later job job'

Evolves-of_jobs : (s : System) (db : Db) → JobsEvolve s.db db → Evolves s (record s { db = db })
Evolves-of_jobs s db e = record {
  stays_issued = λ known j job' f. let (job, found, l) = e j job' f in known j job found;
  issued = λ j h. h;
  later = λ j job' h f. e j job' f;
}

Step-Evolves : {s t : System} → Step s t → Evolves s t
Step-Evolves {s} (Step.claim id task now) =
    Evolves-of_jobs s _ (claim_execution-evolves id task now s.db)
Step-Evolves {s} (Step.advance c task step m db b k e) =
    Evolves-of_jobs s db (persist_next_step-evolves c task step m s.db db b k e)
Step-Evolves {s} (Step.complete c m gone db b k e) =
    Evolves-of_jobs s db (complete_execution-evolves c m gone s.db db b k e)
Step-Evolves {s} (Step.defer c m db b k e) =
    Evolves-of_jobs s db (defer_execution-evolves c m s.db db b k e)
Step-Evolves {s} (Step.fail c m k) =
    Evolves-of_jobs s (fail_execution c m s.db) (fail_execution-evolves c m s.db k)
Step-Evolves {s} (Step.heartbeat c now) =
    Evolves-of_jobs s _ (heartbeat_execution-evolves c now s.db)
Step-Evolves {s} (Step.retry id stale_before) =
    Evolves-of_jobs s _ (prepare_execution_retry-evolves id stale_before s.db)
Step-Evolves {s} (Step.other db e) = Evolves-of_jobs s db (JobsEvolve-same s.db db e)
Step-Evolves {s} (Step.add_job id job fresh) = record {
  stays_issued = λ known j job' f. ground (arith, find-add j id job s.db.jobs, known j job');
  issued = λ j h. ground arith;
  later = λ j job' h f. (job', ground (arith, find-add j id job s.db.jobs), Later-refl job');
}
Step-Evolves {s} (Step.discard_job id) = record {
  stays_issued = λ known j job' f. known j job' (ground (arith, find-delete j id s.db.jobs));
  issued = λ j h. h;
  later = λ j job' h f. (job', ground (arith, find-delete j id s.db.jobs), Later-refl job');
}

pub Run-Evolves : {s t : System} → Run s t → Evolves s t
Run-Evolves Run.here = record {
  stays_issued = λ known. known;
  issued = λ j h. h;
  later = λ j job' h f. (job', f, Later-refl job');
}
Run-Evolves (Run.next r st) =
    let first = Run-Evolves r in
    let second = Step-Evolves st in
    record {
      stays_issued = λ known. second.stays_issued (first.stays_issued known);
      issued = λ j h. second.issued j (first.issued j h);
      later = λ j job' h f.
          let (mid, found, l) = second.later j job' (first.issued j h) f in
          let (job, found', l') = first.later j mid h found in (job, found', Later-trans l' l);
    }

-- The job has moved past the claim: a later attempt has begun, or the claim's own has stopped.
unfoldable pub IsLost : System → ExecutionClaim → Type 0
IsLost s c =
    (contains s.issued c.job_id ≡ true)
    × ((job : JobExecution)
        → find c.job_id s.db.jobs ≡ some job
        → (c.attempt < job.attempt) ⊎ ((job.attempt ≡ c.attempt) × (job.status ≢ running)))

pub IsLost-Run : {s t : System} (c : ExecutionClaim) → IsLost s c → Run s t → IsLost t c
unfolding IsLost
IsLost-Run c (known, past) r =
    let e = Run-Evolves r in
    (
      e.issued c.job_id known,
      λ job' f.
          let (job, found, l) = e.later c.job_id job' known f in
          let p = past job found in ground (arith, l.grows, l.stays_stopped, p),
    )

pub not-owned : (s : System) (c : ExecutionClaim) → IsLost s c → owned_execution s.db c ≡ none
unfolding IsLost
not-owned s c (known, past) = elim (Option-cases (owned_execution s.db c)) [
  | inl e ↦ e
  | inr ((job, r), e) ↦
      let o = owned_execution-inv s.db c e in absurd (ground (arith, o, past job o.found))
]

-- In a system whose jobs all have issued identifiers, let a claim of a job succeed, let any run of
-- transactions follow, let another claim of the same job succeed then, and let any run of
-- transactions follow that: the first claim does not own the job at the end.
pub claim_exclusive :
    (s t u : System) (id : ℕ) (task task' : String) (now now' : ℕ) (c c' : ExecutionClaim)
    → IsIssued s
    → (claim_execution id task now s.db).1 ≡ some c
    → Run (record s { db = (claim_execution id task now s.db).0 }) t
    → (claim_execution id task' now' t.db).1 ≡ some c'
    → Run (record t { db = (claim_execution id task' now' t.db).0 }) u
    → owned_execution u.db c ≡ none
unfolding IsLost
claim_exclusive s t u id task task' now now' c c' known first between second after =
    let (job, found, left, same, counted) = claim_execution-found id task now s.db c first in
    let (job', found', left', same', counted') =
      claim_execution-found id task' now' t.db c' second in
    let e = Run-Evolves between in
    let known_id = known id job found in
    let (mid, held, l) = e.later id job' known_id found' in
    let at_t = e.issued id known_id in
    let began : c.attempt ≤ job'.attempt = ground (arith, left, held, l.grows, counted) in
    not-owned u c
      (IsLost-Run c (rw same at_t, λ j f. inl (ground (arith, left', same, began))) after)
