-- ===== src/Jobs/Workers/Runs.antt =====
-- The transactions as a step relation, and the runs that they make.
use coder_manager.Base.{ℕ, ◌≡◌, Bool, false, String, List, ◌∷◌, nat_eq, add, delete, contains}
use coder_manager.Model.{JobExecution, Db}
use coder_manager.Jobs.Execution.{
  ExecutionClaim, Mutation, KeepsJobs, ok, claim_execution, persist_next_step, complete_execution,
  defer_execution, fail_execution, heartbeat_execution, prepare_execution_retry,
}

-- The database, and the identifiers that `uuid4` has given to jobs so far.
pub record System : Type 0 where
  pub db : Db
  pub issued : List ℕ

-- One transaction. The claims are any claims: whoever holds one may present it at any time.
pub data Step (s : System) : System → Type 0 where
  claim :
      (id : ℕ) (task : String) (now : ℕ)
      → Step s (record s { db = (claim_execution id task now s.db).0 })
  advance :
      (c : ExecutionClaim) (task step : String) (mutate : Mutation) (db : Db) (b : Bool)
      → KeepsJobs mutate
      → persist_next_step c task step mutate s.db ≡ ok (db, b)
      → Step s (record s { db = db })
  complete :
      (c : ExecutionClaim) (mutate : Mutation) (gone : Bool) (db : Db) (b : Bool)
      → KeepsJobs mutate
      → complete_execution c mutate gone s.db ≡ ok (db, b)
      → Step s (record s { db = db })
  defer :
      (c : ExecutionClaim) (mutate : Mutation) (db : Db) (b : Bool)
      → KeepsJobs mutate
      → defer_execution c mutate s.db ≡ ok (db, b)
      → Step s (record s { db = db })
  fail :
      (c : ExecutionClaim) (mutate : Db → Db)
      → ((d : Db) → (mutate d).jobs ≡ d.jobs)
      → Step s (record s { db = fail_execution c mutate s.db })
  heartbeat :
      (c : ExecutionClaim) (now : ℕ) → Step s (record s { db = (heartbeat_execution c now s.db).0 })
  retry :
      (id stale_before : ℕ)
      → Step s (record s { db = (prepare_execution_retry id stale_before s.db).0 })
  other : (db : Db) → db.jobs ≡ s.db.jobs → Step s (record s { db = db })
  add_job :
      (id : ℕ) (job : JobExecution)
      → contains s.issued id ≡ false
      → Step s (record { db = record s.db { jobs = add id job s.db.jobs }; issued = id ∷ s.issued })
  discard_job : (id : ℕ) → Step s (record s { db = record s.db { jobs = delete id s.db.jobs } })

pub data Run (s : System) : System → Type 0 where
  here : Run s s
  next : {t u : System} → Run s t → Step t u → Run s u
