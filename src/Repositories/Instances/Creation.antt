-- ===== src/Repositories/Instances/Creation.antt =====
-- `create`: the placement of a new instance on a managed database, its slug, and its first job.
use coder_manager.Base.{
  ℕ, ◌*◌, Bool, ◌&&◌, ◌||◌, String, Option, none, some, ◌==◌, nat_eq, string_eq, List, Table, [],
  ◌∷◌, add, exists_where, ltb, if◌then◌else◌,
}
use coder_manager.Model.{pending, stopped, Instance, Database, DatabaseAllocation, Db}
use coder_manager.Jobs.Registry.{instance_create_step_01, instance_create_step_01_task}
use coder_manager.Repositories.Reply.{Reply, accepted, refused, ◌>>◌, refuse_if}
use coder_manager.Repositories.Jobs.{add_job_execution}
use coder_manager.Repositories.Databases.{allocation_count}
use coder_manager.Repositories.Instances.Requests.{
  InstanceError, already_exists, database_unavailable,
}

-- A database with its entry in `allocation_counts`.
pub record Candidate : Type 0 where
  pub id : ℕ
  pub row : Database
  pub count : ℕ

-- `available_databases`. An empty pool leaves none either, and has the same answer.
unfoldable pub available_databases : Table DatabaseAllocation → Table Database → List Candidate
available_databases allocations [] = []
available_databases allocations ((id, d) ∷ rest) =
    let others = available_databases allocations rest in
    if ltb (allocation_count id allocations) d.instance_max
    then record { id = id; row = d; count = allocation_count id allocations } ∷ others
    else others

-- What the program takes from outside: the order of the pairs of the name without case and the
-- identifier as text, the schema's name with the identifier in it.
pub record Placement : Type 0 where
  pub is_earlier : Candidate → Candidate → Bool
  pub schema_name : ℕ → String

-- The quotients are compared as fractions. Python rounds them to floats, which keeps the order of
-- distinct fractions whose denominators stay below 2 ^ 26.
abbrev pub is_less_used : Candidate → Candidate → Bool
is_less_used a b = ltb (a.count * b.row.instance_max) (b.count * a.row.instance_max)

abbrev pub is_as_used : Candidate → Candidate → Bool
is_as_used a b = a.count * b.row.instance_max == b.count * a.row.instance_max

module _ (placement : Placement) where
  abbrev pub precedes : Candidate → Candidate → Bool
  precedes a b = is_less_used a b || is_as_used a b && placement.is_earlier a b

  -- `min`: the first of the least.
  unfoldable pub least : Candidate → List Candidate → Candidate
  least best [] = best
  least best (c ∷ rest) = least (if precedes c best then c else best) rest

-- `select id from instances where slug = ...`
unfoldable pub slug_is_taken : Table Instance → String → Bool
slug_is_taken instances slug = exists_where (λ _ i. i.slug == slug) instances

-- The loop over `generate_instance_slug`, for a list of draws: none if it has not ended with them.
unfoldable pub free_slug : Table Instance → List String → Option String
free_slug instances [] = none
free_slug instances (slug ∷ draws) =
    let later = free_slug instances draws in
    if slug_is_taken instances slug then later else some slug

abbrev pub new_instance : ℕ → String → String → Instance
new_instance job_id application slug = record {
  lifecycle = record {
    action = "creating";
    status = pending;
    job_id = some job_id;
    step = some instance_create_step_01;
  };
  application = application;
  slug = slug;
  state = stopped;
  password_enc = none;
  password_candidate_enc = none;
  argocd_application_name = none;
}

-- The unique constraint on the application, tested when the transaction commits.
unfoldable pub application_is_taken : String → Db → Bool
application_is_taken application db =
    exists_where (λ _ i. i.application == application) db.instances

-- What `uuid4` returns for the new rows.
pub record NewIds : Type 0 where
  pub instance_id : ℕ
  pub job_id : ℕ
  pub allocation_id : ℕ

unfoldable pub place : Placement → NewIds → String → String → Candidate → Db → Db
place placement ids application slug chosen db =
    add_job_execution ids.job_id "instance.create" instance_create_step_01_task (some "instance")
      (some ids.instance_id) instance_create_step_01
      (record db {
        instances = add ids.instance_id (new_instance ids.job_id application slug) db.instances;
        allocations =
            add ids.allocation_id
              (record {
                database_id = chosen.id;
                instance_id = ids.instance_id;
                schema_name = placement.schema_name ids.instance_id;
              })
              db.allocations;
      })

-- No answer if the loop for the slug has not ended with the draws.
unfoldable pub create :
    Placement → NewIds → String → List String → Db → Option (Reply InstanceError Db)
create placement ids application draws db = elim (available_databases db.allocations db.databases) [
  | [] ↦ some (refused database_unavailable)
  | c ∷ others ↦ elim (free_slug db.instances draws) [
    | none ↦ none
    | some slug ↦ some (
        refuse_if (application_is_taken application db) already_exists
        >> accepted (place placement ids application slug (least placement c others) db))
  ]
]
