-- ===== src/Repositories/Instances/Created.antt =====
-- What an accepted creation of an instance did.
use coder_manager.Base.{
  ℕ, ◌*◌, ◌≤◌, ◌<◌, ◌≡◌, refl, ◌⊎◌, inl, inr, false, ◌&&◌, String, some, ◌==◌, nat_eq, string_eq,
  List, [], ◌∷◌, length, add, find-add, Listed, Option-cases, arith, if◌then◌else◌,
}
use coder_manager.Model.{Database, Db, Kind, instance_kind, kind_beq, lifecycle_of}
use coder_manager.Jobs.Registry.{
  instance_create_step_01, instance_create_step_01_task, expected_action,
}
use coder_manager.Repositories.Reply.{Reply, accepted, refused, refuse_if, ◌>>◌}
use coder_manager.Repositories.Jobs.{add_job_execution}
use coder_manager.Repositories.Requested.{Requested}
use coder_manager.Repositories.Databases.{allocation_count}
use coder_manager.Repositories.Instances.Requests.{
  InstanceError, already_exists, database_unavailable,
}
use coder_manager.Repositories.Instances.Creation.{
  Candidate, Placement, NewIds, available_databases, least, slug_is_taken, free_slug, new_instance,
  application_is_taken, place, create,
}
use coder_manager.Repositories.Instances.Placing.{
  Among, IsAvailable, available_databases-IsAvailable, available_databases_complete, least-Among,
  least-IsAtMost,
}
use coder_manager.Repositories.Instances.Slugs.{AllDiffer, free_slug-ends, free_slug-free}

-- The placement of an accepted creation.
pub record Created (placement : Placement) (ids : NewIds) (application : String) (db db' : Db)
    : Type 0 where
  pub slug : String
  pub first : Candidate
  pub others : List Candidate
  pub available : available_databases db.allocations db.databases ≡ first ∷ others
  pub free : slug_is_taken db.instances slug ≡ false
  pub done : db' ≡ place placement ids application slug (least placement first others) db

List-cases : {A : Type 0} (l : List A) → (l ≡ []) ⊎ ((x : A) × (xs : List A) × (l ≡ x ∷ xs))
List-cases [] = inl refl
List-cases (x ∷ xs) = inr (x, xs, refl)

pub create-Created :
    (placement : Placement) (ids : NewIds) (application : String) (draws : List String)
    (db db' : Db)
    → create placement ids application draws db ≡ some (accepted db')
    → Created placement ids application db db'
unfolding create
create-Created placement ids application draws db db' h =
    elim (List-cases (available_databases db.allocations db.databases)) [
      | inl e ↦ absurd (ground arith)
      | inr (c, others, e) ↦ elim (Option-cases (free_slug db.instances draws)) [
        | inl f ↦ absurd (ground arith)
        | inr (slug, f) ↦ record {
          slug = slug;
          first = c;
          others = others;
          available = e;
          free = free_slug-free db.instances draws slug f;
          done = ground arith;
        }
      ]
    ]

-- If the slugs that are drawn all differ and are more than the instances, the loop for the slug
-- ends and the creation of an instance has a reply.
pub create-ends :
    (placement : Placement) (ids : NewIds) (application : String) (draws : List String) (db : Db)
    → AllDiffer draws
    → length db.instances < length draws
    → (reply : Reply InstanceError Db) × (create placement ids application draws db ≡ some reply)
unfolding create
create-ends placement ids application draws db h more =
    let (slug, found) = free_slug-ends db.instances draws h more in
    elim (List-cases (available_databases db.allocations db.databases)) [
      | inl e ↦ (refused database_unavailable, ground arith)
      | inr (c, others, e) ↦ (
        refuse_if (application_is_taken application db) already_exists
            >> accepted (place placement ids application slug (least placement c others) db),
        rw (e, create, found) refl,
      )
    ]

-- An accepted creation of an instance allocates it to a listed database with room for one more, and
-- no database with room has a smaller quotient of its allocations by its `instance_max`, both
-- compared as fractions.
pub create-balanced :
    (placement : Placement) (ids : NewIds) (application : String) (draws : List String)
    (db db' : Db)
    → create placement ids application draws db ≡ some (accepted db')
    → (chosen : Candidate) × IsAvailable db.allocations db.databases chosen
      × (db'.allocations
          ≡ add ids.allocation_id
              (record {
                database_id = chosen.id;
                instance_id = ids.instance_id;
                schema_name = placement.schema_name ids.instance_id;
              })
              db.allocations)
      × ((id : ℕ) (d : Database)
          → Listed id d db.databases
          → allocation_count id db.allocations < d.instance_max
          → chosen.count * d.instance_max
            ≤ allocation_count id db.allocations * chosen.row.instance_max)
unfolding place add_job_execution
create-balanced placement ids application draws db db' h =
    let c = create-Created placement ids application draws db db' h in
    let chosen = least placement c.first c.others in
    let list = available_databases db.allocations db.databases in
    let fine : (x : Candidate)
        → Among x (c.first ∷ c.others)
        → IsAvailable db.allocations db.databases x =
      λ x a. available_databases-IsAvailable db.allocations db.databases x (rw (c.available) a) in
    (
      chosen,
      fine chosen (least-Among placement c.first c.others),
      rw (c.done) refl,
      λ id d listed room.
          least-IsAtMost placement c.first c.others
            (λ x a. let ok = fine x a in omega (arith, ok.has_room))
            (record { id = id; row = d; count = allocation_count id db.allocations })
            (rw (c.available) at
              (available_databases_complete db.allocations db.databases id d listed room)),
    )

place-rows :
    (placement : Placement) (ids : NewIds) (application slug : String) (chosen : Candidate)
    (db : Db) (h : Kind) (n : ℕ)
    → lifecycle_of h n (place placement ids application slug chosen db) ≡ (
        if kind_beq h instance_kind && n == ids.instance_id
        then some (new_instance ids.job_id application slug).lifecycle
        else lifecycle_of h n db)
unfolding place add_job_execution lifecycle_of
place-rows placement ids application slug chosen db instance_kind n =
    ground
      (arith, find-add n ids.instance_id (new_instance ids.job_id application slug) db.instances)
place-rows placement ids application slug chosen db _ n = refl

pub create-Requested :
    (placement : Placement) (ids : NewIds) (application : String) (draws : List String)
    (db db' : Db)
    → create placement ids application draws db ≡ some (accepted db')
    → Requested db db' instance_kind ids.instance_id ids.job_id "creating" "instance.create"
        instance_create_step_01_task instance_create_step_01
unfolding place add_job_execution expected_action
create-Requested placement ids application draws db db' h =
    let c = create-Created placement ids application draws db db' h in
    rw (c.done) (record {
      jobs = λ j. find-add j ids.job_id _ db.jobs;
      rows = place-rows placement ids application c.slug (least placement c.first c.others) db;
      expected = refl;
    })
