-- ===== src/Repositories/Capacity.antt =====
-- The capacity of the managed databases, over every operation that reserves or frees a slot.
use coder_manager.Base.{
  ℕ, ◌+◌, ◌≤◌, ◌≡◌, refl, ◌⊎◌, inl, inr, Bool, String, Option, none, some, ◌==◌, nat_eq, List,
  Table, [], ◌∷◌, find, find-add, find-modify, find-delete, add, modify, delete, delete_where,
  IsKeyed, IsKeyed-modify, IsKeyed-delete, Listed-find, Option-cases, arith, if◌then◌else◌,
}
use coder_manager.Model.{
  Database, DatabaseAllocation, Db, Kind, instance_kind, template_kind, assignment_kind,
  workspace_kind, modify_job, delete_resource,
}
use coder_manager.Jobs.Execution.{ExecutionClaim, Resource, owned_execution}
use coder_manager.Repositories.Reply.{accepted}
use coder_manager.Repositories.Jobs.{add_job_execution}
use coder_manager.Repositories.Databases.{
  allocation_count, DatabaseCreate, DatabaseUpdate, DatabaseServices, create, update, remove,
  new_database, replaced,
}
use coder_manager.Repositories.Instances.Creation.{Placement, NewIds, place}
use coder_manager.Repositories.Instances.Creation as Creation
use coder_manager.Repositories.Instances.Created.{create-balanced, create-Created}
use coder_manager.Tasks.Removal.{remove_local_configuration, remove_owned, delete_dependents}

-- No database has more allocations than it may.
pub record IsWithinCapacity (db : Db) : Type 0 where
  pub keyed : IsKeyed db.databases
  pub within :
      (id : ℕ) (d : Database)
      → find id db.databases ≡ some d
      → allocation_count id db.allocations ≤ d.instance_max

-- The operations of the program on the databases and the allocations.
pub data PoolStep (db : Db) : Db → Type 0 where
  place_instance :
      (placement : Placement) (ids : NewIds) (application : String) (draws : List String) (db' : Db)
      → Creation.create placement ids application draws db ≡ some (accepted db')
      → PoolStep db db'
  add_database :
      (services : DatabaseServices) (id : ℕ) (payload : DatabaseCreate) (db' : Db)
      → find id db.databases ≡ none
      → allocation_count id db.allocations ≡ 0
      → create services id payload db ≡ accepted db'
      → PoolStep db db'
  update_database :
      (services : DatabaseServices) (id : ℕ) (payload : DatabaseUpdate) (db' : Db)
      → update services id payload db ≡ accepted db'
      → PoolStep db db'
  remove_database : (id : ℕ) (db' : Db) → remove id db ≡ accepted db' → PoolStep db db'
  remove_instance : (c : ExecutionClaim) → PoolStep db (remove_local_configuration c db).0

allocation_count-delete_where :
    (id : ℕ) (p : ℕ → DatabaseAllocation → Bool) (t : Table DatabaseAllocation)
    → allocation_count id (delete_where p t) ≤ allocation_count id t
unfolding allocation_count delete_where
allocation_count-delete_where id p [] = omega arith
allocation_count-delete_where id p ((k, a) ∷ t) =
    ground (arith, allocation_count-delete_where id p t)

allocation_count-add :
    (id key : ℕ) (a : DatabaseAllocation) (t : Table DatabaseAllocation)
    → allocation_count id (add key a t)
      ≡ (if a.database_id == id then allocation_count id t + 1 else allocation_count id t)
unfolding allocation_count add
allocation_count-add id key a t = refl

place_instance-within :
    (placement : Placement) (ids : NewIds) (application : String) (draws : List String)
    (db db' : Db)
    → Creation.create placement ids application draws db ≡ some (accepted db')
    → IsWithinCapacity db
    → IsWithinCapacity db'
unfolding place add_job_execution
place_instance-within placement ids application draws db db' h w =
    let (chosen, free, placed, least) = create-balanced placement ids application draws db db' h in
    let c = create-Created placement ids application draws db db' h in
    let same : db'.databases ≡ db.databases = rw (c.done) refl in
    let at_chosen = Listed-find chosen.id chosen.row db.databases w.keyed free.listed in
    record {
      keyed = rw same w.keyed;
      within = λ id d found. ground (
        arith,
        same,
        placed,
        at_chosen,
        free.counted,
        free.has_room,
        w.within id d,
        allocation_count-add id ids.allocation_id
            (record {
              database_id = chosen.id;
              instance_id = ids.instance_id;
              schema_name = placement.schema_name ids.instance_id;
            })
            db.allocations,
      );
    }

add_database-within :
    (services : DatabaseServices) (id : ℕ) (payload : DatabaseCreate) (db db' : Db)
    → find id db.databases ≡ none
    → allocation_count id db.allocations ≡ 0
    → create services id payload db ≡ accepted db'
    → IsWithinCapacity db
    → IsWithinCapacity db'
unfolding create add
add_database-within services id payload db db' fresh unused h w =
    let done : db'
        ≡ record db { databases = add id (new_database services id payload) db.databases } =
      ground arith in
    rw done (record {
      keyed = (fresh, w.keyed);
      within = λ n d found. ground (
        arith,
        w.within n d,
        unused,
        find-add n id (new_database services id payload) db.databases,
      );
    })

update_database-within :
    (services : DatabaseServices) (id : ℕ) (payload : DatabaseUpdate) (db db' : Db)
    → update services id payload db ≡ accepted db'
    → IsWithinCapacity db
    → IsWithinCapacity db'
unfolding update
update_database-within services id payload db db' h w = elim (Option-cases (find id db.databases)) [
  | inl e ↦ absurd (ground arith)
  | inr (old, e) ↦
      let done : db'
          ≡ record db { databases = modify id (replaced services id payload) db.databases } =
        ground arith in
      let enough : allocation_count id db.allocations ≤ payload.instance_max = ground arith in
      rw done (record {
        keyed = IsKeyed-modify id (replaced services id payload) db.databases w.keyed;
        within = λ n d found. ground (
          arith,
          w.within n d,
          enough,
          find-modify n id (replaced services id payload) db.databases,
        );
      })
]

remove_database-within :
    (id : ℕ) (db db' : Db)
    → remove id db ≡ accepted db'
    → IsWithinCapacity db
    → IsWithinCapacity db'
unfolding remove
remove_database-within id db db' h w = elim (Option-cases (find id db.databases)) [
  | inl e ↦ absurd (ground arith)
  | inr (old, e) ↦
      let done : db' ≡ record db { databases = delete id db.databases } = ground arith in
      rw done (record {
        keyed = IsKeyed-delete id db.databases w.keyed;
        within = λ n d found. ground (arith, w.within n d, find-delete n id db.databases);
      })
]

remove_owned-pool :
    (job_id id : ℕ) (r : Option Resource) (db : Db)
    → ((remove_owned job_id r db).0.databases ≡ db.databases)
      × (allocation_count id (remove_owned job_id r db).0.allocations
          ≤ allocation_count id db.allocations)
unfolding remove_owned delete_dependents modify_job delete_resource
remove_owned-pool job_id id none db = (refl, omega arith)
remove_owned-pool job_id id (some r) db = elim (kind_of r.kind) [
  | inl e ↦
      let fewer = allocation_count-delete_where id (λ _ a. a.instance_id == r.id) db.allocations in
      (ground (arith, e), ground (arith, e, fewer))
  | inr e ↦ (ground (arith, e), ground (arith, e))
]
  where
    kind_of :
        (k : Kind)
        → (k ≡ instance_kind)
          ⊎ ((k ≡ template_kind) ⊎ ((k ≡ assignment_kind) ⊎ (k ≡ workspace_kind)))
    kind_of instance_kind = inl refl
    kind_of template_kind = inr (inl refl)
    kind_of assignment_kind = inr (inr (inl refl))
    kind_of workspace_kind = inr (inr (inr refl))

remove_instance-within :
    (c : ExecutionClaim) (db : Db)
    → IsWithinCapacity db
    → IsWithinCapacity (remove_local_configuration c db).0
unfolding remove_local_configuration
remove_instance-within c db w = elim (Option-cases (owned_execution db c)) [
  | inl e ↦ rw (e, remove_local_configuration) w
  | inr ((job, r), e) ↦
      let (same, fewer) = remove_owned-pool c.job_id 0 r db in
      rw (e, remove_local_configuration)
        (record {
          keyed = rw same w.keyed;
          within =
              λ id d found. ground (arith, same, w.within id d, remove_owned-pool c.job_id id r db);
        })
]

-- No database has more allocations than its `instance_max`, after an accepted creation of an
-- instance, an accepted creation, update or deletion of a database, or the last step of an
-- instance's deletion, if that held before and no two databases shared an identifier; a new
-- database takes an identifier that no database and no allocation had.
pub PoolStep-IsWithinCapacity :
    (db db' : Db) → PoolStep db db' → IsWithinCapacity db → IsWithinCapacity db'
PoolStep-IsWithinCapacity db db' (place_instance placement ids application draws _ h) =
    place_instance-within placement ids application draws db db' h
PoolStep-IsWithinCapacity db db' (add_database services id payload _ fresh unused h) =
    add_database-within services id payload db db' fresh unused h
PoolStep-IsWithinCapacity db db' (update_database services id payload _ h) =
    update_database-within services id payload db db' h
PoolStep-IsWithinCapacity db db' (remove_database id _ h) = remove_database-within id db db' h
PoolStep-IsWithinCapacity db db' (remove_instance c) = remove_instance-within c db
