-- ===== src/Tests/Pool.antt =====
-- The placement of instances at a small pool of databases.
use coder_manager.Base.{
  ℕ, ◌*◌, ◌≤◌, ◌<◌, ◌≡◌, refl, String, some, nat_eq, string_eq, List, [], ◌∷◌, add, find,
  exists_where, ltb, Listed, arith,
}
use coder_manager.Model.{Database, Db}
use coder_manager.Repositories.Reply.{Reply, accepted}
use coder_manager.Repositories.Databases.{allocation_count}
use coder_manager.Repositories.Instances.Requests.{InstanceError}
use coder_manager.Repositories.Instances.Creation.{
  Candidate, Placement, NewIds, available_databases, least, free_slug, slug_is_taken,
  application_is_taken, place, create,
}
use coder_manager.Repositories.Instances.Placing.{IsAvailable}
use coder_manager.Repositories.Instances.Created.{create-ends, create-balanced}
use coder_manager.Repositories.Capacity.{
  IsWithinCapacity, place_instance, PoolStep-IsWithinCapacity,
}
use coder_manager.Tests.Data.{quiet}

abbrev database_with : ℕ → Database
database_with instance_max = record {
  name = "main";
  instance_max = instance_max;
  host = "db";
  port = 5432;
  database_name = "coder";
  username = "coder";
  password_enc = 9;
}

-- Database 20 has one of its two places taken, database 21 none of its three.
abbrev pool : Db
pool = record quiet {
  databases = (20, database_with 2) ∷ (21, database_with 3) ∷ [];
  allocations = (40, record { database_id = 20; instance_id = 1; schema_name = "coder_1" }) ∷ [];
}

abbrev by_id : Placement
by_id = record { is_earlier = λ a b. ltb a.id b.id; schema_name = λ id. "coder_2" }

abbrev new_ids : NewIds
new_ids = record { instance_id = 2; job_id = 11; allocation_id = 41 }

-- The first draw is taken.
abbrev draws : List String
draws = "abcdefgh" ∷ "bcdefghi" ∷ []

abbrev placed : Db
placed =
    place by_id new_ids "mail" "bcdefghi" (record { id = 21; row = database_with 3; count = 0 })
      pool

pool-placed : create by_id new_ids "mail" draws pool ≡ some (accepted placed)
unfolding create available_databases allocation_count least free_slug slug_is_taken
    application_is_taken exists_where
pool-placed = refl

create-ends_example :
    (reply : Reply InstanceError Db) × (create by_id new_ids "mail" draws pool ≡ some reply)
create-ends_example = create-ends by_id new_ids "mail" draws pool (refl, (refl, tt)) (omega arith)

create-balanced_example :
    (chosen : Candidate) × IsAvailable pool.allocations pool.databases chosen
    × (placed.allocations
        ≡ add 41
            (record { database_id = chosen.id; instance_id = 2; schema_name = "coder_2" })
            pool.allocations)
    × ((id : ℕ) (d : Database)
        → Listed id d pool.databases
        → allocation_count id pool.allocations < d.instance_max
        → chosen.count * d.instance_max
          ≤ allocation_count id pool.allocations * chosen.row.instance_max)
create-balanced_example = create-balanced by_id new_ids "mail" draws pool placed pool-placed

pool-IsWithinCapacity : IsWithinCapacity pool
unfolding allocation_count find
pool-IsWithinCapacity = record { keyed = (refl, (refl, tt)); within = λ id d e. ground (arith, e) }

PoolStep-IsWithinCapacity_example : IsWithinCapacity placed
PoolStep-IsWithinCapacity_example =
    PoolStep-IsWithinCapacity pool placed
      (place_instance by_id new_ids "mail" draws placed pool-placed) pool-IsWithinCapacity
