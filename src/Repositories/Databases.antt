-- ===== src/Repositories/Databases.antt =====
-- DatabaseRepository (repositories/managed_databases.py).
use coder_manager.Base.{
  ℕ, ◌+◌, Bool, not, ◌&&◌, String, Option, none, some, ◌==◌, nat_eq, string_eq, Table, [], ◌∷◌,
  find, add, modify, delete, exists_where, ltb, if◌then◌else◌,
}
use coder_manager.Model.{Database, DatabaseAllocation, Db}
use coder_manager.Repositories.Reply.{Reply, accepted, ◌>>=◌, ◌>>◌, refuse_if, found_or}

pub data DatabaseError : Type 0 where
  already_exists not_found in_use capacity_conflict : DatabaseError

-- `select count(*) from database_allocations where database_id = ...`
unfoldable pub allocation_count : ℕ → Table DatabaseAllocation → ℕ
allocation_count database_id [] = 0
allocation_count database_id ((_, a) ∷ rest) =
    let others = allocation_count database_id rest in
    if a.database_id == database_id then others + 1 else others

pub record DatabaseCreate : Type 0 where
  pub name : String
  pub instance_max : ℕ
  pub host : String
  pub port : ℕ
  pub database_name : String
  pub username : String
  pub password : String

pub record DatabaseUpdate : Type 0 where
  pub name : String
  pub instance_max : ℕ
  pub host : String
  pub port : ℕ
  pub database_name : String
  pub username : String
  pub password : Option String

-- The database's `lower`, and the envelope that the cipher makes of a password and an identifier.
pub record DatabaseServices : Type 0 where
  pub lower : String → String
  pub encrypt : String → ℕ → ℕ

abbrev pub is_allocated_to : ℕ → ℕ → DatabaseAllocation → Bool
is_allocated_to database_id _ a = a.database_id == database_id

module _ (services : DatabaseServices) where
  -- The unique index on the name in lower case, tested when the transaction commits.
  unfoldable pub name_is_taken : ℕ → String → Db → Bool
  name_is_taken database_id name db =
      exists_where (λ id d. not (id == database_id) && services.lower d.name == services.lower name)
        db.databases

  abbrev pub new_database : ℕ → DatabaseCreate → Database
  new_database database_id payload = record {
    name = payload.name;
    instance_max = payload.instance_max;
    host = payload.host;
    port = payload.port;
    database_name = payload.database_name;
    username = payload.username;
    password_enc = services.encrypt payload.password database_id;
  }

  -- The identifier is the one that `uuid4` returns.
  unfoldable pub create : ℕ → DatabaseCreate → Db → Reply DatabaseError Db
  create database_id payload db = do
    refuse_if (name_is_taken database_id payload.name db) already_exists
    accepted
        (record db { databases = add database_id (new_database database_id payload) db.databases })

  abbrev pub rotated : ℕ → Option String → ℕ → ℕ
  rotated database_id none password_enc = password_enc
  rotated database_id (some password) password_enc = services.encrypt password database_id

  abbrev pub replaced : ℕ → DatabaseUpdate → Database → Database
  replaced database_id payload d = record {
    name = payload.name;
    instance_max = payload.instance_max;
    host = payload.host;
    port = payload.port;
    database_name = payload.database_name;
    username = payload.username;
    password_enc = rotated database_id payload.password d.password_enc;
  }

  unfoldable pub update : ℕ → DatabaseUpdate → Db → Reply DatabaseError Db
  update database_id payload db = do
    d ← found_or (find database_id db.databases) not_found
    refuse_if (ltb payload.instance_max (allocation_count database_id db.allocations))
        capacity_conflict
    refuse_if (name_is_taken database_id payload.name db) already_exists
    accepted
        (record db { databases = modify database_id (replaced database_id payload) db.databases })

unfoldable pub remove : ℕ → Db → Reply DatabaseError Db
remove database_id db = do
  d ← found_or (find database_id db.databases) not_found
  refuse_if (exists_where (is_allocated_to database_id) db.allocations) in_use
  accepted (record db { databases = delete database_id db.databases })
