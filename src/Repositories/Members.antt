-- ===== src/Repositories/Members.antt =====
-- MemberRepository (repositories/members.py).
use coder_manager.Base.{
  ℕ, Bool, true, false, not, ◌&&◌, String, some, ◌==◌, nat_eq, string_eq, option_eq, List, contains,
  find, add, modify, exists_where, if◌then◌else◌,
}
use coder_manager.Model.{
  pending, success, status_eq, Instance, MemberRole, role_eq, Member, Db, modify_lifecycle,
  instance_kind,
}
use coder_manager.Jobs.Registry.{instance_update_step_01, instance_update_step_01_task}
use coder_manager.Repositories.Reply.{Reply, accepted, ◌>>=◌, ◌>>◌, refuse_if, found_or}
use coder_manager.Repositories.Jobs.{
  add_job_execution, in_progress, requested, has_active_template_assignment,
}
pub mod Changes
pub mod Updates
pub mod Linking

pub data MemberError : Type 0 where
  already_exists instance_not_found not_found instance_busy action_conflict : MemberError
  has_workspaces protected_administrator : MemberError

abbrev pub update_in_progress : Instance → Bool
update_in_progress i =
    i.action == "updating" && i.step == some instance_update_step_01 && in_progress i.status

-- `_lock_available_instance`
unfoldable pub lock_available_instance : ℕ → Db → Reply MemberError Instance
lock_available_instance instance_id db = do
  i ← found_or (find instance_id db.instances) instance_not_found
  refuse_if (has_active_template_assignment instance_id db) instance_busy
  refuse_if (not (update_in_progress i) && not (i.status == success)) instance_busy
  accepted i

-- `_request_instance_update` and `_stage_instance_update_job`: an update that is waiting or running
-- takes the change along, any other instance gets a new job. The second result is `enqueue_update`.
unfoldable pub request_instance_update : ℕ → ℕ → Instance → Db → Db × Bool
request_instance_update job_id instance_id i db =
    if i.action == "updating" && in_progress i.status then (db, false) else (
      add_job_execution job_id "instance.update" instance_update_step_01_task (some "instance")
          (some instance_id) instance_update_step_01
          (modify_lifecycle instance_kind instance_id
            (requested "updating" job_id instance_update_step_01) db),
      true,
    )

-- `_lock_member`
unfoldable pub lock_member : ℕ → ℕ → Db → Reply MemberError Member
lock_member instance_id member_id db = do
  m ← found_or (find member_id db.members) not_found
  refuse_if (not (m.instance_id == instance_id)) not_found
  accepted m

abbrev pub new_member : ℕ → String → MemberRole → Member
new_member instance_id username role = record {
  instance_id = instance_id;
  username = username;
  role = role;
  action = "creating";
  status = pending;
}

-- The unique constraint on the instance and the user's name, tested when the transaction commits.
unfoldable pub username_is_taken : ℕ → String → Db → Bool
username_is_taken instance_id username db =
    exists_where (λ _ m. m.instance_id == instance_id && m.username == username) db.members

-- The replies hold the database, the member's identifier, and whether the member changed. The
-- identifiers come from `uuid4`.
unfoldable pub create : ℕ → ℕ → ℕ → String → MemberRole → Db → Reply MemberError (Db × ℕ)
create member_id job_id instance_id username role db = do
  i ← lock_available_instance instance_id db
  refuse_if (username_is_taken instance_id username db) already_exists
  accepted (
    (request_instance_update job_id instance_id i (record db {
      members = add member_id (new_member instance_id username role) db.members;
    })).0,
    member_id,
  )

unfoldable pub update_role : ℕ → ℕ → ℕ → MemberRole → Db → Reply MemberError (Db × Bool)
update_role job_id instance_id member_id role db = do
  i ← lock_available_instance instance_id db
  m ← lock_member instance_id member_id db
  refuse_if (not (m.status == success)) action_conflict
  accepted (
      if m.role == role then (db, false) else (
        (request_instance_update job_id instance_id i (record db {
          members =
              modify member_id
                (λ m. record m { role = role; action = "updating"; status = pending }) db.members;
        })).0,
        true,
      ))

unfoldable pub request_deletion : ℕ → ℕ → ℕ → List String → Db → Reply MemberError Db
request_deletion job_id instance_id member_id protected_usernames db = do
  i ← lock_available_instance instance_id db
  m ← lock_member instance_id member_id db
  refuse_if (contains protected_usernames m.username) protected_administrator
  refuse_if (not (m.status == success)) action_conflict
  refuse_if (exists_where (λ _ w. w.member_id == member_id) db.workspaces) has_workspaces
  accepted (
      (request_instance_update job_id instance_id i (record db {
        members =
            modify member_id (λ m. record m { action = "deleting"; status = pending }) db.members;
      })).0)
