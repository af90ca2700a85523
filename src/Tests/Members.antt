-- ===== src/Tests/Members.antt =====
-- Changes of members at a small database.
use coder_manager.Base.{
  ℕ, ◌≡◌, ◌≢◌, ◌⊎◌, refl, none, some, [], ◌∷◌, true, false, nat_eq, string_eq, option_eq, find,
  modify, exists_where, contains,
}
use coder_manager.Model.{
  pending, success, Lifecycle, Member, Workspace, admin, Db, instance_kind, lifecycle_of,
}
use coder_manager.Repositories.Reply.{accepted}
use coder_manager.Repositories.Jobs.{has_active_template_assignment, in_progress}
use coder_manager.Repositories.Members.{
  lock_available_instance, request_instance_update, lock_member, update_role, request_deletion,
}
use coder_manager.Repositories.Members.Changes.{Change, IsAsked, change}
use coder_manager.Repositories.Members.Linking.{change-updating, change-others, deletion-safe}
use coder_manager.Tests.Data.{quiet, instance_with, lifecycle}

-- Member 6 of instance 1 becomes an administrator, with job 11.
abbrev promoted : Db
promoted =
    (request_instance_update 11 1 (instance_with (lifecycle "created" success none none))
      (record quiet {
        members =
            modify 6
              (λ (m : Member). record m { role = admin; action = "updating"; status = pending })
              quiet.members;
      })).0

quiet-promoted : change (Change.new_role admin) 6 11 1 quiet ≡ accepted promoted
unfolding update_role lock_available_instance lock_member find has_active_template_assignment
    exists_where
quiet-promoted = refl

change-updating_example :
    ((promoted ≡ quiet)
      × (m : Member) × (find 6 quiet.members ≡ some m)
      × (Change.new_role admin ≡ Change.new_role m.role))
    ⊎ ((l : Lifecycle) × (lifecycle_of instance_kind 1 promoted ≡ some l)
        × (l.action ≡ "updating")
        × (in_progress l.status ≡ true)
        × (m : Member) × (find 6 promoted.members ≡ some m)
        × (m.instance_id ≡ 1)
        × (m.status ≡ pending)
        × IsAsked (Change.new_role admin) m)
change-updating_example =
    change-updating (Change.new_role admin) 6 11 1 quiet promoted quiet-promoted

change-others_example : find 8 promoted.members ≡ find 8 quiet.members
change-others_example =
    change-others (Change.new_role admin) 6 11 1 8 quiet promoted quiet-promoted refl

-- Member 6 is deleted, with job 11.
abbrev removed : Db
removed =
    (request_instance_update 11 1 (instance_with (lifecycle "created" success none none))
      (record quiet {
        members =
            modify 6 (λ (m : Member). record m { action = "deleting"; status = pending })
              quiet.members;
      })).0

quiet-removed : request_deletion 11 1 6 ("root" ∷ []) quiet ≡ accepted removed
unfolding request_deletion lock_available_instance lock_member find has_active_template_assignment
    exists_where
quiet-removed = refl

deletion-safe_example :
    (m : Member) × (find 6 quiet.members ≡ some m)
    × (m.instance_id ≡ 1)
    × (contains ("root" ∷ []) m.username ≡ false)
    × ((n : ℕ) (w : Workspace) → find n quiet.workspaces ≡ some w → w.member_id ≢ 6)
deletion-safe_example = deletion-safe 6 11 1 ("root" ∷ []) quiet removed quiet-removed
