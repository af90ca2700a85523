-- ===== src/Repositories/Members/Linking.antt =====
-- What a change of a member leaves behind: the instance's update, the other members, and the link
-- between resources and jobs.
use coder_manager.Base.{
  ℕ, ◌≡◌, ◌≢◌, refl, ◌⊎◌, inl, inr, true, false, String, none, some, ◌==◌, nat_eq, string_eq,
  option_eq, List, contains, Table, find, exists_where-find, Option-cases, arith,
}
use coder_manager.Model.{
  Member, Workspace, role_eq, Db, Lifecycle, pending, status_eq, instance_kind, lifecycle_of,
  template_kind, assignment_kind, workspace_kind,
}
use coder_manager.Jobs.Consistency.Settling.{IsConsistent}
use coder_manager.Repositories.Reply.{accepted, Reply-cases}
use coder_manager.Repositories.Jobs.{in_progress}
use coder_manager.Repositories.Members.{lock_available_instance, lock_member, request_deletion}
use coder_manager.Repositories.Members.Changes.{
  Change, change, IsAsked, new_role, change-Changed, unchanged, written,
}
use coder_manager.Repositories.Members.Updates.{
  request_instance_update-cases, with_update-IsConsistent, updating_row,
  members-request_instance_update,
}

-- The rows of a database whose members changed.
with_members-IsConsistent :
    (db : Db) (members : Table Member)
    → IsConsistent db
    → IsConsistent (record db { members = members })
unfolding lifecycle_of
with_members-IsConsistent db members c instance_kind i l j = c instance_kind i l j
with_members-IsConsistent db members c template_kind i l j = c template_kind i l j
with_members-IsConsistent db members c assignment_kind i l j = c assignment_kind i l j
with_members-IsConsistent db members c workspace_kind i l j = c workspace_kind i l j

-- An accepted creation, new role or deletion of a member, under a job identifier that was not in
-- use, keeps the link between resources and jobs (each job that a resource names is in the table,
-- is of that resource, and has its status).
pub change-IsConsistent :
    (x : Change) (member_id job_id instance_id : ℕ) (db db' : Db)
    → find job_id db.jobs ≡ none
    → change x member_id job_id instance_id db ≡ accepted db'
    → IsConsistent db
    → IsConsistent db'
change-IsConsistent x member_id job_id instance_id db db' fresh h c =
    elim (change-Changed x member_id job_id instance_id db db' h) [
      | unchanged m held asked same ↦ rw same c
      | written i members l found m held owned waits asked kept done ↦
          let base : Db = record db { members = members } in
          let fine = with_members-IsConsistent db members c in
          elim (request_instance_update-cases job_id instance_id i base) [
            | inl (same, acts, busy) ↦ rw (done, same) fine
            | inr queued ↦
                rw (done, queued) (with_update-IsConsistent job_id instance_id base fresh fine)
          ]
    ]

-- An accepted creation, new role or deletion of a member changes nothing, which happens only for a
-- new role that the member has already; or it leaves the member in the table, as a pending member
-- of the instance with what was asked (the name and role and the action "creating", the role and
-- the action "updating", or the action "deleting"), and the instance under the action "updating",
-- pending or running. The instance may be updating before.
pub change-updating :
    (x : Change) (member_id job_id instance_id : ℕ) (db db' : Db)
    → change x member_id job_id instance_id db ≡ accepted db'
    → ((db' ≡ db) × (m : Member) × (find member_id db.members ≡ some m) × (x ≡ new_role m.role))
      ⊎ ((l : Lifecycle) × (lifecycle_of instance_kind instance_id db' ≡ some l)
          × (l.action ≡ "updating")
          × (in_progress l.status ≡ true)
          × (m : Member) × (find member_id db'.members ≡ some m)
          × (m.instance_id ≡ instance_id)
          × (m.status ≡ pending)
          × IsAsked x m)
change-updating x member_id job_id instance_id db db' h =
    elim (change-Changed x member_id job_id instance_id db db' h) [
      | unchanged m held asked same ↦ inl (same, m, held, asked)
      | written i members l found m held owned waits asked kept done ↦
          let base : Db = record db { members = members } in
          let (row, located, acts, busy) = updating_row job_id instance_id i base found in
          inr (
            row,
            rw done located,
            acts,
            busy,
            m,
            rw (done, members-request_instance_update job_id instance_id i base) held,
            owned,
            waits,
            asked,
          )
    ]

-- An accepted creation, new role or deletion of a member leaves the row of every other member as it
-- was.
pub change-others :
    (x : Change) (member_id job_id instance_id k : ℕ) (db db' : Db)
    → change x member_id job_id instance_id db ≡ accepted db'
    → (k == member_id) ≡ false
    → find k db'.members ≡ find k db.members
change-others x member_id job_id instance_id k db db' h other =
    elim (change-Changed x member_id job_id instance_id db db' h) [
      | unchanged m held asked same ↦ rw same refl
      | written i members l found m held owned waits asked kept done ↦
          let base : Db = record db { members = members } in
          rw (done, members-request_instance_update job_id instance_id i base) (kept k other)
    ]

-- A member whose deletion is accepted belongs to the instance, is not one of the protected users,
-- and owns no workspace.
pub deletion-safe :
    (member_id job_id instance_id : ℕ) (protected_usernames : List String) (db db' : Db)
    → request_deletion job_id instance_id member_id protected_usernames db ≡ accepted db'
    → (m : Member) × (find member_id db.members ≡ some m)
      × (m.instance_id ≡ instance_id)
      × (contains protected_usernames m.username ≡ false)
      × ((n : ℕ) (w : Workspace) → find n db.workspaces ≡ some w → w.member_id ≢ member_id)
unfolding request_deletion lock_member
deletion-safe member_id job_id instance_id protected_usernames db db' h =
    elim (Reply-cases (lock_available_instance instance_id db)) [
      | inr (e, l) ↦ absurd (ground arith)
      | inl (i, l) ↦ elim (Option-cases (find member_id db.members)) [
        | inl e ↦ absurd (ground arith)
        | inr (m, e) ↦ (
          m,
          e,
          ground arith,
          ground arith,
          λ n w found same. ground (
            arith,
            exists_where-find (λ _ (x : Workspace). x.member_id == member_id) n w db.workspaces
                found,
          ),
        )
      ]
    ]
