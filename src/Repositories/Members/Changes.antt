-- ===== src/Repositories/Members/Changes.antt =====
-- The changes of an instance's members, and what an accepted one did.
use coder_manager.Base.{
  ℕ, ◌≡◌, refl, sym, ap, eq_of_beq, inl, inr, false, String, some, ◌==◌, nat_eq, string_eq,
  option_eq, List, Table, find, find-add, find-modify, add, modify, Bool-cases, Option-cases, arith,
}
use coder_manager.Model.{Instance, Member, MemberRole, role_eq, Db, pending, status_eq}
use coder_manager.Repositories.Reply.{Reply, accepted, refused, Reply-cases}
use coder_manager.Repositories.Members.{
  MemberError, lock_available_instance, request_instance_update, lock_member, new_member, create,
  update_role, request_deletion,
}

-- The requests of the API on the members of one instance.
pub data Change : Type 0 where
  creation : String → MemberRole → Change
  new_role : MemberRole → Change
  deletion : List String → Change

abbrev pub database_of {ℓ} : {A : Type ℓ} → Reply MemberError (Db × A) → Reply MemberError Db
database_of (accepted (db, a)) = accepted db
database_of (refused e) = refused e

abbrev pub change : Change → ℕ → ℕ → ℕ → Db → Reply MemberError Db
change (creation username role) member_id job_id instance_id db =
    database_of (create member_id job_id instance_id username role db)
change (new_role role) member_id job_id instance_id db =
    database_of (update_role job_id instance_id member_id role db)
change (deletion protected_usernames) member_id job_id instance_id db =
    request_deletion job_id instance_id member_id protected_usernames db

-- The row that a change asks for.
abbrev pub IsAsked : Change → Member → Type 0
IsAsked (creation username role) m =
    (m.username ≡ username) × (m.role ≡ role) × (m.action ≡ "creating")
IsAsked (new_role role) m = (m.role ≡ role) × (m.action ≡ "updating")
IsAsked (deletion protected_usernames) m = m.action ≡ "deleting"

-- What an accepted change did: nothing, or it wrote one member's row and asked for an update of the
-- instance.
pub data Changed (x : Change) (member_id job_id instance_id : ℕ) (db db' : Db) : Type 0 where
  unchanged :
      (m : Member)
      → find member_id db.members ≡ some m
      → x ≡ new_role m.role
      → db' ≡ db
      → Changed x member_id job_id instance_id db db'
  written :
      (i : Instance) (members : Table Member)
      → lock_available_instance instance_id db ≡ accepted i
      → find instance_id db.instances ≡ some i
      → (m : Member) → find member_id members ≡ some m
      → m.instance_id ≡ instance_id
      → m.status ≡ pending
      → IsAsked x m
      → ((k : ℕ) → (k == member_id) ≡ false → find k members ≡ find k db.members)
      → db' ≡ (request_instance_update job_id instance_id i (record db { members = members })).0
      → Changed x member_id job_id instance_id db db'

locked_instance :
    (instance_id : ℕ) (db : Db) (i : Instance)
    → lock_available_instance instance_id db ≡ accepted i
    → find instance_id db.instances ≡ some i
unfolding lock_available_instance
locked_instance instance_id db i h = elim (Option-cases (find instance_id db.instances)) [
  | inl e ↦ absurd (ground arith)
  | inr (i', e) ↦ ground arith
]

locked_member :
    (instance_id member_id : ℕ) (db : Db) (m : Member)
    → lock_member instance_id member_id db ≡ accepted m
    → (find member_id db.members ≡ some m) × (m.instance_id ≡ instance_id)
unfolding lock_member
locked_member instance_id member_id db m h = elim (Option-cases (find member_id db.members)) [
  | inl e ↦ absurd (ground arith)
  | inr (old, e) ↦ (ground arith, ground arith)
]

pub change-Changed :
    (x : Change) (member_id job_id instance_id : ℕ) (db db' : Db)
    → change x member_id job_id instance_id db ≡ accepted db'
    → Changed x member_id job_id instance_id db db'
unfolding create update_role request_deletion
change-Changed (creation username role) member_id job_id instance_id db db' h =
    elim (Reply-cases (lock_available_instance instance_id db)) [
      | inr (e, l) ↦ absurd (ground arith)
      | inl (i, l) ↦
          let new = new_member instance_id username role in
          Changed.written i (add member_id new db.members) l (locked_instance instance_id db i l)
            new (ground (arith, find-add member_id member_id new db.members)) refl refl
            (refl, refl, refl) (λ k e. ground (arith, find-add k member_id new db.members))
            (ground arith)
    ]
change-Changed (new_role role) member_id job_id instance_id db db' h =
    elim (Reply-cases (lock_available_instance instance_id db)) [
      | inr (e, l) ↦ absurd (ground arith)
      | inl (i, l) ↦ elim (Reply-cases (lock_member instance_id member_id db)) [
        | inr (e, n) ↦ absurd (ground arith)
        | inl (m, n) ↦
            let (held, owned) = locked_member instance_id member_id db m n in
            elim (Bool-cases (m.role == role)) [
              | inl same ↦
                  Changed.unchanged m held (ap new_role (sym (eq_of_beq m.role role same)))
                    (ground arith)
              | inr other ↦
                  let f : Member → Member =
                    λ m. record m { role = role; action = "updating"; status = pending } in
                  Changed.written i (modify member_id f db.members) l
                    (locked_instance instance_id db i l) (f m)
                    (ground (arith, find-modify member_id member_id f db.members, held)) owned refl
                    (refl, refl) (λ k e. ground (arith, find-modify k member_id f db.members))
                    (ground arith)
            ]
      ]
    ]
change-Changed (deletion protected_usernames) member_id job_id instance_id db db' h =
    elim (Reply-cases (lock_available_instance instance_id db)) [
      | inr (e, l) ↦ absurd (ground arith)
      | inl (i, l) ↦ elim (Reply-cases (lock_member instance_id member_id db)) [
        | inr (e, n) ↦ absurd (ground arith)
        | inl (m, n) ↦
            let (held, owned) = locked_member instance_id member_id db m n in
            let f : Member → Member = λ m. record m { action = "deleting"; status = pending } in
            Changed.written i (modify member_id f db.members) l (locked_instance instance_id db i l)
              (f m) (ground (arith, find-modify member_id member_id f db.members, held)) owned refl
              refl (λ k e. ground (arith, find-modify k member_id f db.members)) (ground arith)
      ]
    ]
