-- ===== src/Tasks/Settling.antt =====
-- What the end of an instance's update does to each member (`_finalize_update` of
-- tasks/instance/update).
use coder_manager.Base.{
  ℕ, ◌≡◌, ◌≢◌, ◌⊎◌, refl, eq_of_beq, true, false, contains, inl, inr, ◌&&◌, String, Option, none,
  some, ◌==◌, nat_eq, string_eq, List, [], ◌∷◌, Table, IsKeyed, find, Bool-cases, arith,
  if◌then◌else◌,
}
use coder_manager.Model.{running, success, status_eq, Member}
use coder_manager.Tasks.Updating.{is_claimed, settle_members}

-- The member as the update leaves it: gone if it was to be deleted, else successful; a member that
-- the attempt did not claim, or whose change came later, stays as it is.
abbrev settled_member : List ℕ → ℕ → ℕ → Option Member → Option Member
settled_member member_ids instance_id id none = none
settled_member member_ids instance_id id (some m) =
    if is_claimed member_ids id m && m.instance_id == instance_id
    then (if m.action == "deleting" then none else some (record m { status = success }))
    else some m

find_row :
    (member_ids : List ℕ) (instance_id n : ℕ) (t : Table Member)
    → IsKeyed t
    → find n (settle_members member_ids instance_id t)
      ≡ settled_member member_ids instance_id n (find n t)
unfolding settle_members find
find_row member_ids instance_id n [] d = refl
find_row member_ids instance_id n ((id, m) ∷ rest) (fresh, d) =
    let later = find_row member_ids instance_id n rest d in
    elim (Bool-cases (n == id)) [
      | inl hit ↦
          let same : n ≡ id = ground (arith, hit) in
          let gone : find n rest ≡ none = rw same fresh in ground (arith, later, hit, gone, same)
      | inr miss ↦ ground (arith, later, miss)
    ]

-- What the end of an update makes of one member, as it was and as it is, from the columns of its
-- row: it was not there; the attempt has no claim on it, since its identifier is not among the
-- claimed ones, or it is not running any more, or it is another instance's; it was to be deleted; or
-- its change is done.
abbrev pub Settled : List ℕ → ℕ → ℕ → Option Member → Option Member → Type 0
Settled member_ids instance_id id none after = after ≡ none
Settled member_ids instance_id id (some m) after =
    (((contains member_ids id ≡ false) ⊎ ((m.status ≢ running) ⊎ (m.instance_id ≢ instance_id)))
      × (after ≡ some m))
    ⊎ ((contains member_ids id ≡ true)
        × (m.status ≡ running)
        × (m.instance_id ≡ instance_id)
        × (((m.action ≡ "deleting") × (after ≡ none))
            ⊎ ((m.action ≢ "deleting") × (after ≡ some (record m { status = success })))))

not_equal : (a b : String) → (a == b) ≡ false → a ≢ b
not_equal a b differ same = let equal : (a == b) ≡ true = ((string_eq).equals_iff a b).1 same in cc

settled_member-Settled :
    (member_ids : List ℕ) (instance_id id : ℕ) (before : Option Member)
    → Settled member_ids instance_id id before (settled_member member_ids instance_id id before)
settled_member-Settled member_ids instance_id id none = refl
settled_member-Settled member_ids instance_id id (some m) =
    elim (Bool-cases (contains member_ids id)) [
      | inr out ↦ inl (inl out, ground (arith, out))
      | inl within ↦ elim (Bool-cases (m.status == running)) [
        | inr still ↦ inl (inr (inl (λ e. ground (arith, e, still))), ground (arith, still, within))
        | inl run ↦ elim (Bool-cases (m.instance_id == instance_id)) [
          | inr other ↦
              inl (inr (inr (λ e. ground (arith, e, other))), ground (arith, other, run, within))
          | inl own ↦ inr (
            within,
            eq_of_beq m.status running run,
            ground (arith, own),
            (elim (Bool-cases (m.action == "deleting")) [
              | inl gone ↦
                  inl (eq_of_beq m.action "deleting" gone, ground (arith, gone, own, run, within))
              | inr done ↦
                  inr (not_equal m.action "deleting" done, ground (arith, done, own, run, within))
            ]),
          )
        ]
      ]
    ]

-- If no two members share an identifier, the end of an update leaves a member as it was if its
-- identifier is not among the claimed ones, or it is not running any more, or it is another
-- instance's; of the other members it removes those that were to be deleted and makes the rest
-- successful; it adds none.
pub find-settle_members :
    (member_ids : List ℕ) (instance_id n : ℕ) (t : Table Member)
    → IsKeyed t
    → Settled member_ids instance_id n (find n t) (find n (settle_members member_ids instance_id t))
find-settle_members member_ids instance_id n t keyed =
    rw (find_row member_ids instance_id n t keyed)
      (settled_member-Settled member_ids instance_id n (find n t))
