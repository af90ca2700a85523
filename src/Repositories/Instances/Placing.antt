-- ===== src/Repositories/Instances/Placing.antt =====
-- The database that a new instance is placed on.
use native.Mathlib.Nat.{mul-le-mul_right, le_of_mul-le-mul_right, mul_right_comm}
use coder_manager.Base.{
  ℕ, ◌*◌, ◌≤◌, ◌<◌, ◌≡◌, refl, ◌∙◌, ◌⊎◌, inl, inr, true, nat_eq, string_eq, List, Table, [], ◌∷◌,
  Listed, ltb, Bool-cases, arith, if◌then◌else◌,
}
use coder_manager.Model.{Database, DatabaseAllocation}
use coder_manager.Repositories.Databases.{allocation_count}
use coder_manager.Repositories.Instances.Creation.{
  Candidate, Placement, available_databases, precedes, least,
}

abbrev pub Among : Candidate → List Candidate → Type 0
Among c [] = ⊥
Among c (d ∷ rest) = (c ≡ d) ⊎ Among c rest

-- What `available_databases` lists: a database with its count, and room for one more.
pub record IsAvailable (allocations : Table DatabaseAllocation) (databases : Table Database)
    (c : Candidate) : Type 0 where
  pub listed : Listed c.id c.row databases
  pub counted : c.count ≡ allocation_count c.id allocations
  pub has_room : c.count < c.row.instance_max

later :
    {allocations : Table DatabaseAllocation} {databases : Table Database} {c : Candidate} (id : ℕ)
    (d : Database)
    → IsAvailable allocations databases c
    → IsAvailable allocations ((id, d) ∷ databases) c
later id d a = record { listed = inr a.listed; counted = a.counted; has_room = a.has_room }

pub available_databases-IsAvailable :
    (allocations : Table DatabaseAllocation) (databases : Table Database) (c : Candidate)
    → Among c (available_databases allocations databases)
    → IsAvailable allocations databases c
unfolding available_databases
available_databases-IsAvailable allocations [] c h = absurd h
available_databases-IsAvailable allocations ((id, d) ∷ rest) c h =
    elim (Bool-cases (ltb (allocation_count id allocations) d.instance_max)) [
      | inr e ↦ later id d (available_databases-IsAvailable allocations rest c (rw e at h))
      | inl e ↦ elim (rw e at h) [
        | inl same ↦
            rw same
              (record { listed = inl (refl, refl); counted = refl; has_room = ground (arith, e) })
        | inr other ↦ later id d (available_databases-IsAvailable allocations rest c other)
      ]
    ]

pub available_databases_complete :
    (allocations : Table DatabaseAllocation) (databases : Table Database) (id : ℕ) (d : Database)
    → Listed id d databases
    → allocation_count id allocations < d.instance_max
    → Among
        (record { id = id; row = d; count = allocation_count id allocations })
        (available_databases allocations databases)
unfolding available_databases
available_databases_complete allocations [] id d h room = absurd h
available_databases_complete allocations ((j, e) ∷ rest) id d (inl (same_id, same_row)) room =
    let fits : ltb (allocation_count j allocations) e.instance_max ≡ true =
      rw (← same_id, ← same_row) (ground arith) in
    rw fits (inl (rw (same_id, same_row) refl))
available_databases_complete allocations ((j, e) ∷ rest) id d (inr other) room =
    let among = available_databases_complete allocations rest id d other room in
    elim (Bool-cases (ltb (allocation_count j allocations) e.instance_max)) [
      | inl fits ↦ rw fits (inr among)
      | inr full ↦ rw full among
    ]

-- The first fraction is at most the second.
abbrev pub IsAtMost : Candidate → Candidate → Type 0
IsAtMost a b = a.count * b.row.instance_max ≤ b.count * a.row.instance_max

cross_trans : (a b c p q r : ℕ) → 0 < q → a * q ≤ b * p → b * r ≤ c * q → a * r ≤ c * p
cross_trans a b c p q r pos h k =
    let first : a * r * q ≤ b * p * r = rw (mul_right_comm a r q) (mul-le-mul_right r h) in
    let second : b * p * r ≤ c * p * q =
      rw (mul_right_comm b p r, mul_right_comm c p q) (mul-le-mul_right p k) in
    le_of_mul-le-mul_right {k = q} (omega (arith, first, second)) pos

IsAtMost-trans :
    (a b c : Candidate) → 0 < b.row.instance_max → IsAtMost a b → IsAtMost b c → IsAtMost a c
IsAtMost-trans a b c =
    cross_trans a.count b.count c.count a.row.instance_max b.row.instance_max c.row.instance_max

module _ (placement : Placement) where
  -- The better of two candidates.
  abbrev better : Candidate → Candidate → Candidate
  better c best = if precedes placement c best then c else best

  better-one : (c best : Candidate) → (better c best ≡ c) ⊎ (better c best ≡ best)
  better-one c best = elim (Bool-cases (precedes placement c best)) [
    | inl e ↦ inl (rw e refl)
    | inr e ↦ inr (rw e refl)
  ]

  better-IsAtMost :
      (c best : Candidate) → IsAtMost (better c best) c × IsAtMost (better c best) best
  better-IsAtMost c best = elim (Bool-cases (precedes placement c best)) [
    | inl e ↦ rw e (omega arith, ground arith)
    | inr e ↦ rw e (ground arith, omega arith)
  ]

  pub least-Among :
      (best : Candidate) (others : List Candidate)
      → Among (least placement best others) (best ∷ others)
  unfolding least
  least-Among best [] = inl refl
  least-Among best (c ∷ rest) = elim (least-Among (better c best) rest) [
    | inr x ↦ inr (inr x)
    | inl x ↦ elim (better-one c best) [ inl e ↦ inr (inl (x ∙ e)) | inr e ↦ inl (x ∙ e) ]
  ]

  -- The least is at most the best so far and every other one.
  pub least-IsAtMost :
      (best : Candidate) (others : List Candidate)
      → ((c : Candidate) → Among c (best ∷ others) → 0 < c.row.instance_max)
      → (c : Candidate) → Among c (best ∷ others)
      → IsAtMost (least placement best others) c
  unfolding least
  least-IsAtMost best [] pos c (inl e) = rw e (omega arith)
  least-IsAtMost best [] pos c (inr x) = absurd x
  least-IsAtMost best (d ∷ rest) pos c h =
      let next = better d best in
      let positive : 0 < next.row.instance_max = elim (better-one d best) [
        | inl e ↦ rw e (pos d (inr (inl refl)))
        | inr e ↦ rw e (pos best (inl refl))
      ] in
      let rest_IsAtMost =
        least-IsAtMost next rest
          (λ x k. elim k [ inl e ↦ rw e positive | inr y ↦ pos x (inr (inr y)) ]) in
      let below = rest_IsAtMost next (inl refl) in
      elim h [
        | inl e ↦ rw e (
            IsAtMost-trans (least placement next rest) next best positive below
              (better-IsAtMost d best).1)
        | inr (inl e) ↦ rw e (
            IsAtMost-trans (least placement next rest) next d positive below
              (better-IsAtMost d best).0)
        | inr (inr y) ↦ rest_IsAtMost c (inr y)
      ]
