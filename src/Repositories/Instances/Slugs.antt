-- ===== src/Repositories/Instances/Slugs.antt =====
-- The loop that draws slugs until one is free, and when it ends.
use coder_manager.Base.{
  ◌+◌, ◌≤◌, ◌<◌, ◌≡◌, refl, ap, inl, inr, true, false, String, some, ◌==◌, nat_eq, string_eq,
  eq_of_beq, beq_refl, List, Table, [], ◌∷◌, length, contains, exists_where, Bool-cases, arith,
  if◌then◌else◌,
}
use coder_manager.Model.{Instance}
use coder_manager.Repositories.Instances.Creation.{slug_is_taken, free_slug}

pub free_slug-free :
    (instances : Table Instance) (draws : List String) (slug : String)
    → free_slug instances draws ≡ some slug
    → slug_is_taken instances slug ≡ false
unfolding free_slug
free_slug-free instances [] slug h = absurd (ground arith)
free_slug-free instances (d ∷ draws) slug h = ground (arith, free_slug-free instances draws slug)

-- Draws of which no two are the same.
abbrev pub AllDiffer : List String → Type 0
AllDiffer [] = Unit
AllDiffer (s ∷ draws) = (contains draws s ≡ false) × AllDiffer draws

without : String → List String → List String
without s [] = []
without s (d ∷ draws) = let rest = without s draws in if d == s then rest else d ∷ rest

contains-without :
    (s x : String) (draws : List String)
    → contains (without s draws) x ≡ true
    → (contains draws x ≡ true) × ((x == s) ≡ false)
unfolding without
contains-without s x [] h = absurd (ground arith)
contains-without s x (d ∷ draws) h =
    ground
      (arith, contains-without s x draws, eq_of_beq x d, eq_of_beq d s, eq_of_beq x s, beq_refl s)

free_slug-some :
    (instances : Table Instance) (draws : List String) (slug : String)
    → contains draws slug ≡ true
    → slug_is_taken instances slug ≡ false
    → (found : String) × (free_slug instances draws ≡ some found)
unfolding free_slug
free_slug-some instances [] slug h free = absurd (ground arith)
free_slug-some instances (d ∷ draws) slug h free = elim (Bool-cases (slug_is_taken instances d)) [
  | inr e ↦ (d, ground arith)
  | inl e ↦
      let (found, out) =
        free_slug-some instances draws slug (ground (arith, eq_of_beq slug d)) free in
      (found, ground arith)
]

without-absent :
    (s : String) (draws : List String) → contains draws s ≡ false → without s draws ≡ draws
unfolding without
without-absent s [] h = refl
without-absent s (d ∷ draws) h =
    let apart : (d == s) ≡ false = ground (arith, eq_of_beq d s, beq_refl s) in
    rw apart (ap (λ (l : List String). d ∷ l) (without-absent s draws (ground arith)))

length-without :
    (s : String) (draws : List String)
    → AllDiffer draws
    → length draws ≤ length (without s draws) + 1
unfolding without
length-without s [] h = omega arith
length-without s (d ∷ draws) h = elim (Bool-cases (d == s)) [
  | inr e ↦ rw e (omega (arith, length-without s draws h.1))
  | inl e ↦
      let same : without s draws ≡ draws =
        without-absent s draws (ground (arith, h.0, eq_of_beq d s)) in
      rw (e, same) (omega arith)
]

AllDiffer-without :
    (s : String) (draws : List String) → AllDiffer draws → AllDiffer (without s draws)
unfolding without
AllDiffer-without s [] h = h
AllDiffer-without s (d ∷ draws) h = elim (Bool-cases (d == s)) [
  | inl e ↦ rw e (AllDiffer-without s draws h.1)
  | inr e ↦ rw e (ground (arith, h.0, contains-without s d draws), AllDiffer-without s draws h.1)
]

-- Among more draws than there are instances, one is free.
some_free :
    (instances : Table Instance) (draws : List String)
    → AllDiffer draws
    → length instances < length draws
    → (slug : String) × (contains draws slug ≡ true) × (slug_is_taken instances slug ≡ false)
unfolding slug_is_taken exists_where
some_free [] [] h more = absurd (omega arith)
some_free [] (d ∷ draws) h more = (d, ground (arith, beq_refl d), refl)
some_free ((k, i) ∷ instances) draws h more =
    let (slug, held, free) =
      some_free instances (without i.slug draws) (AllDiffer-without i.slug draws h)
        (omega (arith, length-without i.slug draws h)) in
    let (drawn, apart) = contains-without i.slug slug draws held in
    (slug, drawn, ground (arith, eq_of_beq i.slug slug, beq_refl slug))

pub free_slug-ends :
    (instances : Table Instance) (draws : List String)
    → AllDiffer draws
    → length instances < length draws
    → (slug : String) × (free_slug instances draws ≡ some slug)
free_slug-ends instances draws h more =
    let (slug, drawn, free) = some_free instances draws h more in
    free_slug-some instances draws slug drawn free
