-- ===== src/Base/Tables.antt =====
-- A database table: its rows in insertion order, each behind its primary key.
use Prim.Native.Nat.{ℕ}
use mathlib.Core.Path.{◌≡◌, refl}
use mathlib.Core.Logic.{◌⊎◌, inl, inr}
use mathlib.Core.Bool.{Bool, true, false, ◌||◌}
use mathlib.Core.List.{List, [], ◌∷◌}
use mathlib.Core.Option
use mathlib.Core.Option.{Option, none, some}
use native.Mathlib.Omega.{arith}
use coder_manager.Base.Tests.{Bool-cases, ◌==◌, nat_eq, if◌then◌else◌}

abbrev pub Table {ℓ} : Type ℓ → Type ℓ
Table A = List (ℕ × A)

module _ {ℓ} {A : Type ℓ} where
  -- The row with a primary key.
  unfoldable pub find : ℕ → Table A → Option A
  find k [] = none
  find k ((j, a) ∷ t) = if k == j then some a else find k t

  -- A new row.
  unfoldable pub add : ℕ → A → Table A → Table A
  add k a t = (k, a) ∷ t

  -- An update of the row with a primary key; nothing happens if there is none.
  unfoldable pub modify : ℕ → (A → A) → Table A → Table A
  modify k f [] = []
  modify k f ((j, a) ∷ t) = (j, if k == j then f a else a) ∷ modify k f t

  -- `UPDATE ... WHERE`
  unfoldable pub modify_where : (ℕ → A → Bool) → (A → A) → Table A → Table A
  modify_where p f [] = []
  modify_where p f ((j, a) ∷ t) = (j, if p j a then f a else a) ∷ modify_where p f t

  -- `DELETE ... WHERE`
  unfoldable pub delete_where : (ℕ → A → Bool) → Table A → Table A
  delete_where p [] = []
  delete_where p ((j, a) ∷ t) = let rest = delete_where p t in if p j a then rest else (j, a) ∷ rest

  unfoldable pub delete : ℕ → Table A → Table A
  delete k [] = []
  delete k ((j, a) ∷ t) = let rest = delete k t in if k == j then rest else (j, a) ∷ rest

  -- `SELECT ... WHERE ... LIMIT 1` used as a test.
  unfoldable pub exists_where : (ℕ → A → Bool) → Table A → Bool
  exists_where p [] = false
  exists_where p ((j, a) ∷ t) = p j a || exists_where p t

  pub find-add :
      (j k : ℕ) (a : A) (t : Table A) → find j (add k a t) ≡ (if j == k then some a else find j t)
  unfolding find add
  find-add j k a t = refl

  pub find-modify :
      (j k : ℕ) (f : A → A) (t : Table A)
      → find j (modify k f t) ≡ (if j == k then Option.map f (find j t) else find j t)
  unfolding find modify
  find-modify j k f [] = ground arith
  find-modify j k f ((i, a) ∷ t) = ground (arith, find-modify j k f t)

  pub find-delete :
      (j k : ℕ) (t : Table A) → find j (delete k t) ≡ (if j == k then none else find j t)
  unfolding find delete
  find-delete j k [] = ground arith
  find-delete j k ((i, a) ∷ t) = ground (arith, find-delete j k t)

  -- A row that satisfies a condition is found by a search for it.
  pub exists_where-find :
      (p : ℕ → A → Bool) (k : ℕ) (a : A) (t : Table A)
      → find k t ≡ some a
      → p k a ≡ true
      → exists_where p t ≡ true
  unfolding find exists_where
  exists_where-find p k a [] h hp = ground arith
  exists_where-find p k a ((i, b) ∷ t) h hp = ground (arith, exists_where-find p k a t)

-- The keys of a table's rows.
module _ {A : Type 0} where
  -- The rows of a table, whether or not their keys are found again.
  abbrev pub Listed : ℕ → A → Table A → Type 0
  Listed k a [] = ⊥
  Listed k a ((j, b) ∷ t) = ((k ≡ j) × (a ≡ b)) ⊎ Listed k a t

  -- A primary key: no two rows share it.
  abbrev pub IsKeyed : Table A → Type 0
  IsKeyed [] = Unit
  IsKeyed ((j, a) ∷ t) = (find j t ≡ none) × IsKeyed t

  pub Listed-find : (k : ℕ) (a : A) (t : Table A) → IsKeyed t → Listed k a t → find k t ≡ some a
  unfolding find
  Listed-find k a [] d h = absurd h
  Listed-find k a ((j, b) ∷ t) d (inl e) = ground (arith, e)
  Listed-find k a ((j, b) ∷ t) d (inr h) = ground (arith, Listed-find k a t d.1 h, d.0)

  pub IsKeyed-modify : (k : ℕ) (f : A → A) (t : Table A) → IsKeyed t → IsKeyed (modify k f t)
  unfolding modify
  IsKeyed-modify k f [] d = d
  IsKeyed-modify k f ((j, a) ∷ t) d =
      (ground (arith, find-modify j k f t, d.0), IsKeyed-modify k f t d.1)

  pub IsKeyed-delete : (k : ℕ) (t : Table A) → IsKeyed t → IsKeyed (delete k t)
  unfolding delete
  IsKeyed-delete k [] d = d
  IsKeyed-delete k ((j, a) ∷ t) d = elim (Bool-cases (k == j)) [
    | inl e ↦ rw e (IsKeyed-delete k t d.1)
    | inr e ↦ rw e (ground (arith, find-delete j k t, d.0), IsKeyed-delete k t d.1)
  ]
