-- ===== src/Base/Dicts.antt =====
-- Python's `dict` in insertion order, with one entry for a key.
use mathlib.Core.Path.{◌≡◌, refl}
use mathlib.Core.Bool.{Bool}
use mathlib.Core.List.{List, [], ◌∷◌}
use mathlib.Core.Option.{Option, none, some}
use native.Mathlib.Omega.{arith}
use coder_manager.Base.Tests.{Equality, ◌==◌, option_eq, if◌then◌else◌}

module _ {ℓ κ} {K : Type ℓ} {V : Type κ} ⦃e : Equality K⦄ where
  -- `d.get(k)`
  unfoldable pub lookup : K → List (K × V) → Option V
  lookup k [] = none
  lookup k ((j, v) ∷ d) = if k == j then some v else lookup k d

  -- `d[k] = v`
  unfoldable pub insert : K → V → List (K × V) → List (K × V)
  insert k v [] = (k, v) ∷ []
  insert k v ((j, w) ∷ d) = if k == j then (k, v) ∷ d else (j, w) ∷ insert k v d

  pub lookup-insert :
      (j k : K) (v : V) (d : List (K × V))
      → lookup j (insert k v d) ≡ (if j == k then some v else lookup j d)
  unfolding lookup insert
  lookup-insert j k v [] = refl
  lookup-insert j k v ((i, w) ∷ d) =
      ground (arith, e.equals_iff j k, e.equals_iff k i, e.equals_iff j i, lookup-insert j k v d)

  -- `{k: v for k, v in d.items() if p(k)}`
  unfoldable pub keep_keys : (K → Bool) → List (K × V) → List (K × V)
  keep_keys p [] = []
  keep_keys p ((k, v) ∷ d) = let rest = keep_keys p d in if p k then (k, v) ∷ rest else rest

  pub lookup-keep_keys :
      (p : K → Bool) (k : K) (d : List (K × V))
      → lookup k (keep_keys p d) ≡ (if p k then lookup k d else none)
  unfolding lookup keep_keys
  lookup-keep_keys p k [] = ground arith
  lookup-keep_keys p k ((j, v) ∷ d) = ground (arith, e.equals_iff k j, lookup-keep_keys p k d)
