-- ===== src/Repositories/Reply.antt =====
-- What a repository method returns: a value, or one of the exceptions of its module.
use coder_manager.Base.{◌≡◌, refl, ◌⊎◌, inl, inr, Bool, true, false, Option, none, some}

pub data Reply {ℓ κ} (E : Type ℓ) (A : Type κ) : Type (ℓ ⊔ κ) where
  accepted : A → Reply E A
  refused : E → Reply E A

infixl 5 ◌>>=◌ ◌>>◌
abbrev pub ◌>>=◌ {ℓ κ μ} :
    {E : Type ℓ} {A : Type κ} {B : Type μ} → Reply E A → (A → Reply E B) → Reply E B
accepted a >>= f = f a
refused e >>= f = refused e

abbrev pub ◌>>◌ {ℓ κ} : {E : Type ℓ} {B : Type κ} → Reply E (Unit {0}) → Reply E B → Reply E B
m >> k = m >>= λ _. k

-- `if condition: rollback; raise error`
abbrev pub refuse_if {ℓ} : {E : Type ℓ} → Bool → E → Reply E (Unit {0})
refuse_if true e = refused e
refuse_if false e = accepted tt

-- `if row is None: rollback; raise error`
abbrev pub found_or {ℓ κ} : {E : Type ℓ} {A : Type κ} → Option A → E → Reply E A
found_or none e = refused e
found_or (some a) e = accepted a

pub Reply-cases {ℓ κ} :
    {E : Type ℓ} {A : Type κ} (r : Reply E A)
    → ((a : A) × (r ≡ accepted a)) ⊎ ((e : E) × (r ≡ refused e))
Reply-cases (accepted a) = inl (a, refl)
Reply-cases (refused e) = inr (e, refl)
