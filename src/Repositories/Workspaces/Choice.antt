-- ===== src/Repositories/Workspaces/Choice.antt =====
-- The order in which `_resolve_parameters` chooses a value.
use coder_manager.Base.{
  ◌≡◌, ◌⊎◌, inl, inr, true, false, String, Option, none, some, string_eq, lookup, arith, Bool-cases,
  Option-cases, refl,
}
use coder_manager.Model.{TemplateParameter}
use coder_manager.Repositories.Reply.{accepted}
use coder_manager.Repositories.Workspaces.Parameters.{Values, values_of, held_value, choose}

-- The default, where nothing is supplied and nothing has to be kept.
default_choice :
    (p : TemplateParameter) (value : Option String) (supplied : Values) (previous : Option Values)
    → choose supplied previous p ≡ accepted value
    → lookup p.name supplied ≡ none
    → held_value previous p ≡ none
    → value ≡ p.default_value
default_choice p value supplied previous h given held = elim (Option-cases p.default_value) [
  | inl e ↦ ground arith
  | inr (v, e) ↦ ground arith
]

-- The order of the choice, in terms of what was supplied, what was there and the default.
pub choice :
    (supplied : Values) (previous : Option Values) (p : TemplateParameter) (value : Option String)
    → choose supplied previous p ≡ accepted value
    → ((v : String) × (lookup p.name supplied ≡ some v) × (value ≡ some v))
      ⊎ (((lookup p.name supplied ≡ none)
            × (p.mutable ≡ false)
            × (v : String) × (lookup p.name (values_of previous) ≡ some v)
            × (value ≡ some v))
          ⊎ ((lookup p.name supplied ≡ none)
              × ((p.mutable ≡ true) ⊎ (lookup p.name (values_of previous) ≡ none))
              × (value ≡ p.default_value)))
unfolding lookup
choice supplied none p value h = elim (Option-cases (lookup p.name supplied)) [
  | inr (v, given) ↦ inl (v, given, ground arith)
  | inl given ↦ inr (inr (given, inr refl, default_choice p value supplied none h given refl))
]
choice supplied (some old) p value h = elim (Option-cases (lookup p.name supplied)) [
  | inr (v, given) ↦ inl (v, given, ground arith)
  | inl given ↦ elim (Bool-cases p.mutable) [
    | inl free ↦
        inr
          (inr (given, inl free, default_choice p value supplied (some old) h given (ground arith)))
    | inr fixed ↦ elim (Option-cases (lookup p.name old)) [
      | inl n ↦
          inr
            (inr (given, inr n, default_choice p value supplied (some old) h given (ground arith)))
      | inr (v, was) ↦ inr (inl (given, fixed, v, was, ground arith))
    ]
  ]
]
