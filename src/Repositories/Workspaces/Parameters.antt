-- ===== src/Repositories/Workspaces/Parameters.antt =====
-- `_resolve_parameters`: the values of a workspace's user parameters from what the client supplies,
-- the template's definitions and the workspace's earlier values.
use coder_manager.Base.{
  Bool, true, false, not, ◌&&◌, ◌||◌, String, Option, none, some, ◌==◌, string_eq, option_eq, List,
  [], ◌∷◌, lookup, insert, keep_keys, if◌then◌else◌,
}
use coder_manager.Model.{TemplateParameter}
use coder_manager.Repositories.Reply.{Reply, accepted, refused, ◌>>=◌, ◌>>◌, refuse_if}

pub data ParameterError : Type 0 where
  configuration immutable : ParameterError

abbrev pub Values : Type 0
Values = List (String × String)

-- `name in by_name`
unfoldable pub is_defined : List TemplateParameter → String → Bool
is_defined [] name = false
is_defined (p ∷ definitions) name = name == p.name || is_defined definitions name

-- `previous or {}`
abbrev pub values_of : Option Values → Values
values_of none = []
values_of (some values) = values

-- The first loop: a name that has no definition may only repeat its earlier value.
unfoldable pub unknown_is_kept : List TemplateParameter → Values → Values → Bool
unknown_is_kept definitions previous_values [] = true
unknown_is_kept definitions previous_values ((name, value) ∷ supplied) =
    (is_defined definitions name || lookup name previous_values == some value)
    && unknown_is_kept definitions previous_values supplied

-- The value that an unchanged workspace has to keep: an immutable one that it has already.
abbrev pub held_value : Option Values → TemplateParameter → Option String
held_value none p = none
held_value (some previous_values) p = if p.mutable then none else lookup p.name previous_values

-- The choice of a value for one definition: `some none` is `continue`.
abbrev pub choose :
    Values → Option Values → TemplateParameter → Reply ParameterError (Option String)
choose supplied previous p = elim (lookup p.name supplied) [
  | some value ↦ accepted (some value)
  | none ↦ elim (held_value previous p) [
    | some value ↦ accepted (some value)
    | none ↦ elim p.default_value [
      | some value ↦ accepted (some value)
      | none ↦ if p.required then refused configuration else accepted none
    ]
  ]
]

-- Whether a value differs from the one that has to be kept.
abbrev pub would_change : Option String → String → Bool
would_change none value = false
would_change (some held) value = not (held == value)

-- One round of the second loop.
abbrev pub resolve_one :
    Values → Option Values → TemplateParameter → Values → Reply ParameterError Values
resolve_one supplied previous p resolved = elim (choose supplied previous p) [
  | refused e ↦ refused e
  | accepted none ↦ accepted resolved
  | accepted (some value) ↦
      if would_change (held_value previous p) value
      then refused immutable
      else accepted (insert p.name value resolved)
]

unfoldable pub resolve_all :
    Values → Option Values → List TemplateParameter → Values → Reply ParameterError Values
resolve_all supplied previous [] resolved = accepted resolved
resolve_all supplied previous (p ∷ definitions) resolved =
    resolve_one supplied previous p resolved >>= resolve_all supplied previous definitions

-- The definitions are the template's user parameters, whose names differ.
unfoldable pub resolve_parameters :
    List TemplateParameter → Values → Option Values → Reply ParameterError Values
resolve_parameters definitions supplied previous = do
  refuse_if (not (unknown_is_kept definitions (values_of previous) supplied)) configuration
  resolve_all supplied previous definitions
      (keep_keys (λ name. not (is_defined definitions name)) (values_of previous))
