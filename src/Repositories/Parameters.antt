-- ===== src/Repositories/Parameters.antt =====
-- TemplateParameterRepository (repositories/template_parameters.py), without its reads. The
-- descriptive text of a parameter is left out.
use coder_manager.Base.{
  ℕ, ◌+◌, Bool, true, false, not, ◌&&◌, String, Option, none, some, ◌==◌, nat_eq, string_eq,
  option_eq, find, add, modify, delete, exists_where, if◌then◌else◌,
}
use coder_manager.Model.{
  Template, TemplateParameter, TemplateParameterType, user_type, system_type, Db,
}
use coder_manager.Repositories.Reply.{Reply, accepted, refused, ◌>>=◌, ◌>>◌, refuse_if, found_or}
use coder_manager.Repositories.Jobs.{is_retryable}
use coder_manager.Repositories.Workspaces.Requests.{is_user}
pub mod Revisions

-- The exceptions of the module, the RuntimeError for a missing cipher, and the cipher's own.
pub data ParameterError : Type 0 where
  template_not_found parameter_not_found already_exists immutable_field : ParameterError
  sync_in_progress encryption_required decryption_failed : ParameterError

-- The envelope that the cipher makes of a value and a parameter's identifier, and the way back.
pub record ValueCipher : Type 0 where
  pub encrypt : String → ℕ → ℕ
  pub decrypt : ℕ → ℕ → Option String

pub data ParameterCreate : Type 0 where
  user_create : String → Bool → Bool → Option String → ParameterCreate
  system_create : String → String → ParameterCreate

-- A new value of a system parameter is optional.
pub data ParameterUpdate : Type 0 where
  user_update : Bool → Bool → Option String → ParameterUpdate
  system_update : Option String → ParameterUpdate

abbrev pub name_of : ParameterCreate → String
name_of (user_create name required mutable default_value) = name
name_of (system_create name value) = name

-- `_lock_template`
unfoldable pub lock_template : ℕ → Db → Reply ParameterError Template
lock_template template_id db = do
  t ← found_or (find template_id db.templates) template_not_found
  refuse_if (is_retryable t.status) sync_in_progress
  refuse_if
      (exists_where (λ _ a. a.template_id == template_id && is_retryable a.status) db.assignments)
      sync_in_progress
  accepted t

-- `_locked_parameter`
unfoldable pub locked_parameter : ℕ → ℕ → Db → Reply ParameterError TemplateParameter
locked_parameter template_id parameter_id db = do
  p ← found_or (find parameter_id db.parameters) parameter_not_found
  refuse_if (not (p.template_id == template_id)) parameter_not_found
  accepted p

abbrev pub advanced : Template → Template
advanced t = record t { system_parameter_revision = t.system_parameter_revision + 1 }

-- `template.system_parameter_revision += 1`
unfoldable pub advance : ℕ → Db → Db
advance template_id db = record db { templates = modify template_id advanced db.templates }

-- `_new_parameter`: the definition, and whether the template's revision advances.
unfoldable pub new_parameter :
    ℕ → ℕ → ParameterCreate → Option ValueCipher → Reply ParameterError (TemplateParameter × Bool)
new_parameter parameter_id template_id (user_create name required mutable default_value) cipher =
    accepted (
      record {
        template_id = template_id;
        type = user_type;
        name = name;
        required = required;
        mutable = mutable;
        default_value = default_value;
        value_enc = none;
      },
      false,
    )
new_parameter parameter_id template_id (system_create name value) none = refused encryption_required
new_parameter parameter_id template_id (system_create name value) (some cipher) = accepted (
  record {
    template_id = template_id;
    type = system_type;
    name = name;
    required = false;
    mutable = false;
    default_value = none;
    value_enc = some (cipher.encrypt value parameter_id);
  },
  true,
)

abbrev pub advance_if : Bool → ℕ → Db → Db
advance_if changed template_id db = if changed then advance template_id db else db

-- `create`, under the identifier of `uuid4`. The unique constraint on the template and the name is
-- tested when the transaction commits.
unfoldable pub create : ℕ → ℕ → ParameterCreate → Option ValueCipher → Db → Reply ParameterError Db
create parameter_id template_id payload cipher db = do
  _ ← lock_template template_id db
  (p, changed) ← new_parameter parameter_id template_id payload cipher
  refuse_if
      (exists_where (λ _ q. q.template_id == template_id && q.name == name_of payload)
        db.parameters)
      already_exists
  accepted
      (advance_if changed template_id (record db { parameters = add parameter_id p db.parameters }))

-- The new value of a system parameter: the value that is stored, if it is to be replaced.
unfoldable pub replace_value :
    ℕ → Option ℕ → String → Option ValueCipher → Reply ParameterError (Option ℕ)
replace_value parameter_id stored value none = refused encryption_required
replace_value parameter_id none value (some cipher) =
    accepted (some (cipher.encrypt value parameter_id))
replace_value parameter_id (some envelope) value (some cipher) =
    elim (cipher.decrypt envelope parameter_id) [
      | none ↦ refused decryption_failed
      | some held ↦
          accepted (if held == value then none else some (cipher.encrypt value parameter_id))
    ]

abbrev pub with_value : Option ℕ → TemplateParameter → TemplateParameter
with_value none p = p
with_value (some envelope) p = record p { value_enc = some envelope }

abbrev pub is_some {ℓ} : {A : Type ℓ} → Option A → Bool
is_some none = false
is_some (some a) = true

abbrev pub with_columns : Bool → Bool → Option String → TemplateParameter → TemplateParameter
with_columns required mutable default_value p = record p {
  required = required;
  mutable = mutable;
  default_value = default_value;
}

-- `_apply_update`: the new definition, and whether the template's revision advances.
unfoldable pub apply_update :
    ℕ
    → TemplateParameter
    → ParameterUpdate
    → Option ValueCipher
    → Reply ParameterError (TemplateParameter × Bool)
apply_update parameter_id p (user_update required mutable default_value) cipher = do
  refuse_if (not (is_user p.type)) immutable_field
  accepted (with_columns required mutable default_value p, false)
apply_update parameter_id p (system_update none) cipher = do
  refuse_if (is_user p.type) immutable_field
  accepted (p, false)
apply_update parameter_id p (system_update (some value)) cipher = do
  refuse_if (is_user p.type) immutable_field
  envelope ← replace_value parameter_id p.value_enc value cipher
  accepted (with_value envelope p, is_some envelope)

unfoldable pub update : ℕ → ℕ → ParameterUpdate → Option ValueCipher → Db → Reply ParameterError Db
update template_id parameter_id payload cipher db = do
  _ ← lock_template template_id db
  p ← locked_parameter template_id parameter_id db
  (q, changed) ← apply_update parameter_id p payload cipher
  accepted (
      advance_if changed template_id
        (record db { parameters = modify parameter_id (λ _. q) db.parameters }))

-- `delete`
unfoldable pub remove : ℕ → ℕ → Db → Reply ParameterError Db
remove template_id parameter_id db = do
  _ ← lock_template template_id db
  p ← locked_parameter template_id parameter_id db
  accepted (
      advance_if (not (is_user p.type)) template_id
        (record db { parameters = delete parameter_id db.parameters }))
