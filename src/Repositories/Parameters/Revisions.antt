-- ===== src/Repositories/Parameters/Revisions.antt =====
-- The revision of a template's system values (repositories/template_parameters.py), which a
-- deployment compares with the one it applied.
use coder_manager.Base.{
  ℕ, ◌<◌, ◌≡◌, refl, ◌⊎◌, inl, inr, Bool, true, false, not, ◌&&◌, Option, none, some, ◌==◌, nat_eq,
  string_eq, option_eq, find, add, modify, delete, find-add, find-modify, find-delete,
  if◌then◌else◌, Option-cases, Bool-cases, arith,
}
use coder_manager.Model.{Template, TemplateParameter, Db}
use coder_manager.Repositories.Reply.{accepted, Reply-cases}
use coder_manager.Repositories.Workspaces.Requests.{is_user}
use coder_manager.Repositories.Parameters.{
  ParameterCreate, ParameterUpdate, user_create, system_create, user_update, system_update,
  ValueCipher, lock_template, locked_parameter, advance, advanced, advance_if, new_parameter,
  create, apply_update, update, remove, replace_value,
}

-- The stored value of a parameter, if it is a system parameter of the template.
abbrev pub system_value : ℕ → Option TemplateParameter → Option (Option ℕ)
system_value template_id none = none
system_value template_id (some p) =
    if p.template_id == template_id && not (is_user p.type) then some p.value_enc else none

pub data ParameterStep (db : Db) : Db → Type 0 where
  creation :
      (parameter_id template_id : ℕ) (payload : ParameterCreate) (cipher : Option ValueCipher)
      (db' : Db)
      → find parameter_id db.parameters ≡ none
      → create parameter_id template_id payload cipher db ≡ accepted db'
      → ParameterStep db db'
  change :
      (template_id parameter_id : ℕ) (payload : ParameterUpdate) (cipher : Option ValueCipher)
      (db' : Db)
      → update template_id parameter_id payload cipher db ≡ accepted db'
      → ParameterStep db db'
  deletion :
      (template_id parameter_id : ℕ) (db' : Db)
      → remove template_id parameter_id db ≡ accepted db'
      → ParameterStep db db'

-- The template's system values are those of another database.
abbrev pub SameValues : ℕ → Db → Db → Type 0
SameValues id db db' =
    (n : ℕ) → system_value id (find n db'.parameters) ≡ system_value id (find n db.parameters)

abbrev pub Tracked : ℕ → Template → Db → Db → Type 0
Tracked id t db db' =
    (t' : Template) × (find id db'.templates ≡ some t')
    × ((t.system_parameter_revision < t'.system_parameter_revision)
        ⊎ ((t'.system_parameter_revision ≡ t.system_parameter_revision) × SameValues id db db'))

-- A transaction that replaces the parameters, and advances one template if its values change.
module _ (id template_id : ℕ) (t : Template) (changed : Bool) (db mid db' : Db)
    (found : find id db.templates ≡ some t) (templates : mid.templates ≡ db.templates)
    (done : db' ≡ advance_if changed template_id mid)
    (others : (id == template_id) ≡ false → SameValues id db mid)
    (own : changed ≡ false → SameValues template_id db mid) where
  tracked : Tracked id t db db'
  unfolding advance
  tracked = elim (Bool-cases changed) [
    | inl grew ↦ elim (Bool-cases (id == template_id)) [
      | inl hit ↦ (
        advanced t,
        ground (
          arith,
          found,
          templates,
          done,
          grew,
          hit,
          find-modify id template_id advanced mid.templates,
        ),
        inl (omega arith),
      )
      | inr miss ↦ (
        t,
        ground (
          arith,
          found,
          templates,
          done,
          grew,
          miss,
          find-modify id template_id advanced mid.templates,
        ),
        inr (refl, λ n. ground (arith, done, grew, others miss n)),
      )
    ]
    | inr calm ↦ elim (Bool-cases (id == template_id)) [
      | inl hit ↦ (
        t,
        ground (arith, found, templates, done, calm),
        inr (refl, λ n. ground (arith, done, calm, hit, own calm n)),
      )
      | inr miss ↦ (
        t,
        ground (arith, found, templates, done, calm),
        inr (refl, λ n. ground (arith, done, calm, others miss n)),
      )
    ]
  ]

locked :
    (template_id : ℕ) (db : Db) (t : Template)
    → lock_template template_id db ≡ accepted t
    → find template_id db.templates ≡ some t
unfolding lock_template
locked template_id db t h = elim (Option-cases (find template_id db.templates)) [
  | inl e ↦ absurd (ground arith)
  | inr (x, e) ↦ ground arith
]

owned_parameter :
    (template_id parameter_id : ℕ) (db : Db) (p : TemplateParameter)
    → locked_parameter template_id parameter_id db ≡ accepted p
    → (find parameter_id db.parameters ≡ some p) × ((p.template_id == template_id) ≡ true)
unfolding locked_parameter
owned_parameter template_id parameter_id db p h =
    elim (Option-cases (find parameter_id db.parameters)) [
      | inl e ↦ absurd (ground arith)
      | inr (x, e) ↦ (ground arith, ground arith)
    ]

-- What an update leaves of the definition.
applied :
    (parameter_id : ℕ) (p : TemplateParameter) (payload : ParameterUpdate)
    (cipher : Option ValueCipher) (q : TemplateParameter) (changed : Bool)
    → apply_update parameter_id p payload cipher ≡ accepted (q, changed)
    → (q.template_id ≡ p.template_id)
      × (q.type ≡ p.type)
      × (changed ≡ false → (is_user p.type ≡ true) ⊎ (q.value_enc ≡ p.value_enc))
unfolding apply_update
applied parameter_id p (user_update required mutable default_value) cipher q changed h =
    (ground arith, ground arith, λ e. ground arith)
applied parameter_id p (system_update none) cipher q changed h =
    (ground arith, ground arith, λ e. ground arith)
applied parameter_id p (system_update (some value)) cipher q changed h =
    elim (Reply-cases (replace_value parameter_id p.value_enc value cipher)) [
      | inr (e, r) ↦ absurd (ground arith)
      | inl (none, r) ↦ (ground arith, ground arith, λ e. ground arith)
      | inl (some envelope, r) ↦ (ground arith, ground arith, λ e. ground arith)
    ]

created :
    (parameter_id template_id : ℕ) (payload : ParameterCreate) (cipher : Option ValueCipher)
    (q : TemplateParameter) (changed : Bool)
    → new_parameter parameter_id template_id payload cipher ≡ accepted (q, changed)
    → (q.template_id ≡ template_id) × (changed ≡ false → is_user q.type ≡ true)
unfolding new_parameter
created parameter_id template_id (user_create name required mutable default_value) cipher q changed
      h =
    (ground arith, λ e. ground arith)
created parameter_id template_id (system_create name value) none q changed h = absurd (ground arith)
created parameter_id template_id (system_create name value) (some cipher) q changed h =
    (ground arith, λ e. ground arith)

creation-Tracked :
    (parameter_id template_id : ℕ) (payload : ParameterCreate) (cipher : Option ValueCipher)
    (db db' : Db) (id : ℕ) (t : Template)
    → find parameter_id db.parameters ≡ none
    → create parameter_id template_id payload cipher db ≡ accepted db'
    → find id db.templates ≡ some t
    → Tracked id t db db'
unfolding create
creation-Tracked parameter_id template_id payload cipher db db' id t fresh h found =
    elim (Reply-cases (lock_template template_id db)) [
      | inr (e, l) ↦ absurd (ground arith)
      | inl (x, l) ↦ elim (Reply-cases (new_parameter parameter_id template_id payload cipher)) [
        | inr (e, r) ↦ absurd (ground arith)
        | inl ((q, changed), r) ↦
            let (placed, plain) = created parameter_id template_id payload cipher q changed r in
            tracked id template_id t changed db
              (record db { parameters = add parameter_id q db.parameters }) db' found refl
              (ground arith)
              (λ miss n.
                ground (arith, find-add n parameter_id q db.parameters, placed, miss, fresh))
              (λ calm n. ground (arith, find-add n parameter_id q db.parameters, plain calm, fresh))
      ]
    ]

change-Tracked :
    (template_id parameter_id : ℕ) (payload : ParameterUpdate) (cipher : Option ValueCipher)
    (db db' : Db) (id : ℕ) (t : Template)
    → update template_id parameter_id payload cipher db ≡ accepted db'
    → find id db.templates ≡ some t
    → Tracked id t db db'
unfolding update
change-Tracked template_id parameter_id payload cipher db db' id t h found =
    elim (Reply-cases (lock_template template_id db)) [
      | inr (e, l) ↦ absurd (ground arith)
      | inl (x, l) ↦ elim (Reply-cases (locked_parameter template_id parameter_id db)) [
        | inr (e, k) ↦ absurd (ground arith)
        | inl (p, k) ↦ elim (Reply-cases (apply_update parameter_id p payload cipher)) [
          | inr (e, r) ↦ absurd (ground arith)
          | inl ((q, changed), r) ↦
              let (same, type, calmly) = applied parameter_id p payload cipher q changed r in
              let (at, mine) = owned_parameter template_id parameter_id db p k in
              tracked id template_id t changed db
                (record db { parameters = modify parameter_id (λ _. q) db.parameters }) db' found
                refl (ground arith)
                (λ miss n.
                  ground (
                    arith,
                    find-modify n parameter_id (λ _. q) db.parameters,
                    same,
                    mine,
                    miss,
                    at,
                  ))
                (λ calm n. ground (
                  arith,
                  find-modify n parameter_id (λ _. q) db.parameters,
                  same,
                  type,
                  calmly calm,
                  at,
                ))
        ]
      ]
    ]

deletion-Tracked :
    (template_id parameter_id : ℕ) (db db' : Db) (id : ℕ) (t : Template)
    → remove template_id parameter_id db ≡ accepted db'
    → find id db.templates ≡ some t
    → Tracked id t db db'
unfolding remove
deletion-Tracked template_id parameter_id db db' id t h found =
    elim (Reply-cases (lock_template template_id db)) [
      | inr (e, l) ↦ absurd (ground arith)
      | inl (x, l) ↦ elim (Reply-cases (locked_parameter template_id parameter_id db)) [
        | inr (e, k) ↦ absurd (ground arith)
        | inl (p, k) ↦
            let (at, mine) = owned_parameter template_id parameter_id db p k in
            tracked id template_id t (not (is_user p.type)) db
              (record db { parameters = delete parameter_id db.parameters }) db' found refl
              (ground arith)
              (λ miss n. ground (arith, find-delete n parameter_id db.parameters, mine, miss, at))
              (λ calm n. ground (arith, find-delete n parameter_id db.parameters, calm, at))
      ]
    ]

-- After an accepted creation, update or deletion of a template parameter, each template has a
-- larger revision of its system parameters, or it has the same revision and every parameter has the
-- same stored value as a system parameter of that template, or is none of it, as before. A new
-- parameter takes an identifier that was not in use.
pub ParameterStep-Tracked :
    (db db' : Db) (id : ℕ) (t : Template)
    → ParameterStep db db'
    → find id db.templates ≡ some t
    → Tracked id t db db'
ParameterStep-Tracked db db' id t (creation parameter_id template_id payload cipher _ fresh h)
      found =
    creation-Tracked parameter_id template_id payload cipher db db' id t fresh h found
ParameterStep-Tracked db db' id t (change template_id parameter_id payload cipher _ h) found =
    change-Tracked template_id parameter_id payload cipher db db' id t h found
ParameterStep-Tracked db db' id t (deletion template_id parameter_id _ h) found =
    deletion-Tracked template_id parameter_id db db' id t h found
