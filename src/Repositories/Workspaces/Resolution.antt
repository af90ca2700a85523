-- ===== src/Repositories/Workspaces/Resolution.antt =====
-- What the resolved parameters of a workspace hold, name by name.
use coder_manager.Base.{
  ◌≡◌, ◌≢◌, ap, ◌∙◌, ◌⊎◌, inl, inr, true, false, not, String, Option, none, some, ◌==◌, string_eq,
  beq_refl, eq_of_beq, option_eq, List, [], ◌∷◌, lookup, keep_keys, lookup-insert, lookup-keep_keys,
  arith, Option-cases,
}
use coder_manager.Model.{TemplateParameter}
use coder_manager.Repositories.Reply.{accepted, Reply-cases}
use coder_manager.Repositories.Workspaces.Choice.{choice}
use coder_manager.Repositories.Workspaces.Parameters.{
  Values, is_defined, values_of, held_value, choose, would_change, resolve_one, resolve_all,
  resolve_parameters,
}

-- No name is defined twice: the unique constraint on the template and the name.
abbrev pub Distinct : List TemplateParameter → Type 0
Distinct [] = Unit
Distinct (p ∷ definitions) = (is_defined definitions p.name ≡ false) × Distinct definitions

abbrev pub Occurs : TemplateParameter → List TemplateParameter → Type 0
Occurs p [] = ⊥
Occurs p (q ∷ definitions) = (p ≡ q) ⊎ Occurs p definitions

-- A chosen value, or else the one that was there.
abbrev or_else : Option String → Option String → Option String
or_else none old = old
or_else (some value) old = some value

-- What one round does, and that it was not refused.
record Resolved (supplied : Values) (previous : Option Values) (p : TemplateParameter)
    (before after : Values) : Type 0 where
  value : Option String
  chosen : choose supplied previous p ≡ accepted value
  fits : (v : String) → value ≡ some v → would_change (held_value previous p) v ≡ false
  here : lookup p.name after ≡ or_else value (lookup p.name before)
  elsewhere : (n : String) → (n == p.name) ≡ false → lookup n after ≡ lookup n before

resolve_one-Resolved :
    (supplied : Values) (previous : Option Values) (p : TemplateParameter) (before after : Values)
    → resolve_one supplied previous p before ≡ accepted after
    → Resolved supplied previous p before after
resolve_one-Resolved supplied previous p before after h =
    elim (Reply-cases (choose supplied previous p)) [
      | inr (e, c) ↦ absurd (ground arith)
      | inl (none, c) ↦ record {
        value = none;
        chosen = c;
        fits = λ v e. absurd (ground arith);
        here = ground arith;
        elsewhere = λ n d. ground arith;
      }
      | inl (some w, c) ↦ record {
        value = some w;
        chosen = c;
        fits = λ v e. ground arith;
        here = ground (arith, lookup-insert p.name p.name w before, beq_refl p.name);
        elsewhere = λ n d. ground (arith, lookup-insert n p.name w before);
      }
    ]

resolve_all-undefined :
    (supplied : Values) (previous : Option Values) (definitions : List TemplateParameter)
    (before after : Values) (n : String)
    → resolve_all supplied previous definitions before ≡ accepted after
    → is_defined definitions n ≡ false
    → lookup n after ≡ lookup n before
unfolding resolve_all is_defined
resolve_all-undefined supplied previous [] before after n h d = ground arith
resolve_all-undefined supplied previous (p ∷ definitions) before after n h d =
    elim (Reply-cases (resolve_one supplied previous p before)) [
      | inr (e, c) ↦ absurd (ground arith)
      | inl (mid, c) ↦
          let r = resolve_one-Resolved supplied previous p before mid c in
          resolve_all-undefined supplied previous definitions mid after n (ground arith)
            (ground arith)
          ∙ r.elsewhere n (ground arith)
    ]

name_differs :
    (definitions : List TemplateParameter) (p q : TemplateParameter)
    → Occurs p definitions
    → is_defined definitions q.name ≡ false
    → (p.name == q.name) ≡ false
unfolding is_defined
name_differs [] p q o d = absurd o
name_differs (r ∷ definitions) p q (inl same) d =
    ground (arith, eq_of_beq p.name q.name, beq_refl p.name, same)
name_differs (r ∷ definitions) p q (inr later) d = name_differs definitions p q later (ground arith)

-- Every definition is resolved once.
resolve_all-Resolved :
    (supplied : Values) (previous : Option Values) (definitions : List TemplateParameter)
    (before after : Values) (p : TemplateParameter)
    → Distinct definitions
    → Occurs p definitions
    → resolve_all supplied previous definitions before ≡ accepted after
    → (value : Option String) × (choose supplied previous p ≡ accepted value)
      × ((v : String) → value ≡ some v → would_change (held_value previous p) v ≡ false)
      × (lookup p.name after ≡ or_else value (lookup p.name before))
unfolding resolve_all
resolve_all-Resolved supplied previous [] before after p d o h = absurd o
resolve_all-Resolved supplied previous (q ∷ definitions) before after p d o h =
    elim (Reply-cases (resolve_one supplied previous q before)) [
      | inr (e, c) ↦ absurd (ground arith)
      | inl (mid, c) ↦
          let r = resolve_one-Resolved supplied previous q before mid c in
          elim o [
            | inl same ↦ rw same (
              r.value,
              r.chosen,
              r.fits,
              resolve_all-undefined supplied previous definitions mid after q.name (ground arith)
                    d.0
                  ∙ r.here,
            )
            | inr later ↦
                let (value, chosen, fits, held) =
                  resolve_all-Resolved supplied previous definitions mid after p d.1 later
                    (ground arith) in
                (
                  value,
                  chosen,
                  fits,
                  held
                      ∙ ap (or_else value)
                          (r.elsewhere p.name (name_differs definitions p q later d.0)),
                )
          ]
    ]

Occurs-is_defined :
    (definitions : List TemplateParameter) (p : TemplateParameter)
    → Occurs p definitions
    → is_defined definitions p.name ≡ true
unfolding is_defined
Occurs-is_defined [] p o = absurd o
Occurs-is_defined (q ∷ definitions) p (inl same) = ground (arith, beq_refl p.name, same)
Occurs-is_defined (q ∷ definitions) p (inr later) =
    ground (arith, Occurs-is_defined definitions p later)

module _ (definitions : List TemplateParameter) (supplied : Values) (previous : Option Values)
    (out : Values)
    (accepted_out : resolve_parameters definitions supplied previous ≡ accepted out) where
  kept : Values
  kept = keep_keys (λ name. not (is_defined definitions name)) (values_of previous)

  all_resolved : resolve_all supplied previous definitions kept ≡ accepted out
  unfolding resolve_parameters kept
  all_resolved = ground arith

  -- If the parameters resolve, a name that no definition has keeps its earlier value, or stays away
  -- if it had none.
  pub resolve_parameters-undefined :
      (n : String) → is_defined definitions n ≡ false → lookup n out ≡ lookup n (values_of previous)
  unfolding kept
  resolve_parameters-undefined n d =
      resolve_all-undefined supplied previous definitions kept out n all_resolved d
      ∙ ground (
        arith,
        d,
        lookup-keep_keys (λ name. not (is_defined definitions name)) n (values_of previous),
      )

  chosen_value :
      (p : TemplateParameter)
      → Distinct definitions
      → Occurs p definitions
      → choose supplied previous p ≡ accepted (lookup p.name out)
  unfolding kept
  chosen_value p d o =
      let (value, chosen, fits, held) =
        resolve_all-Resolved supplied previous definitions kept out p d o all_resolved in
      let absent : lookup p.name kept ≡ none = ground (
        arith,
        Occurs-is_defined definitions p o,
        lookup-keep_keys (λ name. not (is_defined definitions name)) p.name (values_of previous),
      ) in
      ground (arith, chosen, held, absent)

  -- If the parameters resolve and no name is defined twice, a defined parameter ends with the
  -- supplied value, if there is one; if none is supplied, with its earlier value, if it is
  -- immutable and had one; and else with its default, or without a value if it has no default.
  pub resolve_parameters-defined :
      (p : TemplateParameter)
      → Distinct definitions
      → Occurs p definitions
      → ((v : String) × (lookup p.name supplied ≡ some v) × (lookup p.name out ≡ some v))
        ⊎ (((lookup p.name supplied ≡ none)
              × (p.mutable ≡ false)
              × (v : String) × (lookup p.name (values_of previous) ≡ some v)
              × (lookup p.name out ≡ some v))
            ⊎ ((lookup p.name supplied ≡ none)
                × ((p.mutable ≡ true) ⊎ (lookup p.name (values_of previous) ≡ none))
                × (lookup p.name out ≡ p.default_value)))
  resolve_parameters-defined p d o =
      choice supplied previous p (lookup p.name out) (chosen_value p d o)

  -- If the parameters resolve and no name is defined twice, a defined parameter that is required
  -- has a value.
  pub resolve_parameters-required :
      (p : TemplateParameter)
      → Distinct definitions
      → Occurs p definitions
      → p.required ≡ true
      → lookup p.name out ≢ none
  resolve_parameters-required p d o needed e = ground (arith, chosen_value p d o)

  -- If the parameters resolve and no name is defined twice, a defined parameter that is immutable
  -- and had an earlier value keeps it, whatever is supplied.
  pub resolve_parameters-immutable :
      (p : TemplateParameter) (v : String)
      → Distinct definitions
      → Occurs p definitions
      → held_value previous p ≡ some v
      → lookup p.name out ≡ some v
  unfolding kept
  resolve_parameters-immutable p v d o has =
      let (value, chosen, fits, held) =
        resolve_all-Resolved supplied previous definitions kept out p d o all_resolved in
      elim (Option-cases (lookup p.name supplied)) [
        | inl e ↦ ground (arith, chosen_value p d o)
        | inr (w, e) ↦
            let chose = chosen_value p d o in
            let fine = fits w (ground (arith, chosen)) in
            let same : v ≡ w = eq_of_beq v w (ground arith) in ground arith
      ]
