-- ===== src/Tests/Workspaces.antt =====
-- Requests on workspaces, and their parameters, at a small database.
use coder_manager.Base.{
  ◌≡◌, ◌≢◌, ◌⊎◌, false, inl, inr, refl, String, none, some, List, [], ◌∷◌, true, false, nat_eq,
  string_eq, option_eq, find, modify, exists_where, contains, lookup, insert, keep_keys, list_eq,
}
use coder_manager.Model.{Db, TemplateParameter, user_type}
use coder_manager.Jobs.Registry.{
  registered_step_names, workspace_update_step_01, workspace_update_step_01_task,
}
use coder_manager.Jobs.Execution.{ExecutionClaim, claim_execution}
use coder_manager.Repositories.Reply.{accepted, refused}
use coder_manager.Repositories.Jobs.{add_job_execution}
use coder_manager.Repositories.Workspaces.Parameters.{
  Values, is_defined, unknown_is_kept, held_value, resolve_all, resolve_parameters,
}
use coder_manager.Repositories.Workspaces.Resolution.{
  Distinct, resolve_parameters-undefined, resolve_parameters-defined, resolve_parameters-required,
  resolve_parameters-immutable,
}
use coder_manager.Repositories.Workspaces.Requests.{
  Collation, WorkspaceUpdate, busy, lock_available_instance, lock_template, validate_image,
  lock_workspace, ensure_workspace_available, validate_modules, require_remote_template,
  user_parameters, same_values, updated, update, request_deletion, name_is_taken,
}
use coder_manager.Repositories.Workspaces.Staging.{Request, perform}
use coder_manager.Repositories.Workspaces.Queueing.{workspace-claimable, workspace-excludes}
use coder_manager.Tests.Data.{assigned}

-- An immutable size with a default, and a required region that can change.
abbrev size : TemplateParameter
size = record {
  template_id = 2;
  type = user_type;
  name = "size";
  required = false;
  mutable = false;
  default_value = some "small";
  value_enc = none;
}

abbrev region : TemplateParameter
region = record {
  template_id = 2;
  type = user_type;
  name = "region";
  required = true;
  mutable = true;
  default_value = none;
  value_enc = none;
}

abbrev definitions : List TemplateParameter
definitions = size ∷ region ∷ []

abbrev supplied : Values
supplied = ("region", "east") ∷ []

abbrev earlier : Values
earlier = ("size", "large") ∷ ("old", "1") ∷ []

abbrev resolved : Values
resolved = ("old", "1") ∷ ("size", "large") ∷ ("region", "east") ∷ []

earlier-resolved : resolve_parameters definitions supplied (some earlier) ≡ accepted resolved
unfolding resolve_parameters unknown_is_kept is_defined lookup resolve_all insert keep_keys
earlier-resolved = refl

definitions-Distinct : Distinct definitions
unfolding is_defined
definitions-Distinct = (refl, (refl, tt))

old-undefined : is_defined definitions "old" ≡ false
unfolding is_defined
old-undefined = refl

size-held : held_value (some earlier) size ≡ some "large"
unfolding lookup
size-held = refl

resolve_parameters-undefined_example : lookup "old" resolved ≡ lookup "old" earlier
resolve_parameters-undefined_example =
    resolve_parameters-undefined definitions supplied (some earlier) resolved earlier-resolved "old"
      old-undefined

resolve_parameters-defined_example :
    ((v : String) × (lookup "region" supplied ≡ some v) × (lookup "region" resolved ≡ some v))
    ⊎ (((lookup "region" supplied ≡ none)
          × (region.mutable ≡ false)
          × (v : String) × (lookup "region" earlier ≡ some v)
          × (lookup "region" resolved ≡ some v))
        ⊎ ((lookup "region" supplied ≡ none)
            × ((region.mutable ≡ true) ⊎ (lookup "region" earlier ≡ none))
            × (lookup "region" resolved ≡ region.default_value)))
resolve_parameters-defined_example =
    resolve_parameters-defined definitions supplied (some earlier) resolved earlier-resolved region
      definitions-Distinct (inr (inl refl))

resolve_parameters-required_example : lookup "region" resolved ≢ none
resolve_parameters-required_example =
    resolve_parameters-required definitions supplied (some earlier) resolved earlier-resolved region
      definitions-Distinct (inr (inl refl)) refl

resolve_parameters-immutable_example : lookup "size" resolved ≡ some "large"
resolve_parameters-immutable_example =
    resolve_parameters-immutable definitions supplied (some earlier) resolved earlier-resolved size
      "large" definitions-Distinct (inl refl) size-held

-- Workspace 4 is renamed, with job 11.
abbrev renaming : WorkspaceUpdate
renaming = record { name = "play"; image_id = 5; modules = "git" ∷ []; parameters = [] }

abbrev collation : Collation
collation = record { lower = λ s. s; order_by_name = λ parameters. parameters }

abbrev renamed : Db
renamed =
    add_job_execution 11 "workspace.update" workspace_update_step_01_task (some "workspace")
      (some 4) workspace_update_step_01
      (record assigned {
        workspaces = modify 4 (λ old. updated old renaming [] 11) assigned.workspaces;
      })

assigned-renamed :
    perform collation (Request.change renaming) 11 4 assigned ≡ accepted (renamed, true)
unfolding update lock_workspace ensure_workspace_available lock_available_instance lock_template
    require_remote_template validate_image validate_modules user_parameters resolve_parameters
    unknown_is_kept resolve_all keep_keys same_values name_is_taken find exists_where
assigned-renamed = refl

workspace-claimable_example :
    (task : String) × (c : ExecutionClaim) × (contains registered_step_names task ≡ true)
    × ((claim_execution 11 task 5 renamed).1 ≡ some c)
    × (c.attempt ≡ 1)
workspace-claimable_example =
    workspace-claimable collation (Request.change renaming) 11 4 5 assigned renamed assigned-renamed

workspace-excludes_example :
    (update collation 12 4 renaming renamed ≡ refused busy)
    × (request_deletion 12 4 renamed ≡ refused busy)
workspace-excludes_example =
    workspace-excludes collation (Request.change renaming) renaming 11 12 4 assigned renamed
      assigned-renamed
