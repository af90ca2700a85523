-- ===== src/Tests/Catalog.antt =====
-- The requests on templates and parameters at a small database.
use coder_manager.Base.{
  ◌≡◌, refl, false, none, some, nat_eq, string_eq, list_eq, option_eq, [], ◌∷◌, find, modify,
  exists_where, arith, add,
}
use coder_manager.Model.{pending, system_type, Db, modify_lifecycle}
use coder_manager.Jobs.Registry.{template_sync_step_01_task}
use coder_manager.Jobs.Execution.{ExecutionClaim, claim_execution}
use coder_manager.Repositories.Reply.{accepted}
use coder_manager.Repositories.Jobs.{add_job_execution}
use coder_manager.Repositories.Parameters.{ParameterCreate, system_create, ValueCipher}
use coder_manager.Repositories.Parameters as Parameters
use coder_manager.Repositories.Parameters.Revisions.{creation, Tracked, ParameterStep-Tracked}
use coder_manager.Repositories.Templates.{
  TemplateCreate, TemplateUpdate, create, update, request_sync, discard_current_job,
  ensure_no_active_assignments, ensure_no_active_workspaces, new_template, apply_update,
}
use coder_manager.Repositories.Templates.Linking.{request_sync-claimable}
use coder_manager.Repositories.Templates.Fitting.{IsFitting}
use coder_manager.Repositories.Templates.Modules.{update_template, CatalogStep-IsFitting}
use coder_manager.Program.{empty}
use coder_manager.Tests.Data.{quiet, assigned, ready_template}

-- Template 2 is synchronized, with job 11.
abbrev syncing : Db
syncing = record quiet {
  jobs =
      (
        11,
        record {
          name = "template.sync";
          task_name = template_sync_step_01_task;
          resource_type = some "template";
          resource_id = some 2;
          step = "step_01_sync_template";
          status = pending;
          attempt = 0;
          claimed_at = none;
        },
      )
      ∷ [];
  templates =
      (
        2,
        record ready_template {
          lifecycle = record {
            action = "syncing";
            status = pending;
            job_id = some 11;
            step = some "step_01_sync_template";
          };
        },
      )
      ∷ [];
}

quiet-syncing : request_sync 11 2 quiet ≡ accepted syncing
unfolding request_sync ensure_no_active_assignments ensure_no_active_workspaces discard_current_job
    add_job_execution modify_lifecycle find modify exists_where add
quiet-syncing = refl

request_sync-claimable_example :
    (c : ExecutionClaim) × ((claim_execution 11 template_sync_step_01_task 5 syncing).1 ≡ some c)
    × (c.attempt ≡ 1)
request_sync-claimable_example = request_sync-claimable 11 2 5 quiet syncing quiet-syncing

-- Template 2 loses the module that workspace 4 does not use.
abbrev smaller : TemplateUpdate
smaller = record {
  display_name = "Python";
  git_url = "git";
  source_path = ".";
  branch = "main";
  modules = "git" ∷ [];
}

abbrev shrunk : Db
shrunk = apply_update 2 ready_template smaller assigned

assigned-shrunk : update 2 smaller assigned ≡ accepted shrunk
unfolding update ensure_no_active_assignments ensure_no_active_workspaces find exists_where
assigned-shrunk = refl

assigned-IsFitting : IsFitting assigned
unfolding find
assigned-IsFitting id w e = (ready_template, ground (arith, e), ground (arith, e))

CatalogStep-IsFitting_example : IsFitting shrunk
CatalogStep-IsFitting_example =
    CatalogStep-IsFitting assigned shrunk (update_template 2 smaller shrunk assigned-shrunk)
      assigned-IsFitting

-- System parameter 50 is new.
abbrev plain_cipher : ValueCipher
plain_cipher = record { encrypt = λ value id. 7; decrypt = λ envelope id. none }

abbrev configured : Db
configured = record quiet {
  templates = (2, record ready_template { system_parameter_revision = 2 }) ∷ [];
  parameters =
      (
        50,
        record {
          template_id = 2;
          type = system_type;
          name = "token";
          required = false;
          mutable = false;
          default_value = none;
          value_enc = some 7;
        },
      )
      ∷ [];
}

quiet-configured :
    Parameters.create 50 2 (system_create "token" "secret") (some plain_cipher) quiet
    ≡ accepted configured
unfolding Parameters.create Parameters.lock_template Parameters.new_parameter Parameters.advance
    find modify exists_where add
quiet-configured = refl

ParameterStep-Tracked_example : Tracked 2 ready_template quiet configured
unfolding find
ParameterStep-Tracked_example =
    ParameterStep-Tracked quiet configured 2 ready_template
      (creation 50 2 (system_create "token" "secret") (some plain_cipher) configured refl
        quiet-configured)
      refl

-- A template is created in an empty database.
abbrev pub python : TemplateCreate
python = record {
  display_name = "Python";
  name = "python";
  git_url = "git";
  source_path = ".";
  branch = "main";
  modules = [];
}

abbrev pub created : Db
created = record empty { templates = (2, new_template python) ∷ [] }

pub empty-created : create (λ s. s) 2 python empty ≡ accepted created
unfolding create exists_where add
empty-created = refl
