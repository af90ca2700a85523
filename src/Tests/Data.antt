-- ===== src/Tests/Data.antt =====
-- A small database: an instance, a template, and the rows around them.
use coder_manager.Base.{ℕ, String, Option, none, some, [], ◌∷◌}
use coder_manager.Model.{
  Status, pending, running, success, started, Instance, Template, TemplateAssignment,
  TemplateDeployment, Workspace, Member, user, JobExecution, Lifecycle, Db,
}
use coder_manager.Jobs.Registry.{instance_start_step_01, instance_start_step_01_task}

abbrev pub lifecycle : String → Status → Option ℕ → Option String → Lifecycle
lifecycle action status job_id step = record {
  action = action;
  status = status;
  job_id = job_id;
  step = step;
}

abbrev pub instance_with : Lifecycle → Instance
instance_with l = record {
  lifecycle = l;
  application = "shop";
  slug = "abcdefgh";
  state = started;
  password_enc = some 9;
  password_candidate_enc = none;
  argocd_application_name = none;
}

abbrev pub ready_template : Template
ready_template = record {
  lifecycle = lifecycle "syncing" success none none;
  display_name = "Python";
  name = "python";
  git_url = "git";
  source_path = ".";
  branch = "main";
  modules = "vscode" ∷ "git" ∷ [];
  system_parameter_revision = 1;
}

abbrev pub assignment_with : Lifecycle → TemplateAssignment
assignment_with l = record { lifecycle = l; template_id = 2; instance_id = 1 }

abbrev pub ready_member : Member
ready_member = record {
  instance_id = 1;
  username = "ada";
  role = user;
  action = "created";
  status = success;
}

abbrev pub ready_workspace : Workspace
ready_workspace = record {
  lifecycle = lifecycle "created" success none none;
  name = "work";
  instance_id = 1;
  template_id = 2;
  member_id = 6;
  image_id = 5;
  modules = [];
  parameters = [];
  parameters_revision = 0;
  applied_parameters_revision = none;
  coder_workspace_id = none;
  coder_workspace_build_id = none;
}

abbrev pub deployed : TemplateDeployment
deployed = record {
  assignment_id = 3;
  coder_organization_id = some 1;
  coder_template_id = some 1;
  coder_template_version_id = some 1;
  target_commit = none;
  applied_commit = none;
  target_system_parameter_revision = none;
  applied_system_parameter_revision = none;
  status = success;
}

-- Instance 1, template 2 and member 6, and no work.
abbrev pub quiet : Db
quiet = record {
  jobs = [];
  instances = (1, instance_with (lifecycle "created" success none none)) ∷ [];
  templates = (2, ready_template) ∷ [];
  assignments = [];
  workspaces = [];
  members = (6, ready_member) ∷ (8, record ready_member { username = "bob" }) ∷ [];
  deployments = [];
  databases = [];
  allocations = [];
  images =
      (5, record { template_id = 2; registry_name = "docker.io"; name = "python"; version = "3" })
      ∷ [];
  parameters = [];
  kubernetes = [];
}

-- The same with instance 1 updated, which the guards of the requests accept.
abbrev pub updated : Db
updated = record quiet {
  instances = (1, instance_with (lifecycle "updating" success none none)) ∷ [];
}

-- The same with assignment 3 of the template to the instance, its deployment and a workspace.
abbrev pub assigned : Db
assigned = record quiet {
  assignments = (3, assignment_with (lifecycle "created" success none none)) ∷ [];
  deployments = (30, deployed) ∷ [];
  workspaces = (4, ready_workspace) ∷ [];
}

abbrev pub start_job : JobExecution
start_job = record {
  name = "instance.start";
  task_name = instance_start_step_01_task;
  resource_type = some "instance";
  resource_id = some 1;
  step = instance_start_step_01;
  status = pending;
  attempt = 0;
  claimed_at = none;
}

-- Job 7 waits to start instance 1.
abbrev pub waiting : Db
waiting = record quiet {
  jobs = (7, start_job) ∷ [];
  instances =
      (1, instance_with (lifecycle "starting" pending (some 7) (some instance_start_step_01))) ∷ [];
}

-- Job 7 runs for the first time, since second 5.
abbrev pub busy : Db
busy = record quiet {
  jobs = (7, record start_job { status = running; attempt = 1; claimed_at = some 5 }) ∷ [];
  instances =
      (1, instance_with (lifecycle "starting" running (some 7) (some instance_start_step_01))) ∷ [];
}

-- Job 7 has succeeded.
abbrev pub finished : Db
finished = record quiet {
  jobs = (7, record start_job { status = success; attempt = 1 }) ∷ [];
  instances = (1, instance_with (lifecycle "starting" success (some 7) none)) ∷ [];
}
