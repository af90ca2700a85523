-- ===== src/Lib.antt =====
-- Coder Manager: the durable jobs of the backend, and the requests that start them.
--
-- The service keeps its state in one database (src/coder_manager/models). A request of the API goes
-- through a repository (src/coder_manager/repositories), which checks its guards under row locks,
-- changes a resource (an instance, a template, a template assignment or a workspace) and queues a
-- row of `job_executions` for it in one transaction. Celery workers run the job's steps: each step
-- claims the job, works, and advances, completes, defers or fails it through the transactions of
-- src/coder_manager/tasks/common/execution.py. A periodic scan hands jobs out again that wait, have
-- failed, or whose worker stopped sending heartbeats.
--
-- Model/Rows has the tables as records (columns that nothing modelled reads are left out) and the
-- database `Db` as their product; Model/Resource sees the four kinds of resource through the four
-- columns they share, which the source does with ladders of `isinstance`.
--
-- Jobs models tasks/common. Jobs/Registry has the names, the allowlist and the dispatch of
-- registry.py, with Celery's table of tasks and its broker as parameters. Jobs/Execution has
-- execution.py: Ownership the claim and `owned_execution`, Transitions the transactions. Each is one
-- function on the database, since each locks the job's row first and commits at its end. A `mutate`
-- callback is any function on the database that may raise, which rolls the transaction back; the
-- theorems that need it say which rows the callback leaves alone. Times are numbers of seconds.
-- Jobs/Workers puts the transactions of any number of workers into a step relation (Runs), where a
-- claim may be presented by anyone at any time, jobs are added under identifiers never issued before
-- (`uuid4`) and may be discarded, and other tables change freely. Jobs/Consistency has the link
-- between a resource and the job it names.
--
-- Repositories has the requests: Jobs has `add_job_execution` and the tests that several
-- repositories share, Requested what the requests have in common that give one resource a new job,
-- and Instances, Assignments, Members, Workspaces, Templates, Parameters, Images, Kubernetes and
-- Databases the repository of that name (instances.py, template_assignments.py, members.py,
-- workspaces.py, templates.py, template_parameters.py, template_images.py, instance_kubernetes.py,
-- managed_databases.py); a method `delete` is `remove` there. Instances/Creation has `create` with
-- the choice of a managed database and of a slug. A request returns the new database or the
-- exception it raises, after which nothing has changed; the identifiers that `uuid4` gives are
-- arguments. A commit that violates a unique constraint is a guard in the place of the commit. The
-- database's `lower`, its order of the parameters by name, and the order of the databases by name
-- and identifier are parameters (Collation, DatabaseServices, Placement). A removed job leaves the
-- resources that name it as they are, where the database sets them to null: under the link between
-- resources and jobs there is none but the template that gives the job up. Capacity has the managed
-- databases with every operation that reserves or frees a place.
--
-- Tasks has the last step of an instance's deletion (Removal: tasks/instance/delete) and the local
-- transactions of its update (Updating: tasks/instance/update), without the calls of Argo CD and
-- Coder between them. `finalize` is the transaction of `_finalize_update`. Retrying has the scan of
-- tasks/retry_job_executions.py, where the order of the jobs by age is the database's. Crypto has
-- crypto.py, one module for each of its four ciphers (Password, Kubeconfig, InstancePassword, and
-- ParameterValue for TemplateParameterCipher), with AESGCM, base64, UTF-8 and the bytes of a UUID
-- as parameters; the repositories take the envelopes as numbers. Program puts the requests and the
-- transactions of execution.py into one step relation, from the empty database, in which a callback
-- and a worker's own write may do anything but touch a job, or the job or the status of a resource.
-- Marking has the callback `_mark_created` of tasks/template/create/step_01_create_template.py.
-- Tests/Histories and Tests/Delivery have a history in which it marks an assignment, whose deletion
-- is then begun, or for which a workspace is then requested and claimed.
--
-- Base has the shared notation, tables and dictionaries; Tests has the theorems at concrete inputs.
-- The loop that draws a slug until it is free takes the list of the draws, and has no answer if it
-- outlasts them; all other loops of the modelled code go once over a list, and nothing runs on fuel.
--
-- Not modelled: queries for lists and pages, routing, settings, authentication, metrics, the
-- clients of Argo CD, Coder, PostgreSQL and git, and the migrations, which are glue or calls of
-- other services; `update_action` of three repositories, which only the tests call; the text
-- validation of the schemas; the other bodies of steps and the other periodic tasks. The steps of
-- Program are the requests of the repositories, the transactions of tasks/common/execution.py and the
-- writes of workers that touch no job; the transactions in which a step of the update or the deletion
-- of an instance ends its job by itself stand apart, in Tasks.
pub mod Base
pub mod Model
pub mod Jobs
pub mod Repositories
pub mod Tasks
pub mod Crypto
pub mod Program
pub mod Tests
