-- ===== src/Tests/Assignments.antt =====
-- Requests on template assignments at a small database.
use coder_manager.Base.{
  ℕ, ◌≡◌, ◌⊎◌, refl, none, some, true, false, nat_eq, string_eq, option_eq, find, exists_where,
}
use coder_manager.Model.{Workspace, Db}
use coder_manager.Jobs.Registry.{template_assignment_create_step_01_task}
use coder_manager.Jobs.Execution.{ExecutionClaim, claim_execution}
use coder_manager.Repositories.Reply.{accepted, refused}
use coder_manager.Repositories.Jobs.{is_retryable}
use coder_manager.Repositories.Assignments.{
  action_conflict, lock_assignment, require_mutation_available, put, create_assignment,
  request_deletion, delete_existing, delete_assignment,
}
use coder_manager.Repositories.Assignments.Idempotence.{put-put, put-excludes-deletion}
use coder_manager.Repositories.Assignments.Deletion.{deletion-deletion, deletion-quiet}
use coder_manager.Repositories.Assignments.Linking.{put-claimable}
use coder_manager.Tests.Data.{quiet, assigned}

-- Template 2 is put on instance 1, as assignment 3 with job 11.
abbrev requested_put : Db
requested_put = create_assignment 3 11 1 2 quiet

quiet-put : put 3 11 1 2 quiet ≡ accepted (requested_put, 3, true)
unfolding put find require_mutation_available lock_assignment
quiet-put = refl

quiet-unassigned : lock_assignment 1 2 quiet.assignments ≡ none
unfolding lock_assignment
quiet-unassigned = refl

put-put_example : put 5 12 1 2 requested_put ≡ accepted (requested_put, 3, true)
put-put_example = put-put 3 11 5 12 1 2 3 quiet requested_put true quiet-put

put-excludes-deletion_example : request_deletion 12 1 2 requested_put ≡ refused action_conflict
put-excludes-deletion_example = put-excludes-deletion 3 11 12 1 2 3 quiet requested_put quiet-put

put-claimable_example :
    (c : ExecutionClaim) × ((claim_execution 11 template_assignment_create_step_01_task 5
        requested_put).1
      ≡ some c)
    × (c.attempt ≡ 1)
put-claimable_example =
    put-claimable 3 11 1 2 3 5 quiet requested_put true quiet-unassigned quiet-put

-- Assignment 3 is deleted again, with job 11.
abbrev requested_deletion : Db
requested_deletion = delete_assignment 11 3 assigned

assigned-deletion : request_deletion 11 1 2 assigned ≡ accepted (requested_deletion, some 3, true)
unfolding request_deletion find require_mutation_available lock_assignment delete_existing
    exists_where
assigned-deletion = refl

deletion-deletion_example :
    request_deletion 12 1 2 requested_deletion ≡ accepted (requested_deletion, some 3, true)
deletion-deletion_example =
    deletion-deletion 11 12 1 2 3 assigned requested_deletion true assigned-deletion

deletion-quiet_example :
    (requested_deletion ≡ assigned)
    ⊎ ((n : ℕ) (w : Workspace)
        → find n assigned.workspaces ≡ some w
        → w.instance_id ≡ 1
        → w.template_id ≡ 2
        → is_retryable w.status ≡ false)
deletion-quiet_example = deletion-quiet 11 1 2 3 assigned requested_deletion true assigned-deletion
