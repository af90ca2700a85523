-- ===== src/Repositories/Kubernetes.antt =====
-- InstanceKubernetesRepository (repositories/instance_kubernetes.py), without its reads.
use coder_manager.Base.{
  true, false, ℕ, ◌≡◌, refl, ◌∙◌, inl, inr, Bool, not, Option, none, some, ◌==◌, nat_eq, find, add,
  Option-cases, arith,
}
use coder_manager.Model.{
  instance_kind, lifecycle_of, modify_lifecycle, Instance, success, status_eq, Db,
}
use coder_manager.Jobs.Registry.{
  instance_update_step_01, instance_update_step_01_task, expected_action,
}
use coder_manager.Jobs.Execution.Resources.{SameRows}
use coder_manager.Jobs.Consistency.Settling.{IsConsistent}
use coder_manager.Jobs.Consistency.Requests.{unchanged-IsConsistent}
use coder_manager.Repositories.Reply.{
  Reply, accepted, ◌>>=◌, ◌>>◌, refuse_if, found_or, Reply-cases,
}
use coder_manager.Repositories.Jobs.{add_job_execution, requested}
use coder_manager.Repositories.Requested.{Requested, queued-Requested, Requested-IsConsistent}

pub data KubernetesError : Type 0 where
  instance_not_found action_conflict already_configured : KubernetesError

-- `_lock_idle_instance`
unfoldable pub lock_idle_instance : ℕ → Db → Reply KubernetesError Instance
lock_idle_instance instance_id db = do
  i ← found_or (find instance_id db.instances) instance_not_found
  refuse_if (not (i.status == success)) action_conflict
  accepted i

abbrev pub is_configured : Option ℕ → Bool
is_configured none = false
is_configured (some kubeconfig_enc) = true

abbrev pub with_kubeconfig : ℕ → ℕ → Db → Db
with_kubeconfig instance_id kubeconfig_enc db = record db {
  kubernetes = add instance_id kubeconfig_enc db.kubernetes;
}

-- The envelope is the one that the cipher makes of the kubeconfig and the instance's identifier.
unfoldable pub create_and_request_update : ℕ → ℕ → ℕ → Db → Reply KubernetesError Db
create_and_request_update job_id instance_id kubeconfig_enc db = do
  _ ← lock_idle_instance instance_id db
  refuse_if (is_configured (find instance_id db.kubernetes)) already_configured
  accepted (
      modify_lifecycle instance_kind instance_id
        (requested "updating" job_id instance_update_step_01)
        (add_job_execution job_id "instance.update" instance_update_step_01_task (some "instance")
          (some instance_id) instance_update_step_01
          (with_kubeconfig instance_id kubeconfig_enc db)))

with_kubeconfig-SameRows :
    (instance_id e : ℕ) (db : Db) → SameRows db (with_kubeconfig instance_id e db)
unfolding lifecycle_of
with_kubeconfig-SameRows instance_id e db instance_kind n = refl
with_kubeconfig-SameRows instance_id e db _ n = refl

found_instance :
    (instance_id : ℕ) (db : Db) (i : Instance)
    → lock_idle_instance instance_id db ≡ accepted i
    → lifecycle_of instance_kind instance_id db ≡ some i.lifecycle
unfolding lock_idle_instance lifecycle_of
found_instance instance_id db i h = elim (Option-cases (find instance_id db.instances)) [
  | inl e ↦ absurd (ground arith)
  | inr (x, e) ↦ ground arith
]

pub create_and_request_update-Requested :
    (job_id instance_id kubeconfig_enc : ℕ) (db db' : Db)
    → create_and_request_update job_id instance_id kubeconfig_enc db ≡ accepted db'
    → Requested
        (with_kubeconfig instance_id kubeconfig_enc db)
        db'
        instance_kind
        instance_id
        job_id
        "updating"
        "instance.update"
        instance_update_step_01_task
        instance_update_step_01
unfolding create_and_request_update expected_action
create_and_request_update-Requested job_id instance_id kubeconfig_enc db db' h =
    elim (Reply-cases (lock_idle_instance instance_id db)) [
      | inr (e, l) ↦ absurd (ground arith)
      | inl (i, l) ↦
          let base = with_kubeconfig instance_id kubeconfig_enc db in
          let done : db'
              ≡ modify_lifecycle instance_kind instance_id
                  (requested "updating" job_id instance_update_step_01)
                  (add_job_execution job_id "instance.update" instance_update_step_01_task
                    (some "instance") (some instance_id) instance_update_step_01 base) =
            ground arith in
          rw done (
            queued-Requested instance_kind instance_id job_id "updating" "instance.update"
              instance_update_step_01_task instance_update_step_01 i.lifecycle base
              (with_kubeconfig-SameRows instance_id kubeconfig_enc db instance_kind instance_id
                ∙ found_instance instance_id db i l)
              refl)
    ]

pub create_and_request_update-IsConsistent :
    (job_id instance_id kubeconfig_enc : ℕ) (db db' : Db)
    → find job_id db.jobs ≡ none
    → create_and_request_update job_id instance_id kubeconfig_enc db ≡ accepted db'
    → IsConsistent db
    → IsConsistent db'
create_and_request_update-IsConsistent job_id instance_id kubeconfig_enc db db' fresh h c =
    Requested-IsConsistent
      (create_and_request_update-Requested job_id instance_id kubeconfig_enc db db' h) fresh
      (unchanged-IsConsistent db (with_kubeconfig instance_id kubeconfig_enc db) refl
        (with_kubeconfig-SameRows instance_id kubeconfig_enc db) c)
