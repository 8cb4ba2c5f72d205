-- ===== src/Manager/Contract.antt =====
-- The executors of the process meet the controller's contract.
use k8s_ops_platform.Prelude.{Option, none, String, some, ◌≡◌, inl, inr, ◌==◌, Bool-cases, subst}
use k8s_ops_platform.Api.{pod_restart, deployment_restart, node_maintenance}
use k8s_ops_platform.Kube.{Kube}
use k8s_ops_platform.Action.{Executor}
use k8s_ops_platform.Action.Contract.{IsWellBehaved}
use k8s_ops_platform.Action.PodRestart.Laws
use k8s_ops_platform.Action.DeploymentRestart.Laws as DeploymentLaws
use k8s_ops_platform.Action.NodeMaintenance.Checkpoints
use k8s_ops_platform.Action.NodeMaintenance.{noop_maintenance_hook}
use k8s_ops_platform.Manager.{
  pod_restart_executor, deployment_restart_executor, node_maintenance_executor, executors,
}

module _ (k : Kube) where
  pod_restart-IsWellBehaved : IsWellBehaved (pod_restart_executor k)
  pod_restart-IsWellBehaved = record {
    prepare_keeps = Laws.prepare-Keeps k;
    execute_keeps = Laws.execute-Keeps k;
  }

  deployment_restart-IsWellBehaved : IsWellBehaved (deployment_restart_executor k)
  deployment_restart-IsWellBehaved = record {
    prepare_keeps = tt;
    execute_keeps = DeploymentLaws.execute-Keeps k;
  }

  node_maintenance-IsWellBehaved : IsWellBehaved (node_maintenance_executor k)
  node_maintenance-IsWellBehaved = record {
    prepare_keeps = tt;
    execute_keeps = Checkpoints.execute-Keeps k (some (noop_maintenance_hook k));
  }

  abbrev BehavesIfAny : Option (Executor k) → Type 0
  BehavesIfAny none = Unit
  BehavesIfAny (some ex) = IsWellBehaved ex

  executors-BehavesIfAny : (type : String) → BehavesIfAny (executors k type)
  unfolding executors
  executors-BehavesIfAny type = elim (Bool-cases (type == pod_restart)) [
    | inl e ↦ rw e pod_restart-IsWellBehaved
    | inr n ↦ rw n (elim (Bool-cases (type == deployment_restart)) [
      | inl e ↦ rw e deployment_restart-IsWellBehaved
      | inr m ↦ rw m (elim (Bool-cases (type == node_maintenance)) [
        | inl e ↦ rw e node_maintenance-IsWellBehaved
        | inr o ↦ rw o tt
      ])
    ])
  ]

  -- Each of the process's three executors leaves the phase, the message, the times, the generation, the
  -- retry count and the conditions of an Action's status as they are, in Prepare and in Execute.
  pub executors-IsWellBehaved :
      (type : String) (ex : Executor k) → executors k type ≡ some ex → IsWellBehaved ex
  executors-IsWellBehaved type ex e = subst BehavesIfAny e (executors-BehavesIfAny type)
