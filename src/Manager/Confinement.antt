-- ===== src/Manager/Confinement.antt =====
-- What the controller process may do to the cluster for an Action, by the Action's type.
pub mod Restarts
pub mod Nodes
pub mod Reach
pub mod Once
use k8s_ops_platform.Prelude.{
  ℕ, String, Option, none, some, List, true, false, not, ◌≡◌, ◌≢◌, ◌⊎◌, inl, inr, refl, ap, sym,
  subst, ◌==◌, eq_iff, arith, Bool-cases, if-cases,
}
use k8s_ops_platform.Prelude.Dict.{lookup, get_or_empty}
use k8s_ops_platform.Api.{Action, pod_restart, deployment_restart, node_maintenance}
use k8s_ops_platform.Kube.{Kube, Err, M}
use k8s_ops_platform.Kube.Errors.{ok, err, Result-cases}
use k8s_ops_platform.Kube.Objects.{Pod, Node, Deployment}
use k8s_ops_platform.Action.{Executor}
use k8s_ops_platform.Action.PodRestart
use k8s_ops_platform.Action.DeploymentRestart
use k8s_ops_platform.Action.DeploymentRestart.{restart_annotation, annotate}
use k8s_ops_platform.Action.NodeMaintenance
use k8s_ops_platform.Action.NodeMaintenance.{
  Outcome, noop_maintenance_hook, node_ready, evict, precheck, cordon, drain, run_hook,
  check_health, uncordon, checkpoint,
}
use k8s_ops_platform.Action.NodeMaintenance.Drain.{Evicts, evict_pods-Evicts}
use k8s_ops_platform.Action.PodRestart.Targets.{execute-only_target}
use k8s_ops_platform.Controller.{State}
use k8s_ops_platform.Controller.Reconcile.{reconcile_action}
use k8s_ops_platform.Controller.Calls.{
  Reads, gets_pod, gets_node, gets_deployment, lists_pods_in, lists_pods_on, reads_clock, Calls,
  stop, read, write, Permitted, Stays,
}
use k8s_ops_platform.Controller.Calls.Phases.{IsConfined, reconcile_action-Stays}
use k8s_ops_platform.Manager.{
  pod_restart_executor, deployment_restart_executor, node_maintenance_executor, executors,
  reconciler,
}

-- What an Action of a type may do to the cluster beyond its own status. The object that is written is
-- one that a read of the target's name gave.
pub data Touches (k : Kube) (type : String) (a : Action) : k.World → k.World → Type 0 where
  -- the deletion of the target, under the UID in the status
  deletes :
      (v : k.World) (pod : Pod)
      → type ≡ pod_restart
      → (k.get_pod a.spec.target.namespace a.spec.target.name v).0 ≡ ok pod
      → pod.uid ≡ a.status.target_uid
      → (w : k.World) → Touches k type a w (k.delete_pod pod w).1
  -- the two annotations of the target's template, where the Action's are not there yet
  annotates :
      (v : k.World) (d : Deployment) (time : String)
      → type ≡ deployment_restart
      → (k.get_deployment a.spec.target.namespace a.spec.target.name v).0 ≡ ok d
      → get_or_empty (lookup restart_annotation d.template_annotations) ≢ a.metadata.uid
      → (w : k.World)
      → Touches k type a w (k.patch_deployment (annotate a.metadata.uid time d) d w).1
  cordons :
      (v : k.World) (node : Node)
      → type ≡ node_maintenance
      → a.status.execution_state ≡ "PreChecked"
      → (k.get_node a.spec.target.name v).0 ≡ ok node
      → (w : k.World)
      → Touches k type a w (k.patch_node (record node { unschedulable = true }) node w).1
  -- evictions of pods on the target, in their order and none twice
  drains :
      (v v' : k.World) (node : Node) (pods : List Pod)
      → type ≡ node_maintenance
      → a.status.execution_state ≡ "Cordoned"
      → (k.get_node a.spec.target.name v).0 ≡ ok node
      → (k.list_pods_on node.name v').0 ≡ ok pods
      → {w u : k.World} → Evicts k pods w u
      → Touches k type a w u
  uncordons :
      (v : k.World) (node : Node)
      → type ≡ node_maintenance
      → a.status.execution_state ≡ "HealthChecked"
      → (k.get_node a.spec.target.name v).0 ≡ ok node
      → (w : k.World)
      → Touches k type a w (k.patch_node (record node { unschedulable = false }) node w).1

module _ (k : Kube) where
  abbrev pub Within : String → Action → k.World → k.World → Type 0
  Within type a = Calls k k.time_now (Touches k type a)

  pub at :
      {type : String} {a : Action} {w v u : k.World} → v ≡ u → Within type a w u → Within type a w v
  at {type} {a} {w} e c = subst (λ x. Within type a w x) (sym e) c
