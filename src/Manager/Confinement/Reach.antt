-- ===== src/Manager/Confinement/Reach.antt =====
-- All that the controller process does to the cluster in a reconciliation.
use k8s_ops_platform.Prelude.{
  String, Option, none, some, true, ◌≡◌, sym, subst, ◌==◌, eq_iff, if-cases,
}
use k8s_ops_platform.Api.{Action, pod_restart, deployment_restart, node_maintenance}
use k8s_ops_platform.Kube.{Kube}
use k8s_ops_platform.Action.{Executor}
use k8s_ops_platform.Controller.{State}
use k8s_ops_platform.Controller.Reconcile.{reconcile_action}
use k8s_ops_platform.Controller.Calls.{Calls, Permitted}
use k8s_ops_platform.Controller.Calls.Phases.{IsConfined, reconcile_action-Stays}
use k8s_ops_platform.Manager.{executors, reconciler}
use k8s_ops_platform.Manager.Confinement.{Touches}
use k8s_ops_platform.Manager.Confinement.Restarts.{
  pod_restart-IsConfined, deployment_restart-IsConfined,
}
use k8s_ops_platform.Manager.Confinement.Nodes.{node_maintenance-IsConfined}

module _ (k : Kube) where
  abbrev ConfinedAs : Action → String → Option (Executor k) → Type 0
  ConfinedAs a type none = Unit
  ConfinedAs a type (some ex) = IsConfined k.time_now (Touches k type a) (λ _. Unit) ex a

  -- A type that passes the test for a name, with the executor of that name.
  named :
      {type name : String} {ex : Executor k} (a : Action)
      → (type == name) ≡ true
      → IsConfined k.time_now (Touches k name a) (λ _. Unit) ex a
      → ConfinedAs a type (some ex)
  named {type} {name} {ex} a e c =
      subst (λ t. IsConfined k.time_now (Touches k t a) (λ _. Unit) ex a)
        (sym ((eq_iff type name).0 e)) c

  executors-ConfinedAs : (a : Action) (type : String) → ConfinedAs a type (executors k type)
  unfolding executors
  executors-ConfinedAs a type =
      if-cases (ConfinedAs a type) (type == pod_restart)
        (λ e. named a e (pod_restart-IsConfined k a))
        (λ _.
          if-cases (ConfinedAs a type) (type == deployment_restart)
            (λ e. named a e (deployment_restart-IsConfined k a))
            (λ _.
              if-cases (ConfinedAs a type) (type == node_maintenance)
                (λ e. named a e (node_maintenance-IsConfined k a)) (λ _. tt)))

  -- All that a reconciliation of an Action does to the cluster, whatever the cluster answers: it reads,
  -- it writes statuses of this Action, and for the Action's type it deletes the pod that has the
  -- target's name and the UID in the status; or it annotates the target Deployment, where the Action's
  -- mark is not there yet; or, at the checkpoints for it, it cordons the target node, evicts managed
  -- pods that a list of the node's pods shows, in their order and none twice, and uncordons the node.
  -- No other object is written, and nothing is done for another type.
  pub reconcile_action-Within :
      (a : Action) (s : State k)
      → Calls k k.time_now
          (Permitted k (Touches k a.spec.action_type a) a)
          s.world
          (reconcile_action (reconciler k) a s).1.world
  reconcile_action-Within a s =
      let type = a.spec.action_type in
      reconcile_action-Stays (reconciler k) (Touches k type a) (λ _. Unit) a
        (record { by_read = λ w v c h. h; by_write = λ w v c h. h })
        (λ ex known. subst (ConfinedAs a type) known (executors-ConfinedAs a type)) s tt
