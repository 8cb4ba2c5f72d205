-- ===== src/Manager/Confinement/Nodes.antt =====
-- The executor of node_maintenance.go keeps to the writes of its type.
use k8s_ops_platform.Prelude.{some, false, not, ◌≡◌, inl, inr, refl, ◌==◌, eq_iff, arith, if-cases}
use k8s_ops_platform.Api.{Action, node_maintenance}
use k8s_ops_platform.Kube.{Kube}
use k8s_ops_platform.Kube.Errors.{ok, Result-cases}
use k8s_ops_platform.Kube.Objects.{Node}
use k8s_ops_platform.Action.NodeMaintenance
use k8s_ops_platform.Action.NodeMaintenance.{
  Outcome, noop_maintenance_hook, node_ready, evict, precheck, cordon, drain, run_hook,
  check_health, uncordon, checkpoint,
}
use k8s_ops_platform.Action.NodeMaintenance.Drain.{evict_pods-Evicts}
use k8s_ops_platform.Controller.Calls.{gets_node, lists_pods_on, stop, read, write}
use k8s_ops_platform.Controller.Calls.Phases.{IsConfined}
use k8s_ops_platform.Manager.{node_maintenance_executor}
use k8s_ops_platform.Manager.Confinement.{Touches, cordons, drains, uncordons, Within, at}

module _ (k : Kube) where
  -- The run of a checkpoint, on the node that Execute has read.
  module _ (a : Action) (v : k.World) (node : Node)
      (found : (k.get_node a.spec.target.name v).0 ≡ ok node) where
    abbrev Confined : (k.World → Outcome k × k.World) → Type 0
    Confined m = (w : k.World) → Within k node_maintenance a w (m w).1

    precheck-Confined : Confined (precheck k node)
    unfolding precheck
    precheck-Confined = if-cases Confined (not (node_ready node)) (λ _ w. stop) (λ _ w. stop)

    cordon-Confined : a.status.execution_state ≡ "PreChecked" → Confined (cordon k node)
    unfolding cordon
    cordon-Confined at_state =
        if-cases Confined node.unschedulable (λ _ w. stop)
          (λ _ w. write (cordons v node refl at_state found w) stop)

    drain-Confined : a.status.execution_state ≡ "Cordoned" → Confined (drain k node)
    unfolding drain evict
    drain-Confined at_state w =
        let listed = k.list_pods_on node.name w in
        elim (Result-cases listed.0) [
          | inl (e, q) ↦ at k {u = listed.1} (ground arith) (read (lists_pods_on _ w) stop)
          | inr (pods, q) ↦
              at k {u = (NodeMaintenance.evict_pods k pods false listed.1).1} (ground arith) (
                read (lists_pods_on _ w) (
                  write
                    (drains v w node pods refl at_state found q
                      (evict_pods-Evicts k pods false listed.1))
                    stop))
        ]

    check_health-Confined : Confined (check_health k node)
    unfolding check_health
    check_health-Confined = if-cases Confined (not (node_ready node)) (λ _ w. stop) (λ _ w. stop)

    uncordon-Confined : a.status.execution_state ≡ "HealthChecked" → Confined (uncordon k node)
    unfolding uncordon
    uncordon-Confined at_state =
        if-cases Confined (not node.unschedulable) (λ _ w. stop)
          (λ _ w. write (uncordons v node refl at_state found w) stop)

    checkpoint-Confined :
        Confined (checkpoint k (some (noop_maintenance_hook k)) a.status.execution_state node)
    unfolding checkpoint run_hook
    checkpoint-Confined =
        let state = a.status.execution_state in
        if-cases Confined (state == "") (λ _. precheck-Confined)
          (λ _.
            if-cases Confined (state == "PreChecked") (λ e. cordon-Confined ((eq_iff _ _).0 e))
              (λ _.
                if-cases Confined (state == "Cordoned") (λ e. drain-Confined ((eq_iff _ _).0 e))
                  (λ _.
                    if-cases Confined (state == "Drained") (λ _ w. stop)
                      (λ _.
                        if-cases Confined (state == "HookCompleted") (λ _. check_health-Confined)
                          (λ _.
                            if-cases Confined (state == "HealthChecked")
                              (λ e. uncordon-Confined ((eq_iff _ _).0 e))
                              (λ _.
                                if-cases Confined (state == "Uncordoned") (λ _ w. stop)
                                  (λ _ w. stop)))))))

  node_execute-Within :
      (a : Action) (w : k.World)
      → Within k node_maintenance a w
          (NodeMaintenance.execute k (some (noop_maintenance_hook k)) a w).1
  unfolding NodeMaintenance.execute
  node_execute-Within a w =
      let found = k.get_node a.spec.target.name w in
      elim (Result-cases found.0) [
        | inl (e, q) ↦ at k {u = found.1} (ground arith) (read (gets_node _ w) stop)
        | inr (node, q) ↦
            at k
              {u = (checkpoint k (some (noop_maintenance_hook k)) a.status.execution_state node
                found.1).1}
              (ground arith) (read (gets_node _ w) (checkpoint-Confined a w node q found.1))
      ]

  node_verify-world :
      (a : Action) (w : k.World)
      → (NodeMaintenance.verify k a w).1 ≡ (k.get_node a.spec.target.name w).1
  unfolding NodeMaintenance.verify
  node_verify-world a w = elim (Result-cases (k.get_node a.spec.target.name w).0) [
    | inl (e, q) ↦ ground arith
    | inr (node, q) ↦ ground arith
  ]

  pub node_maintenance-IsConfined :
      (a : Action)
      → IsConfined k.time_now
          (Touches k node_maintenance a)
          (λ _. Unit)
          (node_maintenance_executor k)
          a
  node_maintenance-IsConfined a = record {
    prepares = tt;
    executes = λ w _. node_execute-Within a w;
    verifies = λ w _. at k (node_verify-world a w) (read (gets_node _ w) stop);
  }
