-- ===== src/Samples/Recovery.antt =====
-- The agent and the controller together, the calls of the controller, and the /state page of a store in
-- another order, at the sample cluster.
use mathlib.Core.List.Perm
use mathlib.Core.Quot
use k8s_ops_platform.Prelude.{some, [], ◌∷◌, true, ◌≡◌, refl, arith}
use k8s_ops_platform.Api.{Action}
use k8s_ops_platform.Controller.Calls.{Calls, Permitted}
use k8s_ops_platform.Controller.Drive.{Succeeds}
use k8s_ops_platform.Controller.Reconcile.{reconcile_action}
use k8s_ops_platform.Manager.{reconciler}
use k8s_ops_platform.Manager.Confinement.{Touches}
use k8s_ops_platform.Manager.Confinement.Reach.{reconcile_action-Within}
use k8s_ops_platform.Agent.{Notified, AgentState}
use k8s_ops_platform.Agent.Handlers.{diagnose_pod}
use k8s_ops_platform.Agent.Requests.{Asks, IsRestartOf}
use k8s_ops_platform.Agent.StatePage.{resource_state}
use k8s_ops_platform.Agent.StatePage.Unordered.{source_with, state_of, resource_state-Holding}
use k8s_ops_platform.Metrics.{new_diagnosis_tracker}
use k8s_ops_platform.Platform.{crash-Recovers}
use k8s_ops_platform.Samples.{sample, cluster}
use k8s_ops_platform.Samples.Controllers.{start_state, started, accepted}
use k8s_ops_platform.Samples.Restarts.{
  restartable, IsReady, IsReplaced, restarts, restart_state, restarts-IsInTime, web-IsRestartable,
}
use k8s_ops_platform.Samples.Agents.{env, config}
use k8s_ops_platform.Samples.Diagnoses.{crashing_pod}

abbrev watching : AgentState restartable
watching = record { world = cluster; tracker = new_diagnosis_tracker }

crash-Recovers_example :
    (a : Action) × IsRestartOf restartable env config crashing_pod a
    × Asks restartable env config a cluster
        (diagnose_pod restartable env config (Notified.pod crashing_pod) watching).world
    × Succeeds restarts 5 (record a { metadata = accepted.metadata }) restart_state
crash-Recovers_example =
    crash-Recovers restartable restarts refl env config crashing_pod "u1" "ReplicaSet" "web" IsReady
      IsReplaced [] watching accepted.metadata restart_state refl refl refl refl
      (λ a of_pod. (
        web-IsRestartable (record a { metadata = accepted.metadata }) of_pod.target,
        restarts-IsInTime (record a { metadata = accepted.metadata }),
      ))
      refl

reconcile_action-Within_example :
    Calls sample sample.time_now
      (Permitted sample (Touches sample "PodRestart" started) started)
      cluster
      (reconcile_action (reconciler sample) started start_state).1.world
reconcile_action-Within_example = reconcile_action-Within sample started start_state

-- A store, in the two orders that a map may give.
resource_state-Holding_example :
    state_of some "Pod" true (Quot.mk ("shop/web-2" ∷ "shop/web-1" ∷ [], ground arith))
    ≡ resource_state some (source_with some "Pod" true ("shop/web-1" ∷ "shop/web-2" ∷ []))
resource_state-Holding_example =
    resource_state-Holding some "Pod" true ("shop/web-2" ∷ "shop/web-1" ∷ [])
      ("shop/web-1" ∷ "shop/web-2" ∷ []) (ground arith) (Perm.swap _ _ _)
