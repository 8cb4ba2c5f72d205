-- ===== src/Agent/Handlers.antt =====
-- The handlers that main registers. The log sink leaves the state alone.
use k8s_ops_platform.Prelude.{String, none, some, List, [], ◌∷◌, not, ◌==◌, if◌then◌else◌}
use k8s_ops_platform.Kube.{Kube}
use k8s_ops_platform.Diagnosis.{DiagnosisResult, handle_all}
use k8s_ops_platform.Diagnosis.Pods as PodDetector
use k8s_ops_platform.Diagnosis.Nodes as NodeDetector
use k8s_ops_platform.Diagnosis.Deployments as DeploymentDetector
use k8s_ops_platform.Metrics.{observe_resource}
use k8s_ops_platform.Policy.{Config}
use k8s_ops_platform.Policy.Sink.{handle}
use k8s_ops_platform.Agent.{Notified, as_pod, as_node, as_deployment, as_event, Env, AgentState}

-- A notification of one of the four informers: an object added or updated, or deleted, and an event
-- added.
pub data Notification : Type 0 where
  pod_changed node_changed deployment_changed : Notified → Notification
  pod_deleted node_deleted deployment_deleted : Notified → Notification
  event_added : Notified → Notification

module _ (k : Kube) (env : Env) (config : Config) where
  abbrev pub log_sink : DiagnosisResult → AgentState k → AgentState k
  log_sink r s = s

  abbrev pub policy_sink : DiagnosisResult → AgentState k → AgentState k
  policy_sink r s = record s { world = (handle k env.sha256 config r s.world).1 }

  -- sink.Handle for each result.
  unfoldable pub sink_results : List DiagnosisResult → AgentState k → AgentState k
  sink_results [] s = s
  sink_results (r ∷ rs) s = sink_results rs (handle_all (some log_sink ∷ some policy_sink ∷ []) r s)

  -- The end of each diagnose function: the tracker first, then the sinks.
  unfoldable pub take_results :
      String → String → String → List DiagnosisResult → AgentState k → AgentState k
  take_results kind namespace name results s =
      sink_results results
        (record s { tracker = observe_resource kind namespace name results s.tracker })

  unfoldable pub diagnose_pod : Notified → AgentState k → AgentState k
  diagnose_pod obj s = elim (as_pod obj) [
    | none ↦ s
    | some pod ↦ elim (env.list_events pod.namespace) [
      | none ↦ s
      | some events ↦
          take_results "Pod" pod.namespace pod.name (PodDetector.diagnose env.now pod events) s
    ]
  ]

  unfoldable pub diagnose_node : Notified → AgentState k → AgentState k
  diagnose_node obj s = elim (as_node obj) [
    | none ↦ s
    | some node ↦ take_results "Node" "" node.name (NodeDetector.diagnose env.now node) s
  ]

  unfoldable pub diagnose_deployment : Notified → AgentState k → AgentState k
  diagnose_deployment obj s = elim (as_deployment obj) [
    | none ↦ s
    | some d ↦
        take_results "Deployment" d.namespace d.name (DeploymentDetector.diagnose (env.now 0) d) s
  ]

  abbrev pub forget : String → String → String → AgentState k → AgentState k
  forget kind namespace name s = record s {
    tracker = observe_resource kind namespace name [] s.tracker;
  }

  -- The DeleteFunc of each informer.
  unfoldable pub delete_pod : Notified → AgentState k → AgentState k
  delete_pod obj s = elim (as_pod obj) [ none ↦ s | some p ↦ forget "Pod" p.namespace p.name s ]

  unfoldable pub delete_node : Notified → AgentState k → AgentState k
  delete_node obj s = elim (as_node obj) [ none ↦ s | some n ↦ forget "Node" "" n.name s ]

  unfoldable pub delete_deployment : Notified → AgentState k → AgentState k
  delete_deployment obj s = elim (as_deployment obj) [
    | none ↦ s
    | some d ↦ forget "Deployment" d.namespace d.name s
  ]

  -- The AddFunc of the events: the pod of the event is diagnosed again.
  unfoldable pub add_event : Notified → AgentState k → AgentState k
  add_event obj s = elim (as_event obj) [
    | none ↦ s
    | some event ↦
        if not (event.involved_kind == "Pod")
        then s
        else elim (env.get_pod event.namespace event.involved_name) [
          | none ↦ s
          | some pod ↦ diagnose_pod (Notified.pod pod) s
        ]
  ]

  -- The registration of the handlers.
  unfoldable pub notify : Notification → AgentState k → AgentState k
  notify (pod_changed obj) = diagnose_pod obj
  notify (node_changed obj) = diagnose_node obj
  notify (deployment_changed obj) = diagnose_deployment obj
  notify (pod_deleted obj) = delete_pod obj
  notify (node_deleted obj) = delete_node obj
  notify (deployment_deleted obj) = delete_deployment obj
  notify (event_added obj) = add_event obj

-- What the agent does with a history of notifications, the oldest first, each with what the caches hold
-- when its handler runs.
unfoldable pub serve : (k : Kube) → Config → List (Env × Notification) → AgentState k → AgentState k
serve k config [] s = s
serve k config ((env, n) ∷ ns) s = serve k config ns (notify k env config n s)
