-- ===== src/Agent/Laws.antt =====
-- What the agent does to the cluster, and what its gauge shows.
use k8s_ops_platform.Prelude.{
  String, Option, List, [], ◌∷◌, true, false, ◌≡◌, ◌⊎◌, inl, inr, ap, arith, eq_iff, All,
  Option-cases, subst,
}
use k8s_ops_platform.Api.{pod_restart, deployment_restart, node_maintenance, Action}
use k8s_ops_platform.Kube.{Kube, Err}
use k8s_ops_platform.Kube.Objects.{Pod, Node, Deployment, NodeCondition}
use k8s_ops_platform.Diagnosis.{DiagnosisResult, handle_all}
use k8s_ops_platform.Diagnosis.Pods.Suggestions as PodSuggestions
use k8s_ops_platform.Diagnosis.Nodes.Laws.{Reports, nil, healthy, unhealthy, diagnose-Reports}
use k8s_ops_platform.Diagnosis.Deployments.Laws.{Verdict, diagnose-Verdict}
use k8s_ops_platform.Policy.{Config, should_auto_create, new_action}
use k8s_ops_platform.Policy.Sink.{is_excluded}
use k8s_ops_platform.Policy.Laws.{auto_create_lem, handle_cases}
use k8s_ops_platform.Agent.{Notified, as_pod, as_node, as_deployment, Env, AgentState}
use k8s_ops_platform.Agent.Handlers.{
  policy_sink, sink_results, take_results, diagnose_pod, diagnose_node, diagnose_deployment,
}

-- The suggestions that the detectors make: none, a pod's restart, or a node's maintenance.
abbrev pub IsKnown : DiagnosisResult → Type 0
IsKnown r =
    (r.suggested_action ≡ "")
    ⊎ ((r.suggested_action ≡ pod_restart) × (r.resource_kind ≡ "Pod"))
    ⊎ (r.suggested_action ≡ node_maintenance)

-- From one world to another by creating actions that have a property, and by nothing else.
pub data Creates (k : Kube) (P : Action → Type 0) : k.World → k.World → Type 0 where
  nothing : {w : k.World} → Creates k P w w
  create :
      {w v : k.World} (a : Action) → P a → Creates k P (k.create_action a w).1 v → Creates k P w v

-- An action that the agent may create: the restart of a pod outside the excluded namespaces.
abbrev pub IsAllowed : (k : Kube) → Config → Action → Type 0
IsAllowed k config a =
    (a.spec.action_type ≡ pod_restart)
    × (a.spec.target.kind ≡ "Pod")
    × (config.auto_pod_restart ≡ true)
    × (is_excluded config a.spec.target.namespace ≡ false)

module _ (k : Kube) (env : Env) (config : Config) where
  allowed_restart :
      (r : DiagnosisResult)
      → IsKnown r
      → should_auto_create config r.suggested_action ≡ true
      → (r.suggested_action ≡ pod_restart)
        × (r.resource_kind ≡ "Pod")
        × (config.auto_pod_restart ≡ true)
  allowed_restart r known auto = ground (
    arith,
    auto_create_lem config r.suggested_action,
    eq_iff "" pod_restart,
    eq_iff "" deployment_restart,
    eq_iff pod_restart deployment_restart,
    eq_iff node_maintenance pod_restart,
    eq_iff node_maintenance deployment_restart,
  )

  pub new_action-IsAllowed :
      (r : DiagnosisResult)
      → IsKnown r
      → is_excluded config r.namespace ≡ false
      → should_auto_create config r.suggested_action ≡ true
      → IsAllowed k config (new_action env.sha256 config r r.suggested_action)
  unfolding new_action
  new_action-IsAllowed r known free auto =
      let (type, kind, flag) = allowed_restart r known auto in (type, kind, flag, free)

  pub sink_results-Creates :
      (rs : List DiagnosisResult) (s : AgentState k)
      → All IsKnown rs
      → Creates k (IsAllowed k config) s.world (sink_results k env config rs s).world
  unfolding sink_results handle_all
  sink_results-Creates [] s h = nothing
  sink_results-Creates (r ∷ rs) s (known, h) =
      let s' = policy_sink k env config r s in
      let to_end =
        λ (w : k.World). Creates k (IsAllowed k config) w (sink_results k env config rs s').world in
      let later = sink_results-Creates rs s' h in
      elim (handle_cases k env.sha256 config r s.world) [
        | inl quiet ↦ subst to_end (ap (λ (x : Option (Err k) × k.World). x.1) quiet) later
        | inr (free, auto, e) ↦
            create _ (new_action-IsAllowed r known free auto) (subst to_end e later)
      ]

  take_results-Creates :
      (kind namespace name : String) (rs : List DiagnosisResult) (s : AgentState k)
      → All IsKnown rs
      → Creates k
          (IsAllowed k config)
          s.world
          (take_results k env config kind namespace name rs s).world
  unfolding take_results
  take_results-Creates kind namespace name rs s h = sink_results-Creates rs _ h

  pub All-IsKnown_pod :
      (pod : Pod) (rs : List DiagnosisResult) → All (PodSuggestions.IsOnPod pod) rs → All IsKnown rs
  All-IsKnown_pod pod [] h = tt
  All-IsKnown_pod pod (r ∷ rs) (q, h) = (ground arith, All-IsKnown_pod pod rs h)

  All-IsKnown_node :
      {node : Node} {cs : List NodeCondition} {rs : List DiagnosisResult}
      → Reports node cs rs
      → All IsKnown rs
  All-IsKnown_node nil = tt
  All-IsKnown_node (healthy q h) = All-IsKnown_node h
  All-IsKnown_node (unhealthy q known h) = (inr (inr known.3), All-IsKnown_node h)

  All-IsKnown_deployment :
      (d : Deployment) (rs : List DiagnosisResult) → Verdict d rs → All IsKnown rs
  All-IsKnown_deployment d rs (inl (e, silent)) = rw e tt
  All-IsKnown_deployment d rs (inr (n, r, short, e, is_report)) = rw e (inl is_report.no_action, tt)

  pub diagnose_pod-Creates :
      (obj : Notified) (s : AgentState k)
      → Creates k (IsAllowed k config) s.world (diagnose_pod k env config obj s).world
  unfolding diagnose_pod
  diagnose_pod-Creates obj s = elim (Option-cases (as_pod obj)) [
    | inl e ↦ rw (e, diagnose_pod) nothing
    | inr (pod, e) ↦
        rw (e, diagnose_pod)
          (elim (Option-cases (env.list_events pod.namespace)) [
            | inl e' ↦ rw (e', diagnose_pod) nothing
            | inr (events, e') ↦
                rw (e', diagnose_pod)
                  (take_results-Creates _ _ _ _ s
                    (All-IsKnown_pod pod _ (PodSuggestions.diagnose-All env.now pod events)))
          ])
  ]

  pub diagnose_node-Creates :
      (obj : Notified) (s : AgentState k)
      → Creates k (IsAllowed k config) s.world (diagnose_node k env config obj s).world
  unfolding diagnose_node
  diagnose_node-Creates obj s = elim (Option-cases (as_node obj)) [
    | inl e ↦ rw (e, diagnose_node) nothing
    | inr (node, e) ↦
        rw (e, diagnose_node)
          (take_results-Creates _ _ _ _ s (All-IsKnown_node (diagnose-Reports env.now node)))
  ]

  pub diagnose_deployment-Creates :
      (obj : Notified) (s : AgentState k)
      → Creates k (IsAllowed k config) s.world (diagnose_deployment k env config obj s).world
  unfolding diagnose_deployment
  diagnose_deployment-Creates obj s = elim (Option-cases (as_deployment obj)) [
    | inl e ↦ rw (e, diagnose_deployment) nothing
    | inr (d, e) ↦
        rw (e, diagnose_deployment)
          (take_results-Creates _ _ _ _ s
            (All-IsKnown_deployment d _ (diagnose-Verdict (env.now 0) d)))
  ]
