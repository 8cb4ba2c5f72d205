-- ===== src/Agent/History.antt =====
-- The agent over a history of notifications: what it does to the cluster, and what its gauge shows.
use k8s_ops_platform.Prelude.{
  List, [], ◌∷◌, ◌≡◌, refl, inl, inr, ◌==◌, Bool-cases, Option-cases, subst, sym,
}
use k8s_ops_platform.Api.{Action}
use k8s_ops_platform.Kube.{Kube}
use k8s_ops_platform.Policy.{Config}
use k8s_ops_platform.Agent.{Notified, as_pod, as_node, as_deployment, as_event, Env, AgentState}
use k8s_ops_platform.Agent.Handlers.{
  delete_pod, delete_node, delete_deployment, add_event, Notification, pod_changed, node_changed,
  deployment_changed, pod_deleted, node_deleted, deployment_deleted, event_added, notify, serve,
}
use k8s_ops_platform.Agent.Laws.{
  Creates, nothing, create, IsAllowed, diagnose_pod-Creates, diagnose_node-Creates,
  diagnose_deployment-Creates,
}

pub Creates-trans :
    {k : Kube} {P : Action → Type 0} {w v u : k.World}
    → Creates k P w v
    → Creates k P v u
    → Creates k P w u
Creates-trans nothing d = d
Creates-trans (create a p c) d = create a p (Creates-trans c d)

module _ (k : Kube) (env : Env) (config : Config) where
  delete_pod-world :
      (obj : Notified) (s : AgentState k) → (delete_pod k env config obj s).world ≡ s.world
  unfolding delete_pod
  delete_pod-world obj s = elim (Option-cases (as_pod obj)) [
    | inl e ↦ rw (e, delete_pod) refl
    | inr (p, e) ↦ rw (e, delete_pod) refl
  ]

  delete_node-world :
      (obj : Notified) (s : AgentState k) → (delete_node k env config obj s).world ≡ s.world
  unfolding delete_node
  delete_node-world obj s = elim (Option-cases (as_node obj)) [
    | inl e ↦ rw (e, delete_node) refl
    | inr (p, e) ↦ rw (e, delete_node) refl
  ]

  delete_deployment-world :
      (obj : Notified) (s : AgentState k) → (delete_deployment k env config obj s).world ≡ s.world
  unfolding delete_deployment
  delete_deployment-world obj s = elim (Option-cases (as_deployment obj)) [
    | inl e ↦ rw (e, delete_deployment) refl
    | inr (p, e) ↦ rw (e, delete_deployment) refl
  ]

  stays : (w v : k.World) → v ≡ w → Creates k (IsAllowed k config) w v
  stays w v e = subst (λ u. Creates k (IsAllowed k config) w u) (sym e) nothing

  add_event-Creates :
      (obj : Notified) (s : AgentState k)
      → Creates k (IsAllowed k config) s.world (add_event k env config obj s).world
  unfolding add_event
  add_event-Creates obj s = elim (Option-cases (as_event obj)) [
    | inl e ↦ rw (e, add_event) nothing
    | inr (ev, e) ↦
        rw (e, add_event)
          (elim (Bool-cases (ev.involved_kind == "Pod")) [
            | inr q ↦ rw (q, add_event) nothing
            | inl q ↦
                rw (q, add_event)
                  (elim (Option-cases (env.get_pod ev.namespace ev.involved_name)) [
                    | inl g ↦ rw (g, add_event) nothing
                    | inr (p, g) ↦
                        rw (g, add_event) (diagnose_pod-Creates k env config (Notified.pod p) s)
                  ])
          ])
  ]

  pub notify-Creates :
      (n : Notification) (s : AgentState k)
      → Creates k (IsAllowed k config) s.world (notify k env config n s).world
  unfolding notify
  notify-Creates (pod_changed obj) s = diagnose_pod-Creates k env config obj s
  notify-Creates (node_changed obj) s = diagnose_node-Creates k env config obj s
  notify-Creates (deployment_changed obj) s = diagnose_deployment-Creates k env config obj s
  notify-Creates (pod_deleted obj) s = stays _ _ (delete_pod-world obj s)
  notify-Creates (node_deleted obj) s = stays _ _ (delete_node-world obj s)
  notify-Creates (deployment_deleted obj) s = stays _ _ (delete_deployment-world obj s)
  notify-Creates (event_added obj) s = add_event-Creates obj s

-- Whatever the informers hand to the agent, and whatever the caches hold at each notification, all it does
-- to the cluster is to create Actions, and each is a PodRestart of a Pod, made while the flag
-- auto_pod_restart is set, in a namespace that the policy does not exclude.
pub serve-Creates :
    (k : Kube) (config : Config) (ns : List (Env × Notification)) (s : AgentState k)
    → Creates k (IsAllowed k config) s.world (serve k config ns s).world
unfolding serve
serve-Creates k config [] s = nothing
serve-Creates k config ((env, n) ∷ ns) s =
    Creates-trans (notify-Creates k env config n s)
      (serve-Creates k config ns (notify k env config n s))
