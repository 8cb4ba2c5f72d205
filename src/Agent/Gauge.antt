-- ===== src/Agent/Gauge.antt =====
-- What the agent's gauge shows after a history of notifications.
use k8s_ops_platform.Prelude.{
  String, Option, none, some, List, [], ◌∷◌, ◌%◌, ◌≡◌, ◌⊎◌, ◌∙◌, refl, inl, inr, ap, sym, ◌==◌,
  if◌then◌else◌, Bool-cases, Option-cases, subst,
}
use k8s_ops_platform.Kube.{Kube}
use k8s_ops_platform.Kube.Objects.{Pod}
use k8s_ops_platform.Diagnosis.{DiagnosisResult, handle_all}
use k8s_ops_platform.Diagnosis.Pods as PodDetector
use k8s_ops_platform.Diagnosis.Nodes as NodeDetector
use k8s_ops_platform.Diagnosis.Deployments as DeploymentDetector
use k8s_ops_platform.Metrics.{Label, DiagnosisTracker, new_diagnosis_tracker, int_mod}
use k8s_ops_platform.Metrics.Gauge.{Observation, observe, observe_all, gauge}
use k8s_ops_platform.Metrics.History.{current, gauge-eq-current}
use k8s_ops_platform.Policy.{Config}
use k8s_ops_platform.Agent.{Notified, as_pod, as_node, as_deployment, as_event, Env, AgentState}
use k8s_ops_platform.Agent.Handlers.{
  sink_results, take_results, diagnose_pod, diagnose_node, diagnose_deployment, delete_pod,
  delete_node, delete_deployment, add_event, Notification, pod_changed, node_changed,
  deployment_changed, pod_deleted, node_deleted, deployment_deleted, event_added, notify, serve,
}

-- What an object contributes, if it is there and what is needed to diagnose it as well.
abbrev of_option : {A : Type 0} → Option A → (A → Option Observation) → Option Observation
of_option none f = none
of_option (some a) f = f a

abbrev seeing : String → String → String → List DiagnosisResult → Option Observation
seeing kind namespace name results =
    some (record { kind = kind; namespace = namespace; name = name; results = results })

abbrev cons_some : Option Observation → List Observation → List Observation
cons_some none os = os
cons_some (some o) os = o ∷ os

module _ (env : Env) where
  abbrev pod_seen : Pod → Option Observation
  pod_seen p =
      of_option (env.list_events p.namespace)
        (λ events. seeing "Pod" p.namespace p.name (PodDetector.diagnose env.now p events))

  -- The observation that a notification stands for: a present object with what its detector finds, a
  -- deleted one with nothing, and the pod of an event.
  abbrev pub seen : Notification → Option Observation
  seen (pod_changed obj) = of_option (as_pod obj) pod_seen
  seen (node_changed obj) =
      of_option (as_node obj) (λ n. seeing "Node" "" n.name (NodeDetector.diagnose env.now n))
  seen (deployment_changed obj) =
      of_option (as_deployment obj)
        (λ d. seeing "Deployment" d.namespace d.name (DeploymentDetector.diagnose (env.now 0) d))
  seen (pod_deleted obj) = of_option (as_pod obj) (λ p. seeing "Pod" p.namespace p.name [])
  seen (node_deleted obj) = of_option (as_node obj) (λ n. seeing "Node" "" n.name [])
  seen (deployment_deleted obj) =
      of_option (as_deployment obj) (λ d. seeing "Deployment" d.namespace d.name [])
  seen (event_added obj) = of_option (as_event obj) (λ e.
      if e.involved_kind == "Pod"
      then of_option (env.get_pod e.namespace e.involved_name) pod_seen
      else none)

-- The observations of a history, each with the caches of its time.
abbrev pub seen_all : List (Env × Notification) → List Observation
seen_all [] = []
seen_all ((env, n) ∷ ns) = cons_some (seen env n) (seen_all ns)

abbrev observe_if_any : Option Observation → DiagnosisTracker → DiagnosisTracker
observe_if_any none t = t
observe_if_any (some o) t = observe o t

observe_all-cons_some :
    (o : Option Observation) (os : List Observation) (t : DiagnosisTracker)
    → observe_all os (observe_if_any o t) ≡ observe_all (cons_some o os) t
unfolding observe_all
observe_all-cons_some none os t = refl
observe_all-cons_some (some o) os t = refl

module _ (k : Kube) (env : Env) (config : Config) where
  sink_results-tracker :
      (rs : List DiagnosisResult) (s : AgentState k)
      → (sink_results k env config rs s).tracker ≡ s.tracker
  unfolding sink_results handle_all
  sink_results-tracker [] s = refl
  sink_results-tracker (r ∷ rs) s = sink_results-tracker rs _

  diagnose_pod-tracker :
      (obj : Notified) (s : AgentState k)
      → (diagnose_pod k env config obj s).tracker
        ≡ observe_if_any (of_option (as_pod obj) (pod_seen env)) s.tracker
  unfolding diagnose_pod take_results
  diagnose_pod-tracker obj s = elim (Option-cases (as_pod obj)) [
    | inl e ↦ rw (e, diagnose_pod) refl
    | inr (p, e) ↦
        rw (e, diagnose_pod)
          (elim (Option-cases (env.list_events p.namespace)) [
            | inl e' ↦ rw (e', diagnose_pod) refl
            | inr (events, e') ↦ rw (e', diagnose_pod) (sink_results-tracker _ _)
          ])
  ]

  add_event-tracker :
      (obj : Notified) (s : AgentState k)
      → (add_event k env config obj s).tracker
        ≡ observe_if_any (seen env (event_added obj)) s.tracker
  unfolding add_event as_pod
  add_event-tracker obj s = elim (Option-cases (as_event obj)) [
    | inl e ↦ rw (e, add_event) refl
    | inr (ev, e) ↦
        rw (e, add_event)
          (elim (Bool-cases (ev.involved_kind == "Pod")) [
            | inr other ↦ rw (other, add_event) refl
            | inl of_pod ↦
                rw (of_pod, add_event)
                  (elim (Option-cases (env.get_pod ev.namespace ev.involved_name)) [
                    | inl gone ↦ rw (gone, add_event) refl
                    | inr (p, there) ↦
                        rw (there, add_event) (diagnose_pod-tracker (Notified.pod p) s)
                  ])
          ])
  ]

  notify-tracker :
      (n : Notification) (s : AgentState k)
      → (notify k env config n s).tracker ≡ observe_if_any (seen env n) s.tracker
  unfolding notify diagnose_node diagnose_deployment delete_pod delete_node delete_deployment
      take_results
  notify-tracker (pod_changed obj) s = diagnose_pod-tracker obj s
  notify-tracker (node_changed obj) s = elim (Option-cases (as_node obj)) [
    | inl e ↦ rw (e, diagnose_node) refl
    | inr (x, e) ↦ rw (e, diagnose_node) (sink_results-tracker _ _)
  ]
  notify-tracker (deployment_changed obj) s = elim (Option-cases (as_deployment obj)) [
    | inl e ↦ rw (e, diagnose_deployment) refl
    | inr (x, e) ↦ rw (e, diagnose_deployment) (sink_results-tracker _ _)
  ]
  notify-tracker (pod_deleted obj) s = elim (Option-cases (as_pod obj)) [
    | inl e ↦ rw (e, delete_pod) refl
    | inr (x, e) ↦ rw (e, delete_pod) refl
  ]
  notify-tracker (node_deleted obj) s = elim (Option-cases (as_node obj)) [
    | inl e ↦ rw (e, delete_node) refl
    | inr (x, e) ↦ rw (e, delete_node) refl
  ]
  notify-tracker (deployment_deleted obj) s = elim (Option-cases (as_deployment obj)) [
    | inl e ↦ rw (e, delete_deployment) refl
    | inr (x, e) ↦ rw (e, delete_deployment) refl
  ]
  notify-tracker (event_added obj) s = add_event-tracker obj s

module _ (k : Kube) (config : Config) where
  serve-tracker :
      (ns : List (Env × Notification)) (s : AgentState k)
      → (serve k config ns s).tracker ≡ observe_all (seen_all ns) s.tracker
  unfolding serve observe_all
  serve-tracker [] s = refl
  serve-tracker ((env, n) ∷ ns) s =
      serve-tracker ns (notify k env config n s)
      ∙ (ap (observe_all (seen_all ns)) (notify-tracker k env config n s)
          ∙ observe_all-cons_some (seen env n) (seen_all ns) s.tracker)

  -- After any history of notifications, each handled with the caches of its time, from an empty tracker, the gauge of a label shows how many
  -- diagnoses with that label the resources have by their last notification, modulo 2 ^ 64: what the
  -- detector finds for one that is present, and nothing for a deleted one. A notification that the
  -- handlers drop does not count. Where the gauge was never set, that number is 0 modulo 2 ^ 64.
  pub serve-gauge :
      (ns : List (Env × Notification)) (s : AgentState k)
      → s.tracker ≡ new_diagnosis_tracker
      → (l : Label)
      → let calls = (serve k config ns s).tracker.calls in
        let expected = current l (seen_all ns) % int_mod in
        (gauge l calls ≡ some expected) ⊎ ((gauge l calls ≡ none) × (expected ≡ 0))
  serve-gauge ns s empty l =
      let told = serve-tracker ns s ∙ ap (observe_all (seen_all ns)) empty in
      subst
        (λ t.
          let expected = current l (seen_all ns) % int_mod in
          (gauge l t.calls ≡ some expected) ⊎ ((gauge l t.calls ≡ none) × (expected ≡ 0)))
        (sym told) (gauge-eq-current (seen_all ns) l)
