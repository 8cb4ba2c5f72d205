-- ===== src/Agent/Requests.antt =====
-- The Action that the agent asks for when a pod crashes again and again.
use k8s_ops_platform.Prelude.{
  differs_of_test, Option, some, List, [], ◌∷◌, true, false, ◌≡◌, inl, inr, refl, ap, sym, ◌∙◌,
  subst, arith, ◌==◌, eq_iff, any, All, Bool-cases,
}
use k8s_ops_platform.Api.{Action, pod_restart, empty_status}
use k8s_ops_platform.Kube.{Kube, Err}
use k8s_ops_platform.Kube.Objects.{Pod, Event}
use k8s_ops_platform.Diagnosis.{DiagnosisResult, handle_all}
use k8s_ops_platform.Diagnosis.Pods as PodDetector
use k8s_ops_platform.Diagnosis.Pods.{has}
use k8s_ops_platform.Diagnosis.Pods.Laws.{reasons}
use k8s_ops_platform.Diagnosis.Pods.Laws.Causes.{is_crash_looping}
use k8s_ops_platform.Diagnosis.Pods.Report.{statuses, diagnose-has}
use k8s_ops_platform.Diagnosis.Pods.Suggestions.{IsOnPod, diagnose-All}
use k8s_ops_platform.Policy.{Config, should_auto_create, timeout_or_default, new_action}
use k8s_ops_platform.Policy.Sink.{is_excluded, create_if_no_active, handle}
use k8s_ops_platform.Policy.Laws.{is_held, handle-free, handle_cases}
use k8s_ops_platform.Agent.{Notified, as_pod, Env, AgentState}
use k8s_ops_platform.Agent.Handlers.{policy_sink, sink_results, take_results, diagnose_pod}
use k8s_ops_platform.Agent.Laws.{
  Creates, nothing, create, IsAllowed, new_action-IsAllowed, sink_results-Creates, All-IsKnown_pod,
}

module _ (k : Kube) (env : Env) (config : Config) where
  -- On the way from one world to another the API server is asked for this Action, and for nothing but
  -- Actions that the agent may create.
  pub record Asks (a : Action) (w v : k.World) : Type 0 where
    pub at : k.World
    pub before : Creates k (IsAllowed k config) w at
    pub after : Creates k (IsAllowed k config) (k.create_action a at).1 v

  -- The restart of a pod, as a report asks for it.
  pub record IsRestartOf (pod : Pod) (a : Action) : Type 0 where
    pub action_type : a.spec.action_type ≡ pod_restart
    pub target : a.spec.target ≡ record { kind = "Pod"; namespace = pod.namespace; name = pod.name }
    pub reason : a.spec.reason ≡ "CrashLoopBackOff"
    pub timeout :
        a.spec.timeout_seconds ≡ timeout_or_default env.sha256 config.action_timeout_seconds
    pub status : a.status ≡ empty_status

  module _ (pod : Pod) (flag : config.auto_pod_restart ≡ true)
      (included : is_excluded config pod.namespace ≡ false) where
    -- The report of a crash loop.
    abbrev IsCrash : DiagnosisResult → Type 0
    IsCrash r = IsOnPod pod r × (r.reason ≡ "CrashLoopBackOff")

    crash_action : (r : DiagnosisResult) → IsCrash r → r.suggested_action ≡ pod_restart
    crash_action r ((kind, namespace, name, inl (why, e)), crash) = e
    crash_action r ((kind, namespace, name, inr (inl pull, e)), crash) =
        absurd (differs_of_test "ImagePullBackOff" "CrashLoopBackOff" refl (sym pull ∙ crash))
    crash_action r ((kind, namespace, name, inr (inr sched, e)), crash) =
        absurd (differs_of_test "FailedScheduling" "CrashLoopBackOff" refl (sym sched ∙ crash))

    crash-IsRestartOf :
        (r : DiagnosisResult)
        → IsCrash r
        → IsRestartOf pod (new_action env.sha256 config r r.suggested_action)
    unfolding new_action
    crash-IsRestartOf r ((kind, namespace, name, advice), crash) = record {
      action_type = crash_action r ((kind, namespace, name, advice), crash);
      target = rw (kind, namespace, name) refl;
      timeout = refl;
      reason = crash;
      status = refl;
    }

    crash-free :
        (r : DiagnosisResult)
        → r.namespace ≡ pod.namespace
        → r.suggested_action ≡ pod_restart
        → is_held config r ≡ false
    unfolding should_auto_create
    crash-free r e action = rw (e, action, included, flag) refl

    crash-handled :
        (r : DiagnosisResult) (w : k.World)
        → IsCrash r
        → (handle k env.sha256 config r w).1
          ≡ (k.create_action (new_action env.sha256 config r r.suggested_action) w).1
    unfolding create_if_no_active
    crash-handled r w crash =
        ap (λ m. (m w).1)
          (handle-free k env.sha256 config r (crash-free r (crash.0.1) (crash_action r crash)))

    asked :
        (r : DiagnosisResult) (rs : List DiagnosisResult) (s : AgentState k)
        → All (IsOnPod pod) (r ∷ rs)
        → r.reason ≡ "CrashLoopBackOff"
        → Asks
            (new_action env.sha256 config r r.suggested_action)
            s.world
            (sink_results k env config (r ∷ rs) s).world
    unfolding sink_results handle_all
    asked r rs s (h, hs) crash = record {
      at = s.world;
      before = nothing;
      after =
          subst
            (λ w.
              Creates k (IsAllowed k config) w
                (sink_results k env config rs (policy_sink k env config r s)).world)
            (crash-handled r s.world (h, crash))
            (sink_results-Creates k env config rs (policy_sink k env config r s)
              (All-IsKnown_pod k env config pod rs hs));
    }

    -- One Action among those that the reports lead to.
    Asks-later :
        (r : DiagnosisResult) (a : Action) (w v : k.World)
        → IsOnPod pod r
        → Asks a (handle k env.sha256 config r w).1 v
        → Asks a w v
    Asks-later r a w v h asks =
        let from = λ (u : k.World). Creates k (IsAllowed k config) u asks.at in
        elim (handle_cases k env.sha256 config r w) [
          | inl quiet ↦ record {
            at = asks.at;
            before = subst from (ap (λ (x : Option (Err k) × k.World). x.1) quiet) asks.before;
            after = asks.after;
          }
          | inr (free, auto, e) ↦
              let known = (All-IsKnown_pod k env config pod (r ∷ []) (h, tt)).0 in
              record {
                at = asks.at;
                before =
                    create _ (new_action-IsAllowed k env config r known free auto)
                      (subst from e asks.before);
                after = asks.after;
              }
        ]

    sink_results-Asks :
        (rs : List DiagnosisResult) (s : AgentState k)
        → All (IsOnPod pod) rs
        → has "CrashLoopBackOff" (reasons rs) ≡ true
        → (a : Action) × IsRestartOf pod a × Asks a s.world (sink_results k env config rs s).world
    unfolding sink_results handle_all
    sink_results-Asks [] s h crash = absurd (cc crash)
    sink_results-Asks (r ∷ rs) s (h, hs) crash =
        elim (Bool-cases (r.reason == "CrashLoopBackOff")) [
          | inl here ↦
              let why = (eq_iff r.reason "CrashLoopBackOff").0 here in
              (_, crash-IsRestartOf r (h, why), asked r rs s (h, hs) why)
          | inr other ↦
              let (a, of_pod, asks) =
                sink_results-Asks rs (policy_sink k env config r s) hs
                  (ground (arith, other, crash)) in
              (a, of_pod, Asks-later r a s.world _ h asks)
        ]

    -- The handler of a pod with a container that has crashed and is held back from its next start.
    pub diagnose_pod-Asks :
        (events : List Event) (s : AgentState k)
        → env.list_events pod.namespace ≡ some events
        → any (λ c. is_crash_looping c c.waiting) (statuses pod) ≡ true
        → (a : Action) × IsRestartOf pod a
          × Asks a s.world (diagnose_pod k env config (Notified.pod pod) s).world
    unfolding diagnose_pod take_results as_pod
    diagnose_pod-Asks events s listed crash =
        rw (listed, diagnose_pod)
          (sink_results-Asks (PodDetector.diagnose env.now pod events) _
            (diagnose-All env.now pod events) ((diagnose-has env.now pod events).0 ∙ crash))
