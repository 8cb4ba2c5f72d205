-- ===== src/Platform.antt =====
-- The agent and the controller together: the handler of a pod in cmd/agent/main.go, and the reconciler
-- of controllers/action_controller.go with the executor of internal/action/pod_restart.go.
pub mod Reach
pub mod Observation
use k8s_ops_platform.Prelude.{
  ℕ, String, some, List, true, false, ◌+◌, ◌≤◌, ◌≡◌, inl, refl, ap, sym, ◌∙◌, subst, any,
}
use k8s_ops_platform.Api.{
  ObjectMeta, Action, ActionSpec, ActionStatus, TargetReference, pod_restart, empty_status,
  succeeded,
}
use k8s_ops_platform.Kube.{Kube}
use k8s_ops_platform.Kube.Objects.{Pod, Event}
use k8s_ops_platform.Diagnosis.Pods.Laws.Causes.{is_crash_looping}
use k8s_ops_platform.Diagnosis.Pods.Report.{statuses}
use k8s_ops_platform.Policy.{Config}
use k8s_ops_platform.Policy.Sink.{is_excluded}
use k8s_ops_platform.Agent.{Notified, Env, AgentState}
use k8s_ops_platform.Agent.Handlers.{diagnose_pod}
use k8s_ops_platform.Agent.Requests.{Asks, IsRestartOf, diagnose_pod-Asks}
use k8s_ops_platform.Controller.{State, Reconciler}
use k8s_ops_platform.Controller.Effects.{clock}
use k8s_ops_platform.Controller.Drive.{Succeeds, IsInTime}
use k8s_ops_platform.Controller.Outcomes.{checkpoint_of}
use k8s_ops_platform.Controller.Progress.{Plan}
use k8s_ops_platform.Controller.Progress.Bound.{drive-Succeeds}
use k8s_ops_platform.Manager.{pod_restart_executor}
use k8s_ops_platform.Manager.Restart.{
  IsRestartable, restart_plan, pod_restart_executor-IsProductive,
}

module _ (k : Kube) (r : Reconciler k)
    (known : r.executors pod_restart ≡ some (pod_restart_executor k)) (env : Env) (config : Config)
    (pod : Pod) (uid kind name : String) (IsReady IsReplaced : k.World → Type 0) where
  -- An Action that the agent asks for, as the API server has it, with its metadata.
  abbrev stored_as : ObjectMeta → Action → Action
  stored_as metadata a = record a { metadata = metadata }

  restart-Succeeds :
      (a : Action) (s : State k)
      → a.spec.action_type ≡ pod_restart
      → a.status ≡ empty_status
      → IsRestartable k (clock r) a uid kind name IsReady IsReplaced
      → IsInTime r a s
      → IsReady s.world
      → Succeeds r 5 a s
  restart-Succeeds a s type fresh able in_time ready =
      let plan : Plan k = restart_plan uid kind name IsReady IsReplaced in
      let begun : checkpoint_of a.status ≡ checkpoint_of empty_status = ap checkpoint_of fresh in
      subst (λ m. Succeeds r (4 + m) a s) (ap plan.ahead begun)
        (drive-Succeeds r (pod_restart_executor k) a plan
          (pod_restart_executor-IsProductive k (clock r) a uid kind name IsReady IsReplaced able)
          (ap r.executors type ∙ known) s in_time
          (subst (λ c. plan.Fits c s.world) (sym begun) (inl refl, ready))
          (ap (λ (t : ActionStatus). t.phase) fresh))

  -- A pod that crashes again and again, where the flag for pods is set and its namespace is not
  -- excluded. When the agent is told of the pod, it asks the API server for a PodRestart of this
  -- pod, and otherwise only for Actions that it may create. When the controller then gets the
  -- Action, with the metadata that the API server gave it, in a state in which the pod is there and can be
  -- deleted, and once it is, another pod of its controller is ready, the Action is Succeeded after at most
  -- five reconciliations, if each status that is sent is stored, and no reconciliation of this run finds
  -- the Action late.
  pub crash-Recovers :
      (events : List Event) (s : AgentState k) (metadata : ObjectMeta) (s' : State k)
      → config.auto_pod_restart ≡ true
      → is_excluded config pod.namespace ≡ false
      → env.list_events pod.namespace ≡ some events
      → any (λ c. is_crash_looping c c.waiting) (statuses pod) ≡ true
      → ((a : Action)
          → IsRestartOf k env config pod a
          → IsRestartable k (clock r) (stored_as metadata a) uid kind name IsReady IsReplaced
            × IsInTime r (stored_as metadata a) s')
      → IsReady s'.world
      → (a : Action) × IsRestartOf k env config pod a
        × Asks k env config a s.world (diagnose_pod k env config (Notified.pod pod) s).world
        × Succeeds r 5 (record a { metadata = metadata }) s'
  crash-Recovers events s metadata s' flag included listed crash able ready =
      let (a, of_pod, asks) =
        diagnose_pod-Asks k env config pod flag included events s listed crash in
      let (restartable, in_time) = able a of_pod in
      (
        a,
        of_pod,
        asks,
        restart-Succeeds (stored_as metadata a) s' of_pod.action_type of_pod.status restartable
            in_time ready,
      )
