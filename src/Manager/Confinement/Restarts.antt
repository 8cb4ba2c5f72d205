-- ===== src/Manager/Confinement/Restarts.antt =====
-- The executors of pod_restart.go and deployment_restart.go keep to the writes of their types.
use k8s_ops_platform.Prelude.{◌≡◌, ◌≢◌, ◌⊎◌, inl, inr, refl, ◌==◌, eq_iff, arith, Bool-cases}
use k8s_ops_platform.Prelude.Dict.{lookup, get_or_empty}
use k8s_ops_platform.Api.{Action, pod_restart, deployment_restart}
use k8s_ops_platform.Kube.{Kube}
use k8s_ops_platform.Kube.Errors.{Result-cases}
use k8s_ops_platform.Action.PodRestart
use k8s_ops_platform.Action.DeploymentRestart
use k8s_ops_platform.Action.DeploymentRestart.{restart_annotation, annotate}
use k8s_ops_platform.Action.PodRestart.Targets.{execute-only_target}
use k8s_ops_platform.Controller.Calls.{
  gets_pod, gets_deployment, lists_pods_in, reads_clock, stop, read, write,
}
use k8s_ops_platform.Controller.Calls.Phases.{IsConfined}
use k8s_ops_platform.Manager.{pod_restart_executor, deployment_restart_executor}
use k8s_ops_platform.Manager.Confinement.{Touches, deletes, annotates, Within, at}

module _ (k : Kube) where
  prepare-world :
      (a : Action) (w : k.World)
      → ((PodRestart.prepare k a w).1 ≡ w)
        ⊎ ((PodRestart.prepare k a w).1
            ≡ (k.get_pod a.spec.target.namespace a.spec.target.name w).1)
  unfolding PodRestart.prepare
  prepare-world a w = elim (Bool-cases (a.status.target_uid == "")) [
    | inr set ↦ inl (ground arith)
    | inl unset ↦ elim (Result-cases (k.get_pod a.spec.target.namespace a.spec.target.name w).0) [
      | inl (e, q) ↦ inr (ground arith)
      | inr (pod, q) ↦ inr (ground arith)
    ]
  ]

  pod_prepare-Within :
      (a : Action) (w : k.World) → Within k pod_restart a w (PodRestart.prepare k a w).1
  pod_prepare-Within a w = elim (prepare-world a w) [
    | inl same ↦ at k same stop
    | inr got ↦ at k got (read (gets_pod _ _ w) stop)
  ]

  pod_execute-Within :
      (a : Action) (w : k.World) → Within k pod_restart a w (PodRestart.execute k a w).1
  pod_execute-Within a w = elim (execute-only_target k a w) [
    | inl looked ↦ at k looked (read (gets_pod _ _ w) stop)
    | inr (pod, found, same, deleted) ↦
        at k deleted (read (gets_pod _ _ w) (write (deletes w pod refl found same _) stop))
  ]

  pod_verify-world :
      (a : Action) (w : k.World)
      → (PodRestart.verify k a w).1 ≡ (k.list_pods_in a.spec.target.namespace w).1
  unfolding PodRestart.verify
  pod_verify-world a w = elim (Result-cases (k.list_pods_in a.spec.target.namespace w).0) [
    | inl (e, q) ↦ ground arith
    | inr (pods, q) ↦ ground arith
  ]

  pub pod_restart-IsConfined :
      (a : Action)
      → IsConfined k.time_now (Touches k pod_restart a) (λ _. Unit) (pod_restart_executor k) a
  pod_restart-IsConfined a = record {
    prepares = λ w _. pod_prepare-Within a w;
    executes = λ w _. pod_execute-Within a w;
    verifies = λ w _. at k (pod_verify-world a w) (read (lists_pods_in _ w) stop);
  }

  deployment_execute-Within :
      (a : Action) (w : k.World)
      → Within k deployment_restart a w (DeploymentRestart.execute k a w).1
  unfolding DeploymentRestart.execute
  deployment_execute-Within a w =
      let found = k.get_deployment a.spec.target.namespace a.spec.target.name w in
      elim (Result-cases found.0) [
        | inl (e, q) ↦ at k {u = found.1} (ground arith) (read (gets_deployment _ _ w) stop)
        | inr (d, q) ↦
            let mark = get_or_empty (lookup restart_annotation d.template_annotations) in
            elim (Bool-cases (mark == a.metadata.uid)) [
              | inl marked ↦ at k {u = found.1} (ground arith) (read (gets_deployment _ _ w) stop)
              | inr unmarked ↦
                  let time = k.format_rfc3339 (k.time_now found.1).0 in
                  let differs : mark ≢ a.metadata.uid =
                    λ e. ground (arith, eq_iff mark a.metadata.uid) in
                  at k
                    {u = (k.patch_deployment (annotate a.metadata.uid time d) d
                      (k.time_now found.1).1).1}
                    (ground arith)
                    (read (gets_deployment _ _ w)
                      (read (reads_clock _) (write (annotates w d time refl q differs _) stop)))
            ]
      ]

  pub deployment_verify-world :
      (a : Action) (w : k.World)
      → (DeploymentRestart.verify k a w).1
        ≡ (k.get_deployment a.spec.target.namespace a.spec.target.name w).1
  unfolding DeploymentRestart.verify
  deployment_verify-world a w =
      elim (Result-cases (k.get_deployment a.spec.target.namespace a.spec.target.name w).0) [
        | inl (e, q) ↦ ground arith
        | inr (d, q) ↦ ground arith
      ]

  pub deployment_restart-IsConfined :
      (a : Action)
      → IsConfined k.time_now
          (Touches k deployment_restart a)
          (λ _. Unit)
          (deployment_restart_executor k)
          a
  deployment_restart-IsConfined a = record {
    prepares = tt;
    executes = λ w _. deployment_execute-Within a w;
    verifies = λ w _. at k (deployment_verify-world a w) (read (gets_deployment _ _ w) stop);
  }
