-- ===== src/Action/PodRestart/Laws.antt =====
-- What the executor of pod_restart.go does.
use k8s_ops_platform.Prelude.{List, [], ◌∷◌, ◌≡◌, refl, arith}
use k8s_ops_platform.Api.{ActionStatus}
use k8s_ops_platform.Kube.{Kube}
use k8s_ops_platform.Kube.Objects.{OwnerReference, Pod}
use k8s_ops_platform.Action.Contract.{progress, Keeps}
use k8s_ops_platform.Action.PodRestart.{record_owner, prepare_pod, prepare, execute}

record_owner-progress :
    (os : List OwnerReference) (s : ActionStatus) → progress (record_owner os s) ≡ progress s
unfolding record_owner
record_owner-progress [] s = refl
record_owner-progress (o ∷ os) s = ground (arith, record_owner-progress os s)

module _ (k : Kube) where
  prepare_pod-progress :
      (pod : Pod) (s : ActionStatus) → progress (prepare_pod k pod s).1 ≡ progress s
  unfolding prepare_pod
  prepare_pod-progress pod s =
      ground (arith, record_owner-progress pod.owner_references (record s { target_uid = pod.uid }))

  pub prepare-Keeps : Keeps (prepare k)
  unfolding prepare
  prepare-Keeps a w = grind (arith, prepare_pod-progress)

  pub execute-Keeps : Keeps (execute k)
  unfolding execute
  execute-Keeps a w = ground arith
