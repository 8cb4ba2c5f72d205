-- ===== src/Samples/Restarts.antt =====
-- Pod restarts from the creation of the Action to its success, at a sample cluster with two pods.
use k8s_ops_platform.Prelude.{
  ap, sym, ◌∙◌, ◌&&◌, not, some, [], ◌∷◌, true, ◌≡◌, refl, arith, List, ◌==◌, inl, subst,
}
use k8s_ops_platform.Prelude.Int.{ℤ}
use k8s_ops_platform.Api.{TargetReference, Action, ActionStatus}
use k8s_ops_platform.Kube.{Kube}
use k8s_ops_platform.Kube.Errors.{Result, ok}
use k8s_ops_platform.Kube.Objects.{Pod}
use k8s_ops_platform.Controller.{State, Reconciler}
use k8s_ops_platform.Controller.Effects.{timeout_of}
use k8s_ops_platform.Controller.Calls.{
  Reads, gets_action, gets_pod, gets_node, gets_deployment, lists_pods_in, lists_pods_on,
  reads_clock, draws, stamps, StatusWrites, IsKept, stores, touches,
}
use k8s_ops_platform.Controller.Drive.{drive, IsInTime, Succeeds}
use k8s_ops_platform.Manager.{pod_restart_executor}
use k8s_ops_platform.Action.PodRestart
use k8s_ops_platform.Action.PodRestart.{record_owner, owned_by, pod_ready, replaced}
use k8s_ops_platform.Controller.Progress.Bound.{drive-Succeeds}
use k8s_ops_platform.Manager.Restart.{
  IsRestartable, restart_plan, pod_restart_executor-IsProductive,
}
use k8s_ops_platform.Samples.{Fault, find, remove, Cluster, sample, cluster, owner, pod_with}
use k8s_ops_platform.Samples.Controllers.{accepted, stopped_clock, never_late}

-- A cluster with the pod of an Action and another ready one of its controller.
abbrev first_pod : Pod
first_pod = pod_with "web-1" "u1" (owner ∷ [])

abbrev second_pod : Pod
second_pod = pod_with "web-2" "u2" (owner ∷ [])

-- A cluster whose clock stands still, and which deletes a pod by its name.
abbrev pub restartable : Kube
restartable = record sample { time_now = stopped_clock }

abbrev pub IsReady : Cluster → Type 0
IsReady c = c.pods ≡ first_pod ∷ second_pod ∷ []

abbrev pub IsReplaced : Cluster → Type 0
IsReplaced c = c.pods ≡ second_pod ∷ []

Reads-pods : (w v : Cluster) → Reads restartable stopped_clock w v → v.pods ≡ w.pods
Reads-pods _ _ (gets_action namespace name w) = refl
Reads-pods _ _ (gets_pod namespace name w) = refl
Reads-pods _ _ (gets_node name w) = refl
Reads-pods _ _ (gets_deployment namespace name w) = refl
Reads-pods _ _ (lists_pods_in namespace w) = refl
Reads-pods _ _ (lists_pods_on node w) = refl
Reads-pods _ _ (reads_clock w) = refl
Reads-pods _ _ (draws duration percent w) = refl
Reads-pods _ _ (stamps cs c w) = refl

update_status-pods : (a : Action) (w : Cluster) → (restartable.update_status a w).1.pods ≡ w.pods
update_status-pods a w = ground arith

StatusWrites-pods : (a : Action) (w v : Cluster) → StatusWrites restartable a w v → v.pods ≡ w.pods
StatusWrites-pods a _ _ (stores t w) = update_status-pods _ w
StatusWrites-pods a _ _ (touches never) = absurd never

has_pods-IsKept :
    (a : Action) (pods : List Pod)
    → IsKept restartable stopped_clock (StatusWrites restartable a) (λ (c : Cluster). c.pods ≡ pods)
has_pods-IsKept a pods = record {
  by_read = λ w v p h. Reads-pods w v p ∙ h;
  by_write = λ w v p h. StatusWrites-pods a w v p ∙ h;
}

second_ready : replaced (second_pod ∷ []) "u1" "ReplicaSet" "web" ≡ true
unfolding replaced owned_by pod_ready PodRestart.ready_condition
second_ready = refl

owned :
    (s : ActionStatus)
    → record_owner (owner ∷ []) s ≡ record s { workload_kind = "ReplicaSet"; workload_name = "web" }
unfolding record_owner
owned s = refl

abbrev find_first : List Pod → Result Fault Pod
find_first = find (λ p. p.namespace == "shop" && p.name == "web-1")

abbrev without_first : List Pod → List Pod
without_first = remove (λ p. p.namespace == "shop" && p.name == "web-1")

abbrev in_shop : List Pod → Result Fault (List Pod)
in_shop ps = ok (remove (λ p. not (p.namespace == "shop")) ps)

-- An Action whose target is the first pod.
pub web-IsRestartable :
    (a : Action)
    → a.spec.target ≡ record { kind = "Pod"; namespace = "shop"; name = "web-1" }
    → IsRestartable restartable stopped_clock a "u1" "ReplicaSet" "web" IsReady IsReplaced
web-IsRestartable a target = record {
  ready_kept = has_pods-IsKept a _;
  replaced_kept = has_pods-IsKept a _;
  identified = refl;
  named = refl;
  found = λ w ready. (
    first_pod,
    subst (λ (x : TargetReference). (restartable.get_pod x.namespace x.name w).0 ≡ ok first_pod)
        (sym target) (ap find_first ready),
    refl,
    owned,
    λ v ready'. (refl, ap without_first ready'),
  );
  recovers = λ w back. (
    second_pod ∷ [],
    subst
        (λ (x : TargetReference). (restartable.list_pods_in x.namespace w).0 ≡ ok (second_pod ∷ []))
        (sym target) (ap in_shop back),
    second_ready,
  );
}

abbrev pub restarts : Reconciler restartable
restarts = record {
  executors = λ type. some (pod_restart_executor restartable);
  now = some stopped_clock;
  max_retries = ℤ.pos 0;
}

abbrev pub restart_state : State restartable
restart_state = record {
  world = record cluster { pods = first_pod ∷ second_pod ∷ [] };
  updates = [];
  audits = [];
  calls = [];
}

pub restarts-IsInTime : (a : Action) → IsInTime restarts a restart_state
restarts-IsInTime a n =
    let (b, s) = drive restarts n a restart_state in
    never_late (timeout_of b.spec.timeout_seconds) b.status.started_at s.world

drive-Succeeds_example : Succeeds restarts 5 accepted restart_state
drive-Succeeds_example =
    drive-Succeeds restarts (pod_restart_executor restartable) accepted
      (restart_plan "u1" "ReplicaSet" "web" IsReady IsReplaced)
      (pod_restart_executor-IsProductive restartable stopped_clock accepted "u1" "ReplicaSet" "web"
        IsReady IsReplaced (web-IsRestartable accepted refl))
      refl restart_state (restarts-IsInTime accepted) (inl refl, refl) refl
