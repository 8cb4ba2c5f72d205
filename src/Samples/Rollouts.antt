-- ===== src/Samples/Rollouts.antt =====
-- The verification of a deployment restart, at the sample cluster.
use k8s_ops_platform.Prelude.{
  some, none, [], ◌≡◌, ◌⊎◌, ◌*◌, false, refl, String, ◌∷◌, true, ◌==◌, ◌&&◌, ap, sym, ◌∙◌, arith,
  eq_iff,
}
use k8s_ops_platform.Api.{Action, deployment_restart, verifying, succeeded, empty_status}
use k8s_ops_platform.Kube.Errors.{ok, err, api}
use k8s_ops_platform.Kube.Objects.{Deployment}
use k8s_ops_platform.Controller.{State}
use k8s_ops_platform.Controller.Effects.{second, timed_out_since, retry_or_fail}
use k8s_ops_platform.Controller.Reconcile.{reconcile_action}
use k8s_ops_platform.Controller.Steps.{Sends}
use k8s_ops_platform.Manager.{executors, reconciler}
use k8s_ops_platform.Manager.Rollout.{
  IsRolledOut, read_deployment, after_read, reconcile_action-rollout,
}
use k8s_ops_platform.Samples.{sample, action_at, find, Cluster, cluster}
use k8s_ops_platform.Prelude.Dict.{lookup, get_or_empty}
use k8s_ops_platform.Action.DeploymentRestart.{restart_annotation, annotate}
use k8s_ops_platform.Action.DeploymentRestart.Laws.{annotate-marked}
use k8s_ops_platform.Controller.Calls.{
  StatusWrites, Reads, gets_action, gets_pod, gets_node, gets_deployment, lists_pods_in,
  lists_pods_on, reads_clock, draws, stamps, Calls, stores, touches,
}
use k8s_ops_platform.Manager.Confinement.Once.{HasSeen, reconciles, reconciles-once}
use k8s_ops_platform.Samples.Actions.{web, patched_cluster}

abbrev checked : Action
checked =
    action_at deployment_restart "web"
      (record empty_status { phase = verifying; started_at = some 4000000000 })

abbrev rollout_state : State sample
rollout_state = record { world = patched_cluster; updates = []; audits = []; calls = [] }

reconcile_action-rollout_example :
    let r = reconciler sample in
    let out = reconcile_action r checked rollout_state in
    let read = read_deployment r checked rollout_state in
    let s' = after_read r checked rollout_state in
    ((e : sample.ApiError) × (read.0 ≡ err e) × (out ≡ retry_or_fail r checked (api e) s'))
    ⊎ ((d : Deployment) × (read.0 ≡ ok d)
        × ((IsRolledOut "a1" d × Sends (λ t. t.phase ≡ succeeded) [] out.1.updates)
            ⊎ ((¬ IsRolledOut "a1" d)
                × (out ≡ ((record { requeue = false; requeue_after = 2 * second }, none), s')))))
unfolding executors timed_out_since
reconcile_action-rollout_example =
    reconcile_action-rollout (reconciler sample) checked rollout_state refl refl refl

-- The Deployment that the sample finds for the Action has its mark.
abbrev IsMarked : Cluster → Type 0
IsMarked c =
    (d : Deployment)
    → (sample.get_deployment "shop" "web" c).0 ≡ ok d
    → get_or_empty (lookup restart_annotation d.template_annotations) ≡ "a1"

-- Reads leave the Actions and the Deployments as they are.
pub Reads-same :
    (w v : Cluster)
    → Reads sample sample.time_now w v
    → (v.actions ≡ w.actions) × (v.deployments ≡ w.deployments)
Reads-same _ _ (gets_action namespace name w) = (refl, refl)
Reads-same _ _ (gets_pod namespace name w) = (refl, refl)
Reads-same _ _ (gets_node name w) = (refl, refl)
Reads-same _ _ (gets_deployment namespace name w) = (refl, refl)
Reads-same _ _ (lists_pods_in namespace w) = (refl, refl)
Reads-same _ _ (lists_pods_on node w) = (refl, refl)
Reads-same _ _ (reads_clock w) = (refl, refl)
Reads-same _ _ (draws duration percent w) = (refl, refl)
Reads-same _ _ (stamps cs c w) = (refl, refl)

update_status-deployments :
    (a : Action) (w : Cluster) → (sample.update_status a w).1.deployments ≡ w.deployments
update_status-deployments a w = ground arith

StatusWrites-deployments :
    (w v : Cluster) → StatusWrites sample checked w v → v.deployments ≡ w.deployments
StatusWrites-deployments _ _ (stores t w) = update_status-deployments _ w
StatusWrites-deployments _ _ (touches never) = absurd never

same-IsMarked : (w v : Cluster) → v.deployments ≡ w.deployments → IsMarked w → IsMarked v
same-IsMarked w v e marked d found =
    marked d (ap (find (λ b. b.namespace == "shop" && b.name == "web")) (sym e) ∙ found)

patch_deployment-IsMarked :
    (d : Deployment) (time : String) (w : Cluster)
    → d.namespace ≡ "shop"
    → d.name ≡ "web"
    → IsMarked (sample.patch_deployment (annotate "a1" time d) d w).1
unfolding annotate
patch_deployment-IsMarked d time w in_namespace of_name d' found =
    let here : (d.namespace == "shop" && d.name == "web") ≡ true =
      ground (arith, eq_iff d.namespace "shop", eq_iff d.name "web") in
    let same : d' ≡ annotate "a1" time d = ground (arith, here, found) in
    ap (λ (x : Deployment). get_or_empty (lookup restart_annotation x.template_annotations)) same
    ∙ annotate-marked "a1" time d

abbrev checked-HasSeen : HasSeen sample checked IsMarked
checked-HasSeen = record {
  found = λ w d marked found. marked d found;
  kept = record {
    by_read = λ w v p. same-IsMarked w v (Reads-same w v p).1;
    by_write = λ w v p. same-IsMarked w v (StatusWrites-deployments w v p);
  };
}

-- The cluster after the patch of a restart.
abbrev restarting : Cluster
restarting =
    (sample.patch_deployment (annotate "a1" "time" web) web
      (record cluster { deployments = web ∷ [] })).1

-- The controller first sees the Action as it was before it started, and then as it is.
reconciles-once_example :
    let s = record rollout_state { world = restarting } in
    Calls sample sample.time_now
      (StatusWrites sample checked)
      restarting
      (reconciles sample checked (empty_status ∷ checked.status ∷ []) s).world
reconciles-once_example =
    reconciles-once sample checked IsMarked checked-HasSeen refl
      (empty_status ∷ checked.status ∷ []) (record rollout_state { world = restarting })
      (patch_deployment-IsMarked web "time" (record cluster { deployments = web ∷ [] }) refl refl)
