-- ===== src/Samples/Actions.antt =====
-- The theorems about the executors, at the sample cluster.
use k8s_ops_platform.Prelude.{none, some, List, [], ◌∷◌, true, false, ◌≡◌, ◌≢◌, ◌⊎◌, refl, any}
use k8s_ops_platform.Prelude.Int.{ℤ}
use k8s_ops_platform.Api.{
  ActionStatus, Action, pod_restart, deployment_restart, running, empty_status,
}
use k8s_ops_platform.Kube.Errors.{ok, err, api}
use k8s_ops_platform.Kube.Objects.{Pod, Node, Deployment}
use k8s_ops_platform.Action.PodRestart as PodRestart
use k8s_ops_platform.Action.PodRestart.Targets.{is_replacement, verify-any, prepare-bare_pod}
use k8s_ops_platform.Action.DeploymentRestart as DeploymentRestart
use k8s_ops_platform.Action.NodeMaintenance.{checkpoint}
use k8s_ops_platform.Action.NodeMaintenance.Checkpoints.{Move, checkpoint-Move}
use k8s_ops_platform.Controller.{State}
use k8s_ops_platform.Samples.{Cluster, sample, owner, pod_with, cluster, action_at}

-- The restart of web-1, once Prepare has recorded its UID and its controller.
abbrev restarting : Action
restarting = action_at pod_restart "web-1" (record empty_status {
  phase = running;
  target_uid = "u1";
  workload_kind = "ReplicaSet";
  workload_name = "web";
})

verify-any_example :
    let found = sample.list_pods_in "shop" cluster in
    ((e : sample.ApiError) × (found.0 ≡ err e)
      × ((PodRestart.verify sample restarting cluster).0 ≡ err (api e)))
    ⊎ ((pods : List Pod) × (found.0 ≡ ok pods)
        × ((PodRestart.verify sample restarting cluster).0
            ≡ ok (any (is_replacement restarting.status) pods)))
verify-any_example = verify-any sample restarting cluster

-- A pod that no controller owns.
abbrev bare_pod : Pod
bare_pod = pod_with "job" "u3" []

abbrev bare_cluster : Cluster
bare_cluster = record cluster { pods = bare_pod ∷ [] }

abbrev bare_restart : Action
bare_restart = action_at pod_restart "job" (record empty_status { phase = running })

prepare-bare_pod_example :
    let out = PodRestart.prepare sample bare_restart bare_cluster in
    let a' : Action = record bare_restart { status = out.0.1 } in
    (out.0.0 ≢ none)
    × ((v : Cluster) → PodRestart.prepare sample a' v ≡ ((none, a'.status), v))
    × ((v : Cluster)
        → let read = sample.get_pod "shop" "job" v in
          read.0 ≡ ok bare_pod
          → (PodRestart.execute sample a' v).1 ≡ (sample.delete_pod bare_pod read.1).1)
prepare-bare_pod_example =
    prepare-bare_pod sample bare_restart bare_cluster bare_pod refl refl refl refl refl

-- The status that Prepare leaves of it: the UID is there.
abbrev bare_status : ActionStatus
bare_status = record bare_restart.status { target_uid = "u3" }

abbrev bare_state : State sample
bare_state = record { world = bare_cluster; updates = []; audits = []; calls = [] }

abbrev pub web : Deployment
web = record {
  namespace = "shop";
  name = "web";
  generation = ℤ.pos 1;
  replicas = some (ℤ.pos 2);
  template_annotations = [];
  observed_generation = ℤ.pos 1;
  updated_replicas = ℤ.pos 2;
  ready_replicas = ℤ.pos 2;
  available_replicas = ℤ.pos 2;
  unavailable_replicas = ℤ.pos 0;
  conditions = [];
}

abbrev pub patched : Deployment
patched = DeploymentRestart.annotate "a1" "time" web

abbrev pub patched_cluster : Cluster
patched_cluster = record cluster { deployments = patched ∷ [] }

abbrev rollout : Action
rollout = action_at deployment_restart "web" (record empty_status { phase = running })

abbrev node : Node
node = record { name = "n1"; unschedulable = false; conditions = [] }

checkpoint-Move_example :
    Move sample "PreChecked" (checkpoint sample none "PreChecked" node cluster).0
checkpoint-Move_example = checkpoint-Move sample none "PreChecked" node cluster

-- Runs of the code: a restart deletes its target, and the other pod of the controller counts at once as
-- the replacement.
execute_test :
    (PodRestart.execute sample restarting cluster).1.pods ≡ pod_with "web-2" "u2" (owner ∷ []) ∷ []
unfolding PodRestart.execute
execute_test = refl

replaced_test : (PodRestart.verify sample restarting cluster).0 ≡ ok true
unfolding PodRestart.verify PodRestart.replaced PodRestart.owned_by PodRestart.pod_ready
    PodRestart.ready_condition
replaced_test = refl
