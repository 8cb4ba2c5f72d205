-- ===== src/Action/NodeMaintenance.antt =====
-- internal/action/node_maintenance.go
pub mod Drain
pub mod Checkpoints
pub mod Progress
pub mod Executions
use Prim.Native.String.{◌++◌}
use k8s_ops_platform.Prelude.{
  String, Option, none, some, List, [], ◌∷◌, Bool, true, false, not, ◌&&◌, ◌||◌, ◌==◌,
  if◌then◌else◌,
}
use k8s_ops_platform.Prelude.Dict.{lookup}
use k8s_ops_platform.Api.{Action, ActionStatus}
use k8s_ops_platform.Kube.{Kube, Err, M, pure, ◌>>=◌}
use k8s_ops_platform.Kube.Errors.{Error, Result, ok, err, errorf, wrapf, in_progress, api}
use k8s_ops_platform.Kube.Objects.{OwnerReference, Pod, NodeCondition, Node}
use k8s_ops_platform.Action.PodRestart.{is_controller}

-- The status of the first condition of type Ready.
unfoldable pub ready_condition : List NodeCondition → Bool
ready_condition [] = false
ready_condition (c ∷ cs) = if c.type == "Ready" then c.status == "True" else ready_condition cs

unfoldable pub node_ready : Node → Bool
node_ready node = ready_condition node.conditions

unfoldable pub has_controller : List OwnerReference → Bool
has_controller [] = false
has_controller (o ∷ os) = is_controller o.controller || has_controller os

-- The loop over the owners at the end of skipDrainPod.
unfoldable pub owned_by_daemon_set : List OwnerReference → Bool
owned_by_daemon_set [] = false
owned_by_daemon_set (o ∷ os) =
    (o.kind == "DaemonSet" && is_controller o.controller) || owned_by_daemon_set os

abbrev pub is_some {ℓ} : {A : Type ℓ} → Option A → Bool
is_some none = false
is_some (some a) = true

-- corev1.MirrorPodAnnotationKey
abbrev pub mirror_annotation : String
mirror_annotation = "kubernetes.io/config.mirror"

unfoldable pub skip_drain_pod : Pod → Bool
skip_drain_pod pod =
    if pod.phase == "Succeeded" || pod.phase == "Failed" || is_some pod.deletion_timestamp
    then true
    else if is_some (lookup mirror_annotation pod.annotations)
    then true
    else owned_by_daemon_set pod.owner_references

-- "ns/name"
abbrev pub pod_key : Pod → String
pod_key pod = pod.namespace ++ ("/" ++ pod.name)

module _ (k : Kube) where
  open k use {
    World, get_node, list_pods_on, evict_pod, patch_node, is_not_found, is_too_many_requests,
  }

  -- The eviction errors that stop the loop.
  abbrev pub blocks : Option k.ApiError → Bool
  blocks none = false
  blocks (some e) = not (is_not_found (api e)) && not (is_too_many_requests (api e))

  abbrev pub wrap_evict : Pod → Option k.ApiError → Option (Err k)
  wrap_evict pod none = none
  wrap_evict pod (some e) = some (wrapf ("evict pod " ++ pod_key pod) (api e))

  -- The loop of evict over the node's pods; `remaining` is its variable.
  unfoldable pub evict_pods : List Pod → Bool → M World (Bool × Option (Err k))
  evict_pods [] remaining = pure (remaining, none)
  evict_pods (pod ∷ pods) remaining =
      let skipped = evict_pods pods remaining in
      let evicted = evict_pods pods true in
      if skip_drain_pod pod
      then skipped
      else if not (has_controller pod.owner_references)
      then pure (
        false,
        some (errorf ("basic eviction precheck: pod " ++ (pod_key pod ++ " is unmanaged"))),
      )
      else do
        e ← evict_pod pod.namespace pod.name
        if blocks e then pure (true, wrap_evict pod e) else evicted

  unfoldable pub evict : String → M World (Bool × Option (Err k))
  evict node_name = do
    found ← list_pods_on node_name
    elim found [
      | err e ↦ pure (false, some (wrapf "list node pods" (api e)))
      | ok pods ↦ evict_pods pods false
    ]

  abbrev pub noop_maintenance_hook : Node → M World (Option (Err k))
  noop_maintenance_hook node = pure none

  -- e.Hook, or the no-op if it is nil.
  abbrev pub hook_or_noop :
      Option (Node → M World (Option (Err k))) → Node → M World (Option (Err k))
  hook_or_noop none = noop_maintenance_hook
  hook_or_noop (some hook) = hook

  -- What a checkpoint returns: the error, and the execution state that it leaves.
  abbrev pub Outcome : Type 0
  Outcome = Option (Err k) × String

  abbrev pub advance : String → String → Outcome
  advance state message = (some (in_progress message), state)

  -- case "": before anything is changed
  unfoldable pub precheck : Node → M World Outcome
  precheck node =
      if not (node_ready node)
      then pure (some (errorf "precheck failed: node is not Ready"), "")
      else pure (advance "PreChecked" "node precheck complete")

  -- case "PreChecked"
  abbrev pub cordoned : Option k.ApiError → Outcome
  cordoned none = advance "Cordoned" "node cordoned"
  cordoned (some e) = (some (wrapf "cordon node" (api e)), "PreChecked")

  unfoldable pub cordon : Node → M World Outcome
  cordon node =
      if node.unschedulable
      then pure (advance "Cordoned" "node cordoned")
      else do e ← patch_node (record node { unschedulable = true }) node; pure (cordoned e)

  -- case "Cordoned"
  abbrev pub drained : Bool × Option (Err k) → Outcome
  drained (remaining, some e) = (some e, "Cordoned")
  drained (true, none) = advance "Cordoned" "waiting for evicted pods to terminate"
  drained (false, none) = advance "Drained" "node drained"

  unfoldable pub drain : Node → M World Outcome
  drain node = do result ← evict node.name; pure (drained result)

  -- case "Drained"
  abbrev pub hooked : Option (Err k) → Outcome
  hooked none = advance "HookCompleted" "maintenance hook complete"
  hooked (some e) = (some (wrapf "maintenance hook" e), "Drained")

  unfoldable pub run_hook : Option (Node → M World (Option (Err k))) → Node → M World Outcome
  run_hook hook node = do e ← hook_or_noop hook node; pure (hooked e)

  -- case "HookCompleted"
  unfoldable pub check_health : Node → M World Outcome
  check_health node =
      if not (node_ready node)
      then pure (advance "HookCompleted" "waiting for node health check")
      else pure (advance "HealthChecked" "node health check complete")

  -- case "HealthChecked"
  abbrev pub uncordoned : Option k.ApiError → Outcome
  uncordoned none = advance "Uncordoned" "node uncordoned"
  uncordoned (some e) = (some (wrapf "uncordon node" (api e)), "HealthChecked")

  unfoldable pub uncordon : Node → M World Outcome
  uncordon node =
      if not node.unschedulable
      then pure (advance "Uncordoned" "node uncordoned")
      else do e ← patch_node (record node { unschedulable = false }) node; pure (uncordoned e)

  -- The switch of Execute.
  unfoldable pub checkpoint :
      Option (Node → M World (Option (Err k))) → String → Node → M World Outcome
  checkpoint hook state node =
      if state == ""
      then precheck node
      else if state == "PreChecked"
      then cordon node
      else if state == "Cordoned"
      then drain node
      else if state == "Drained"
      then run_hook hook node
      else if state == "HookCompleted"
      then check_health node
      else if state == "HealthChecked"
      then uncordon node
      else if state == "Uncordoned"
      then pure (none, state)
      else pure (some (errorf ("unknown node maintenance checkpoint " ++ k.quote state)), state)

  unfoldable pub execute :
      Option (Node → M World (Option (Err k))) → Action → M World (Option (Err k) × ActionStatus)
  execute hook action = do
    found ← get_node action.spec.target.name
    elim found [
      | err e ↦ pure (some (wrapf "get node" (api e)), action.status)
      | ok node ↦ do
        result ← checkpoint hook action.status.execution_state node
        pure (result.0, record action.status { execution_state = result.1 })
    ]

  unfoldable pub verify : Action → M World (Result (Err k) Bool)
  verify action = do
    found ← get_node action.spec.target.name
    elim found [
      | err e ↦ pure (err (api e))
      | ok node ↦ pure (ok (node_ready node && not node.unschedulable))
    ]
