-- ===== src/Action/PodRestart.antt =====
-- internal/action/pod_restart.go
pub mod Laws
pub mod Targets
use Prim.Native.String.{◌++◌}
use k8s_ops_platform.Prelude.{
  String, Option, none, some, List, [], ◌∷◌, Bool, true, false, not, ◌&&◌, ◌||◌, ◌==◌,
  if◌then◌else◌,
}
use k8s_ops_platform.Api.{Action, ActionStatus}
use k8s_ops_platform.Kube.{Kube, Err, M, pure, ◌>>=◌}
use k8s_ops_platform.Kube.Errors.{Result, ok, err, errorf, wrapf, api, as_error}
use k8s_ops_platform.Kube.Objects.{OwnerReference, PodCondition, Pod}

-- owner.Controller != nil && *owner.Controller
abbrev pub is_controller : Option Bool → Bool
is_controller none = false
is_controller (some b) = b

-- The loop of Prepare over the owners, which breaks at the first controller.
unfoldable pub record_owner : List OwnerReference → ActionStatus → ActionStatus
record_owner [] s = s
record_owner (o ∷ os) s =
    if is_controller o.controller
    then record s { workload_kind = o.kind; workload_name = o.name }
    else record_owner os s

unfoldable pub owned_by : List OwnerReference → String → String → Bool
owned_by [] kind name = false
owned_by (r ∷ rs) kind name =
    (r.kind == kind && r.name == name && is_controller r.controller) || owned_by rs kind name

-- The status of the first condition of type Ready.
unfoldable pub ready_condition : List PodCondition → Bool
ready_condition [] = false
ready_condition (c ∷ cs) = if c.type == "Ready" then c.status == "True" else ready_condition cs

unfoldable pub pod_ready : Pod → Bool
pod_ready pod = if not (pod.phase == "Running") then false else ready_condition pod.conditions

-- The loop of Verify over the pods of the namespace.
unfoldable pub replaced : List Pod → String → String → String → Bool
replaced [] uid kind name = false
replaced (pod ∷ pods) uid kind name =
    let rest = replaced pods uid kind name in
    if pod.uid == uid || not (owned_by pod.owner_references kind name)
    then rest
    else if pod_ready pod
    then true
    else rest

module _ (k : Kube) where
  open k use {World, get_pod, delete_pod, list_pods_in, is_not_found}

  -- What Prepare does once it has the pod.
  unfoldable pub prepare_pod : Pod → ActionStatus → Option (Err k) × ActionStatus
  prepare_pod pod s =
      let s' = record_owner pod.owner_references (record s { target_uid = pod.uid }) in
      if s'.workload_name == ""
      then (
        some (
            errorf (
              "pod "
              ++ (pod.namespace
                  ++ ("/"
                      ++ (pod.name
                          ++ " has no controller owner; restart recovery cannot be verified"))))),
        s',
      )
      else (none, s')

  unfoldable pub prepare : Action → M World (Option (Err k) × ActionStatus)
  prepare action = if not (action.status.target_uid == "") then pure (none, action.status) else do
    found ← get_pod action.spec.target.namespace action.spec.target.name
    elim found [
      | err e ↦ pure (some (wrapf "get target pod" (api e)), action.status)
      | ok pod ↦ pure (prepare_pod pod action.status)
    ]

  unfoldable pub execute : Action → M World (Option (Err k) × ActionStatus)
  execute action = do
    found ← get_pod action.spec.target.namespace action.spec.target.name
    elim found [
      | err e ↦ pure ((if is_not_found (api e) then none else some (api e)), action.status)
      | ok pod ↦
          if not (pod.uid == action.status.target_uid)
          then pure (none, action.status)
          else do e ← delete_pod pod; pure (as_error e, action.status)
    ]

  unfoldable pub verify : Action → M World (Result (Err k) Bool)
  verify action = do
    found ← list_pods_in action.spec.target.namespace
    elim found [
      | err e ↦ pure (err (api e))
      | ok pods ↦ pure (
          ok (
            replaced pods action.status.target_uid action.status.workload_kind
              action.status.workload_name))
    ]
