-- ===== src/Action/PodRestart/Targets.antt =====
-- Which pod the restart deletes, and what counts as its replacement.
use k8s_ops_platform.Prelude.{
  Option, none, List, [], ◌∷◌, Bool, true, false, not, ◌&&◌, ◌==◌, ◌≡◌, ◌≢◌, ◌⊎◌, ◌∙◌, refl, sym,
  ap, inl, inr, arith, eq_iff, Bool-cases, any,
}
use k8s_ops_platform.Api.{Action, ActionStatus}
use k8s_ops_platform.Kube.{Kube, Err}
use k8s_ops_platform.Kube.Errors.{ok, err, api, Result-cases}
use k8s_ops_platform.Kube.Objects.{OwnerReference, Pod}
use k8s_ops_platform.Action.PodRestart.{
  is_controller, record_owner, replaced, owned_by, pod_ready, prepare_pod, prepare, execute, verify,
}

-- A pod that the verification takes for a replacement: another pod than the target, under the
-- recorded controller, and ready.
abbrev pub is_replacement : ActionStatus → Pod → Bool
is_replacement s pod =
    not (pod.uid == s.target_uid)
    && owned_by pod.owner_references s.workload_kind s.workload_name
    && pod_ready pod

replaced-any :
    (pods : List Pod) (s : ActionStatus)
    → replaced pods s.target_uid s.workload_kind s.workload_name ≡ any (is_replacement s) pods
unfolding replaced
replaced-any [] s = refl
replaced-any (p ∷ ps) s = ground (arith, replaced-any ps s)

abbrev pub has_controller : List OwnerReference → Bool
has_controller owners = any (λ o. is_controller o.controller) owners

record_owner-none :
    (os : List OwnerReference) (s : ActionStatus)
    → has_controller os ≡ false
    → record_owner os s ≡ s
unfolding record_owner
record_owner-none [] s h = refl
record_owner-none (o ∷ os) s h = ground (arith, record_owner-none os s)

module _ (k : Kube) where
  -- Verify answers with the error of the list, or whether some pod of the target's namespace is a
  -- replacement: not the pod that was restarted, of the recorded controller, and ready. Nothing asks
  -- when that pod was made.
  pub verify-any :
      (a : Action) (w : k.World)
      → let found = k.list_pods_in a.spec.target.namespace w in
        ((e : k.ApiError) × (found.0 ≡ err e) × ((verify k a w).0 ≡ err (api e)))
        ⊎ ((pods : List Pod) × (found.0 ≡ ok pods)
            × ((verify k a w).0 ≡ ok (any (is_replacement a.status) pods)))
  unfolding verify
  verify-any a w = elim (Result-cases (k.list_pods_in a.spec.target.namespace w).0) [
    | inl (e, q) ↦ inl (e, q, ground arith)
    | inr (pods, q) ↦ inr (pods, q, ground (arith, replaced-any pods a.status))
  ]

  -- Execute reads the target, and then leaves the cluster alone or deletes the pod that it read,
  -- which has the recorded UID.
  pub execute-only_target :
      (a : Action) (w : k.World)
      → let read = k.get_pod a.spec.target.namespace a.spec.target.name w in
        ((execute k a w).1 ≡ read.1)
        ⊎ ((pod : Pod) × (read.0 ≡ ok pod)
            × (pod.uid ≡ a.status.target_uid)
            × ((execute k a w).1 ≡ (k.delete_pod pod read.1).1))
  unfolding execute
  execute-only_target a w =
      elim (Result-cases (k.get_pod a.spec.target.namespace a.spec.target.name w).0) [
        | inl (e, q) ↦ inl (ground arith)
        | inr (pod, q) ↦ elim (Bool-cases (pod.uid == a.status.target_uid)) [
          | inl same ↦ inr (pod, q, (eq_iff _ _).0 same, ground arith)
          | inr other ↦ inl (ground arith)
        ]
      ]

module _ (k : Kube) where
  prepare_pod-bare :
      (pod : Pod) (s : ActionStatus)
      → (s.workload_name == "") ≡ true
      → has_controller pod.owner_references ≡ false
      → ((prepare_pod k pod s).0 ≢ none)
        × ((prepare_pod k pod s).1 ≡ record s { target_uid = pod.uid })
  unfolding prepare_pod
  prepare_pod-bare pod s no_owner bare =
      rw
        (
          record_owner-none pod.owner_references (record s { target_uid = pod.uid }) bare,
          prepare_pod,
        )
        (rw no_owner ((λ e. cc e), refl))

  prepare-read :
      (a : Action) (w : k.World) (pod : Pod)
      → (a.status.target_uid == "") ≡ true
      → (k.get_pod a.spec.target.namespace a.spec.target.name w).0 ≡ ok pod
      → (prepare k a w).0 ≡ prepare_pod k pod a.status
  unfolding prepare
  prepare-read a w pod fresh found = ground arith

  prepare-done :
      (a : Action) (w : k.World)
      → (a.status.target_uid == "") ≡ false
      → prepare k a w ≡ ((none, a.status), w)
  unfolding prepare
  prepare-done a w recorded = rw (recorded, prepare) refl

  execute-recorded :
      (a : Action) (w : k.World) (pod : Pod)
      → (pod.uid == a.status.target_uid) ≡ true
      → let read = k.get_pod a.spec.target.namespace a.spec.target.name w in
        read.0 ≡ ok pod → (execute k a w).1 ≡ (k.delete_pod pod read.1).1
  unfolding execute
  execute-recorded a w pod same found = ground arith

-- A target without a controller, as Prepare reads it for the first time. Prepare fails. But it has put
-- the target's UID into the status, and with that status the next Prepare succeeds without reading
-- anything, and Execute deletes the pod as long as it is there.
pub prepare-bare_pod :
    (k : Kube) (a : Action) (w : k.World) (pod : Pod)
    → (a.status.target_uid == "") ≡ true
    → (a.status.workload_name == "") ≡ true
    → (k.get_pod a.spec.target.namespace a.spec.target.name w).0 ≡ ok pod
    → (pod.uid == "") ≡ false
    → has_controller pod.owner_references ≡ false
    → let out = prepare k a w in
      let a' : Action = record a { status = out.0.1 } in
      (out.0.0 ≢ none)
      × ((v : k.World) → prepare k a' v ≡ ((none, a'.status), v))
      × ((v : k.World)
          → let read = k.get_pod a.spec.target.namespace a.spec.target.name v in
            read.0 ≡ ok pod → (execute k a' v).1 ≡ (k.delete_pod pod read.1).1)
prepare-bare_pod k a w pod fresh no_owner found named bare =
    let (fails, written) = prepare_pod-bare k pod a.status no_owner bare in
    let read = prepare-read k a w pod fresh found in
    let recorded =
      ap (λ (s : ActionStatus). s.target_uid)
        (ap (λ (x : Option (Err k) × ActionStatus). x.1) read ∙ written) in
    (
      (λ e. fails (ap (λ (x : Option (Err k) × ActionStatus). x.0) (sym read) ∙ e)),
      (λ v. prepare-done k _ v (ap (λ u. u == "") recorded ∙ named)),
      λ v there.
          execute-recorded k _ v pod
            (ap (λ u. pod.uid == u) recorded ∙ (eq_iff pod.uid pod.uid).1 refl) there,
    )
