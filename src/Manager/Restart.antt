-- ===== src/Manager/Restart.antt =====
-- A pod restart under the reconciler: pod_restart.go is an executor that gets on with its work.
use k8s_ops_platform.Prelude.{
  ℕ, eq_iff, String, Option, none, some, List, true, false, ◌≡◌, ◌⊎◌, ◌==◌, inl, inr, refl, ap, sym,
  ◌∙◌, subst, arith, Bool-cases, if◌then◌else◌,
}
use k8s_ops_platform.Api.{Action, ActionStatus}
use k8s_ops_platform.Kube.{Kube, Err, M}
use k8s_ops_platform.Kube.Errors.{ok, Result, as_error}
use k8s_ops_platform.Kube.Objects.{Pod}
use k8s_ops_platform.Action.PodRestart
use k8s_ops_platform.Action.PodRestart.{record_owner, replaced, prepare_pod}
use k8s_ops_platform.Controller.Outcomes.{Checkpoint, checkpoint_of}
use k8s_ops_platform.Controller.Effects.{with_status}
use k8s_ops_platform.Controller.Calls.{StatusWrites, IsKept, gets_pod}
use k8s_ops_platform.Controller.Progress.{Plan, IsFurther, IsProductive}
use k8s_ops_platform.Manager.{pod_restart_executor}

-- How a cluster takes the restart of an Action's target. In a world that is ready the target's name finds
-- a pod with a UID, under one controller, and it can be deleted; after that another pod of the controller
-- is ready, and the name need find nothing. Reads and writes of the Action's status do not change that.
pub record IsRestartable (k : Kube) (now : M k.World ℕ) (a : Action) (uid kind name : String)
    (IsReady IsReplaced : k.World → Type 0) : Type 0 where
  pub ready_kept : IsKept k now (StatusWrites k a) IsReady
  pub replaced_kept : IsKept k now (StatusWrites k a) IsReplaced
  pub identified : (uid == "") ≡ false
  pub named : (name == "") ≡ false
  pub found :
      (w : k.World)
      → IsReady w
      → (pod : Pod) × ((k.get_pod a.spec.target.namespace a.spec.target.name w).0 ≡ ok pod)
        × (pod.uid ≡ uid)
        × ((s : ActionStatus)
            → record_owner pod.owner_references s
              ≡ record s { workload_kind = kind; workload_name = name })
        × ((v : k.World)
            → IsReady v
            → ((k.delete_pod pod v).0 ≡ none) × IsReplaced (k.delete_pod pod v).1)
  pub recovers :
      (w : k.World)
      → IsReplaced w
      → (pods : List Pod) × ((k.list_pods_in a.spec.target.namespace w).0 ≡ ok pods)
        × (replaced pods uid kind name ≡ true)

-- The pod and its workload are recorded.
abbrev pub IsRecorded : String → String → String → Checkpoint → Type 0
IsRecorded uid kind name c =
    (c.target_uid ≡ uid) × (c.workload_kind ≡ kind) × (c.workload_name ≡ name)

-- Prepare is ahead until there is a UID; then the pod and the workload are recorded.
abbrev pub restart_plan :
    {k : Kube} → String → String → String → (k.World → Type 0) → (k.World → Type 0) → Plan k
restart_plan uid kind name IsReady IsReplaced = record {
  Fits = λ c w. (((c.target_uid == "") ≡ true) ⊎ IsRecorded uid kind name c) × IsReady w;
  IsReady = λ c. (c.target_uid == "") ≡ false;
  IsBack = λ c w. IsRecorded uid kind name c × IsReplaced w;
  ahead = λ c. if c.target_uid == "" then 1 else 0;
}

module _ (k : Kube) (now : M k.World ℕ) (a : Action) (uid kind name : String)
    (IsReady IsReplaced : k.World → Type 0)
    (able : IsRestartable k now a uid kind name IsReady IsReplaced) where
  abbrev plan : Plan k
  plan = restart_plan uid kind name IsReady IsReplaced

  -- A read of the target.
  abbrev read_pod : k.World → Result k.ApiError Pod × k.World
  read_pod = k.get_pod a.spec.target.namespace a.spec.target.name

  still-IsReady : (w : k.World) → IsReady w → IsReady (read_pod w).1
  still-IsReady w ready = able.ready_kept.by_read _ _ (gets_pod _ _ w) ready

  prepare-found :
      (t : ActionStatus) (w : k.World) (pod : Pod)
      → (t.target_uid == "") ≡ true
      → (read_pod w).0 ≡ ok pod
      → PodRestart.prepare k (with_status a t) w ≡ (prepare_pod k pod t, (read_pod w).1)
  unfolding PodRestart.prepare
  prepare-found t w pod unset found = ground arith

  prepare-kept :
      (t : ActionStatus) (w : k.World)
      → (t.target_uid == "") ≡ false
      → PodRestart.prepare k (with_status a t) w ≡ ((none, t), w)
  unfolding PodRestart.prepare
  prepare-kept t w set = ground arith

  prepare_pod-recorded :
      (pod : Pod) (s : ActionStatus)
      → pod.uid ≡ uid
      → ((t : ActionStatus)
          → record_owner pod.owner_references t
            ≡ record t { workload_kind = kind; workload_name = name })
      → prepare_pod k pod s
        ≡ (none, record s { target_uid = uid; workload_kind = kind; workload_name = name })
  unfolding prepare_pod
  prepare_pod-recorded pod s same owned =
      rw (owned (record s { target_uid = pod.uid }), prepare_pod)
        (rw (able.named, prepare_pod) (rw same refl))

  execute-deletes :
      (t : ActionStatus) (w : k.World) (pod : Pod)
      → (read_pod w).0 ≡ ok pod
      → (pod.uid == t.target_uid) ≡ true
      → PodRestart.execute k (with_status a t) w
        ≡ ((as_error (k.delete_pod pod (read_pod w).1).0, t), (k.delete_pod pod (read_pod w).1).1)
  unfolding PodRestart.execute
  execute-deletes t w pod found same = ground arith

  verify-listed :
      (t : ActionStatus) (w : k.World) (pods : List Pod)
      → (k.list_pods_in a.spec.target.namespace w).0 ≡ ok pods
      → (PodRestart.verify k (with_status a t) w).0
        ≡ ok (replaced pods t.target_uid t.workload_kind t.workload_name)
  unfolding PodRestart.verify
  verify-listed t w pods listed = ground arith

  -- What Prepare and Execute come to.
  abbrev Prepares : ActionStatus → (Option (Err k) × ActionStatus) × k.World → Type 0
  Prepares t out =
      (u : ActionStatus) × (out.0 ≡ (none, u))
      × (((u ≡ t) × plan.IsReady (checkpoint_of t) × plan.Fits (checkpoint_of t) out.1)
          ⊎ IsFurther plan t u out.1)

  abbrev Executes : ActionStatus → (Option (Err k) × ActionStatus) × k.World → Type 0
  Executes t out = (out.0 ≡ (none, t)) × plan.IsBack (checkpoint_of t) out.1

  prepares :
      (t : ActionStatus) (w : k.World)
      → plan.Fits (checkpoint_of t) w
      → Prepares t (PodRestart.prepare k (with_status a t) w)
  prepares t w (recorded, ready) = elim (Bool-cases (t.target_uid == "")) [
    | inl unset ↦
        let (pod, found, same, owned, deletes) = able.found w ready in
        let left = prepare-found t w pod unset found in
        subst (Prepares t) (sym left) (
          _,
          prepare_pod-recorded pod t same owned,
          inr (
            refl,
            rw (unset, able.identified) (omega arith),
            (inr (refl, refl, refl), still-IsReady w ready),
          ),
        )
    | inr set ↦
        subst (Prepares t) (sym (prepare-kept t w set))
          (t, refl, inl (refl, set, (recorded, ready)))
  ]

  is_known :
      (c : Checkpoint)
      → ((c.target_uid == "") ≡ true) ⊎ IsRecorded uid kind name c
      → (c.target_uid == "") ≡ false
      → IsRecorded uid kind name c
  is_known c (inl unset) set = absurd (cc (unset, set))
  is_known c (inr recorded) set = recorded

  executes :
      (t : ActionStatus) (w : k.World)
      → plan.Fits (checkpoint_of t) w
      → plan.IsReady (checkpoint_of t)
      → Executes t (PodRestart.execute k (with_status a t) w)
  executes t w (recorded, ready) set =
      let (pod, found, same, owned, deletes) = able.found w ready in
      let known = is_known (checkpoint_of t) recorded set in
      let this_one = (eq_iff pod.uid t.target_uid).1 (same ∙ sym known.0) in
      let (gone, replaced_there) = deletes (read_pod w).1 (still-IsReady w ready) in
      subst (Executes t) (sym (execute-deletes t w pod found this_one))
        (ap (λ e. (as_error e, t)) gone, (known, replaced_there))

  verifies :
      (t : ActionStatus) (w : k.World)
      → plan.IsBack (checkpoint_of t) w
      → (PodRestart.verify k (with_status a t) w).0 ≡ ok true
  verifies t w ((same_uid, same_kind, same_name), back) =
      let (pods, listed, ready) = able.recovers w back in
      verify-listed t w pods listed ∙ cc (same_uid, same_kind, same_name, ready)

  from_some : {A : Type 0} → A → Option A → A
  from_some a none = a
  from_some a (some b) = b

  -- The executor of pod restarts gets on with an Action whose target can be restarted.
  pub pod_restart_executor-IsProductive :
      IsProductive now (pod_restart_executor k) a (restart_plan uid kind name IsReady IsReplaced)
  unfolding from_some
  pod_restart_executor-IsProductive = record {
    fits_kept = λ c. record {
      by_read = λ w v p (recorded, ready). (recorded, able.ready_kept.by_read w v p ready);
      by_write = λ w v p (recorded, ready). (recorded, able.ready_kept.by_write w v p ready);
    };
    back_kept = λ c. record {
      by_read = λ w v p (recorded, back). (recorded, able.replaced_kept.by_read w v p back);
      by_write = λ w v p (recorded, back). (recorded, able.replaced_kept.by_write w v p back);
    };
    prepares = λ prepare e t w fits.
        subst
          (λ (p : Action → M k.World (Option (Err k) × ActionStatus)).
            Prepares t (p (with_status a t) w))
          (ap (from_some prepare) e) (prepares t w fits);
    unprepared = λ e. absurd (cc e);
    executes = λ t w fits ready. inl (executes t w fits ready);
    verifies = verifies;
  }
