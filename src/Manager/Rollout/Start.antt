-- ===== src/Manager/Rollout/Start.antt =====
-- How a cluster carries out the restart of a Deployment, and Execute of deployment_restart.go there.
use k8s_ops_platform.Prelude.{
  ℕ, suc, String, none, true, false, ◌≡◌, ◌⊎◌, inl, inr, refl, ap, sym, subst, arith, ◌==◌,
  Bool-cases, eq_iff, Option,
}
use k8s_ops_platform.Prelude.Dict.{lookup, get_or_empty}
use k8s_ops_platform.Api.{Action, ActionStatus}
use k8s_ops_platform.Kube.{Kube, Err}
use k8s_ops_platform.Kube.Errors.{Result, ok, as_error}
use k8s_ops_platform.Kube.Objects.{Deployment}
use k8s_ops_platform.Action.DeploymentRestart
use k8s_ops_platform.Action.DeploymentRestart.{restart_annotation, annotate}
use k8s_ops_platform.Controller.Effects.{with_status}
use k8s_ops_platform.Controller.Calls.{
  StatusWrites, same_writes, gets_deployment, reads_clock, Calls, Calls-map, IsKept, Calls-kept,
}
use k8s_ops_platform.Manager.Rollout.{IsRolledOut}

-- A read of the Action's target.
abbrev pub read_target : (k : Kube) → Action → k.World → Result k.ApiError Deployment × k.World
read_target k a = k.get_deployment a.spec.target.namespace a.spec.target.name

-- How a cluster takes the restart of an Action's target. In a world that is ready the target is found,
-- and has the mark, or can be patched. From then on the rollout is under way, and at most `limit` reads
-- find it unfinished. Reads and writes of the Action's status do not change that.
pub record CarriesOut (k : Kube) (a : Action) (limit : ℕ) (IsReady : k.World → Type 0)
    (IsUnderWay : ℕ → k.World → Type 0) : Type 0 where
  pub ready_kept : IsKept k k.time_now (StatusWrites k a) IsReady
  pub kept : (n : ℕ) → IsKept k k.time_now (StatusWrites k a) (IsUnderWay n)
  pub found : (w : k.World) → IsReady w → (d : Deployment) × ((read_target k a w).0 ≡ ok d)
  pub marked :
      (w : k.World) (d : Deployment)
      → IsReady w
      → (read_target k a w).0 ≡ ok d
      → get_or_empty (lookup restart_annotation d.template_annotations) ≡ a.metadata.uid
      → IsUnderWay limit w
  pub patched :
      (w v : k.World) (d : Deployment) (time : String)
      → IsReady w
      → (read_target k a w).0 ≡ ok d
      → IsReady v
      → ((k.patch_deployment (annotate a.metadata.uid time d) d v).0 ≡ none)
        × IsUnderWay limit (k.patch_deployment (annotate a.metadata.uid time d) d v).1
  pub found_again :
      (n : ℕ) (w : k.World) → IsUnderWay n w → (d : Deployment) × ((read_target k a w).0 ≡ ok d)
  pub advances :
      (n : ℕ) (w : k.World) (d : Deployment)
      → IsUnderWay n w
      → (read_target k a w).0 ≡ ok d
      → IsRolledOut a.metadata.uid d ⊎ ((m : ℕ) × (n ≡ suc m) × IsUnderWay m (read_target k a w).1)

module _ (k : Kube) (a : Action) (limit : ℕ) (IsReady : k.World → Type 0)
    (IsUnderWay : ℕ → k.World → Type 0) (carries : CarriesOut k a limit IsReady IsUnderWay) where
  -- Reads and writes of the Action's status, when it has another status.
  abbrev pub Remains : ActionStatus → k.World → k.World → Type 0
  Remains t = Calls k k.time_now (StatusWrites k (with_status a t))

  pub still-IsReady : {w v : k.World} (t : ActionStatus) → Remains t w v → IsReady w → IsReady v
  still-IsReady t c = Calls-kept IsReady carries.ready_kept (Calls-map (same_writes k a t) c)

  pub still_under_way :
      {w v : k.World} (n : ℕ) (t : ActionStatus) → Remains t w v → IsUnderWay n w → IsUnderWay n v
  still_under_way n t c =
      Calls-kept (IsUnderWay n) (carries.kept n) (Calls-map (same_writes k a t) c)

  -- Execute does its work, and then the rollout is under way.
  abbrev pub HasStarted : ActionStatus → (Option (Err k) × ActionStatus) × k.World → Type 0
  HasStarted t out = (out.0 ≡ (none, t)) × IsUnderWay limit out.1

  execute-marked :
      (t : ActionStatus) (w : k.World) (d : Deployment)
      → (read_target k a w).0 ≡ ok d
      → (get_or_empty (lookup restart_annotation d.template_annotations) == a.metadata.uid) ≡ true
      → DeploymentRestart.execute k (with_status a t) w ≡ ((none, t), (read_target k a w).1)
  unfolding DeploymentRestart.execute
  execute-marked t w d found there = ground arith

  execute-unmarked :
      (t : ActionStatus) (w : k.World) (d : Deployment)
      → (read_target k a w).0 ≡ ok d
      → (get_or_empty (lookup restart_annotation d.template_annotations) == a.metadata.uid) ≡ false
      → let (now, v) = k.time_now (read_target k a w).1 in
        let out = k.patch_deployment (annotate a.metadata.uid (k.format_rfc3339 now) d) d v in
        DeploymentRestart.execute k (with_status a t) w ≡ ((as_error out.0, t), out.1)
  unfolding DeploymentRestart.execute
  execute-unmarked t w d found other = ground arith

  pub execute-HasStarted :
      (t : ActionStatus) (w : k.World)
      → IsReady w
      → HasStarted t (DeploymentRestart.execute k (with_status a t) w)
  execute-HasStarted t w ready =
      let (d, found) = carries.found w ready in
      let mark = get_or_empty (lookup restart_annotation d.template_annotations) in
      let looked = gets_deployment a.spec.target.namespace a.spec.target.name w in
      elim (Bool-cases (mark == a.metadata.uid)) [
        | inl there ↦ subst (HasStarted t) (sym (execute-marked t w d found there)) (
          refl,
          (carries.kept limit).by_read _ _ looked
              (carries.marked w d ready found ((eq_iff mark a.metadata.uid).0 there)),
        )
        | inr other ↦
            let ready' =
              carries.ready_kept.by_read _ _ (reads_clock _)
                (carries.ready_kept.by_read _ _ looked ready) in
            let (done, under_way) = carries.patched w _ d _ ready found ready' in
            subst (HasStarted t) (sym (execute-unmarked t w d found other))
              (ap (λ e. (as_error e, t)) done, under_way)
      ]
