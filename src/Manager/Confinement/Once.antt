-- ===== src/Manager/Confinement/Once.antt =====
-- A rollout is not started again, however often the controller comes back to the Action, and with whatever
-- status, once its reads show the mark.
use k8s_ops_platform.Prelude.{
  Option, none, some, List, [], ◌∷◌, true, ◌≡◌, inl, inr, ap, sym, ◌∙◌, subst, arith, ◌==◌, eq_iff,
}
use k8s_ops_platform.Prelude.Dict.{lookup, get_or_empty}
use k8s_ops_platform.Api.{Action, ActionStatus, deployment_restart}
use k8s_ops_platform.Kube.{Kube}
use k8s_ops_platform.Kube.Errors.{ok, Result-cases}
use k8s_ops_platform.Kube.Objects.{Deployment}
use k8s_ops_platform.Action.{Executor}
use k8s_ops_platform.Action.DeploymentRestart
use k8s_ops_platform.Action.DeploymentRestart.{restart_annotation, annotate}
use k8s_ops_platform.Controller.{State}
use k8s_ops_platform.Controller.Effects.{with_status}
use k8s_ops_platform.Controller.Reconcile.{reconcile_action}
use k8s_ops_platform.Controller.Calls.{
  StatusWrites, same_writes, gets_deployment, Calls, stop, read, Calls-trans, Calls-map, IsKept,
  Calls-kept,
}
use k8s_ops_platform.Controller.Calls.Phases.{IsConfined, reconcile_action-Stays}
use k8s_ops_platform.Manager.{deployment_restart_executor, executors, reconciler}
use k8s_ops_platform.Manager.Confinement.Restarts.{deployment_verify-world}

-- The controller's client has seen a restart of a Deployment: its reads, which a cache answers, find the
-- Action's target with the Action's mark, and go on to do so after reads and after writes of the Action's
-- status. A cache that has the patch does not go back to what was before it.
pub record HasSeen (k : Kube) (a : Action) (IsMarked : k.World → Type 0) : Type 0 where
  pub found :
      (w : k.World) (d : Deployment)
      → IsMarked w
      → (k.get_deployment a.spec.target.namespace a.spec.target.name w).0 ≡ ok d
      → get_or_empty (lookup restart_annotation d.template_annotations) ≡ a.metadata.uid
  pub kept : IsKept k k.time_now (StatusWrites k a) IsMarked

-- Reconciliations of an Action, each with a status of its own: one that was stored, or one that the
-- controller's cache still has.
unfoldable pub reconciles : (k : Kube) → Action → List ActionStatus → State k → State k
reconciles k a [] s = s
reconciles k a (t ∷ ts) s =
    reconciles k a ts (reconcile_action (reconciler k) (with_status a t) s).1

module _ (k : Kube) (a : Action) (IsMarked : k.World → Type 0) (seen : HasSeen k a IsMarked)
    (restart : a.spec.action_type ≡ deployment_restart) where
  looked :
      {w v u : k.World}
      → v ≡ u
      → Calls k k.time_now (λ x y. ⊥) w u
      → Calls k k.time_now (λ x y. ⊥) w v
  looked {w} e c = subst (λ x. Calls k k.time_now (λ _ _. ⊥) w x) (sym e) c

  execute-world :
      (t : ActionStatus) (w : k.World)
      → IsMarked w
      → (DeploymentRestart.execute k (with_status a t) w).1
        ≡ (k.get_deployment a.spec.target.namespace a.spec.target.name w).1
  unfolding DeploymentRestart.execute
  execute-world t w marked =
      elim (Result-cases (k.get_deployment a.spec.target.namespace a.spec.target.name w).0) [
        | inl (e, q) ↦ ground arith
        | inr (d, q) ↦
            let mark = get_or_empty (lookup restart_annotation d.template_annotations) in
            let there : (mark == a.metadata.uid) ≡ true =
              (eq_iff mark a.metadata.uid).1 (seen.found w d marked q) in
            ground arith
      ]

  executor-IsConfined :
      (t : ActionStatus)
      → IsConfined k.time_now (λ w v. ⊥) IsMarked (deployment_restart_executor k) (with_status a t)
  executor-IsConfined t = record {
    prepares = tt;
    executes = λ w marked. looked (execute-world t w marked) (read (gets_deployment _ _ w) stop);
    verifies = λ w marked.
        looked (deployment_verify-world k (with_status a t) w) (read (gets_deployment _ _ w) stop);
  }

  abbrev ConfinedIfKnown : ActionStatus → Option (Executor k) → Type 0
  ConfinedIfKnown t none = Unit
  ConfinedIfKnown t (some ex) = IsConfined k.time_now (λ w v. ⊥) IsMarked ex (with_status a t)

  known-IsConfined :
      (t : ActionStatus) (ex : Executor k)
      → executors k a.spec.action_type ≡ some ex
      → IsConfined k.time_now (λ w v. ⊥) IsMarked ex (with_status a t)
  unfolding executors
  known-IsConfined t ex known =
      subst (ConfinedIfKnown t) (ap (executors k) (sym restart) ∙ known) (executor-IsConfined t)

  kept_for : (t : ActionStatus) → IsKept k k.time_now (StatusWrites k (with_status a t)) IsMarked
  kept_for t = record {
    by_read = seen.kept.by_read;
    by_write = λ w v p. seen.kept.by_write w v (same_writes k a t w v p);
  }

  reconcile-StatusWrites :
      (t : ActionStatus) (s : State k)
      → IsMarked s.world
      → Calls k k.time_now
          (StatusWrites k a)
          s.world
          (reconcile_action (reconciler k) (with_status a t) s).1.world
  reconcile-StatusWrites t s marked = Calls-map (same_writes k a t) (
      reconcile_action-Stays (reconciler k) (λ w v. ⊥) IsMarked (with_status a t) (kept_for t)
        (known-IsConfined t) s marked)

  -- The rollout of a DeploymentRestart is not started again once the client's reads of its target show
  -- the Action's mark. Any number of reconciliations of the Action, each with whatever status, an outdated
  -- one included, then only read, and write the Action's status, as long as the reads show the mark. A
  -- cache that does not show it yet is not covered.
  pub reconciles-once :
      (ts : List ActionStatus) (s : State k)
      → IsMarked s.world
      → Calls k k.time_now (StatusWrites k a) s.world (reconciles k a ts s).world
  unfolding reconciles
  reconciles-once [] s marked = stop
  reconciles-once (t ∷ ts) s marked =
      let calls = reconcile-StatusWrites t s marked in
      Calls-trans calls (reconciles-once ts _ (Calls-kept IsMarked seen.kept calls marked))
