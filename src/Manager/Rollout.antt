-- ===== src/Manager/Rollout.antt =====
-- The verification of a deployment restart under the reconciler: Verify of deployment_restart.go in the
-- phase Verifying of action_controller.go.
pub mod Start
pub mod Completion
use k8s_ops_platform.Prelude.{
  String, none, some, true, false, ◌≡◌, ◌⊎◌, inl, inr, refl, ◌∙◌, arith, eq_iff, ◌==◌, Bool-cases,
  ◌*◌,
}
use k8s_ops_platform.Prelude.Dict.{lookup, get_or_empty}
use k8s_ops_platform.Prelude.Int.{leb_ℤ-cases, ◌≤ℤ◌}
use k8s_ops_platform.Api.{Action, succeeded, verifying}
use k8s_ops_platform.Kube.{Kube}
use k8s_ops_platform.Kube.Errors.{Result-cases, Result, ok, err, api}
use k8s_ops_platform.Kube.Objects.{Deployment}
use k8s_ops_platform.Action.DeploymentRestart
use k8s_ops_platform.Action.DeploymentRestart.{restart_annotation, desired_replicas, rolled_out}
use k8s_ops_platform.Controller.{State, Reconciler}
use k8s_ops_platform.Controller.Effects.{second, update_status, timed_out, retry_or_fail}
use k8s_ops_platform.Controller.Reconcile.{succeed, after_verify, verify, reconcile_action}
use k8s_ops_platform.Controller.Steps.{Sends, observe_if_saved-updates}
use k8s_ops_platform.Controller.Drive.{reconcile_action-verify}
use k8s_ops_platform.Manager.{deployment_restart_executor}

-- The rollout that an Action has asked for is over: the template has the Action's mark, the status is
-- of the current generation, and as many replicas as desired, one where that is unset, are updated and
-- as many are available.
pub record IsRolledOut (uid : String) (d : Deployment) : Type 0 where
  pub marked : get_or_empty (lookup restart_annotation d.template_annotations) ≡ uid
  pub current : d.generation ≤ℤ d.observed_generation
  pub updated : desired_replicas d.replicas ≤ℤ d.updated_replicas
  pub available : desired_replicas d.replicas ≤ℤ d.available_replicas

rolled_out-cases :
    (uid : String) (d : Deployment)
    → ((rolled_out uid d ≡ true) × IsRolledOut uid d)
      ⊎ ((rolled_out uid d ≡ false) × (¬ IsRolledOut uid d))
unfolding rolled_out
rolled_out-cases uid d =
    elim (Bool-cases (get_or_empty (lookup restart_annotation d.template_annotations) == uid)) [
      | inr unmarked ↦ inr (
        ground arith,
        λ h. ground (
          arith,
          h.marked,
          eq_iff (get_or_empty (lookup restart_annotation d.template_annotations)) uid,
        ),
      )
      | inl marked ↦ elim (leb_ℤ-cases d.generation d.observed_generation) [
        | inr (old, stale) ↦ inr (ground arith, λ h. omega (arith, stale, h.current))
        | inl (current, fresh) ↦
            elim (leb_ℤ-cases (desired_replicas d.replicas) d.updated_replicas) [
              | inr (few, short) ↦ inr (ground arith, λ h. omega (arith, short, h.updated))
              | inl (updated, enough) ↦
                  elim (leb_ℤ-cases (desired_replicas d.replicas) d.available_replicas) [
                    | inr (few, short) ↦ inr (ground arith, λ h. omega (arith, short, h.available))
                    | inl (available, all) ↦ inl (
                      ground arith,
                      record {
                        marked = (eq_iff _ _).0 marked;
                        current = fresh;
                        updated = enough;
                        available = all;
                      },
                    )
                  ]
            ]
      ]
    ]

module _ {k : Kube} (r : Reconciler k) (a : Action) (s : State k) where
  -- What the phase Verifying makes of an answer of the cluster, in the state `s'` in which it has it.
  after_verify-true :
      (s' : State k) → Sends (λ t. t.phase ≡ succeeded) s'.updates (succeed r a s').1.updates
  unfolding succeed update_status
  after_verify-true s' = (_, observe_if_saved-updates r _ _ _ _, refl)

  -- The deployment, as Verify reads it after the clock.
  abbrev pub read_deployment : Result k.ApiError Deployment × k.World
  read_deployment =
      k.get_deployment a.spec.target.namespace a.spec.target.name (timed_out r a s).1.world

  abbrev pub after_read : State k
  after_read = record s { world = read_deployment.1 }

  -- Verify, in time, is what it makes of the Deployment.
  verify-early :
      (timed_out r a s).0 ≡ false
      → verify r (deployment_restart_executor k) a s ≡ (
          let v = DeploymentRestart.verify k a (timed_out r a s).1.world in
          after_verify r a v.0 (record s { world = v.1 }))
  unfolding verify
  verify-early early = rw (early, verify) refl

  verify-unread :
      (e : k.ApiError)
      → read_deployment.0 ≡ err e
      → DeploymentRestart.verify k a (timed_out r a s).1.world ≡ (err (api e), read_deployment.1)
  unfolding DeploymentRestart.verify
  verify-unread e unread = ground arith

  verify-read :
      (d : Deployment)
      → read_deployment.0 ≡ ok d
      → DeploymentRestart.verify k a (timed_out r a s).1.world
        ≡ (ok (rolled_out a.metadata.uid d), read_deployment.1)
  unfolding DeploymentRestart.verify
  verify-read d found = ground arith

  -- A restart of a Deployment that is Verifying, and not late. When the Deployment cannot be read, the
  -- error is one to retry. When it is read and the rollout is over, the one status that is sent is
  -- Succeeded. Otherwise nothing is sent or recorded, and Reconcile asks to be called again after two
  -- seconds.
  pub reconcile_action-rollout :
      r.executors a.spec.action_type ≡ some (deployment_restart_executor k)
      → a.status.phase ≡ verifying
      → (timed_out r a s).0 ≡ false
      → let out = reconcile_action r a s in
        ((e : k.ApiError) × (read_deployment.0 ≡ err e)
          × (out ≡ retry_or_fail r a (api e) after_read))
        ⊎ ((d : Deployment) × (read_deployment.0 ≡ ok d)
            × ((IsRolledOut a.metadata.uid d
                  × Sends (λ t. t.phase ≡ succeeded) s.updates out.1.updates)
                ⊎ ((¬ IsRolledOut a.metadata.uid d)
                    × (out ≡ (
                      (record { requeue = false; requeue_after = 2 * second }, none),
                      after_read,
                    )))))
  unfolding after_verify
  reconcile_action-rollout known verifying_now early =
      let begins =
        reconcile_action-verify r (deployment_restart_executor k) a s known verifying_now
        ∙ verify-early early in
      elim (Result-cases read_deployment.0) [
        | inl (e, unread) ↦ inl (e, unread, begins ∙ rw (verify-unread e unread) refl)
        | inr (d, found) ↦ elim (rolled_out-cases a.metadata.uid d) [
          | inl (finished, over) ↦
              let ends : reconcile_action r a s ≡ succeed r a after_read =
                begins ∙ rw (verify-read d found, finished) refl in
              inr (d, found, inl (over, rw ends (after_verify-true after_read)))
          | inr (pending_yet, unfinished) ↦
              inr (d, found, inr (unfinished, begins ∙ rw (verify-read d found, pending_yet) refl))
        ]
      ]
