-- ===== src/Samples/Controllers.antt =====
-- The theorems about the reconciler, with the executors of the process, at the sample cluster.
use k8s_ops_platform.Prelude.{
  ℕ, Option, ◌≤◌, ◌+◌, inl, none, some, [], ◌∷◌, false, ◌≡◌, ◌⊎◌, refl, arith,
}
use k8s_ops_platform.Prelude.Int.{ℤ}
use k8s_ops_platform.Api.{ActionStatus, pending, Action, pod_restart, running, empty_status}
use k8s_ops_platform.Kube.Errors.{errorf}
use k8s_ops_platform.Action.Contract.{IsWellBehaved}
use k8s_ops_platform.Controller.{State}
use k8s_ops_platform.Controller.Phases.{terminal}
use k8s_ops_platform.Controller.Effects.{timed_out_since, update_status, fail}
use k8s_ops_platform.Controller.Reconcile.{dispatch, accept, succeed, reconcile_action}
use k8s_ops_platform.Controller.Steps.{Sends, Step}
use k8s_ops_platform.Controller.Steps.Phases.{reconcile_action-Step}
use k8s_ops_platform.Controller.Outcomes.{Concludes, ends-Concludes}
use k8s_ops_platform.Controller.Retries.{Reached, fresh, InBounds, reconcile_action-InBounds}
use k8s_ops_platform.Controller.Life.{over, moves, Life-length}
use k8s_ops_platform.Kube.{M}
use k8s_ops_platform.Manager.{executors, pod_restart_executor, reconciler}
use k8s_ops_platform.Manager.Contract.{executors-IsWellBehaved}
use k8s_ops_platform.Samples.{Cluster, sample, cluster, action_at}

abbrev pub start_state : State sample
start_state = record { world = cluster; updates = []; audits = []; calls = [] }

abbrev pub accepted : Action
accepted = action_at pod_restart "web-1" empty_status

abbrev pub started : Action
started =
    action_at pod_restart "web-1"
      (record empty_status { phase = running; started_at = some 4000000000 })

executors-IsWellBehaved_example : IsWellBehaved (pod_restart_executor sample)
unfolding executors
executors-IsWellBehaved_example =
    executors-IsWellBehaved sample pod_restart (pod_restart_executor sample) refl

reconcile_action-Step_example :
    let r = reconciler sample in
    let s' = (reconcile_action r started start_state).1 in
    (s'.updates ≡ [])
    ⊎ ((terminal running ≡ false) × Sends (Step (ℤ.pos 3) started.status) [] s'.updates)
reconcile_action-Step_example =
    reconcile_action-Step (reconciler sample) (executors-IsWellBehaved sample) started start_state

reconcile_action-InBounds_example :
    let s' = (reconcile_action (reconciler sample) accepted start_state).1 in
    (s'.updates ≡ []) ⊎ Sends (λ t. Reached (ℤ.pos 3) t × InBounds (ℤ.pos 3) t) [] s'.updates
reconcile_action-InBounds_example =
    reconcile_action-InBounds (reconciler sample) (executors-IsWellBehaved sample) (ground arith)
      (ground arith) accepted (fresh empty_status refl refl) start_state

ends-Concludes_example :
    Concludes "failed"
      (some (errorf "lost"))
      start_state
      (fail (reconciler sample) started (errorf "lost") start_state)
    × Concludes "succeeded" none start_state (succeed (reconciler sample) started start_state)
ends-Concludes_example = ends-Concludes (reconciler sample) started (errorf "lost") start_state

-- The status of an Action that has been accepted.
abbrev pending_status : ActionStatus
pending_status = record empty_status {
  phase = pending;
  message = "action accepted";
  observed_generation = ℤ.pos 1;
}

accept_test :
    (reconcile_action (reconciler sample) accepted start_state).1.updates ≡ pending_status ∷ []
unfolding reconcile_action terminal executors dispatch accept update_status
accept_test = refl

Life-length_example : 1 ≤ 4 + 3
Life-length_example =
    Life-length (reconciler sample) (executors-IsWellBehaved sample) (ground arith) (ground arith) 1
      empty_status pending_status refl refl
      (moves 0 accepted start_state empty_status pending_status pending_status refl accept_test
        (inl (λ e. cc e)) (over pending_status))

-- A clock that stands still.
abbrev pub stopped_clock : M Cluster ℕ
stopped_clock w = (0, w)

pub never_late :
    (timeout : ℕ) (started : Option ℕ) (w : Cluster)
    → (timed_out_since stopped_clock timeout started w).0 ≡ false
unfolding timed_out_since
never_late timeout none w = refl
never_late timeout (some start) w = ground arith
