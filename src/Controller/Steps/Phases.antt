-- ===== src/Controller/Steps/Phases.antt =====
-- The statuses that each phase sends, and the theorem about Reconcile.
use k8s_ops_platform.Prelude.{
  String, Option, none, some, Bool, true, false, ◌≡◌, ◌⊎◌, inl, inr, refl, subst, Bool-cases,
  Option-cases,
}
use k8s_ops_platform.Api.{Action, ActionStatus, running, verifying, deep_copy_value}
use k8s_ops_platform.Api.Equality.{status_eq}
use k8s_ops_platform.Kube.{Kube, Err}
use k8s_ops_platform.Kube.Errors.{Result, ok, err}
use k8s_ops_platform.Action.{Executor}
use k8s_ops_platform.Action.Contract.{progress, KeepsIfAny, IsWellBehaved}
use k8s_ops_platform.Controller.{State, Reconciler}
use k8s_ops_platform.Controller.Phases.{next_phase, terminal}
use k8s_ops_platform.Controller.Effects.{with_status, update_status, timed_out, retry_limit}
use k8s_ops_platform.Controller.Steps.{
  Sends, Sends-map, Step, forward, observe_if_saved-updates, retry_or_fail-Step, Step-of_progress,
  working_not_terminal,
}
use k8s_ops_platform.Controller.Reconcile.{
  execute, after_prepare, prepare_and_execute, run, succeed, after_verify, verify, dispatch,
  reconcile_action,
}
use k8s_ops_platform.Controller.Steps.Cases.{
  save_message-Follows, unset, is_pending, is_running, is_verifying, other, phase_cases, named,
  Follows, fail-Follows, accept-Follows, start-Follows, still_running, retry-Follows,
  after_execute-Follows,
}

module _ {k : Kube} (r : Reconciler k) where
  module _ (ex : Executor k) (behaved : IsWellBehaved ex) where
    execute-Follows :
        (a : Action) (s : State k) → a.status.phase ≡ running → Follows r a s (execute r ex a s).1
    unfolding execute
    execute-Follows a s p =
        after_execute-Follows r a _ _ p (behaved.execute_keeps a s.world) (ex.execute a s.world).0.0

    after_prepare-Follows :
        (a : Action) (e : Option (Err k)) (t : ActionStatus) (s : State k)
        → a.status.phase ≡ running
        → progress t ≡ progress a.status
        → Follows r a s (after_prepare r ex a (e, t) s).1
    unfolding after_prepare
    after_prepare-Follows a (some cause) t s p kept = retry-Follows r a t s p kept cause
    after_prepare-Follows a none t s p kept =
        elim (Bool-cases (status_eq (deep_copy_value a.status) t)) [
          | inl same ↦
              rw (same, after_prepare)
                (Sends-map (λ u st. Step-of_progress kept st)
                  (execute-Follows (with_status a t) s (still_running r a t s p kept)))
          | inr changed ↦ rw (changed, after_prepare) (save_message-Follows r a t s p kept _)
        ]

    prepare_and_execute-Follows :
        (a : Action) (s : State k)
        → a.status.phase ≡ running
        → Follows r a s (prepare_and_execute r ex a s).1
    unfolding prepare_and_execute
    prepare_and_execute-Follows a s p = elim (Option-cases ex.prepare) [
      | inl e ↦ rw (e, prepare_and_execute) (execute-Follows a s p)
      | inr (prepare, e) ↦
          let keeps = subst KeepsIfAny e behaved.prepare_keeps in
          rw (e, prepare_and_execute)
            (after_prepare-Follows a (prepare a s.world).0.0 _ _ p (keeps a s.world))
    ]

    run-Follows :
        (a : Action) (s : State k) → a.status.phase ≡ running → Follows r a s (run r ex a s).1
    unfolding run
    run-Follows a s p = elim (Bool-cases (timed_out r a s).0) [
      | inl late ↦ rw (late, run) (fail-Follows r a _ _ (working_not_terminal _ (inl p)))
      | inr early ↦ rw (early, run) (prepare_and_execute-Follows a _ p)
    ]

    succeed-Follows :
        (a : Action) (s : State k) → a.status.phase ≡ verifying → Follows r a s (succeed r a s).1
    unfolding succeed update_status next_phase
    succeed-Follows a s p = (_, observe_if_saved-updates r _ _ _ _, forward (rw p refl) refl)

    -- Nothing is sent while the target is not back.
    after_verify-Follows :
        (a : Action) (verified : Result (Err k) Bool) (s : State k)
        → a.status.phase ≡ verifying
        → ((after_verify r a verified s).1.updates ≡ s.updates)
          ⊎ Follows r a s (after_verify r a verified s).1
    unfolding after_verify
    after_verify-Follows a (err e) s p = inr (retry_or_fail-Step r a e s (inr p))
    after_verify-Follows a (ok false) s p = inl refl
    after_verify-Follows a (ok true) s p = inr (succeed-Follows a s p)

    verify-Follows :
        (a : Action) (s : State k)
        → a.status.phase ≡ verifying
        → ((verify r ex a s).1.updates ≡ s.updates) ⊎ Follows r a s (verify r ex a s).1
    unfolding verify
    verify-Follows a s p = elim (Bool-cases (timed_out r a s).0) [
      | inl late ↦ rw (late, verify) (inr (fail-Follows r a _ _ (working_not_terminal _ (inr p))))
      | inr early ↦ rw (early, verify) (after_verify-Follows a _ _ p)
    ]

    dispatch-Follows :
        (a : Action) (s : State k)
        → terminal a.status.phase ≡ false
        → ((dispatch r ex a s).1.updates ≡ s.updates) ⊎ Follows r a s (dispatch r ex a s).1
    unfolding dispatch
    dispatch-Follows a s live = elim (phase_cases a.status.phase) [
      | unset e ↦ rw (e, dispatch) (inr (accept-Follows r a s (named e)))
      | is_pending n e ↦ rw (n, e, dispatch) (inr (start-Follows r a s (named e)))
      | is_running n m e ↦ rw (n, m, e, dispatch) (inr (run-Follows a s (named e)))
      | is_verifying n m o e ↦ rw (n, m, o, e, dispatch) (verify-Follows a s (named e))
      | other n m o q ↦ rw (n, m, o, q, dispatch) (inr (fail-Follows r a _ s live))
    ]

-- Reconcile sends nothing or one status, and that one may follow the action's: the phase after it, a
-- checkpoint while running, a retry below the limit, or Failed. It never leaves a terminal phase.
-- It holds for executors that leave the controller's fields alone.
pub reconcile_action-Step :
    {k : Kube} (r : Reconciler k)
    → ((type : String) (ex : Executor k) → r.executors type ≡ some ex → IsWellBehaved ex)
    → (a : Action) (s : State k)
    → ((reconcile_action r a s).1.updates ≡ s.updates)
      ⊎ ((terminal a.status.phase ≡ false)
          × Sends (Step (retry_limit r) a.status) s.updates (reconcile_action r a s).1.updates)
unfolding reconcile_action
reconcile_action-Step r behaved a s = elim (Bool-cases (terminal a.status.phase)) [
  | inl done ↦ rw (done, reconcile_action) (inl refl)
  | inr live ↦
      rw (live, reconcile_action)
        (elim (Option-cases (r.executors a.spec.action_type)) [
          | inl e ↦ rw (e, reconcile_action) (inr (refl, fail-Follows r a _ s live))
          | inr (ex, e) ↦
              rw (e, reconcile_action)
                (elim (dispatch-Follows r ex (behaved a.spec.action_type ex e) a s live) [
                  | inl quiet ↦ inl quiet
                  | inr sent ↦ inr (refl, sent)
                ])
        ])
]
