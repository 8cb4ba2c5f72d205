-- ===== src/Controller/Audits/Phases.antt =====
-- The audit records of the phase Running, and the theorem about Reconcile.
use k8s_ops_platform.Prelude.{
  String, Option, none, some, true, false, ◌≡◌, inl, inr, refl, sym, ◌∙◌, subst, Bool-cases,
  Option-cases,
}
use k8s_ops_platform.Api.{Action, ActionStatus, running, deep_copy_value}
use k8s_ops_platform.Api.Equality.{status_eq}
use k8s_ops_platform.Kube.{Kube, Err}
use k8s_ops_platform.Kube.Errors.{is_in_progress, Result-cases, api, ok, err}
use k8s_ops_platform.Action.{Executor}
use k8s_ops_platform.Action.Contract.{KeepsIfAny, IsWellBehaved}
use k8s_ops_platform.Controller.{State, Reconciler, Reply}
use k8s_ops_platform.Controller.Phases.{terminal}
use k8s_ops_platform.Controller.Effects.{with_status, update_status, timed_out, retry_or_fail}
use k8s_ops_platform.Controller.Reconcile.{
  finish_execution, after_execute, execute, after_prepare, prepare_and_execute, run, dispatch,
  reconcile_action, after_get, reconcile,
}
use k8s_ops_platform.Controller.Steps.{working_not_terminal}
use k8s_ops_platform.Controller.Steps.Cases.{
  unset, is_pending, is_running, is_verifying, other, phase_cases, named, still_running,
}
use k8s_ops_platform.Controller.Audits.{
  Accounts, quiet, unaudited, Accounts-phase, Tells, fail-Tells, retry_or_fail-Tells, accept-Tells,
  start-Tells, verify-Tells,
}

module _ {k : Kube} (r : Reconciler k) where
  -- An executor that has left the phase of `a` as it was.
  module _ (a : Action) (t : ActionStatus) (s : State k) (p : a.status.phase ≡ running)
      (q : t.phase ≡ running) where
    save-Tells :
        (u : ActionStatus)
        → u.phase ≡ running
        → Tells r a s (update_status (with_status a u) true s).1
    unfolding update_status
    save-Tells u e = unaudited u refl (inl (e ∙ sym p)) refl

    retry-Tells : (cause : Err k) → Tells r a s (retry_or_fail r (with_status a t) cause s).1
    retry-Tells cause =
        Accounts-phase (q ∙ sym p)
          (retry_or_fail-Tells r (with_status a t) cause s (working_not_terminal _ (inl q)))

    broken-Tells :
        (cause : Err k)
        → status_eq (deep_copy_value a.status) t ≡ true
        → Tells r a s (after_execute r a (some cause, t) s).1
    unfolding after_execute
    broken-Tells cause same =
        rw (same, after_execute)
          (elim (Bool-cases (is_in_progress cause)) [
            | inl going ↦ rw (going, after_execute) (save-Tells _ q)
            | inr broken ↦ rw (broken, after_execute) (retry-Tells cause)
          ])

    unchanged-Tells :
        (e : Option (Err k))
        → status_eq (deep_copy_value a.status) t ≡ true
        → Tells r a s (after_execute r a (e, t) s).1
    unfolding after_execute finish_execution update_status
    unchanged-Tells none same = rw (same, after_execute) (unaudited _ refl (inr (inr refl)) refl)
    unchanged-Tells (some cause) same = broken-Tells cause same

    after_execute-Tells : (e : Option (Err k)) → Tells r a s (after_execute r a (e, t) s).1
    unfolding after_execute
    after_execute-Tells e = elim (Bool-cases (status_eq (deep_copy_value a.status) t)) [
      | inl same ↦ unchanged-Tells e same
      | inr changed ↦ rw (changed, after_execute) (save-Tells _ q)
    ]

  module _ (ex : Executor k) (behaved : IsWellBehaved ex) where
    execute-Tells :
        (a : Action) (s : State k) → a.status.phase ≡ running → Tells r a s (execute r ex a s).1
    unfolding execute
    execute-Tells a s p =
        after_execute-Tells a _ _ p
          (still_running r a (ex.execute a s.world).0.1 s p (behaved.execute_keeps a s.world))
          (ex.execute a s.world).0.0

    after_prepare-Tells :
        (a : Action) (e : Option (Err k)) (t : ActionStatus) (s : State k)
        → a.status.phase ≡ running
        → t.phase ≡ running
        → Tells r a s (after_prepare r ex a (e, t) s).1
    unfolding after_prepare
    after_prepare-Tells a (some cause) t s p q = retry-Tells a t s p q cause
    after_prepare-Tells a none t s p q =
        elim (Bool-cases (status_eq (deep_copy_value a.status) t)) [
          | inl same ↦
              rw (same, after_prepare)
                (Accounts-phase (q ∙ sym p) (execute-Tells (with_status a t) s q))
          | inr changed ↦ rw (changed, after_prepare) (save-Tells a t s p q _ q)
        ]

    prepare_and_execute-Tells :
        (a : Action) (s : State k)
        → a.status.phase ≡ running
        → Tells r a s (prepare_and_execute r ex a s).1
    unfolding prepare_and_execute
    prepare_and_execute-Tells a s p = elim (Option-cases ex.prepare) [
      | inl e ↦ rw (e, prepare_and_execute) (execute-Tells a s p)
      | inr (prepare, e) ↦
          let keeps = subst KeepsIfAny e behaved.prepare_keeps in
          rw (e, prepare_and_execute)
            (after_prepare-Tells a (prepare a s.world).0.0 _ _ p
              (still_running r a (prepare a s.world).0.1 s p (keeps a s.world)))
    ]

    run-Tells : (a : Action) (s : State k) → a.status.phase ≡ running → Tells r a s (run r ex a s).1
    unfolding run
    run-Tells a s p = elim (Bool-cases (timed_out r a s).0) [
      | inl late ↦ rw (late, run) (fail-Tells r a _ _ (working_not_terminal _ (inl p)))
      | inr early ↦ rw (early, run) (prepare_and_execute-Tells a _ p)
    ]

    dispatch-Tells :
        (a : Action) (s : State k)
        → terminal a.status.phase ≡ false
        → Tells r a s (dispatch r ex a s).1
    unfolding dispatch
    dispatch-Tells a s live = elim (phase_cases a.status.phase) [
      | unset e ↦ rw (e, dispatch) (accept-Tells r a s)
      | is_pending n e ↦ rw (n, e, dispatch) (start-Tells r a s (named e))
      | is_running n m e ↦ rw (n, m, e, dispatch) (run-Tells a s (named e))
      | is_verifying n m o e ↦ rw (n, m, o, e, dispatch) (verify-Tells r ex a s (named e))
      | other n m o q ↦ rw (n, m, o, q, dispatch) (fail-Tells r a _ s live)
    ]

-- Reconcile, once it has the action: the statuses and the records agree.
reconcile_action-Accounts :
    {k : Kube} (r : Reconciler k)
    → ((type : String) (ex : Executor k) → r.executors type ≡ some ex → IsWellBehaved ex)
    → (a : Action) (s : State k)
    → let s' = (reconcile_action r a s).1 in
      Accounts a.status.phase s.updates s.audits s'.updates s'.audits
unfolding reconcile_action
reconcile_action-Accounts r behaved a s = elim (Bool-cases (terminal a.status.phase)) [
  | inl done ↦ rw (done, reconcile_action) (quiet refl refl)
  | inr live ↦
      rw (live, reconcile_action)
        (elim (Option-cases (r.executors a.spec.action_type)) [
          | inl e ↦ rw (e, reconcile_action) (fail-Tells r a _ s live)
          | inr (ex, e) ↦
              rw (e, reconcile_action)
                (dispatch-Tells r ex (behaved a.spec.action_type ex e) a s live)
        ])
]

after_get-err :
    {k : Kube} (r : Reconciler k) (e : k.ApiError) (s : State k)
    → after_get r (err e) s
      ≡ ((record { requeue = false; requeue_after = 0 }, k.ignore_not_found (api e)), s)
unfolding after_get
after_get-err r e s = refl

after_get-Accounts :
    {k : Kube} (r : Reconciler k)
    → ((type : String) (ex : Executor k) → r.executors type ≡ some ex → IsWellBehaved ex)
    → (a : Action) (s : State k)
    → let s' = (after_get r (ok a) s).1 in
      Accounts a.status.phase s.updates s.audits s'.updates s'.audits
unfolding after_get
after_get-Accounts = reconcile_action-Accounts

-- What Reconcile comes to: the Action cannot be read, or it is read and reconciled.
pub data Reconciled {k : Kube} (namespace name : String) (s : State k) (out : Reply k × State k)
    : Type 0 where
  unread :
      (e : k.ApiError)
      → (k.get_action namespace name s.world).0 ≡ err e
      → out ≡ (
        (record { requeue = false; requeue_after = 0 }, k.ignore_not_found (api e)),
        record s { world = (k.get_action namespace name s.world).1 },
      )
      → Reconciled namespace name s out
  read :
      (a : Action)
      → (k.get_action namespace name s.world).0 ≡ ok a
      → Accounts a.status.phase s.updates s.audits out.1.updates out.1.audits
      → Reconciled namespace name s out

-- Reconcile of an Action that cannot be read sends nothing, records nothing, and returns the error, or
-- what IgnoreNotFound makes of it. Otherwise it writes an audit record exactly when the status that it
-- sends starts, completes or fails the Action, and the record holds that status, the word for it and,
-- for a failure, the cause whose text is the message of the status. Any other status that it sends
-- keeps the phase or is Pending or Verifying, and is not recorded; where it sends no status, it records
-- nothing. It holds for executors that leave the controller's fields alone.
pub reconcile-Accounts :
    {k : Kube} (r : Reconciler k)
    → ((type : String) (ex : Executor k) → r.executors type ≡ some ex → IsWellBehaved ex)
    → (namespace name : String) (s : State k)
    → Reconciled namespace name s (reconcile r namespace name s)
unfolding reconcile
reconcile-Accounts {k} r behaved namespace name s =
    elim (Result-cases (k.get_action namespace name s.world).0) [
      | inl (e, missing) ↦ unread e missing (rw (missing, reconcile) (after_get-err r e _))
      | inr (a, found) ↦ read a found (
          rw (found, reconcile)
            (after_get-Accounts r behaved a
              (record s { world = (k.get_action namespace name s.world).1 })))
    ]
