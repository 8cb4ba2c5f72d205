-- ===== src/Controller/Effects.antt =====
-- The parts of the reconciler that other parts call: updateStatus, audit, timedOut, fail and
-- retryOrFail.
use k8s_ops_platform.Prelude.{
  ℕ, String, Option, none, some, ◌∷◌, Bool, true, false, ◌+◌, ◌*◌, ltb, if◌then◌else◌,
}
use k8s_ops_platform.Prelude.Int.{ℤ, leb_ℤ, eqb_ℤ, inc_int32}
use k8s_ops_platform.Api.{Action, ActionStatus, Condition, failed}
use k8s_ops_platform.Kube.{Kube, Err, M, pure, ◌>>=◌}
use k8s_ops_platform.Kube.Errors.{text, as_error}
use k8s_ops_platform.Metrics.{observe_action, duration}
use k8s_ops_platform.Controller.{State, Reconciler, Reply}

abbrev pub second : ℕ
second = 1000000000

abbrev pub default_timeout : ℕ
default_timeout = 300 * second

abbrev pub with_status : Action → ActionStatus → Action
with_status action s = record action { status = s }

-- A literal metav1.Condition; SetStatusCondition fills in the time.
abbrev pub condition : String → String → String → String → ℤ → Condition
condition type status reason message generation = record {
  type = type;
  status = status;
  observed_generation = generation;
  last_transition_time = 0;
  reason = reason;
  message = message;
}

abbrev pub is_conflict_error : (k : Kube) → Option (Err k) → Bool
is_conflict_error k none = false
is_conflict_error k (some e) = k.is_conflict e

abbrev pub error_text : (k : Kube) → Err k → String
error_text k e = text k.error_text e

-- What updateStatus returns, from its argument `requeue` and the error of the update.
abbrev pub reply_of_update : (k : Kube) → Bool → Option (Err k) → Reply k
reply_of_update k requeue e =
    if is_conflict_error k e
    then (record { requeue = true; requeue_after = 0 }, none)
    else (record { requeue = requeue; requeue_after = 0 }, e)

abbrev pub timeout_of : ℤ → ℕ
timeout_of (ℤ.pos n) = if ltb 0 n then n * second else default_timeout
timeout_of (ℤ.negsuc n) = default_timeout

-- timedOut. The clock is read only for an action that has started.
unfoldable pub timed_out_since : {W : Type 0} → M W ℕ → ℕ → Option ℕ → M W Bool
timed_out_since now timeout none = pure false
timed_out_since now timeout (some started) = do t ← now; pure (ltb (started + timeout) t)

module _ {k : Kube} where
  -- An effect on the cluster, as one on the reconciler's state.
  abbrev pub lift : {A : Type 0} → M k.World A → M (State k) A
  lift m s = ((m s.world).0, record s { world = (m s.world).1 })

  abbrev pub set_condition : Action → Condition → M (State k) Action
  set_condition action c = do
    cs ← lift (k.set_status_condition action.status.conditions c)
    pure (with_status action (record action.status { conditions = cs }))

  -- audit: the recorder is asked to record, whichever it is.
  abbrev pub audit : Action → String → Option (Err k) → M (State k) (Unit {0})
  audit action result e s =
      (tt, record s { audits = record { action = action; result = result; error = e } ∷ s.audits })

  -- updateStatus: the reply, and the action as the answer of the API server leaves it.
  unfoldable pub update_status : Action → Bool → M (State k) (Reply k × Action)
  update_status action requeue s =
      let ((e, answer), w) = k.update_status action s.world in
      (
        (reply_of_update k requeue (as_error e), answer),
        record s { world = w; updates = action.status ∷ s.updates },
      )

  -- ObserveAction, if updateStatus returned no error, with the time from the start until now.
  unfoldable pub observe_if_saved : M k.World ℕ → String → Reply k × Action → M (State k) (Reply k)
  observe_if_saved now result ((requeue, some e), answer) = pure (requeue, some e)
  observe_if_saved now result ((requeue, none), answer) = do
    t ← lift now
    λ s. (
      (requeue, none),
      record s {
        calls = observe_action answer result (duration answer.status.started_at t) s.calls;
      },
    )

  abbrev pub clock : Reconciler k → M k.World ℕ
  clock r = elim r.now [ none ↦ k.time_now | some now ↦ now ]

  abbrev pub retry_limit : Reconciler k → ℤ
  retry_limit r = if eqb_ℤ r.max_retries (ℤ.pos 0) then ℤ.pos 3 else r.max_retries

  abbrev pub timed_out : Reconciler k → Action → M (State k) Bool
  timed_out r action =
      lift (
        timed_out_since (clock r) (timeout_of action.spec.timeout_seconds) action.status.started_at)

  -- fail
  unfoldable pub fail : Reconciler k → Action → Err k → M (State k) (Reply k)
  fail r action cause = do
    now ← lift (clock r)
    let action' = with_status action (record action.status {
      phase = failed;
      completed_at = some now;
      message = error_text k cause;
    })
    marked ←
        set_condition action'
          (condition "Verified" "False" "Failed" (error_text k cause) action.metadata.generation)
    audited ← audit marked "failed" (some cause)
    saved ← update_status marked false
    observe_if_saved (clock r) "failed" saved

  abbrev pub requeue_after_jitter : Reply k → M (State k) (Reply k)
  requeue_after_jitter (q, some e) = pure (q, some e)
  requeue_after_jitter (q, none) = do
    d ← lift (k.jitter (2 * second) 25)
    pure (record q { requeue_after = d }, none)

  -- retryOrFail
  unfoldable pub retry_or_fail : Reconciler k → Action → Err k → M (State k) (Reply k)
  retry_or_fail r action cause = do
    let count = inc_int32 action.status.retry_count
    marked ←
        set_condition
          (with_status action
            (record action.status { retry_count = count; message = error_text k cause }))
          (condition "Degraded" "True" "OperationError" (error_text k cause)
            action.metadata.generation)
    if leb_ℤ (retry_limit r) count
        then fail r marked cause
        else do saved ← update_status marked false; requeue_after_jitter saved.0
