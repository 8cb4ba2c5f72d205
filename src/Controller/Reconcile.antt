-- ===== src/Controller/Reconcile.antt =====
-- Reconcile: one function for each phase, and the switch.
use Prim.Native.String.{◌++◌}
use k8s_ops_platform.Prelude.{
  String, Option, none, some, Bool, true, false, not, ◌*◌, ◌==◌, if◌then◌else◌,
}
use k8s_ops_platform.Api.{
  Action, ActionStatus, pending, running, verifying, succeeded, deep_copy_value,
}
use k8s_ops_platform.Api.Equality.{status_eq}
use k8s_ops_platform.Kube.{Kube, Err, M, pure, ◌>>=◌}
use k8s_ops_platform.Kube.Errors.{Result, ok, err, errorf, api, is_in_progress}
use k8s_ops_platform.Action.{Executor}
use k8s_ops_platform.Controller.{State, Reconciler, Reply}
use k8s_ops_platform.Controller.Phases.{terminal}
use k8s_ops_platform.Controller.Effects.{
  second, with_status, condition, error_text, lift, set_condition, audit, update_status,
  observe_if_saved, clock, timed_out, fail, retry_or_fail,
}

abbrev pub reply_nothing : (k : Kube) → Reply k
reply_nothing k = (record { requeue = false; requeue_after = 0 }, none)

abbrev pub message_of : (k : Kube) → Option (Err k) → String → String
message_of k none old = old
message_of k (some e) old = error_text k e

module _ {k : Kube} where
  -- updateStatus as the last call of a branch.
  abbrev pub save : Action → ActionStatus → M (State k) (Reply k)
  save action s = do saved ← update_status (with_status action s) true; pure saved.0

  -- case "": the action is accepted.
  unfoldable pub accept : Action → M (State k) (Reply k)
  accept action = save action (record action.status {
    phase = pending;
    message = "action accepted";
    observed_generation = action.metadata.generation;
  })

  -- case Pending: the start is recorded.
  unfoldable pub start : Reconciler k → Action → M (State k) (Reply k)
  start r action = do
    now ← lift (clock r)
    let action' = with_status action (record action.status {
      phase = running;
      started_at = some now;
      message = "execution started";
      observed_generation = action.metadata.generation;
    })
    marked ← set_condition action' (
        condition "Executing" "True" "Started" "action execution started"
          action.metadata.generation)
    audited ← audit marked "started" none
    save marked marked.status

  -- case Running, where Execute returned no error and left the status alone.
  unfoldable pub finish_execution : Action → M (State k) (Reply k)
  finish_execution action = do
    let action' = with_status action (record action.status {
      phase = verifying;
      message = "execution complete; verifying recovery";
    })
    executed ← set_condition action' (
        condition "Executing" "False" "Completed" "side effect completed"
          action.metadata.generation)
    marked ← set_condition executed (
        condition "Verified" "False" "InProgress" "recovery verification in progress"
          action.metadata.generation)
    save marked marked.status

  -- case Running, from the result of Execute on: the error, and the status that it left.
  unfoldable pub after_execute :
      Reconciler k → Action → Option (Err k) × ActionStatus → M (State k) (Reply k)
  after_execute r action (e, s) =
      let action' = with_status action s in
      if not (status_eq (deep_copy_value action.status) s)
      then save action' (record s { message = message_of k e s.message })
      else elim e [
        | none ↦ finish_execution action'
        | some cause ↦
            if is_in_progress cause
            then save action' (record s { message = error_text k cause })
            else retry_or_fail r action' cause
      ]

  unfoldable pub execute : Reconciler k → Executor k → Action → M (State k) (Reply k)
  execute r ex action = do result ← lift (ex.execute action); after_execute r action result

  -- case Running, from the result of Prepare on.
  unfoldable pub after_prepare :
      Reconciler k → Executor k → Action → Option (Err k) × ActionStatus → M (State k) (Reply k)
  after_prepare r ex action (some e, s) = retry_or_fail r (with_status action s) e
  after_prepare r ex action (none, s) =
      if not (status_eq (deep_copy_value action.status) s)
      then save action (record s { message = "execution checkpoint persisted" })
      else execute r ex (with_status action s)

  unfoldable pub prepare_and_execute : Reconciler k → Executor k → Action → M (State k) (Reply k)
  prepare_and_execute r ex action = elim ex.prepare [
    | none ↦ execute r ex action
    | some prepare ↦ do result ← lift (prepare action); after_prepare r ex action result
  ]

  -- case Running
  unfoldable pub run : Reconciler k → Executor k → Action → M (State k) (Reply k)
  run r ex action = do
    late ← timed_out r action
    if late
        then fail r action (errorf "action timed out during execution")
        else prepare_and_execute r ex action

  -- case Verifying, once Verify has said that the target is back.
  unfoldable pub succeed : Reconciler k → Action → M (State k) (Reply k)
  succeed r action = do
    now ← lift (clock r)
    let action' = with_status action (record action.status {
      phase = succeeded;
      completed_at = some now;
      message = "recovery verified";
    })
    marked ← set_condition action' (
        condition "Verified" "True" "Recovered" "target recovery verified"
          action.metadata.generation)
    audited ← audit marked "succeeded" none
    saved ← update_status marked false
    observe_if_saved (clock r) "succeeded" saved

  unfoldable pub after_verify : Reconciler k → Action → Result (Err k) Bool → M (State k) (Reply k)
  after_verify r action (err e) = retry_or_fail r action e
  after_verify r action (ok false) =
      pure (record { requeue = false; requeue_after = 2 * second }, none)
  after_verify r action (ok true) = succeed r action

  -- case Verifying
  unfoldable pub verify : Reconciler k → Executor k → Action → M (State k) (Reply k)
  verify r ex action = do
    late ← timed_out r action
    if late
        then fail r action (errorf "action timed out during verification")
        else do verified ← lift (ex.verify action); after_verify r action verified

  -- The switch over the phase.
  unfoldable pub dispatch : Reconciler k → Executor k → Action → M (State k) (Reply k)
  dispatch r ex action =
      let phase = action.status.phase in
      if phase == ""
      then accept action
      else if phase == pending
      then start r action
      else if phase == running
      then run r ex action
      else if phase == verifying
      then verify r ex action
      else fail r action (errorf ("invalid action phase " ++ k.quote phase))

  -- Reconcile, once it has the action.
  unfoldable pub reconcile_action : Reconciler k → Action → M (State k) (Reply k)
  reconcile_action r action =
      if terminal action.status.phase
      then pure (reply_nothing k)
      else elim (r.executors action.spec.action_type) [
        | none ↦
            fail r action (errorf ("unsupported action type " ++ k.quote action.spec.action_type))
        | some ex ↦ dispatch r ex action
      ]

  -- From the result of Get on.
  unfoldable pub after_get : Reconciler k → Result k.ApiError Action → M (State k) (Reply k)
  after_get r (err e) =
      pure (record { requeue = false; requeue_after = 0 }, k.ignore_not_found (api e))
  after_get r (ok action) = reconcile_action r action

  -- Reconcile
  unfoldable pub reconcile : Reconciler k → String → String → M (State k) (Reply k)
  reconcile r namespace name = do found ← lift (k.get_action namespace name); after_get r found
