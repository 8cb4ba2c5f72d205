-- ===== src/Samples/InTime.antt =====
-- A deployment restart from its creation to its success, in time by a clock that goes on.
use k8s_ops_platform.Prelude.{true, String, [], ◌∷◌, false, ◌≡◌, refl, map}
use k8s_ops_platform.Prelude.Dict.{lookup, insert}
use k8s_ops_platform.Api.{Action, pending, running, verifying, succeeded, deep_copy_value}
use k8s_ops_platform.Api.Equality.{status_eq}
use k8s_ops_platform.Action.DeploymentRestart.{restart_annotation, annotate, rolled_out}
use k8s_ops_platform.Controller.{State, Reconciler}
use k8s_ops_platform.Controller.Effects.{
  timed_out, timed_out_since, update_status, observe_if_saved,
}
use k8s_ops_platform.Controller.Drive.{
  Succeeds, visits, after, latest, IsInTime, IsInTime-cons, IsInTime-ended,
}
use k8s_ops_platform.Controller.Phases.{terminal}
use k8s_ops_platform.Controller.Reconcile.{
  reconcile_action, dispatch, accept, start, run, prepare_and_execute, execute, after_execute,
  finish_execution, verify, after_verify, succeed,
}
use k8s_ops_platform.Action.DeploymentRestart
use k8s_ops_platform.Manager.{reconciler, executors}
use k8s_ops_platform.Manager.Rollout.Completion.{drive-Completes}
use k8s_ops_platform.Samples.{cluster}
use k8s_ops_platform.Samples.Actions.{web}
use k8s_ops_platform.Samples.Completions.{slow, request, IsReady, IsUnderWay, slow-CarriesOut}

abbrev requested : State slow
requested = record {
  world = record cluster { deployments = web ∷ []; now = 63900000000000000000 };
  updates = [];
  audits = [];
  calls = [];
}

abbrev process : Reconciler slow
process = reconciler slow

abbrev Reached : Type 0
Reached = Action × State slow

-- What the five reconciliations leave.
abbrev one : Reached
one = after process request requested

abbrev two : Reached
two = after process one.0 one.1

abbrev three : Reached
three = after process two.0 two.1

abbrev four : Reached
four = after process three.0 three.1

abbrev five : Reached
five = after process four.0 four.1

early_one : (timed_out process one.0 one.1).0 ≡ false
unfolding reconcile_action executors terminal dispatch accept start run prepare_and_execute execute
    after_execute finish_execution verify after_verify succeed update_status observe_if_saved
    timed_out_since DeploymentRestart.execute DeploymentRestart.verify rolled_out annotate lookup
    insert status_eq deep_copy_value
early_one = refl

early_two : (timed_out process two.0 two.1).0 ≡ false
unfolding reconcile_action executors terminal dispatch accept start run prepare_and_execute execute
    after_execute finish_execution verify after_verify succeed update_status observe_if_saved
    timed_out_since DeploymentRestart.execute DeploymentRestart.verify rolled_out annotate lookup
    insert status_eq deep_copy_value
early_two = refl

early_three : (timed_out process three.0 three.1).0 ≡ false
unfolding reconcile_action executors terminal dispatch accept start run prepare_and_execute execute
    after_execute finish_execution verify after_verify succeed update_status observe_if_saved
    timed_out_since DeploymentRestart.execute DeploymentRestart.verify rolled_out annotate lookup
    insert status_eq deep_copy_value
early_three = refl

early_four : (timed_out process four.0 four.1).0 ≡ false
unfolding reconcile_action executors terminal dispatch accept start run prepare_and_execute execute
    after_execute finish_execution verify after_verify succeed update_status observe_if_saved
    timed_out_since DeploymentRestart.execute DeploymentRestart.verify rolled_out annotate lookup
    insert status_eq deep_copy_value
early_four = refl

early_five : (timed_out process five.0 five.1).0 ≡ false
unfolding reconcile_action executors terminal dispatch accept start run prepare_and_execute execute
    after_execute finish_execution verify after_verify succeed update_status observe_if_saved
    timed_out_since DeploymentRestart.execute DeploymentRestart.verify rolled_out annotate lookup
    insert status_eq deep_copy_value
early_five = refl

five_ended :
    (terminal five.0.status.phase ≡ true) × (latest five.0.status five.1.updates ≡ five.0.status)
unfolding reconcile_action executors terminal dispatch accept start run prepare_and_execute execute
    after_execute finish_execution verify after_verify succeed update_status observe_if_saved
    timed_out_since DeploymentRestart.execute DeploymentRestart.verify rolled_out annotate lookup
    insert status_eq deep_copy_value
five_ended = (refl, refl)

-- With a clock that goes on, the run is in time.
request-IsInTime : IsInTime process request requested
unfolding timed_out_since
request-IsInTime = IsInTime-cons process request requested refl (
    IsInTime-cons process one.0 one.1 early_one (
      IsInTime-cons process two.0 two.1 early_two (
        IsInTime-cons process three.0 three.1 early_three (
          IsInTime-cons process four.0 four.1 early_four
            (IsInTime-ended process five.0 five.1 five_ended.0 five_ended.1 early_five)))))

drive-Completes_example : Succeeds (reconciler slow) 5 request requested
drive-Completes_example =
    drive-Completes slow request 1 IsReady IsUnderWay slow-CarriesOut refl requested
      request-IsInTime refl refl

-- The second reconciliation in the phase Verifying finds the rollout finished.
visits_test :
    map (λ (v : String × String). v.0) (visits (reconciler slow) 5 request requested)
    ≡ pending ∷ running ∷ verifying ∷ verifying ∷ succeeded ∷ []
unfolding visits reconcile_action executors terminal dispatch accept start run prepare_and_execute
    execute after_execute finish_execution verify after_verify succeed update_status
    observe_if_saved timed_out_since DeploymentRestart.execute DeploymentRestart.verify rolled_out
    annotate lookup insert status_eq deep_copy_value
visits_test = refl
