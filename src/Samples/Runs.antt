-- ===== src/Samples/Runs.antt =====
-- Runs of the reconciler over several reconciliations, and its audit log, at the sample cluster.
use k8s_ops_platform.Prelude.{none, some, [], ◌∷◌, true}
use k8s_ops_platform.Prelude.Int.{ℤ}
use k8s_ops_platform.Kube.Errors.{ok, errorf}
use k8s_ops_platform.Action.{Executor}
use k8s_ops_platform.Controller.{State, Reconciler}
use k8s_ops_platform.Controller.Reconcile.{reconcile}
use k8s_ops_platform.Controller.Audits.Phases.{Reconciled, reconcile-Accounts}
use k8s_ops_platform.Manager.{reconciler}
use k8s_ops_platform.Manager.Contract.{executors-IsWellBehaved}
use k8s_ops_platform.Samples.{sample, cluster}
use k8s_ops_platform.Samples.Controllers.{start_state, started, stopped_clock}

-- The cluster with the started Action in it.
abbrev started_state : State sample
started_state = record start_state { world = record cluster { actions = started ∷ [] } }

reconcile-Accounts_example :
    Reconciled {k = sample} "shop" "restart" started_state
      (reconcile (reconciler sample) "shop" "restart" started_state)
reconcile-Accounts_example =
    reconcile-Accounts (reconciler sample) (executors-IsWellBehaved sample) "shop" "restart"
      started_state

-- An executor that always has an error.
abbrev broken : Executor sample
broken = record {
  prepare = none;
  execute = λ a w. ((some (errorf "broken"), a.status), w);
  verify = λ a w. (ok true, w);
}

abbrev broken_reconciler : Reconciler sample
broken_reconciler = record {
  executors = λ type. some broken;
  now = some stopped_clock;
  max_retries = ℤ.pos 0;
}
