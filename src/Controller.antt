-- ===== src/Controller.antt =====
-- controllers/action_controller.go and state_machine.go: the reconciler of Action resources, with the
-- recorder of internal/audit/audit.go.
-- Besides the world, the state keeps what the reconciler sends out, newest first: the statuses that
-- it asks the API server to store, the audit records, and the metric calls. Log lines are left out.
pub mod Phases
pub mod Effects
pub mod Reconcile
pub mod Steps
pub mod Outcomes
pub mod Retries
pub mod Life
pub mod Drive
pub mod Progress
pub mod Failure
pub mod Audits
pub mod Calls
pub mod AuditLog
use k8s_ops_platform.Prelude.{ℕ, String, Option, List, Bool}
use k8s_ops_platform.Prelude.Int.{ℤ}
use k8s_ops_platform.Api.{Action, ActionStatus}
use k8s_ops_platform.Kube.{Kube, Err, M}
use k8s_ops_platform.Metrics.{MetricCall}
use k8s_ops_platform.Action.{Executor}

-- An entry of the audit log: the arguments of Recorder.Record.
pub record AuditEntry (k : Kube) : Type 0 where
  pub action : Action
  pub result : String
  pub error : Option (Err k)

pub record State (k : Kube) : Type 0 where
  pub world : k.World
  pub updates : List ActionStatus
  pub audits : List (AuditEntry k)
  pub calls : List MetricCall

-- ActionReconciler. A nil Now and a zero MaxRetries stand for their defaults.
pub record Reconciler (k : Kube) : Type 0 where
  pub executors : String → Option (Executor k)
  pub now : Option (M k.World ℕ)
  pub max_retries : ℤ

-- ctrl.Result
pub record Requeue : Type 0 where
  pub requeue : Bool
  pub requeue_after : ℕ

-- What Reconcile returns: a result and an error.
abbrev pub Reply : Kube → Type 0
Reply k = Requeue × Option (Err k)
