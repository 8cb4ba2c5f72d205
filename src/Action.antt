-- ===== src/Action.antt =====
-- internal/action: what the controller runs for each type of action (executor.go), and the three
-- executors in the modules below.
-- An executor that writes `action.Status` returns the new status. Verify writes nothing.
pub mod PodRestart
pub mod DeploymentRestart
pub mod NodeMaintenance
pub mod Contract
use k8s_ops_platform.Prelude.{Bool, Option}
use k8s_ops_platform.Api.{Action, ActionStatus}
use k8s_ops_platform.Kube.{Kube, Err, M}
use k8s_ops_platform.Kube.Errors.{Result}

-- The interfaces Executor and Preparer; `prepare` is none where the second is not implemented.
pub record Executor (k : Kube) : Type 0 where
  pub prepare : Option (Action → M k.World (Option (Err k) × ActionStatus))
  pub execute : Action → M k.World (Option (Err k) × ActionStatus)
  pub verify : Action → M k.World (Result (Err k) Bool)
