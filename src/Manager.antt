-- ===== src/Manager.antt =====
-- cmd/action-controller/main.go: the reconciler that the process runs, with its three executors.
pub mod Contract
pub mod Confinement
pub mod Maintenance
pub mod Restart
pub mod Rollout
pub mod Startup
use k8s_ops_platform.Prelude.{String, Option, none, some, ◌==◌, if◌then◌else◌}
use k8s_ops_platform.Prelude.Int.{ℤ}
use k8s_ops_platform.Api.{pod_restart, deployment_restart, node_maintenance}
use k8s_ops_platform.Kube.{Kube}
use k8s_ops_platform.Action.{Executor}
use k8s_ops_platform.Action.PodRestart
use k8s_ops_platform.Action.DeploymentRestart
use k8s_ops_platform.Action.NodeMaintenance
use k8s_ops_platform.Action.NodeMaintenance.{noop_maintenance_hook}
use k8s_ops_platform.Controller.{Reconciler}

module _ (k : Kube) where
  abbrev pub pod_restart_executor : Executor k
  pod_restart_executor = record {
    prepare = some (PodRestart.prepare k);
    execute = PodRestart.execute k;
    verify = PodRestart.verify k;
  }

  abbrev pub deployment_restart_executor : Executor k
  deployment_restart_executor = record {
    prepare = none;
    execute = DeploymentRestart.execute k;
    verify = DeploymentRestart.verify k;
  }

  abbrev pub node_maintenance_executor : Executor k
  node_maintenance_executor = record {
    prepare = none;
    execute = NodeMaintenance.execute k (some (noop_maintenance_hook k));
    verify = NodeMaintenance.verify k;
  }

  unfoldable pub executors : String → Option (Executor k)
  executors type =
      if type == pod_restart
      then some pod_restart_executor
      else if type == deployment_restart
      then some deployment_restart_executor
      else if type == node_maintenance
      then some node_maintenance_executor
      else none

  abbrev pub reconciler : Reconciler k
  reconciler = record { executors = executors; now = none; max_retries = ℤ.pos 0 }
