-- ===== src/Agent.antt =====
-- cmd/agent/main.go: the handlers of the informers. A handler takes what an informer hands it, runs
-- the detector, tells the tracker, and hands each result to the sinks. The informers' caches are a
-- parameter. The pages, the start and the end of the process are in the modules below.
pub mod Handlers
pub mod Laws
pub mod History
pub mod Gauge
pub mod Requests
pub mod StatePage
pub mod Startup
pub mod Server
use k8s_ops_platform.Prelude.{ℕ, String, Option, none, some, List, [], ◌∷◌, Bool, true, false, ◌*◌}
use k8s_ops_platform.Prelude.Int.{ℤ}
use k8s_ops_platform.Kube.{Kube}
use k8s_ops_platform.Kube.Objects.{Pod, Node, Deployment, Event}
use k8s_ops_platform.Metrics.{DiagnosisTracker}
use k8s_ops_platform.Policy.{Config}

-- What an informer may hand to a handler: an object, or a tombstone with the last known one.
pub data Notified : Type 0 where
  pod : Pod → Notified
  node : Node → Notified
  deployment : Deployment → Notified
  event : Event → Notified
  tombstone : Notified → Notified
  other : Notified

-- object[T], at each type that main uses it at.
abbrev exact_pod : Notified → Option Pod
exact_pod (pod p) = some p
exact_pod _ = none

unfoldable pub as_pod : Notified → Option Pod
as_pod (pod p) = some p
as_pod (tombstone last) = exact_pod last
as_pod _ = none

abbrev exact_node : Notified → Option Node
exact_node (node n) = some n
exact_node _ = none

unfoldable pub as_node : Notified → Option Node
as_node (node n) = some n
as_node (tombstone last) = exact_node last
as_node _ = none

abbrev exact_deployment : Notified → Option Deployment
exact_deployment (deployment d) = some d
exact_deployment _ = none

unfoldable pub as_deployment : Notified → Option Deployment
as_deployment (deployment d) = some d
as_deployment (tombstone last) = exact_deployment last
as_deployment _ = none

abbrev exact_event : Notified → Option Event
exact_event (event e) = some e
exact_event _ = none

unfoldable pub as_event : Notified → Option Event
as_event (event e) = some e
as_event (tombstone last) = exact_event last
as_event _ = none

-- What the agent works with: the listers of the informers' caches (none for an error), the i-th
-- reading of the clock in a run of a detector, and SHA-256.
pub record Env : Type 0 where
  pub list_events : String → Option (List Event)
  pub get_pod : String → String → Option Pod
  pub now : ℕ → ℕ
  pub sha256 : String → List ℕ

pub record AgentState (k : Kube) : Type 0 where
  pub world : k.World
  pub tracker : DiagnosisTracker

-- The flags of main; a duration is a number of nanoseconds.
pub record Flags : Type 0 where
  pub kubeconfig : String
  pub resync : ℕ
  pub auto_pod_restart : Bool
  pub auto_deployment_restart : Bool
  pub metrics_address : String
  pub cache_refresh : ℕ

-- Their values in a process that is started without arguments.
abbrev pub default_flags : Flags
default_flags = record {
  kubeconfig = "";
  resync = 10 * 60 * 1000000000;
  auto_pod_restart = false;
  auto_deployment_restart = false;
  metrics_address = ":8080";
  cache_refresh = 30 * 1000000000;
}

-- The policy of main, for its flags.
abbrev pub main_config : Flags → Config
main_config flags = record {
  auto_pod_restart = flags.auto_pod_restart;
  auto_deployment_restart = flags.auto_deployment_restart;
  action_timeout_seconds = ℤ.pos 300;
  excluded_namespaces = "k8s-ops-platform" ∷ "kube-system" ∷ [];
}
