-- ===== src/Manager/Startup.antt =====
-- The start of the controller process, main of cmd/action-controller/main.go. What controller-runtime
-- and client-go do is a parameter; the parsing of the flags and the loggers are left out.
use k8s_ops_platform.Prelude.{String, Option, Bool}
use k8s_ops_platform.Api.Group.{SchemeLibrary, add_to_scheme}
use k8s_ops_platform.Kube.{M}
use k8s_ops_platform.Kube.Errors.{Result}
use k8s_ops_platform.Kube.Config.{ConfigSource, config}
use k8s_ops_platform.Kube.Startup.{Exit, returned, Process, require, check}
use k8s_ops_platform.Metrics.Registry.{Registerer, register}

-- The libraries that main calls, and the errors of the registry among theirs.
pub record Host : Type 1 where
  pub source : ConfigSource
  pub Manager : Type 0
  pub TypedClient : Type 0
  pub already_registered : source.Failure → Bool
  pub schemes : SchemeLibrary
  -- AddToScheme of client-go, for the types of Kubernetes.
  pub add_client_go : schemes.Scheme → Option schemes.Failure × schemes.Scheme
  -- NewManager, with the scheme and the addresses of the metrics and of the probes.
  pub new_manager :
      source.RestConfig
      → schemes.Scheme
      → String
      → String
      → M source.World (Result source.Failure Manager)
  pub add_healthz_check : Manager → String → M source.World (Option source.Failure)
  pub add_readyz_check : Manager → String → M source.World (Option source.Failure)
  pub register_collector : String → M source.World (Option source.Failure)
  -- IndexField for pods, by the field that is named.
  pub index_field : Manager → String → M source.World (Option source.Failure)
  pub new_typed_client : source.RestConfig → M source.World (Result source.Failure TypedClient)
  -- NewControllerManagedBy, For the objects of a kind, and Complete with the reconciler, whose
  -- clients these are.
  pub new_controller : Manager → String → TypedClient → M source.World (Option source.Failure)
  pub start : Manager → M source.World (Option source.Failure)

-- The flags of main, and their values in a process that is started without arguments.
pub record Flags : Type 0 where
  pub kubeconfig : String
  pub metrics_address : String

abbrev pub default_flags : Flags
default_flags = record { kubeconfig = ""; metrics_address = ":8080" }

pub data Step : Type 0 where
  build_config create_manager register_healthz register_readyz register_metrics : Step
  create_index create_client setup_controller start_manager : Step

abbrev pub message : Step → String
message build_config = "build kubernetes config"
message create_manager = "create manager"
message register_healthz = "register healthz check"
message register_readyz = "register readyz check"
message register_metrics = "register custom metrics"
message create_index = "create pod node index"
message create_client = "create typed client"
message setup_controller = "setup controller"
message start_manager = "manager stopped"

module _ (host : Host) where
  open host use {source, schemes}

  -- crmetrics.Registry
  abbrev pub registry : Registerer
  registry = record {
    World = source.World;
    Failure = source.Failure;
    already_registered = host.already_registered;
    register = host.register_collector;
  }

  abbrev pub finish : M (Process source.World Step) (Exit source.Failure)
  finish p = (returned, p)

  -- SetupWithManager of the reconciler
  abbrev pub setup_with_manager :
      host.Manager → host.TypedClient → M source.World (Option source.Failure)
  setup_with_manager manager client = host.new_controller manager "Action" client

  -- From the manager on.
  unfoldable pub run_manager :
      source.RestConfig → host.Manager → M (Process source.World Step) (Exit source.Failure)
  run_manager rest manager =
      check message register_healthz (host.add_healthz_check manager "healthz") (
        check message register_readyz (host.add_readyz_check manager "readyz") (
          check message register_metrics (register registry) (
            check message create_index (host.index_field manager "spec.nodeName") (
              require message create_client (host.new_typed_client rest) (λ client.
                check message setup_controller (setup_with_manager manager client)
                  (check message start_manager (host.start manager) finish))))))

  -- The scheme, with the types of Kubernetes and of the API group; the errors are dropped.
  abbrev pub scheme : schemes.Scheme
  scheme = (add_to_scheme schemes (host.add_client_go schemes.new_scheme).1).1

  -- main, with the values of its flags.
  unfoldable pub main : Flags → M (Process source.World Step) (Exit source.Failure)
  main flags = require message build_config (config source flags.kubeconfig) (λ rest.
      require message create_manager (host.new_manager rest scheme flags.metrics_address ":8081")
        (λ manager. run_manager rest manager))
