-- ===== src/Lib.antt =====
-- A model of k8s-ops-platform, an agent that diagnoses a Kubernetes cluster and a controller that
-- carries out the actions that follow, with the theorems about it. Paths are from the repository's root.
--
-- The parts and how they interact:
--   - The agent (cmd/agent/main.go) gets pods, nodes, deployments and events from informers. Each
--     handler runs a detector (internal/diagnosis), tells the tracker of active diagnoses
--     (internal/metrics/metrics.go), and hands each result to the sinks; the policy
--     (internal/policy/policy.go) creates an Action for some of them.
--   - The controller (controllers/action_controller.go, controllers/state_machine.go, run by
--     cmd/action-controller/main.go) reconciles Actions (api/v1alpha1) through their phases. For the
--     work it calls an executor (internal/action), and it sends each status to the API server.
--
-- The files:
--   - Prelude and its children: shared names, tests on numbers, lists, signed machine integers, maps.
--   - Api, Api.Equality: api/v1alpha1/action_types.go, the status copy of zz_generated.deepcopy.go, and
--     the equality that the controller asks of reflect.DeepEqual (status_eq).
--   - Api.Memory: the deep copies of zz_generated.deepcopy.go, with pointers and slices as addresses of
--     cells. Shape says what a value reaches, Copies and Lists that the copies are copies, Apart that
--     nothing written through the one shows in the other.
--   - Api.Group: api/v1alpha1/groupversion_info.go.
--   - Kube, Kube.Errors, Kube.Objects: the client libraries as a parameter, Go's error values
--     (internal/action/executor.go), and the fields of the cluster's objects that the code reads.
--   - Action and its children: internal/action. PodRestart, DeploymentRestart and NodeMaintenance have
--     Prepare, Execute and Verify under these names in lower case; Contract is what the controller
--     relies on.
--   - Diagnosis and its children: internal/diagnosis. `diagnose` is Diagnose of each detector;
--     Diagnosis.Log has the line that LogSink writes.
--   - Kube.Config is internal/kube/config.go; Kube.Startup is how both processes take the steps of their
--     start, and end when one fails.
--   - Metrics and its children: internal/metrics/metrics.go. observe_resource is ObserveResource;
--     Metrics.Registry has Register.
--   - Controller: Phases is state_machine.go; Effects has updateStatus, audit, timedOut, fail and
--     retryOrFail; Reconcile has Reconcile, with one function for each case of its switch; Steps,
--     Outcomes, Retries, Life, Audits, Progress and Failure have the theorems. Drive runs
--     reconciliations one after the other. Calls has the calls of the cluster that Reconcile makes, as
--     steps from one world to the next. AuditLog is the recorder of internal/audit/audit.go.
--   - Manager: the reconciler that cmd/action-controller/main.go builds; Manager.Maintenance,
--     Manager.Restart and Manager.Rollout put the reconciler and the executors for nodes, pods and
--     deployments together, Manager.Maintenance.Visits follows a maintenance through its checkpoints,
--     and Manager.Rollout.Completion a rollout from the creation of its Action on; Manager.Confinement
--     is what an Action of each type may do to the cluster; Manager.Startup has the steps of main.
--   - Policy: internal/policy/policy.go. Policy.Sink has Handle and createIfNoActive; Policy.Names is
--     about the names of the Actions.
--   - Agent: the handlers of cmd/agent/main.go, under the names of their variables; `notify` is the
--     registration, `serve` a history of notifications. Agent.StatePage has the /state page
--     and the cache metrics with their refreshing loop, Agent.Startup the steps of main,
--     Agent.Server the other pages and the end of the process.
--     Agent.Requests is about the Action that the agent asks for.
--   - Platform: the agent and the controller together, through the Action that one asks for and the other
--     carries out; Platform.Reach has their turns in any order, Platform.Observation those of an agent
--     that may make no Action.
--   - Samples: a cluster in memory, at which the theorems are applied and the code is run.
--
-- State and effects. The API server, the clock and the random source are the record Kube: operations on
-- an unknown world, each of which returns the world after it, so that what others do between two calls
-- is covered. Code that writes to an object returns the object's new value. The reconciler's state has
-- the world and, newest first, the statuses sent, the audit records and the metric calls. A time is a
-- number of nanoseconds with 0 for Go's zero time; an int32 or int64 is a ℤ, and `++` on an int32 wraps;
-- the tracker's counts are 64-bit patterns. Every loop is a recursion on a list, so there is no fuel but
-- that of the decimal digits, of which a machine integer has at most 20.
--
-- Not modelled: the parsing of flags; the encoding of the /state page as JSON and the page of the Prometheus
-- client, which are parameters; log lines but those of the audit, of the diagnoses and of the ends of
-- the processes; the timing of the ticker; manifests, charts and scripts.
pub mod Prelude
pub mod Api
pub mod Kube
pub mod Action
pub mod Diagnosis
pub mod Metrics
pub mod Controller
pub mod Manager
pub mod Policy
pub mod Agent
pub mod Platform
pub mod Samples
