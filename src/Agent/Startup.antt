-- ===== src/Agent/Startup.antt =====
-- The start of the agent, main of cmd/agent/main.go: the steps that may end it, and the publication of
-- the cache sizes once the caches have synced. The clients and informers are a parameter. The
-- registration of the handlers is Agent.Handlers.notify, and the HTTP server and the refreshing loop
-- are in Agent.Server.
use k8s_ops_platform.Prelude.{String, Option, none, List, Bool}
use k8s_ops_platform.Api.Group.{SchemeLibrary, add_to_scheme}
use k8s_ops_platform.Kube.{M}
use k8s_ops_platform.Kube.Config.{ConfigSource, config}
use k8s_ops_platform.Kube.Startup.{Exit, returned, Process, require, check, ensure}
use k8s_ops_platform.Metrics.{MetricCall}
use k8s_ops_platform.Agent.{Flags}
use k8s_ops_platform.Agent.StatePage.{Informer, cache_sources, publish_cache_objects}

-- The four informers, and what their stores hold in a world.
pub record Host : Type 1 where
  pub source : ConfigSource
  pub Object : Type 0
  pub new_kube_client : source.RestConfig → M source.World (Option source.Failure)
  pub schemes : SchemeLibrary
  pub new_action_client :
      source.RestConfig → schemes.Scheme → M source.World (Option source.Failure)
  -- Start of the factory, and then WaitForCacheSync.
  pub start_informers : M source.World (Unit {0})
  pub wait_for_cache_sync : M source.World Bool
  pub nodes : source.World → Informer Object
  pub pods : source.World → Informer Object
  pub deployments : source.World → Informer Object
  pub events : source.World → Informer Object

pub data Step : Type 0 where
  build_config create_kube_client create_action_client sync_caches publish_caches : Step

-- The last step has no message, since it cannot fail.
abbrev pub message : Step → String
message build_config = "build kubernetes config"
message create_kube_client = "create kubernetes client"
message create_action_client = "create action client"
message sync_caches = "informer cache sync failed"
message publish_caches = ""

module _ (host : Host) where
  open host use {source, schemes}

  -- The world, and the metric calls, newest first.
  pub record State : Type 0 where
    pub world : source.World
    pub calls : List MetricCall

  abbrev pub lift : {A : Type 0} → M source.World A → M State A
  lift m s = ((m s.world).0, record s { world = (m s.world).1 })

  -- The informers are started, and main waits for them.
  abbrev pub sync : M State Bool
  sync = lift (λ w. host.wait_for_cache_sync (host.start_informers w).1)

  unfoldable pub publish : M State (Option source.Failure)
  publish s =
      let w = s.world in
      let sources =
        cache_sources (host.nodes w) (host.pods w) (host.deployments w) (host.events w) in
      (none, record s { calls = publish_cache_objects sources s.calls })

  abbrev pub finish : M (Process State Step) (Exit source.Failure)
  finish p = (returned, p)

  -- The scheme of the client for Actions; the error of the registration is dropped.
  abbrev pub action_scheme : schemes.Scheme
  action_scheme = (add_to_scheme schemes schemes.new_scheme).1

  -- main, with the values of its flags, until it waits for a signal.
  unfoldable pub main : Flags → M (Process State Step) (Exit source.Failure)
  main flags = require message build_config (lift (config source flags.kubeconfig)) (λ rest.
      check message create_kube_client (lift (host.new_kube_client rest)) (
        check message create_action_client (lift (host.new_action_client rest action_scheme))
          (ensure message sync_caches sync (check message publish_caches publish finish))))
