-- ===== src/Agent/StatePage/Page.antt =====
-- The whole /state page next to the gauge of the cache sizes, as the refreshing loop leaves it.
use k8s_ops_platform.Prelude.{
  ℕ, String, Option, none, some, List, [], ◌∷◌, ◌≡◌, ◌==◌, refl, length, map, ◌++◌, if◌then◌else◌,
}
use k8s_ops_platform.Metrics.{
  MetricCall, set_active, inc_diagnosis, inc_action, inc_action_failed, observe_duration,
  set_cache_objects, set_informer_cache_objects,
}
use k8s_ops_platform.Agent.StatePage.{
  ResourceState, resource_state, state_page, Informer, cache_sources, publish_cache_objects,
  CacheSource, Selected, ticked, done, refresh,
}
use k8s_ops_platform.Agent.StatePage.Order.{IsSorted, sort_strings-IsSorted}

-- The value of the gauge of a kind, by the newest call that sets it.
abbrev pub cache_gauge : String → List MetricCall → Option ℕ
cache_gauge kind [] = none
cache_gauge kind (set_cache_objects other n ∷ calls) =
    let rest = cache_gauge kind calls in if other == kind then some n else rest
cache_gauge kind (set_active label n ∷ calls) = cache_gauge kind calls
cache_gauge kind (inc_diagnosis label ∷ calls) = cache_gauge kind calls
cache_gauge kind (inc_action type result ∷ calls) = cache_gauge kind calls
cache_gauge kind (inc_action_failed type ∷ calls) = cache_gauge kind calls
cache_gauge kind (observe_duration type result n ∷ calls) = cache_gauge kind calls

-- What the page says of an informer.
pub record Describes {Object : Type 0} (calls : List MetricCall) (informer : Informer Object)
    (state : ResourceState) : Type 0 where
  pub objects : state.objects ≡ length informer.store
  pub has_synced : state.has_synced ≡ informer.has_synced
  pub sorted : IsSorted state.names
  pub gauge : cache_gauge state.kind calls ≡ some state.objects

module _ {Object : Type 0} (key_func : Object → Option String) where
  -- The page lists the informers of nodes, pods, deployments and events in this order, and describes
  -- each.
  abbrev pub DescribesAll :
      (nodes pods deployments events : Informer Object) → List MetricCall → Type 0
  DescribesAll nodes pods deployments events calls =
      (n p d e : ResourceState) × (state_page key_func (cache_sources nodes pods deployments events)
          []
        ≡ n ∷ p ∷ d ∷ e ∷ [])
      × (map (λ (st : ResourceState). st.kind) (n ∷ p ∷ d ∷ e ∷ [])
          ≡ "Node" ∷ "Pod" ∷ "Deployment" ∷ "Event" ∷ [])
      × Describes calls nodes n
      × Describes calls pods p
      × Describes calls deployments d
      × Describes calls events e

  published-Describes :
      (nodes pods deployments events : Informer Object) (calls : List MetricCall)
      → let sources = cache_sources nodes pods deployments events in
        DescribesAll nodes pods deployments events (publish_cache_objects sources calls)
  unfolding cache_sources publish_cache_objects set_informer_cache_objects state_page resource_state
  published-Describes nodes pods deployments events calls = (
    _,
    _,
    _,
    _,
    refl,
    refl,
    record { objects = refl; has_synced = refl; sorted = sort_strings-IsSorted _; gauge = refl },
    record { objects = refl; has_synced = refl; sorted = sort_strings-IsSorted _; gauge = refl },
    record { objects = refl; has_synced = refl; sorted = sort_strings-IsSorted _; gauge = refl },
    record { objects = refl; has_synced = refl; sorted = sort_strings-IsSorted _; gauge = refl },
  )

  -- The loop, stopped after a tick.
  refresh-stopped :
      (before : List (List (CacheSource Object))) (sources : List (CacheSource Object))
      (rest : List (Selected Object)) (calls : List MetricCall)
      → refresh (map ticked before ++ ticked sources ∷ done ∷ rest) calls
        ≡ publish_cache_objects sources (refresh (map ticked before) calls)
  unfolding refresh
  refresh-stopped [] sources rest calls = refl
  refresh-stopped (earlier ∷ before) sources rest calls =
      refresh-stopped before sources rest (publish_cache_objects earlier calls)

  -- The page lists the informers of nodes, pods, deployments and events in this order, each with the
  -- size of its store, whether it has synced, and names of which none comes after the next one. When
  -- the refreshing loop saw the same stores at its last tick before the context was done, whatever it
  -- had published before and whatever it would have seen later, the gauge of each kind is the number of
  -- objects on the page.
  pub state_page-Describes :
      (nodes pods deployments events : Informer Object) (before : List (List (CacheSource Object)))
      (rest : List (Selected Object)) (calls : List MetricCall)
      → let last = ticked (cache_sources nodes pods deployments events) in
        DescribesAll nodes pods deployments events
          (refresh (map ticked before ++ last ∷ done ∷ rest) calls)
  state_page-Describes nodes pods deployments events before rest calls =
      rw (refresh-stopped before (cache_sources nodes pods deployments events) rest calls)
        (published-Describes nodes pods deployments events (refresh (map ticked before) calls))
