-- ===== src/Agent/StatePage.antt =====
-- The /state page of cmd/agent/main.go: what it says of the informers' caches, and the gauge of their
-- sizes, with the loop that refreshes it.
-- The objects of a cache, and the key that cache.MetaNamespaceKeyFunc makes of one (none for an
-- error), are parameters. `sort_strings` is sort.Strings, by the order of the texts' characters.
pub mod Names
pub mod Order
pub mod Comparison
pub mod Unordered
pub mod Page
use Prim.Native.String.{compare}
use Prim.Native.Nat.{Ordering}
use k8s_ops_platform.Prelude.{
  ℕ, String, Option, none, some, List, [], ◌∷◌, ◌++◌, Bool, ltb, eqb, length, if◌then◌else◌,
}
use k8s_ops_platform.Metrics.{MetricCall, set_informer_cache_objects}

-- An entry of cacheSources.
pub record CacheSource (Object : Type 0) : Type 0 where
  pub kind : String
  pub store : List Object
  pub has_synced : Bool

pub record ResourceState : Type 0 where
  pub kind : String
  pub objects : ℕ
  pub has_synced : Bool
  pub names : List String
  pub truncated : Bool

abbrev pub max_names : ℕ
max_names = 25

abbrev pub comes_after : String → String → Bool
comes_after x y = elim (compare x y) [ Ordering.gt ↦ Bool.true | _ ↦ Bool.false ]

unfoldable pub insert_sorted : String → List String → List String
insert_sorted x [] = x ∷ []
insert_sorted x (y ∷ ys) =
    let rest = insert_sorted x ys in if comes_after x y then y ∷ rest else x ∷ y ∷ ys

unfoldable pub sort_strings : List String → List String
sort_strings [] = []
sort_strings (x ∷ xs) = insert_sorted x (sort_strings xs)

module _ {Object : Type 0} (key_func : Object → Option String) where
  -- The loop over the objects, which breaks when there are enough names.
  unfoldable pub collect_names : List Object → List String → List String
  collect_names [] names = names
  collect_names (o ∷ os) names = if eqb (length names) max_names then names else elim (key_func o) [
    | none ↦ collect_names os names
    | some key ↦ collect_names os (names ++ key ∷ [])
  ]

  -- The body of the loop over the sources.
  unfoldable pub resource_state : CacheSource Object → ResourceState
  resource_state source =
      let names = sort_strings (collect_names source.store []) in
      record {
        kind = source.kind;
        objects = length source.store;
        has_synced = source.has_synced;
        names = names;
        truncated = ltb (length names) (length source.store);
      }

  -- The loop over the sources, with the resources that it has appended so far.
  unfoldable pub state_page : List (CacheSource Object) → List ResourceState → List ResourceState
  state_page [] resources = resources
  state_page (source ∷ sources) resources =
      state_page sources (resources ++ resource_state source ∷ [])

-- What main takes of an informer: its store and whether it has synced.
pub record Informer (Object : Type 0) : Type 0 where
  pub store : List Object
  pub has_synced : Bool

module _ {Object : Type 0} where
  abbrev pub source_of : String → Informer Object → CacheSource Object
  source_of kind informer = record {
    kind = kind;
    store = informer.store;
    has_synced = informer.has_synced;
  }

  -- cacheSources, from the informers of nodes, pods, deployments and events.
  unfoldable pub cache_sources :
      Informer Object
      → Informer Object
      → Informer Object
      → Informer Object
      → List (CacheSource Object)
  cache_sources nodes pods deployments events =
      source_of "Node" nodes
      ∷ source_of "Pod" pods
      ∷ source_of "Deployment" deployments
      ∷ source_of "Event" events
      ∷ []

  -- publishCacheObjects
  unfoldable pub publish_cache_objects :
      List (CacheSource Object) → List MetricCall → List MetricCall
  publish_cache_objects [] calls = calls
  publish_cache_objects (source ∷ sources) calls =
      publish_cache_objects sources
        (set_informer_cache_objects source.kind (length source.store) calls)

-- A case that the select of the refreshing loop takes: a tick, with the caches as they are then, or the
-- end of the context.
pub data Selected (Object : Type 0) : Type 0 where
  ticked : List (CacheSource Object) → Selected Object
  done : Selected Object

-- The goroutine that publishes the sizes at every tick, over the cases that it takes.
unfoldable pub refresh :
    {Object : Type 0} → List (Selected Object) → List MetricCall → List MetricCall
refresh [] calls = calls
refresh (done ∷ rest) calls = calls
refresh (ticked sources ∷ rest) calls = refresh rest (publish_cache_objects sources calls)
