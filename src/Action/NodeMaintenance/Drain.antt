-- ===== src/Action/NodeMaintenance/Drain.antt =====
-- The drain of node_maintenance.go: which pods it evicts, and when the node counts as drained.
use k8s_ops_platform.Prelude.{
  String, none, List, [], ◌∷◌, Bool, true, false, ◌≡◌, refl, inl, inr, arith, all, Bool-cases,
}
use k8s_ops_platform.Kube.{Kube}
use k8s_ops_platform.Kube.Errors.{ok}
use k8s_ops_platform.Kube.Objects.{Pod}
use k8s_ops_platform.Action.NodeMaintenance.{
  has_controller, skip_drain_pod, blocks, evict_pods, evict,
}

-- A pod that the drain may evict: it is neither to be skipped nor without a controller.
abbrev pub IsEvictable : Pod → Type 0
IsEvictable pod = (skip_drain_pod pod ≡ false) × (has_controller pod.owner_references ≡ true)

-- From one world to another by evictions, in their order, of evictable pods of a list.
pub data Evicts (k : Kube) : List Pod → k.World → k.World → Type 0 where
  stop : {pods : List Pod} {w : k.World} → Evicts k pods w w
  pass :
      {pod : Pod} {pods : List Pod} {w v : k.World} → Evicts k pods w v → Evicts k (pod ∷ pods) w v
  one :
      {pod : Pod} {pods : List Pod} {w v : k.World}
      → IsEvictable pod
      → Evicts k pods (k.evict_pod pod.namespace pod.name w).1 v
      → Evicts k (pod ∷ pods) w v

module _ (k : Kube) where
  -- The loop evicts pods of the list in their order, none twice, only those with a controller that are
  -- not to be skipped, and does nothing else to the cluster.
  pub evict_pods-Evicts :
      (pods : List Pod) (remaining : Bool) (w : k.World)
      → Evicts k pods w (evict_pods k pods remaining w).1
  unfolding evict_pods
  evict_pods-Evicts [] remaining w = stop
  evict_pods-Evicts (pod ∷ pods) remaining w = elim (Bool-cases (skip_drain_pod pod)) [
    | inl skip ↦ rw (skip, evict_pods) (pass (evict_pods-Evicts pods remaining w))
    | inr wanted ↦
        rw (wanted, evict_pods)
          (elim (Bool-cases (has_controller pod.owner_references)) [
            | inr bare ↦ rw (bare, evict_pods) stop
            | inl managed ↦
                rw (managed, evict_pods)
                  (elim (Bool-cases (blocks k (k.evict_pod pod.namespace pod.name w).0)) [
                    | inl blocked ↦ rw (blocked, evict_pods) (one (wanted, managed) stop)
                    | inr free ↦
                        rw (free, evict_pods)
                          (one (wanted, managed) (evict_pods-Evicts pods true _))
                  ])
          ])
  ]

  evict_pods-skipped :
      (pods : List Pod) (remaining : Bool) (w : k.World)
      → all skip_drain_pod pods ≡ true
      → evict_pods k pods remaining w ≡ ((remaining, none), w)
  unfolding evict_pods
  evict_pods-skipped [] remaining w h = refl
  evict_pods-skipped (pod ∷ pods) remaining w h =
      ground (arith, evict_pods-skipped pods remaining w)

  pub evict-skipped :
      (name : String) (w : k.World) (pods : List Pod)
      → (k.list_pods_on name w).0 ≡ ok pods
      → all skip_drain_pod pods ≡ true
      → evict k name w ≡ ((false, none), (k.list_pods_on name w).1)
  unfolding evict
  evict-skipped name w pods q h =
      ground (arith, evict_pods-skipped pods false (k.list_pods_on name w).1)
