-- ===== src/Action/NodeMaintenance/Progress.antt =====
-- The progress of a maintenance on a node that is ready and empty.
use k8s_ops_platform.Prelude.{
  Bool, String, Option, none, some, List, true, false, not, ◌≡◌, refl, all, ap, if-cases,
}
use k8s_ops_platform.Kube.{Kube, Err, M}
use k8s_ops_platform.Kube.Errors.{ok, in_progress}
use k8s_ops_platform.Kube.Objects.{Pod, Node}
use k8s_ops_platform.Action.NodeMaintenance.{
  Outcome, node_ready, skip_drain_pod, hook_or_noop, precheck, cordoned, cordon, drain, run_hook,
  hooked, check_health, uncordoned, uncordon, checkpoint,
}
use k8s_ops_platform.Action.NodeMaintenance.Checkpoints.{
  Advance, checked, closed, emptied, hooked_up, healthy, opened,
}
use k8s_ops_platform.Action.NodeMaintenance.Drain.{evict-skipped}

-- Nothing stands in the way of the maintenance of a node, in the worlds that are quiet: it is ready, the
-- patches that cordon and uncordon it succeed, its pods can be listed and each is one to skip, the hook
-- succeeds, and the world is quiet after each of these.
pub record IsCalm (k : Kube) (hook : Option (Node → M k.World (Option (Err k))))
    (IsQuiet : k.World → Type 0) (node : Node) : Type 0 where
  pub ready : node_ready node ≡ true
  pub patches :
      (unschedulable : Bool) (w : k.World)
      → IsQuiet w
      → let out = k.patch_node (record node { unschedulable = unschedulable }) node w in
        (out.0 ≡ none) × IsQuiet out.1
  pub empties :
      (w : k.World)
      → IsQuiet w
      → (pods : List Pod) × ((k.list_pods_on node.name w).0 ≡ ok pods)
        × (all skip_drain_pod pods ≡ true)
        × IsQuiet (k.list_pods_on node.name w).1
  pub hooks :
      (w : k.World)
      → IsQuiet w
      → let out = hook_or_noop k hook node w in (out.0 ≡ none) × IsQuiet out.1

module _ (k : Kube) (hook : Option (Node → M k.World (Option (Err k)))) (IsQuiet : k.World → Type 0)
    (node : Node) (calm : IsCalm k hook IsQuiet node) where
  -- The state after a run, that there is more to do, and that the world is quiet.
  abbrev GoesTo : String → Outcome k × k.World → Type 0
  GoesTo t out = (message : String) × (out.0 ≡ (some (in_progress message), t)) × IsQuiet out.1

  precheck-GoesTo : (w : k.World) → IsQuiet w → GoesTo "PreChecked" (precheck k node w)
  unfolding precheck
  precheck-GoesTo w quiet = rw (calm.ready, precheck) ("node precheck complete", refl, quiet)

  cordon-GoesTo : (w : k.World) → IsQuiet w → GoesTo "Cordoned" (cordon k node w)
  unfolding cordon
  cordon-GoesTo w quiet =
      if-cases (λ (m : M k.World (Outcome k)). GoesTo "Cordoned" (m w)) node.unschedulable
        (λ _. ("node cordoned", refl, quiet))
        (λ _.
          let (done, quiet') = calm.patches true w quiet in
          ("node cordoned", ap (cordoned k) done, quiet'))

  drain-GoesTo : (w : k.World) → IsQuiet w → GoesTo "Drained" (drain k node w)
  unfolding drain
  drain-GoesTo w quiet =
      let (pods, listed, skipped, quiet') = calm.empties w quiet in
      rw (evict-skipped k node.name w pods listed skipped, drain) ("node drained", refl, quiet')

  run_hook-GoesTo : (w : k.World) → IsQuiet w → GoesTo "HookCompleted" (run_hook k hook node w)
  unfolding run_hook
  run_hook-GoesTo w quiet =
      let (done, quiet') = calm.hooks w quiet in
      ("maintenance hook complete", ap (hooked k) done, quiet')

  check_health-GoesTo : (w : k.World) → IsQuiet w → GoesTo "HealthChecked" (check_health k node w)
  unfolding check_health
  check_health-GoesTo w quiet =
      rw (calm.ready, check_health) ("node health check complete", refl, quiet)

  uncordon-GoesTo : (w : k.World) → IsQuiet w → GoesTo "Uncordoned" (uncordon k node w)
  unfolding uncordon
  uncordon-GoesTo w quiet =
      if-cases (λ (m : M k.World (Outcome k)). GoesTo "Uncordoned" (m w)) (not node.unschedulable)
        (λ _. ("node uncordoned", refl, quiet))
        (λ _.
          let (done, quiet') = calm.patches false w quiet in
          ("node uncordoned", ap (uncordoned k) done, quiet'))

  -- On a node that is ready and has no pod left to evict, where patches and the hook succeed, every
  -- run of a checkpoint but the last one moves on to the next one.
  pub checkpoint-GoesTo :
      (state t : String)
      → Advance state t
      → (w : k.World) → IsQuiet w
      → GoesTo t (checkpoint k hook state node w)
  unfolding checkpoint
  checkpoint-GoesTo _ _ checked w quiet = precheck-GoesTo w quiet
  checkpoint-GoesTo _ _ closed w quiet = cordon-GoesTo w quiet
  checkpoint-GoesTo _ _ emptied w quiet = drain-GoesTo w quiet
  checkpoint-GoesTo _ _ hooked_up w quiet = run_hook-GoesTo w quiet
  checkpoint-GoesTo _ _ healthy w quiet = check_health-GoesTo w quiet
  checkpoint-GoesTo _ _ opened w quiet = uncordon-GoesTo w quiet
