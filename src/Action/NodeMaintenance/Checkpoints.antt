-- ===== src/Action/NodeMaintenance/Checkpoints.antt =====
-- The order of the checkpoints of node_maintenance.go.
use k8s_ops_platform.Prelude.{
  String, Option, none, some, Bool, true, false, ◌≡◌, ◌==◌, inl, inr, arith, eq_iff, subst, sym,
  Bool-cases,
}
use k8s_ops_platform.Kube.{Kube, Err, M}
use k8s_ops_platform.Kube.Errors.{in_progress}
use k8s_ops_platform.Kube.Objects.{Node}
use k8s_ops_platform.Action.Contract.{Keeps}
use k8s_ops_platform.Action.NodeMaintenance.{
  Outcome, node_ready, hook_or_noop, evict, precheck, cordoned, cordon, drained, hooked, uncordoned,
  drain, run_hook, check_health, uncordon, checkpoint, execute,
}

pub execute-Keeps :
    (k : Kube) (hook : Option (Node → M k.World (Option (Err k)))) → Keeps (execute k hook)
unfolding execute
execute-Keeps k hook a w = ground arith

-- The checkpoints, each with the one after it.
pub data Advance : String → String → Type 0 where
  checked : Advance "" "PreChecked"
  closed : Advance "PreChecked" "Cordoned"
  emptied : Advance "Cordoned" "Drained"
  hooked_up : Advance "Drained" "HookCompleted"
  healthy : Advance "HookCompleted" "HealthChecked"
  opened : Advance "HealthChecked" "Uncordoned"

-- What Execute may make of a checkpoint.
pub data Move (k : Kube) (state : String) : Outcome k → Type 0 where
  -- on to the next one, to be continued
  advances : (t message : String) → Advance state t → Move k state (some (in_progress message), t)
  -- an error, or a reason to wait
  waits : (e : Err k) → Move k state (some e, state)
  completed : state ≡ "Uncordoned" → Move k state (none, state)

module _ (k : Kube) where
  precheck-Move : (node : Node) (w : k.World) → Move k "" (precheck k node w).0
  unfolding precheck
  precheck-Move node w = elim (Bool-cases (node_ready node)) [
    | inl r ↦ rw (r, precheck) (advances _ _ checked)
    | inr r ↦ rw (r, precheck) (waits _)
  ]

  cordoned-Move : (e : Option k.ApiError) → Move k "PreChecked" (cordoned k e)
  cordoned-Move none = advances _ _ closed
  cordoned-Move (some e) = waits _

  cordon-Move : (node : Node) (w : k.World) → Move k "PreChecked" (cordon k node w).0
  unfolding cordon
  cordon-Move node w = elim (Bool-cases node.unschedulable) [
    | inl u ↦ rw (u, cordon) (advances _ _ closed)
    | inr u ↦ rw (u, cordon) (cordoned-Move _)
  ]

  drained-Move : (r : Bool × Option (Err k)) → Move k "Cordoned" (drained k r)
  drained-Move (remaining, some e) = waits _
  drained-Move (true, none) = waits _
  drained-Move (false, none) = advances _ _ emptied

  drain-Move : (node : Node) (w : k.World) → Move k "Cordoned" (drain k node w).0
  unfolding drain
  drain-Move node w = drained-Move (evict k node.name w).0

  hooked-Move : (e : Option (Err k)) → Move k "Drained" (hooked k e)
  hooked-Move none = advances _ _ hooked_up
  hooked-Move (some e) = waits _

  run_hook-Move :
      (hook : Option (Node → M k.World (Option (Err k)))) (node : Node) (w : k.World)
      → Move k "Drained" (run_hook k hook node w).0
  unfolding run_hook
  run_hook-Move hook node w = hooked-Move (hook_or_noop k hook node w).0

  check_health-Move : (node : Node) (w : k.World) → Move k "HookCompleted" (check_health k node w).0
  unfolding check_health
  check_health-Move node w = elim (Bool-cases (node_ready node)) [
    | inl r ↦ rw (r, check_health) (advances _ _ healthy)
    | inr r ↦ rw (r, check_health) (waits _)
  ]

  uncordoned-Move : (e : Option k.ApiError) → Move k "HealthChecked" (uncordoned k e)
  uncordoned-Move none = advances _ _ opened
  uncordoned-Move (some e) = waits _

  uncordon-Move : (node : Node) (w : k.World) → Move k "HealthChecked" (uncordon k node w).0
  unfolding uncordon
  uncordon-Move node w = elim (Bool-cases node.unschedulable) [
    | inr u ↦ rw (u, uncordon) (advances _ _ opened)
    | inl u ↦ rw (u, uncordon) (uncordoned-Move _)
  ]

  from :
      {state name : String} {out : Outcome k}
      → (state == name) ≡ true
      → Move k name out
      → Move k state out
  from {state} {name} {out} e m = subst (λ x. Move k x out) (sym ((eq_iff state name).0 e)) m

  -- One run of Execute moves the checkpoint to the one after it and says so by an InProgress error, or
  -- leaves it where it is with an error; it returns no error only at the last checkpoint.
  pub checkpoint-Move :
      (hook : Option (Node → M k.World (Option (Err k)))) (state : String) (node : Node)
      (w : k.World)
      → Move k state (checkpoint k hook state node w).0
  unfolding checkpoint
  checkpoint-Move hook state node w = elim (Bool-cases (state == "")) [
    | inl e ↦ rw (e, checkpoint) (from e (precheck-Move node w))
    | inr n0 ↦
        rw (n0, checkpoint)
          (elim (Bool-cases (state == "PreChecked")) [
            | inl e ↦ rw (e, checkpoint) (from e (cordon-Move node w))
            | inr n1 ↦
                rw (n1, checkpoint)
                  (elim (Bool-cases (state == "Cordoned")) [
                    | inl e ↦ rw (e, checkpoint) (from e (drain-Move node w))
                    | inr n2 ↦
                        rw (n2, checkpoint)
                          (elim (Bool-cases (state == "Drained")) [
                            | inl e ↦ rw (e, checkpoint) (from e (run_hook-Move hook node w))
                            | inr n3 ↦
                                rw (n3, checkpoint)
                                  (elim (Bool-cases (state == "HookCompleted")) [
                                    | inl e ↦ rw (e, checkpoint) (from e (check_health-Move node w))
                                    | inr n4 ↦
                                        rw (n4, checkpoint)
                                          (elim (Bool-cases (state == "HealthChecked")) [
                                            | inl e ↦
                                                rw (e, checkpoint) (from e (uncordon-Move node w))
                                            | inr n5 ↦
                                                rw (n5, checkpoint)
                                                  (elim (Bool-cases (state == "Uncordoned")) [
                                                    | inl e ↦
                                                        rw (e, checkpoint)
                                                          (completed
                                                            ((eq_iff state "Uncordoned").0 e))
                                                    | inr n6 ↦ rw (n6, checkpoint) (waits _)
                                                  ])
                                          ])
                                  ])
                          ])
                  ])
          ])
  ]
