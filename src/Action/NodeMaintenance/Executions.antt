-- ===== src/Action/NodeMaintenance/Executions.antt =====
-- What an execution of the node maintenance returns at each checkpoint, Execute of
-- node_maintenance.go, where nothing is in the way.
use k8s_ops_platform.Prelude.{
  differs_of_test, String, Option, none, some, ◌≡◌, ◌≢◌, refl, ap, sym, ◌∙◌, subst, arith,
}
use k8s_ops_platform.Api.{Action, ActionStatus}
use k8s_ops_platform.Kube.{Kube, Err, M}
use k8s_ops_platform.Kube.Errors.{ok, in_progress}
use k8s_ops_platform.Kube.Objects.{Node}
use k8s_ops_platform.Action.{Executor}
use k8s_ops_platform.Action.NodeMaintenance
use k8s_ops_platform.Action.NodeMaintenance.{checkpoint}
use k8s_ops_platform.Action.NodeMaintenance.Checkpoints.{
  Advance, checked, closed, emptied, hooked_up, healthy, opened,
}
use k8s_ops_platform.Action.NodeMaintenance.Progress.{IsCalm, checkpoint-GoesTo}

pub Advance-differs : (t t' : String) → Advance t t' → t ≢ t'
Advance-differs _ _ checked = differs_of_test _ _ refl
Advance-differs _ _ closed = differs_of_test _ _ refl
Advance-differs _ _ emptied = differs_of_test _ _ refl
Advance-differs _ _ hooked_up = differs_of_test _ _ refl
Advance-differs _ _ healthy = differs_of_test _ _ refl
Advance-differs _ _ opened = differs_of_test _ _ refl

module _ (k : Kube) (hook : Option (Node → M k.World (Option (Err k)))) where
  abbrev pub maintainer : Executor k
  maintainer = record {
    prepare = none;
    execute = NodeMaintenance.execute k hook;
    verify = NodeMaintenance.verify k;
  }

  -- Execute, where the node is found, is the run of a checkpoint.
  execute-found :
      (a : Action) (w : k.World) (node : Node)
      → (k.get_node a.spec.target.name w).0 ≡ ok node
      → let out =
          checkpoint k hook a.status.execution_state node (k.get_node a.spec.target.name w).1 in
        NodeMaintenance.execute k hook a w
        ≡ ((out.0.0, record a.status { execution_state = out.0.1 }), out.1)
  unfolding NodeMaintenance.execute
  execute-found a w node found = ground arith

  -- In a quiet world the node of this name can be read, and nothing is in the way of its maintenance.
  abbrev pub IsCalmAt : String → (k.World → Type 0) → Type 0
  IsCalmAt name IsQuiet =
      (w : k.World)
      → IsQuiet w
      → (node : Node) × ((k.get_node name w).0 ≡ ok node)
        × IsQuiet (k.get_node name w).1
        × IsCalm k hook IsQuiet node

  module _ (IsQuiet : k.World → Type 0) (a : Action)
      (calm : IsCalmAt a.spec.target.name IsQuiet) where
    -- What Execute leaves, in a quiet world.
    abbrev Leaves : Option (Err k) → String → (Option (Err k) × ActionStatus) × k.World → Type 0
    Leaves e state out = (out.0 ≡ (e, record a.status { execution_state = state })) × IsQuiet out.1

    pub execute-advances :
        (t t' : String)
        → Advance t t'
        → a.status.execution_state ≡ t
        → (w : k.World) → IsQuiet w
        → (message : String) × Leaves
            (some (in_progress message))
            t'
            (NodeMaintenance.execute k hook a w)
    execute-advances t t' step e w quiet =
        let (node, found, quiet', still) = calm w quiet in
        let w' = (k.get_node a.spec.target.name w).1 in
        let (message, goes, quiet'') =
          subst
            (λ state.
              (message : String) × ((checkpoint k hook state node w').0
                ≡ (some (in_progress message), t'))
              × IsQuiet (checkpoint k hook state node w').1)
            (sym e) (checkpoint-GoesTo k hook IsQuiet node still t t' step w' quiet') in
        (
          message,
          subst (Leaves (some (in_progress message)) t') (sym (execute-found a w node found)) (
            ap
                (λ (out : Option (Err k) × String).
                  (out.0, record a.status { execution_state = out.1 }))
                goes,
            quiet'',
          ),
        )

    pub execute-completes :
        a.status.execution_state ≡ "Uncordoned"
        → (w : k.World) → IsQuiet w
        → ((NodeMaintenance.execute k hook a w).0 ≡ (none, a.status))
          × IsQuiet (NodeMaintenance.execute k hook a w).1
    unfolding checkpoint
    execute-completes e w quiet =
        let (node, found, quiet', still) = calm w quiet in
        let w' = (k.get_node a.spec.target.name w).1 in
        let last : checkpoint k hook a.status.execution_state node w'
            ≡ ((none, a.status.execution_state), w') =
          rw (e, checkpoint) refl in
        subst
          (λ (out : (Option (Err k) × ActionStatus) × k.World).
            (out.0 ≡ (none, a.status)) × IsQuiet out.1)
          (sym (
            execute-found a w node found
            ∙ ap
                (λ (out : (Option (Err k) × String) × k.World).
                  ((out.0.0, record a.status { execution_state = out.0.1 }), out.1))
                last))
          (refl, quiet')
