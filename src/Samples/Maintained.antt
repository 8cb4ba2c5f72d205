-- ===== src/Samples/Maintained.antt =====
-- The maintenance of a node of the sample cluster, whose patches are stored.
use k8s_ops_platform.Prelude.{
  none, some, List, [], ◌∷◌, Bool, true, false, ◌≡◌, ◌==◌, refl, inl, inr, ap, Bool-cases, any,
}
use k8s_ops_platform.Prelude.Int.{ℤ}
use k8s_ops_platform.Api.{Action, pending, running, verifying, node_maintenance, empty_status}
use k8s_ops_platform.Kube.Errors.{ok}
use k8s_ops_platform.Kube.Objects.{Pod, Node}
use k8s_ops_platform.Action.NodeMaintenance.{hook_or_noop, node_ready, ready_condition}
use k8s_ops_platform.Action.NodeMaintenance.Progress.{IsCalm}
use k8s_ops_platform.Action.NodeMaintenance.Executions.{maintainer}
use k8s_ops_platform.Controller.{State, Reconciler}
use k8s_ops_platform.Controller.Effects.{with_status, timeout_of}
use k8s_ops_platform.Controller.Calls.{
  Reads, StatusWrites, gets_action, gets_pod, gets_node, gets_deployment, lists_pods_in,
  lists_pods_on, reads_clock, draws, stamps, stores, touches,
}
use k8s_ops_platform.Controller.Drive.{drive, visits}
use k8s_ops_platform.Manager.Maintenance.Visits.{visits-maintained}
use k8s_ops_platform.Samples.{Cluster, sample, cluster, find, remove, is_action, action_at}
use k8s_ops_platform.Samples.Controllers.{stopped_clock, never_late}

abbrev ready_node : Node
ready_node = record {
  name = "n1";
  conditions =
      record {
        type = "Ready";
        status = "True";
        last_heartbeat_time = 0;
        last_transition_time = 0;
        reason = "KubeletReady";
        message = "ready";
      }
      ∷ [];
  unschedulable = false;
}

-- A cluster with one node and no pods.
abbrev emptied_cluster : Cluster
emptied_cluster = record cluster { pods = []; nodes = ready_node ∷ [] }

abbrev maintained : Action
maintained = action_at node_maintenance "n1" empty_status

abbrev maintained_state : State sample
maintained_state = record {
  world = record emptied_cluster { actions = maintained ∷ [] };
  updates = [];
  audits = [];
  calls = [];
}

abbrev maintenance : Reconciler sample
maintenance = record {
  executors = λ type. some (maintainer sample none);
  now = some stopped_clock;
  max_retries = ℤ.pos 0;
}

-- The node n1 is there and ready, and there is no pod.
abbrev IsIdle : List Node → List Pod → Type 0
IsIdle nodes pods =
    (node : Node) × (find (λ n. n.name == "n1") nodes ≡ ok node)
    × (node.name ≡ "n1")
    × (node_ready node ≡ true)
    × (pods ≡ [])

abbrev IsQuiet : Cluster → Type 0
IsQuiet c = IsIdle c.nodes c.pods

IsIdle-patched :
    (node : Node) (rest : List Node) (pods : List Pod)
    → node.name ≡ "n1"
    → node_ready node ≡ true
    → pods ≡ []
    → IsIdle (node ∷ rest) pods
IsIdle-patched node rest pods named ready empty =
    let same : (node.name == "n1") ≡ true = ap (λ x. x == "n1") named in
    (node, rw same refl, named, ready, empty)

patched_ready :
    (node : Node) (unschedulable : Bool)
    → node_ready node ≡ true
    → node_ready (record node { unschedulable = unschedulable }) ≡ true
unfolding node_ready
patched_ready node unschedulable ready = ready

still-IsCalm :
    (node : Node) → node.name ≡ "n1" → node_ready node ≡ true → IsCalm sample none IsQuiet node
unfolding hook_or_noop
still-IsCalm node named ready = record {
  ready = ready;
  patches = λ u w (n, found, same, up, empty). (
    refl,
    IsIdle-patched _ (remove (λ m. m.name == node.name) w.nodes) w.pods named
        (patched_ready node u ready) empty,
  );
  empties =
      λ w (n, found, same, up, empty). (w.pods, refl, rw empty refl, (n, found, same, up, empty));
  hooks = λ w quiet. (refl, quiet);
}

IsQuiet-Reads : (w v : Cluster) → Reads sample stopped_clock w v → IsQuiet w → IsQuiet v
IsQuiet-Reads _ _ (gets_action namespace name w) quiet = quiet
IsQuiet-Reads _ _ (gets_pod namespace name w) quiet = quiet
IsQuiet-Reads _ _ (gets_node name w) quiet = quiet
IsQuiet-Reads _ _ (gets_deployment namespace name w) quiet = quiet
IsQuiet-Reads _ _ (lists_pods_in namespace w) quiet = quiet
IsQuiet-Reads _ _ (lists_pods_on node w) quiet = quiet
IsQuiet-Reads _ _ (reads_clock w) quiet = quiet
IsQuiet-Reads _ _ (draws duration percent w) quiet = quiet
IsQuiet-Reads _ _ (stamps cs c w) quiet = quiet

IsQuiet-updated : (a : Action) (w : Cluster) → IsQuiet w → IsQuiet (sample.update_status a w).1
IsQuiet-updated a w quiet =
    elim (Bool-cases (any (is_action a.metadata.namespace a.metadata.name) w.actions)) [
      | inl there ↦ rw there quiet
      | inr gone ↦ rw gone quiet
    ]

IsQuiet-writes : (w v : Cluster) → StatusWrites sample maintained w v → IsQuiet w → IsQuiet v
IsQuiet-writes _ _ (stores t w) quiet = IsQuiet-updated (with_status maintained t) w quiet
IsQuiet-writes _ _ (touches never) quiet = absurd never

ready_node-ready : node_ready ready_node ≡ true
unfolding node_ready ready_condition
ready_node-ready = refl

visits-maintained_example :
    visits maintenance 9 maintained maintained_state
    ≡ (pending, "")
      ∷ (running, "")
      ∷ (running, "PreChecked")
      ∷ (running, "Cordoned")
      ∷ (running, "Drained")
      ∷ (running, "HookCompleted")
      ∷ (running, "HealthChecked")
      ∷ (running, "Uncordoned")
      ∷ (verifying, "Uncordoned")
      ∷ []
visits-maintained_example =
    visits-maintained sample none maintenance maintained refl IsQuiet
      (λ w (node, found, named, ready, empty).
        (node, found, (node, found, named, ready, empty), still-IsCalm node named ready))
      (record { by_read = IsQuiet-Reads; by_write = IsQuiet-writes }) maintained_state
      (λ n.
        let (a, s) = drive maintenance n maintained maintained_state in
        never_late (timeout_of a.spec.timeout_seconds) a.status.started_at s.world)
      (ready_node, refl, refl, ready_node-ready, refl) (refl, refl)
