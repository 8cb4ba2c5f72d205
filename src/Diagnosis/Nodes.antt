-- ===== src/Diagnosis/Nodes.antt =====
-- internal/diagnosis/node/detector.go. `now i` is the i-th reading of the clock, one for each result.
pub mod Laws
use Prim.Native.String.{◌++◌}
use k8s_ops_platform.Prelude.{
  ℕ, suc, String, Option, none, some, List, [], ◌∷◌, Bool, not, ◌&&◌, ◌==◌, if◌then◌else◌,
}
use k8s_ops_platform.Api.{node_maintenance}
use k8s_ops_platform.Kube.Objects.{NodeCondition, Node}
use k8s_ops_platform.Diagnosis.{Evidence, DiagnosisResult, severity_critical}

-- The switch: the reason and the summary of a condition that is reported.
unfoldable pub finding : NodeCondition → Option (String × String)
finding c =
    if c.type == "Ready" && not (c.status == "True")
    then some ("NotReady", "Node Ready condition is not True")
    else if c.type == "MemoryPressure" && c.status == "True"
    then some ("MemoryPressure", "Node reports memory pressure")
    else if c.type == "DiskPressure" && c.status == "True"
    then some ("DiskPressure", "Node reports disk pressure")
    else none

unfoldable pub result :
    Node → String → String → String → String → NodeCondition → ℕ → DiagnosisResult
result node reason severity summary action c time = record {
  resource_kind = "Node";
  namespace = "";
  name = node.name;
  reason = reason;
  severity = severity;
  summary = summary;
  suggested_action = action;
  timestamp = time;
  evidence =
      record {
        source = "NodeCondition";
        field = "status.conditions[" ++ (c.type ++ "].status");
        value = c.status;
        message = "";
        timestamp = c.last_transition_time;
      }
      ∷ record {
        source = "NodeCondition";
        field = "reason";
        value = c.reason;
        message = c.message;
        timestamp = c.last_heartbeat_time;
      }
      ∷ [];
}

module _ (now : ℕ → ℕ) (node : Node) where
  -- The loop, with the number of results so far.
  unfoldable pub diagnose_from : ℕ → List NodeCondition → List DiagnosisResult
  diagnose_from i [] = []
  diagnose_from i (c ∷ cs) = elim (finding c) [
    | none ↦ diagnose_from i cs
    | some (reason, summary) ↦
        result node reason severity_critical summary node_maintenance c (now i)
        ∷ diagnose_from (suc i) cs
  ]

  unfoldable pub diagnose : List DiagnosisResult
  diagnose = diagnose_from 0 node.conditions
