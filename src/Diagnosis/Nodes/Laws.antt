-- ===== src/Diagnosis/Nodes/Laws.antt =====
-- When the node detector reports, and what.
use k8s_ops_platform.Prelude.{
  ℕ, suc, String, none, some, List, [], ◌∷◌, ◌≡◌, ◌≢◌, ◌↔◌, ◌⊎◌, inl, inr, refl, arith, eq_iff,
  Option-cases,
}
use k8s_ops_platform.Api.{node_maintenance}
use k8s_ops_platform.Kube.Objects.{NodeCondition, Node}
use k8s_ops_platform.Diagnosis.{DiagnosisResult, severity_critical}
use k8s_ops_platform.Diagnosis.Nodes.{finding, result, diagnose_from, diagnose}

-- A condition that is as it should be.
abbrev pub IsHealthy : NodeCondition → Type 0
IsHealthy c =
    (c.type ≡ "Ready" → c.status ≡ "True")
    × (c.type ≡ "MemoryPressure" → c.status ≢ "True")
    × (c.type ≡ "DiskPressure" → c.status ≢ "True")

finding-eq-none_iff : (c : NodeCondition) → (finding c ≡ none) ↔ IsHealthy c
unfolding finding
finding-eq-none_iff c = ground (
  arith,
  eq_iff c.type "Ready",
  eq_iff c.type "MemoryPressure",
  eq_iff c.type "DiskPressure",
  eq_iff c.status "True",
)

-- Whether a condition is the cause of a report with the given reason.
abbrev pub Causes : String → NodeCondition → Type 0
Causes reason c =
    ((reason ≡ "NotReady") × (c.type ≡ "Ready") × (c.status ≢ "True"))
    ⊎ ((reason ≡ c.type)
        × ((c.type ≡ "MemoryPressure") ⊎ (c.type ≡ "DiskPressure"))
        × (c.status ≡ "True"))

finding-Causes :
    (c : NodeCondition) (reason summary : String)
    → finding c ≡ some (reason, summary)
    → Causes reason c
unfolding finding
finding-Causes c reason summary e = ground (
  arith,
  eq_iff c.type "Ready",
  eq_iff c.type "MemoryPressure",
  eq_iff c.type "DiskPressure",
  eq_iff c.status "True",
)

-- One report for each unhealthy condition, in the order of the conditions: it names the node, has a
-- cause, is critical and asks for maintenance.
pub data Reports (node : Node) : List NodeCondition → List DiagnosisResult → Type 0 where
  nil : Reports node [] []
  healthy :
      {c : NodeCondition} {cs : List NodeCondition} {rs : List DiagnosisResult}
      → IsHealthy c
      → Reports node cs rs
      → Reports node (c ∷ cs) rs
  unhealthy :
      {c : NodeCondition} {cs : List NodeCondition} {r : DiagnosisResult}
      {rs : List DiagnosisResult}
      → Causes r.reason c
      → (r.resource_kind ≡ "Node")
        × (r.name ≡ node.name)
        × (r.severity ≡ severity_critical)
        × (r.suggested_action ≡ node_maintenance)
      → Reports node cs rs
      → Reports node (c ∷ cs) (r ∷ rs)

module _ (now : ℕ → ℕ) (node : Node) where
  diagnose_from-Reports :
      (i : ℕ) (cs : List NodeCondition) → Reports node cs (diagnose_from now node i cs)
  unfolding diagnose_from result
  diagnose_from-Reports i [] = nil
  diagnose_from-Reports i (c ∷ cs) = elim (Option-cases (finding c)) [
    | inl e ↦
        rw (e, diagnose_from) (healthy ((finding-eq-none_iff c).0 e) (diagnose_from-Reports i cs))
    | inr ((reason, summary), e) ↦
        rw (e, diagnose_from)
          (unhealthy (finding-Causes c reason summary e) (refl, refl, refl, refl)
            (diagnose_from-Reports (suc i) cs))
  ]

  -- The node detector reports every unhealthy condition of a node and no other: Ready that is not
  -- True, and memory or disk pressure that is True. Each report names the node, is critical and
  -- suggests NodeMaintenance.
  pub diagnose-Reports : Reports node node.conditions (diagnose now node)
  unfolding diagnose
  diagnose-Reports = diagnose_from-Reports 0 node.conditions
