-- ===== src/Diagnosis/Deployments.antt =====
-- internal/diagnosis/deployment/detector.go. `now` is the reading of the clock.
pub mod Laws
use Prim.Native.String.{◌++◌}
use k8s_ops_platform.Prelude.{
  ℕ, String, Option, none, some, List, [], ◌∷◌, Bool, ◌&&◌, if◌then◌else◌,
}
use mathlib.Core.List as Lists
use k8s_ops_platform.Prelude.Int.{ℤ, leb_ℤ, ltb_ℤ, eqb_ℤ, itoa}
use k8s_ops_platform.Kube.Objects.{DeploymentCondition, Deployment}
use k8s_ops_platform.Diagnosis.{
  Evidence, DiagnosisResult, severity_warning, severity_critical, plain,
}

abbrev pub reason_replicas_unavailable : String
reason_replicas_unavailable = "DeploymentReplicasUnavailable"

-- The loop over the conditions.
unfoldable pub condition_evidence : List DeploymentCondition → List Evidence
condition_evidence [] = []
condition_evidence (c ∷ cs) =
    record {
      source = "DeploymentCondition";
      field = "status.conditions[" ++ (c.type ++ "].status");
      value = c.status;
      message = c.reason ++ (": " ++ c.message);
      timestamp = c.last_transition_time;
    }
    ∷ condition_evidence cs

abbrev pub status_evidence : Deployment → ℤ → List Evidence
status_evidence d desired =
    plain "DeploymentSpec" "spec.replicas" (itoa desired)
    ∷ plain "DeploymentStatus" "status.availableReplicas" (itoa d.available_replicas)
    ∷ plain "DeploymentStatus" "status.readyReplicas" (itoa d.ready_replicas)
    ∷ plain "DeploymentStatus" "status.unavailableReplicas" (itoa d.unavailable_replicas)
    ∷ plain "DeploymentStatus" "status.updatedReplicas" (itoa d.updated_replicas)
    ∷ []

abbrev pub severity_of : Deployment → ℤ → String
severity_of d desired =
    if eqb_ℤ d.available_replicas (ℤ.pos 0) && ltb_ℤ (ℤ.pos 0) desired
    then severity_critical
    else severity_warning

unfoldable pub report : Deployment → ℤ → ℕ → DiagnosisResult
report d desired now = record {
  resource_kind = "Deployment";
  namespace = d.namespace;
  name = d.name;
  reason = reason_replicas_unavailable;
  severity = severity_of d desired;
  summary =
      "Deployment has "
      ++ (itoa d.available_replicas ++ ("/" ++ (itoa desired ++ " available replicas")));
  evidence = Lists.◌++◌ (status_evidence d desired) (condition_evidence d.conditions);
  suggested_action = "";
  timestamp = now;
}

unfoldable pub diagnose : ℕ → Deployment → List DiagnosisResult
diagnose now d = elim d.replicas [
  | none ↦ []
  | some desired ↦
      if ltb_ℤ d.observed_generation d.generation
      then []
      else if leb_ℤ desired d.available_replicas
      then []
      else report d desired now ∷ []
]
