-- ===== src/Diagnosis.antt =====
-- internal/diagnosis/result.go: what a detector reports, and the sinks that take reports.
-- A sink is an effect on a state that its user chooses.
pub mod Pods
pub mod Nodes
pub mod Deployments
pub mod Log
use k8s_ops_platform.Prelude.{ℕ, String, Option, none, some, List, [], ◌∷◌}

pub record Evidence : Type 0 where
  pub source : String
  pub field : String
  pub value : String
  pub message : String
  pub timestamp : ℕ

pub record DiagnosisResult : Type 0 where
  pub resource_kind : String
  pub namespace : String
  pub name : String
  pub reason : String
  pub severity : String
  pub summary : String
  pub evidence : List Evidence
  pub suggested_action : String
  pub timestamp : ℕ

abbrev pub severity_warning : String
severity_warning = "warning"

abbrev pub severity_critical : String
severity_critical = "critical"

-- An Evidence with its Message and Timestamp left at their zero values.
abbrev pub plain : String → String → String → Evidence
plain source field value = record {
  source = source;
  field = field;
  value = value;
  message = "";
  timestamp = 0;
}

module _ {S : Type 0} where
  -- MultiSink.Handle: the sinks in order, those that are nil left out.
  unfoldable pub handle_all : List (Option (DiagnosisResult → S → S)) → DiagnosisResult → S → S
  handle_all [] result s = s
  handle_all (none ∷ sinks) result s = handle_all sinks result s
  handle_all (some sink ∷ sinks) result s = handle_all sinks result (sink result s)
