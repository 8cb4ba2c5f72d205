-- ===== src/Diagnosis/Log.antt =====
-- LogSink of internal/diagnosis/log.go: the attributes of the log line for a diagnosis. json.Marshal of
-- the evidence is a parameter, the text that the code gets of its bytes.
use k8s_ops_platform.Prelude.{ℕ, String, List, [], ◌∷◌}
use k8s_ops_platform.Diagnosis.{Evidence, DiagnosisResult}

-- A value of an attribute: a text or a time.
pub data Value : Type 0 where
  text : String → Value
  time : ℕ → Value

-- Handle. The line is "diagnosis" at the level Warn.
unfoldable pub attributes : (List Evidence → String) → DiagnosisResult → List (String × Value)
attributes marshal r =
    ("resource_kind", text r.resource_kind)
    ∷ ("namespace", text r.namespace)
    ∷ ("name", text r.name)
    ∷ ("reason", text r.reason)
    ∷ ("severity", text r.severity)
    ∷ ("summary", text r.summary)
    ∷ ("suggested_action", text r.suggested_action)
    ∷ ("evidence", text (marshal r.evidence))
    ∷ ("timestamp", time r.timestamp)
    ∷ []
