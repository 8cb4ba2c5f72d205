-- ===== src/Controller/AuditLog.antt =====
-- LogRecorder of internal/audit/audit.go: the attributes of the log line for an audit record.
use k8s_ops_platform.Prelude.{ℕ, String, Option, none, some, List, [], ◌∷◌, ◌≡◌, refl, sym, ap, ◌∙◌}
use k8s_ops_platform.Prelude.Dict.{lookup}
use k8s_ops_platform.Prelude.Int.{ℤ}
use k8s_ops_platform.Api.{ActionStatus}
use k8s_ops_platform.Kube.{Kube, Err}
use k8s_ops_platform.Controller.{AuditEntry}
use k8s_ops_platform.Controller.Effects.{error_text}
use k8s_ops_platform.Controller.Audits.{Milestone, begun, recovered, given_up}

-- A value of an attribute: a text, a number, or a time that may be nil.
pub data Value : Type 0 where
  text : String → Value
  number : ℤ → Value
  time : Option ℕ → Value

module _ (k : Kube) where
  abbrev pub error_message : Option (Err k) → String
  error_message none = ""
  error_message (some e) = error_text k e

  -- Record. The line is "action_audit" at the level Info.
  unfoldable pub attributes : AuditEntry k → List (String × Value)
  attributes entry =
      let a = entry.action in
      ("action_uid", text a.metadata.uid)
      ∷ ("action_type", text a.spec.action_type)
      ∷ ("target_kind", text a.spec.target.kind)
      ∷ ("target_namespace", text a.spec.target.namespace)
      ∷ ("target_name", text a.spec.target.name)
      ∷ ("trigger_source", text a.spec.trigger_source)
      ∷ ("start_time", time a.status.started_at)
      ∷ ("result", text entry.result)
      ∷ ("retry_count", number a.status.retry_count)
      ∷ ("error", text (error_message entry.error))
      ∷ []

  error_attribute :
      (entry : AuditEntry k)
      → lookup "error" (attributes entry) ≡ some (text (error_message entry.error))
  unfolding attributes lookup
  error_attribute entry = refl

  message-Milestone :
      (phase result : String) (t : ActionStatus) (error : Option (Err k))
      → Milestone k phase t result error
      → (e : Err k) → error ≡ some e
      → error_message error ≡ t.message
  message-Milestone phase _ t _ (begun p q) e known = absurd (cc known)
  message-Milestone phase _ t _ (recovered p q) e known = absurd (cc known)
  message-Milestone phase _ t _ (given_up cause live q same) e known = sym same

  -- The line of a record that Reconcile makes of a failure shows the message of the status that it
  -- sends, as its error.
  pub attributes-Milestone :
      (phase : String) (entry : AuditEntry k)
      → Milestone k phase entry.action.status entry.result entry.error
      → (e : Err k) → entry.error ≡ some e
      → lookup "error" (attributes entry) ≡ some (text entry.action.status.message)
  attributes-Milestone phase entry m e known =
      error_attribute entry
      ∙ ap (λ message. some (text message))
          (message-Milestone phase entry.result entry.action.status entry.error m e known)
