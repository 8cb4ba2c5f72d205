-- ===== src/Policy.antt =====
-- internal/policy/policy.go: which recommended actions the agent creates by itself.
-- Log lines and the five-second deadline of the request are left out. SHA-256 is a parameter, a
-- function from a text to its 32 bytes.
pub mod Sink
pub mod Laws
pub mod Names
use Prim.Native.Char.{Char, code}
use Prim.Native.String.{char_at, ◌++◌}
use k8s_ops_platform.Prelude.{
  ℕ, String, List, [], ◌∷◌, Bool, true, false, ◌-◌, ◌/◌, ◌%◌, ◌&&◌, ◌==◌, leb, take, if◌then◌else◌,
}
use k8s_ops_platform.Prelude.Int.{ℤ, leb_ℤ}
use k8s_ops_platform.Api.{pod_restart, deployment_restart, node_maintenance, Action, empty_status}
use k8s_ops_platform.Diagnosis.{DiagnosisResult}
use k8s_ops_platform.Metrics.{nul}

-- type Risk
pub data Risk : Type 0 where
  low medium high : Risk

pub record Config : Type 0 where
  pub auto_pod_restart : Bool
  pub auto_deployment_restart : Bool
  pub action_timeout_seconds : ℤ
  pub excluded_namespaces : List String

unfoldable pub risk_for : String → Risk
risk_for action =
    if action == pod_restart
    then low
    else if action == deployment_restart
    then medium
    else if action == node_maintenance
    then high
    else high

unfoldable pub should_auto_create : Config → String → Bool
should_auto_create c action =
    if action == pod_restart
    then c.auto_pod_restart
    else if action == deployment_restart
    then c.auto_deployment_restart
    else false

-- strings.ToLower of a text in ASCII, such as an action type.
lower_char : Char → Char
lower_char c =
    if leb b'A' (code c) && leb (code c) b'Z'
    then char_at "abcdefghijklmnopqrstuvwxyz" (code c - b'A')
    else c

unfoldable pub to_lower : String → String
unfolding lower_char
to_lower String.[] = ""
to_lower (String.◌∷◌ c s) = String.◌∷◌ (lower_char c) (to_lower s)

-- hex.EncodeToString
unfoldable pub hex : List ℕ → String
hex [] = ""
hex (b ∷ bs) =
    String.◌∷◌ (char_at "0123456789abcdef" (b / 16))
      (String.◌∷◌ (char_at "0123456789abcdef" (b % 16)) (hex bs))

-- strings.Join of the parts of a target, with "\x00" between them.
abbrev pub target_text : DiagnosisResult → String → String
target_text r type =
    r.resource_kind
    ++ (nul ++ (r.namespace ++ (nul ++ (r.name ++ (nul ++ (r.reason ++ (nul ++ type)))))))

module _ (sha256 : String → List ℕ) where
  unfoldable pub target_hash : DiagnosisResult → String → String
  target_hash r type = hex (take 8 (sha256 (target_text r type)))

  abbrev pub timeout_or_default : ℤ → ℤ
  timeout_or_default t = if leb_ℤ t (ℤ.pos 0) then ℤ.pos 300 else t

  abbrev pub namespace_or_default : String → String
  namespace_or_default namespace = if namespace == "" then "default" else namespace

  -- The Action that createIfNoActive asks for.
  unfoldable pub new_action : Config → DiagnosisResult → String → Action
  new_action c r type = record {
    metadata = record {
      name = "diagnosis-" ++ (to_lower type ++ ("-" ++ target_hash r type));
      namespace = namespace_or_default r.namespace;
      uid = "";
      generation = ℤ.pos 0;
      labels = ("ops.example.io/target-hash", target_hash r type) ∷ [];
    };
    spec = record {
      action_type = type;
      target = record { kind = r.resource_kind; namespace = r.namespace; name = r.name };
      reason = r.reason;
      timeout_seconds = timeout_or_default c.action_timeout_seconds;
      requested_by = "diagnosis-agent";
      trigger_source = "DiagnosisAgent";
    };
    status = empty_status;
  }
