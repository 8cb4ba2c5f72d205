-- ===== src/Metrics.antt =====
-- internal/metrics/metrics.go. The Prometheus client is not modelled: a metric call is an entry of a
-- log, newest first, with the integer that the code converts to a float64. `int` is 64 bits wide, so a
-- count is kept as its bit pattern, a number below 2 ^ 64.
pub mod Census
pub mod Gauge
pub mod History
pub mod Keys
pub mod Registry
use Prim.Native.String.{◌++◌}
use k8s_ops_platform.Prelude.{
  ℕ, String, Option, none, some, List, [], ◌∷◌, Bool, true, false, ◌+◌, ◌-◌, ◌%◌, ◌&&◌, ◌==◌, ltb,
  if◌then◌else◌,
}
use k8s_ops_platform.Prelude.Dict.{lookup, insert}
use k8s_ops_platform.Api.{Action}
use k8s_ops_platform.Diagnosis.{DiagnosisResult}

pub record Label : Type 0 where
  pub kind : String
  pub reason : String
  pub severity : String

abbrev pub label_eq : Label → Label → Bool
label_eq a b = a.kind == b.kind && a.reason == b.reason && a.severity == b.severity

pub data MetricCall : Type 0 where
  set_active : Label → ℕ → MetricCall
  inc_diagnosis : Label → MetricCall
  inc_action : String → String → MetricCall
  inc_action_failed : String → MetricCall
  observe_duration : String → String → ℕ → MetricCall
  set_cache_objects : String → ℕ → MetricCall

-- 2 ^ 64
abbrev pub int_mod : ℕ
int_mod = 18446744073709551616

abbrev pub inc_int : ℕ → ℕ
inc_int n = (n + 1) % int_mod

abbrev pub dec_int : ℕ → ℕ
dec_int n = (n + (int_mod - 1)) % int_mod

pub record DiagnosisTracker : Type 0 where
  pub resources : List (String × List Label)
  pub counts : Label → ℕ
  -- the metric calls made so far
  pub calls : List MetricCall

unfoldable pub new_diagnosis_tracker : DiagnosisTracker
new_diagnosis_tracker = record { resources = []; counts = λ l. 0; calls = [] }

abbrev pub update : (Label → ℕ) → Label → ℕ → Label → ℕ
update counts l n j = if label_eq l j then n else counts j

-- The labels of a resource; none for a key that the map lacks.
abbrev pub or_nil : Option (List Label) → List Label
or_nil none = []
or_nil (some ls) = ls

-- One pass of the first loop: `t.counts[label]--` and the gauge set to the new count.
unfoldable pub retract : Label → DiagnosisTracker → DiagnosisTracker
retract l t =
    let n = dec_int (t.counts l) in
    record t { counts = update t.counts l n; calls = set_active l n ∷ t.calls }

-- One pass of the second loop: the count, the counter and the gauge.
unfoldable pub report : Label → DiagnosisTracker → DiagnosisTracker
report l t =
    let n = inc_int (t.counts l) in
    record t { counts = update t.counts l n; calls = set_active l n ∷ inc_diagnosis l ∷ t.calls }

unfoldable pub retract_all : List Label → DiagnosisTracker → DiagnosisTracker
retract_all [] t = t
retract_all (l ∷ ls) t = retract_all ls (retract l t)

unfoldable pub report_all : List Label → DiagnosisTracker → DiagnosisTracker
report_all [] t = t
report_all (l ∷ ls) t = report_all ls (report l t)

abbrev pub label_of : DiagnosisResult → Label
label_of r = record { kind = r.resource_kind; reason = r.reason; severity = r.severity }

unfoldable pub labels_of : List DiagnosisResult → List Label
labels_of [] = []
labels_of (r ∷ rs) = label_of r ∷ labels_of rs

-- strings.Join with "\x00" between the parts.
abbrev pub nul : String
nul = "\0"

abbrev pub resource_key : String → String → String → String
resource_key kind namespace name = kind ++ (nul ++ (namespace ++ (nul ++ name)))

unfoldable pub observe_resource :
    String → String → String → List DiagnosisResult → DiagnosisTracker → DiagnosisTracker
observe_resource kind namespace name results t =
    let key = resource_key kind namespace name in
    let labels = labels_of results in
    let t' = report_all labels (retract_all (or_nil (lookup key t.resources)) t) in
    record t' { resources = insert key labels t'.resources }

-- ObserveAction: the calls that it makes, newest first, before the ones made so far.
unfoldable pub observe_action : Action → String → ℕ → List MetricCall → List MetricCall
observe_action action result duration calls =
    let type = action.spec.action_type in
    let counted = inc_action type result ∷ calls in
    let failures = if result == "failed" then inc_action_failed type ∷ counted else counted in
    observe_duration type result duration ∷ failures

unfoldable pub set_informer_cache_objects : String → ℕ → List MetricCall → List MetricCall
set_informer_cache_objects kind count calls = set_cache_objects kind count ∷ calls

-- The largest time.Duration, at which Sub stops.
abbrev pub max_duration : ℕ
max_duration = 9223372036854775807

-- The time since the start, and 0 before it.
unfoldable pub duration : Option ℕ → ℕ → ℕ
duration none now = 0
duration (some started) now =
    if ltb now started
    then 0
    else if ltb max_duration (now - started)
    then max_duration
    else now - started
