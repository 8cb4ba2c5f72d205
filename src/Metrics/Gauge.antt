-- ===== src/Metrics/Gauge.antt =====
-- What the gauge of active diagnoses shows after any history of observations.
use k8s_ops_platform.Prelude.{
  ℕ, String, Option, none, some, List, [], ◌∷◌, ◌%◌, ◌≡◌, ◌⊎◌, inr, refl, arith, if◌then◌else◌,
}
use k8s_ops_platform.Diagnosis.{DiagnosisResult}
use k8s_ops_platform.Metrics.{
  Label, label_eq, MetricCall, set_active, inc_diagnosis, inc_action, inc_action_failed,
  observe_duration, set_cache_objects, DiagnosisTracker, new_diagnosis_tracker, int_mod, retract,
  report, retract_all, report_all, observe_resource,
}
use k8s_ops_platform.Metrics.Census.{census, IsCounted, observe_resource-IsCounted}

-- The value that a label's gauge was last set to.
abbrev pub gauge : Label → List MetricCall → Option ℕ
gauge j [] = none
gauge j (set_active l n ∷ calls) = if label_eq l j then some n else gauge j calls
gauge j (inc_diagnosis l ∷ calls) = gauge j calls
gauge j (inc_action a r ∷ calls) = gauge j calls
gauge j (inc_action_failed a ∷ calls) = gauge j calls
gauge j (observe_duration a r n ∷ calls) = gauge j calls
gauge j (set_cache_objects kind n ∷ calls) = gauge j calls

-- The gauge shows the count of its label, and 0 is the count of a label that was never shown.
abbrev pub IsShown : DiagnosisTracker → Type 0
IsShown t =
    (j : Label)
    → (gauge j t.calls ≡ some (t.counts j)) ⊎ ((gauge j t.calls ≡ none) × (t.counts j ≡ 0))

retract-IsShown : (l : Label) (t : DiagnosisTracker) → IsShown t → IsShown (retract l t)
unfolding retract
retract-IsShown l t h j = ground (arith, h j)

report-IsShown : (l : Label) (t : DiagnosisTracker) → IsShown t → IsShown (report l t)
unfolding report
report-IsShown l t h j = ground (arith, h j)

retract_all-IsShown :
    (ls : List Label) (t : DiagnosisTracker) → IsShown t → IsShown (retract_all ls t)
unfolding retract_all
retract_all-IsShown [] t h = h
retract_all-IsShown (l ∷ ls) t h = retract_all-IsShown ls (retract l t) (retract-IsShown l t h)

report_all-IsShown :
    (ls : List Label) (t : DiagnosisTracker) → IsShown t → IsShown (report_all ls t)
unfolding report_all
report_all-IsShown [] t h = h
report_all-IsShown (l ∷ ls) t h = report_all-IsShown ls (report l t) (report-IsShown l t h)

observe_resource-IsShown :
    (kind namespace name : String) (results : List DiagnosisResult) (t : DiagnosisTracker)
    → IsShown t
    → IsShown (observe_resource kind namespace name results t)
unfolding observe_resource
observe_resource-IsShown kind namespace name results t h =
    report_all-IsShown _ (retract_all _ t) (retract_all-IsShown _ t h)

-- An informer's notification: the resource, and what the detector found.
pub record Observation : Type 0 where
  pub kind : String
  pub namespace : String
  pub name : String
  pub results : List DiagnosisResult

abbrev pub observe : Observation → DiagnosisTracker → DiagnosisTracker
observe o = observe_resource o.kind o.namespace o.name o.results

-- A history, oldest first.
unfoldable pub observe_all : List Observation → DiagnosisTracker → DiagnosisTracker
observe_all [] t = t
observe_all (o ∷ os) t = observe_all os (observe o t)

observe_all-IsShown :
    (os : List Observation) (t : DiagnosisTracker) → IsShown t → IsShown (observe_all os t)
unfolding observe_all
observe_all-IsShown [] t h = h
observe_all-IsShown (o ∷ os) t h =
    observe_all-IsShown os (observe o t)
      (observe_resource-IsShown o.kind o.namespace o.name o.results t h)

observe_all-IsCounted :
    (os : List Observation) (t : DiagnosisTracker) → IsCounted t → IsCounted (observe_all os t)
unfolding observe_all
observe_all-IsCounted [] t h = h
observe_all-IsCounted (o ∷ os) t h =
    observe_all-IsCounted os (observe o t)
      (observe_resource-IsCounted o.kind o.namespace o.name o.results t h)

abbrev pub after_history : List Observation → DiagnosisTracker
after_history os = observe_all os new_diagnosis_tracker

-- After any history of observations, a label's gauge shows how many diagnoses with that label the
-- resources now have (as a 64-bit integer), and a gauge that was never set has none, modulo 2 ^ 64.
pub gauge-after_history :
    (os : List Observation) (j : Label)
    → let t = after_history os in
      (gauge j t.calls ≡ some (census j t.resources % int_mod))
      ⊎ ((gauge j t.calls ≡ none) × (census j t.resources % int_mod ≡ 0))
unfolding new_diagnosis_tracker
gauge-after_history os j =
    let shown = observe_all-IsShown os new_diagnosis_tracker (λ l. inr (refl, refl)) j in
    let counted = observe_all-IsCounted os new_diagnosis_tracker (λ l. refl) j in
    rw (← counted) shown
