-- ===== src/Metrics/Census.antt =====
-- The counts of the tracker against a census: for every label, how often the resources have it.
use k8s_ops_platform.Prelude.{
  ℕ, String, List, [], ◌∷◌, true, ◌+◌, ◌%◌, ◌≡◌, ◌↔◌, inl, inr, refl, ap, ◌∙◌, arith, ◌==◌, eq_iff,
  if◌then◌else◌, Bool-cases,
}
use k8s_ops_platform.Prelude.Dict.{lookup, insert}
use k8s_ops_platform.Diagnosis.{DiagnosisResult}
use k8s_ops_platform.Metrics.{
  Label, label_eq, DiagnosisTracker, int_mod, or_nil, retract, report, retract_all, report_all,
  labels_of, resource_key, observe_resource,
}

pub label_eq_iff : (a b : Label) → (label_eq a b ≡ true) ↔ (a ≡ b)
label_eq_iff a b =
    ground (arith, eq_iff a.kind b.kind, eq_iff a.reason b.reason, eq_iff a.severity b.severity)

-- How often a label stands in a list, and in the lists of all resources.
abbrev pub occurrences : Label → List Label → ℕ
occurrences l [] = 0
occurrences l (x ∷ xs) = let rest = occurrences l xs in if label_eq x l then rest + 1 else rest

abbrev pub census : Label → List (String × List Label) → ℕ
census l [] = 0
census l ((key, labels) ∷ m) = occurrences l labels + census l m

-- A map without its first entry for a key.
without : String → List (String × List Label) → List (String × List Label)
without k [] = []
without k ((j, v) ∷ m) = if j == k then m else (j, v) ∷ without k m

census-lookup :
    (l : Label) (k : String) (m : List (String × List Label))
    → census l m ≡ census l (without k m) + occurrences l (or_nil (lookup k m))
unfolding without lookup
census-lookup l k [] = omega arith
census-lookup l k ((j, v) ∷ m) = ground (arith, census-lookup l k m)

census-insert :
    (l : Label) (k : String) (v : List Label) (m : List (String × List Label))
    → census l (insert k v m) ≡ census l (without k m) + occurrences l v
unfolding without insert
census-insert l k v [] = omega arith
census-insert l k v ((j, w) ∷ m) = ground (arith, census-insert l k v m)

retract_all-counts :
    (j : Label) (n : ℕ) (ls : List Label) (t : DiagnosisTracker)
    → t.counts j ≡ (n + occurrences j ls) % int_mod
    → (retract_all ls t).counts j ≡ n % int_mod
unfolding retract_all retract
retract_all-counts j n [] t h = omega arith
retract_all-counts j n (l ∷ ls) t h =
    retract_all-counts j n ls (retract l t) (elim (Bool-cases (label_eq l j)) [
      | inl e ↦ rw e (omega (arith, ap t.counts ((label_eq_iff l j).0 e), rw e at h))
      | inr m ↦ rw m (rw m at h)
    ])

report_all-counts :
    (j : Label) (n : ℕ) (ls : List Label) (t : DiagnosisTracker)
    → t.counts j ≡ n % int_mod
    → (report_all ls t).counts j ≡ (n + occurrences j ls) % int_mod
unfolding report_all report
report_all-counts j n [] t h = omega arith
report_all-counts j n (l ∷ ls) t h = elim (Bool-cases (label_eq l j)) [
  | inl e ↦ rw e (
      omega (
        arith,
        report_all-counts j (n + 1) ls (report l t)
            (rw e (omega (arith, ap t.counts ((label_eq_iff l j).0 e)))),
      ))
  | inr m ↦ rw m (report_all-counts j n ls (report l t) (rw m h))
]

retract_all-resources :
    (ls : List Label) (t : DiagnosisTracker) → (retract_all ls t).resources ≡ t.resources
unfolding retract_all retract
retract_all-resources [] t = refl
retract_all-resources (l ∷ ls) t = retract_all-resources ls (retract l t)

report_all-resources :
    (ls : List Label) (t : DiagnosisTracker) → (report_all ls t).resources ≡ t.resources
unfolding report_all report
report_all-resources [] t = refl
report_all-resources (l ∷ ls) t = report_all-resources ls (report l t)

pub observe_resource-resources :
    (kind namespace name : String) (results : List DiagnosisResult) (t : DiagnosisTracker)
    → (observe_resource kind namespace name results t).resources
      ≡ insert (resource_key kind namespace name) (labels_of results) t.resources
unfolding observe_resource
observe_resource-resources kind namespace name results t =
    ap (insert (resource_key kind namespace name) (labels_of results))
      (report_all-resources _ _ ∙ retract_all-resources _ t)

-- Every count is the census of its label, modulo the width of an int.
abbrev pub IsCounted : DiagnosisTracker → Type 0
IsCounted t = (l : Label) → t.counts l ≡ census l t.resources % int_mod

pub observe_resource-IsCounted :
    (kind namespace name : String) (results : List DiagnosisResult) (t : DiagnosisTracker)
    → IsCounted t
    → IsCounted (observe_resource kind namespace name results t)
unfolding observe_resource
observe_resource-IsCounted kind namespace name results t h l =
    let key = resource_key kind namespace name in
    let old = or_nil (lookup key t.resources) in
    let labels = labels_of results in
    rw
      (
        observe_resource-resources kind namespace name results t,
        census-insert l key labels t.resources,
      )
      (report_all-counts l (census l (without key t.resources)) labels (retract_all old t) (
        retract_all-counts l (census l (without key t.resources)) old t
          (rw (← census-lookup l key t.resources) (h l))))
