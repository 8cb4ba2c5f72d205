-- ===== src/Metrics/History.antt =====
-- The census of the tracker's map, told from the history of observations alone.
use k8s_ops_platform.Prelude.{
  ℕ, String, none, some, List, [], ◌∷◌, Bool, false, ◌+◌, ◌%◌, ◌≡◌, ◌⊎◌, inl, inr, refl, sym, ap,
  subst, ◌∙◌, arith, ◌==◌, ◌||◌, eq_iff, if◌then◌else◌, Bool-cases,
}
use native.Mathlib.Nat.{add-zero}
use k8s_ops_platform.Prelude.Dict.{lookup, insert, lookup-insert}
use k8s_ops_platform.Metrics.{
  Label, DiagnosisTracker, new_diagnosis_tracker, int_mod, labels_of, resource_key,
}
use k8s_ops_platform.Metrics.Census.{occurrences, census, observe_resource-resources}
use k8s_ops_platform.Metrics.Gauge.{
  Observation, observe, observe_all, gauge, after_history, gauge-after_history,
}

abbrev pub key_of : Observation → String
key_of o = resource_key o.kind o.namespace o.name

-- Whether a history observes the resource of a key.
abbrev pub observed : String → List Observation → Bool
observed k [] = false
observed k (o ∷ os) = key_of o == k || observed k os

-- How many diagnoses with a label the last observations of the resources have.
abbrev pub current : Label → List Observation → ℕ
current l [] = 0
current l (o ∷ os) =
    (if observed (key_of o) os then 0 else occurrences l (labels_of o.results)) + current l os

-- The census of the entries that a history leaves alone.
abbrev untouched : Label → List Observation → List (String × List Label) → ℕ
untouched l os [] = 0
untouched l os ((k, labels) ∷ m) =
    (if observed k os then 0 else occurrences l labels) + untouched l os m

abbrev Distinct : List (String × List Label) → Type 0
Distinct [] = Unit
Distinct ((k, labels) ∷ m) = (lookup k m ≡ none) × Distinct m

insert-Distinct :
    (k : String) (v : List Label) (m : List (String × List Label))
    → Distinct m
    → Distinct (insert k v m)
unfolding insert lookup
insert-Distinct k v [] d = (refl, tt)
insert-Distinct k v ((j, w) ∷ m) d =
    ground (arith, eq_iff j k, eq_iff k j, insert-Distinct k v m d.1, lookup-insert k j v m)

untouched-absent :
    (l : Label) (o : Observation) (os : List Observation) (m : List (String × List Label))
    → lookup (key_of o) m ≡ none
    → untouched l (o ∷ os) m ≡ untouched l os m
unfolding lookup
untouched-absent l o os [] h = refl
untouched-absent l o os ((k, w) ∷ m) h =
    ground (arith, eq_iff (key_of o) k, eq_iff k (key_of o), untouched-absent l o os m)

eq_comm : (a b : String) → (a == b) ≡ (b == a)
eq_comm a b = ground (arith, eq_iff a b, eq_iff b a)

untouched-insert :
    (l : Label) (o : Observation) (os : List Observation) (v : List Label)
    (m : List (String × List Label))
    → Distinct m
    → untouched l os (insert (key_of o) v m)
      ≡ (if observed (key_of o) os then 0 else occurrences l v) + untouched l (o ∷ os) m
unfolding insert
untouched-insert l o os v [] d = refl
untouched-insert l o os v ((k, w) ∷ m) d = elim (Bool-cases (k == key_of o)) [
  | inl e ↦
      let gone : lookup (key_of o) m ≡ none =
        subst (λ x. lookup x m ≡ none) ((eq_iff k _).0 e) d.0 in
      rw (e, eq_comm (key_of o) k, e) (omega (arith, untouched-absent l o os m gone))
  | inr n ↦ rw (n, eq_comm (key_of o) k, n) (omega (arith, untouched-insert l o os v m d.1))
]

untouched-nil : (l : Label) (m : List (String × List Label)) → census l m ≡ 0 + untouched l [] m
untouched-nil l [] = refl
untouched-nil l ((k, w) ∷ m) = omega (arith, untouched-nil l m)

census-observe_all :
    (l : Label) (os : List Observation) (t : DiagnosisTracker)
    → Distinct t.resources
    → census l (observe_all os t).resources ≡ current l os + untouched l os t.resources
unfolding observe_all
census-observe_all l [] t d = untouched-nil l t.resources
census-observe_all l (o ∷ os) t d =
    let v = labels_of o.results in
    let e = observe_resource-resources o.kind o.namespace o.name o.results t in
    omega (
      arith,
      census-observe_all l os (observe o t)
          (subst Distinct (sym e) (insert-Distinct (key_of o) v t.resources d)),
      ap (untouched l os) e,
      untouched-insert l o os v t.resources d,
    )

-- After any history of observations from an empty tracker, the gauge of a label shows how many
-- diagnoses with that label the last observations of the resources have, modulo 2 ^ 64. Where the
-- gauge was never set, that number is 0 modulo 2 ^ 64.
pub gauge-eq-current :
    (os : List Observation) (l : Label)
    → let calls = (after_history os).calls in
      (gauge l calls ≡ some (current l os % int_mod))
      ⊎ ((gauge l calls ≡ none) × (current l os % int_mod ≡ 0))
unfolding new_diagnosis_tracker
gauge-eq-current os l =
    let told : census l (after_history os).resources ≡ current l os =
      census-observe_all l os new_diagnosis_tracker tt ∙ add-zero (current l os) in
    rw (← told) (gauge-after_history os l)
