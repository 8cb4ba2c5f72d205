-- ===== src/Diagnosis/Deployments/Laws.antt =====
-- When the deployment detector reports, and what.
use k8s_ops_platform.Prelude.{
  ℕ, some, List, [], ◌∷◌, ◌≡◌, ◌↔◌, ◌⊎◌, inl, inr, sym, ◌∙◌, refl, arith, eq_iff, Option-cases, map,
  ap,
}
use k8s_ops_platform.Prelude.Int.{ℤ, itoa, eqb_ℤ_eq, leb_ℤ-cases, ltb_ℤ-cases, ◌≤ℤ◌, ◌<ℤ◌}
use k8s_ops_platform.Kube.Objects.{DeploymentCondition, Deployment}
use k8s_ops_platform.Diagnosis.{Evidence, DiagnosisResult, severity_warning, severity_critical}
use k8s_ops_platform.Diagnosis.Deployments.{
  reason_replicas_unavailable, severity_of, condition_evidence, report, diagnose,
}

-- The deployment's status speaks of its current spec, which asks for more replicas than there are.
abbrev pub IsShort : Deployment → ℤ → Type 0
IsShort d desired =
    (d.replicas ≡ some desired)
    × (d.generation ≤ℤ d.observed_generation)
    × (d.available_replicas <ℤ desired)

-- A report of a shortage: it names the deployment, is critical exactly when nothing is available, and
-- suggests no action. Its evidence gives the desired count and the counts of the status, and then the
-- status of each condition.
pub record IsReport (d : Deployment) (desired : ℤ) (r : DiagnosisResult) : Type 0 where
  pub of_deployment :
      (r.resource_kind ≡ "Deployment") × (r.namespace ≡ d.namespace) × (r.name ≡ d.name)
  pub reason : r.reason ≡ reason_replicas_unavailable
  pub critical : (r.severity ≡ severity_critical) ↔ (d.available_replicas ≡ ℤ.pos 0)
  pub no_action : r.suggested_action ≡ ""
  pub values :
      map (λ (e : Evidence). e.value) r.evidence
      ≡ itoa desired
        ∷ itoa d.available_replicas
        ∷ itoa d.ready_replicas
        ∷ itoa d.unavailable_replicas
        ∷ itoa d.updated_replicas
        ∷ map (λ (c : DeploymentCondition). c.status) d.conditions

condition_evidence-values :
    (cs : List DeploymentCondition)
    → map (λ (e : Evidence). e.value) (condition_evidence cs)
      ≡ map (λ (c : DeploymentCondition). c.status) cs
unfolding condition_evidence
condition_evidence-values [] = refl
condition_evidence-values (c ∷ cs) = ap (λ vs. c.status ∷ vs) (condition_evidence-values cs)

critical_iff :
    (d : Deployment) (n : ℤ)
    → d.available_replicas <ℤ n
    → (severity_of d n ≡ severity_critical) ↔ (d.available_replicas ≡ ℤ.pos 0)
critical_iff d n h =
    ground
      (arith, eqb_ℤ_eq d.available_replicas (ℤ.pos 0), eq_iff severity_warning severity_critical)

report-IsReport :
    (now : ℕ) (d : Deployment) (n : ℤ) → d.available_replicas <ℤ n → IsReport d n (report d n now)
unfolding report
report-IsReport now d n h = record {
  of_deployment = (refl, refl, refl);
  reason = refl;
  critical = critical_iff d n h;
  no_action = refl;
  values = rw (condition_evidence-values d.conditions) refl;
}

abbrev pub Verdict : Deployment → List DiagnosisResult → Type 0
Verdict d rs =
    ((rs ≡ []) × ((n : ℤ) → ¬ IsShort d n))
    ⊎ ((n : ℤ) × (r : DiagnosisResult) × IsShort d n × (rs ≡ r ∷ []) × IsReport d n r)

not-IsShort :
    (d : Deployment) {n : ℤ}
    → d.replicas ≡ some n
    → (d.observed_generation <ℤ d.generation) ⊎ (n ≤ℤ d.available_replicas)
    → (m : ℤ) → ¬ IsShort d m
not-IsShort d e why m (e', fresh, short) = ground (arith, sym e ∙ e')

-- The deployment detector reports exactly when the desired count is set, the status is of the current
-- generation, and fewer replicas are available than desired. Then there is one report: it names the
-- deployment, is critical exactly when no replica is available, and suggests no action. Its evidence
-- gives the desired count and the counts of the status, and then the status of each condition.
pub diagnose-Verdict : (now : ℕ) (d : Deployment) → Verdict d (diagnose now d)
unfolding diagnose
diagnose-Verdict now d = elim (Option-cases d.replicas) [
  | inl e ↦ inl (ground arith, λ n h. cc (h.0))
  | inr (n, e) ↦ elim (ltb_ℤ-cases d.observed_generation d.generation) [
    | inl (stale, old) ↦ inl (ground arith, not-IsShort d e (inl old))
    | inr (current, fresh) ↦ elim (leb_ℤ-cases n d.available_replicas) [
      | inl (enough, le) ↦ inl (ground arith, not-IsShort d e (inr le))
      | inr (few, short) ↦
          inr (n, report d n now, (e, fresh, short), ground arith, report-IsReport now d n short)
    ]
  ]
]
