-- ===== src/Policy/Laws.antt =====
-- What the policy creates, and that it creates it once.
use k8s_ops_platform.Prelude.{
  ℕ, String, none, some, List, Bool, true, false, not, ◌||◌, subst, ◌≡◌, ◌≢◌, ◌⊎◌, inl, inr, refl,
  arith, ◌==◌, eq_iff, Bool-cases,
}
use k8s_ops_platform.Api.{pod_restart, deployment_restart, Action}
use k8s_ops_platform.Kube.{Kube}
use k8s_ops_platform.Kube.Errors.{api}
use k8s_ops_platform.Diagnosis.{DiagnosisResult}
use k8s_ops_platform.Policy.{high, Config, risk_for, should_auto_create, target_hash, new_action}
use k8s_ops_platform.Policy.Sink.{create_if_no_active, is_excluded, handle}

pub auto_create_lem :
    (c : Config) (type : String)
    → should_auto_create c type ≡ true
    → (((type ≡ pod_restart) × (c.auto_pod_restart ≡ true))
        ⊎ ((type ≡ deployment_restart) × (c.auto_deployment_restart ≡ true)))
      × (risk_for type ≢ high)
unfolding should_auto_create risk_for
auto_create_lem c type h = ground (arith, eq_iff type pod_restart, eq_iff type deployment_restart)

module _ (k : Kube) (sha256 : String → List ℕ) (config : Config) where
  pub handle_cases :
      (r : DiagnosisResult) (w : k.World)
      → ((handle k sha256 config r w) ≡ (none, w))
        ⊎ ((is_excluded config r.namespace ≡ false)
            × (should_auto_create config r.suggested_action ≡ true)
            × ((handle k sha256 config r w).1
                ≡ (k.create_action (new_action sha256 config r r.suggested_action) w).1))
  unfolding handle create_if_no_active
  handle_cases r w = ground arith

  -- What the policy may create: a restart, under the flag for its kind.
  abbrev pub IsPermitted : String → Type 0
  IsPermitted type =
      ((type ≡ pod_restart) × (config.auto_pod_restart ≡ true))
      ⊎ ((type ≡ deployment_restart) × (config.auto_deployment_restart ≡ true))

  -- A report leaves the cluster alone, or the one call of the API server creates its suggested action:
  -- then the namespace is not excluded, and the action is a PodRestart while the flag for pods is set,
  -- or a DeploymentRestart while that for deployments is, and not of high risk.
  pub handle-IsPermitted :
      (r : DiagnosisResult) (w : k.World)
      → ((handle k sha256 config r w) ≡ (none, w))
        ⊎ ((is_excluded config r.namespace ≡ false)
            × IsPermitted r.suggested_action
            × (risk_for r.suggested_action ≢ high)
            × ((handle k sha256 config r w).1
                ≡ (k.create_action (new_action sha256 config r r.suggested_action) w).1))
  handle-IsPermitted r w = elim (handle_cases r w) [
    | inl quiet ↦ inl quiet
    | inr (included, auto, created) ↦
        let (permitted, safe) = auto_create_lem config r.suggested_action auto in
        inr (included, permitted, safe, created)
  ]

-- Reports of one target: what the name of the created Action is made of.
pub record SameTarget (r r' : DiagnosisResult) : Type 0 where
  pub kind : r.resource_kind ≡ r'.resource_kind
  pub namespace : r.namespace ≡ r'.namespace
  pub name : r.name ≡ r'.name
  pub reason : r.reason ≡ r'.reason
  pub action : r.suggested_action ≡ r'.suggested_action

-- The API server keeps names: after it has taken an object, the name is taken, and as long as it is, a
-- second object of the name is refused, with the answer that it exists.
pub record KeepsNames (k : Kube) (IsTaken : String → String → k.World → Type 0) : Type 0 where
  pub takes :
      (a : Action) (w : k.World)
      → (k.create_action a w).0 ≡ none
      → IsTaken a.metadata.namespace a.metadata.name (k.create_action a w).1
  pub refuses :
      (a : Action) (w : k.World)
      → IsTaken a.metadata.namespace a.metadata.name w
      → (e : k.ApiError) × (k.is_already_exists (api e) ≡ true)
        × (k.create_action a w ≡ (some e, w))

module _ (sha256 : String → List ℕ) (config : Config) {r r' : DiagnosisResult}
    (same : SameTarget r r') where
  target_hash-same : (type : String) → target_hash sha256 r type ≡ target_hash sha256 r' type
  unfolding target_hash
  target_hash-same type = rw (same.kind, same.namespace, same.name, same.reason)

  new_action-same_name :
      (type : String)
      → ((new_action sha256 config r type).metadata.namespace
          ≡ (new_action sha256 config r' type).metadata.namespace)
        × ((new_action sha256 config r type).metadata.name
            ≡ (new_action sha256 config r' type).metadata.name)
  unfolding new_action
  new_action-same_name type = (rw same.namespace, rw (target_hash-same type))

-- The tests that keep a report from the API server.
abbrev pub is_held : Config → DiagnosisResult → Bool
is_held c r =
    is_excluded c r.namespace
    || r.suggested_action == ""
    || not (should_auto_create c r.suggested_action)

is_held-same : (c : Config) {r r' : DiagnosisResult} → SameTarget r r' → is_held c r ≡ is_held c r'
is_held-same c same = rw (same.namespace, same.action) refl

module _ (k : Kube) (sha256 : String → List ℕ) (config : Config) where
  handle-held :
      (r : DiagnosisResult) (w : k.World)
      → is_held config r ≡ true
      → handle k sha256 config r w ≡ (none, w)
  unfolding handle
  handle-held r w h = ground arith

  pub handle-free :
      (r : DiagnosisResult)
      → is_held config r ≡ false
      → handle k sha256 config r ≡ create_if_no_active k sha256 config r r.suggested_action
  unfolding handle
  handle-free r h = ground arith

  create_if_no_active-refused :
      (r : DiagnosisResult) (type : String) (w : k.World) (e : k.ApiError)
      → k.is_already_exists (api e) ≡ true
      → k.create_action (new_action sha256 config r type) w ≡ (some e, w)
      → create_if_no_active k sha256 config r type w ≡ (none, w)
  unfolding create_if_no_active
  create_if_no_active-refused r type w e exists refused =
      rw (refused, create_if_no_active) (rw exists refl)

module _ (k : Kube) (IsTaken : String → String → k.World → Type 0) (keeps : KeepsNames k IsTaken)
    (sha256 : String → List ℕ) (config : Config) where
  -- The name of the Action that a report asks for is taken.
  abbrev pub IsAsked : DiagnosisResult → k.World → Type 0
  IsAsked r =
      let a = new_action sha256 config r r.suggested_action in
      IsTaken a.metadata.namespace a.metadata.name

  handle-IsAsked :
      (r : DiagnosisResult) (w : k.World)
      → is_held config r ≡ false
      → (k.create_action (new_action sha256 config r r.suggested_action) w).0 ≡ none
      → IsAsked r (handle k sha256 config r w).1
  unfolding create_if_no_active
  handle-IsAsked r w free taken = rw (handle-free k sha256 config r free) (keeps.takes _ w taken)

  IsAsked-quiet :
      (r : DiagnosisResult) (v : k.World) → IsAsked r v → handle k sha256 config r v ≡ (none, v)
  IsAsked-quiet r v asked =
      let (e, exists, refused) = keeps.refuses _ v asked in
      elim (Bool-cases (is_held config r)) [
        | inl held ↦ handle-held k sha256 config r v held
        | inr free ↦
            rw (handle-free k sha256 config r free)
              (create_if_no_active-refused k sha256 config r r.suggested_action v e exists refused)
      ]

  IsAsked-same :
      {r r' : DiagnosisResult} → SameTarget r r' → (v : k.World) → IsAsked r v → IsAsked r' v
  IsAsked-same {r} {r'} same v asked =
      let (name_space, name) = new_action-same_name sha256 config same r.suggested_action in
      let a = new_action sha256 config r r.suggested_action in
      let a' = new_action sha256 config r' r.suggested_action in
      let renamed : IsTaken a'.metadata.namespace a'.metadata.name v =
        subst (λ n. IsTaken n a'.metadata.name v) name_space
          (subst (λ n. IsTaken a.metadata.namespace n v) name asked) in
      subst
        (λ t.
          let a = new_action sha256 config r' t in IsTaken a.metadata.namespace a.metadata.name v)
        same.action renamed

  -- Two reports of one target, and an API server that keeps names. When the first one is handled, the
  -- policy acts on it, and the API server takes its Action, then the name of this Action is taken. In
  -- every world in which the name is taken, whatever has become of the Action since, the second report
  -- gives no error and leaves the cluster alone.
  pub handle-once :
      (r r' : DiagnosisResult)
      → SameTarget r r'
      → (w v : k.World) → is_held config r ≡ false
      → (k.create_action (new_action sha256 config r r.suggested_action) w).0 ≡ none
      → IsAsked r v
      → IsAsked r (handle k sha256 config r w).1 × (handle k sha256 config r' v ≡ (none, v))
  handle-once r r' same w v free taken asked =
      (handle-IsAsked r w free taken, IsAsked-quiet r' v (IsAsked-same same v asked))
