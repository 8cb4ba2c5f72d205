-- ===== src/Samples.antt =====
-- A small cluster in memory, at which the theorems are tried: one Kube, with a list of each kind of
-- object and a clock.
pub mod Actions
pub mod Controllers
pub mod Runs
pub mod Maintained
pub mod Restarts
pub mod Rollouts
pub mod Completions
pub mod InTime
pub mod Recovery
pub mod Lives
pub mod Platforms
pub mod Memories
pub mod Starts
pub mod Agents
pub mod Diagnoses
use k8s_ops_platform.Prelude.{
  ℕ, suc, String, Option, none, some, List, [], ◌∷◌, Bool, true, false, not, ◌&&◌, ◌==◌, ◌≡◌, ◌+◌,
  refl, arith, eq_iff, any, map, if◌then◌else◌,
}
use k8s_ops_platform.Prelude.Int.{ℤ}
use k8s_ops_platform.Api.{
  Action, ActionSpec, ActionStatus, Condition, ObjectMeta, TargetReference, empty_status,
}
use k8s_ops_platform.Kube.{Kube}
use k8s_ops_platform.Kube.Errors.{Error, errorf, wrapf, in_progress, api, Result, ok, err}
use k8s_ops_platform.Kube.Objects.{OwnerReference, PodCondition, Pod, Node, Deployment}
use k8s_ops_platform.Policy.Laws.{KeepsNames}

-- What the sample's calls fail with.
pub data Fault : Type 0 where
  not_found conflict already_exists too_many_requests : Fault

abbrev fault_of : Error Fault → Option Fault
fault_of (errorf s) = none
fault_of (wrapf s e) = fault_of e
fault_of (in_progress s) = none
fault_of (api f) = some f

abbrev is_absent : Option Fault → Bool
is_absent (some not_found) = true
is_absent _ = false

abbrev is_stale : Option Fault → Bool
is_stale (some conflict) = true
is_stale _ = false

abbrev is_taken : Option Fault → Bool
is_taken (some already_exists) = true
is_taken _ = false

abbrev is_refused : Option Fault → Bool
is_refused (some too_many_requests) = true
is_refused _ = false

pub record Cluster : Type 0 where
  pub actions : List Action
  pub pods : List Pod
  pub nodes : List Node
  pub deployments : List Deployment
  pub now : ℕ

abbrev pub find : {A : Type 0} → (A → Bool) → List A → Result Fault A
find p [] = err not_found
find p (x ∷ xs) = let rest = find p xs in if p x then ok x else rest

abbrev pub remove : {A : Type 0} → (A → Bool) → List A → List A
remove p [] = []
remove p (x ∷ xs) = let rest = remove p xs in if p x then rest else x ∷ rest

abbrev is_pod : String → String → Pod → Bool
is_pod namespace name p = p.namespace == namespace && p.name == name

abbrev pub is_action : String → String → Action → Bool
is_action namespace name a = a.metadata.namespace == namespace && a.metadata.name == name

abbrev without_pod : String → String → Cluster → Cluster
without_pod namespace name c = record c { pods = remove (is_pod namespace name) c.pods }

abbrev create_in : Action → Cluster → Option Fault × Cluster
create_in a c =
    if any (is_action a.metadata.namespace a.metadata.name) c.actions
    then (some already_exists, c)
    else (none, record c { actions = a ∷ c.actions })

-- An update of an Action that is not there is answered with a conflict.
abbrev update_in : Action → Cluster → (Option Fault × Action) × Cluster
update_in a c =
    let at = is_action a.metadata.namespace a.metadata.name in
    if any at c.actions
    then ((none, a), record c { actions = a ∷ remove at c.actions })
    else ((some conflict, a), c)

abbrev is_of_type : String → Condition → Bool
is_of_type type c = c.type == type

abbrev pub sample : Kube
sample = record {
  World = Cluster;
  ApiError = Fault;
  error_text = λ f. "fault";
  is_not_found = λ e. is_absent (fault_of e);
  is_conflict = λ e. is_stale (fault_of e);
  is_already_exists = λ e. is_taken (fault_of e);
  is_too_many_requests = λ e. is_refused (fault_of e);
  ignore_not_found = λ e. if is_absent (fault_of e) then none else some e;
  get_action = λ namespace name c. (find (is_action namespace name) c.actions, c);
  get_pod = λ namespace name c. (find (is_pod namespace name) c.pods, c);
  get_node = λ name c. (find (λ n. n.name == name) c.nodes, c);
  get_deployment =
      λ namespace name c. (find (λ d. d.namespace == namespace && d.name == name) c.deployments, c);
  list_pods_in = λ namespace c. (ok (remove (λ p. not (p.namespace == namespace)) c.pods), c);
  list_pods_on = λ name c. (ok c.pods, c);
  create_action = create_in;
  update_status = update_in;
  delete_pod = λ p c. (none, without_pod p.namespace p.name c);
  evict_pod = λ namespace name c. (none, without_pod namespace name c);
  patch_node = λ n base c. (none, record c { nodes = n ∷ remove (λ m. m.name == n.name) c.nodes });
  patch_deployment = λ d base c.
      (none, record c { deployments = d ∷ remove (λ b. b.name == d.name) c.deployments });
  set_status_condition = λ cs x c. (x ∷ remove (is_of_type x.type) cs, c);
  time_now = λ c. (c.now, record c { now = c.now + 1 });
  jitter = λ duration percent c. (duration, c);
  format_rfc3339 = λ t. "time";
  quote = λ s. s;
}

-- A name is taken when an Action has it.
abbrev pub IsTaken : String → String → Cluster → Type 0
IsTaken namespace name c = any (is_action namespace name) c.actions ≡ true

pub sample-takes :
    (a : Action) (c : Cluster)
    → (create_in a c).0 ≡ none
    → IsTaken a.metadata.namespace a.metadata.name (create_in a c).1
sample-takes a c taken = ground (
  arith,
  eq_iff a.metadata.namespace a.metadata.namespace,
  eq_iff a.metadata.name a.metadata.name,
)

sample-refuses :
    (a : Action) (c : Cluster)
    → IsTaken a.metadata.namespace a.metadata.name c
    → (f : Fault) × (is_taken (some f) ≡ true) × (create_in a c ≡ (some f, c))
sample-refuses a c taken = (already_exists, refl, rw taken refl)

pub sample-KeepsNames : KeepsNames sample IsTaken
sample-KeepsNames = record { takes = sample-takes; refuses = sample-refuses }

abbrev pub owner : OwnerReference
owner = record { kind = "ReplicaSet"; name = "web"; controller = some true }

abbrev pub pod_with : String → String → List OwnerReference → Pod
pod_with name uid owners = record {
  namespace = "shop";
  name = name;
  uid = uid;
  annotations = [];
  owner_references = owners;
  deletion_timestamp = none;
  phase = "Running";
  conditions = record { type = "Ready"; status = "True" } ∷ [];
  init_container_statuses = [];
  container_statuses = [];
}

abbrev pub cluster : Cluster
cluster = record {
  actions = [];
  pods = pod_with "web-1" "u1" (owner ∷ []) ∷ pod_with "web-2" "u2" (owner ∷ []) ∷ [];
  nodes = [];
  deployments = [];
  now = 5000000000;
}

abbrev pub action_at : String → String → ActionStatus → Action
action_at type name status = record {
  metadata = record {
    name = "restart";
    namespace = "shop";
    uid = "a1";
    generation = ℤ.pos 1;
    labels = [];
  };
  spec = record {
    action_type = type;
    target = record { kind = "Pod"; namespace = "shop"; name = name };
    reason = "CrashLoopBackOff";
    timeout_seconds = ℤ.pos 60;
    requested_by = "operator";
    trigger_source = "Manual";
  };
  status = status;
}
