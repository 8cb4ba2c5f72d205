-- ===== src/Samples/Starts.antt =====
-- The start of the two processes, the registry, the /state page and the names of Actions.
use k8s_ops_platform.Prelude.{
  ◌++◌, ℕ, String, Option, none, some, List, [], ◌∷◌, Bool, true, false, ◌+◌, ◌<◌, ◌≡◌, ◌⊎◌, refl,
  arith, ◌||◌, ◌==◌, eq_iff, All, if◌then◌else◌,
}
use k8s_ops_platform.Api.{pod_restart}
use k8s_ops_platform.Api.Group.{SchemeLibrary, scheme_builder, add_to_scheme}
use k8s_ops_platform.Kube.Errors.{ok, err}
use k8s_ops_platform.Kube.Config.{ConfigSource}
use k8s_ops_platform.Kube.Startup.{Process}
use k8s_ops_platform.Metrics.Registry.{
  Registerer, collectors, register, KeepsCollectors, register-again,
}
use k8s_ops_platform.Diagnosis.{DiagnosisResult}
use k8s_ops_platform.Policy.{target_hash, new_action}
use k8s_ops_platform.Policy.Names.{HasPlainParts, new_action-target}
use k8s_ops_platform.Manager.Startup as ControllerStart
use k8s_ops_platform.Agent.Startup as AgentStart
use k8s_ops_platform.Agent.StatePage.{Informer, cache_sources, ticked, done, refresh}
use k8s_ops_platform.Agent.StatePage.Page.{DescribesAll, state_page-Describes}
use k8s_ops_platform.Samples.Agents.{sha256, crash, config}

-- A machine with a home directory and no cluster around it. Its world counts the calls.
abbrev laptop : ConfigSource
laptop = record {
  World = ℕ;
  RestConfig = String;
  Failure = String;
  in_cluster_config = λ n. (err "not in a cluster", n + 1);
  user_home_dir = λ n. (ok "/root", n + 1);
  join = λ parts. "/root/.kube/config";
  build_config_from_flags = λ master path n. (ok path, n + 1);
}

-- Schemes and builders as the lists of the types that they have.
abbrev listing : SchemeLibrary
listing = record {
  Scheme = List String;
  Builder = List String;
  Failure = String;
  new_scheme = [];
  new_builder = λ v. [];
  register = λ types b. types ++ b;
  add_to_scheme = λ b s. (none, b ++ s);
}

-- A controller whose readiness check is refused.
abbrev controller : ControllerStart.Host
controller = record {
  source = laptop;
  Manager = Unit;
  TypedClient = Unit;
  already_registered = λ e. false;
  schemes = listing;
  add_client_go = λ s. (none, "Pod" ∷ s);
  new_manager = λ rest s metrics probes n. (ok tt, n + 1);
  add_healthz_check = λ manager name n. (none, n + 1);
  add_readyz_check = λ manager name n. (some "no", n + 1);
  register_collector = λ name n. (none, n + 1);
  index_field = λ manager field n. (none, n + 1);
  new_typed_client = λ rest n. (ok tt, n + 1);
  new_controller = λ manager kind client n. (none, n + 1);
  start = λ manager n. (none, n + 1);
}

scheme_test : ControllerStart.scheme controller ≡ "Action" ∷ "ActionList" ∷ "Pod" ∷ []
unfolding add_to_scheme scheme_builder
scheme_test = refl

abbrev store_with : List String → Informer String
store_with names = record { store = names; has_synced = true }

abbrev agent : AgentStart.Host
agent = record {
  source = laptop;
  Object = String;
  new_kube_client = λ rest n. (none, n + 1);
  schemes = listing;
  new_action_client = λ rest s n. (none, n + 1);
  start_informers = λ n. (tt, n + 1);
  wait_for_cache_sync = λ n. (true, n + 1);
  nodes = λ n. store_with ("n1" ∷ []);
  pods = λ n. store_with ("shop/web-2" ∷ "shop/web-1" ∷ []);
  deployments = λ n. store_with [];
  events = λ n. store_with [];
}

abbrev idle_agent : Process (AgentStart.State agent) AgentStart.Step
idle_agent = record { world = record { world = 0; calls = [] }; steps = [] }

state_page-Describes_example :
    let last =
      cache_sources (agent.nodes 0) (agent.pods 0) (agent.deployments 0) (agent.events 0) in
    DescribesAll
      (λ name. some name)
      (agent.nodes 0)
      (agent.pods 0)
      (agent.deployments 0)
      (agent.events 0)
      (refresh (ticked [] ∷ ticked last ∷ done ∷ ticked [] ∷ []) [])
state_page-Describes_example =
    state_page-Describes (λ name. some name) (agent.nodes 0) (agent.pods 0) (agent.deployments 0)
      (agent.events 0) ([] ∷ []) (ticked [] ∷ []) []

-- A registry as the list of the names that it has.
abbrev has_name : String → List String → Bool
has_name c [] = false
has_name c (d ∷ ds) = d == c || has_name c ds

abbrev add_name : String → List String → Option String × List String
add_name c ds = if has_name c ds then (some "duplicate", ds) else (none, c ∷ ds)

add_name-has : (c : String) (ds : List String) → has_name c (add_name c ds).1 ≡ true
add_name-has c ds = ground (arith, eq_iff c c)

add_name-keeps :
    (c d : String) (ds : List String) → has_name c ds ≡ true → has_name c (add_name d ds).1 ≡ true
add_name-keeps c d ds h = ground (arith, eq_iff d c)

abbrev name_registry : Registerer
name_registry = record {
  World = List String;
  Failure = String;
  already_registered = λ e. true;
  register = add_name;
}

abbrev name_registry-KeepsCollectors : KeepsCollectors name_registry
name_registry-KeepsCollectors = record {
  IsIn = λ c ds. has_name c ds ≡ true;
  taken = λ c ds e. add_name-has c ds;
  found = λ c ds f e h. add_name-has c ds;
  kept = add_name-keeps;
  again = λ c ds h. ("duplicate", refl, rw h refl);
}

register-again_example :
    let (e, ds) = register name_registry [] in
    ((e ≡ none)
      × All (λ c. has_name c ds ≡ true) collectors
      × (register name_registry ds ≡ (none, ds)))
    ⊎ ((f : String) × (e ≡ some f) × (true ≡ false))
register-again_example = register-again name_registry name_registry-KeepsCollectors []

sha256-bytes : (s : String) → All (λ b. b < 256) (sha256 s)
sha256-bytes s = ground arith

abbrev other_crash : DiagnosisResult
other_crash = record crash { summary = "again"; timestamp = 3 }

crash-HasPlainParts : HasPlainParts crash
crash-HasPlainParts = record { kind = refl; namespace = refl; name = refl; reason = refl }

other_crash-HasPlainParts : HasPlainParts other_crash
other_crash-HasPlainParts = record { kind = refl; namespace = refl; name = refl; reason = refl }

new_action-target_example :
    ("Pod" ≡ other_crash.resource_kind)
    × ("shop" ≡ other_crash.namespace)
    × ("web-1" ≡ other_crash.name)
    × ("CrashLoopBackOff" ≡ other_crash.reason)
unfolding new_action target_hash
new_action-target_example =
    new_action-target sha256 sha256-bytes config config crash other_crash pod_restart (λ e. refl)
      crash-HasPlainParts other_crash-HasPlainParts refl
