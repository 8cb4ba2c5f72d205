-- ===== src/Samples/Agents.antt =====
-- The theorems about the policy, the tracker and the agent, at the sample cluster.
use k8s_ops_platform.Prelude.{String, some, ℕ, none, List, [], ◌∷◌, true, ◌≡◌, ◌⊎◌, ◌%◌, refl}
use k8s_ops_platform.Api.{pod_restart, succeeded, Action}
use k8s_ops_platform.Diagnosis.{DiagnosisResult}
use k8s_ops_platform.Metrics.{Label, int_mod, new_diagnosis_tracker}
use k8s_ops_platform.Metrics.Gauge.{Observation, gauge, after_history}
use k8s_ops_platform.Metrics.History.{current, gauge-eq-current}
use k8s_ops_platform.Policy.{Config, new_action, should_auto_create}
use k8s_ops_platform.Policy.Sink.{handle}
use k8s_ops_platform.Policy.Laws.{handle-once}
use k8s_ops_platform.Agent.{Notified, Env, AgentState, default_flags, main_config}
use k8s_ops_platform.Agent.Handlers.{Notification, pod_changed, node_changed, pod_deleted, serve}
use k8s_ops_platform.Agent.Laws.{Creates, IsAllowed}
use k8s_ops_platform.Agent.StatePage.{
  CacheSource, insert_sorted, sort_strings, collect_names, resource_state,
}
use k8s_ops_platform.Agent.Gauge.{seen_all, serve-gauge}
use k8s_ops_platform.Agent.History.{serve-Creates}
use k8s_ops_platform.Samples.{sample, IsTaken, sample-KeepsNames, sample-takes, Cluster, cluster}
use k8s_ops_platform.Samples.Diagnoses.{crashing_pod, sick_node}

abbrev pub config : Config
config = main_config (record default_flags { auto_pod_restart = true })

-- A stand-in for SHA-256.
abbrev pub sha256 : String → List ℕ
sha256 s = 171 ∷ 205 ∷ 1 ∷ 2 ∷ 3 ∷ 4 ∷ 5 ∷ 6 ∷ 7 ∷ []

abbrev pub crash : DiagnosisResult
crash = record {
  resource_kind = "Pod";
  namespace = "shop";
  name = "web-1";
  reason = "CrashLoopBackOff";
  severity = "critical";
  summary = "Container repeatedly crashes";
  evidence = [];
  suggested_action = pod_restart;
  timestamp = 1;
}

-- The same crash, told again later.
abbrev later_crash : DiagnosisResult
later_crash = record crash { timestamp = 2 }

abbrev created : Action
created = new_action sha256 config crash pod_restart

-- The cluster some time after the first report, when the Action has succeeded.
abbrev busier : Cluster
busier = record cluster {
  actions = record created { status = record created.status { phase = succeeded } } ∷ [];
  now = 90000000000;
}

handle-once_example :
    IsTaken created.metadata.namespace created.metadata.name
      (handle sample sha256 config crash cluster).1
    × (handle sample sha256 config later_crash busier ≡ (none, busier))
unfolding should_auto_create
handle-once_example =
    handle-once sample IsTaken sample-KeepsNames sha256 config crash later_crash
      (record { kind = refl; namespace = refl; name = refl; reason = refl; action = refl }) cluster
      busier refl refl (sample-takes created cluster refl)

abbrev observed_crash : Observation
observed_crash = record { kind = "Pod"; namespace = "shop"; name = "web-1"; results = crash ∷ [] }

abbrev observed_nothing : Observation
observed_nothing = record observed_crash { results = [] }

abbrev crash_label : Label
crash_label = record { kind = "Pod"; reason = "CrashLoopBackOff"; severity = "critical" }

gauge-eq-current_example :
    let os = observed_crash ∷ observed_nothing ∷ [] in
    let calls = (after_history os).calls in
    (gauge crash_label calls ≡ some (current crash_label os % int_mod))
    ⊎ ((gauge crash_label calls ≡ none) × (current crash_label os % int_mod ≡ 0))
gauge-eq-current_example = gauge-eq-current (observed_crash ∷ observed_nothing ∷ []) crash_label

abbrev pub env : Env
env = record {
  list_events = λ namespace. some [];
  get_pod = λ namespace name. none;
  now = λ i. i;
  sha256 = sha256;
}

-- The caches change in the meantime.
abbrev emptied : Env
emptied = record env { list_events = λ namespace. none }

abbrev history : List (Env × Notification)
history =
    (env, pod_changed (Notified.pod crashing_pod))
    ∷ (emptied, node_changed (Notified.node sick_node))
    ∷ (emptied, pod_deleted (Notified.tombstone (Notified.pod crashing_pod)))
    ∷ []

abbrev first_state : AgentState sample
first_state = record { world = cluster; tracker = new_diagnosis_tracker }

serve-Creates_example :
    Creates sample (IsAllowed sample config) cluster (serve sample config history first_state).world
serve-Creates_example = serve-Creates sample config history first_state

serve-gauge_example :
    let calls = (serve sample config history first_state).tracker.calls in
    let expected = current crash_label (seen_all history) % int_mod in
    (gauge crash_label calls ≡ some expected) ⊎ ((gauge crash_label calls ≡ none) × (expected ≡ 0))
serve-gauge_example = serve-gauge sample config history first_state refl crash_label

-- A cache of two objects, which are known by their keys.
abbrev cache : CacheSource String
cache = record { kind = "Pod"; store = "shop/web-2" ∷ "shop/web-1" ∷ []; has_synced = true }

resource_state_test : (resource_state some cache).names ≡ "shop/web-1" ∷ "shop/web-2" ∷ []
unfolding resource_state sort_strings insert_sorted collect_names
resource_state_test = refl
