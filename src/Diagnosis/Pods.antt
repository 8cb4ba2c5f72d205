-- ===== src/Diagnosis/Pods.antt =====
-- internal/diagnosis/pod/detector.go. `now i` is the i-th reading of the clock, one for each result.
pub mod Laws
pub mod Report
pub mod Suggestions
use Prim.Native.String.{◌++◌}
use mathlib.Core.List as Lists
use k8s_ops_platform.Prelude.{
  ℕ, String, Option, none, some, List, [], ◌∷◌, Bool, not, ◌&&◌, ◌||◌, ◌==◌, if◌then◌else◌, eqb,
  any, length,
}
use k8s_ops_platform.Prelude.Int.{ℤ, ltb_ℤ, itoa}
use k8s_ops_platform.Api.{pod_restart}
use k8s_ops_platform.Kube.Objects.{Waiting, Terminated, ContainerStatus, Pod, Event}
use k8s_ops_platform.Diagnosis.{
  Evidence, DiagnosisResult, severity_warning, severity_critical, plain,
}

unfoldable pub result :
    Pod → String → String → String → String → List Evidence → ℕ → DiagnosisResult
result pod reason severity summary action evidence time = record {
  resource_kind = "Pod";
  namespace = pod.namespace;
  name = pod.name;
  reason = reason;
  severity = severity;
  summary = summary;
  evidence = evidence;
  suggested_action = action;
  timestamp = time;
}

unfoldable pub termination_evidence : Terminated → List Evidence
termination_evidence t =
    record {
      source = "LastTerminationState";
      field = "reason";
      value = t.reason;
      message = t.message;
      timestamp = t.finished_at;
    }
    ∷ plain "LastTerminationState" "exitCode" (itoa t.exit_code)
    ∷ []

-- IsZero is the test for the zero time.
unfoldable pub event_time : Event → ℕ
event_time e =
    if not (eqb e.event_time 0)
    then e.event_time
    else if not (eqb e.last_timestamp 0)
    then e.last_timestamp
    else e.creation_timestamp

abbrev pub is_scheduling_failure : Pod → Event → Bool
is_scheduling_failure pod event =
    event.involved_uid == pod.uid && event.reason == "FailedScheduling" && event.type == "Warning"

-- The loop over the events, which breaks at the first failure.
unfoldable pub scheduling_results : (ℕ → ℕ) → Pod → List Event → List DiagnosisResult
scheduling_results now pod [] = []
scheduling_results now pod (event ∷ events) =
    if is_scheduling_failure pod event
    then result pod "FailedScheduling" severity_warning "Pod cannot be scheduled" ""
        (plain "PodStatus" "status.phase" pod.phase
          ∷ record {
            source = "Event";
            field = "reason";
            value = event.reason;
            message = event.message;
            timestamp = event_time event;
          }
          ∷ [])
        (now 0)
      ∷ []
    else scheduling_results now pod events

-- The variables of the second loop: the results, and the keys of `seen`, both oldest first.
pub record Scan : Type 0 where
  pub results : List DiagnosisResult
  pub seen : List String

abbrev pub has : String → List String → Bool
has x = any (λ y. y == x)

abbrev pub base_evidence : Pod → ContainerStatus → List Evidence
base_evidence pod c =
    plain "PodStatus" "status.phase" pod.phase
    ∷ plain "ContainerStatus" "name" c.name
    ∷ plain "ContainerStatus" "restartCount" (itoa c.restart_count)
    ∷ []

abbrev pub waiting_evidence : Waiting → Evidence
waiting_evidence w = record {
  source = "ContainerState";
  field = "waiting.reason";
  value = w.reason;
  message = w.message;
  timestamp = 0;
}

abbrev pub last_termination : Option Terminated → List Evidence
last_termination none = []
last_termination (some t) = termination_evidence t

module _ (now : ℕ → ℕ) (pod : Pod) where
  -- A result is appended, and its reason marked as seen.
  unfoldable pub add : String → String → String → String → List Evidence → Scan → Scan
  add reason severity summary action evidence s = record {
    results =
        Lists.◌++◌ s.results
          (result pod reason severity summary action evidence (now (length s.results)) ∷ []);
    seen = Lists.◌++◌ s.seen (reason ∷ []);
  }

  -- The switch over the waiting reason. The base has no spare capacity, so that each append copies it.
  unfoldable pub scan_waiting : ContainerStatus → Option Waiting → Scan → Scan
  scan_waiting c none s = s
  scan_waiting c (some w) s =
      if w.reason == "CrashLoopBackOff"
      then (if not (has "CrashLoopBackOff" s.seen) && ltb_ℤ (ℤ.pos 0) c.restart_count
          then add "CrashLoopBackOff" severity_critical "Container repeatedly crashes" pod_restart
              (Lists.◌++◌ (base_evidence pod c)
                (waiting_evidence w ∷ last_termination c.last_terminated))
              s
          else s)
      else if w.reason == "ImagePullBackOff" || w.reason == "ErrImagePull"
      then (if not (has "ImagePullBackOff" s.seen)
          then add "ImagePullBackOff" severity_warning "Container image cannot be pulled" ""
              (Lists.◌++◌ (base_evidence pod c) (waiting_evidence w ∷ [])) s
          else s)
      else s

  -- The test of the last termination.
  unfoldable pub scan_terminated : ContainerStatus → Option Terminated → Scan → Scan
  scan_terminated c none s = s
  scan_terminated c (some t) s =
      if t.reason == "OOMKilled" && not (has "OOMKilled" s.seen)
      then add "OOMKilled" severity_critical "Container was terminated by the OOM killer"
          pod_restart (Lists.◌++◌ (base_evidence pod c) (termination_evidence t)) s
      else s

  unfoldable pub scan_all : List ContainerStatus → Scan → Scan
  scan_all [] s = s
  scan_all (c ∷ cs) s =
      scan_all cs (scan_terminated c c.last_terminated (scan_waiting c c.waiting s))

  unfoldable pub diagnose : List Event → List DiagnosisResult
  diagnose events =
      let pending = if pod.phase == "Pending" then scheduling_results now pod events else [] in
      let statuses = Lists.◌++◌ pod.init_container_statuses pod.container_statuses in
      (scan_all statuses (record { results = pending; seen = [] })).results

-- "ns/name"
unfoldable pub resource_key : Pod → String
resource_key pod = pod.namespace ++ ("/" ++ pod.name)
