-- ===== src/Samples/Diagnoses.antt =====
-- The theorems about the detectors, at small objects.
use k8s_ops_platform.Prelude.{ℕ, String, some, [], ◌∷◌, false, ◌≡◌, ◌≤◌, ◌&&◌, ◌==◌, refl, any, All}
use k8s_ops_platform.Prelude.Int.{ℤ}
use k8s_ops_platform.Kube.Objects.{ContainerStatus, Pod, Node, Deployment, Event}
use k8s_ops_platform.Diagnosis.Pods as PodDetector
use k8s_ops_platform.Diagnosis.Pods.{has, is_scheduling_failure}
use k8s_ops_platform.Diagnosis.Pods.Laws.{times, reasons}
use k8s_ops_platform.Diagnosis.Pods.Laws.Causes.{is_crash_looping, cannot_pull, was_oom_killed}
use k8s_ops_platform.Diagnosis.Pods.Report.{diagnose_once, diagnose-has}
use k8s_ops_platform.Diagnosis.Pods.Suggestions.{IsOnPod, diagnose-All}
use k8s_ops_platform.Diagnosis.Nodes as NodeDetector
use k8s_ops_platform.Diagnosis.Nodes.Laws.{Reports, diagnose-Reports}
use k8s_ops_platform.Diagnosis.Deployments as DeploymentDetector
use k8s_ops_platform.Diagnosis.Deployments.Laws.{Verdict, diagnose-Verdict}
use k8s_ops_platform.Samples.{owner, pod_with}

abbrev clock : ℕ → ℕ
clock i = i

abbrev crashing : String → ContainerStatus
crashing name = record {
  name = name;
  restart_count = ℤ.pos 4;
  waiting = some (record { reason = "CrashLoopBackOff"; message = "back-off" });
  last_terminated =
      some (record { exit_code = ℤ.pos 137; reason = "OOMKilled"; message = ""; finished_at = 7 });
}

-- Two containers that crash, and were killed for their memory.
abbrev pub crashing_pod : Pod
crashing_pod = record (pod_with "web-1" "u1" (owner ∷ [])) {
  container_statuses = crashing "app" ∷ crashing "proxy" ∷ [];
}

abbrev waiting_pod : Pod
waiting_pod = record (pod_with "web-2" "u2" (owner ∷ [])) { phase = "Pending" }

abbrev failed_scheduling : Event
failed_scheduling = record {
  namespace = "shop";
  type = "Warning";
  reason = "FailedScheduling";
  message = "no node";
  involved_kind = "Pod";
  involved_name = "web-2";
  involved_uid = "u2";
  event_time = 0;
  last_timestamp = 3;
  creation_timestamp = 1;
}

diagnose_once_example :
    times "CrashLoopBackOff" (reasons (PodDetector.diagnose clock crashing_pod [])) ≤ 1
diagnose_once_example = diagnose_once clock crashing_pod [] "CrashLoopBackOff"

diagnose-has_example :
    let found = reasons (PodDetector.diagnose clock crashing_pod []) in
    let statuses = crashing_pod.container_statuses in
    (has "CrashLoopBackOff" found ≡ any (λ c. is_crash_looping c c.waiting) statuses)
    × (has "ImagePullBackOff" found ≡ any (λ c. cannot_pull c.waiting) statuses)
    × (has "OOMKilled" found ≡ any (λ c. was_oom_killed c.last_terminated) statuses)
    × (has "FailedScheduling" found
        ≡ (crashing_pod.phase == "Pending" && any (is_scheduling_failure crashing_pod) []))
diagnose-has_example = diagnose-has clock crashing_pod []

diagnose-All_example :
    All (IsOnPod waiting_pod) (PodDetector.diagnose clock waiting_pod (failed_scheduling ∷ []))
diagnose-All_example = diagnose-All clock waiting_pod (failed_scheduling ∷ [])

abbrev pub sick_node : Node
sick_node = record {
  name = "n1";
  unschedulable = false;
  conditions =
      record {
        type = "DiskPressure";
        status = "True";
        last_heartbeat_time = 1;
        last_transition_time = 1;
        reason = "";
        message = "";
      }
      ∷ [];
}

diagnose-Reports_example :
    Reports sick_node sick_node.conditions (NodeDetector.diagnose clock sick_node)
diagnose-Reports_example = diagnose-Reports clock sick_node

abbrev short_deployment : Deployment
short_deployment = record {
  namespace = "shop";
  name = "web";
  generation = ℤ.pos 2;
  replicas = some (ℤ.pos 2);
  template_annotations = [];
  observed_generation = ℤ.pos 2;
  updated_replicas = ℤ.pos 2;
  ready_replicas = ℤ.pos 0;
  available_replicas = ℤ.pos 0;
  unavailable_replicas = ℤ.pos 2;
  conditions = [];
}

diagnose-Verdict_example : Verdict short_deployment (DeploymentDetector.diagnose 3 short_deployment)
diagnose-Verdict_example = diagnose-Verdict 3 short_deployment

-- A run of the pod detector: each reason once, in the order in which they are found.
diagnose_test :
    reasons (PodDetector.diagnose clock crashing_pod []) ≡ "CrashLoopBackOff" ∷ "OOMKilled" ∷ []
unfolding PodDetector.diagnose PodDetector.scan_all PodDetector.scan_waiting
    PodDetector.scan_terminated PodDetector.add PodDetector.result PodDetector.termination_evidence
diagnose_test = refl
