-- ===== src/Diagnosis/Pods/Report.antt =====
-- What the pod detector reports, as a whole.
use k8s_ops_platform.Prelude.{
  ℕ, String, List, [], ◌∷◌, ◌++◌, false, ◌≤◌, ◌≡◌, inl, inr, refl, arith, ◌==◌, ◌&&◌, eq_iff, any,
  if◌then◌else◌, Bool-cases, sym, ◌∙◌,
}
use mathlib.Core.List.{append-nil}
use k8s_ops_platform.Kube.Objects.{ContainerStatus, Pod, Event}
use k8s_ops_platform.Diagnosis.{DiagnosisResult}
use k8s_ops_platform.Diagnosis.Pods.{
  Scan, has, scan_all, scheduling_results, is_scheduling_failure, result, diagnose,
}
use k8s_ops_platform.Diagnosis.Pods.Laws.{
  times, reasons, times-append, has-append_all, times_of_absent,
}
use k8s_ops_platform.Diagnosis.Pods.Laws.Once.{IsScan, scan_all-IsScan}
use k8s_ops_platform.Diagnosis.Pods.Laws.Causes.{
  is_crash_looping, cannot_pull, was_oom_killed, scan_all-crash, scan_all-pull, scan_all-oom,
  scan_all-sched,
}

-- The reports of scheduling failures: at most one.
abbrev scheduled : Pod → List Event → List String
scheduled pod events =
    if pod.phase == "Pending" && any (is_scheduling_failure pod) events
    then "FailedScheduling" ∷ []
    else []

abbrev pending_results : (ℕ → ℕ) → Pod → List Event → List DiagnosisResult
pending_results now pod events =
    if pod.phase == "Pending" then scheduling_results now pod events else []

reasons-scheduling_results :
    (now : ℕ → ℕ) (pod : Pod) (events : List Event)
    → reasons (scheduling_results now pod events)
      ≡ (if any (is_scheduling_failure pod) events then "FailedScheduling" ∷ [] else [])
unfolding scheduling_results result
reasons-scheduling_results now pod [] = refl
reasons-scheduling_results now pod (e ∷ es) = elim (Bool-cases (is_scheduling_failure pod e)) [
  | inl h ↦ rw h refl
  | inr n ↦ rw n (reasons-scheduling_results now pod es)
]

reasons-pending_results :
    (now : ℕ → ℕ) (pod : Pod) (events : List Event)
    → reasons (pending_results now pod events) ≡ scheduled pod events
reasons-pending_results now pod events = elim (Bool-cases (pod.phase == "Pending")) [
  | inl h ↦ rw h (reasons-scheduling_results now pod events)
  | inr n ↦ rw n refl
]

abbrev pub statuses : Pod → List ContainerStatus
statuses pod = pod.init_container_statuses ++ pod.container_statuses

module _ (now : ℕ → ℕ) (pod : Pod) (events : List Event) where
  final : Scan
  final =
      scan_all now pod (statuses pod)
        (record { results = pending_results now pod events; seen = [] })

  final-IsScan : IsScan (scheduled pod events) final
  unfolding final
  final-IsScan = scan_all-IsScan now pod (scheduled pod events) (statuses pod) _ (record {
    told = reasons-pending_results now pod events ∙ sym (append-nil (scheduled pod events));
    once = λ x. omega arith;
  })

  reasons-diagnose : reasons (diagnose now pod events) ≡ scheduled pod events ++ final.seen
  unfolding diagnose final
  reasons-diagnose = final-IsScan.told

  unscheduled : has "FailedScheduling" final.seen ≡ false
  unfolding final
  unscheduled = scan_all-sched now pod (statuses pod) _

  times-scheduled : (x : String) → times x (scheduled pod events) ≤ 1
  times-scheduled x = ground arith

  -- A reason of a container is none of scheduling.
  has-container :
      (x : String)
      → ("FailedScheduling" == x) ≡ false
      → has x (reasons (diagnose now pod events)) ≡ has x final.seen
  has-container x n =
      rw (reasons-diagnose, has-append_all x (scheduled pod events) final.seen) (ground arith)

  -- The pod detector gives a reason at most once for a pod, however many containers have it.
  pub diagnose_once : (x : String) → times x (reasons (diagnose now pod events)) ≤ 1
  diagnose_once x =
      rw (reasons-diagnose, times-append x (scheduled pod events) final.seen)
        (ground (
          arith,
          times_of_absent "FailedScheduling" final.seen unscheduled,
          final-IsScan.once x,
          eq_iff "FailedScheduling" x,
        ))

  -- The pod detector gives exactly these reasons: a crash loop with a restart, an image that cannot be
  -- pulled, or a last termination by the OOM killer, in some init or other container, and a scheduling
  -- failure of this pod in a warning event, while the pod is pending.
  pub diagnose-has :
      (has "CrashLoopBackOff" (reasons (diagnose now pod events))
        ≡ any (λ c. is_crash_looping c c.waiting) (statuses pod))
      × (has "ImagePullBackOff" (reasons (diagnose now pod events))
          ≡ any (λ c. cannot_pull c.waiting) (statuses pod))
      × (has "OOMKilled" (reasons (diagnose now pod events))
          ≡ any (λ c. was_oom_killed c.last_terminated) (statuses pod))
      × (has "FailedScheduling" (reasons (diagnose now pod events))
          ≡ (pod.phase == "Pending" && any (is_scheduling_failure pod) events))
  unfolding final
  diagnose-has = (
    has-container "CrashLoopBackOff" refl ∙ scan_all-crash now pod (statuses pod) _,
    has-container "ImagePullBackOff" refl ∙ scan_all-pull now pod (statuses pod) _,
    has-container "OOMKilled" refl ∙ scan_all-oom now pod (statuses pod) _,
    rw (reasons-diagnose, has-append_all "FailedScheduling" (scheduled pod events) final.seen)
        (ground (arith, unscheduled)),
  )
