-- ===== src/Diagnosis/Pods/Suggestions.antt =====
-- What the pod detector suggests.
use k8s_ops_platform.Prelude.{
  ℕ, String, Option, none, some, List, [], ◌∷◌, ◌++◌, not, ◌≡◌, ◌⊎◌, inl, inr, refl, ◌==◌, ◌&&◌,
  ◌||◌, All, All-append, if-cases,
}
use k8s_ops_platform.Prelude.Int.{ℤ, ltb_ℤ}
use k8s_ops_platform.Api.{pod_restart}
use k8s_ops_platform.Kube.Objects.{Waiting, Terminated, ContainerStatus, Pod, Event}
use k8s_ops_platform.Diagnosis.{Evidence, DiagnosisResult}
use k8s_ops_platform.Diagnosis.Pods.{
  Scan, has, add, scan_waiting, scan_terminated, scan_all, scheduling_results,
  is_scheduling_failure, result, diagnose,
}

-- A crash loop or a kill by the OOM killer suggests a restart; an image that cannot be pulled or a
-- scheduling failure suggests nothing.
abbrev pub Advises : String → String → Type 0
Advises reason action =
    (((reason ≡ "CrashLoopBackOff") ⊎ (reason ≡ "OOMKilled")) × (action ≡ pod_restart))
    ⊎ (((reason ≡ "ImagePullBackOff") ⊎ (reason ≡ "FailedScheduling")) × (action ≡ ""))

-- A report on a pod, with the suggestion for its reason.
abbrev pub IsOnPod : Pod → DiagnosisResult → Type 0
IsOnPod pod r =
    (r.resource_kind ≡ "Pod")
    × (r.namespace ≡ pod.namespace)
    × (r.name ≡ pod.name)
    × Advises r.reason r.suggested_action

record AreOnPod (pod : Pod) (s : Scan) : Type 0 where
  all : All (IsOnPod pod) s.results

module _ (now : ℕ → ℕ) (pod : Pod) where
  add-AreOnPod :
      (reason severity summary action : String) (evidence : List Evidence) (s : Scan)
      → Advises reason action
      → AreOnPod pod s
      → AreOnPod pod (add now pod reason severity summary action evidence s)
  unfolding add result
  add-AreOnPod reason severity summary action evidence s a h = record {
    all = All-append (IsOnPod pod) s.results _ h.all ((refl, refl, refl, a), tt);
  }

  scan_waiting-AreOnPod :
      (c : ContainerStatus) (w : Option Waiting) (s : Scan)
      → AreOnPod pod s
      → AreOnPod pod (scan_waiting now pod c w s)
  unfolding scan_waiting
  scan_waiting-AreOnPod c none s h = h
  scan_waiting-AreOnPod c (some w) s h =
      if-cases (AreOnPod pod) (w.reason == "CrashLoopBackOff")
        (λ _.
          if-cases (AreOnPod pod)
            (not (has "CrashLoopBackOff" s.seen) && ltb_ℤ (ℤ.pos 0) c.restart_count)
            (λ _. add-AreOnPod _ _ _ _ _ s (inl (inl refl, refl)) h) (λ _. h))
        (λ _.
          if-cases (AreOnPod pod) (w.reason == "ImagePullBackOff" || w.reason == "ErrImagePull")
            (λ _.
              if-cases (AreOnPod pod) (not (has "ImagePullBackOff" s.seen))
                (λ _. add-AreOnPod _ _ _ _ _ s (inr (inl refl, refl)) h) (λ _. h))
            (λ _. h))

  scan_terminated-AreOnPod :
      (c : ContainerStatus) (t : Option Terminated) (s : Scan)
      → AreOnPod pod s
      → AreOnPod pod (scan_terminated now pod c t s)
  unfolding scan_terminated
  scan_terminated-AreOnPod c none s h = h
  scan_terminated-AreOnPod c (some t) s h =
      if-cases (AreOnPod pod) (t.reason == "OOMKilled" && not (has "OOMKilled" s.seen))
        (λ _. add-AreOnPod _ _ _ _ _ s (inl (inr refl, refl)) h) (λ _. h)

  scan_all-AreOnPod :
      (cs : List ContainerStatus) (s : Scan) → AreOnPod pod s → AreOnPod pod (scan_all now pod cs s)
  unfolding scan_all
  scan_all-AreOnPod [] s h = h
  scan_all-AreOnPod (c ∷ cs) s h =
      scan_all-AreOnPod cs _
        (scan_terminated-AreOnPod c c.last_terminated _ (scan_waiting-AreOnPod c c.waiting s h))

  scheduling_results-All :
      (events : List Event) → All (IsOnPod pod) (scheduling_results now pod events)
  unfolding scheduling_results result
  scheduling_results-All [] = tt
  scheduling_results-All (e ∷ es) =
      if-cases (All (IsOnPod pod)) (is_scheduling_failure pod e)
        (λ _. ((refl, refl, refl, inr (inr refl, refl)), tt)) (λ _. scheduling_results-All es)

  -- Every report of the pod detector names its pod, and suggests PodRestart when the reason is a crash
  -- loop or a kill by the OOM killer, and nothing when it is an image that cannot be pulled or a
  -- scheduling failure; no report has another reason.
  pub diagnose-All : (events : List Event) → All (IsOnPod pod) (diagnose now pod events)
  unfolding diagnose
  diagnose-All events =
      (scan_all-AreOnPod (pod.init_container_statuses ++ pod.container_statuses) _ (record {
        all =
            if-cases (All (IsOnPod pod)) (pod.phase == "Pending")
              (λ _. scheduling_results-All events) (λ _. tt);
      })).all
