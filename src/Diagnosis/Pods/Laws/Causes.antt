-- ===== src/Diagnosis/Pods/Laws/Causes.antt =====
-- Which container statuses lead to which reports.
use k8s_ops_platform.Prelude.{
  ℕ, String, Option, none, some, List, [], ◌∷◌, Bool, false, ◌≡◌, refl, arith, ◌==◌, ◌&&◌, ◌||◌,
  eq_iff, any,
}
use k8s_ops_platform.Prelude.Int.{ℤ, ltb_ℤ}
use k8s_ops_platform.Kube.Objects.{Waiting, Terminated, ContainerStatus, Pod}
use k8s_ops_platform.Diagnosis.Pods.{Scan, has, add, scan_waiting, scan_terminated, scan_all}
use k8s_ops_platform.Diagnosis.Pods.Laws.{has-append}

-- What the detector looks for in one container.
abbrev pub is_crash_looping : ContainerStatus → Option Waiting → Bool
is_crash_looping c none = false
is_crash_looping c (some w) = w.reason == "CrashLoopBackOff" && ltb_ℤ (ℤ.pos 0) c.restart_count

abbrev pub cannot_pull : Option Waiting → Bool
cannot_pull none = false
cannot_pull (some w) = w.reason == "ImagePullBackOff" || w.reason == "ErrImagePull"

abbrev pub was_oom_killed : Option Terminated → Bool
was_oom_killed none = false
was_oom_killed (some t) = t.reason == "OOMKilled"

module _ (now : ℕ → ℕ) (pod : Pod) where
  scan_waiting-crash :
      (c : ContainerStatus) (w : Option Waiting) (s : Scan)
      → has "CrashLoopBackOff" (scan_waiting now pod c w s).seen
        ≡ (has "CrashLoopBackOff" s.seen || is_crash_looping c w)
  unfolding scan_waiting add
  scan_waiting-crash c none s = ground arith
  scan_waiting-crash c (some w) s = ground (
    arith,
    has-append "CrashLoopBackOff" s.seen "CrashLoopBackOff",
    has-append "CrashLoopBackOff" s.seen "ImagePullBackOff",
  )

  scan_waiting-pull :
      (c : ContainerStatus) (w : Option Waiting) (s : Scan)
      → has "ImagePullBackOff" (scan_waiting now pod c w s).seen
        ≡ (has "ImagePullBackOff" s.seen || cannot_pull w)
  unfolding scan_waiting add
  scan_waiting-pull c none s = ground arith
  scan_waiting-pull c (some w) s = ground (
    arith,
    has-append "ImagePullBackOff" s.seen "CrashLoopBackOff",
    has-append "ImagePullBackOff" s.seen "ImagePullBackOff",
    eq_iff w.reason "CrashLoopBackOff",
    eq_iff w.reason "ImagePullBackOff",
    eq_iff w.reason "ErrImagePull",
    eq_iff "CrashLoopBackOff" "ImagePullBackOff",
    eq_iff "CrashLoopBackOff" "ErrImagePull",
  )

  scan_waiting-oom :
      (c : ContainerStatus) (w : Option Waiting) (s : Scan)
      → has "OOMKilled" (scan_waiting now pod c w s).seen ≡ has "OOMKilled" s.seen
  unfolding scan_waiting add
  scan_waiting-oom c none s = ground arith
  scan_waiting-oom c (some w) s = ground (
    arith,
    has-append "OOMKilled" s.seen "CrashLoopBackOff",
    has-append "OOMKilled" s.seen "ImagePullBackOff",
  )

  scan_waiting-sched :
      (c : ContainerStatus) (w : Option Waiting) (s : Scan)
      → has "FailedScheduling" (scan_waiting now pod c w s).seen ≡ has "FailedScheduling" s.seen
  unfolding scan_waiting add
  scan_waiting-sched c none s = ground arith
  scan_waiting-sched c (some w) s = ground (
    arith,
    has-append "FailedScheduling" s.seen "CrashLoopBackOff",
    has-append "FailedScheduling" s.seen "ImagePullBackOff",
  )

  scan_terminated-oom :
      (c : ContainerStatus) (t : Option Terminated) (s : Scan)
      → has "OOMKilled" (scan_terminated now pod c t s).seen
        ≡ (has "OOMKilled" s.seen || was_oom_killed t)
  unfolding scan_terminated add
  scan_terminated-oom c none s = ground arith
  scan_terminated-oom c (some t) s = ground (arith, has-append "OOMKilled" s.seen "OOMKilled")

  scan_terminated-other :
      (x : String) (c : ContainerStatus) (t : Option Terminated) (s : Scan)
      → ("OOMKilled" == x) ≡ false
      → has x (scan_terminated now pod c t s).seen ≡ has x s.seen
  unfolding scan_terminated add
  scan_terminated-other x c none s n = refl
  scan_terminated-other x c (some t) s n = ground (arith, has-append x s.seen "OOMKilled")

  pub scan_all-crash :
      (cs : List ContainerStatus) (s : Scan)
      → has "CrashLoopBackOff" (scan_all now pod cs s).seen
        ≡ (has "CrashLoopBackOff" s.seen || any (λ c. is_crash_looping c c.waiting) cs)
  unfolding scan_all
  scan_all-crash [] s = ground arith
  scan_all-crash (c ∷ cs) s =
      let s' = scan_waiting now pod c c.waiting s in
      ground (
        arith,
        scan_all-crash cs (scan_terminated now pod c c.last_terminated s'),
        scan_terminated-other "CrashLoopBackOff" c c.last_terminated s' refl,
        scan_waiting-crash c c.waiting s,
      )

  pub scan_all-pull :
      (cs : List ContainerStatus) (s : Scan)
      → has "ImagePullBackOff" (scan_all now pod cs s).seen
        ≡ (has "ImagePullBackOff" s.seen || any (λ c. cannot_pull c.waiting) cs)
  unfolding scan_all
  scan_all-pull [] s = ground arith
  scan_all-pull (c ∷ cs) s =
      let s' = scan_waiting now pod c c.waiting s in
      ground (
        arith,
        scan_all-pull cs (scan_terminated now pod c c.last_terminated s'),
        scan_terminated-other "ImagePullBackOff" c c.last_terminated s' refl,
        scan_waiting-pull c c.waiting s,
      )

  pub scan_all-oom :
      (cs : List ContainerStatus) (s : Scan)
      → has "OOMKilled" (scan_all now pod cs s).seen
        ≡ (has "OOMKilled" s.seen || any (λ c. was_oom_killed c.last_terminated) cs)
  unfolding scan_all
  scan_all-oom [] s = ground arith
  scan_all-oom (c ∷ cs) s =
      let s' = scan_waiting now pod c c.waiting s in
      ground (
        arith,
        scan_all-oom cs (scan_terminated now pod c c.last_terminated s'),
        scan_terminated-oom c c.last_terminated s',
        scan_waiting-oom c c.waiting s,
      )

  pub scan_all-sched :
      (cs : List ContainerStatus) (s : Scan)
      → has "FailedScheduling" (scan_all now pod cs s).seen ≡ has "FailedScheduling" s.seen
  unfolding scan_all
  scan_all-sched [] s = refl
  scan_all-sched (c ∷ cs) s =
      let s' = scan_waiting now pod c c.waiting s in
      ground (
        arith,
        scan_all-sched cs (scan_terminated now pod c c.last_terminated s'),
        scan_terminated-other "FailedScheduling" c c.last_terminated s' refl,
        scan_waiting-sched c c.waiting s,
      )
