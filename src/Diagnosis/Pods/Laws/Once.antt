-- ===== src/Diagnosis/Pods/Laws/Once.antt =====
-- The results carry the reasons that were seen, each of them once.
use k8s_ops_platform.Prelude.{
  ℕ, String, Option, none, some, List, [], ◌∷◌, ◌++◌, false, ◌≤◌, ◌≡◌, arith, not, ◌&&◌, ◌||◌, ◌==◌,
  eq_iff, if-cases, ap, ◌∙◌,
}
use mathlib.Core.List.{append_assoc}
use k8s_ops_platform.Prelude.Int.{ℤ, ltb_ℤ}
use k8s_ops_platform.Kube.Objects.{Waiting, Terminated, ContainerStatus, Pod}
use k8s_ops_platform.Diagnosis.{Evidence}
use k8s_ops_platform.Diagnosis.Pods.{
  Scan, has, add, scan_waiting, scan_terminated, scan_all, result,
}
use k8s_ops_platform.Diagnosis.Pods.Laws.{
  times, reasons, reasons-append, times-append, times_of_absent,
}

-- Between two container statuses: after the reports of scheduling come those of the reasons seen, and
-- no reason was seen twice.
pub record IsScan (base : List String) (s : Scan) : Type 0 where
  pub told : reasons s.results ≡ base ++ s.seen
  pub once : (x : String) → times x s.seen ≤ 1

module _ (now : ℕ → ℕ) (pod : Pod) (base : List String) where
  add-IsScan :
      (reason severity summary action : String) (evidence : List Evidence) (s : Scan)
      → has reason s.seen ≡ false
      → IsScan base s
      → IsScan base (add now pod reason severity summary action evidence s)
  unfolding add result
  add-IsScan reason severity summary action evidence s fresh h = record {
    told =
        reasons-append s.results _
        ∙ ap (λ (l : List String). l ++ reason ∷ []) h.told
        ∙ append_assoc base s.seen (reason ∷ []);
    once = λ x. ground (
      arith,
      times-append x s.seen (reason ∷ []),
      times_of_absent reason s.seen fresh,
      h.once x,
      eq_iff reason x,
    );
  }

  scan_waiting-IsScan :
      (c : ContainerStatus) (w : Option Waiting) (s : Scan)
      → IsScan base s
      → IsScan base (scan_waiting now pod c w s)
  unfolding scan_waiting
  scan_waiting-IsScan c none s h = h
  scan_waiting-IsScan c (some w) s h =
      if-cases (IsScan base) (w.reason == "CrashLoopBackOff")
        (λ _.
          if-cases (IsScan base)
            (not (has "CrashLoopBackOff" s.seen) && ltb_ℤ (ℤ.pos 0) c.restart_count)
            (λ e. add-IsScan "CrashLoopBackOff" _ _ _ _ s (ground arith) h) (λ _. h))
        (λ _.
          if-cases (IsScan base) (w.reason == "ImagePullBackOff" || w.reason == "ErrImagePull")
            (λ _.
              if-cases (IsScan base) (not (has "ImagePullBackOff" s.seen))
                (λ e. add-IsScan "ImagePullBackOff" _ _ _ _ s (ground arith) h) (λ _. h))
            (λ _. h))

  scan_terminated-IsScan :
      (c : ContainerStatus) (t : Option Terminated) (s : Scan)
      → IsScan base s
      → IsScan base (scan_terminated now pod c t s)
  unfolding scan_terminated
  scan_terminated-IsScan c none s h = h
  scan_terminated-IsScan c (some t) s h =
      if-cases (IsScan base) (t.reason == "OOMKilled" && not (has "OOMKilled" s.seen))
        (λ e. add-IsScan "OOMKilled" _ _ _ _ s (ground arith) h) (λ _. h)

  pub scan_all-IsScan :
      (cs : List ContainerStatus) (s : Scan) → IsScan base s → IsScan base (scan_all now pod cs s)
  unfolding scan_all
  scan_all-IsScan [] s h = h
  scan_all-IsScan (c ∷ cs) s h =
      scan_all-IsScan cs
        (scan_terminated now pod c c.last_terminated (scan_waiting now pod c c.waiting s))
        (scan_terminated-IsScan c c.last_terminated (scan_waiting now pod c c.waiting s)
          (scan_waiting-IsScan c c.waiting s h))
