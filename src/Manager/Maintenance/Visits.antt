-- ===== src/Manager/Maintenance/Visits.antt =====
-- The phases and checkpoints that a node maintenance visits, one reconciliation after the other.
use k8s_ops_platform.Prelude.{String, Option, List, [], ◌∷◌, ◌≡◌, some, refl}
use k8s_ops_platform.Api.{Action, pending, running, verifying}
use k8s_ops_platform.Kube.{Kube, Err, M}
use k8s_ops_platform.Kube.Objects.{Node}
use k8s_ops_platform.Action.NodeMaintenance.Checkpoints.{
  checked, closed, emptied, hooked_up, healthy, opened,
}
use k8s_ops_platform.Action.NodeMaintenance.Executions.{maintainer, IsCalmAt}
use k8s_ops_platform.Controller.{State, Reconciler}
use k8s_ops_platform.Controller.Effects.{with_status, clock}
use k8s_ops_platform.Controller.Calls.{StatusWrites, IsKept}
use k8s_ops_platform.Controller.Drive.{next_status, IsInTime, IsInTime-after, visits}
use k8s_ops_platform.Manager.Maintenance.{IsMarked, accepts, starts, advances, finishes}

marks :
    {p q phase state : String} {X : Type 0} {xs ys : List (String × String)}
    → ((p ≡ phase) × (q ≡ state)) × X
    → xs ≡ ys
    → (p, q) ∷ xs ≡ (phase, state) ∷ ys
marks ((p, q), x) e = cc (p, q, e)

module _ (k : Kube) (hook : Option (Node → M k.World (Option (Err k)))) (r : Reconciler k)
    (a : Action) (known : r.executors a.spec.action_type ≡ some (maintainer k hook))
    (IsQuiet : k.World → Type 0) (calm : IsCalmAt k hook a.spec.target.name IsQuiet)
    (kept : IsKept k (clock r) (StatusWrites k a) IsQuiet) where
  -- A NodeMaintenance Action without a phase passes all checkpoints in order, one with each
  -- reconciliation after the second, and is Verifying after nine, when each status that is sent is
  -- stored, no reconciliation of this run finds the Action late, and the run starts in a quiet world.
  -- In a quiet world the node is found, is ready and has no pod to evict, and its patches and the hook
  -- succeed; the world stays quiet after each of these calls and after reads and writes of the Action's
  -- status.
  pub visits-maintained :
      (s0 : State k)
      → IsInTime r a s0
      → IsQuiet s0.world
      → IsMarked "" "" a.status
      → visits r 9 a s0
        ≡ (pending, "")
          ∷ (running, "")
          ∷ (running, "PreChecked")
          ∷ (running, "Cordoned")
          ∷ (running, "Drained")
          ∷ (running, "HookCompleted")
          ∷ (running, "HealthChecked")
          ∷ (running, "Uncordoned")
          ∷ (verifying, "Uncordoned")
          ∷ []
  unfolding visits
  visits-maintained s0 in_time quiet fresh =
      let (t1, s1) = next_status r a a.status s0 in
      let l1 = IsInTime-after r a s0 in_time in
      let m1 = accepts k hook r a known IsQuiet calm kept a.status s0 in_time quiet fresh in
      let (t2, s2) = next_status r a t1 s1 in
      let l2 = IsInTime-after r (with_status a t1) s1 l1 in
      let m2 = starts k hook r a known IsQuiet calm kept t1 s1 l1 m1.1 m1.0 in
      let (t3, s3) = next_status r a t2 s2 in
      let l3 = IsInTime-after r (with_status a t2) s2 l2 in
      let m3 = advances k hook r a known IsQuiet calm kept t2 s2 l2 m2.1 _ _ checked m2.0 in
      let (t4, s4) = next_status r a t3 s3 in
      let l4 = IsInTime-after r (with_status a t3) s3 l3 in
      let m4 = advances k hook r a known IsQuiet calm kept t3 s3 l3 m3.1 _ _ closed m3.0 in
      let (t5, s5) = next_status r a t4 s4 in
      let l5 = IsInTime-after r (with_status a t4) s4 l4 in
      let m5 = advances k hook r a known IsQuiet calm kept t4 s4 l4 m4.1 _ _ emptied m4.0 in
      let (t6, s6) = next_status r a t5 s5 in
      let l6 = IsInTime-after r (with_status a t5) s5 l5 in
      let m6 = advances k hook r a known IsQuiet calm kept t5 s5 l5 m5.1 _ _ hooked_up m5.0 in
      let (t7, s7) = next_status r a t6 s6 in
      let l7 = IsInTime-after r (with_status a t6) s6 l6 in
      let m7 = advances k hook r a known IsQuiet calm kept t6 s6 l6 m6.1 _ _ healthy m6.0 in
      let (t8, s8) = next_status r a t7 s7 in
      let l8 = IsInTime-after r (with_status a t7) s7 l7 in
      let m8 = advances k hook r a known IsQuiet calm kept t7 s7 l7 m7.1 _ _ opened m7.0 in
      let m9 = finishes k hook r a known IsQuiet calm kept t8 s8 l8 m8.1 m8.0 in
      marks m1
        (marks m2 (marks m3 (marks m4 (marks m5 (marks m6 (marks m7 (marks m8 (marks m9 refl))))))))
