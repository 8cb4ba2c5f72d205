-- ===== src/Manager/Rollout/Completion.antt =====
-- A deployment restart under the reconciler from its creation to its success: deployment_restart.go
-- composed with action_controller.go, while the rollout takes its time.
use k8s_ops_platform.Prelude.{
  ℕ, zero, suc, none, some, false, ◌+◌, ◌≡◌, ◌⊎◌, inl, inr, refl, ap, sym, ◌∙◌, subst, arith,
}
use k8s_ops_platform.Api.{Action, ActionStatus, deployment_restart, pending, running, verifying}
use k8s_ops_platform.Api.Equality.{status_eq-copy}
use k8s_ops_platform.Kube.{Kube}
use k8s_ops_platform.Action.{Executor}
use k8s_ops_platform.Controller.{State, Reconciler, Reply}
use k8s_ops_platform.Controller.Effects.{with_status, update_status, timed_out}
use k8s_ops_platform.Controller.Reconcile.{
  accept, start, finish_execution, after_execute, execute, prepare_and_execute, run,
  reconcile_action,
}
use k8s_ops_platform.Controller.Steps.{Sends}
use k8s_ops_platform.Controller.Calls.{
  timed_out-Stays, accept-Stays, start-Stays, finish_execution-Stays,
}
use k8s_ops_platform.Controller.Drive.{
  IsInTime, IsInTime-now, IsInTime-after, next_status, IsAtStage, next-IsAtStage, latest, Succeeds,
  one_more, Succeeds-more, Succeeds-once, reconcile_action-accept, reconcile_action-start,
  reconcile_action-run,
}
use k8s_ops_platform.Manager.{deployment_restart_executor, executors, reconciler}
use k8s_ops_platform.Manager.Rollout.{after_read, reconcile_action-rollout}
use k8s_ops_platform.Manager.Rollout.Start.{
  CarriesOut, still-IsReady, still_under_way, execute-HasStarted,
}

module _ (k : Kube) (a : Action) (limit : ℕ) (IsReady : k.World → Type 0)
    (IsUnderWay : ℕ → k.World → Type 0) (carries : CarriesOut k a limit IsReady IsUnderWay)
    (restart : a.spec.action_type ≡ deployment_restart) where
  abbrev r : Reconciler k
  r = reconciler k

  abbrev ex : Executor k
  ex = deployment_restart_executor k

  known : executors k a.spec.action_type ≡ some ex
  unfolding executors
  known = rw restart refl

  -- The Action's status and the state after a reconciliation.
  abbrev next : ActionStatus → State k → ActionStatus × State k
  next = next_status r a

  accepts :
      (t : ActionStatus) (s : State k)
      → t.phase ≡ ""
      → IsReady s.world
      → IsAtStage r pending IsReady (next t s)
  unfolding accept update_status
  accepts t s p ready =
      next-IsAtStage r a pending IsReady t s _
        (reconcile_action-accept r ex (with_status a t) s known p) (_, refl, refl)
        (still-IsReady k a limit IsReady IsUnderWay carries t
          (accept-Stays r (λ w v. ⊥) (with_status a t) s) ready)

  starts :
      (t : ActionStatus) (s : State k)
      → t.phase ≡ pending
      → IsReady s.world
      → IsAtStage r running IsReady (next t s)
  unfolding start update_status
  starts t s p ready =
      next-IsAtStage r a running IsReady t s _
        (reconcile_action-start r ex (with_status a t) s known p) (_, refl, refl)
        (still-IsReady k a limit IsReady IsUnderWay carries t
          (start-Stays r (λ w v. ⊥) (with_status a t) s) ready)

  -- The outcome of the phase Running.
  abbrev HasRun : State k → Reply k × State k → Type 0
  HasRun s out =
      Sends (λ u. u.phase ≡ verifying) s.updates out.1.updates × IsUnderWay limit out.1.world

  finish_execution-HasRun :
      (t : ActionStatus) (s : State k)
      → IsUnderWay limit s.world
      → HasRun s (finish_execution (with_status a t) s)
  unfolding finish_execution update_status
  finish_execution-HasRun t s under_way = (
    (_, refl, refl),
    still_under_way k a limit IsReady IsUnderWay carries limit a.status
        (finish_execution-Stays r (λ w v. ⊥) a t s) under_way,
  )

  after_execute-HasRun :
      (t : ActionStatus) (s : State k)
      → IsUnderWay limit s.world
      → HasRun s (after_execute r (with_status a t) (none, t) s)
  unfolding after_execute
  after_execute-HasRun t s under_way =
      rw (status_eq-copy t, after_execute) (finish_execution-HasRun t s under_way)

  execute-HasRun :
      (t : ActionStatus) (s : State k)
      → IsReady s.world
      → HasRun s (execute r ex (with_status a t) s)
  unfolding execute
  execute-HasRun t s ready =
      let (done, under_way) =
        execute-HasStarted k a limit IsReady IsUnderWay carries t s.world ready in
      rw (done, execute) (after_execute-HasRun t _ under_way)

  run-HasRun :
      (t : ActionStatus) (s : State k)
      → (timed_out r (with_status a t) s).0 ≡ false
      → IsReady s.world
      → HasRun s (run r ex (with_status a t) s)
  unfolding run prepare_and_execute
  run-HasRun t s early ready =
      rw (early, run)
        (execute-HasRun t _ (
          still-IsReady k a limit IsReady IsUnderWay carries t
            (timed_out-Stays r (λ w v. ⊥) (with_status a t) s) ready))

  runs :
      (t : ActionStatus) (s : State k)
      → (timed_out r (with_status a t) s).0 ≡ false
      → t.phase ≡ running
      → IsReady s.world
      → IsAtStage r verifying (IsUnderWay limit) (next t s)
  runs t s early p ready =
      let (sends, under_way) = run-HasRun t s early ready in
      next-IsAtStage r a verifying (IsUnderWay limit) t s _
        (reconcile_action-run r ex (with_status a t) s known p) sends under_way

  -- A reconciliation that finds the rollout unfinished leaves the Action as it is.
  waits :
      (t : ActionStatus) (s : State k) (reply : Reply k)
      → latest t s.updates ≡ t
      → reconcile_action r (with_status a t) s ≡ (reply, after_read r (with_status a t) s)
      → next t s ≡ (t, after_read r (with_status a t) s)
  waits t s reply newest e =
      ap (λ (out : Reply k × State k). (latest t out.1.updates, out.1)) e
      ∙ ap (λ u. (u, after_read r (with_status a t) s)) newest

  -- The world in which Verify reads the Deployment.
  under_way_read :
      (n : ℕ) (t : ActionStatus) (s : State k)
      → IsUnderWay n s.world
      → IsUnderWay n (timed_out r (with_status a t) s).1.world
  under_way_read n t s =
      still_under_way k a limit IsReady IsUnderWay carries n t
        (timed_out-Stays r (λ w v. ⊥) (with_status a t) s)

  -- Verifying, the Action is Succeeded, or waits, with one read less ahead of it.
  verifies :
      (n : ℕ) (t : ActionStatus) (s : State k)
      → (timed_out r (with_status a t) s).0 ≡ false
      → IsAtStage r verifying (IsUnderWay n) (t, s)
      → Succeeds r 1 (with_status a t) s
        ⊎ ((m : ℕ) × (n ≡ suc m) × IsAtStage r verifying (IsUnderWay m) (next t s))
  verifies n t s early (p, under_way, newest) =
      let b = with_status a t in
      let at_read = under_way_read n t s under_way in
      elim (reconcile_action-rollout r b s known p early) [
        | inl (e, unread, out) ↦
            let (d, found) = carries.found_again n _ at_read in absurd (cc (unread, found))
        | inr (d, found, inl (over, sends)) ↦ inl (Succeeds-once r b s sends)
        | inr (d, found, inr (unfinished, out)) ↦ elim (carries.advances n _ d at_read found) [
          | inl over ↦ absurd (unfinished over)
          | inr (m, left, later) ↦ inr (
            m,
            left,
            subst (IsAtStage r verifying (IsUnderWay m)) (sym (waits t s _ newest out))
                (p, later, newest),
          )
        ]
      ]

  verifying-Succeeds :
      (n : ℕ) (t : ActionStatus) (s : State k)
      → IsInTime r (with_status a t) s
      → IsAtStage r verifying (IsUnderWay n) (t, s)
      → Succeeds r (suc n) (with_status a t) s
  verifying-Succeeds zero t s in_time at =
      elim (verifies zero t s (IsInTime-now r _ s in_time) at) [
        | inl done ↦ done
        | inr (m, left, later) ↦ absurd (omega (arith, left))
      ]
  verifying-Succeeds (suc n) t s in_time at =
      elim (verifies (suc n) t s (IsInTime-now r _ s in_time) at) [
        | inl done ↦ Succeeds-more r 1 (suc (suc n)) (with_status a t) s (omega arith) done
        | inr (m, left, later) ↦
            let same : m ≡ n = omega (arith, left) in
            one_more r (suc n) (with_status a t) s (
              verifying-Succeeds n (next t s).0 (next t s).1
                (IsInTime-after r (with_status a t) s in_time)
                (subst (λ i. IsAtStage r verifying (IsUnderWay i) (next t s)) same later))
      ]

  -- A DeploymentRestart without a phase is Succeeded after at most four reconciliations and one more
  -- for each read that may find the rollout unfinished, when its target can be found and patched,
  -- each status that is sent is stored, and no reconciliation of this run finds the Action late.
  pub drive-Completes :
      (s : State k)
      → IsInTime (reconciler k) a s
      → a.status.phase ≡ ""
      → IsReady s.world
      → Succeeds (reconciler k) (4 + limit) a s
  drive-Completes s in_time p ready =
      let in_time1 = IsInTime-after r a s in_time in
      let (t1, s1) = next a.status s in
      let (p1, ready1, newest1) = accepts a.status s p ready in
      let (t2, s2) = next t1 s1 in
      let in_time2 = IsInTime-after r (with_status a t1) s1 in_time1 in
      let (p2, ready2, newest2) = starts t1 s1 p1 ready1 in
      let b = suc (suc (suc (suc limit))) in
      Succeeds-more r b (4 + limit) a s (omega arith) (
        one_more r (suc (suc (suc limit))) a s (
          one_more r (suc (suc limit)) (with_status a t1) s1 (
            one_more r (suc limit) (with_status a t2) s2 (
              verifying-Succeeds limit (next t2 s2).0 (next t2 s2).1
                (IsInTime-after r (with_status a t2) s2 in_time2)
                (runs t2 s2 (IsInTime-now r (with_status a t2) s2 in_time2) p2 ready2)))))
