-- ===== src/Controller/Progress/Bound.antt =====
-- How long the run of an Action takes with an executor that gets on with its work.
use k8s_ops_platform.Prelude.{
  ℕ, zero, suc, some, false, ◌+◌, ◌≤◌, ◌≡◌, inl, inr, refl, ap, sym, ◌∙◌, subst, arith,
}
use k8s_ops_platform.Api.{Action, ActionStatus, pending, running, verifying, succeeded}
use k8s_ops_platform.Kube.{Kube}
use k8s_ops_platform.Action.{Executor}
use k8s_ops_platform.Controller.{State, Reconciler, Reply}
use k8s_ops_platform.Controller.Effects.{with_status, update_status, timed_out, clock}
use k8s_ops_platform.Controller.Reconcile.{accept, start}
use k8s_ops_platform.Controller.Outcomes.{checkpoint_of}
use k8s_ops_platform.Controller.Calls.{accept-Stays, start-Stays}
use k8s_ops_platform.Controller.Drive.{
  next-SendsTo, next_status, IsInTime, IsInTime-now, IsInTime-after, Succeeds, one_more,
  Succeeds-more, Succeeds-once, reconcile_action-accept, reconcile_action-start,
  reconcile_action-run, reconcile_action-verify,
}
use k8s_ops_platform.Controller.Steps.{Sends}
use k8s_ops_platform.Controller.Progress.{
  Plan, IsProductive, Moves, still_Fits, run-HasRun, verify-Succeeds,
}

module _ {k : Kube} (r : Reconciler k) (ex : Executor k) (a : Action) (plan : Plan k)
    (productive : IsProductive (clock r) ex a plan)
    (known : r.executors a.spec.action_type ≡ some ex) where
  abbrev next : ActionStatus → State k → ActionStatus × State k
  next = next_status r a

  -- A phase, with the checkpoint of a status, which is one of the plan.
  abbrev IsAt : ActionStatus → ActionStatus → k.World → Type 0
  IsAt t u w = (checkpoint_of u ≡ checkpoint_of t) × plan.Fits (checkpoint_of u) w

  accepts :
      (t : ActionStatus) (s : State k)
      → plan.Fits (checkpoint_of t) s.world
      → t.phase ≡ ""
      → ((next t s).0.phase ≡ pending) × IsAt t (next t s).0 (next t s).1.world
  unfolding accept update_status
  accepts t s fits p =
      next-SendsTo r a (λ u w. (u.phase ≡ pending) × IsAt t u w) t s _
        (reconcile_action-accept r ex (with_status a t) s known p)
        (
          _,
          refl,
          (
            refl,
            (
              refl,
              still_Fits r ex a plan productive (checkpoint_of t) t
                  (accept-Stays r (λ w v. ⊥) (with_status a t) s) fits,
            ),
          ),
        )

  starts :
      (t : ActionStatus) (s : State k)
      → plan.Fits (checkpoint_of t) s.world
      → t.phase ≡ pending
      → ((next t s).0.phase ≡ running) × IsAt t (next t s).0 (next t s).1.world
  unfolding start update_status
  starts t s fits p =
      next-SendsTo r a (λ u w. (u.phase ≡ running) × IsAt t u w) t s _
        (reconcile_action-start r ex (with_status a t) s known p)
        (
          _,
          refl,
          (
            refl,
            (
              refl,
              still_Fits r ex a plan productive (checkpoint_of t) t
                  (start-Stays r (λ w v. ⊥) (with_status a t) s) fits,
            ),
          ),
        )

  runs :
      (t : ActionStatus) (s : State k)
      → (timed_out r (with_status a t) s).0 ≡ false
      → plan.Fits (checkpoint_of t) s.world
      → t.phase ≡ running
      → Moves plan t (next t s).0 (next t s).1.world
  runs t s early fits p =
      next-SendsTo r a (Moves plan t) t s _ (reconcile_action-run r ex (with_status a t) s known p)
        (run-HasRun r ex a plan productive t s early fits p)

  verifying-Succeeds :
      (t : ActionStatus) (s : State k)
      → IsInTime r (with_status a t) s
      → t.phase ≡ verifying
      → plan.IsBack (checkpoint_of t) s.world
      → Succeeds r 1 (with_status a t) s
  verifying-Succeeds t s in_time p back = Succeeds-once r (with_status a t) s (
      subst (λ (o : Reply k × State k). Sends (λ u. u.phase ≡ succeeded) s.updates o.1.updates)
        (sym (reconcile_action-verify r ex (with_status a t) s known p))
        (verify-Succeeds r ex a plan productive t s (IsInTime-now r _ s in_time) back))

  -- One reconciliation on, in the phase Verifying.
  then-Succeeds :
      (b : ℕ) (t : ActionStatus) (s : State k)
      → IsInTime r (with_status a t) s
      → (next t s).0.phase ≡ verifying
      → plan.IsBack (checkpoint_of (next t s).0) (next t s).1.world
      → Succeeds r (2 + b) (with_status a t) s
  then-Succeeds b t s in_time q back = Succeeds-more r 2 (2 + b) (with_status a t) s (omega arith) (
      one_more r 1 (with_status a t) s (
        verifying-Succeeds (next t s).0 (next t s).1 (IsInTime-after r (with_status a t) s in_time)
          q back))

  running-Succeeds :
      (b : ℕ) (t : ActionStatus) (s : State k)
      → IsInTime r (with_status a t) s
      → plan.Fits (checkpoint_of t) s.world
      → t.phase ≡ running
      → plan.ahead (checkpoint_of t) ≤ b
      → Succeeds r (2 + b) (with_status a t) s
  running-Succeeds zero t s in_time fits p h = elim (runs t s (IsInTime-now r _ s in_time) fits p) [
    | inl (q, back) ↦ then-Succeeds zero t s in_time q back
    | inr (q, less, fits') ↦ absurd (omega (arith, h, less))
  ]
  running-Succeeds (suc b) t s in_time fits p h =
      elim (runs t s (IsInTime-now r _ s in_time) fits p) [
        | inl (q, back) ↦ then-Succeeds (suc b) t s in_time q back
        | inr (q, less, fits') ↦
            Succeeds-more r (suc (2 + b)) (2 + suc b) (with_status a t) s (omega arith) (
              one_more r (2 + b) (with_status a t) s (
                running-Succeeds b (next t s).0 (next t s).1
                  (IsInTime-after r (with_status a t) s in_time) fits' q (omega (arith, h, less))))
      ]

  -- An Action without a phase and with a checkpoint of the plan, whose executor gets on with it, is
  -- Succeeded after at most four reconciliations and one more for each step that its checkpoint has
  -- ahead, when each status that is sent is stored and no reconciliation of this run finds the Action
  -- late.
  pub drive-Succeeds :
      (s : State k)
      → IsInTime r a s
      → plan.Fits (checkpoint_of a.status) s.world
      → a.status.phase ≡ ""
      → Succeeds r (4 + plan.ahead (checkpoint_of a.status)) a s
  drive-Succeeds s in_time fits p =
      let (t1, s1) = next a.status s in
      let (p1, (c1, fits1)) = accepts a.status s fits p in
      let in_time1 = IsInTime-after r a s in_time in
      let (t2, s2) = next t1 s1 in
      let (p2, (c2, fits2)) = starts t1 s1 fits1 p1 in
      let in_time2 = IsInTime-after r (with_status a t1) s1 in_time1 in
      let b = plan.ahead (checkpoint_of a.status) in
      let same : plan.ahead (checkpoint_of t2) ≡ b = ap plan.ahead (c2 ∙ c1) in
      Succeeds-more r (suc (suc (2 + b))) (4 + b) a s (omega arith) (
        one_more r (suc (2 + b)) a s (
          one_more r (2 + b) (with_status a t1) s1
            (running-Succeeds b t2 s2 in_time2 fits2 p2 (omega (arith, same)))))
