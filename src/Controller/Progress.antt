-- ===== src/Controller/Progress.antt =====
-- The run of an Action to its success, with an executor that gets on with its work.
pub mod Bound
use k8s_ops_platform.Prelude.{
  ℕ, String, Option, none, some, List, ◌∷◌, true, false, ◌<◌, ◌≡◌, ◌⊎◌, inl, inr, refl, ap, sym,
  ◌∙◌, arith, Bool-cases, Option-cases,
}
use k8s_ops_platform.Api.{Action, ActionStatus, running, verifying, succeeded, deep_copy_value}
use k8s_ops_platform.Api.Equality.{status_eq, status_eq-copy, deep_copy_value_lem, eq_of_status_eq}
use k8s_ops_platform.Kube.{Kube, Err, M}
use k8s_ops_platform.Kube.Errors.{ok}
use k8s_ops_platform.Action.{Executor}
use k8s_ops_platform.Controller.{State, Reconciler, Reply}
use k8s_ops_platform.Controller.Effects.{with_status, update_status, timed_out, clock}
use k8s_ops_platform.Controller.Reconcile.{
  finish_execution, after_execute, execute, after_prepare, prepare_and_execute, run, succeed,
  after_verify, verify,
}
use k8s_ops_platform.Controller.Outcomes.{Checkpoint, checkpoint_of}
use k8s_ops_platform.Controller.Steps.{Sends, observe_if_saved-updates}
use k8s_ops_platform.Controller.Drive.{SendsTo}
use k8s_ops_platform.Controller.Calls.{
  StatusWrites, same_writes, Calls, Calls-map, IsKept, Calls-kept, timed_out-Stays, save-Stays,
  finish_execution-Stays,
}

-- How an executor works: the checkpoints that it may come to in a world, those of them that Prepare leaves
-- alone, those with which the target is back in a world, and how much is ahead of each.
pub record Plan (k : Kube) : Type 1 where
  pub Fits : Checkpoint → k.World → Type 0
  pub IsReady : Checkpoint → Type 0
  pub IsBack : Checkpoint → k.World → Type 0
  pub ahead : Checkpoint → ℕ

-- A checkpoint of the plan with less ahead, in the same phase.
abbrev pub IsFurther : {k : Kube} → Plan k → ActionStatus → ActionStatus → k.World → Type 0
IsFurther plan t u w =
    (u.phase ≡ t.phase)
    × (plan.ahead (checkpoint_of u) < plan.ahead (checkpoint_of t))
    × plan.Fits (checkpoint_of u) w

-- An executor that gets on with an Action, whatever its status, from any checkpoint and world of the plan
-- on: Prepare leaves the status alone or brings it further; then Execute, or Execute alone where there is
-- no Prepare, brings it further, with an error or without one, or is done when nothing is ahead, and then
-- the target is back, which Verify finds. Reads and writes of the Action's status do not disturb it.
pub record IsProductive {k : Kube} (now : M k.World ℕ) (ex : Executor k) (a : Action)
    (plan : Plan k) : Type 0 where
  pub fits_kept : (c : Checkpoint) → IsKept k now (StatusWrites k a) (plan.Fits c)
  pub back_kept : (c : Checkpoint) → IsKept k now (StatusWrites k a) (plan.IsBack c)
  pub prepares :
      (prepare : Action → M k.World (Option (Err k) × ActionStatus))
      → ex.prepare ≡ some prepare
      → (t : ActionStatus) (w : k.World) → plan.Fits (checkpoint_of t) w
      → let out = prepare (with_status a t) w in
        (u : ActionStatus) × (out.0 ≡ (none, u))
        × (((u ≡ t) × plan.IsReady (checkpoint_of t) × plan.Fits (checkpoint_of t) out.1)
            ⊎ IsFurther plan t u out.1)
  pub unprepared :
      ex.prepare ≡ none → (c : Checkpoint) (w : k.World) → plan.Fits c w → plan.IsReady c
  pub executes :
      (t : ActionStatus) (w : k.World)
      → plan.Fits (checkpoint_of t) w
      → plan.IsReady (checkpoint_of t)
      → let out = ex.execute (with_status a t) w in
        ((out.0 ≡ (none, t)) × plan.IsBack (checkpoint_of t) out.1)
        ⊎ ((e : Option (Err k)) × (u : ActionStatus) × (out.0 ≡ (e, u)) × IsFurther plan t u out.1)
  pub verifies :
      (t : ActionStatus) (w : k.World)
      → plan.IsBack (checkpoint_of t) w
      → (ex.verify (with_status a t) w).0 ≡ ok true

-- The status and the world after a status while running: Verifying, with the target back, or further.
abbrev pub Moves : {k : Kube} → Plan k → ActionStatus → ActionStatus → k.World → Type 0
Moves plan t u w =
    ((u.phase ≡ verifying) × plan.IsBack (checkpoint_of u) w)
    ⊎ ((u.phase ≡ running)
        × (plan.ahead (checkpoint_of u) < plan.ahead (checkpoint_of t))
        × plan.Fits (checkpoint_of u) w)

module _ {k : Kube} (plan : Plan k) where
  further_neq :
      (t u : ActionStatus) (w : k.World)
      → IsFurther plan t u w
      → status_eq (deep_copy_value t) u ≡ false
  further_neq t u w (p, less, fits) =
      rw (deep_copy_value_lem t) (elim (Bool-cases (status_eq t u)) [
        | inl same ↦
            let e =
              ap (λ (v : ActionStatus). plan.ahead (checkpoint_of v)) (eq_of_status_eq t u same) in
            absurd (omega (arith, less, e))
        | inr differ ↦ differ
      ])

module _ {k : Kube} (r : Reconciler k) (ex : Executor k) (a : Action) (plan : Plan k)
    (productive : IsProductive (clock r) ex a plan) where
  -- What is kept stays through reads and writes of the Action's status.
  pub still_Fits :
      {w v : k.World} (c : Checkpoint) (t : ActionStatus)
      → Calls k (clock r) (StatusWrites k (with_status a t)) w v
      → plan.Fits c w
      → plan.Fits c v
  still_Fits c t calls =
      Calls-kept (plan.Fits c) (productive.fits_kept c) (Calls-map (same_writes k a t) calls)

  still_IsBack :
      {w v : k.World} (c : Checkpoint) (t : ActionStatus)
      → Calls k (clock r) (StatusWrites k (with_status a t)) w v
      → plan.IsBack c w
      → plan.IsBack c v
  still_IsBack c t calls =
      Calls-kept (plan.IsBack c) (productive.back_kept c) (Calls-map (same_writes k a t) calls)

  abbrev HasRun : ActionStatus → State k → Reply k × State k → Type 0
  HasRun t = SendsTo (Moves plan t)

  done-HasRun :
      (t : ActionStatus) (s : State k)
      → plan.IsBack (checkpoint_of t) s.world
      → HasRun t s (after_execute r (with_status a t) (none, t) s)
  unfolding after_execute finish_execution update_status
  done-HasRun t s back =
      rw (status_eq-copy t, after_execute)
        (
          _,
          refl,
          inl (refl, still_IsBack _ a.status (finish_execution-Stays r (λ w v. ⊥) a t s) back),
        )

  further-HasRun :
      (t : ActionStatus) (e : Option (Err k)) (u : ActionStatus) (s : State k)
      → t.phase ≡ running
      → IsFurther plan t u s.world
      → HasRun t s (after_execute r (with_status a t) (e, u) s)
  unfolding after_execute update_status
  further-HasRun t e u s p (q, less, fits) =
      rw (further_neq plan t u s.world (q, less, fits), after_execute)
        (_, refl, inr (q ∙ p, less, still_Fits _ a.status (save-Stays r (λ w v. ⊥) a _ s) fits))

  execute-HasRun :
      (t : ActionStatus) (s : State k)
      → plan.Fits (checkpoint_of t) s.world
      → plan.IsReady (checkpoint_of t)
      → t.phase ≡ running
      → HasRun t s (execute r ex (with_status a t) s)
  unfolding execute
  execute-HasRun t s fits ready p = elim (productive.executes t s.world fits ready) [
    | inl (done, back) ↦ rw (done, execute) (done-HasRun t _ back)
    | inr (e, u, left, further) ↦ rw (left, execute) (further-HasRun t e u _ p further)
  ]

  after_prepare-HasRun :
      (t u : ActionStatus) (s : State k)
      → t.phase ≡ running
      → ((u ≡ t) × plan.IsReady (checkpoint_of t) × plan.Fits (checkpoint_of t) s.world)
        ⊎ IsFurther plan t u s.world
      → HasRun t s (after_prepare r ex (with_status a t) (none, u) s)
  unfolding after_prepare update_status
  after_prepare-HasRun t u s p (inl (same, ready, fits)) =
      rw (same, after_prepare)
        (rw (status_eq-copy t, after_prepare) (execute-HasRun t s fits ready p))
  after_prepare-HasRun t u s p (inr (q, less, fits)) =
      rw (further_neq plan t u s.world (q, less, fits), after_prepare)
        (_, refl, inr (q ∙ p, less, still_Fits _ a.status (save-Stays r (λ w v. ⊥) a _ s) fits))

  prepare_and_execute-HasRun :
      (t : ActionStatus) (s : State k)
      → plan.Fits (checkpoint_of t) s.world
      → t.phase ≡ running
      → HasRun t s (prepare_and_execute r ex (with_status a t) s)
  unfolding prepare_and_execute
  prepare_and_execute-HasRun t s fits p = elim (Option-cases ex.prepare) [
    | inl e ↦
        rw (e, prepare_and_execute) (execute-HasRun t s fits (productive.unprepared e _ _ fits) p)
    | inr (prepare, e) ↦
        let (u, left, stride) = productive.prepares prepare e t s.world fits in
        rw (e, prepare_and_execute)
          (rw (left, prepare_and_execute) (after_prepare-HasRun t u _ p stride))
  ]

  pub run-HasRun :
      (t : ActionStatus) (s : State k)
      → (timed_out r (with_status a t) s).0 ≡ false
      → plan.Fits (checkpoint_of t) s.world
      → t.phase ≡ running
      → SendsTo (Moves plan t) s (run r ex (with_status a t) s)
  unfolding run
  run-HasRun t s early fits p =
      rw (early, run)
        (prepare_and_execute-HasRun t _
          (still_Fits _ t (timed_out-Stays r (λ w v. ⊥) (with_status a t) s) fits) p)

  pub verify-Succeeds :
      (t : ActionStatus) (s : State k)
      → (timed_out r (with_status a t) s).0 ≡ false
      → plan.IsBack (checkpoint_of t) s.world
      → Sends (λ u. u.phase ≡ succeeded) s.updates (verify r ex (with_status a t) s).1.updates
  unfolding verify after_verify succeed update_status
  verify-Succeeds t s early back =
      let back' = still_IsBack _ t (timed_out-Stays r (λ w v. ⊥) (with_status a t) s) back in
      rw (early, verify)
        (rw (productive.verifies t _ back', after_verify)
          (_, observe_if_saved-updates r _ _ _ _, refl))
