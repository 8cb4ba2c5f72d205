-- ===== src/Manager/Maintenance.antt =====
-- A node maintenance under the reconciler, through all its checkpoints: node_maintenance.go composed
-- with action_controller.go.
pub mod Visits
use k8s_ops_platform.Prelude.{
  String, Option, none, some, false, ◌≡◌, ◌≢◌, inl, inr, refl, ap, sym, ◌∙◌, Bool-cases,
}
use k8s_ops_platform.Api.{Action, ActionStatus, pending, running, verifying, deep_copy_value}
use k8s_ops_platform.Api.Equality.{status_eq, status_eq-copy, deep_copy_value_lem, eq_of_status_eq}
use k8s_ops_platform.Kube.{Kube, Err, M}
use k8s_ops_platform.Kube.Errors.{in_progress}
use k8s_ops_platform.Kube.Objects.{Node}
use k8s_ops_platform.Action.NodeMaintenance.Checkpoints.{Advance}
use k8s_ops_platform.Action.NodeMaintenance.Executions.{
  Advance-differs, maintainer, IsCalmAt, execute-advances, execute-completes,
}
use k8s_ops_platform.Controller.{State, Reconciler}
use k8s_ops_platform.Controller.Effects.{with_status, update_status, timed_out, clock}
use k8s_ops_platform.Controller.Calls.{
  StatusWrites, same_writes, Calls, Calls-map, IsKept, Calls-kept, timed_out-Stays, save-Stays,
  accept-Stays, start-Stays, finish_execution-Stays,
}
use k8s_ops_platform.Controller.Reconcile.{
  accept, start, finish_execution, after_execute, execute, prepare_and_execute, run,
  reconcile_action,
}
use k8s_ops_platform.Controller.Drive.{
  SendsTo, next-SendsTo, next_status, IsInTime, IsInTime-now, reconcile_action-accept,
  reconcile_action-start, reconcile_action-run,
}

-- A phase and a checkpoint.
abbrev pub IsMarked : String → String → ActionStatus → Type 0
IsMarked phase state t = (t.phase ≡ phase) × (t.execution_state ≡ state)

changed_eq :
    (t : ActionStatus) (state : String)
    → t.execution_state ≢ state
    → status_eq (deep_copy_value t) (record t { execution_state = state }) ≡ false
changed_eq t state differs =
    rw (deep_copy_value_lem t)
      (elim (Bool-cases (status_eq t (record t { execution_state = state }))) [
        | inl same ↦
            absurd
              (differs (ap (λ (u : ActionStatus). u.execution_state) (eq_of_status_eq _ _ same)))
        | inr differ ↦ differ
      ])

module _ (k : Kube) (hook : Option (Node → M k.World (Option (Err k)))) (r : Reconciler k)
    (a : Action) (known : r.executors a.spec.action_type ≡ some (maintainer k hook))
    (IsQuiet : k.World → Type 0) (calm : IsCalmAt k hook a.spec.target.name IsQuiet)
    (kept : IsKept k (clock r) (StatusWrites k a) IsQuiet) where
  abbrev next : ActionStatus → State k → ActionStatus × State k
  next = next_status r a

  -- A phase and a checkpoint, in a quiet world.
  abbrev IsSeen : String → String → ActionStatus → k.World → Type 0
  IsSeen phase state t w = IsMarked phase state t × IsQuiet w

  still-IsQuiet :
      {w v : k.World} (t : ActionStatus)
      → Calls k (clock r) (StatusWrites k (with_status a t)) w v
      → IsQuiet w
      → IsQuiet v
  still-IsQuiet t calls = Calls-kept IsQuiet kept (Calls-map (same_writes k a t) calls)

  -- What the phase Running sends after each of the two.
  after_execute-Seen :
      (t : ActionStatus) (t' message : String) (s : State k)
      → t.phase ≡ running
      → t.execution_state ≢ t'
      → IsQuiet s.world
      → SendsTo (IsSeen running t') s (
          after_execute r
            (with_status a t)
            (some (in_progress message), record t { execution_state = t' })
            s)
  unfolding after_execute update_status
  after_execute-Seen t t' message s p differs quiet =
      rw (changed_eq t t' differs, after_execute)
        (_, refl, ((p, refl), still-IsQuiet a.status (save-Stays r (λ w v. ⊥) a _ s) quiet))

  after_execute-finishes :
      (t : ActionStatus) (s : State k)
      → t.execution_state ≡ "Uncordoned"
      → IsQuiet s.world
      → SendsTo (IsSeen verifying "Uncordoned") s (after_execute r (with_status a t) (none, t) s)
  unfolding after_execute finish_execution update_status
  after_execute-finishes t s e quiet =
      rw (status_eq-copy t, after_execute)
        (
          _,
          refl,
          ((refl, e), still-IsQuiet a.status (finish_execution-Stays r (λ w v. ⊥) a t s) quiet),
        )

  execute-Seen :
      (t : ActionStatus) (state t' : String)
      → Advance state t'
      → IsMarked running state t
      → (s : State k) → IsQuiet s.world
      → SendsTo (IsSeen running t') s (execute r (maintainer k hook) (with_status a t) s)
  unfolding execute
  execute-Seen t state t' step (p, e) s quiet =
      let (message, (goes, quiet')) =
        execute-advances k hook IsQuiet (with_status a t) calm state t' step e s.world quiet in
      let differs : t.execution_state ≢ t' = λ q. Advance-differs state t' step (sym e ∙ q) in
      rw (goes, execute) (after_execute-Seen t t' message _ p differs quiet')

  execute-finishes :
      (t : ActionStatus) (s : State k)
      → t.execution_state ≡ "Uncordoned"
      → IsQuiet s.world
      → SendsTo
          (IsSeen verifying "Uncordoned")
          s
          (execute r (maintainer k hook) (with_status a t) s)
  unfolding execute
  execute-finishes t s e quiet =
      let (done, quiet') =
        execute-completes k hook IsQuiet (with_status a t) calm e s.world quiet in
      rw (done, execute) (after_execute-finishes t _ e quiet')

  run-execute :
      (t : ActionStatus) (s : State k)
      → (timed_out r (with_status a t) s).0 ≡ false
      → run r (maintainer k hook) (with_status a t) s
        ≡ execute r (maintainer k hook) (with_status a t) (timed_out r (with_status a t) s).1
  unfolding run prepare_and_execute
  run-execute t s early = rw (early, run) refl

  module _ (t : ActionStatus) (s : State k) (in_time : IsInTime r (with_status a t) s)
      (quiet : IsQuiet s.world) where
    IsQuiet-in_time : IsQuiet (timed_out r (with_status a t) s).1.world
    IsQuiet-in_time = still-IsQuiet t (timed_out-Stays r (λ w v. ⊥) (with_status a t) s) quiet

    run-execution :
        t.phase ≡ running
        → reconcile_action r (with_status a t) s
          ≡ execute r (maintainer k hook) (with_status a t) (timed_out r (with_status a t) s).1
    run-execution p =
        reconcile_action-run r (maintainer k hook) (with_status a t) s known p
        ∙ run-execute t s (IsInTime-now r (with_status a t) s in_time)

    pub advances :
        (state t' : String)
        → Advance state t'
        → IsMarked running state t
        → IsSeen running t' (next t s).0 (next t s).1.world
    advances state t' step (p, e) =
        next-SendsTo r a (IsSeen running t') t s _ (run-execution p)
          (execute-Seen t state t' step (p, e) (timed_out r (with_status a t) s).1 IsQuiet-in_time)

    pub finishes :
        IsMarked running "Uncordoned" t
        → IsSeen verifying "Uncordoned" (next t s).0 (next t s).1.world
    finishes (p, e) =
        next-SendsTo r a (IsSeen verifying "Uncordoned") t s _ (run-execution p)
          (execute-finishes t (timed_out r (with_status a t) s).1 e IsQuiet-in_time)

    pub accepts : IsMarked "" "" t → IsSeen pending "" (next t s).0 (next t s).1.world
    unfolding accept update_status
    accepts (p, e) =
        next-SendsTo r a (IsSeen pending "") t s _
          (reconcile_action-accept r (maintainer k hook) (with_status a t) s known p)
          (
            _,
            refl,
            ((refl, e), still-IsQuiet t (accept-Stays r (λ w v. ⊥) (with_status a t) s) quiet),
          )

    pub starts : IsMarked pending "" t → IsSeen running "" (next t s).0 (next t s).1.world
    unfolding start update_status
    starts (p, e) =
        next-SendsTo r a (IsSeen running "") t s _
          (reconcile_action-start r (maintainer k hook) (with_status a t) s known p)
          (
            _,
            refl,
            ((refl, e), still-IsQuiet t (start-Stays r (λ w v. ⊥) (with_status a t) s) quiet),
          )
