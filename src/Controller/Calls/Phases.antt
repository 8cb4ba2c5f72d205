-- ===== src/Controller/Calls/Phases.antt =====
-- The calls of the phases Running and Verifying, and of Reconcile as a whole.
use k8s_ops_platform.Prelude.{
  ℕ, Option, none, some, Bool, true, false, ◌≡◌, inl, inr, sym, subst, Bool-cases, Option-cases,
}
use k8s_ops_platform.Api.{Action, ActionStatus, deep_copy_value}
use k8s_ops_platform.Api.Equality.{status_eq, deep_copy_value_lem, eq_of_status_eq}
use k8s_ops_platform.Kube.{Kube, Err, M}
use k8s_ops_platform.Kube.Errors.{Result, ok, err, is_in_progress}
use k8s_ops_platform.Action.{Executor}
use k8s_ops_platform.Controller.{State, Reconciler}
use k8s_ops_platform.Controller.Phases.{terminal}
use k8s_ops_platform.Controller.Effects.{with_status, timed_out, clock}
use k8s_ops_platform.Controller.Reconcile.{
  after_execute, execute, after_prepare, prepare_and_execute, run, after_verify, verify, dispatch,
  reconcile_action,
}
use k8s_ops_platform.Controller.Steps.Cases.{
  unset, is_pending, is_running, is_verifying, other, phase_cases,
}
use k8s_ops_platform.Controller.Calls.{
  Calls, stop, IsKept, Calls-kept, Calls-trans, Calls-map, Permitted, touches, Stays,
  timed_out-Stays, fail-Stays, retry_or_fail-Stays, save-Stays, accept-Stays, start-Stays,
  finish_execution-Stays, succeed-Stays,
}

abbrev pub ConfinedIfAny :
    (k : Kube)
    → M k.World ℕ
    → (k.World → k.World → Type 0)
    → (k.World → Type 0)
    → Option (Action → M k.World (Option (Err k) × ActionStatus))
    → Action
    → Type 0
ConfinedIfAny k now Touches Holds none a = Unit
ConfinedIfAny k now Touches Holds (some prepare) a =
    (w : k.World) → Holds w → Calls k now Touches w (prepare a w).1

-- What an executor does to the cluster for an Action, from the worlds of which something holds: reads,
-- and writes of a kind.
pub record IsConfined {k : Kube} (now : M k.World ℕ) (Touches : k.World → k.World → Type 0)
    (Holds : k.World → Type 0) (ex : Executor k) (a : Action) : Type 0 where
  pub prepares : ConfinedIfAny k now Touches Holds ex.prepare a
  pub executes : (w : k.World) → Holds w → Calls k now Touches w (ex.execute a w).1
  pub verifies : (w : k.World) → Holds w → Calls k now Touches w (ex.verify a w).1

same_status : (t u : ActionStatus) → status_eq (deep_copy_value t) u ≡ true → t ≡ u
same_status t u same = eq_of_status_eq t u (rw (sym (deep_copy_value_lem t)) same)

module _ {k : Kube} (r : Reconciler k) (Touches : k.World → k.World → Type 0)
    (Holds : k.World → Type 0) (ex : Executor k) (a : Action)
    (kept : IsKept k (clock r) (Permitted k Touches a) Holds)
    (confined : IsConfined (clock r) Touches Holds ex a) where
  abbrev Remains : State k → State k → Type 0
  Remains = Stays r Touches a

  -- The calls of the executor.
  own :
      {w v : k.World}
      → Calls k (clock r) Touches w v
      → Calls k (clock r) (Permitted k Touches a) w v
  own c = Calls-map (λ _ _ p. touches p) c

  broken-Remains :
      (cause : Err k) (t : ActionStatus) (s : State k)
      → status_eq (deep_copy_value a.status) t ≡ true
      → Remains s (after_execute r a (some cause, t) s).1
  unfolding after_execute
  broken-Remains cause t s same =
      rw (same, after_execute)
        (elim (Bool-cases (is_in_progress cause)) [
          | inl going ↦ rw (going, after_execute) (save-Stays r Touches a _ s)
          | inr broken ↦ rw (broken, after_execute) (retry_or_fail-Stays r Touches a t cause s)
        ])

  unchanged-Remains :
      (e : Option (Err k)) (t : ActionStatus) (s : State k)
      → status_eq (deep_copy_value a.status) t ≡ true
      → Remains s (after_execute r a (e, t) s).1
  unfolding after_execute
  unchanged-Remains none t s same =
      rw (same, after_execute) (finish_execution-Stays r Touches a t s)
  unchanged-Remains (some cause) t s same = broken-Remains cause t s same

  after_execute-Remains :
      (e : Option (Err k)) (t : ActionStatus) (s : State k)
      → Remains s (after_execute r a (e, t) s).1
  unfolding after_execute
  after_execute-Remains e t s = elim (Bool-cases (status_eq (deep_copy_value a.status) t)) [
    | inl same ↦ unchanged-Remains e t s same
    | inr changed ↦ rw (changed, after_execute) (save-Stays r Touches a _ s)
  ]

  execute-Remains : (s : State k) → Holds s.world → Remains s (execute r ex a s).1
  unfolding execute
  execute-Remains s h =
      Calls-trans (own (confined.executes s.world h)) (after_execute-Remains _ _ _)

  after_prepare-Remains :
      (e : Option (Err k)) (t : ActionStatus) (s : State k)
      → Holds s.world
      → Remains s (after_prepare r ex a (e, t) s).1
  unfolding after_prepare
  after_prepare-Remains (some cause) t s h = retry_or_fail-Stays r Touches a t cause s
  after_prepare-Remains none t s h = elim (Bool-cases (status_eq (deep_copy_value a.status) t)) [
    | inl same ↦
        rw (same, after_prepare)
          (subst (λ u. Remains s (execute r ex (with_status a u) s).1) (same_status _ _ same)
            (execute-Remains s h))
    | inr changed ↦ rw (changed, after_prepare) (save-Stays r Touches a _ s)
  ]

  prepare_and_execute-Remains :
      (s : State k) → Holds s.world → Remains s (prepare_and_execute r ex a s).1
  unfolding prepare_and_execute
  prepare_and_execute-Remains s h = elim (Option-cases ex.prepare) [
    | inl e ↦ rw (e, prepare_and_execute) (execute-Remains s h)
    | inr (prepare, e) ↦
        let prepares =
          subst (λ p. ConfinedIfAny k (clock r) Touches Holds p a) e confined.prepares in
        let calls = own (prepares s.world h) in
        rw (e, prepare_and_execute)
          (Calls-trans calls (after_prepare-Remains _ _ _ (Calls-kept Holds kept calls h)))
  ]

  run-Remains : (s : State k) → Holds s.world → Remains s (run r ex a s).1
  unfolding run
  run-Remains s h =
      let looked = timed_out-Stays r Touches a s in
      Calls-trans looked (elim (Bool-cases (timed_out r a s).0) [
        | inl late ↦ rw (late, run) (fail-Stays r Touches a a.status _ _)
        | inr early ↦
            rw (early, run) (prepare_and_execute-Remains _ (Calls-kept Holds kept looked h))
      ])

  after_verify-Remains :
      (verified : Result (Err k) Bool) (s : State k) → Remains s (after_verify r a verified s).1
  unfolding after_verify
  after_verify-Remains (err e) s = retry_or_fail-Stays r Touches a a.status e s
  after_verify-Remains (ok false) s = stop
  after_verify-Remains (ok true) s = succeed-Stays r Touches a s

  verify-Remains : (s : State k) → Holds s.world → Remains s (verify r ex a s).1
  unfolding verify
  verify-Remains s h =
      let looked = timed_out-Stays r Touches a s in
      Calls-trans looked (elim (Bool-cases (timed_out r a s).0) [
        | inl late ↦ rw (late, verify) (fail-Stays r Touches a a.status _ _)
        | inr early ↦
            rw (early, verify)
              (Calls-trans (own (confined.verifies _ (Calls-kept Holds kept looked h)))
                (after_verify-Remains _ _))
      ])

  dispatch-Remains : (s : State k) → Holds s.world → Remains s (dispatch r ex a s).1
  unfolding dispatch
  dispatch-Remains s h = elim (phase_cases a.status.phase) [
    | unset e ↦ rw (e, dispatch) (accept-Stays r Touches a s)
    | is_pending n e ↦ rw (n, e, dispatch) (start-Stays r Touches a s)
    | is_running n m e ↦ rw (n, m, e, dispatch) (run-Remains s h)
    | is_verifying n m o e ↦ rw (n, m, o, e, dispatch) (verify-Remains s h)
    | other n m o q ↦ rw (n, m, o, q, dispatch) (fail-Stays r Touches a a.status _ s)
  ]

-- Reconcile, once it has the Action, where the executor of the Action's type is confined.
pub reconcile_action-Stays :
    {k : Kube} (r : Reconciler k) (Touches : k.World → k.World → Type 0) (Holds : k.World → Type 0)
    (a : Action)
    → IsKept k (clock r) (Permitted k Touches a) Holds
    → ((ex : Executor k)
        → r.executors a.spec.action_type ≡ some ex
        → IsConfined (clock r) Touches Holds ex a)
    → (s : State k) → Holds s.world
    → Stays r Touches a s (reconcile_action r a s).1
unfolding reconcile_action
reconcile_action-Stays r Touches Holds a kept confined s h =
    elim (Bool-cases (terminal a.status.phase)) [
      | inl over ↦ rw (over, reconcile_action) stop
      | inr live ↦
          rw (live, reconcile_action)
            (elim (Option-cases (r.executors a.spec.action_type)) [
              | inl unknown ↦ rw (unknown, reconcile_action) (fail-Stays r Touches a a.status _ s)
              | inr (ex, known) ↦
                  rw (known, reconcile_action)
                    (dispatch-Remains r Touches Holds ex a kept (confined ex known) s h)
            ])
    ]
