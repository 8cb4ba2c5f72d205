-- ===== src/Controller/Steps/Cases.antt =====
-- The cases of the switch of Reconcile, and the statuses that its parts send.
use k8s_ops_platform.Prelude.{
  String, Option, none, some, true, false, ◌≡◌, inl, inr, refl, ap, ◌∙◌, ◌==◌, Bool-cases, eq_iff,
}
use k8s_ops_platform.Api.{Action, ActionStatus, pending, running, verifying, deep_copy_value}
use k8s_ops_platform.Api.Equality.{status_eq}
use k8s_ops_platform.Kube.{Kube, Err}
use k8s_ops_platform.Kube.Errors.{is_in_progress}
use k8s_ops_platform.Action.Contract.{Progress, progress}
use k8s_ops_platform.Controller.{State, Reconciler}
use k8s_ops_platform.Controller.Phases.{next_phase, terminal}
use k8s_ops_platform.Controller.Effects.{
  with_status, update_status, retry_limit, fail, retry_or_fail,
}
use k8s_ops_platform.Controller.Steps.{
  Sends, Sends-map, Step, forward, checkpoint, give_up, fail-Sends, retry_or_fail-Step,
  Step-of_progress,
}
use k8s_ops_platform.Controller.Reconcile.{accept, start, finish_execution, after_execute}

-- The cases of the switch over the phase, with the tests that lead to each.
pub data PhaseCase (phase : String) : Type 0 where
  unset : (phase == "") ≡ true → PhaseCase phase
  is_pending : (phase == "") ≡ false → (phase == pending) ≡ true → PhaseCase phase
  is_running :
      (phase == "") ≡ false
      → (phase == pending) ≡ false
      → (phase == running) ≡ true
      → PhaseCase phase
  is_verifying :
      (phase == "") ≡ false
      → (phase == pending) ≡ false
      → (phase == running) ≡ false
      → (phase == verifying) ≡ true
      → PhaseCase phase
  other :
      (phase == "") ≡ false
      → (phase == pending) ≡ false
      → (phase == running) ≡ false
      → (phase == verifying) ≡ false
      → PhaseCase phase

pub phase_cases : (phase : String) → PhaseCase phase
phase_cases phase = elim (Bool-cases (phase == "")) [
  | inl e ↦ unset e
  | inr n ↦ elim (Bool-cases (phase == pending)) [
    | inl e ↦ is_pending n e
    | inr m ↦ elim (Bool-cases (phase == running)) [
      | inl e ↦ is_running n m e
      | inr o ↦ elim (Bool-cases (phase == verifying)) [
        | inl e ↦ is_verifying n m o e
        | inr q ↦ other n m o q
      ]
    ]
  ]
]

-- A test that passed, as an equation.
pub named : {phase name : String} → (phase == name) ≡ true → phase ≡ name
named {phase} {name} e = (eq_iff phase name).0 e

module _ {k : Kube} (r : Reconciler k) where
  -- Reconciling an action from `s` to `s'` sends a status that may follow the action's.
  abbrev pub Follows : Action → State k → State k → Type 0
  Follows a s s' = Sends (Step (retry_limit r) a.status) s.updates s'.updates

  pub fail-Follows :
      (a : Action) (cause : Err k) (s : State k)
      → terminal a.status.phase ≡ false
      → Follows a s (fail r a cause s).1
  fail-Follows a cause s live =
      Sends-map (λ t p. give_up live p.0 (inl p.1)) (fail-Sends r a cause s)

  pub accept-Follows : (a : Action) (s : State k) → a.status.phase ≡ "" → Follows a s (accept a s).1
  unfolding accept update_status next_phase
  accept-Follows a s e = (_, refl, forward (rw e refl) refl)

  pub start-Follows :
      (a : Action) (s : State k) → a.status.phase ≡ pending → Follows a s (start r a s).1
  unfolding start update_status next_phase
  start-Follows a s e = (_, refl, forward (rw e refl) refl)

  finish_execution-Follows :
      (a : Action) (s : State k) → a.status.phase ≡ running → Follows a s (finish_execution a s).1
  unfolding finish_execution update_status next_phase
  finish_execution-Follows a s e = (_, refl, forward (rw e refl) refl)

  save-Follows :
      (a : Action) (t : ActionStatus) (s : State k)
      → a.status.phase ≡ running
      → t.phase ≡ running
      → t.retry_count ≡ a.status.retry_count
      → Follows a s (update_status (with_status a t) true s).1
  unfolding update_status
  save-Follows a t s p q n = (_, refl, checkpoint p q n)

  -- An executor has left the controller's fields of `a.status` as they were, and set the others.
  module _ (a : Action) (t : ActionStatus) (s : State k) (p : a.status.phase ≡ running)
      (kept : progress t ≡ progress a.status) where
    pub still_running : t.phase ≡ running
    still_running = ap (λ (q : Progress). q.phase) kept ∙ p

    same_count : t.retry_count ≡ a.status.retry_count
    same_count = ap (λ (q : Progress). q.retry_count) kept

    pub save_message-Follows :
        (message : String)
        → Follows a s (update_status (with_status a (record t { message = message })) true s).1
    save_message-Follows message =
        save-Follows a (record t { message = message }) s p still_running same_count

    pub retry-Follows : (cause : Err k) → Follows a s (retry_or_fail r (with_status a t) cause s).1
    retry-Follows cause =
        Sends-map (λ u st. Step-of_progress kept st)
          (retry_or_fail-Step r (with_status a t) cause s (inl still_running))

    finish-Follows : Follows a s (finish_execution (with_status a t) s).1
    finish-Follows =
        Sends-map (λ u st. Step-of_progress kept st)
          (finish_execution-Follows (with_status a t) s still_running)

    broken-Follows :
        (cause : Err k)
        → status_eq (deep_copy_value a.status) t ≡ true
        → Follows a s (after_execute r a (some cause, t) s).1
    unfolding after_execute
    broken-Follows cause same =
        rw (same, after_execute)
          (elim (Bool-cases (is_in_progress cause)) [
            | inl going ↦ rw (going, after_execute) (save_message-Follows _)
            | inr broken ↦ rw (broken, after_execute) (retry-Follows cause)
          ])

    unchanged-Follows :
        (e : Option (Err k))
        → status_eq (deep_copy_value a.status) t ≡ true
        → Follows a s (after_execute r a (e, t) s).1
    unfolding after_execute
    unchanged-Follows none same = rw (same, after_execute) finish-Follows
    unchanged-Follows (some cause) same = broken-Follows cause same

    pub after_execute-Follows : (e : Option (Err k)) → Follows a s (after_execute r a (e, t) s).1
    unfolding after_execute
    after_execute-Follows e = elim (Bool-cases (status_eq (deep_copy_value a.status) t)) [
      | inl same ↦ unchanged-Follows e same
      | inr changed ↦ rw (changed, after_execute) (save_message-Follows _)
    ]
