-- ===== src/Controller/Steps.antt =====
-- Which statuses the reconciler may send, and what it sends of an error.
pub mod Cases
pub mod Phases
use k8s_ops_platform.Prelude.{
  ℕ, String, Option, none, some, List, [], ◌∷◌, Bool, true, false, ◌≡◌, ◌⊎◌, inl, inr, refl, ap,
  sym, ◌∙◌, arith, ◌==◌, ◌||◌, Bool-cases, Option-cases, eq_iff,
}
use k8s_ops_platform.Prelude.Int.{ℤ, leb_ℤ, inc_int32}
use k8s_ops_platform.Api.{Action, ActionStatus, pending, running, verifying, succeeded, failed}
use k8s_ops_platform.Kube.{Kube, Err, M}
use k8s_ops_platform.Action.{Executor}
use k8s_ops_platform.Action.Contract.{Progress, progress, IsWellBehaved}
use k8s_ops_platform.Controller.{State, Reconciler, Reply}
use k8s_ops_platform.Controller.Phases.{next_phase, terminal}
use k8s_ops_platform.Controller.Effects.{
  update_status, observe_if_saved, retry_limit, requeue_after_jitter, fail, retry_or_fail,
}
use k8s_ops_platform.Controller.Reconcile.{
  accept, start, finish_execution, after_execute, execute, after_prepare, prepare_and_execute, run,
  succeed, after_verify, verify, dispatch, reconcile_action,
}

-- One status is sent, and it meets `P`.
abbrev pub Sends : (ActionStatus → Type 0) → List ActionStatus → List ActionStatus → Type 0
Sends P sent sent' = (t : ActionStatus) × (sent' ≡ t ∷ sent) × P t

pub Sends-map :
    {P Q : ActionStatus → Type 0} {sent sent' : List ActionStatus}
    → ((t : ActionStatus) → P t → Q t)
    → Sends P sent sent'
    → Sends Q sent sent'
Sends-map f (t, e, p) = (t, e, f t p)

-- A status as another one left off, at a phase and a retry count.
abbrev pub IsAt : String → ℤ → ActionStatus → Type 0
IsAt phase count t = (t.phase ≡ phase) × (t.retry_count ≡ count)

-- The statuses that may follow a status at a phase.
pub data Step (limit : ℤ) (before t : ActionStatus) : Type 0 where
  -- one phase on
  forward :
      next_phase before.phase ≡ (t.phase, true)
      → t.retry_count ≡ before.retry_count
      → Step limit before t
  -- a checkpoint or a message, while running
  checkpoint :
      before.phase ≡ running
      → t.phase ≡ running
      → t.retry_count ≡ before.retry_count
      → Step limit before t
  -- an error that is to be retried
  retry :
      (before.phase ≡ running) ⊎ (before.phase ≡ verifying)
      → t.phase ≡ before.phase
      → t.retry_count ≡ inc_int32 before.retry_count
      → leb_ℤ limit t.retry_count ≡ false
      → Step limit before t
  -- the last error, a timeout, an unknown phase or an unknown type
  give_up :
      terminal before.phase ≡ false
      → t.phase ≡ failed
      → (t.retry_count ≡ before.retry_count) ⊎ (t.retry_count ≡ inc_int32 before.retry_count)
      → Step limit before t

Step-transport :
    {limit : ℤ} {b c t : ActionStatus}
    → b.phase ≡ c.phase
    → b.retry_count ≡ c.retry_count
    → Step limit b t
    → Step limit c t
Step-transport p q (forward e n) = forward (rw p at e) (n ∙ q)
Step-transport p q (checkpoint e f n) = checkpoint (sym p ∙ e) f (n ∙ q)
Step-transport p q (retry w e n l) = retry (ground arith) (e ∙ p) (n ∙ ap inc_int32 q) l
Step-transport p q (give_up e f n) = give_up (rw p at e) f (ground arith)

pub Step-of_progress :
    {limit : ℤ} {b c t : ActionStatus} → progress b ≡ progress c → Step limit b t → Step limit c t
Step-of_progress {t} e st =
    Step-transport (ap (λ (p : Progress). p.phase) e) (ap (λ (p : Progress). p.retry_count) e) st

abbrev pub IsWorking : String → Type 0
IsWorking phase = (phase ≡ running) ⊎ (phase ≡ verifying)

pub working_not_terminal : (phase : String) → IsWorking phase → terminal phase ≡ false
unfolding terminal
working_not_terminal phase (inl e) = rw e refl
working_not_terminal phase (inr e) = rw e refl

module _ {k : Kube} (r : Reconciler k) where
  pub observe_if_saved-updates :
      (now : M k.World ℕ) (result : String) (saved : Reply k × Action) (s : State k)
      → (observe_if_saved now result saved s).1.updates ≡ s.updates
  unfolding observe_if_saved
  observe_if_saved-updates now result ((q, some e), answer) s = refl
  observe_if_saved-updates now result ((q, none), answer) s = refl

  pub fail-Sends :
      (a : Action) (cause : Err k) (s : State k)
      → Sends (IsAt failed a.status.retry_count) s.updates (fail r a cause s).1.updates
  unfolding fail update_status
  fail-Sends a cause s = (_, observe_if_saved-updates _ _ _ _, (refl, refl))

  pub requeue_after_jitter-updates :
      (reply : Reply k) (s : State k) → (requeue_after_jitter reply s).1.updates ≡ s.updates
  requeue_after_jitter-updates (q, some e) s = refl
  requeue_after_jitter-updates (q, none) s = refl

  pub retry_or_fail-Step :
      (a : Action) (cause : Err k) (s : State k)
      → IsWorking a.status.phase
      → Sends (Step (retry_limit r) a.status) s.updates (retry_or_fail r a cause s).1.updates
  unfolding retry_or_fail update_status
  retry_or_fail-Step a cause s w =
      elim (Bool-cases (leb_ℤ (retry_limit r) (inc_int32 a.status.retry_count))) [
        | inl spent ↦
            rw (spent, retry_or_fail)
              (Sends-map (λ t p. give_up (working_not_terminal _ w) p.0 (inr p.1))
                (fail-Sends _ _ _))
        | inr left ↦
            rw (left, retry_or_fail) (_, requeue_after_jitter-updates _ _, retry w refl refl left)
      ]
