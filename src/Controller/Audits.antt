-- ===== src/Controller/Audits.antt =====
-- The audit log next to the statuses: what each part of the reconciler records, and what it sends.
pub mod Phases
use k8s_ops_platform.Prelude.{
  ℕ, String, Option, none, some, List, ◌∷◌, Bool, true, false, ◌≡◌, ◌⊎◌, inl, inr, refl, ap, sym,
  ◌∙◌, subst, Bool-cases, Option-cases,
}
use k8s_ops_platform.Api.{
  Action, ActionStatus, pending, running, verifying, succeeded, failed, deep_copy_value,
}
use k8s_ops_platform.Api.Equality.{status_eq}
use k8s_ops_platform.Prelude.Int.{leb_ℤ, inc_int32}
use k8s_ops_platform.Kube.{Kube, Err, M}
use k8s_ops_platform.Kube.Errors.{Result, ok, err, is_in_progress}
use k8s_ops_platform.Action.{Executor}
use k8s_ops_platform.Action.Contract.{Progress, progress, KeepsIfAny, IsWellBehaved}
use k8s_ops_platform.Controller.{State, AuditEntry, Reconciler, Reply}
use k8s_ops_platform.Controller.Phases.{terminal}
use k8s_ops_platform.Controller.Effects.{
  with_status, error_text, update_status, observe_if_saved, requeue_after_jitter, retry_limit,
  timed_out, fail, retry_or_fail,
}
use k8s_ops_platform.Controller.Reconcile.{
  accept, start, finish_execution, after_execute, execute, after_prepare, prepare_and_execute, run,
  succeed, after_verify, verify, dispatch, reconcile_action,
}
use k8s_ops_platform.Controller.Outcomes.{observe_if_saved-audits}
use k8s_ops_platform.Controller.Steps.{
  observe_if_saved-updates, requeue_after_jitter-updates, working_not_terminal,
}
use k8s_ops_platform.Controller.Steps.Cases.{
  unset, is_pending, is_running, is_verifying, other, phase_cases, named, still_running,
}

-- The changes of the phase that are written to the audit log, with the status after, and the result
-- and the error of the record.
pub data Milestone (k : Kube) (phase : String) (t : ActionStatus)
    : String → Option (Err k) → Type 0 where
  begun : phase ≡ pending → t.phase ≡ running → Milestone k phase t "started" none
  recovered : phase ≡ verifying → t.phase ≡ succeeded → Milestone k phase t "succeeded" none
  given_up :
      (e : Err k)
      → terminal phase ≡ false
      → t.phase ≡ failed
      → t.message ≡ error_text k e
      → Milestone k phase t "failed" (some e)

-- What a reconciliation of an action at a phase does to the audit log, by the status it sends: the
-- statuses that were sent and the log, before and after.
pub data Accounts {k : Kube} (phase : String) (sent : List ActionStatus) (log : List (AuditEntry k))
    (sent' : List ActionStatus) (log' : List (AuditEntry k)) : Type 0 where
  quiet : sent' ≡ sent → log' ≡ log → Accounts phase sent log sent' log'
  unaudited :
      (t : ActionStatus)
      → sent' ≡ t ∷ sent
      → (t.phase ≡ phase) ⊎ (t.phase ≡ pending) ⊎ (t.phase ≡ verifying)
      → log' ≡ log
      → Accounts phase sent log sent' log'
  audited :
      (entry : AuditEntry k)
      → sent' ≡ entry.action.status ∷ sent
      → log' ≡ entry ∷ log
      → Milestone k phase entry.action.status entry.result entry.error
      → Accounts phase sent log sent' log'

pub Accounts-phase :
    {k : Kube} {p q : String} {sent sent' : List ActionStatus} {log log' : List (AuditEntry k)}
    → p ≡ q
    → Accounts p sent log sent' log'
    → Accounts q sent log sent' log'
Accounts-phase {sent} {sent'} {log} {log'} e = subst (λ phase. Accounts phase sent log sent' log') e

module _ {k : Kube} (r : Reconciler k) where
  -- The log and the statuses agree on the way from `s` to `s'`, for an action with the phase of `a`.
  abbrev pub Tells : Action → State k → State k → Type 0
  Tells a s s' = Accounts a.status.phase s.updates s.audits s'.updates s'.audits

  requeue_after_jitter-audits :
      (reply : Reply k) (s : State k) → (requeue_after_jitter reply s).1.audits ≡ s.audits
  requeue_after_jitter-audits (q, some e) s = refl
  requeue_after_jitter-audits (q, none) s = refl

  pub fail-Tells :
      (a : Action) (cause : Err k) (s : State k)
      → terminal a.status.phase ≡ false
      → Tells a s (fail r a cause s).1
  unfolding fail update_status
  fail-Tells a cause s live =
      audited _ (observe_if_saved-updates r _ _ _ _) (observe_if_saved-audits _ _ _ _)
        (given_up cause live refl refl)

  pub retry_or_fail-Tells :
      (a : Action) (cause : Err k) (s : State k)
      → terminal a.status.phase ≡ false
      → Tells a s (retry_or_fail r a cause s).1
  unfolding retry_or_fail update_status
  retry_or_fail-Tells a cause s live =
      elim (Bool-cases (leb_ℤ (retry_limit r) (inc_int32 a.status.retry_count))) [
        | inl spent ↦ rw (spent, retry_or_fail) (fail-Tells _ _ _ live)
        | inr left ↦
            rw (left, retry_or_fail)
              (unaudited _ (requeue_after_jitter-updates r _ _) (inl refl)
                (requeue_after_jitter-audits _ _))
      ]

  pub accept-Tells : (a : Action) (s : State k) → Tells a s (accept a s).1
  unfolding accept update_status
  accept-Tells a s = unaudited _ refl (inr (inl refl)) refl

  pub start-Tells :
      (a : Action) (s : State k) → a.status.phase ≡ pending → Tells a s (start r a s).1
  unfolding start update_status
  start-Tells a s e = audited _ refl refl (begun e refl)

  finish_execution-Tells :
      (a : Action) (t : ActionStatus) (s : State k)
      → Tells a s (finish_execution (with_status a t) s).1
  unfolding finish_execution update_status
  finish_execution-Tells a t s = unaudited _ refl (inr (inr refl)) refl

  succeed-Tells :
      (a : Action) (s : State k) → a.status.phase ≡ verifying → Tells a s (succeed r a s).1
  unfolding succeed update_status
  succeed-Tells a s e =
      audited _ (observe_if_saved-updates r _ _ _ _) (observe_if_saved-audits _ _ _ _)
        (recovered e refl)

  after_verify-Tells :
      (a : Action) (verified : Result (Err k) Bool) (s : State k)
      → a.status.phase ≡ verifying
      → Tells a s (after_verify r a verified s).1
  unfolding after_verify
  after_verify-Tells a (err e) s p = retry_or_fail-Tells a e s (working_not_terminal _ (inr p))
  after_verify-Tells a (ok false) s p = quiet refl refl
  after_verify-Tells a (ok true) s p = succeed-Tells a s p

  pub verify-Tells :
      (ex : Executor k) (a : Action) (s : State k)
      → a.status.phase ≡ verifying
      → Tells a s (verify r ex a s).1
  unfolding verify
  verify-Tells ex a s p = elim (Bool-cases (timed_out r a s).0) [
    | inl late ↦ rw (late, verify) (fail-Tells a _ _ (working_not_terminal _ (inr p)))
    | inr early ↦ rw (early, verify) (after_verify-Tells a _ _ p)
  ]
