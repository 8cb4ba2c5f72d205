-- ===== src/Controller/Outcomes.antt =====
-- The end of an Action: what fail and the success of a verification leave in the audit log and in
-- the metrics, for each answer of the API server.
use k8s_ops_platform.Prelude.{
  ℕ, String, Option, none, some, List, ◌∷◌, true, false, ◌≡◌, inl, inr, refl, sym, subst,
  Bool-cases,
}
use k8s_ops_platform.Api.{Action, ActionStatus}
use k8s_ops_platform.Kube.{Kube, Err, M}
use k8s_ops_platform.Kube.Errors.{api, as_error}
use k8s_ops_platform.Metrics.{MetricCall, observe_action}
use k8s_ops_platform.Controller.{State, Reconciler, Reply}
use k8s_ops_platform.Prelude.Int.{leb_ℤ, inc_int32}
use k8s_ops_platform.Action.{Executor}
use k8s_ops_platform.Controller.Effects.{
  update_status, observe_if_saved, fail, reply_of_update, with_status, retry_limit, retry_or_fail,
}
use k8s_ops_platform.Controller.Steps.{
  Sends, observe_if_saved-updates, requeue_after_jitter-updates,
}
use k8s_ops_platform.Controller.Reconcile.{succeed, after_prepare, prepare_and_execute}

-- How a final status ends, by the answer of the API server to its update: taken, refused for a
-- conflict, or lost.
pub data Ending (k : Kube) (result : String) (before after : List MetricCall)
    : Option k.ApiError × Action → Reply k → Type 0 where
  taken :
      (answer : Action) (duration : ℕ)
      → after ≡ observe_action answer result duration before
      → Ending k result before after
          (none, answer)
          (record { requeue = false; requeue_after = 0 }, none)
  conflict :
      (e : k.ApiError) (answer : Action) (duration : ℕ)
      → k.is_conflict (api e) ≡ true
      → after ≡ observe_action answer result duration before
      → Ending k result before after
          (some e, answer)
          (record { requeue = true; requeue_after = 0 }, none)
  lost :
      (e : k.ApiError) (answer : Action)
      → k.is_conflict (api e) ≡ false
      → after ≡ before
      → Ending k result before after
          (some e, answer)
          (record { requeue = false; requeue_after = 0 }, some (api e))

module _ {k : Kube} where
  pub observe_if_saved-audits :
      (now : M k.World ℕ) (result : String) (saved : Reply k × Action) (s : State k)
      → (observe_if_saved now result saved s).1.audits ≡ s.audits
  unfolding observe_if_saved
  observe_if_saved-audits now result ((q, some e), answer) s = refl
  observe_if_saved-audits now result ((q, none), answer) s = refl

  -- The effects that a reply to the update has on the metrics, and the reply.
  abbrev Ends : M k.World ℕ → String → Option k.ApiError → Action → State k → Reply k → Type 0
  Ends now result e answer s reply =
      let out = observe_if_saved now result (reply, answer) s in
      Ending k result s.calls out.1.calls (e, answer) out.0

  answered-Ending :
      (now : M k.World ℕ) (result : String) (e : Option k.ApiError) (answer : Action) (s : State k)
      → Ends now result e answer s (reply_of_update k false (as_error e))
  unfolding observe_if_saved
  answered-Ending now result none answer s = taken answer _ refl
  answered-Ending now result (some e) answer s = elim (Bool-cases (k.is_conflict (api e))) [
    | inl c ↦
        let refused : reply_of_update k false (some (api e))
            ≡ (record { requeue = true; requeue_after = 0 }, none) =
          rw c refl in
        subst (Ends now result (some e) answer s) (sym refused) (conflict e answer _ c refl)
    | inr c ↦
        let returned : reply_of_update k false (some (api e))
            ≡ (record { requeue = false; requeue_after = 0 }, some (api e)) =
          rw c refl in
        subst (Ends now result (some e) answer s) (sym returned) (lost e answer c refl)
  ]

  -- One audit record is left, with this result and this error, the status of the Action in it is sent
  -- to the API server, and the metrics are told of the end by its answer.
  abbrev pub Concludes : String → Option (Err k) → State k → Reply k × State k → Type 0
  Concludes result error s out =
      (b : Action) × (w : k.World) × (out.1.audits
        ≡ (record { action = b; result = result; error = error } ∷ s.audits))
      × (out.1.updates ≡ (b.status ∷ s.updates))
      × Ending k result s.calls out.1.calls (k.update_status b w).0 out.0

  fail-Concludes :
      (r : Reconciler k) (a : Action) (cause : Err k) (s : State k)
      → Concludes "failed" (some cause) s (fail r a cause s)
  unfolding fail update_status
  fail-Concludes r a cause s = (
    _,
    _,
    observe_if_saved-audits _ _ _ _,
    observe_if_saved-updates r _ _ _ _,
    answered-Ending _ _ _ _ _,
  )

  succeed-Concludes :
      (r : Reconciler k) (a : Action) (s : State k) → Concludes "succeeded" none s (succeed r a s)
  unfolding succeed update_status
  succeed-Concludes r a s = (
    _,
    _,
    observe_if_saved-audits _ _ _ _,
    observe_if_saved-updates r _ _ _ _,
    answered-Ending _ _ _ _ _,
  )

  -- An attempt to store the status Failed leaves one audit record, with the cause, and one to store the
  -- status Succeeded leaves one without an error, whatever the API server answers, and the status of the
  -- record is the one that is sent. The metrics count the failure or the success when the API server
  -- answers without an error, and also when it answers with a conflict, after which the action is to be
  -- reconciled again; any other error of it is returned, and then nothing is counted.
  pub ends-Concludes :
      (r : Reconciler k) (a : Action) (cause : Err k) (s : State k)
      → Concludes "failed" (some cause) s (fail r a cause s)
        × Concludes "succeeded" none s (succeed r a s)
  ends-Concludes r a cause s = (fail-Concludes r a cause s, succeed-Concludes r a s)

-- The fields that an executor keeps in a status.
pub record Checkpoint : Type 0 where
  pub execution_state : String
  pub target_uid : String
  pub workload_kind : String
  pub workload_name : String

abbrev pub checkpoint_of : ActionStatus → Checkpoint
checkpoint_of t = record {
  execution_state = t.execution_state;
  target_uid = t.target_uid;
  workload_kind = t.workload_kind;
  workload_name = t.workload_name;
}

module _ {k : Kube} (r : Reconciler k) where
  -- One status is sent, with the checkpoint of another.
  abbrev pub SendsCheckpoint : ActionStatus → State k → State k → Type 0
  SendsCheckpoint t s s' = Sends (λ u. checkpoint_of u ≡ checkpoint_of t) s.updates s'.updates

  fail-SendsCheckpoint :
      (a : Action) (cause : Err k) (s : State k) → SendsCheckpoint a.status s (fail r a cause s).1
  unfolding fail update_status
  fail-SendsCheckpoint a cause s = (_, observe_if_saved-updates r _ _ _ _, refl)

  retry_or_fail-SendsCheckpoint :
      (a : Action) (cause : Err k) (s : State k)
      → SendsCheckpoint a.status s (retry_or_fail r a cause s).1
  unfolding retry_or_fail update_status
  retry_or_fail-SendsCheckpoint a cause s =
      elim (Bool-cases (leb_ℤ (retry_limit r) (inc_int32 a.status.retry_count))) [
        | inl spent ↦ rw (spent, retry_or_fail) (fail-SendsCheckpoint _ _ _)
        | inr left ↦ rw (left, retry_or_fail) (_, requeue_after_jitter-updates r _ _, refl)
      ]

  -- When Prepare fails, one status is sent, for a retry or for the failure, and it has the checkpoint
  -- that Prepare left behind, whatever that is.
  pub prepare_and_execute-SendsCheckpoint :
      (ex : Executor k) (prepare : Action → M k.World (Option (Err k) × ActionStatus)) (a : Action)
      (s : State k) (e : Err k) (t : ActionStatus)
      → ex.prepare ≡ some prepare
      → (prepare a s.world).0 ≡ (some e, t)
      → SendsCheckpoint t s (prepare_and_execute r ex a s).1
  unfolding prepare_and_execute after_prepare
  prepare_and_execute-SendsCheckpoint ex prepare a s e t known failed =
      rw (known, prepare_and_execute)
        (rw (failed, after_prepare) (retry_or_fail-SendsCheckpoint (with_status a t) e _))
