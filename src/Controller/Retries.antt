-- ===== src/Controller/Retries.antt =====
-- The life of an Action under the reconciler: which statuses it may come to, and how often it is
-- retried.
use k8s_ops_platform.Prelude.{String, some, true, false, ◌≡◌, ◌⊎◌, inl, inr, arith, eq_iff}
use k8s_ops_platform.Prelude.Int.{ℤ, ◌≤ℤ◌, ◌<ℤ◌, inc_int32}
use k8s_ops_platform.Api.{Action, ActionStatus, pending, running, verifying, succeeded, failed}
use k8s_ops_platform.Kube.{Kube}
use k8s_ops_platform.Action.{Executor}
use k8s_ops_platform.Action.Contract.{IsWellBehaved}
use k8s_ops_platform.Controller.{State, Reconciler}
use k8s_ops_platform.Controller.Phases.{next_phase, terminal}
use k8s_ops_platform.Controller.Effects.{retry_limit}
use k8s_ops_platform.Controller.Reconcile.{reconcile_action}
use k8s_ops_platform.Controller.Steps.{Sends, Sends-map, Step, forward, checkpoint, retry, give_up}
use k8s_ops_platform.Controller.Steps.Phases.{reconcile_action-Step}

-- The statuses that an Action comes to from its creation on, when each one that is sent is stored.
pub data Reached (limit : ℤ) : ActionStatus → Type 0 where
  fresh : (t : ActionStatus) → t.phase ≡ "" → t.retry_count ≡ ℤ.pos 0 → Reached limit t
  later :
      (before t : ActionStatus)
      → Reached limit before
      → terminal before.phase ≡ false
      → Step limit before t
      → Reached limit t

abbrev IsPhase : String → Type 0
IsPhase p =
    (p ≡ "") ⊎ (p ≡ pending) ⊎ (p ≡ running) ⊎ (p ≡ verifying) ⊎ (p ≡ succeeded) ⊎ (p ≡ failed)

-- A status with a phase of the API, and with a retry count below the limit, which is met only once the
-- Action has failed.
pub record InBounds (limit : ℤ) (t : ActionStatus) : Type 0 where
  pub phase : IsPhase t.phase
  pub least : ℤ.pos 0 ≤ℤ t.retry_count
  pub most : t.retry_count ≤ℤ limit
  pub strict : (t.phase ≡ failed) ⊎ (t.retry_count <ℤ limit)

module _ (limit : ℤ) (positive : ℤ.pos 1 ≤ℤ limit) (small : limit ≤ℤ ℤ.pos 2147483647) where
  next_phase-IsPhase : (p q : String) → next_phase p ≡ (q, true) → IsPhase q
  unfolding next_phase
  next_phase-IsPhase p q h =
      ground (arith, eq_iff p "", eq_iff p pending, eq_iff p running, eq_iff p verifying)

  inc-bounds :
      (n : ℤ) → ℤ.pos 0 ≤ℤ n → n <ℤ limit → (ℤ.pos 0 ≤ℤ inc_int32 n) × (inc_int32 n ≤ℤ limit)
  inc-bounds n p q = ground arith

  pub live-strict :
      (before : ActionStatus)
      → InBounds limit before
      → terminal before.phase ≡ false
      → before.retry_count <ℤ limit
  unfolding terminal
  live-strict before h live = ground (arith, h.strict, eq_iff before.phase failed)

  -- A retry count that is the one before, or one more.
  counted-InBounds :
      (before t : ActionStatus)
      → InBounds limit before
      → terminal before.phase ≡ false
      → IsPhase t.phase
      → (t.retry_count ≡ before.retry_count) ⊎ (t.retry_count ≡ inc_int32 before.retry_count)
      → (t.phase ≡ failed) ⊎ (t.retry_count <ℤ limit)
      → InBounds limit t
  counted-InBounds before t h live phase (inl n) strict = record {
    phase = phase;
    least = rw n h.least;
    most = rw n h.most;
    strict = strict;
  }
  counted-InBounds before t h live phase (inr n) strict =
      let (least, most) = inc-bounds before.retry_count h.least (live-strict before h live) in
      record { phase = phase; least = rw n least; most = rw n most; strict = strict }

  pub Step-InBounds :
      (before t : ActionStatus)
      → InBounds limit before
      → terminal before.phase ≡ false
      → Step limit before t
      → InBounds limit t
  Step-InBounds b t h live (forward e n) =
      counted-InBounds b t h live (next_phase-IsPhase _ _ e) (inl n)
        (inr (rw n (live-strict b h live)))
  Step-InBounds b t h live (checkpoint p q n) =
      counted-InBounds b t h live (ground arith) (inl n) (inr (rw n (live-strict b h live)))
  Step-InBounds b t h live (retry p q n l) =
      counted-InBounds b t h live (rw q h.phase) (inr n) (inr (ground arith))
  Step-InBounds b t h live (give_up l q n) = counted-InBounds b t h live (ground arith) n (inl q)

  pub Reached-InBounds : (t : ActionStatus) → Reached limit t → InBounds limit t
  Reached-InBounds _ (fresh t p n) = record {
    phase = inl p;
    least = ground arith;
    most = ground arith;
    strict = ground arith;
  }
  Reached-InBounds _ (later before t h live st) =
      Step-InBounds before t (Reached-InBounds before h) live st

-- An Action whose status is one that the reconciler may come to: every status that Reconcile sends is
-- again one of them, it has a phase of the API, its retry count lies between 0 and the limit, and is
-- below the limit unless the phase is Failed. The limit lies between 1 and the largest int32, and the
-- executors leave the controller's fields alone.
pub reconcile_action-InBounds :
    {k : Kube} (r : Reconciler k)
    → ((type : String) (ex : Executor k) → r.executors type ≡ some ex → IsWellBehaved ex)
    → ℤ.pos 1 ≤ℤ retry_limit r
    → retry_limit r ≤ℤ ℤ.pos 2147483647
    → (a : Action) → Reached (retry_limit r) a.status
    → (s : State k)
    → let s' = (reconcile_action r a s).1 in
      (s'.updates ≡ s.updates)
      ⊎ Sends (λ t. Reached (retry_limit r) t × InBounds (retry_limit r) t) s.updates s'.updates
reconcile_action-InBounds r behaved positive small a reached s =
    elim (reconcile_action-Step r behaved a s) [
      | inl quiet ↦ inl quiet
      | inr (live, sent) ↦ inr (
          Sends-map
            (λ t st.
              let next = later a.status t reached live st in
              (next, Reached-InBounds (retry_limit r) positive small t next))
            sent)
    ]
