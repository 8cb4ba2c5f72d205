-- ===== src/Controller/Life.antt =====
-- How long an Action can be worked on: the statuses that the reconciler sends in its life, counted.
use k8s_ops_platform.Prelude.{
  ℕ, suc, String, some, List, ◌∷◌, true, false, ◌+◌, ◌-◌, ◌≤◌, ◌<◌, ◌≡◌, ◌≢◌, ◌⊎◌, ◌==◌, inl, inr,
  refl, ap, sym, ◌∙◌, subst, arith, eq_iff, length, if◌then◌else◌,
}
use k8s_ops_platform.Prelude.Int.{ℤ, ◌≤ℤ◌, ◌<ℤ◌, inc_int32, pos_part}
use k8s_ops_platform.Api.{Action, ActionStatus, pending, running, verifying, succeeded, failed}
use k8s_ops_platform.Kube.{Kube}
use k8s_ops_platform.Action.{Executor}
use k8s_ops_platform.Action.Contract.{IsWellBehaved}
use k8s_ops_platform.Controller.{State, Reconciler}
use k8s_ops_platform.Controller.Phases.{next_phase, terminal}
use k8s_ops_platform.Controller.Effects.{retry_limit}
use k8s_ops_platform.Controller.Reconcile.{reconcile_action}
use k8s_ops_platform.Controller.Steps.{Sends, Step, forward, checkpoint, retry, give_up}
use k8s_ops_platform.Controller.Steps.Phases.{reconcile_action-Step}
use k8s_ops_platform.Controller.Retries.{
  InBounds, fresh, Reached-InBounds, live-strict, Step-InBounds,
}

-- A part of an Action's life: each status is one that Reconcile sends for the Action with the status
-- before, whatever the world is by then. The number counts the statuses that have another phase or
-- another retry count than the one before.
pub data Life {k : Kube} (r : Reconciler k) : ℕ → ActionStatus → ActionStatus → Type 0 where
  over : (t : ActionStatus) → Life r 0 t t
  keeps :
      (n : ℕ) (a : Action) (s : State k) (b c t : ActionStatus)
      → a.status ≡ b
      → (reconcile_action r a s).1.updates ≡ c ∷ s.updates
      → c.phase ≡ b.phase
      → c.retry_count ≡ b.retry_count
      → Life r n c t
      → Life r n b t
  moves :
      (n : ℕ) (a : Action) (s : State k) (b c t : ActionStatus)
      → a.status ≡ b
      → (reconcile_action r a s).1.updates ≡ c ∷ s.updates
      → (c.phase ≢ b.phase) ⊎ (c.retry_count ≢ b.retry_count)
      → Life r n c t
      → Life r (suc n) b t

-- How many phases are ahead at most.
unfoldable rank : String → ℕ
rank phase =
    if terminal phase
    then 0
    else if phase == verifying
    then 1
    else if phase == running
    then 2
    else if phase == pending
    then 3
    else 4

next_phase-cases :
    (p q : String)
    → next_phase p ≡ (q, true)
    → ((p ≡ "") × (q ≡ pending))
      ⊎ ((p ≡ pending) × (q ≡ running))
      ⊎ ((p ≡ running) × (q ≡ verifying))
      ⊎ ((p ≡ verifying) × (q ≡ succeeded))
unfolding next_phase
next_phase-cases p q h =
    ground (arith, eq_iff p "", eq_iff p pending, eq_iff p running, eq_iff p verifying)

rank-next_phase : (p q : String) → next_phase p ≡ (q, true) → rank p ≡ suc (rank q)
unfolding rank terminal
rank-next_phase p q h = elim (next_phase-cases p q h) [
  | inl (e, f) ↦ rw (e, f) refl
  | inr (inl (e, f)) ↦ rw (e, f) refl
  | inr (inr (inl (e, f))) ↦ rw (e, f) refl
  | inr (inr (inr (e, f))) ↦ rw (e, f) refl
]

rank-live : (p : String) → terminal p ≡ false → 1 ≤ rank p
unfolding rank
rank-live p live = ground arith

rank-failed : (p : String) → p ≡ failed → rank p ≡ 0
unfolding rank terminal
rank-failed p e = rw e refl

module _ (limit : ℤ) where
  -- The phases and the retries that are ahead.
  abbrev ahead : ActionStatus → ℕ
  ahead t = rank t.phase + (pos_part limit - pos_part t.retry_count)

  ahead-same :
      (b c : ActionStatus) → c.phase ≡ b.phase → c.retry_count ≡ b.retry_count → ahead c ≡ ahead b
  ahead-same b c p q = rw (p, q) refl

  ahead-fresh :
      (b : ActionStatus) → b.phase ≡ "" → b.retry_count ≡ ℤ.pos 0 → ahead b ≡ 4 + pos_part limit
  unfolding rank terminal
  ahead-fresh b p q = rw (p, q) (omega arith)

  inc-ahead :
      (n : ℤ) (r : ℕ)
      → ℤ.pos 0 ≤ℤ n
      → n <ℤ limit
      → limit ≤ℤ ℤ.pos 2147483647
      → r + (pos_part limit - pos_part (inc_int32 n)) < r + (pos_part limit - pos_part n)
  inc-ahead n r p q small = ground arith

  Step-ahead :
      (b t : ActionStatus)
      → InBounds limit b
      → terminal b.phase ≡ false
      → ℤ.pos 1 ≤ℤ limit
      → limit ≤ℤ ℤ.pos 2147483647
      → Step limit b t
      → (t.phase ≢ b.phase) ⊎ (t.retry_count ≢ b.retry_count)
      → ahead t < ahead b
  Step-ahead b t h live positive small (forward e n) changed =
      rw n (omega (arith, rank-next_phase b.phase t.phase e))
  Step-ahead b t h live positive small (checkpoint p q n) changed = ground arith
  Step-ahead b t h live positive small (retry p q n l) changed =
      rw (q, n)
        (inc-ahead b.retry_count (rank b.phase) h.least (live-strict limit positive small b h live)
          small)
  Step-ahead b t h live positive small (give_up l q (inl n)) changed =
      rw n (omega (arith, rank-live b.phase live, rank-failed t.phase q))
  Step-ahead b t h live positive small (give_up l q (inr n)) changed =
      let less =
        inc-ahead b.retry_count (rank b.phase) h.least (live-strict limit positive small b h live)
          small in
      rw n (omega (arith, rank-live b.phase live, rank-failed t.phase q, less))

-- The status that Reconcile sent is the one that was found to follow.
sent-eq :
    (P : ActionStatus → Type 0) (xs ys : List ActionStatus) (c : ActionStatus)
    → ys ≡ c ∷ xs
    → Sends P xs ys
    → P c
sent-eq P xs ys c e (t, e', p) = let same : t ≡ c = cc (sym e' ∙ e) in subst P same p

not-same : (xs : List ActionStatus) (c : ActionStatus) → c ∷ xs ≢ xs
not-same xs c e = omega (arith, ap length e)

le_lt_trans : (n x y z : ℕ) → n + x ≤ y → y < z → suc n + x ≤ z
le_lt_trans n x y z p q = omega arith

le_of_add : (n x y : ℕ) → n + x ≤ y → n ≤ y
le_of_add n x y p = omega arith

module _ {k : Kube} (r : Reconciler k)
    (behaved : (type : String) (ex : Executor k) → r.executors type ≡ some ex → IsWellBehaved ex)
    (positive : ℤ.pos 1 ≤ℤ retry_limit r) (small : retry_limit r ≤ℤ ℤ.pos 2147483647) where
  sent-Step :
      (a : Action) (s : State k) (c : ActionStatus)
      → (reconcile_action r a s).1.updates ≡ c ∷ s.updates
      → (terminal a.status.phase ≡ false) × Step (retry_limit r) a.status c
  sent-Step a s c sent = elim (reconcile_action-Step r behaved a s) [
    | inl quiet ↦ absurd (not-same s.updates c (sym sent ∙ quiet))
    | inr (live, sends) ↦ (live, sent-eq _ _ _ c sent sends)
  ]

  Life-ahead :
      (n : ℕ) (b t : ActionStatus)
      → InBounds (retry_limit r) b
      → Life r n b t
      → n + ahead (retry_limit r) t ≤ ahead (retry_limit r) b
  Life-ahead _ _ _ h (over t) = omega arith
  Life-ahead _ _ _ h (keeps n a s b c t e sent p q life) =
      let kept : InBounds (retry_limit r) c = record {
        phase = rw p h.phase;
        least = rw q h.least;
        most = rw q h.most;
        strict = rw (p, q) h.strict;
      } in
      subst (λ x. n + ahead (retry_limit r) t ≤ x) (ahead-same (retry_limit r) b c p q)
        (Life-ahead n c t kept life)
  Life-ahead _ _ _ h (moves n a s b c t e sent changed life) =
      let (live, st) =
        subst (λ (x : ActionStatus). (terminal x.phase ≡ false) × Step (retry_limit r) x c) e
          (sent-Step a s c sent) in
      let next = Step-InBounds (retry_limit r) positive small b c h live st in
      le_lt_trans n _ _ _ (Life-ahead n c t next life)
        (Step-ahead (retry_limit r) b c h live positive small st changed)

  -- From its creation to any later status, an Action gets another phase or another retry count at most
  -- as many times as there are phases and retries: 4 + the limit. So only statuses that change
  -- neither, the checkpoints of a running executor, can be sent without end. The limit lies between
  -- 1 and the largest int32, and the executors leave the controller's fields alone.
  pub Life-length :
      (n : ℕ) (b t : ActionStatus)
      → b.phase ≡ ""
      → b.retry_count ≡ ℤ.pos 0
      → Life r n b t
      → n ≤ 4 + pos_part (retry_limit r)
  Life-length n b t p q life =
      let start = Reached-InBounds (retry_limit r) positive small b (fresh b p q) in
      le_of_add n _ _ (
        subst (λ x. n + ahead (retry_limit r) t ≤ x) (ahead-fresh (retry_limit r) b p q)
          (Life-ahead n b t start life))
