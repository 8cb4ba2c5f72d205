-- ===== src/Controller/Drive.antt =====
-- Reconciliations one after the other, as the controller's queue runs them.
use k8s_ops_platform.Prelude.{
  ◌≤◌, arith, ℕ, zero, suc, String, some, List, [], ◌∷◌, true, false, ◌≡◌, ◌==◌, refl, ap, sym, ◌∙◌,
  subst,
}
use k8s_ops_platform.Api.{Action, ActionStatus, pending, running, verifying, succeeded}
use k8s_ops_platform.Kube.{Kube}
use k8s_ops_platform.Action.{Executor}
use k8s_ops_platform.Controller.{State, Reconciler, Reply}
use k8s_ops_platform.Controller.Phases.{terminal}
use k8s_ops_platform.Controller.Effects.{with_status, timed_out}
use k8s_ops_platform.Controller.Reconcile.{accept, start, run, verify, dispatch, reconcile_action}
use k8s_ops_platform.Controller.Steps.{Sends}

abbrev pub latest : ActionStatus → List ActionStatus → ActionStatus
latest old [] = old
latest old (t ∷ ts) = t

-- The Action and the state after a reconciliation, where the API server stores the status it sends.
abbrev pub after : {k : Kube} → Reconciler k → Action → State k → Action × State k
after r a s =
    let s' = (reconcile_action r a s).1 in (with_status a (latest a.status s'.updates), s')

unfoldable pub drive : {k : Kube} → Reconciler k → ℕ → Action → State k → Action × State k
drive r zero a s = (a, s)
drive r (suc n) a s = drive r n (after r a s).0 (after r a s).1

-- The phase and the execution state after each of the reconciliations.
unfoldable pub visits : {k : Kube} → Reconciler k → ℕ → Action → State k → List (String × String)
visits r zero a s = []
visits r (suc n) a s =
    let t = (after r a s).0.status in
    (t.phase, t.execution_state) ∷ visits r n (after r a s).0 (after r a s).1

latest-Sends :
    (P : ActionStatus → Type 0) (old : ActionStatus) (xs ys : List ActionStatus)
    → Sends P xs ys
    → P (latest old ys)
latest-Sends P old xs ys (t, e, p) = subst (λ zs. P (latest old zs)) (sym e) p

module _ {k : Kube} (r : Reconciler k) where
  -- What a reconciliation sends is what is stored after it.
  pub stored :
      (P : ActionStatus → Type 0) (a : Action) (s : State k) (out : Reply k × State k)
      → reconcile_action r a s ≡ out
      → Sends P s.updates out.1.updates
      → P (after r a s).0.status
  stored P a s out e sends =
      latest-Sends P a.status s.updates _
        (subst (λ (o : Reply k × State k). Sends P s.updates o.1.updates) (sym e) sends)

  module _ (ex : Executor k) (a : Action) (s : State k)
      (known : r.executors a.spec.action_type ≡ some ex) where
    -- Reconcile of an Action with a known executor, in a phase that is not final, is its switch.
    reconcile_action-dispatch :
        terminal a.status.phase ≡ false → reconcile_action r a s ≡ dispatch r ex a s
    unfolding reconcile_action
    reconcile_action-dispatch live = rw (live, reconcile_action) (rw (known, reconcile_action) refl)

    -- The four cases of the switch.
    pub reconcile_action-accept : a.status.phase ≡ "" → reconcile_action r a s ≡ accept a s
    unfolding dispatch terminal
    reconcile_action-accept e =
        let unset : (a.status.phase == "") ≡ true = ap (λ p. p == "") e in
        reconcile_action-dispatch (rw e refl) ∙ rw (unset, dispatch) refl

    pub reconcile_action-start : a.status.phase ≡ pending → reconcile_action r a s ≡ start r a s
    unfolding dispatch terminal
    reconcile_action-start e =
        let set : (a.status.phase == "") ≡ false = ap (λ p. p == "") e in
        let waiting : (a.status.phase == pending) ≡ true = ap (λ p. p == pending) e in
        reconcile_action-dispatch (rw e refl) ∙ rw (set, waiting, dispatch) refl

    pub reconcile_action-run : a.status.phase ≡ running → reconcile_action r a s ≡ run r ex a s
    unfolding dispatch terminal
    reconcile_action-run e =
        let set : (a.status.phase == "") ≡ false = ap (λ p. p == "") e in
        let begun : (a.status.phase == pending) ≡ false = ap (λ p. p == pending) e in
        let at_work : (a.status.phase == running) ≡ true = ap (λ p. p == running) e in
        reconcile_action-dispatch (rw e refl) ∙ rw (set, begun, at_work, dispatch) refl

    pub reconcile_action-verify :
        a.status.phase ≡ verifying → reconcile_action r a s ≡ verify r ex a s
    unfolding dispatch terminal
    reconcile_action-verify e =
        let set : (a.status.phase == "") ≡ false = ap (λ p. p == "") e in
        let begun : (a.status.phase == pending) ≡ false = ap (λ p. p == pending) e in
        let done : (a.status.phase == running) ≡ false = ap (λ p. p == running) e in
        let checked : (a.status.phase == verifying) ≡ true = ap (λ p. p == verifying) e in
        reconcile_action-dispatch (rw e refl) ∙ rw (set, begun, done, checked, dispatch) refl

-- One status is sent, and something holds of it and of the world then.
abbrev pub SendsTo :
    {k : Kube} → (ActionStatus → k.World → Type 0) → State k → Reply k × State k → Type 0
SendsTo P s out = (u : ActionStatus) × (out.1.updates ≡ (u ∷ s.updates)) × P u out.1.world

module _ {k : Kube} (r : Reconciler k) where
  -- The Action is not late in this run: no reconciliation finds that its deadline has passed.
  abbrev pub IsInTime : Action → State k → Type 0
  IsInTime a s = (n : ℕ) → (timed_out r (drive r n a s).0 (drive r n a s).1).0 ≡ false

  pub IsInTime-now : (a : Action) (s : State k) → IsInTime a s → (timed_out r a s).0 ≡ false
  unfolding drive
  IsInTime-now a s in_time = in_time 0

  pub IsInTime-after :
      (a : Action) (s : State k) → IsInTime a s → IsInTime (after r a s).0 (after r a s).1
  unfolding drive
  IsInTime-after a s in_time n = in_time (suc n)

  -- Succeeded within a number of reconciliations.
  abbrev pub Succeeds : ℕ → Action → State k → Type 0
  Succeeds b a s = (n : ℕ) × (n ≤ b) × ((drive r n a s).0.status.phase ≡ succeeded)

  pub one_more :
      (b : ℕ) (a : Action) (s : State k)
      → Succeeds b (after r a s).0 (after r a s).1
      → Succeeds (suc b) a s
  unfolding drive
  one_more b a s (n, h, e) = (suc n, omega (arith, h), e)

  pub Succeeds-more : (b c : ℕ) (a : Action) (s : State k) → b ≤ c → Succeeds b a s → Succeeds c a s
  Succeeds-more b c a s h (n, few, e) = (n, omega (arith, few, h), e)

  -- One reconciliation is enough, when it sends Succeeded.
  pub Succeeds-once :
      (a : Action) (s : State k)
      → Sends (λ t. t.phase ≡ succeeded) s.updates (reconcile_action r a s).1.updates
      → Succeeds 1 a s
  unfolding drive
  Succeeds-once a s sends = (1, omega arith, stored r (λ t. t.phase ≡ succeeded) a s _ refl sends)

  -- The status and the state after a reconciliation of an Action with another status.
  abbrev pub next_status : Action → ActionStatus → State k → ActionStatus × State k
  next_status a t s =
      let s' = (reconcile_action r (with_status a t) s).1 in (latest t s'.updates, s')

  -- The Action is in a phase, something holds of the world, and the newest status sent is the Action's.
  abbrev pub IsAtStage : String → (k.World → Type 0) → ActionStatus × State k → Type 0
  IsAtStage phase Holds (t, s) = (t.phase ≡ phase) × Holds s.world × (latest t s.updates ≡ t)

  latest-again : (t : ActionStatus) (us : List ActionStatus) → latest (latest t us) us ≡ latest t us
  latest-again t [] = refl
  latest-again t (u ∷ us) = refl

  pub next-IsAtStage :
      (a : Action) (phase : String) (Holds : k.World → Type 0) (t : ActionStatus) (s : State k)
      (out : Reply k × State k)
      → reconcile_action r (with_status a t) s ≡ out
      → Sends (λ u. u.phase ≡ phase) s.updates out.1.updates
      → Holds out.1.world
      → IsAtStage phase Holds (next_status a t s)
  next-IsAtStage a phase Holds t s out e sends holds = (
    stored r (λ u. u.phase ≡ phase) (with_status a t) s out e sends,
    subst (λ (o : Reply k × State k). Holds o.1.world) (sym e) holds,
    latest-again t (next_status a t s).1.updates,
  )

  -- A run is in time when its first reconciliation is and the rest is.
  pub IsInTime-cons :
      (a : Action) (s : State k)
      → (timed_out r a s).0 ≡ false
      → IsInTime (after r a s).0 (after r a s).1
      → IsInTime a s
  unfolding drive
  IsInTime-cons a s now later zero = now
  IsInTime-cons a s now later (suc n) = later n

  -- An Action that has ended stays as it is, and so does the state.
  after-ended :
      (a : Action) (s : State k)
      → terminal a.status.phase ≡ true
      → latest a.status s.updates ≡ a.status
      → after r a s ≡ (a, s)
  unfolding reconcile_action
  after-ended a s ended newest =
      rw (ended, reconcile_action) (ap (λ t. (with_status a t, s)) newest)

  pub IsInTime-ended :
      (a : Action) (s : State k)
      → terminal a.status.phase ≡ true
      → latest a.status s.updates ≡ a.status
      → (timed_out r a s).0 ≡ false
      → IsInTime a s
  unfolding drive
  IsInTime-ended a s ended newest now zero = now
  IsInTime-ended a s ended newest now (suc n) =
      subst
        (λ (x : Action × State k).
          (timed_out r (drive r n x.0 x.1).0 (drive r n x.0 x.1).1).0 ≡ false)
        (sym (after-ended a s ended newest)) (IsInTime-ended a s ended newest now n)

  -- What holds of the status that is sent, and of the world then, holds of what is stored.
  pub next-SendsTo :
      (a : Action) (P : ActionStatus → k.World → Type 0) (t : ActionStatus) (s : State k)
      (out : Reply k × State k)
      → reconcile_action r (with_status a t) s ≡ out
      → SendsTo P s out
      → P (next_status a t s).0 (next_status a t s).1.world
  next-SendsTo a P t s out e (u, sent, holds) =
      subst (λ (o : Reply k × State k). P (latest t o.1.updates) o.1.world) (sym e)
        (subst (λ us. P (latest t us) out.1.world) (sym sent) holds)
