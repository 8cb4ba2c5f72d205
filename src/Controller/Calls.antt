-- ===== src/Controller/Calls.antt =====
-- What Reconcile does to the cluster: its calls, as steps from one world to the next.
pub mod Phases
use k8s_ops_platform.Prelude.{
  ℕ, String, Option, none, some, List, Bool, true, false, ◌≡◌, inl, inr, refl, Bool-cases,
}
use k8s_ops_platform.Prelude.Int.{leb_ℤ, inc_int32}
use k8s_ops_platform.Api.{Action, ActionStatus, Condition}
use k8s_ops_platform.Kube.{Kube, Err, M}
use k8s_ops_platform.Controller.{State, Reconciler, Reply}
use k8s_ops_platform.Controller.Effects.{
  with_status, update_status, observe_if_saved, requeue_after_jitter, retry_limit, clock,
  timed_out_since, timeout_of, timed_out, fail, retry_or_fail,
}
use k8s_ops_platform.Controller.Reconcile.{accept, start, finish_execution, succeed}

-- The calls that change nothing: reads of the cluster, of the clock and of the random source, and the
-- stamp of a condition.
pub data Reads (k : Kube) (now : M k.World ℕ) : k.World → k.World → Type 0 where
  gets_action :
      (namespace name : String) (w : k.World) → Reads k now w (k.get_action namespace name w).1
  gets_pod : (namespace name : String) (w : k.World) → Reads k now w (k.get_pod namespace name w).1
  gets_node : (name : String) (w : k.World) → Reads k now w (k.get_node name w).1
  gets_deployment :
      (namespace name : String) (w : k.World) → Reads k now w (k.get_deployment namespace name w).1
  lists_pods_in : (namespace : String) (w : k.World) → Reads k now w (k.list_pods_in namespace w).1
  lists_pods_on : (node : String) (w : k.World) → Reads k now w (k.list_pods_on node w).1
  reads_clock : (w : k.World) → Reads k now w (now w).1
  draws : (duration percent : ℕ) (w : k.World) → Reads k now w (k.jitter duration percent w).1
  stamps :
      (cs : List Condition) (c : Condition) (w : k.World)
      → Reads k now w (k.set_status_condition cs c w).1

-- From one world to another by reads and by writes of a kind.
pub data Calls (k : Kube) (now : M k.World ℕ) (Writes : k.World → k.World → Type 0)
    : k.World → k.World → Type 0 where
  stop : {w : k.World} → Calls k now Writes w w
  read : {w v u : k.World} → Reads k now w v → Calls k now Writes v u → Calls k now Writes w u
  write : {w v u : k.World} → Writes w v → Calls k now Writes v u → Calls k now Writes w u

pub Calls-trans :
    {k : Kube} {now : M k.World ℕ} {Writes : k.World → k.World → Type 0} {w v u : k.World}
    → Calls k now Writes w v
    → Calls k now Writes v u
    → Calls k now Writes w u
Calls-trans stop d = d
Calls-trans (read r c) d = read r (Calls-trans c d)
Calls-trans (write r c) d = write r (Calls-trans c d)

pub Calls-map :
    {k : Kube} {now : M k.World ℕ} {P Q : k.World → k.World → Type 0} {w v : k.World}
    → ((w v : k.World) → P w v → Q w v)
    → Calls k now P w v
    → Calls k now Q w v
Calls-map f stop = stop
Calls-map f (read r c) = read r (Calls-map f c)
Calls-map f (write p c) = write (f _ _ p) (Calls-map f c)

-- What holds of a world, and still holds after a read, and after a write of a kind.
pub record IsKept (k : Kube) (now : M k.World ℕ) (Writes : k.World → k.World → Type 0)
    (Holds : k.World → Type 0) : Type 0 where
  pub by_read : (w v : k.World) → Reads k now w v → Holds w → Holds v
  pub by_write : (w v : k.World) → Writes w v → Holds w → Holds v

pub Calls-kept :
    {k : Kube} {now : M k.World ℕ} {Writes : k.World → k.World → Type 0} (Holds : k.World → Type 0)
    (kept : IsKept k now Writes Holds) {w v : k.World}
    → Calls k now Writes w v
    → Holds w
    → Holds v
Calls-kept Holds kept stop h = h
Calls-kept Holds kept (read r c) h = Calls-kept Holds kept c (kept.by_read _ _ r h)
Calls-kept Holds kept (write p c) h = Calls-kept Holds kept c (kept.by_write _ _ p h)

-- The writes of a reconciliation of an Action: of a status of this Action, and those of its executor.
pub data Permitted (k : Kube) (Touches : k.World → k.World → Type 0) (a : Action)
    : k.World → k.World → Type 0 where
  stores :
      (t : ActionStatus) (w : k.World)
      → Permitted k Touches a w (k.update_status (with_status a t) w).1
  touches : {w v : k.World} → Touches w v → Permitted k Touches a w v

-- The writes of an Action's status, and no others.
abbrev pub StatusWrites : (k : Kube) → Action → k.World → k.World → Type 0
StatusWrites k a = Permitted k (λ w v. ⊥) a

-- The writes of a status, as those of the Action with another status.
pub same_writes :
    (k : Kube) (a : Action) (t : ActionStatus) (w v : k.World)
    → StatusWrites k (with_status a t) w v
    → StatusWrites k a w v
same_writes k a t _ _ (stores u w) = stores u w
same_writes k a t _ _ (touches never) = absurd never

module _ {k : Kube} (r : Reconciler k) (Touches : k.World → k.World → Type 0) (a : Action) where
  abbrev pub Stays : State k → State k → Type 0
  Stays s s' = Calls k (clock r) (Permitted k Touches a) s.world s'.world

  observe_if_saved-Stays :
      (result : String) (saved : Reply k × Action) (s : State k)
      → Stays s (observe_if_saved (clock r) result saved s).1
  unfolding observe_if_saved
  observe_if_saved-Stays result ((requeue, some e), answer) s = stop
  observe_if_saved-Stays result ((requeue, none), answer) s = read (reads_clock _) stop

  requeue_after_jitter-Stays :
      (reply : Reply k) (s : State k) → Stays s (requeue_after_jitter reply s).1
  requeue_after_jitter-Stays (q, some e) s = stop
  requeue_after_jitter-Stays (q, none) s = read (draws _ _ _) stop

  timed_out_since-Stays :
      (timeout : ℕ) (started : Option ℕ) (w : k.World)
      → Calls k (clock r) (Permitted k Touches a) w (timed_out_since (clock r) timeout started w).1
  unfolding timed_out_since
  timed_out_since-Stays timeout none w = stop
  timed_out_since-Stays timeout (some started) w = read (reads_clock w) stop

  pub timed_out-Stays : (s : State k) → Stays s (timed_out r a s).1
  timed_out-Stays s =
      timed_out_since-Stays (timeout_of a.spec.timeout_seconds) a.status.started_at s.world

  pub fail-Stays :
      (t : ActionStatus) (cause : Err k) (s : State k)
      → Stays s (fail r (with_status a t) cause s).1
  unfolding fail update_status
  fail-Stays t cause s =
      read (reads_clock _)
        (read (stamps _ _ _) (write (stores _ _) (observe_if_saved-Stays "failed" _ _)))

  pub retry_or_fail-Stays :
      (t : ActionStatus) (cause : Err k) (s : State k)
      → Stays s (retry_or_fail r (with_status a t) cause s).1
  unfolding retry_or_fail update_status
  retry_or_fail-Stays t cause s =
      elim (Bool-cases (leb_ℤ (retry_limit r) (inc_int32 t.retry_count))) [
        | inl spent ↦ rw (spent, retry_or_fail) (read (stamps _ _ _) (fail-Stays _ _ _))
        | inr left ↦
            rw (left, retry_or_fail)
              (read (stamps _ _ _) (write (stores _ _) (requeue_after_jitter-Stays _ _)))
      ]

  pub save-Stays :
      (t : ActionStatus) (s : State k) → Stays s (update_status (with_status a t) true s).1
  unfolding update_status
  save-Stays t s = write (stores _ _) stop

  pub accept-Stays : (s : State k) → Stays s (accept a s).1
  unfolding accept
  accept-Stays s = save-Stays _ s

  pub start-Stays : (s : State k) → Stays s (start r a s).1
  unfolding start
  start-Stays s = read (reads_clock _) (read (stamps _ _ _) (save-Stays _ _))

  pub finish_execution-Stays :
      (t : ActionStatus) (s : State k) → Stays s (finish_execution (with_status a t) s).1
  unfolding finish_execution
  finish_execution-Stays t s = read (stamps _ _ _) (read (stamps _ _ _) (save-Stays _ _))

  pub succeed-Stays : (s : State k) → Stays s (succeed r a s).1
  unfolding succeed update_status
  succeed-Stays s =
      read (reads_clock _)
        (read (stamps _ _ _) (write (stores _ _) (observe_if_saved-Stays "succeeded" _ _)))
