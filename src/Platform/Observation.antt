-- ===== src/Platform/Observation.antt =====
-- The agent and the controller where the agent may not make Actions, as when it is started without
-- arguments.
use k8s_ops_platform.Prelude.{String, List, [], ◌∷◌, false, ◌≡◌, inl, inr}
use k8s_ops_platform.Api.{Action}
use k8s_ops_platform.Kube.{Kube}
use k8s_ops_platform.Kube.Errors.{ok, Result-cases}
use k8s_ops_platform.Agent.{Env, Flags, main_config}
use k8s_ops_platform.Agent.Handlers.{Notification}
use k8s_ops_platform.Agent.Laws.{Creates, nothing, create, IsAllowed}
use k8s_ops_platform.Agent.History.{notify-Creates}
use k8s_ops_platform.Controller.{State}
use k8s_ops_platform.Controller.Reconcile.{after_get, reconcile}
use k8s_ops_platform.Controller.Calls.{
  gets_action, Calls, stop, read, Calls-trans, IsKept, Calls-kept,
}
use k8s_ops_platform.Manager.{reconciler}
use k8s_ops_platform.Platform.Reach.{Both, Turn, told, queued, tell, take, take_turns}

-- Only reads of the cluster, from one world to another.
abbrev pub OnlyReads : (k : Kube) → k.World → k.World → Type 0
OnlyReads k = Calls k k.time_now (λ w v. ⊥)

-- The API server has no Action, and reads do not make one.
pub record HasNoActions (k : Kube) (IsEmpty : k.World → Type 0) : Type 0 where
  pub missing :
      (namespace name : String) (w : k.World) (a : Action)
      → IsEmpty w
      → ¬ ((k.get_action namespace name w).0 ≡ ok a)
  pub kept : IsKept k k.time_now (λ w v. ⊥) IsEmpty

module _ (k : Kube) (flags : Flags) (off : flags.auto_pod_restart ≡ false) where
  Creates-OnlyReads :
      {w v : k.World} → Creates k (IsAllowed k (main_config flags)) w v → OnlyReads k w v
  Creates-OnlyReads nothing = stop
  Creates-OnlyReads (create a (type, kind, flag, free) c) = absurd (cc (flag, off))

  tell-OnlyReads :
      (env : Env) (n : Notification) (s : Both k)
      → OnlyReads k s.controller.world (tell k (main_config flags) env n s).controller.world
  tell-OnlyReads env n s = Creates-OnlyReads (notify-Creates k env (main_config flags) n _)

  module _ (IsEmpty : k.World → Type 0) (no_actions : HasNoActions k IsEmpty) where
    reconcile-OnlyReads :
        (namespace name : String) (s : State k)
        → IsEmpty s.world
        → OnlyReads k s.world (reconcile (reconciler k) namespace name s).1.world
    unfolding reconcile after_get
    reconcile-OnlyReads namespace name s empty =
        read (gets_action namespace name s.world)
          (elim (Result-cases (k.get_action namespace name s.world).0) [
            | inl (e, missing) ↦ rw (missing, after_get) stop
            | inr (a, found) ↦ absurd (no_actions.missing namespace name s.world a empty found)
          ])

    take-OnlyReads :
        (t : Turn) (s : Both k)
        → IsEmpty s.controller.world
        → OnlyReads k s.controller.world (take k (main_config flags) t s).controller.world
    take-OnlyReads (told env n) s empty = tell-OnlyReads env n s
    take-OnlyReads (queued namespace name) s empty =
        reconcile-OnlyReads namespace name s.controller empty

    -- Where the flag auto-pod-restart is not set, as by default, and nobody else makes an Action, the
    -- agent and the controller together only read the cluster, in any order of notifications and
    -- reconciliations, whatever the detectors find, and whatever the flag auto-deployment-restart is.
    pub take_turns-OnlyReads :
        (ts : List Turn) (s : Both k)
        → IsEmpty s.controller.world
        → OnlyReads k s.controller.world (take_turns k (main_config flags) ts s).controller.world
    unfolding take_turns
    take_turns-OnlyReads [] s empty = stop
    take_turns-OnlyReads (t ∷ ts) s empty =
        let calls = take-OnlyReads t s empty in
        Calls-trans calls (
          take_turns-OnlyReads ts (take k (main_config flags) t s)
            (Calls-kept IsEmpty no_actions.kept calls empty))
