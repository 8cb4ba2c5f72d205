-- ===== src/Platform/Reach.antt =====
-- What the agent and the controller do to a cluster together, in any order of their turns.
use k8s_ops_platform.Prelude.{String, List, [], ◌∷◌, ◌≡◌, refl, sym, ◌∙◌, inl, inr, differs_of_test}
use k8s_ops_platform.Api.{Action, ActionStatus, pod_restart, deployment_restart, node_maintenance}
use k8s_ops_platform.Kube.{Kube}
use k8s_ops_platform.Kube.Errors.{ok, Result-cases}
use k8s_ops_platform.Kube.Objects.{Pod}
use k8s_ops_platform.Metrics.{DiagnosisTracker}
use k8s_ops_platform.Policy.{Config}
use k8s_ops_platform.Agent.{Env, AgentState}
use k8s_ops_platform.Agent.Handlers.{Notification, notify}
use k8s_ops_platform.Agent.Laws.{Creates, nothing, create, IsAllowed}
use k8s_ops_platform.Agent.History.{notify-Creates}
use k8s_ops_platform.Controller.{State}
use k8s_ops_platform.Controller.Effects.{with_status}
use k8s_ops_platform.Controller.Reconcile.{after_get, reconcile}
use k8s_ops_platform.Controller.Calls.{
  gets_action, Calls, stop, read, write, Calls-trans, Calls-map, IsKept, Calls-kept, Permitted,
  stores, touches,
}
use k8s_ops_platform.Manager.{reconciler}
use k8s_ops_platform.Manager.Confinement.{Touches, deletes, annotates, cordons, drains, uncordons}
use k8s_ops_platform.Manager.Confinement.Reach.{reconcile_action-Within}

-- The state of both processes: the agent's tracker, and the controller's state with the cluster.
pub record Both (k : Kube) : Type 0 where
  pub tracker : DiagnosisTracker
  pub controller : State k

-- A turn: an informer tells the agent something, with what its caches hold then, or the controller takes an Action from its queue.
pub data Turn : Type 0 where
  told : Env → Notification → Turn
  queued : String → String → Turn

module _ (k : Kube) (config : Config) where
  abbrev pub tell : Env → Notification → Both k → Both k
  tell env n s =
      let agent : AgentState k = record { world = s.controller.world; tracker = s.tracker } in
      let agent' = notify k env config n agent in
      record { tracker = agent'.tracker; controller = record s.controller { world = agent'.world } }

  abbrev pub take : Turn → Both k → Both k
  take (told env n) s = tell env n s
  take (queued namespace name) s = record s {
    controller = (reconcile (reconciler k) namespace name s.controller).1;
  }

  unfoldable pub take_turns : List Turn → Both k → Both k
  take_turns [] s = s
  take_turns (t ∷ ts) s = take_turns ts (take t s)

  -- The API server has given the Action, with the status that it has, for its name.
  abbrev pub IsStored : Action → Type 0
  IsStored a =
      (namespace : String) × (name : String) × (u : k.World) × ((k.get_action namespace name u).0
        ≡ ok a)

  -- The writes of a platform that makes its Actions itself.
  pub data OwnWrites : k.World → k.World → Type 0 where
    -- an Action that the policy allows
    asks : (a : Action) → IsAllowed k config a → (w : k.World) → OwnWrites w (k.create_action a w).1
    -- a status of a pod restart
    reports :
        (a : Action) (t : ActionStatus)
        → IsStored a
        → a.spec.action_type ≡ pod_restart
        → (w : k.World) → OwnWrites w (k.update_status (with_status a t) w).1
    -- the deletion of a pod that a read gave for the target of a pod restart, under the UID that the
    -- status of this Action has at the API server
    restarts :
        (a : Action) (v : k.World) (pod : Pod)
        → IsStored a
        → a.spec.action_type ≡ pod_restart
        → (k.get_pod a.spec.target.namespace a.spec.target.name v).0 ≡ ok pod
        → pod.uid ≡ a.status.target_uid
        → (w : k.World) → OwnWrites w (k.delete_pod pod w).1

  -- The API server has no Actions but pod restarts, as long as nobody makes others.
  pub record HasOnlyRestarts (IsOwn : k.World → Type 0) : Type 0 where
    pub found :
        (namespace name : String) (w : k.World) (a : Action)
        → IsOwn w
        → (k.get_action namespace name w).0 ≡ ok a
        → a.spec.action_type ≡ pod_restart
    pub kept : IsKept k k.time_now OwnWrites IsOwn

  abbrev Stays : k.World → k.World → Type 0
  Stays = Calls k k.time_now OwnWrites

  Creates-Stays : {w v : k.World} → Creates k (IsAllowed k config) w v → Stays w v
  Creates-Stays nothing = stop
  Creates-Stays (create a p c) = write (asks a p _) (Creates-Stays c)

  not_of_type :
      {A : Type 0} {type name : String}
      → type ≡ pod_restart
      → type ≡ name
      → (pod_restart ≡ name → ⊥)
      → A
  not_of_type p q differs = absurd (differs (sym p ∙ q))

  touches-OwnWrites :
      (type : String) (a : Action) (w v : k.World)
      → IsStored a
      → a.spec.action_type ≡ pod_restart
      → type ≡ pod_restart
      → Touches k type a w v
      → OwnWrites w v
  touches-OwnWrites type a _ _ given of_type p (deletes v pod q found same w) =
      restarts a v pod given of_type found same w
  touches-OwnWrites type a _ _ given of_type p (annotates v d time q found new w) =
      not_of_type p q (differs_of_test pod_restart deployment_restart refl)
  touches-OwnWrites type a _ _ given of_type p (cordons v node q at found w) =
      not_of_type p q (differs_of_test pod_restart node_maintenance refl)
  touches-OwnWrites type a _ _ given of_type p (drains v v' node pods q at found listed evicted) =
      not_of_type p q (differs_of_test pod_restart node_maintenance refl)
  touches-OwnWrites type a _ _ given of_type p (uncordons v node q at found w) =
      not_of_type p q (differs_of_test pod_restart node_maintenance refl)

  permitted-OwnWrites :
      (a : Action)
      → IsStored a
      → a.spec.action_type ≡ pod_restart
      → (w v : k.World) → Permitted k (Touches k a.spec.action_type a) a w v
      → OwnWrites w v
  permitted-OwnWrites a given p _ _ (stores t w) = reports a t given p w
  permitted-OwnWrites a given p _ _ (touches q) =
      touches-OwnWrites a.spec.action_type a _ _ given p p q

  module _ (IsOwn : k.World → Type 0) (only : HasOnlyRestarts IsOwn) where
    tell-Stays :
        (env : Env) (n : Notification) (s : Both k)
        → Stays s.controller.world (tell env n s).controller.world
    tell-Stays env n s = Creates-Stays (notify-Creates k env config n _)

    reconcile-Stays :
        (namespace name : String) (s : State k)
        → IsOwn s.world
        → Stays s.world (reconcile (reconciler k) namespace name s).1.world
    unfolding reconcile after_get
    reconcile-Stays namespace name s own =
        read (gets_action namespace name s.world)
          (elim (Result-cases (k.get_action namespace name s.world).0) [
            | inl (e, missing) ↦ rw (missing, after_get) stop
            | inr (a, found) ↦
                rw (found, after_get)
                  (Calls-map
                    (permitted-OwnWrites a (namespace, name, s.world, found)
                      (only.found namespace name s.world a own found))
                    (reconcile_action-Within k a _))
          ])

    take-Stays :
        (t : Turn) (s : Both k)
        → IsOwn s.controller.world
        → Stays s.controller.world (take t s).controller.world
    take-Stays (told env n) s own = tell-Stays env n s
    take-Stays (queued namespace name) s own = reconcile-Stays namespace name s.controller own

    -- Where only the agent makes Actions, all that the platform does to the cluster, in any order of
    -- notifications and reconciliations and whatever the cluster answers, is to read, to create the
    -- Actions that the policy allows, to write statuses of pod restarts, and to delete a pod that a read gave
    -- for the target of a pod restart and that has the UID in the status of this Action, as the API server
    -- gave it. It evicts no pod, and patches no
    -- node and no Deployment.
    pub take_turns-Stays :
        (ts : List Turn) (s : Both k)
        → IsOwn s.controller.world
        → Calls k k.time_now OwnWrites s.controller.world (take_turns ts s).controller.world
    unfolding take_turns
    take_turns-Stays [] s own = stop
    take_turns-Stays (t ∷ ts) s own =
        let calls = take-Stays t s own in
        Calls-trans calls (take_turns-Stays ts (take t s) (Calls-kept IsOwn only.kept calls own))
