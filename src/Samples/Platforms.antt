-- ===== src/Samples/Platforms.antt =====
-- The agent and the controller in turns, at the sample cluster.
use k8s_ops_platform.Prelude.{
  Option, List, [], ◌∷◌, Bool, ◌≡◌, refl, All, Bool-cases, inl, inr, sym, ◌∙◌, arith, if-cases,
  subst, any,
}
use k8s_ops_platform.Api.{Action, pod_restart}
use k8s_ops_platform.Kube.Errors.{ok}
use k8s_ops_platform.Metrics.{new_diagnosis_tracker}
use k8s_ops_platform.Agent.{Notified, default_flags, main_config}
use k8s_ops_platform.Agent.Handlers.{pod_changed}
use k8s_ops_platform.Controller.{State}
use k8s_ops_platform.Controller.Calls.{Calls}
use k8s_ops_platform.Platform.Reach.{
  Both, Turn, told, queued, take_turns, OwnWrites, asks, reports, restarts, HasOnlyRestarts,
  take_turns-Stays,
}
use k8s_ops_platform.Platform.Observation.{OnlyReads, HasNoActions, take_turns-OnlyReads}
use k8s_ops_platform.Samples.{sample, cluster, Cluster, Fault, find, remove, is_action}
use k8s_ops_platform.Samples.Agents.{env, config}
use k8s_ops_platform.Samples.Controllers.{start_state, started}
use k8s_ops_platform.Samples.Rollouts.{Reads-same}
use k8s_ops_platform.Samples.Diagnoses.{crashing_pod}

abbrev IsRestart : Action → Type 0
IsRestart a = a.spec.action_type ≡ pod_restart

-- All Actions of the sample are pod restarts.
abbrev IsOwn : Cluster → Type 0
IsOwn c = All IsRestart c.actions

find-IsRestart :
    (p : Action → Bool) (xs : List Action) (a : Action)
    → All IsRestart xs
    → find p xs ≡ ok a
    → IsRestart a
find-IsRestart p [] a h found = absurd (cc found)
find-IsRestart p (x ∷ xs) a (hx, h) found = elim (Bool-cases (p x)) [
  | inl here ↦ let same : x ≡ a = ground (arith, here, found) in subst IsRestart same hx
  | inr other ↦ find-IsRestart p xs a h (ground (arith, other, found))
]

remove-IsRestart :
    (p : Action → Bool) (xs : List Action) → All IsRestart xs → All IsRestart (remove p xs)
remove-IsRestart p [] h = tt
remove-IsRestart p (x ∷ xs) (hx, h) =
    if-cases (All IsRestart) (p x) (λ _. remove-IsRestart p xs h)
      (λ _. (hx, remove-IsRestart p xs h))

create_action-IsOwn :
    (a : Action) (w : Cluster) → IsRestart a → IsOwn w → IsOwn (sample.create_action a w).1
create_action-IsOwn a w p h =
    if-cases (λ (out : Option Fault × Cluster). IsOwn out.1)
      (any (is_action a.metadata.namespace a.metadata.name) w.actions) (λ _. h) (λ _. (p, h))

update_status-IsOwn :
    (a : Action) (w : Cluster) → IsRestart a → IsOwn w → IsOwn (sample.update_status a w).1
update_status-IsOwn a w p h =
    let at = is_action a.metadata.namespace a.metadata.name in
    if-cases (λ (out : (Option Fault × Action) × Cluster). IsOwn out.1) (any at w.actions)
      (λ _. (p, remove-IsRestart at w.actions h)) (λ _. h)

OwnWrites-IsOwn : (w v : Cluster) → OwnWrites sample config w v → IsOwn w → IsOwn v
OwnWrites-IsOwn _ _ (asks a allowed w) h = create_action-IsOwn a w allowed.0 h
OwnWrites-IsOwn _ _ (reports a t given p w) h = update_status-IsOwn _ w p h
OwnWrites-IsOwn _ _ (restarts a v pod given of_type found same w) h = h

abbrev sample-HasOnlyRestarts : HasOnlyRestarts sample config IsOwn
sample-HasOnlyRestarts = record {
  found = λ namespace name w a own found. find-IsRestart _ w.actions a own found;
  kept = record {
    by_read = λ w v r h. subst (All IsRestart) (sym (Reads-same w v r).0) h;
    by_write = OwnWrites-IsOwn;
  };
}

-- The Action that has started is in the cluster.
abbrev acting : State sample
acting = record start_state { world = record cluster { actions = started ∷ [] } }

abbrev both : Both sample
both = record { tracker = new_diagnosis_tracker; controller = acting }

abbrev turns : List Turn
turns = told env (pod_changed (Notified.pod crashing_pod)) ∷ queued "shop" "restart" ∷ []

take_turns-Stays_example :
    Calls sample sample.time_now
      (OwnWrites sample config)
      acting.world
      (take_turns sample config turns both).controller.world
take_turns-Stays_example =
    take_turns-Stays sample config IsOwn sample-HasOnlyRestarts turns both (refl, tt)

abbrev IsBare : Cluster → Type 0
IsBare c = c.actions ≡ []

unfound : (p : Action → Bool) (xs : List Action) (a : Action) → xs ≡ [] → ¬ (find p xs ≡ ok a)
unfound p xs a bare found = absurd (cc (bare, found))

abbrev sample-HasNoActions : HasNoActions sample IsBare
sample-HasNoActions = record {
  missing = λ namespace name w a bare found. unfound _ w.actions a bare found;
  kept = record {
    by_read = λ w v r h. (Reads-same w v r).0 ∙ h;
    by_write = λ w v never h. absurd never;
  };
}

abbrev watching : Both sample
watching = record both {
  controller = record start_state { world = record cluster { actions = [] } };
}

take_turns-OnlyReads_example :
    OnlyReads sample watching.controller.world
      (take_turns sample (main_config default_flags) turns watching).controller.world
take_turns-OnlyReads_example =
    take_turns-OnlyReads sample default_flags refl IsBare sample-HasNoActions turns watching refl
