-- ===== src/Samples/Completions.antt =====
-- A sample cluster that carries out the restart of a Deployment, and in which the Deployment's controller
-- takes notice of a patch only after a read.
use k8s_ops_platform.Prelude.{
  ℕ, suc, String, none, List, [], ◌∷◌, ◌≡◌, ◌⊎◌, ◌≤◌, ◌-◌, inl, inr, refl, ap, sym, ◌∙◌, subst,
  arith, ◌==◌, ◌&&◌, map, differs_of_test,
}
use k8s_ops_platform.Prelude.Dict.{lookup, get_or_empty}
use k8s_ops_platform.Prelude.Int.{ℤ}
use k8s_ops_platform.Api.{Action, deployment_restart, empty_status}
use k8s_ops_platform.Kube.{Kube}
use k8s_ops_platform.Kube.Errors.{Result, ok}
use k8s_ops_platform.Kube.Objects.{Deployment}
use k8s_ops_platform.Action.DeploymentRestart.{restart_annotation, annotate}
use k8s_ops_platform.Action.DeploymentRestart.Laws.{annotate-marked}
use k8s_ops_platform.Controller.Calls.{
  StatusWrites, Reads, gets_action, gets_pod, gets_node, gets_deployment, lists_pods_in,
  lists_pods_on, reads_clock, draws, stamps, stores, touches,
}
use k8s_ops_platform.Manager.Rollout.{IsRolledOut}
use k8s_ops_platform.Manager.Rollout.Start.{CarriesOut, read_target}
use k8s_ops_platform.Samples.{Fault, sample, action_at, find, remove, Cluster}
use k8s_ops_platform.Samples.Actions.{web}

-- The Deployment's controller has seen the newest generation.
abbrev settle : Deployment → Deployment
settle d = record d { observed_generation = d.generation }

abbrev pub slow : Kube
slow = record sample {
  get_deployment = λ namespace name c. (
    find (λ d. d.namespace == namespace && d.name == name) c.deployments,
    record c { deployments = map settle c.deployments },
  );
  patch_deployment = λ d base c. (
    none,
    record c {
      deployments =
          record d { generation = ℤ.pos 2 } ∷ remove (λ b. b.name == d.name) c.deployments;
    },
  );
}

abbrev pub request : Action
request = action_at deployment_restart "web" empty_status

abbrev fresh : String → Deployment
fresh time = record (annotate "a1" time web) { generation = ℤ.pos 2 }

abbrev pub IsReady : Cluster → Type 0
IsReady c = c.deployments ≡ web ∷ []

abbrev pub IsUnderWay : ℕ → Cluster → Type 0
IsUnderWay n c =
    (time : String) × ((c.deployments ≡ settle (fresh time) ∷ [])
      ⊎ ((c.deployments ≡ fresh time ∷ []) × (1 ≤ n)))

-- What a read leaves of the Deployments.
abbrev Leaves : Cluster → Cluster → Type 0
Leaves w v = (v.deployments ≡ w.deployments) ⊎ (v.deployments ≡ map settle w.deployments)

Reads-Leaves : (w v : Cluster) → Reads slow slow.time_now w v → Leaves w v
Reads-Leaves _ _ (gets_action namespace name w) = inl refl
Reads-Leaves _ _ (gets_pod namespace name w) = inl refl
Reads-Leaves _ _ (gets_node name w) = inl refl
Reads-Leaves _ _ (gets_deployment namespace name w) = inr refl
Reads-Leaves _ _ (lists_pods_in namespace w) = inl refl
Reads-Leaves _ _ (lists_pods_on node w) = inl refl
Reads-Leaves _ _ (reads_clock w) = inl refl
Reads-Leaves _ _ (draws duration percent w) = inl refl
Reads-Leaves _ _ (stamps cs c w) = inl refl

update_status-same :
    (a : Action) (w : Cluster) → (slow.update_status a w).1.deployments ≡ w.deployments
update_status-same a w = ground arith

StatusWrites-Leaves : (w v : Cluster) → StatusWrites slow request w v → Leaves w v
StatusWrites-Leaves _ _ (stores t w) = inl (update_status-same _ w)
StatusWrites-Leaves _ _ (touches never) = absurd never

Leaves-IsReady : (w v : Cluster) → Leaves w v → IsReady w → IsReady v
Leaves-IsReady w v (inl same) h = same ∙ h
Leaves-IsReady w v (inr settled) h = settled ∙ ap (map settle) h

Leaves-IsUnderWay : (n : ℕ) (w v : Cluster) → Leaves w v → IsUnderWay n w → IsUnderWay n v
Leaves-IsUnderWay n w v (inl same) (time, inl h) = (time, inl (same ∙ h))
Leaves-IsUnderWay n w v (inl same) (time, inr (h, more)) = (time, inr (same ∙ h, more))
Leaves-IsUnderWay n w v (inr settled) (time, inl h) = (time, inl (settled ∙ ap (map settle) h))
Leaves-IsUnderWay n w v (inr settled) (time, inr (h, more)) =
    (time, inl (settled ∙ ap (map settle) h))

-- What a read finds in a list with one Deployment.
abbrev find_web : List Deployment → Result Fault Deployment
find_web = find (λ d. d.namespace == "shop" && d.name == "web")

the_one :
    (c : Cluster) (x d : Deployment)
    → find_web (x ∷ []) ≡ ok x
    → c.deployments ≡ x ∷ []
    → (read_target slow request c).0 ≡ ok d
    → x ≡ d
the_one c x d here e found = cc (ap find_web e, here, found)

fresh-IsRolledOut : (time : String) → IsRolledOut "a1" (settle (fresh time))
unfolding annotate
fresh-IsRolledOut time = record {
  marked = annotate-marked "a1" time web;
  current = omega arith;
  updated = omega arith;
  available = omega arith;
}

patch-IsUnderWay :
    (v : Cluster) (time : String)
    → IsReady v
    → IsUnderWay 1 (slow.patch_deployment (annotate "a1" time web) web v).1
unfolding annotate
patch-IsUnderWay v time ready = (
  time,
  inr (ap (λ ds. fresh time ∷ remove (λ (b : Deployment). b.name == "web") ds) ready, omega arith),
)

found_under_way :
    (n : ℕ) (w : Cluster)
    → IsUnderWay n w
    → (d : Deployment) × ((read_target slow request w).0 ≡ ok d)
unfolding annotate
found_under_way n w (time, inl h) = (_, ap find_web h)
found_under_way n w (time, inr (h, more)) = (_, ap find_web h)

advances :
    (n : ℕ) (w : Cluster) (d : Deployment)
    → IsUnderWay n w
    → (read_target slow request w).0 ≡ ok d
    → IsRolledOut "a1" d ⊎ ((m : ℕ) × (n ≡ suc m) × IsUnderWay m (read_target slow request w).1)
unfolding annotate
advances n w d (time, inl h) found = inl (
    subst (IsRolledOut "a1") (the_one w (settle (fresh time)) d refl h found)
      (fresh-IsRolledOut time))
advances n w d (time, inr (h, more)) found =
    inr (n - 1, omega (arith, more), (time, inl (ap (map settle) h)))

-- The Deployment has the Action's mark.
abbrev IsMarked : Deployment → Type 0
IsMarked d = get_or_empty (lookup restart_annotation d.template_annotations) ≡ "a1"

unmarked : ¬ IsMarked web
unfolding lookup
unmarked mark = differs_of_test "" "a1" refl mark

pub slow-CarriesOut : CarriesOut slow request 1 IsReady IsUnderWay
slow-CarriesOut = record {
  ready_kept = record {
    by_read = λ w v r. Leaves-IsReady w v (Reads-Leaves w v r);
    by_write = λ w v p. Leaves-IsReady w v (StatusWrites-Leaves w v p);
  };
  kept = λ n. record {
    by_read = λ w v r. Leaves-IsUnderWay n w v (Reads-Leaves w v r);
    by_write = λ w v p. Leaves-IsUnderWay n w v (StatusWrites-Leaves w v p);
  };
  found = λ w ready. (web, ap find_web ready);
  marked = λ w d ready found mark.
      let same : web ≡ d = the_one w web d refl ready found in
      absurd (unmarked (subst IsMarked (sym same) mark));
  patched = λ w v d time ready found ready'. (
    refl,
    subst (λ x. IsUnderWay 1 (slow.patch_deployment (annotate "a1" time x) x v).1)
        (the_one w web d refl ready found) (patch-IsUnderWay v time ready'),
  );
  found_again = found_under_way;
  advances = advances;
}
