-- ===== src/Action/DeploymentRestart/Laws.antt =====
-- What the executor of deployment_restart.go does.
use k8s_ops_platform.Prelude.{String, none, ◌≡◌, refl, ap, ◌∙◌, arith, eq_iff}
use k8s_ops_platform.Prelude.Dict.{lookup, insert, lookup-insert, get_or_empty}
use k8s_ops_platform.Api.{Action}
use k8s_ops_platform.Kube.{Kube}
use k8s_ops_platform.Kube.Errors.{ok}
use k8s_ops_platform.Kube.Objects.{Deployment}
use k8s_ops_platform.Action.Contract.{Keeps}
use k8s_ops_platform.Action.DeploymentRestart.{restart_annotation, restarted_at, annotate, execute}

pub execute-Keeps : (k : Kube) → Keeps (execute k)
unfolding execute
execute-Keeps k a w = ground arith

pub annotate-marked :
    (uid time : String) (d : Deployment)
    → get_or_empty (lookup restart_annotation (annotate uid time d).template_annotations) ≡ uid
unfolding annotate
annotate-marked uid time d =
    rw
      (
        lookup-insert restarted_at restart_annotation time
            (insert restart_annotation uid d.template_annotations),
        lookup-insert restart_annotation restart_annotation uid d.template_annotations,
      )
      refl

-- Execute restarts a Deployment once: when the Deployment that it reads has the annotations of an
-- earlier patch for this Action, whatever the time of that patch and whatever the Deployment was
-- then, it reports success and does nothing beyond the reading.
pub execute-once :
    (k : Kube) (a : Action) (w : k.World) (time : String) (before d : Deployment)
    → let read = k.get_deployment a.spec.target.namespace a.spec.target.name w in
      read.0 ≡ ok d
      → d.template_annotations ≡ (annotate a.metadata.uid time before).template_annotations
      → execute k a w ≡ ((none, a.status), read.1)
unfolding execute
execute-once k a w time before d found patched =
    let marked =
      ap (λ m. get_or_empty (lookup restart_annotation m)) patched
      ∙ annotate-marked a.metadata.uid time before in
    ground (
      arith,
      eq_iff (get_or_empty (lookup restart_annotation d.template_annotations)) a.metadata.uid,
    )
