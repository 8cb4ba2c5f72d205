-- ===== src/Action/DeploymentRestart.antt =====
-- internal/action/deployment_restart.go
pub mod Laws
use k8s_ops_platform.Prelude.{ℕ, String, Option, none, some, List, Bool, ◌&&◌, ◌==◌, if◌then◌else◌}
use k8s_ops_platform.Prelude.Int.{ℤ, leb_ℤ}
use k8s_ops_platform.Prelude.Dict.{lookup, insert, get_or_empty}
use k8s_ops_platform.Api.{Action, ActionStatus}
use k8s_ops_platform.Kube.{Kube, Err, M, pure, ◌>>=◌}
use k8s_ops_platform.Kube.Errors.{Result, ok, err, wrapf, api, as_error}
use k8s_ops_platform.Kube.Objects.{Deployment}

abbrev pub restart_annotation : String
restart_annotation = "ops.example.io/restarted-by-action"

abbrev pub restarted_at : String
restarted_at = "ops.example.io/restarted-at"

-- The annotations as Execute leaves them, for an Action's UID and the text of the time.
unfoldable pub annotate : String → String → Deployment → Deployment
annotate uid time d = record d {
  template_annotations =
      insert restarted_at time (insert restart_annotation uid d.template_annotations);
}

abbrev pub desired_replicas : Option ℤ → ℤ
desired_replicas none = ℤ.pos 1
desired_replicas (some n) = n

-- What Verify returns of the deployment that it got.
unfoldable pub rolled_out : String → Deployment → Bool
rolled_out uid d =
    get_or_empty (lookup restart_annotation d.template_annotations) == uid
    && leb_ℤ d.generation d.observed_generation
    && leb_ℤ (desired_replicas d.replicas) d.updated_replicas
    && leb_ℤ (desired_replicas d.replicas) d.available_replicas

module _ (k : Kube) where
  open k use {World, get_deployment, patch_deployment, time_now, format_rfc3339}

  unfoldable pub execute : Action → M World (Option (Err k) × ActionStatus)
  execute action = do
    found ← get_deployment action.spec.target.namespace action.spec.target.name
    elim found [
      | err e ↦ pure (some (wrapf "get deployment" (api e)), action.status)
      | ok d ↦
          if get_or_empty (lookup restart_annotation d.template_annotations) == action.metadata.uid
          then pure (none, action.status)
          else do
            now ← time_now
            e ← patch_deployment (annotate action.metadata.uid (format_rfc3339 now) d) d
            pure (as_error e, action.status)
    ]

  unfoldable pub verify : Action → M World (Result (Err k) Bool)
  verify action = do
    found ← get_deployment action.spec.target.namespace action.spec.target.name
    elim found [ err e ↦ pure (err (api e)) | ok d ↦ pure (ok (rolled_out action.metadata.uid d)) ]
