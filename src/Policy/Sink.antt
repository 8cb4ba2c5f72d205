-- ===== src/Policy/Sink.antt =====
-- The methods Handle and createIfNoActive of the policy's sink.
use k8s_ops_platform.Prelude.{
  ℕ, String, Option, none, some, List, Bool, not, ◌==◌, any, if◌then◌else◌,
}
use k8s_ops_platform.Kube.{Kube, Err, M, pure, ◌>>=◌}
use k8s_ops_platform.Kube.Errors.{wrapf, api}
use k8s_ops_platform.Diagnosis.{DiagnosisResult}
use k8s_ops_platform.Policy.{Config, should_auto_create, new_action}

abbrev pub is_excluded : Config → String → Bool
is_excluded config namespace = any (λ n. namespace == n) config.excluded_namespaces

module _ (k : Kube) (sha256 : String → List ℕ) (config : Config) where
  abbrev created : Option k.ApiError → Option (Err k)
  created none = none
  created (some e) =
      if k.is_already_exists (api e) then none else some (wrapf "create Action" (api e))

  unfoldable pub create_if_no_active : DiagnosisResult → String → M k.World (Option (Err k))
  create_if_no_active r type = do
    e ← k.create_action (new_action sha256 config r type)
    pure (created e)

  -- Handle: the error of the creation goes to the log, and is returned here.
  unfoldable pub handle : DiagnosisResult → M k.World (Option (Err k))
  handle r =
      if is_excluded config r.namespace
      then pure none
      else if r.suggested_action == ""
      then pure none
      else if not (should_auto_create config r.suggested_action)
      then pure none
      else create_if_no_active r r.suggested_action
