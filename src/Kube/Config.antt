-- ===== src/Kube/Config.antt =====
-- internal/kube/config.go. The packages rest, clientcmd, os and filepath are a parameter.
use k8s_ops_platform.Prelude.{String, List, [], ◌∷◌, ◌==◌, if◌then◌else◌}
use k8s_ops_platform.Kube.Errors.{Result, ok, err}

pub record ConfigSource : Type 1 where
  pub World : Type 0
  pub RestConfig : Type 0
  pub Failure : Type 0
  pub in_cluster_config : World → Result Failure RestConfig × World
  pub user_home_dir : World → Result Failure String × World
  pub join : List String → String
  -- BuildConfigFromFlags, with the URL of the master before the path.
  pub build_config_from_flags : String → String → World → Result Failure RestConfig × World

module _ (src : ConfigSource) where
  open src use {World, RestConfig, Failure}

  -- The path below the home directory; it stays empty when there is none.
  abbrev pub path_in : Result Failure String → String
  path_in (ok home) = src.join (home ∷ ".kube" ∷ "config" ∷ [])
  path_in (err e) = ""

  -- From the result of InClusterConfig on.
  unfoldable pub or_at_home : Result Failure RestConfig → World → Result Failure RestConfig × World
  or_at_home (ok config) w = (ok config, w)
  or_at_home (err e) w =
      let (home, w') = src.user_home_dir w in src.build_config_from_flags "" (path_in home) w'

  -- Config
  unfoldable pub config : String → World → Result Failure RestConfig × World
  config kubeconfig w =
      let (found, w') = src.in_cluster_config w in
      if kubeconfig == "" then or_at_home found w' else src.build_config_from_flags "" kubeconfig w
