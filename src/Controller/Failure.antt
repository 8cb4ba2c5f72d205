-- ===== src/Controller/Failure.antt =====
-- The run of an Action to its failure, when its executor has an error at every attempt.
use k8s_ops_platform.Prelude.{ℕ, String, none, some, false, ◌<◌, ◌≡◌}
use k8s_ops_platform.Prelude.Int.{ℤ}
use k8s_ops_platform.Api.{Action}
use k8s_ops_platform.Kube.{Kube, Err}
use k8s_ops_platform.Kube.Errors.{is_in_progress}
use k8s_ops_platform.Action.{Executor}
use k8s_ops_platform.Controller.{State, Reconciler}
use k8s_ops_platform.Controller.Effects.{timed_out, retry_limit}
use k8s_ops_platform.Controller.Reconcile.{execute}
use k8s_ops_platform.Controller.Steps.{Sends, IsAt}

-- An executor without Prepare, whose Execute returns an error that is no InProgressError and leaves
-- the status alone.
pub record IsBroken {k : Kube} (ex : Executor k) : Type 0 where
  pub no_prepare : ex.prepare ≡ none
  pub fails :
      (a : Action) (w : k.World)
      → (e : Err k) × ((ex.execute a w).0 ≡ (some e, a.status)) × (is_in_progress e ≡ false)

module _ {k : Kube} (r : Reconciler k) (ex : Executor k) (broken : IsBroken ex) (n : ℕ)
    (limit : retry_limit r ≡ ℤ.pos n) (positive : 0 < n) (small : n < 2147483648) where
  abbrev Leaves : String → ℕ → State k → State k → Type 0
  Leaves phase count s s' = Sends (IsAt phase (ℤ.pos count)) s.updates s'.updates

  -- The state after an attempt.
  abbrev attempted : Action → State k → State k
  attempted a s = let s1 = (timed_out r a s).1 in record s1 { world = (ex.execute a s1.world).1 }
