-- ===== src/Action/Contract.antt =====
-- What the controller relies on: an executor writes its checkpoint fields and leaves the rest of
-- the status to the controller.
use k8s_ops_platform.Prelude.{ℕ, String, Option, some, none, List, ◌≡◌}
use k8s_ops_platform.Prelude.Int.{ℤ}
use k8s_ops_platform.Api.{Action, ActionStatus, Condition}
use k8s_ops_platform.Kube.{Kube, M}
use k8s_ops_platform.Action.{Executor}

-- The fields that belong to the controller.
pub record Progress : Type 0 where
  pub phase : String
  pub message : String
  pub started_at : Option ℕ
  pub completed_at : Option ℕ
  pub observed_generation : ℤ
  pub retry_count : ℤ
  pub conditions : List Condition

abbrev pub progress : ActionStatus → Progress
progress s = record {
  phase = s.phase;
  message = s.message;
  started_at = s.started_at;
  completed_at = s.completed_at;
  observed_generation = s.observed_generation;
  retry_count = s.retry_count;
  conditions = s.conditions;
}

abbrev pub Keeps : {W E : Type 0} → (Action → M W (Option E × ActionStatus)) → Type 0
Keeps {W} f = (a : Action) (w : W) → progress (f a w).0.1 ≡ progress a.status

abbrev pub KeepsIfAny : {W E : Type 0} → Option (Action → M W (Option E × ActionStatus)) → Type 0
KeepsIfAny none = Unit
KeepsIfAny (some f) = Keeps f

pub record IsWellBehaved {k : Kube} (ex : Executor k) : Type 0 where
  pub prepare_keeps : KeepsIfAny ex.prepare
  pub execute_keeps : Keeps ex.execute
