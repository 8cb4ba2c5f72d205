-- ===== src/Kube.antt =====
-- The program's view of Kubernetes: the client libraries, the cluster behind them, the clock and the
-- random source are a parameter, a record of operations on an unknown world. Every operation returns
-- the world after it, so what others do to the cluster between two calls is covered as well.
pub mod Objects
pub mod Errors
pub mod Config
pub mod Startup
use k8s_ops_platform.Prelude.{ℕ, String, Option, List, Bool}
use k8s_ops_platform.Api.{Action, Condition}
use Objects.{Pod, Node, Deployment}
use Errors.{Error, Result}

pub record Kube : Type 1 where
  pub World : Type 0
  -- What a call of the API server fails with, its text, and the tests of apierrors, which look
  -- through wrapping.
  pub ApiError : Type 0
  pub error_text : ApiError → String
  pub is_not_found : Error ApiError → Bool
  pub is_conflict : Error ApiError → Bool
  pub is_already_exists : Error ApiError → Bool
  pub is_too_many_requests : Error ApiError → Bool
  pub ignore_not_found : Error ApiError → Option (Error ApiError)
  -- client.Client and the typed client, a namespace before a name.
  pub get_action : String → String → World → Result ApiError Action × World
  pub get_pod : String → String → World → Result ApiError Pod × World
  pub get_node : String → World → Result ApiError Node × World
  pub get_deployment : String → String → World → Result ApiError Deployment × World
  pub list_pods_in : String → World → Result ApiError (List Pod) × World
  pub list_pods_on : String → World → Result ApiError (List Pod) × World
  pub create_action : Action → World → Option ApiError × World
  -- The answer is decoded into the object that was sent.
  pub update_status : Action → World → (Option ApiError × Action) × World
  pub delete_pod : Pod → World → Option ApiError × World
  pub evict_pod : String → String → World → Option ApiError × World
  -- A merge patch from a base object (the second argument) to a changed one.
  pub patch_node : Node → Node → World → Option ApiError × World
  pub patch_deployment : Deployment → Deployment → World → Option ApiError × World
  -- apimeta.SetStatusCondition, which stamps a changed condition with the time.
  pub set_status_condition : List Condition → Condition → World → List Condition × World
  -- time.Now in nanoseconds, wait.Jitter (a duration and a factor in percent), and two renderings of
  -- the Go library.
  pub time_now : World → ℕ × World
  pub jitter : ℕ → ℕ → World → ℕ × World
  pub format_rfc3339 : ℕ → String
  pub quote : String → String

abbrev pub Err : Kube → Type 0
Err k = Error k.ApiError

-- An effect on a world `W`: a result and the world after it.
abbrev pub M : Type 0 → Type 0 → Type 0
M W A = W → A × W

abbrev pub pure : {W A : Type 0} → A → M W A
pure a w = (a, w)

infixl 5 ◌>>=◌
abbrev pub ◌>>=◌ : {W A B : Type 0} → M W A → (A → M W B) → M W B
◌>>=◌ m f w = f (m w).0 (m w).1
