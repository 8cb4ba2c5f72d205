-- ===== src/Api.antt =====
-- api/v1alpha1/action_types.go and zz_generated.deepcopy.go: the Action resource.
-- A Go string type stays a text, since a stored Action may hold any; a *metav1.Time is an option of
-- nanoseconds since the zero time; an int32 or int64 is a ℤ. Values do not share memory here, so a
-- deep copy is a copy field by field.
pub mod Equality
pub mod Group
pub mod Memory
use k8s_ops_platform.Prelude.{ℕ, String, Option, none, some, List, [], ◌∷◌, Bool, ◌||◌, ◌==◌}
use k8s_ops_platform.Prelude.Int.{ℤ}

-- The constants of type ActionType.
abbrev pub pod_restart : String
pod_restart = "PodRestart"

abbrev pub deployment_restart : String
deployment_restart = "DeploymentRestart"

abbrev pub node_maintenance : String
node_maintenance = "NodeMaintenance"

-- The constants of type ActionPhase; a new Action has the empty phase.
abbrev pub pending : String
pending = "Pending"

abbrev pub running : String
running = "Running"

abbrev pub verifying : String
verifying = "Verifying"

abbrev pub succeeded : String
succeeded = "Succeeded"

abbrev pub failed : String
failed = "Failed"

pub record TargetReference : Type 0 where
  pub kind : String
  pub namespace : String
  pub name : String

pub record ActionSpec : Type 0 where
  pub action_type : String
  pub target : TargetReference
  pub reason : String
  pub timeout_seconds : ℤ
  pub requested_by : String
  pub trigger_source : String

-- metav1.Condition
pub record Condition : Type 0 where
  pub type : String
  pub status : String
  pub observed_generation : ℤ
  pub last_transition_time : ℕ
  pub reason : String
  pub message : String

pub record ActionStatus : Type 0 where
  pub phase : String
  pub message : String
  pub started_at : Option ℕ
  pub completed_at : Option ℕ
  pub observed_generation : ℤ
  pub retry_count : ℤ
  pub conditions : List Condition
  pub execution_state : String
  pub target_uid : String
  pub workload_kind : String
  pub workload_name : String

-- Of the metadata, the fields that the program reads or writes.
pub record ObjectMeta : Type 0 where
  pub name : String
  pub namespace : String
  pub uid : String
  pub generation : ℤ
  pub labels : List (String × String)

pub record Action : Type 0 where
  pub metadata : ObjectMeta
  pub spec : ActionSpec
  pub status : ActionStatus

abbrev pub empty_status : ActionStatus
empty_status = record {
  phase = "";
  message = "";
  started_at = none;
  completed_at = none;
  observed_generation = ℤ.pos 0;
  retry_count = ℤ.pos 0;
  conditions = [];
  execution_state = "";
  target_uid = "";
  workload_kind = "";
  workload_name = "";
}

copy_time : Option ℕ → Option ℕ
copy_time none = none
copy_time (some t) = some t

-- make and copy: the elements one by one.
copy_conditions : List Condition → List Condition
copy_conditions [] = []
copy_conditions (c ∷ cs) = c ∷ copy_conditions cs

-- ActionStatus.DeepCopyInto, which DeepCopyValue calls on a copy of the struct.
-- A value here has no address to share: Api.Memory has the copy with its pointers and slices.
unfoldable pub deep_copy_value : ActionStatus → ActionStatus
unfolding copy_time copy_conditions
deep_copy_value s = record s {
  started_at = copy_time s.started_at;
  completed_at = copy_time s.completed_at;
  conditions = copy_conditions s.conditions;
}
