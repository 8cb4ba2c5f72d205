-- ===== src/Kube/Objects.antt =====
-- The fields of the cluster's objects (corev1, appsv1) that the program reads or writes. A pointer is
-- an option, a time is a number of nanoseconds with 0 for the zero time.
use k8s_ops_platform.Prelude.{ℕ, String, Option, List, Bool}
use k8s_ops_platform.Prelude.Int.{ℤ}

pub record OwnerReference : Type 0 where
  pub kind : String
  pub name : String
  pub controller : Option Bool

pub record PodCondition : Type 0 where
  pub type : String
  pub status : String

pub record Waiting : Type 0 where
  pub reason : String
  pub message : String

pub record Terminated : Type 0 where
  pub exit_code : ℤ
  pub reason : String
  pub message : String
  pub finished_at : ℕ

pub record ContainerStatus : Type 0 where
  pub name : String
  pub restart_count : ℤ
  -- State.Waiting and LastTerminationState.Terminated
  pub waiting : Option Waiting
  pub last_terminated : Option Terminated

pub record Pod : Type 0 where
  pub namespace : String
  pub name : String
  pub uid : String
  pub annotations : List (String × String)
  pub owner_references : List OwnerReference
  pub deletion_timestamp : Option ℕ
  pub phase : String
  pub conditions : List PodCondition
  pub init_container_statuses : List ContainerStatus
  pub container_statuses : List ContainerStatus

pub record NodeCondition : Type 0 where
  pub type : String
  pub status : String
  pub last_heartbeat_time : ℕ
  pub last_transition_time : ℕ
  pub reason : String
  pub message : String

pub record Node : Type 0 where
  pub name : String
  pub unschedulable : Bool
  pub conditions : List NodeCondition

pub record DeploymentCondition : Type 0 where
  pub type : String
  pub status : String
  pub last_transition_time : ℕ
  pub reason : String
  pub message : String

pub record Deployment : Type 0 where
  pub namespace : String
  pub name : String
  pub generation : ℤ
  pub replicas : Option ℤ
  -- Spec.Template.Annotations
  pub template_annotations : List (String × String)
  pub observed_generation : ℤ
  pub updated_replicas : ℤ
  pub ready_replicas : ℤ
  pub available_replicas : ℤ
  pub unavailable_replicas : ℤ
  pub conditions : List DeploymentCondition

pub record Event : Type 0 where
  pub namespace : String
  pub type : String
  pub reason : String
  pub message : String
  pub involved_kind : String
  pub involved_name : String
  pub involved_uid : String
  pub event_time : ℕ
  pub last_timestamp : ℕ
  pub creation_timestamp : ℕ
