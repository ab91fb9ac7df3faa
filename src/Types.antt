-- ===== src/Types.antt =====
-- pkg/types/task.go: the task that the executor hands to its managers. A missing slice or map is an
-- empty one, which the code reads alike.
use swarm_cracker.Prelude.{ℕ, String, List, Bool, Option, Map, Result, ok, err, ℤ, pos, [], none}
use swarm_cracker.Image.Text.{Text}

pub record SecretRef : Type 0 where
  pub id : String
  pub name : String
  pub target : String
  pub contents : List ℕ

pub record ConfigRef : Type 0 where
  pub id : String
  pub name : String
  pub target : String
  pub contents : List ℕ

pub record Mount : Type 0 where
  pub target : String
  pub source : Text
  pub read_only : Bool

pub record Container : Type 0 where
  pub image : String
  pub command : List String
  pub args : List String
  pub env : List String
  pub mounts : List Mount

-- What the interface holds: nothing, a container, or a value of another type.
pub data Runtime : Type 0 where
  no_runtime other_runtime : Runtime
  container_runtime : Container → Runtime

pub record Resources : Type 0 where
  pub nano_cpus : ℤ
  pub memory_bytes : ℤ

pub record ResourceRequirements : Type 0 where
  pub limits : Option Resources
  pub reservations : Option Resources

pub data RestartPolicyCondition : Type 0 where
  restart_any restart_none restart_on_failure : RestartPolicyCondition

pub record RestartPolicy : Type 0 where
  pub condition : RestartPolicyCondition
  pub max_attempts : ℕ

pub record Placement : Type 0 where
  pub constraints : List String

pub record TaskSpec : Type 0 where
  pub runtime : Runtime
  pub runtime_type : String
  pub resources : ResourceRequirements
  pub restart : RestartPolicy
  pub placement : Placement

-- The values that Go gives to fields that are not set.
abbrev pub no_restart : RestartPolicy
no_restart = record { condition = restart_any; max_attempts = 0 }

abbrev pub no_placement : Placement
no_placement = record { constraints = [] }

pub data ContainerError : Type 0 where
  runtime_is_nil runtime_not_container : ContainerError

unfoldable pub get_container : TaskSpec → Result ContainerError Container
get_container s = elim s.runtime [
  | no_runtime ↦ err runtime_is_nil
  | other_runtime ↦ err runtime_not_container
  | container_runtime c ↦ ok c
]

unfoldable pub set_container : TaskSpec → Container → TaskSpec
set_container s c = record s { runtime = container_runtime c; runtime_type = "container" }

pub record BridgeConfig : Type 0 where
  pub name : String

pub record DriverConfig : Type 0 where
  pub bridge : Option BridgeConfig

pub record NetworkSpec : Type 0 where
  pub name : String
  pub driver : String
  pub driver_config : Option DriverConfig

pub record Network : Type 0 where
  pub id : String
  pub spec : NetworkSpec

pub record NetworkAttachment : Type 0 where
  pub network : Network
  pub addresses : List String

pub data TaskState : Type 0 where
  state_new state_pending state_assigned state_accepted state_preparing state_starting : TaskState
  state_running state_complete state_failed state_rejected state_remove state_orphaned : TaskState

-- Without the status of the runtime, which is of any type and which nothing modelled here reads.
pub record TaskStatus : Type 0 where
  pub state : TaskState
  pub timestamp : ℤ
  pub message : String
  pub failure : Option String

abbrev pub no_status : TaskStatus
no_status = record { state = state_new; timestamp = pos 0; message = ""; failure = none }

pub record Task : Type 0 where
  pub id : String
  pub service_id : String
  pub node_id : String
  pub spec : TaskSpec
  pub status : TaskStatus
  pub networks : List NetworkAttachment
  pub secrets : List SecretRef
  pub configs : List ConfigRef
  pub annotations : Map String String
