-- ===== src/Swarmkit/Api.antt =====
-- The task of SwarmKit's API: the fields that pkg/swarmkit reads. A pointer that may be nil is an option.
use swarm_cracker.Prelude.{String, List, Bool, Option, Map, ℤ}
use swarm_cracker.Image.Text.{Text}

-- The `oneof` of a reference: another kind, or a file target, which may be nil.
pub data ApiTarget : Type 0 where
  no_file : ApiTarget
  file_target : Option String → ApiTarget

pub record ApiReference : Type 0 where
  pub id : String
  pub name : String
  pub target : ApiTarget

pub record ApiMount : Type 0 where
  pub target : String
  pub source : Text
  pub read_only : Bool

pub record ApiContainer : Type 0 where
  pub image : String
  pub command : List String
  pub args : List String
  pub env : List String
  pub mounts : List ApiMount
  pub secrets : List ApiReference
  pub configs : List ApiReference

pub data ApiRuntime : Type 0 where
  api_container : Option ApiContainer → ApiRuntime
  api_other : ApiRuntime

pub record ApiResources : Type 0 where
  pub nano_cpus : ℤ
  pub memory_bytes : ℤ

pub record ApiRequirements : Type 0 where
  pub reservations : Option ApiResources

pub record ApiDriver : Type 0 where
  pub name : String
  pub options : Option (Map String String)

pub record ApiNetwork : Type 0 where
  pub id : String
  pub name : String
  pub driver_state : Option ApiDriver
  pub driver_config : Option ApiDriver

pub record ApiAttachment : Type 0 where
  pub network : Option ApiNetwork
  pub addresses : List String

pub record ApiTask : Type 0 where
  pub id : String
  pub service_id : String
  pub node_id : String
  pub runtime : ApiRuntime
  pub resources : Option ApiRequirements
  pub networks : List (Option ApiAttachment)
