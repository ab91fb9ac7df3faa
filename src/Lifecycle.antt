-- ===== src/Lifecycle.antt =====
-- pkg/lifecycle/vmm.go: a VM with its state, the table of VMs, and what the operating system and
-- Firecracker answer, as operations on a world `W`.
pub mod Waiting
pub mod Configure
pub mod Start
pub mod Shutdown
pub mod Queries
pub mod Calls
use swarm_cracker.Prelude.{ℕ, String, Option, Map, Result, ℤ, Bool, insert, string_eq}
use swarm_cracker.Image.Text.{Text}
use swarm_cracker.Json.{Json, Fields}
use swarm_cracker.Swarmkit.Controller.{GoError}

pub data VmState : Type 0 where
  new starting running stopping stopped crashed : VmState

-- What the interface that holds the configuration has in it.
pub data AnyConfig : Type 0 where
  nil_config other_config : AnyConfig
  map_config : Fields → AnyConfig
  json_config : Text → AnyConfig

pub record VmInstance : Type 0 where
  pub id : String
  pub pid : ℤ
  pub config : AnyConfig
  pub state : VmState
  pub created_at : ℕ
  pub socket_path : String
  pub init_system : String
  pub grace_period_sec : ℕ

-- os.Stat, of which the code asks whether it succeeds and whether the file is missing.
pub data FileStatus : Type 0 where
  present missing unreadable : FileStatus

-- The first case that the select of gracefulShutdown can take.
pub data ExitWait : Type 0 where
  exited grace_expired cancelled : ExitWait

-- Times are in milliseconds. `put` sends a body to a path of Firecracker's API and gives the status,
-- `is_url` says whether the path makes a URL, `alive` is the signal 0, and `timer_first` says which
-- case the select of hardShutdown takes.
pub record System (W : Type 0) : Type 0 where
  pub now : W → ℕ
  pub sleep : ℕ → W → W
  pub stat : String → W → FileStatus
  pub get_root : String → W → Bool × W
  pub remove_file : String → W → W
  pub join_path : String → String → String
  pub look_path : String → W → Result GoError String
  pub launch : String → String → W → Result GoError ℤ × W
  pub put : String → Text → Json → W → Result GoError ℕ × W
  pub is_url : Text → Bool
  pub unmarshal : Text → Result GoError Fields
  pub find_process : ℤ → W → Option GoError
  pub terminate : ℤ → W → Option GoError × W
  pub kill : ℤ → W → Option GoError × W
  pub alive : ℤ → W → Bool
  pub await_exit : ℤ → ℕ → W → ExitWait × W
  pub timer_first : W → Bool

pub data ConfigureError : Type 0 where
  bad_json boot_source_failed machine_config_failed : GoError → ConfigureError
  bad_type : ConfigureError
  boot_source_status machine_config_status : ℕ → ConfigureError
  drive_url : Text → ConfigureError
  drive_failed : Text → GoError → ConfigureError
  drive_status : Text → ℕ → ConfigureError

pub data VmmError : Type 0 where
  nil_task already_exists not_found nil_configuration api_not_ready : VmmError
  already_stopping still_starting : VmmError
  binary_not_found launch_failed start_failed kill_failed : GoError → VmmError
  configure_failed : ConfigureError → VmmError
  unexpected_status : ℕ → VmmError
  cannot_remove : VmState → VmmError

abbrev pub Vms : Type 0
Vms = Map String VmInstance

-- SetState, on the VM that the table has for the task.
abbrev pub set_state : VmInstance → VmState → String → Vms → Vms
set_state vm state id vms = insert id (record vm { state = state }) vms
