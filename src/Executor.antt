-- ===== src/Executor.antt =====
-- pkg/executor/executor.go, FirecrackerExecutor, over the interfaces of its managers, which act on a
-- world `W`. A manager that is given a task by pointer and changes it returns it.
pub mod Events
pub mod Composition
use swarm_cracker.Prelude.{
  ℕ, String, Bool, Option, none, some, lookup, string_eq, nat_eq, ◌==◌, Result, ok, err,
  if◌then◌else◌, ℤ, pos, negsuc, zero, suc,
}
use swarm_cracker.Types.{Task, TaskStatus}
use swarm_cracker.Swarmkit.Controller.{GoError}
use swarm_cracker.Executor.Events.{Channel, Event, empty_channel, send_event, close}

-- Without the sections for the jailer and the network, which the executor only holds.
pub record Config : Type 0 where
  pub kernel_path : String
  pub initrd_path : String
  pub rootfs_dir : String
  pub socket_dir : String
  pub default_vcpus : ℤ
  pub default_memory_mb : ℤ
  pub enable_jailer : Bool

pub record FirecrackerExecutor : Type 0 where
  pub config : Config
  pub events : Channel

abbrev number_or : ℕ → ℤ → ℤ
number_or default (pos zero) = pos default
number_or default (pos (suc n)) = pos (suc n)
number_or default (negsuc n) = negsuc n

abbrev text_or : String → String → String
text_or default s = if s == "" then default else s

unfoldable pub new_firecracker_executor : Option Config → Option FirecrackerExecutor
new_firecracker_executor none = none
new_firecracker_executor (some config) = some (record {
  config = record config {
    default_vcpus = number_or 1 config.default_vcpus;
    default_memory_mb = number_or 512 config.default_memory_mb;
    socket_dir = text_or "/var/run/firecracker" config.socket_dir;
    rootfs_dir = text_or "/var/lib/firecracker/rootfs" config.rootfs_dir;
  };
  events = empty_channel;
})

-- The interfaces of pkg/types, as far as they are called here, and os.Remove.
pub record Managers (W VmConfig : Type 0) : Type 0 where
  pub prepare_image : Task → W → Option GoError × Task × W
  pub prepare_network : Task → W → Option GoError × Task × W
  pub cleanup_network : Task → W → Option GoError × W
  pub shutdown_network : W → W
  pub translate : Task → Result GoError VmConfig
  pub vm_start : Task → VmConfig → W → Option GoError × W
  pub vm_stop : Task → W → Option GoError × W
  pub vm_wait : Task → W → Result GoError TaskStatus
  pub vm_describe : Task → W → Result GoError TaskStatus × W
  pub vm_remove : Task → W → Option GoError × W
  pub remove_file : String → W → W

pub data ExecutorError : Type 0 where
  image_failed network_failed translation_failed start_failed remove_failed :
      GoError → ExecutorError

module _ {W VmConfig : Type 0} (m : Managers W VmConfig) where
  -- The cleanup function of the image, which reads the annotations as they are when it runs.
  unfoldable pub roll_back_image : Task → W → W
  roll_back_image task w = elim (lookup "rootfs" task.annotations) [
    | none ↦ w
    | some path ↦ if path == "" then w else m.remove_file path w
  ]

  unfoldable pub prepare : Task → W → Option ExecutorError × Task × W
  prepare task w =
      let (no_image, task₁, w₁) = m.prepare_image task w in
      elim no_image [
        | some e ↦ (some (image_failed e), task₁, w₁)
        | none ↦
            let (no_network, task₂, w₂) = m.prepare_network task₁ w₁ in
            elim no_network [
              | some e ↦ (some (network_failed e), task₂, roll_back_image task₂ w₂)
              | none ↦ (none, task₂, w₂)
            ]
      ]

  -- `room` says whether the channel has or gets room for the event in five seconds.
  unfoldable pub start :
      Bool → Task → FirecrackerExecutor → W → Option ExecutorError × FirecrackerExecutor × W
  start room task x w = elim (m.translate task) [
    | err e ↦ (some (translation_failed e), x, w)
    | ok config ↦
        let (failure, w') = m.vm_start task config w in
        elim failure [
          | some e ↦ (some (start_failed e), x, w')
          | none ↦
              let event : Event = record { task = task; message = "VM started successfully" } in
              (none, record x { events = (send_event room event x.events).1 }, w')
        ]
  ]

  unfoldable pub wait : Task → W → Result GoError TaskStatus
  wait task w = m.vm_wait task w

  unfoldable pub stop : Task → W → Option GoError × W
  stop task w = m.vm_stop task w

  unfoldable pub describe : Task → W → Result GoError TaskStatus × W
  describe task w = m.vm_describe task w

  -- The errors of Stop and of the network's cleanup are not returned.
  unfoldable pub remove : Task → W → Option ExecutorError × W
  remove task w =
      let (failure, w') = m.vm_remove task (m.cleanup_network task (m.vm_stop task w).1).1 in
      elim failure [ some e ↦ (some (remove_failed e), w') | none ↦ (none, w') ]

  unfoldable pub close_executor : FirecrackerExecutor → W → FirecrackerExecutor × W
  close_executor x w = (record x { events = close x.events }, m.shutdown_network w)
