-- ===== src/Jailer/Cgroup.antt =====
-- pkg/jailer/cgroup.go: the cgroup of a task with its limits, over the files that the kernel shows.
-- Reading the statistics is not modelled.
pub mod Devices
use swarm_cracker.Prelude.{
  ℕ, String, List, [], ◌∷◌, ◌++◌, Bool, true, false, ◌&&◌, ◌||◌, ◌/◌, ◌%◌, Option, none, some, ltb,
  nat_eq, string_eq, ◌==◌, Result, ok, err, if◌then◌else◌, ℤ, code_points,
}
use swarm_cracker.Image.Text.{Text, is_empty}
use swarm_cracker.Swarmkit.Controller.{GoError}
use swarm_cracker.Jailer.{is_positive}

pub record ResourceLimits : Type 0 where
  pub cpu_quota_us : ℤ
  pub cpu_max : Text
  pub memory_max : ℤ
  pub memory_high : ℤ
  pub io_weight : ℕ
  pub io_read_bps : ℤ
  pub io_write_bps : ℤ

pub record BlockDevice : Type 0 where
  pub major : ℕ
  pub minor : ℕ
  pub path : String

-- `device_of` is the number of the device in os.Stat, `is_device` whether /sys/dev/block has one of
-- these numbers, and `is_blank` whether a text is empty once trimmed.
pub record Cgroups (W : Type 0) : Type 0 where
  pub itoa : ℤ → Text
  pub decimal : ℕ → Text
  pub is_blank : Text → Bool
  pub join_path : List String → String
  pub make_dirs : String → W → Option GoError × W
  pub write_file : String → Text → W → Option GoError × W
  pub read_file : String → W → Result GoError Text
  pub remove_all : String → W → Option GoError × W
  pub device_of : String → W → Option ℕ
  pub is_device : ℕ → ℕ → W → Bool

pub data CgroupError : Type 0 where
  no_cgroup_v2 : CgroupError
  base_failed directory_failed cpu_failed memory_failed procs_failed remove_failed :
      GoError → CgroupError

abbrev pub same_device : BlockDevice → BlockDevice → Bool
same_device d e = (d.major == e.major) && (d.minor == e.minor)

unfoldable pub is_known : BlockDevice → List BlockDevice → Bool
is_known dev [] = false
is_known dev (existing ∷ rest) = same_device existing dev || is_known dev rest

abbrev pub add_device : BlockDevice → List BlockDevice → List BlockDevice
add_device dev devices = if is_known dev devices then devices else devices ++ (dev ∷ [])

abbrev storage_paths : List String
storage_paths = "/var/lib/firecracker" ∷ "/var/lib/swarmcracker" ∷ "/var/lib/docker" ∷ "/" ∷ []

abbrev as_failure :
    {W : Type 0} → (GoError → CgroupError) → Option GoError × W → Option CgroupError × W
as_failure reason (none, w) = (none, w)
as_failure reason (some e, w) = (some (reason e), w)

module _ {W : Type 0} (c : Cgroups W) where
  abbrev device_at : String → ℕ → W → Option BlockDevice
  device_at path dev w =
      if c.is_device (dev / 256) (dev % 256) w
      then some (record { major = dev / 256; minor = dev % 256; path = path })
      else if c.is_device (dev / 1048576 % 4096) (dev % 1048576) w
      then some (record { major = dev / 1048576 % 4096; minor = dev % 1048576; path = path })
      else none

  unfoldable pub get_device_for_path : String → W → Option BlockDevice
  get_device_for_path path w = elim (c.device_of path w) [
    | none ↦ none
    | some dev ↦ device_at path dev w
  ]

  unfoldable pub devices_from : List String → List BlockDevice → W → List BlockDevice
  devices_from [] devices w = devices
  devices_from (path ∷ paths) devices w = elim (get_device_for_path path w) [
    | none ↦ devices_from paths devices w
    | some dev ↦ devices_from paths (add_device dev devices) w
  ]

  unfoldable pub discover_block_devices : W → List BlockDevice
  discover_block_devices w = devices_from storage_paths [] w

  -- A limit that is set is written into its file.
  abbrev write_limit : String → String → ℤ → W → Option GoError × W
  write_limit cgroup name limit w =
      if is_positive limit
      then c.write_file (c.join_path (cgroup ∷ name ∷ [])) (c.itoa limit) w
      else (none, w)

  abbrev cpu_max_of : ResourceLimits → Text
  cpu_max_of limits =
      if is_empty limits.cpu_max && is_positive limits.cpu_quota_us
      then c.itoa limits.cpu_quota_us ++ code_points " 1000000"
      else limits.cpu_max

  unfoldable pub set_cpu_limits : String → ResourceLimits → W → Option GoError × W
  set_cpu_limits cgroup limits w =
      if is_empty (cpu_max_of limits)
      then (none, w)
      else c.write_file (c.join_path (cgroup ∷ "cpu.max" ∷ [])) (cpu_max_of limits) w

  unfoldable pub set_memory_limits : String → ResourceLimits → W → Option GoError × W
  set_memory_limits cgroup limits w =
      let (failure, w') = write_limit cgroup "memory.max" limits.memory_max w in
      elim failure [
        | some e ↦ (some e, w')
        | none ↦ write_limit cgroup "memory.high" limits.memory_high w'
      ]

  abbrev io_max_line : BlockDevice → ResourceLimits → Text
  io_max_line dev limits =
      c.decimal dev.major
      ++ (code_points ":"
          ++ (c.decimal dev.minor
              ++ (code_points " rbps="
                  ++ (c.itoa limits.io_read_bps
                      ++ (code_points " wbps=" ++ c.itoa limits.io_write_bps)))))

  unfoldable pub limit_devices : String → ResourceLimits → List BlockDevice → W → Option GoError × W
  limit_devices cgroup limits [] w = (none, w)
  limit_devices cgroup limits (dev ∷ devices) w =
      let (failure, w') =
        c.write_file (c.join_path (cgroup ∷ "io.max" ∷ [])) (io_max_line dev limits) w in
      elim failure [ some e ↦ (some e, w') | none ↦ limit_devices cgroup limits devices w' ]

  abbrev set_bandwidth : String → ResourceLimits → W → Option GoError × W
  set_bandwidth cgroup limits w =
      if is_positive limits.io_read_bps || is_positive limits.io_write_bps
      then limit_devices cgroup limits (discover_block_devices w) w
      else (none, w)

  unfoldable pub set_io_limits : String → ResourceLimits → W → Option GoError × W
  set_io_limits cgroup limits w =
      let (failure, w') =
        if ltb 0 limits.io_weight
        then c.write_file (c.join_path (cgroup ∷ "io.weight" ∷ [])) (c.decimal limits.io_weight) w
        else (none, w) in
      elim failure [ some e ↦ (some e, w') | none ↦ set_bandwidth cgroup limits w' ]

  abbrev limit_memory_and_io : String → ResourceLimits → W → Option CgroupError × W
  limit_memory_and_io cgroup limits w =
      let (failure, w') = set_memory_limits cgroup limits w in
      elim failure [
        | some e ↦ (some (memory_failed e), w')
        | none ↦ (none, (set_io_limits cgroup limits w').1)
      ]

  -- A failure of the limits on input and output is logged.
  unfoldable pub create_cgroup : String → String → ResourceLimits → W → Option CgroupError × W
  create_cgroup base_path task_id limits w =
      let cgroup = c.join_path (base_path ∷ task_id ∷ []) in
      let (no_dir, w₁) = c.make_dirs cgroup w in
      elim no_dir [
        | some e ↦ (some (directory_failed e), w₁)
        | none ↦
            let (no_cpu, w₂) = set_cpu_limits cgroup limits w₁ in
            elim no_cpu [
              | some e ↦ (some (cpu_failed e), w₂)
              | none ↦ limit_memory_and_io cgroup limits w₂
            ]
      ]

  abbrev procs_file : String → String → String
  procs_file base_path task_id =
      c.join_path (c.join_path (base_path ∷ task_id ∷ []) ∷ "cgroup.procs" ∷ [])

  unfoldable pub add_process : String → String → ℤ → W → Option CgroupError × W
  add_process base_path task_id pid w =
      as_failure procs_failed (c.write_file (procs_file base_path task_id) (c.itoa pid) w)

  abbrev move_processes : String → String → W → W
  move_processes base_path task_id w = elim (c.read_file (procs_file base_path task_id) w) [
    | err e ↦ w
    | ok pids ↦ if c.is_blank pids then w else (c.write_file "/sys/fs/cgroup/cgroup.procs" pids w).1
  ]

  unfoldable pub remove_cgroup : String → String → W → Option CgroupError × W
  remove_cgroup base_path task_id w =
      as_failure remove_failed
        (c.remove_all (c.join_path (base_path ∷ task_id ∷ [])) (move_processes base_path task_id w))

  abbrev based_at : String → W → Result CgroupError String × W
  based_at base_path w =
      let (failure, w') = c.make_dirs base_path w in
      elim failure [ some e ↦ (err (base_failed e), w') | none ↦ (ok base_path, w') ]

  -- The directory of the new manager; `available` is whether version 2 of cgroups is there.
  unfoldable pub new_cgroup_manager : Bool → String → W → Result CgroupError String × W
  new_cgroup_manager available given w =
      if available
      then based_at (if given == "" then "/sys/fs/cgroup/swarmcracker" else given) w
      else (err no_cgroup_v2, w)
