-- ===== src/Jailer.antt =====
-- pkg/jailer/jailer.go: the configurations, the processes, what the operating system does for a
-- jailer, as operations on a world `W`, and New.
pub mod Command
pub mod Processes
pub mod Tracked
pub mod Cgroup
use swarm_cracker.Prelude.{
  ℕ, String, List, Bool, true, false, ltb, Option, none, some, Result, ok, err, string_eq, ◌==◌,
  if◌then◌else◌, ℤ, pos, negsuc, code_points,
}
use swarm_cracker.Image.Text.{Text, is_empty}
use swarm_cracker.Swarmkit.Controller.{GoError}

pub record Config : Type 0 where
  pub firecracker_path : String
  pub jailer_path : String
  pub chroot_base_dir : String
  pub uid : ℤ
  pub gid : ℤ
  pub net_ns : String
  pub cgroup_version : Text
  pub enable_seccomp : Bool
  pub seccomp_policy_path : String
  pub parent_cgroup : String
  pub cpu_quota_us : ℤ
  pub memory_max : ℤ
  pub extra_args : List Text

pub record VmConfig : Type 0 where
  pub task_id : String
  pub vcpu_count : ℤ
  pub memory_mb : ℤ
  pub kernel_path : String
  pub rootfs_path : String
  pub boot_args : String
  pub ht_enabled : Bool
  pub network_dev : String
  pub guest_mac : String

-- The command is known by its process id.
pub record Process : Type 0 where
  pub task_id : String
  pub socket_path : String
  pub pid : ℤ
  pub start_time : ℕ

-- `ticks` is how often the ticker fires before the context of waitForSocket is done, `tick` is one
-- such wait, and `await_exit` says whether the process ends in the ten seconds of Stop.
pub record System (W : Type 0) : Type 0 where
  pub itoa : ℤ → Text
  pub join_path : List String → String
  pub is_abs : String → Bool
  pub look_path : String → W → Result GoError String
  pub stat : String → W → Option GoError
  pub make_dirs : String → W → Option GoError × W
  pub copy_file : String → String → W → Option GoError × W
  pub launch : String → List Text → W → Result GoError ℤ × W
  pub now : W → ℕ
  pub ticks : W → ℕ
  pub tick : W → W
  pub terminate : ℤ → W → Option GoError × W
  pub await_exit : ℤ → W → Bool × W
  pub kill : ℤ → W → Option GoError × W
  pub await : ℤ → W → W

pub data JailerError : Type 0 where
  nil_config no_firecracker_path no_jailer_path no_chroot_base_dir zero_uid zero_gid : JailerError
  firecracker_unresolved jailer_unresolved firecracker_missing jailer_missing :
      GoError → JailerError
  chroot_failed : GoError → JailerError
  no_task_id no_vcpus no_memory no_kernel_path no_rootfs_path : JailerError
  kernel_missing rootfs_missing : GoError → JailerError
  directory_failed kernel_uncopied rootfs_uncopied launch_failed : GoError → JailerError
  no_socket task_unknown : JailerError
  kill_failed : GoError → JailerError

abbrev is_zero : ℤ → Bool
is_zero (pos n) = ltb n 1
is_zero (negsuc n) = false

abbrev pub is_positive : ℤ → Bool
is_positive (pos n) = ltb 0 n
is_positive (negsuc n) = false

-- The first field that New misses.
abbrev missing_field : Config → Option JailerError
missing_field c =
    if c.firecracker_path == ""
    then some no_firecracker_path
    else if c.jailer_path == ""
    then some no_jailer_path
    else if c.chroot_base_dir == ""
    then some no_chroot_base_dir
    else if is_zero c.uid
    then some zero_uid
    else if is_zero c.gid
    then some zero_gid
    else none

abbrev default_version : Text → Text
default_version version = if is_empty version then code_points "v2" else version

module _ {W : Type 0} (s : System W) where
  abbrev found_at : (GoError → JailerError) → String → W → Result JailerError String
  found_at missing path w = elim (s.stat path w) [ some e ↦ err (missing e) | none ↦ ok path ]

  -- A path that is not absolute is looked up among the directories of programs.
  abbrev resolve :
      (GoError → JailerError) → (GoError → JailerError) → String → W → Result JailerError String
  resolve unresolved missing path w =
      if s.is_abs path then found_at missing path w else elim (s.look_path path w) [
        | err e ↦ err (unresolved e)
        | ok resolved ↦ found_at missing resolved w
      ]

  abbrev with_paths : Config → String → String → W → Result JailerError Config × W
  with_paths c firecracker jailer w =
      let (failure, w') = s.make_dirs c.chroot_base_dir w in
      elim failure [
        | some e ↦ (err (chroot_failed e), w')
        | none ↦ (
          ok (record c {
            firecracker_path = firecracker;
            jailer_path = jailer;
            cgroup_version = default_version c.cgroup_version;
          }),
          w',
        )
      ]

  -- The configuration of the new jailer, whose table of processes is empty.
  unfoldable pub new_jailer : Option Config → W → Result JailerError Config × W
  new_jailer none w = (err nil_config, w)
  new_jailer (some c) w = elim (missing_field c) [
    | some e ↦ (err e, w)
    | none ↦ elim (resolve firecracker_unresolved firecracker_missing c.firecracker_path w) [
      | err e ↦ (err e, w)
      | ok firecracker ↦ elim (resolve jailer_unresolved jailer_missing c.jailer_path w) [
        | err e ↦ (err e, w)
        | ok jailer ↦ with_paths c firecracker jailer w
      ]
    ]
  ]
