-- ===== src/Translator.antt =====
-- pkg/translator/translator.go: the configuration of a VM for a task. `decimal` prints a number,
-- `hex_sha256` is the digest of a text in hexadecimal digits, and `parse_cidr` gives the address,
-- printed, and the bytes of the mask.
pub mod Config
pub mod Boot
pub mod Drives
use swarm_cracker.Prelude.{
  ℕ, suc, ◌/◌, List, [], ◌∷◌, ◌++◌, Bool, true, false, Option, none, some, lookup, nat_eq,
  string_eq, ◌==◌, Result, ok, err, ltb, take, if◌then◌else◌, ℤ, pos, code_points,
}
use swarm_cracker.Image.Text.{Text, is_empty, replace_all, trim_prefix}
use swarm_cracker.Storage.Volume.{contains_char}
use swarm_cracker.Swarmkit.Translator.{has_dots, positive_or}
use swarm_cracker.Types.{
  Task, Container, Mount, Resources, NetworkAttachment, ContainerError, get_container,
}
use swarm_cracker.Json.{Fields}
use swarm_cracker.Translator.Config.{
  TaskTranslator, Drive, NetworkInterface, MachineConfig, VmmConfig, config_to_map,
}
use swarm_cracker.Translator.Boot.{build_boot_args}

pub data MountPathError : Type 0 where
  path_empty path_parent path_null : MountPathError

-- The number says which mount is refused.
pub data TranslateError : Type 0 where
  nil_task no_rootfs : TranslateError
  not_a_container : ContainerError → TranslateError
  source_invalid target_invalid : ℕ → MountPathError → TranslateError

unfoldable pub validate_mount_path : Text → Option MountPathError
validate_mount_path path =
    if is_empty path
    then some path_empty
    else if has_dots path
    then some path_parent
    else if contains_char path 0
    then some path_null
    else none

abbrev at_least_one : ℕ → ℕ
at_least_one n = if ltb n 1 then 1 else n

abbrev positive_else : (ℕ → ℕ) → ℤ → ℤ → ℤ
positive_else f old (pos (suc n)) = pos (f (suc n))
positive_else f old n = old

unfoldable pub apply_resources : MachineConfig → Resources → MachineConfig
apply_resources machine limits = record machine {
  mem_size_mib = positive_else (λ n. n / 1024 / 1024) machine.mem_size_mib limits.memory_bytes;
  vcpu_count =
      positive_else (λ n. at_least_one (n / 1000000000)) machine.vcpu_count limits.nano_cpus;
}

unfoldable pub build_network_interface : (ℕ → Text) → (Text → Text) → ℕ → Text → NetworkInterface
build_network_interface decimal hex_sha256 index task_id = record {
  iface_id = code_points "eth" ++ decimal index;
  host_dev_name =
      code_points "tap-" ++ (take 12 (hex_sha256 task_id) ++ (code_points "-" ++ decimal index));
  mac_address = [];
  rx_queue_size = pos 256;
  tx_queue_size = pos 256;
}

abbrev interfaces_from :
    (ℕ → Text) → (Text → Text) → Text → ℕ → List NetworkAttachment → List NetworkInterface
interfaces_from decimal hex_sha256 task_id i [] = []
interfaces_from decimal hex_sha256 task_id i (n ∷ ns) =
    build_network_interface decimal hex_sha256 i task_id
    ∷ interfaces_from decimal hex_sha256 task_id (suc i) ns

abbrev pub root_drive : Text → Drive
root_drive path = record {
  drive_id = code_points "rootfs";
  is_root_device = true;
  path_on_host = path;
  is_read_only = false;
}

unfoldable pub build_root_drive : Task → Result TranslateError Drive
build_root_drive task = elim (lookup "rootfs" task.annotations) [
  | none ↦ err no_rootfs
  | some path ↦ ok (root_drive (code_points path))
]

-- strings.TrimPrefix of the one character 45, the hyphen; 47 is the slash.
abbrev trim_hyphen : Text → Text
trim_hyphen id = elim (trim_prefix id (45 ∷ [])) [ none ↦ id | some rest ↦ rest ]

unfoldable pub build_volume_drive : Mount → Drive
build_volume_drive mount = record {
  drive_id = trim_hyphen (replace_all (code_points mount.target) 47 (45 ∷ []));
  is_root_device = false;
  path_on_host = mount.source;
  is_read_only = mount.read_only;
}

abbrev mount_error : ℕ → Mount → Option TranslateError
mount_error i mount = elim (validate_mount_path mount.source) [
  | some e ↦ some (source_invalid i e)
  | none ↦ elim (validate_mount_path (code_points mount.target)) [
    | some e ↦ some (target_invalid i e)
    | none ↦ none
  ]
]

-- The drives of the mounts from the i-th on, in their order.
unfoldable pub volume_drives : ℕ → List Mount → Result TranslateError (List Drive)
volume_drives i [] = ok []
volume_drives i (mount ∷ mounts) =
    let others = volume_drives (suc i) mounts in
    elim (mount_error i mount) [
      | some e ↦ err e
      | none ↦ elim others [ err e ↦ err e | ok ds ↦ ok (build_volume_drive mount ∷ ds) ]
    ]

module _ (decimal : ℕ → Text) (hex_sha256 : Text → Text)
    (parse_cidr : Text → Option (Text × List ℕ)) where
  abbrev machine_for : TaskTranslator → Task → MachineConfig
  machine_for t task =
      let machine : MachineConfig = record {
        vcpu_count = t.default_vcpus;
        mem_size_mib = t.default_mem_mb;
        smt = false;
      } in
      elim task.spec.resources.limits [
        | none ↦ machine
        | some limits ↦ apply_resources machine limits
      ]

  abbrev pub config_for : TaskTranslator → Task → List Drive → VmmConfig
  config_for t task drives = record {
    boot_source = record {
      kernel_image_path = t.kernel_path;
      boot_args = build_boot_args decimal parse_cidr t task;
      initrd_path = t.initrd_path;
    };
    machine_config = machine_for t task;
    network_interfaces = interfaces_from decimal hex_sha256 (code_points task.id) 0 task.networks;
    drives = drives;
  }

  -- The configuration before it is encoded.
  unfoldable pub build_config : TaskTranslator → Task → Result TranslateError VmmConfig
  build_config t task = elim (get_container task.spec) [
    | err e ↦ err (not_a_container e)
    | ok container ↦ elim (build_root_drive task) [
      | err e ↦ err e
      | ok root ↦ elim (volume_drives 0 container.mounts) [
        | err e ↦ err e
        | ok volumes ↦ ok (config_for t task (root ∷ volumes))
      ]
    ]
  ]

  unfoldable pub translate : TaskTranslator → Option Task → Result TranslateError Fields
  translate t none = err nil_task
  translate t (some task) = elim (build_config t task) [
    | err e ↦ err e
    | ok config ↦ ok (config_to_map config)
  ]
