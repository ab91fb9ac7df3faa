-- ===== src/Translator/Config.antt =====
-- pkg/translator/translator.go: the translator's settings, the configuration of a VM, and its form
-- as a map by way of encoding/json. Integers stand as they are; the code's pass through a float64
-- keeps those below 2^53.
use swarm_cracker.Prelude.{
  String, Bool, List, [], ◌∷◌, ◌==◌, string_eq, if◌then◌else◌, ℤ, pos, code_points,
}
use swarm_cracker.Image.Text.{Text, is_empty}
use swarm_cracker.Json.{Fields, Items, nil, field, end, item, flag, number, text, array, object}

pub record TaskTranslator : Type 0 where
  pub kernel_path : Text
  pub initrd_path : Text
  pub default_vcpus : ℤ
  pub default_mem_mb : ℤ
  pub init_system : String
  pub init_path : String
  -- the one field of the network's configuration that is read
  pub bridge_ip : Text

pub record Config : Type 0 where
  pub kernel_path : Text
  pub initrd_path : Text
  pub default_vcpus : ℤ
  pub default_mem_mb : ℤ
  pub init_system : String
  pub bridge_ip : Text

-- lifecycle.ManagerConfig
pub record ManagerConfig : Type 0 where
  pub kernel_path : Text
  pub rootfs_dir : Text
  pub socket_dir : Text
  pub default_vcpus : ℤ
  pub default_memory_mb : ℤ
  pub enable_jailer : Bool

-- What the argument of NewTaskTranslator holds; the pointers are not nil.
pub data AnyConfig : Type 0 where
  translator_config : Config → AnyConfig
  manager_config : ManagerConfig → AnyConfig
  other_config : AnyConfig

unfoldable pub get_init_path : String → String
get_init_path init_system =
    if init_system == "tini"
    then "/sbin/tini"
    else if init_system == "dumb-init"
    then "/sbin/dumb-init"
    else ""

abbrev pub default_translator : TaskTranslator
default_translator = record {
  kernel_path = code_points "/usr/share/firecracker/vmlinux";
  initrd_path = [];
  default_vcpus = pos 1;
  default_mem_mb = pos 512;
  init_system = "tini";
  init_path = "/sbin/tini";
  bridge_ip = [];
}

unfoldable pub new_task_translator : AnyConfig → TaskTranslator
unfolding get_init_path
new_task_translator (translator_config c) = record {
  kernel_path = c.kernel_path;
  initrd_path = c.initrd_path;
  default_vcpus = c.default_vcpus;
  default_mem_mb = c.default_mem_mb;
  init_system = c.init_system;
  init_path = get_init_path c.init_system;
  bridge_ip = c.bridge_ip;
}
new_task_translator (manager_config c) = record default_translator {
  kernel_path = c.kernel_path;
  default_vcpus = c.default_vcpus;
  default_mem_mb = c.default_memory_mb;
}
new_task_translator other_config = default_translator

pub record BootSourceConfig : Type 0 where
  pub kernel_image_path : Text
  pub boot_args : Text
  pub initrd_path : Text

pub record MachineConfig : Type 0 where
  pub vcpu_count : ℤ
  pub mem_size_mib : ℤ
  pub smt : Bool

pub record NetworkInterface : Type 0 where
  pub iface_id : Text
  pub host_dev_name : Text
  pub mac_address : Text
  pub rx_queue_size : ℤ
  pub tx_queue_size : ℤ

pub record Drive : Type 0 where
  pub drive_id : Text
  pub is_root_device : Bool
  pub path_on_host : Text
  pub is_read_only : Bool

-- Without the vsock, which is never set and then left out of the encoding.
pub record VmmConfig : Type 0 where
  pub boot_source : BootSourceConfig
  pub machine_config : MachineConfig
  pub network_interfaces : List NetworkInterface
  pub drives : List Drive

-- The tag `omitempty` leaves an empty text out.
abbrev omit_empty : String → Text → Fields → Fields
omit_empty key value rest = if is_empty value then rest else field key (text value) rest

abbrev pub boot_source_fields : BootSourceConfig → Fields
boot_source_fields b =
    field "kernel_image_path" (text b.kernel_image_path)
      (field "boot_args" (text b.boot_args) (omit_empty "initrd_path" b.initrd_path nil))

abbrev pub machine_fields : MachineConfig → Fields
machine_fields m =
    field "vcpu_count" (number m.vcpu_count)
      (field "mem_size_mib" (number m.mem_size_mib) (field "smt" (flag m.smt) nil))

abbrev interface_fields : NetworkInterface → Fields
interface_fields n = field "iface_id" (text n.iface_id) (
    field "host_dev_name" (text n.host_dev_name) (
      omit_empty "mac_address" n.mac_address (
        field "rx_queue_size" (number n.rx_queue_size)
          (field "tx_queue_size" (number n.tx_queue_size) nil))))

abbrev pub drive_fields : Drive → Fields
drive_fields d = field "drive_id" (text d.drive_id) (
    field "is_root_device" (flag d.is_root_device)
      (field "path_on_host" (text d.path_on_host) (field "is_read_only" (flag d.is_read_only) nil)))

abbrev pub encode_all : {A : Type 0} → (A → Fields) → List A → Items
encode_all encode [] = end
encode_all encode (x ∷ xs) = item (object (encode x)) (encode_all encode xs)

unfoldable pub config_to_map : VmmConfig → Fields
config_to_map c = field "boot-source" (object (boot_source_fields c.boot_source)) (
    field "machine-config" (object (machine_fields c.machine_config)) (
      field "network-interfaces" (array (encode_all interface_fields c.network_interfaces))
        (field "drives" (array (encode_all drive_fields c.drives)) nil)))
