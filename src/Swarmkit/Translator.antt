-- ===== src/Swarmkit/Translator.antt =====
-- pkg/swarmkit/translator.go: the configuration of a VM for a task. Texts that the code cuts or builds
-- are lists of code points. `decimal` prints a number, and `hex_sha256` is the digest of a text in
-- hexadecimal digits.
pub mod Paths
pub mod Macs
pub mod Sizes
use swarm_cracker.Prelude.{
  ℕ, zero, suc, ◌+◌, ◌*◌, ◌/◌, ◌%◌, String, List, [], ◌∷◌, ◌++◌, Bool, true, false, ◌&&◌, ◌||◌,
  Option, none, some, Map, lookup, nat_eq, string_eq, ◌==◌, Result, ok, err, ltb, take,
  if◌then◌else◌, ℤ, pos, negsuc, code_points, ◌≡◌, Option-cases, inl, inr,
}
use swarm_cracker.Image.Text.{Text, cut, is_empty}
use swarm_cracker.Storage.Volume.{contains_char}
use swarm_cracker.Types.{Task, Resources, NetworkAttachment, get_container}

pub data TaskIdError : Type 0 where
  id_empty id_too_long id_separator id_parent id_null id_backslash : TaskIdError

-- The length in bytes of the UTF-8 encoding.
abbrev utf8_length : Text → ℕ
utf8_length [] = 0
utf8_length (c ∷ cs) =
    (if ltb c 128 then 1 else if ltb c 2048 then 2 else if ltb c 65536 then 3 else 4)
    + utf8_length cs

abbrev pub has_dots : Text → Bool
has_dots [] = false
has_dots (c ∷ []) = false
has_dots (c ∷ d ∷ rest) = ((c == 46) && (d == 46)) || has_dots (d ∷ rest)

-- 47 is the slash and 92 the backslash.
unfoldable pub validate_task_id : Text → Option TaskIdError
validate_task_id id =
    if is_empty id
    then some id_empty
    else if ltb 255 (utf8_length id)
    then some id_too_long
    else if contains_char id 47
    then some id_separator
    else if has_dots id
    then some id_parent
    else if contains_char id 0
    then some id_null
    else if contains_char id 92
    then some id_backslash
    else none

abbrev pub positive_or : (ℕ → ℕ) → ℕ → ℤ → ℕ
positive_or f default (pos (suc n)) = f (suc n)
positive_or f default (pos zero) = default
positive_or f default (negsuc n) = default

abbrev raise_to : ℕ → ℕ → ℕ
raise_to least n = if ltb n least then least else n

-- The processors and the mebibytes of memory for a reservation.
unfoldable pub sizes_for : Resources → ℕ × ℕ
sizes_for r = (
  positive_or (λ n. raise_to 1 (n / 1000000000)) 1 r.nano_cpus,
  positive_or (λ n. raise_to 512 (n / (1024 * 1024))) 512 r.memory_bytes,
)

unfoldable pub vm_sizes : Task → ℕ × ℕ
vm_sizes task = elim (get_container task.spec) [
  | err e ↦ (1, 512)
  | ok c ↦ elim task.spec.resources.reservations [ none ↦ (1, 512) | some r ↦ sizes_for r ]
]

-- What stands before a slash that is not the first character.
abbrev before_slash : Text → Text
before_slash s = elim (cut s 47) [
  | none ↦ s
  | some (before, after) ↦ if is_empty before then s else before
]

abbrev base_args : Text
base_args = code_points "console=ttyS0 reboot=k panic=1 pci=off nomodules init=/sbin/init"

abbrev ip_args : Text → Text → Text
ip_args bridge_ip addr =
    base_args
    ++ (code_points " ip="
        ++ (before_slash addr
            ++ (code_points "::"
                ++ (before_slash bridge_ip ++ code_points ":255.255.255.0::eth0:off"))))

abbrev boot_args_for : Text → List NetworkAttachment → Text
boot_args_for bridge_ip [] = base_args
boot_args_for bridge_ip (n ∷ ns) = elim n.addresses [
  | [] ↦ base_args
  | addr ∷ addrs ↦ ip_args bridge_ip (code_points addr)
]

unfoldable pub build_boot_args : Text → Task → Text
build_boot_args bridge_ip task = boot_args_for bridge_ip task.networks

abbrev pub hex_digit : ℕ → ℕ
hex_digit d = if ltb d 10 then 48 + d else 55 + d

-- `%02X` of a byte
abbrev pub hex_byte : ℕ → Text → Text
hex_byte b rest = hex_digit (b / 16) ∷ hex_digit (b % 16) ∷ rest

-- 58 is the colon.
unfoldable pub generate_mac : ℕ → Text
generate_mac index =
    let b = index % 256 in
    code_points "AA:FC:"
    ++ hex_byte (b / 16) (58 ∷ hex_byte b (58 ∷ hex_byte (b / 4) (58 ∷ hex_byte (b * 3 % 256) [])))

pub record Interface : Type 0 where
  pub iface_id : Text
  pub host_dev_name : Text
  pub guest_mac : Text

abbrev build_interface : (ℕ → Text) → Text → ℕ → Interface
build_interface decimal digest i = record {
  iface_id = code_points "eth" ++ decimal i;
  host_dev_name = code_points "tap-" ++ (take 12 digest ++ (code_points "-" ++ decimal i));
  guest_mac = generate_mac i;
}

-- One interface for each network, from the index on.
abbrev pub interfaces_from : (ℕ → Text) → Text → ℕ → List NetworkAttachment → List Interface
interfaces_from decimal digest i [] = []
interfaces_from decimal digest i (n ∷ ns) =
    build_interface decimal digest i ∷ interfaces_from decimal digest (suc i) ns

unfoldable pub build_network_interfaces : (ℕ → Text) → (Text → Text) → Task → List Interface
build_network_interfaces decimal hex_sha256 task =
    interfaces_from decimal (hex_sha256 (code_points task.id)) 0 task.networks

abbrev pub default_rootfs_dir : Text
default_rootfs_dir = code_points "/var/lib/firecracker/rootfs"

unfoldable pub get_rootfs_path : Task → Text
get_rootfs_path task = elim (lookup "rootfs" task.annotations) [
  | some rootfs ↦ code_points rootfs
  | none ↦ default_rootfs_dir ++ (47 ∷ (code_points task.id ++ code_points ".ext4"))
]

pub record VmConfig : Type 0 where
  pub kernel_image_path : String
  pub boot_args : Text
  pub drive_id : String
  pub path_on_host : Text
  pub is_root_device : Bool
  pub is_read_only : Bool
  pub vcpus : ℕ
  pub mem_size_mib : ℕ
  pub smt : Bool
  pub network_interfaces : List Interface

pub record TaskTranslator : Type 0 where
  pub kernel_path : String
  pub bridge_ip : String

-- `none` is the error for an empty path of the kernel.
unfoldable pub new_task_translator : String → String → Option TaskTranslator
new_task_translator kernel_path bridge_ip =
    if kernel_path == ""
    then none
    else some (record { kernel_path = kernel_path; bridge_ip = bridge_ip })

abbrev pub config_for : (ℕ → Text) → (Text → Text) → TaskTranslator → Task → VmConfig
config_for decimal hex_sha256 t task = record {
  kernel_image_path = t.kernel_path;
  boot_args = build_boot_args (code_points t.bridge_ip) task;
  drive_id = task.id;
  path_on_host = get_rootfs_path task;
  is_root_device = true;
  is_read_only = false;
  vcpus = (vm_sizes task).0;
  mem_size_mib = (vm_sizes task).1;
  smt = false;
  network_interfaces = build_network_interfaces decimal hex_sha256 task;
}

unfoldable pub translate :
    (ℕ → Text) → (Text → Text) → TaskTranslator → Task → Result TaskIdError VmConfig
translate decimal hex_sha256 t task = elim (validate_task_id (code_points task.id)) [
  | some e ↦ err e
  | none ↦ ok (config_for decimal hex_sha256 t task)
]

-- A translation that succeeds has accepted the identifier.
pub translate-config_for :
    (decimal : ℕ → Text) (hex_sha256 : Text → Text) (t : TaskTranslator) (task : Task)
    (config : VmConfig)
    → translate decimal hex_sha256 t task ≡ ok config
    → (validate_task_id (code_points task.id) ≡ none)
      × (config_for decimal hex_sha256 t task ≡ config)
unfolding translate
translate-config_for decimal hex_sha256 t task config done =
    elim (Option-cases (validate_task_id (code_points task.id))) [
      | inr (e, refused) ↦ cc (rw (translate, refused) at done)
      | inl fine ↦ (fine, cc (rw (translate, fine) at done))
    ]
