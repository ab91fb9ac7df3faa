-- ===== src/Configuration.antt =====
-- pkg/config/config.go: the configuration file of a node. `LoadConfig` starts from the decoded file.
pub mod Defaults
pub mod Merging
use swarm_cracker.Prelude.{
  ℕ, zero, suc, String, List, [], Bool, true, false, not, ◌&&◌, ◌||◌, Option, none, some, string_eq,
  ◌==◌, if◌then◌else◌, ℤ, pos, negsuc, Result, ok, err, ltb,
}
use swarm_cracker.Snapshots.{SnapshotConfig, seven_days}

pub record JailerConfig : Type 0 where
  pub uid : ℤ
  pub gid : ℤ
  pub chroot_base_dir : String
  pub net_ns : String

pub record ExecutorConfig : Type 0 where
  pub name : String
  pub kernel_path : String
  pub initrd_path : String
  pub rootfs_dir : String
  pub socket_dir : String
  pub default_vcpus : ℤ
  pub default_memory_mb : ℤ
  pub enable_jailer : Bool
  pub jailer : JailerConfig
  pub init_system : String
  pub init_grace_period : ℤ

pub record NetworkConfig : Type 0 where
  pub bridge_name : String
  pub enable_rate_limit : Bool
  pub max_packets_per_sec : ℤ
  pub subnet : String
  pub bridge_ip : String
  pub ip_mode : String
  pub nat_enabled : Option Bool
  pub vxlan_enabled : Bool
  pub vxlan_static_peers : List String

pub record LoggingConfig : Type 0 where
  pub level : String
  pub format : String
  pub output : String

pub record ImagesConfig : Type 0 where
  pub cache_dir : String
  pub max_cache_size_mb : ℤ
  pub enable_layer_cache : Bool

pub record MetricsConfig : Type 0 where
  pub enabled : Bool
  pub address : String
  pub format : String

-- The fields from `legacy_kernel` on are the older ones at the top level, under the names of those in
-- the executor's part.
pub record Config : Type 0 where
  pub version : ℤ
  pub executor : ExecutorConfig
  pub network : NetworkConfig
  pub logging : LoggingConfig
  pub images : ImagesConfig
  pub metrics : MetricsConfig
  pub snapshot : SnapshotConfig
  pub legacy_kernel : String
  pub legacy_initrd : String
  pub legacy_rootfs : String
  pub legacy_socket : String
  pub legacy_vcpus : ℤ
  pub legacy_memory : ℤ
  pub legacy_enable_jailer : Bool
  pub legacy_jailer : JailerConfig

pub data ConfigError : Type 0 where
  unsupported_version kernel_path_required rootfs_dir_required vcpus_not_positive : ConfigError
  memory_not_positive bridge_name_required packets_not_positive : ConfigError
  uid_required gid_required chroot_required ip_mode_unknown : ConfigError

abbrev pub is_zero : ℤ → Bool
is_zero (pos zero) = true
is_zero (pos (suc n)) = false
is_zero (negsuc n) = false

abbrev pub is_above_zero : ℤ → Bool
is_above_zero (pos (suc n)) = true
is_above_zero (pos zero) = false
is_above_zero (negsuc n) = false

-- The text, or the default for the empty one.
abbrev pub default_to : String → String → String
default_to fallback given = if given == "" then fallback else given

abbrev pub int_default_to : ℤ → ℤ → ℤ
int_default_to fallback given = if is_zero given then fallback else given

-- A positive older number in the place of 0.
abbrev migrate_int : ℤ → ℤ → ℤ
migrate_int old given = if is_above_zero old && is_zero given then old else given

abbrev migrate_executor : Config → ExecutorConfig
migrate_executor c = record c.executor {
  kernel_path = default_to c.legacy_kernel c.executor.kernel_path;
  rootfs_dir = default_to c.legacy_rootfs c.executor.rootfs_dir;
  initrd_path = default_to c.legacy_initrd c.executor.initrd_path;
  socket_dir = default_to c.legacy_socket c.executor.socket_dir;
  default_vcpus = migrate_int c.legacy_vcpus c.executor.default_vcpus;
  default_memory_mb = migrate_int c.legacy_memory c.executor.default_memory_mb;
  enable_jailer = c.legacy_enable_jailer || c.executor.enable_jailer;
}

abbrev is_above_one : ℤ → Bool
is_above_one (pos n) = ltb 1 n
is_above_one (negsuc n) = false

-- Of the decoded file. A migration to the empty text or to false leaves what is there.
unfoldable pub load_config : Config → Result ConfigError Config
load_config c =
    let version = int_default_to (pos 1) c.version in
    if is_above_one version
    then err unsupported_version
    else ok (record c { version = version; executor = migrate_executor c })

unfoldable pub validate_jailer : JailerConfig → Option ConfigError
validate_jailer j =
    if is_zero j.uid
    then some uid_required
    else if is_zero j.gid
    then some gid_required
    else if j.chroot_base_dir == ""
    then some chroot_required
    else none

unfoldable pub validate_network : NetworkConfig → Option ConfigError
validate_network n =
    if n.bridge_name == ""
    then some bridge_name_required
    else if n.enable_rate_limit && not (is_above_zero n.max_packets_per_sec)
    then some packets_not_positive
    else if not (n.ip_mode == "") && (not (n.ip_mode == "static") && not (n.ip_mode == "dhcp"))
    then some ip_mode_unknown
    else none

unfoldable pub validate : Config → Option ConfigError
validate c =
    if (c.executor.kernel_path == "") && (c.legacy_kernel == "")
    then some kernel_path_required
    else if (c.executor.rootfs_dir == "") && (c.legacy_rootfs == "")
    then some rootfs_dir_required
    else if not (is_above_zero c.executor.default_vcpus) && not (is_above_zero c.legacy_vcpus)
    then some vcpus_not_positive
    else if not (is_above_zero c.executor.default_memory_mb) && not (is_above_zero c.legacy_memory)
    then some memory_not_positive
    else if c.network.bridge_name == ""
    then some bridge_name_required
    else if c.network.enable_rate_limit && not (is_above_zero c.network.max_packets_per_sec)
    then some packets_not_positive
    else if c.executor.enable_jailer || c.legacy_enable_jailer
    then validate_jailer c.executor.jailer
    else none

abbrev pub default_executor : Config → ExecutorConfig
default_executor c = record c.executor {
  kernel_path = default_to c.legacy_kernel c.executor.kernel_path;
  rootfs_dir = default_to c.legacy_rootfs c.executor.rootfs_dir;
  socket_dir = default_to (default_to "/var/run/firecracker" c.legacy_socket) c.executor.socket_dir;
  default_vcpus = int_default_to (pos 1) (int_default_to c.legacy_vcpus c.executor.default_vcpus);
  default_memory_mb =
      int_default_to (pos 512) (int_default_to c.legacy_memory c.executor.default_memory_mb);
}

abbrev nat_default : Option Bool → Option Bool
nat_default none = some true
nat_default (some b) = some b

abbrev pub default_network_config : NetworkConfig → NetworkConfig
default_network_config n = record n {
  bridge_name = default_to "swarm-br0" n.bridge_name;
  subnet = default_to "192.168.127.0/24" n.subnet;
  bridge_ip = default_to "192.168.127.1/24" n.bridge_ip;
  ip_mode = default_to "static" n.ip_mode;
  nat_enabled = nat_default n.nat_enabled;
}

abbrev default_logging : LoggingConfig → LoggingConfig
default_logging l = record l {
  level = default_to "info" l.level;
  format = default_to "json" l.format;
  output = default_to "stdout" l.output;
}

abbrev default_snapshots : SnapshotConfig → SnapshotConfig
default_snapshots s = record s {
  snapshot_dir = default_to "/var/lib/firecracker/snapshots" s.snapshot_dir;
  max_snapshots = int_default_to (pos 3) s.max_snapshots;
  max_age = int_default_to (pos seven_days) s.max_age;
}

unfoldable pub set_config_defaults : Config → Config
set_config_defaults c = record c {
  executor = default_executor c;
  network = default_network_config c.network;
  logging = default_logging c.logging;
  images = record c.images { cache_dir = default_to "/var/cache/swarmcracker" c.images.cache_dir };
  snapshot = default_snapshots c.snapshot;
}

-- The text of the other, where it has one.
abbrev pub override : String → String → String
override mine other = if other == "" then mine else other

abbrev pub override_int : ℤ → ℤ → ℤ
override_int mine other = if is_above_zero other then other else mine

abbrev pub merge_executor : ExecutorConfig → ExecutorConfig → ExecutorConfig
merge_executor a b = record a {
  kernel_path = override a.kernel_path b.kernel_path;
  initrd_path = override a.initrd_path b.initrd_path;
  rootfs_dir = override a.rootfs_dir b.rootfs_dir;
  socket_dir = override a.socket_dir b.socket_dir;
  default_vcpus = override_int a.default_vcpus b.default_vcpus;
  default_memory_mb = override_int a.default_memory_mb b.default_memory_mb;
  enable_jailer = b.enable_jailer;
}

abbrev pub merge_network : NetworkConfig → NetworkConfig → NetworkConfig
merge_network a b = record a {
  bridge_name = override a.bridge_name b.bridge_name;
  enable_rate_limit = b.enable_rate_limit;
  max_packets_per_sec = override_int a.max_packets_per_sec b.max_packets_per_sec;
}

-- The rest is that of the first.
unfoldable pub merge : Config → Config → Config
merge a b = record a {
  executor = merge_executor a.executor b.executor;
  network = merge_network a.network b.network;
}
