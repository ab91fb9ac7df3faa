-- ===== src/Tests/Configurations.antt =====
-- The theorems about the configuration, and the default one that EnsureDefaultConfig writes, which is not
-- valid.
use swarm_cracker.Prelude.{[], false, none, some, pos, ◌≡◌, refl}
use swarm_cracker.Snapshots.{default_snapshot_config}
use swarm_cracker.Configuration.{
  Config, JailerConfig, kernel_path_required, set_config_defaults, validate,
}
use swarm_cracker.Configuration.Defaults.{set_config_defaults-validate}

abbrev no_jailer : JailerConfig
no_jailer = record { uid = pos 0; gid = pos 0; chroot_base_dir = ""; net_ns = "" }

abbrev blank : Config
blank = record {
  version = pos 0;
  executor = record {
    name = "";
    kernel_path = "";
    initrd_path = "";
    rootfs_dir = "";
    socket_dir = "";
    default_vcpus = pos 0;
    default_memory_mb = pos 0;
    enable_jailer = false;
    jailer = no_jailer;
    init_system = "";
    init_grace_period = pos 0;
  };
  network = record {
    bridge_name = "";
    enable_rate_limit = false;
    max_packets_per_sec = pos 0;
    subnet = "";
    bridge_ip = "";
    ip_mode = "";
    nat_enabled = none;
    vxlan_enabled = false;
    vxlan_static_peers = [];
  };
  logging = record { level = ""; format = ""; output = "" };
  images = record { cache_dir = ""; max_cache_size_mb = pos 0; enable_layer_cache = false };
  metrics = record { enabled = false; address = ""; format = "" };
  snapshot = default_snapshot_config;
  legacy_kernel = "";
  legacy_initrd = "";
  legacy_rootfs = "";
  legacy_socket = "";
  legacy_vcpus = pos 0;
  legacy_memory = pos 0;
  legacy_enable_jailer = false;
  legacy_jailer = no_jailer;
}

default_refused : validate (set_config_defaults blank) ≡ some kernel_path_required
unfolding validate set_config_defaults
default_refused = refl

abbrev legacy : Config
legacy = record blank { legacy_kernel = "/vmlinux"; legacy_rootfs = "/roots" }

set_config_defaults-validate_example : validate (set_config_defaults legacy) ≡ none
set_config_defaults-validate_example =
    set_config_defaults-validate legacy refl refl refl refl refl refl refl refl
