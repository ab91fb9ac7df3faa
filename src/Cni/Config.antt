-- ===== src/Cni/Config.antt =====
-- pkg/cni/types.go: the configuration of the provider, and the constants.
use swarm_cracker.Prelude.{ℕ, String, Bool, true}

abbrev pub default_subnet_pool : String
default_subnet_pool = "10.0.0.0/8"

abbrev pub default_subnet_size : ℕ
default_subnet_size = 24

abbrev pub default_vxlan_port : ℕ
default_vxlan_port = 4789

abbrev pub ingress_network_name : String
ingress_network_name = "ingress"

abbrev pub gw_bridge_network_name : String
gw_bridge_network_name = "docker_gwbridge"

pub record CniConfig : Type 0 where
  pub bridge_name : String
  pub subnet_pool : String
  pub subnet_size : ℕ
  pub vxlan_port : ℕ
  pub ipam_type : String
  pub plugin_dir : String
  pub config_dir : String
  pub enable_ip_masq : Bool

abbrev pub default_cni_config : CniConfig
default_cni_config = record {
  bridge_name = "cni0";
  subnet_pool = default_subnet_pool;
  subnet_size = default_subnet_size;
  vxlan_port = default_vxlan_port;
  ipam_type = "host-local";
  plugin_dir = "/opt/cni/bin";
  config_dir = "/etc/cni/net.d";
  enable_ip_masq = true;
}
