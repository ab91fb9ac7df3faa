-- ===== src/Cni/Provider.antt =====
-- pkg/cni/provider.go: CNIProvider. Networks are shared through pointers: the provider's map and
-- the allocator's hold addresses into one store.
use Prim.Native.String.{◌++◌ as text_append}
use swarm_cracker.Prelude.{
  ℕ, suc, ◌+◌, ◌%◌, String, code_points, List, [], ◌∷◌, ◌++◌, Bool, false, Option, none, some, Map,
  lookup, insert, string_eq, nat_eq, ◌==◌, ok, err, if◌then◌else◌,
}
use swarm_cracker.Cni.Net.{Ip, IpNet, NetLib}
use swarm_cracker.Cni.Errors.{
  Outcome, driver_not_supported, ingress_driver_not_supported, ipam_driver_not_supported,
  network_not_found, generate_subnet_failed, parse_subnet_failed, create_pool_failed,
  config_generation_failed, config_write_failed, invalid_subnet, plugin_validation_failed,
  predefined_networks_failed,
}
use swarm_cracker.Cni.Config.{
  CniConfig, default_cni_config, ingress_network_name, gw_bridge_network_name,
}
use swarm_cracker.Cni.Subnet.{generate_subnet}
use swarm_cracker.Cni.Names.{u32, generate_vxlan_id, network_name_from_swarm_kit}
use swarm_cracker.Cni.Ipam.{IpamManager, create_pool, new_ipam_manager}
use swarm_cracker.Cni.Network.{AllocatedNetwork}

-- What the provider uses and this repository does not implement: the standard library's functions
-- on addresses, its printer of numbers and its lower-casing, and whether the JSON encoder and the
-- file system accept the configuration of a network.
pub record CniEnv : Type 0 where
  pub net : NetLib
  pub decimal : ℕ → String
  pub to_lower : ℕ → ℕ
  pub config_generated : String → Bool
  pub config_written : String → Bool

pub record CniProvider : Type 0 where
  pub config : CniConfig
  pub ipam_mgr : IpamManager
  pub vxlan_port : ℕ
  pub networks : Map String ℕ
  pub network_index : ℕ
  -- the networks by address, and the next address
  pub store : Map ℕ AllocatedNetwork
  pub next_address : ℕ

-- `NewCNIProvider`. The plugins are found or not, and the two configurations of
-- `initPredefinedNetworks` are written or not.
unfoldable pub new_cni_provider : Option CniConfig → Bool → Bool → Outcome CniProvider
new_cni_provider cfg plugins_found predefined_written =
    let config : CniConfig = elim cfg [ none ↦ default_cni_config | some given ↦ given ] in
    if plugins_found
    then (if predefined_written
        then ok (record {
          config = config;
          ipam_mgr = new_ipam_manager (some config);
          vxlan_port = config.vxlan_port;
          networks = [];
          network_index = 0;
          store = [];
          next_address = 0;
        })
        else err predefined_networks_failed)
    else err plugin_validation_failed

-- The names and the drivers.
pub predefined_networks : List (String × String)
predefined_networks = (ingress_network_name, "bridge") ∷ (gw_bridge_network_name, "bridge") ∷ []

-- A nil driver is `none`.
unfoldable pub validate_network_driver : Option String → Outcome Unit
validate_network_driver none = ok tt
validate_network_driver (some driver) =
    if driver == "bridge"
    then ok tt
    else if driver == "vxlan"
    then ok tt
    else if driver == ""
    then ok tt
    else err (driver_not_supported driver)

unfoldable pub validate_ingress_network_driver : Option String → Outcome Unit
validate_ingress_network_driver none = ok tt
validate_ingress_network_driver (some driver) =
    if driver == "bridge"
    then ok tt
    else if driver == ""
    then ok tt
    else err (ingress_driver_not_supported driver)

unfoldable pub validate_ipam_driver : Option String → Outcome Unit
validate_ipam_driver none = ok tt
validate_ipam_driver (some driver) =
    if driver == "host-local"
    then ok tt
    else if driver == ""
    then ok tt
    else err (ipam_driver_not_supported driver)

unfoldable pub set_default_vxlan_udp_port : CniProvider → ℕ → CniProvider
set_default_vxlan_udp_port p port = record p { vxlan_port = port }

unfoldable pub get_network : CniProvider → String → Outcome ℕ
get_network p network_id = elim (lookup network_id p.networks) [
  | none ↦ err (network_not_found network_id)
  | some address ↦ ok address
]

-- The network that `AllocateNetwork` builds, once the index is counted up.
unfoldable pub new_network : CniEnv → CniProvider → String → String → IpNet → Ip → AllocatedNetwork
new_network env p name driver subnet gateway = record {
  id = text_append "net-" (env.decimal p.network_index);
  name = name;
  driver = driver;
  subnet = subnet;
  gateway = gateway;
  vxlan_id = if driver == "vxlan" then generate_vxlan_id (code_points name) p.network_index else 0;
  bridge_name = code_points "br-" ++ network_name_from_swarm_kit env.to_lower (code_points name);
  ingress = false;
  attachments = [];
  services = [];
}

-- The network is registered before its configuration is written.
unfoldable pub register_network : CniProvider → AllocatedNetwork → CniProvider
register_network p network = record p {
  networks = insert network.id p.next_address p.networks;
  store = insert p.next_address network p.store;
  next_address = suc p.next_address;
}

unfoldable pub write_network_config : CniEnv → CniProvider → String → ℕ → Outcome ℕ × CniProvider
write_network_config env p name address =
    if env.config_generated name
    then (if env.config_written name then (ok address, p) else (err config_write_failed, p))
    else (err config_generation_failed, p)

-- From the pool on. `CreatePool` may return a pool that another network has made.
unfoldable pub allocate_in_subnet :
    CniEnv → CniProvider → String → String → String → IpNet → Ip → Outcome ℕ × CniProvider
allocate_in_subnet env p name driver cidr subnet gateway =
    let (result, ipam) = create_pool env.net p.ipam_mgr cidr (some gateway) in
    let q = record p { ipam_mgr = ipam } in
    elim result [
      | err e ↦ (err (create_pool_failed e), q)
      | ok pool ↦
          write_network_config env
            (register_network q (new_network env q name driver subnet gateway)) name q.next_address
    ]

unfoldable pub count_network : CniProvider → CniProvider
count_network p = record p { network_index = (p.network_index + 1) % u32 }

-- The index stays counted up where a later step fails. The gateway is the address in the CIDR.
unfoldable pub allocate_network : CniEnv → CniProvider → String → String → Outcome ℕ × CniProvider
allocate_network env p name driver =
    let q = count_network p in
    elim (generate_subnet env.net env.decimal q.config.subnet_pool q.config.subnet_size
      q.network_index) [
        | err e ↦ (err (generate_subnet_failed e), q)
        | ok cidr ↦ elim (env.net.parse_cidr cidr) [
          | none ↦ (err (parse_subnet_failed (invalid_subnet cidr)), q)
          | some (subnet, gateway) ↦ allocate_in_subnet env q name driver cidr subnet gateway
        ]
      ]
