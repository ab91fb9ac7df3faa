-- ===== src/Cni/Allocator.antt =====
-- pkg/cni/allocator.go: CNINetworkAllocator and its networks. A nil argument is `none`; what a
-- method writes to its argument is returned. The provider is shared with nobody else.
pub mod Pointers
pub mod Networks
pub mod Services
pub mod Tasks
pub mod Nodes
use swarm_cracker.Prelude.{
  ℕ, zero, suc, String, List, [], ◌∷◌, Bool, true, false, Option, none, some, Map, lookup, has,
  insert, erase, string_eq, nat_eq, ◌==◌, not, ltb, ok, err, if◌then◌else◌, map,
}
use swarm_cracker.Cni.Net.{Ip, IpNet, NetLib}
use swarm_cracker.Cni.Errors.{
  CniError, Outcome, network_nil, allocate_network_failed, network_not_found,
}
use swarm_cracker.Cni.Ipam.{IpamManager}
use swarm_cracker.Cni.Network.{AllocatedNetwork}
use swarm_cracker.Cni.Provider.{
  CniEnv, CniProvider, allocate_network, validate_network_driver, set_default_vxlan_udp_port,
}

pub record CniAllocator : Type 0 where
  pub provider : CniProvider
  -- the address of each network in the provider's store, by SwarmKit's id
  pub allocated_nets : Map String ℕ

-- The configured VXLAN port, `none` for a nil configuration.
unfoldable pub new_allocator : CniProvider → Option ℕ → CniAllocator
new_allocator p none = record { provider = p; allocated_nets = [] }
new_allocator p (some port) = record {
  provider = if ltb 0 port then set_default_vxlan_udp_port p port else p;
  allocated_nets = [];
}

-- api.Network, as far as the allocator reads and writes it.
pub record SwarmNetwork : Type 0 where
  pub id : String
  pub name : String
  -- the name in the driver configuration, `none` where that is nil
  pub driver_config : Option String
  pub ingress : Bool
  -- DriverState: the driver's name, the bridge's and the VXLAN identifier
  pub driver_state : Option (String × List ℕ × Option ℕ)
  -- IPAM: the subnet and the gateway
  pub ipam : Option (String × String)

abbrev pub deref : Option ℕ → Map ℕ AllocatedNetwork → Option AllocatedNetwork
deref none store = none
deref (some address) store = lookup address store

-- `a.allocatedNets[id]`, with what the pointer points to.
unfoldable pub network_of : CniAllocator → String → Option AllocatedNetwork
network_of a id = deref (lookup id a.allocated_nets) a.provider.store

-- A write through the pointer `a.allocatedNets[id]`.
abbrev pub write_at : Option ℕ → CniAllocator → AllocatedNetwork → CniAllocator
write_at none a network = a
write_at (some address) a network = record a {
  provider = record a.provider { store = insert address network a.provider.store };
}

unfoldable pub write_network : CniAllocator → String → AllocatedNetwork → CniAllocator
write_network a id network = write_at (lookup id a.allocated_nets) a network

abbrev pub with_ipam : CniAllocator → IpamManager → CniAllocator
with_ipam a ipam = record a { provider = record a.provider { ipam_mgr = ipam } }

unfoldable pub is_allocated : CniAllocator → Option SwarmNetwork → Bool
is_allocated a none = false
is_allocated a (some n) = has n.id a.allocated_nets

abbrev pub driver_or_bridge : Option String → String
driver_or_bridge none = "bridge"
driver_or_bridge (some driver) = if driver == "" then "bridge" else driver

-- AllocatedNetwork.DriverState
unfoldable pub driver_options : AllocatedNetwork → List ℕ × Option ℕ
driver_options network =
    (network.bridge_name, if network.driver == "vxlan" then some network.vxlan_id else none)

-- AllocatedNetwork.IPAMState
unfoldable pub ipam_state : NetLib → AllocatedNetwork → String × String
ipam_state net network = (net.net_string network.subnet, net.ip_string network.gateway)

-- The identity that SwarmKit gives the network, written through the shared pointer.
abbrev pub identified : SwarmNetwork → AllocatedNetwork → AllocatedNetwork
identified n network = record network {
  id = n.id;
  ingress = if n.ingress then true else network.ingress;
}

-- `Allocate` once the provider has returned the address of a new network.
unfoldable pub adopt_network :
    CniEnv
    → CniAllocator
    → CniProvider
    → SwarmNetwork
    → String
    → ℕ
    → Outcome SwarmNetwork × CniAllocator
adopt_network env a p n driver address = elim (lookup address p.store) [
  | none ↦ (err (network_not_found n.id), record a { provider = p })
  | some network ↦
      let adopted = identified n network in
      let (bridge, vni) = driver_options adopted in
      (
        ok (record n {
          driver_state = some (driver, bridge, vni);
          ipam = some (ipam_state env.net adopted);
        }),
        record {
          provider = record p { store = insert address adopted p.store };
          allocated_nets = insert n.id address a.allocated_nets;
        },
      )
]

-- What `Allocate` does with the provider's answer.
unfoldable pub adopt_result :
    CniEnv
    → CniAllocator
    → SwarmNetwork
    → String
    → Outcome ℕ × CniProvider
    → Outcome SwarmNetwork × CniAllocator
adopt_result env a n driver (err e, p) =
    (err (allocate_network_failed e), record a { provider = p })
adopt_result env a n driver (ok address, p) = adopt_network env a p n driver address

unfoldable pub allocate_new :
    CniEnv → CniAllocator → SwarmNetwork → Outcome SwarmNetwork × CniAllocator
allocate_new env a n = elim (validate_network_driver n.driver_config) [
  | err e ↦ (err e, a)
  | ok _ ↦
      let driver = driver_or_bridge n.driver_config in
      adopt_result env a n driver
        (allocate_network env a.provider (if n.name == "" then n.id else n.name) driver)
]

abbrev pub as_argument :
    Outcome SwarmNetwork × CniAllocator → Outcome (Option SwarmNetwork) × CniAllocator
as_argument (err e, b) = (err e, b)
as_argument (ok n, b) = (ok (some n), b)

-- A network that is allocated stays as it is.
unfoldable pub allocate :
    CniEnv → CniAllocator → Option SwarmNetwork → Outcome (Option SwarmNetwork) × CniAllocator
allocate env a none = (err network_nil, a)
allocate env a (some n) =
    if has n.id a.allocated_nets then (ok (some n), a) else as_argument (allocate_new env a n)

unfoldable pub deallocate :
    CniEnv → CniAllocator → Option SwarmNetwork → Outcome Unit × CniAllocator
deallocate env a none = (err network_nil, a)
deallocate env a (some n) = elim (network_of a n.id) [
  | none ↦ (ok tt, a)
  | some network ↦
      let pools = erase (env.net.net_string network.subnet) a.provider.ipam_mgr.pools in
      (
        ok tt,
        record (with_ipam a (record a.provider.ipam_mgr { pools = pools })) {
          allocated_nets = erase n.id a.allocated_nets;
        },
      )
]

unfoldable pub get_allocated_network : CniAllocator → String → Outcome AllocatedNetwork
get_allocated_network a id = elim (network_of a id) [
  | none ↦ err (network_not_found id)
  | some network ↦ ok network
]

-- In the order of the map; Go's order is not specified.
pub list_allocated_networks : CniAllocator → List (Option AllocatedNetwork)
list_allocated_networks a = map (λ entry. lookup entry.1 a.provider.store) a.allocated_nets

-- A placeholder in the source.
pub run_gc : CniAllocator → Outcome Unit × CniAllocator
run_gc a = (ok tt, a)
