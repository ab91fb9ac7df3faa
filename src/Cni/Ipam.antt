-- ===== src/Cni/Ipam.antt =====
-- pkg/cni/ipam.go: IPAMManager. A method returns its result and the manager after it; the locks
-- make each call one step. A pool is changed through its pointer, which only the map holds.
pub mod Views
pub mod Allocation
pub mod Histories
pub mod Exhaustion
pub mod Vips
use swarm_cracker.Prelude.{
  ℕ, ◌+◌, ◌-◌, ◌%◌, ◌^◌, String, [], ◌∷◌, map, Option, none, some, Map, lookup, insert, erase, has,
  string_eq, ok, err, length, if◌then◌else◌, List,
}
use swarm_cracker.Cni.Net.{Ip, IpNet, NetLib}
use swarm_cracker.Cni.Ip.{increment_ip, get_vip_range_start}
use swarm_cracker.Cni.Errors.{
  Outcome, pool_not_found, invalid_subnet, ip_exhaustion, vip_exhaustion, ip_not_allocated,
}
use swarm_cracker.Cni.Config.{CniConfig, default_cni_config}
use swarm_cracker.Cni.Pool.{
  IpPool, find_ip, find_vip, take_ip, take_vip, max_attempts, max_vip_attempts,
}

pub record IpamManager : Type 0 where
  pub pools : Map String IpPool
  pub config : CniConfig

pub new_ipam_manager : Option CniConfig → IpamManager
new_ipam_manager none = record { pools = []; config = default_cni_config }
new_ipam_manager (some config) = record { pools = []; config = config }

abbrev pub with_pool : IpamManager → String → IpPool → IpamManager
with_pool m cidr pool = record m { pools = insert cidr pool m.pools }

-- `none` is a nil gateway: the address after the one in the CIDR then serves.
abbrev pub gateway_or_first : Option Ip → Ip → Ip
gateway_or_first none ip = increment_ip ip
gateway_or_first (some gateway) ip = gateway

abbrev pub new_pool : IpNet → Ip → IpPool
new_pool subnet gateway = record {
  subnet = subnet;
  gateway = gateway;
  used_ips = [];
  reserved_ips = gateway ∷ [];
  next_ip = increment_ip gateway;
}

unfoldable pub create_pool :
    NetLib → IpamManager → String → Option Ip → Outcome IpPool × IpamManager
create_pool net m cidr gateway_ip = elim (lookup cidr m.pools) [
  | some pool ↦ (ok pool, m)
  | none ↦ elim (net.parse_cidr cidr) [
    | none ↦ (err (invalid_subnet cidr), m)
    | some (subnet, ip) ↦
        let pool = new_pool subnet (gateway_or_first gateway_ip ip) in
        (ok pool, with_pool m cidr pool)
  ]
]

unfoldable pub allocate_ip : NetLib → IpamManager → String → String → Outcome Ip × IpamManager
allocate_ip net m cidr owner = elim (lookup cidr m.pools) [
  | none ↦ (err (pool_not_found cidr), m)
  | some pool ↦ elim (find_ip net pool max_attempts pool.next_ip) [
    | none ↦ (err (ip_exhaustion cidr), m)
    | some ip ↦ (ok ip, with_pool m cidr (take_ip net pool ip owner))
  ]
]

unfoldable pub release_ip : NetLib → IpamManager → Ip → String → Outcome Unit × IpamManager
release_ip net m ip cidr = elim (lookup cidr m.pools) [
  | none ↦ (err (pool_not_found cidr), m)
  | some pool ↦
      if has (net.ip_string ip) pool.used_ips
      then (
        ok tt,
        with_pool m cidr (record pool { used_ips = erase (net.ip_string ip) pool.used_ips }),
      )
      else (err (ip_not_allocated (net.ip_string ip)), m)
]

-- `int` is its 64-bit two's complement pattern.
abbrev pub int_mod : ℕ
int_mod = 2 ^ 64

abbrev pub sub_int : ℕ → ℕ → ℕ
sub_int a b = (a + int_mod - b % int_mod) % int_mod

-- The used addresses, and the total less the network, the broadcast and the reserved addresses.
unfoldable pub get_pool_stats : NetLib → IpamManager → String → Outcome (ℕ × ℕ)
get_pool_stats net m cidr = elim (lookup cidr m.pools) [
  | none ↦ err (pool_not_found cidr)
  | some pool ↦
      let total = 2 ^ (net.mask_bits pool.subnet.mask - net.mask_ones pool.subnet.mask) % int_mod in
      ok (length pool.used_ips, sub_int (sub_int total 2) (length pool.reserved_ips))
]

-- In the order of the map; Go's order is not specified.
pub list_pools : IpamManager → List String
list_pools m = map (λ entry. entry.0) m.pools

unfoldable pub allocate_vip : NetLib → IpamManager → String → String → Outcome Ip × IpamManager
allocate_vip net m cidr service = elim (lookup cidr m.pools) [
  | none ↦ (err (pool_not_found cidr), m)
  | some pool ↦ elim (find_vip net pool max_vip_attempts (get_vip_range_start net pool.subnet)) [
    | none ↦ (err (vip_exhaustion cidr), m)
    | some ip ↦ (ok ip, with_pool m cidr (take_vip net pool ip service))
  ]
]

unfoldable pub release_vip :
    NetLib → IpamManager → Ip → String → String → Outcome Unit × IpamManager
unfolding release_ip
release_vip net m vip cidr service = release_ip net m vip cidr

unfoldable pub get_allocation_owner : NetLib → IpamManager → Ip → String → Outcome String
get_allocation_owner net m ip cidr = elim (lookup cidr m.pools) [
  | none ↦ err (pool_not_found cidr)
  | some pool ↦ elim (lookup (net.ip_string ip) pool.used_ips) [
    | none ↦ err (ip_not_allocated (net.ip_string ip))
    | some owner ↦ ok owner
  ]
]

-- A placeholder in the source: it removes nothing.
pub cleanup_stale_allocations : IpamManager → String → ℕ → ℕ × IpamManager
cleanup_stale_allocations m cidr older_than = elim (lookup cidr m.pools) [
  | none ↦ (0, m)
  | some pool ↦ (0, m)
]
