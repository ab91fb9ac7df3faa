-- ===== src/Cni/Pool.antt =====
-- pkg/cni/types.go, IPPool, and the parts of pkg/cni/ipam.go that look at one pool.
pub mod Scan
pub mod Range
pub mod Coverage
use Prim.Native.String.{◌++◌ as text_append}
use swarm_cracker.Prelude.{
  ℕ, zero, suc, String, List, [], ◌∷◌, Bool, true, false, not, ◌&&◌, Option, none, some, Map, has,
  insert, string_eq, if◌then◌else◌,
}
use swarm_cracker.Cni.Net.{Ip, IpNet, NetLib}
use swarm_cracker.Cni.Ip.{increment_ip, decrement_ip, get_vip_range_start}

pub record IpPool : Type 0 where
  pub subnet : IpNet
  pub gateway : Ip
  -- the owner of each allocated address, by the address's text
  pub used_ips : Map String String
  pub reserved_ips : List Ip
  pub next_ip : Ip

pub is_listed : NetLib → List Ip → Ip → Bool
is_listed net [] ip = false
is_listed net (reserved ∷ rest) ip =
    if net.ip_equal ip reserved then true else is_listed net rest ip

unfoldable pub is_reserved : NetLib → IpPool → Ip → Bool
unfolding is_listed
is_reserved net pool ip = is_listed net pool.reserved_ips ip

-- The test of both loops: the address is neither used nor reserved.
unfoldable pub is_free : NetLib → IpPool → Ip → Bool
is_free net pool ip = not (has (net.ip_string ip) pool.used_ips) && not (is_reserved net pool ip)

-- `AllocateIP`: the address after one that is taken.
unfoldable pub next_candidate : NetLib → IpPool → Ip → Ip
next_candidate net pool ip =
    if net.contains pool.subnet (increment_ip ip)
    then increment_ip ip
    else increment_ip pool.gateway

-- The loop of `AllocateIP`, on the attempts left.
unfoldable pub find_ip : NetLib → IpPool → ℕ → Ip → Option Ip
find_ip net pool zero ip = none
find_ip net pool (suc attempts) ip =
    let rest = find_ip net pool attempts (next_candidate net pool ip) in
    if is_free net pool ip then some ip else rest

-- The loop of `AllocateVIP`, on the attempts left.
unfoldable pub find_vip : NetLib → IpPool → ℕ → Ip → Option Ip
find_vip net pool zero ip = none
find_vip net pool (suc attempts) ip =
    let rest = find_vip net pool attempts (decrement_ip ip) in
    if is_free net pool ip then some ip else rest

abbrev pub max_attempts : ℕ
max_attempts = 256

abbrev pub max_vip_attempts : ℕ
max_vip_attempts = 16

-- What the two loops write to the pool when they succeed.
unfoldable pub take_ip : NetLib → IpPool → Ip → String → IpPool
take_ip net pool ip owner = record pool {
  used_ips = insert (net.ip_string ip) owner pool.used_ips;
  next_ip = increment_ip ip;
}

unfoldable pub take_vip : NetLib → IpPool → Ip → String → IpPool
take_vip net pool ip service = record pool {
  used_ips = insert (net.ip_string ip) (text_append "vip:" service) pool.used_ips;
}
