-- ===== src/Tests/Pools.antt =====
-- Concrete pools: a subnet of four addresses, 10.0.0.4/30, and one of 32, 10.0.0.32/27.
use swarm_cracker.Prelude.{ℕ, ◌<◌, String, [], ◌∷◌, arith, refl}
use swarm_cracker.Cni.Net.{Ip, IpNet}
use swarm_cracker.Cni.Config.{default_cni_config}
use swarm_cracker.Cni.Ip.Value.{value, IsBytes}
use swarm_cracker.Cni.Pool.{IpPool}
use swarm_cracker.Cni.Pool.Range.{SubnetRange, IsAddress, InRange}
use swarm_cracker.Cni.Ipam.{IpamManager, new_pool}
use swarm_cracker.Cni.Ipam.Vips.{Ipv4Subnet}
use swarm_cracker.Tests.Net.{go_net}

abbrev pub cidr : String
cidr = "10.0.0.4/30"

abbrev pub net30 : IpNet
net30 = record { ip = 10 ∷ 0 ∷ 0 ∷ 4 ∷ []; mask = 255 ∷ 255 ∷ 255 ∷ 252 ∷ [] }

abbrev pub pool30 : IpPool
pool30 = record {
  subnet = net30;
  gateway = 10 ∷ 0 ∷ 0 ∷ 5 ∷ [];
  used_ips = [];
  reserved_ips = (10 ∷ 0 ∷ 0 ∷ 5 ∷ []) ∷ [];
  next_ip = 10 ∷ 0 ∷ 0 ∷ 6 ∷ [];
}

abbrev pub m30 : IpamManager
m30 = record { pools = (cidr, pool30) ∷ []; config = default_cni_config }

-- The first and the last address of the pool that can be given out.
abbrev pub ip6 : Ip
ip6 = 10 ∷ 0 ∷ 0 ∷ 6 ∷ []

abbrev pub ip7 : Ip
ip7 = 10 ∷ 0 ∷ 0 ∷ 7 ∷ []

abbrev pub net_of : ℕ → IpNet
net_of last = record { ip = 10 ∷ 0 ∷ 0 ∷ 32 ∷ []; mask = 255 ∷ 255 ∷ 255 ∷ last ∷ [] }

abbrev pub vip_pool : ℕ → IpPool
vip_pool last = new_pool (net_of last) (10 ∷ 0 ∷ 0 ∷ 33 ∷ [])

abbrev pub vip_manager : ℕ → IpamManager
vip_manager last = record { pools = ("net", vip_pool last) ∷ []; config = default_cni_config }

pub ten-IsBytes : (d : ℕ) → d < 256 → IsBytes (10 ∷ 0 ∷ 0 ∷ d ∷ [])
ten-IsBytes d h = (omega arith, (omega arith, (omega arith, (h, tt))))

pub range30 : SubnetRange go_net pool30 167772164 167772168
unfolding go_net value
range30 = record {
  contains_iff = λ ip a. ground arith;
  gateway_bytes = ten-IsBytes 5 (omega arith);
  gateway_inside = omega arith;
  gateway_not_last = omega arith;
  no_wrap = omega arith;
}

-- The pool where the search starts at its last address.
abbrev pub pool_last : IpPool
pool_last = record pool30 { next_ip = ip7 }

pub range_last : SubnetRange go_net pool_last 167772164 167772168
unfolding go_net value
range_last = record {
  contains_iff = λ ip a. ground arith;
  gateway_bytes = ten-IsBytes 5 (omega arith);
  gateway_inside = omega arith;
  gateway_not_last = omega arith;
  no_wrap = omega arith;
}

pub last-IsAddress : IsAddress pool_last ip7
last-IsAddress = record { bytes = ten-IsBytes 7 (omega arith); same_length = refl }

pub start30 : InRange pool30 167772168 pool30.next_ip
unfolding value
start30 = record {
  address = record { bytes = ten-IsBytes 6 (omega arith); same_length = refl };
  above = omega arith;
  below = omega arith;
}

pub ip7-IsAddress : IsAddress pool30 ip7
ip7-IsAddress = record { bytes = ten-IsBytes 7 (omega arith); same_length = refl }

pub ip7-InRange : InRange pool30 167772168 ip7
unfolding value
ip7-InRange = record { address = ip7-IsAddress; above = omega arith; below = omega arith }

pub v4_27 : Ipv4Subnet go_net (net_of 224) 10 0 0 32 5
unfolding go_net value
v4_27 = record {
  base = refl;
  bits = refl;
  bytes = ten-IsBytes 32 (omega arith);
  aligned = omega arith;
  contains_iff = λ ip b l. ground arith;
}

pub v4_28 : Ipv4Subnet go_net (net_of 240) 10 0 0 32 4
unfolding go_net value
v4_28 = record {
  base = refl;
  bits = refl;
  bytes = ten-IsBytes 32 (omega arith);
  aligned = omega arith;
  contains_iff = λ ip b l. ground arith;
}
