-- ===== src/Tests/Ipam.antt =====
-- The theorems about the address manager on the concrete pools.
use swarm_cracker.Prelude.{
  ℕ, ◌+◌, ◌^◌, ◌≤◌, ◌<◌, String, List, [], ◌∷◌, true, false, arith, refl, ◌≡◌, ◌≢◌, ok, err, some,
  none, ◌↔◌, All, lookup, string_eq,
}
use swarm_cracker.Cni.Net.{Ip}
use swarm_cracker.Cni.Config.{default_cni_config}
use swarm_cracker.Cni.Ip.Value.{value}
use swarm_cracker.Cni.Pool.{IpPool, is_free, take_ip}
use swarm_cracker.Cni.Pool.Range.{InRange}
use swarm_cracker.Cni.Ipam.{IpamManager, allocate_ip, allocate_vip, release_ip, with_pool}
use swarm_cracker.Cni.Ipam.Views.{GrantsOrFails}
use swarm_cracker.Cni.Ipam.Allocation.{allocate_ip-Grants}
use swarm_cracker.Cni.Ipam.Histories.{
  IpamCall, allocates, releases, creates, allocates_vip, run, run_keeps_owner, allocate_ip_unique,
}
use swarm_cracker.Cni.Ipam.Exhaustion.{allocate_ip_complete}
use swarm_cracker.Cni.Ipam.Vips.{allocate_vip_in_subnet}
use swarm_cracker.Tests.Net.{go_net}
use swarm_cracker.Tests.Pools.{
  cidr, pool30, m30, ip6, ip7, net_of, vip_pool, vip_manager, range30, start30, ip7-InRange, v4_27,
  pool_last,
}

allocate_ip-Grants_example :
    GrantsOrFails go_net m30 cidr "task" (allocate_ip go_net m30 cidr "task")
allocate_ip-Grants_example = allocate_ip-Grants go_net m30 cidr "task"

-- The pool after its first address has been given out.
abbrev pool_one : IpPool
pool_one = record pool30 { used_ips = ("10.0.0.6", "a") ∷ []; next_ip = ip7 }

abbrev m_one : IpamManager
m_one = record { pools = (cidr, pool_one) ∷ []; config = default_cni_config }

first_allocation : allocate_ip go_net m30 cidr "a" ≡ (ok ip6, m_one)
unfolding allocate_ip take_ip swarm_cracker.Cni.Pool.find_ip is_free
    swarm_cracker.Cni.Pool.next_candidate swarm_cracker.Cni.Pool.is_reserved
    swarm_cracker.Cni.Ip.increment_ip go_net swarm_cracker.Prelude.lookup
    swarm_cracker.Prelude.insert
first_allocation = refl

abbrev between : List IpamCall
between = allocates cidr "x" ∷ releases ip7 cidr ∷ allocates_vip cidr "s" ∷ creates cidr none ∷ []

-- What the next caller finds after the calls in between.
abbrev m_mid : IpamManager
m_mid = run go_net m_one between

second_allocation :
    allocate_ip go_net m_mid cidr "b"
    ≡ (ok (10 ∷ 0 ∷ 0 ∷ 8 ∷ []), (allocate_ip go_net m_mid cidr "b").1)
unfolding run swarm_cracker.Cni.Ipam.Histories.step allocate_ip allocate_vip release_ip
    swarm_cracker.Cni.Ipam.create_pool take_ip swarm_cracker.Cni.Pool.take_vip
    swarm_cracker.Cni.Pool.find_ip swarm_cracker.Cni.Pool.find_vip is_free
    swarm_cracker.Cni.Pool.next_candidate swarm_cracker.Cni.Pool.is_reserved
    swarm_cracker.Cni.Ip.increment_ip swarm_cracker.Cni.Ip.decrement_ip
    swarm_cracker.Cni.Ip.get_vip_range_start go_net swarm_cracker.Prelude.lookup
    swarm_cracker.Prelude.insert swarm_cracker.Prelude.erase
second_allocation = refl

allocate_ip_unique_example : ip6 ≢ (10 ∷ 0 ∷ 0 ∷ 8 ∷ [])
unfolding go_net
allocate_ip_unique_example =
    allocate_ip_unique go_net m30 m_one (allocate_ip go_net m_mid cidr "b").1 cidr "a" "b" ip6
      (10 ∷ 0 ∷ 0 ∷ 8 ∷ []) between first_allocation (refl, (refl, (refl, (refl, tt))))
      second_allocation

m30-found : lookup cidr m30.pools ≡ some pool30
unfolding swarm_cracker.Prelude.lookup
m30-found = refl

ip7_free : is_free go_net pool30 ip7 ≡ true
unfolding is_free go_net swarm_cracker.Cni.Pool.is_reserved swarm_cracker.Prelude.lookup
ip7_free = refl

allocate_ip_complete_example :
    (r : Ip) × ((allocate_ip go_net m30 cidr "a").0 ≡ ok r)
    × InRange pool30 167772168 r
    × (is_free go_net pool30 r ≡ true)
allocate_ip_complete_example =
    allocate_ip_complete go_net m30 cidr pool30 167772164 167772168 m30-found range30 "a"
      (omega arith) start30 ip7 ip7-InRange ip7_free

abbrev m_last : IpamManager
m_last = record { pools = (cidr, pool_last) ∷ []; config = default_cni_config }

m_last-found : lookup cidr m_last.pools ≡ some pool_last
unfolding swarm_cracker.Prelude.lookup
m_last-found = refl

abbrev m_after : IpamManager
m_after = record {
  pools =
      (cidr, record pool30 { used_ips = ("10.0.0.7", "a") ∷ []; next_ip = 10 ∷ 0 ∷ 0 ∷ 8 ∷ [] })
      ∷ [];
  config = default_cni_config;
}

last_allocation : allocate_ip go_net m_last cidr "a" ≡ (ok ip7, m_after)
unfolding allocate_ip take_ip swarm_cracker.Cni.Pool.find_ip is_free
    swarm_cracker.Cni.Pool.next_candidate swarm_cracker.Cni.Pool.is_reserved
    swarm_cracker.Cni.Ip.increment_ip go_net swarm_cracker.Prelude.lookup
    swarm_cracker.Prelude.insert
last_allocation = refl

vip_found : (last : ℕ) → lookup "net" (vip_manager last).pools ≡ some (vip_pool last)
unfolding swarm_cracker.Prelude.lookup
vip_found last = refl

vip_27 : (allocate_vip go_net (vip_manager 224) "net" "web").0 ≡ ok (10 ∷ 0 ∷ 0 ∷ 47 ∷ [])
unfolding allocate_vip swarm_cracker.Cni.Pool.find_vip is_free swarm_cracker.Cni.Pool.is_reserved
    swarm_cracker.Cni.Ip.get_vip_range_start go_net swarm_cracker.Prelude.lookup
vip_27 = refl

vip_28 : (allocate_vip go_net (vip_manager 240) "net" "web").0 ≡ ok (10 ∷ 0 ∷ 0 ∷ 32 ∷ [])
unfolding allocate_vip swarm_cracker.Cni.Pool.find_vip is_free swarm_cracker.Cni.Pool.is_reserved
    swarm_cracker.Cni.Ip.get_vip_range_start go_net swarm_cracker.Prelude.lookup
vip_28 = refl

allocate_vip_in_subnet_example :
    (go_net.contains (net_of 224) (10 ∷ 0 ∷ 0 ∷ 47 ∷ []) ≡ true)
    × (value (10 ∷ 0 ∷ 0 ∷ 32 ∷ []) + 2 ^ 5 ≤ value (10 ∷ 0 ∷ 0 ∷ 47 ∷ []) + 32)
    × (value (10 ∷ 0 ∷ 0 ∷ 47 ∷ []) + 17 ≤ value (10 ∷ 0 ∷ 0 ∷ 32 ∷ []) + 2 ^ 5)
allocate_vip_in_subnet_example =
    allocate_vip_in_subnet go_net (net_of 224) 10 0 0 32 5 v4_27 (vip_manager 224) "net" "web"
      (vip_pool 224) (10 ∷ 0 ∷ 0 ∷ 47 ∷ []) (vip_found 224) refl vip_27 (omega arith)
