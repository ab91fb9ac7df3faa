-- ===== src/Cni/Ipam/Allocation.antt =====
-- pkg/cni/ipam.go: the methods of the IPAM manager as transitions of the ledger.
use Prim.Native.String.{◌++◌ as text_append}
use swarm_cracker.Prelude.{
  String, ◌≡◌, ◌⊎◌, inl, inr, refl, some, lookup, lookup-insert, lookup-erase, insert, erase, has,
  string_eq, arith, eq_iff, ok, err, Option-cases, true, Bool-cases,
}
use swarm_cracker.Cni.Net.{Ip, NetLib}
use swarm_cracker.Cni.Errors.{CniError, pool_not_found, ip_exhaustion, vip_exhaustion}
use swarm_cracker.Cni.Ip.{get_vip_range_start}
use swarm_cracker.Cni.Pool.{
  IpPool, is_free, find_ip, find_vip, take_ip, take_vip, max_attempts, max_vip_attempts,
}
use swarm_cracker.Cni.Pool.Scan.{find_ip-is_free, find_vip-is_free}
use swarm_cracker.Cni.Ipam.{IpamManager, with_pool, allocate_ip, allocate_vip, release_ip}
use swarm_cracker.Cni.Ipam.Views.{
  ledger, Grants, Frees, GrantsOrFails, FreesOrFails, ledger-with_pool,
}

module _ (net : NetLib) (m : IpamManager) (cidr : String) where
  -- A pool in which a free address has been given to an owner.
  grants_lem :
      (pool after : IpPool) (ip : Ip) (owner : String)
      → lookup cidr m.pools ≡ some pool
      → is_free net pool ip ≡ true
      → after.used_ips ≡ insert (net.ip_string ip) owner pool.used_ips
      → Grants (ledger m) (ledger (with_pool m cidr after)) cidr (net.ip_string ip) owner
  unfolding is_free ledger
  grants_lem pool after ip owner found free e = record {
    was_free = ground (arith, found, free);
    entries = λ j t. rw (ledger-with_pool, e, lookup-insert) (ground (arith, found, eq_iff cidr j));
  }

  -- A pool from which an owned address has been taken.
  frees_lem :
      (pool : IpPool) (text : String)
      → lookup cidr m.pools ≡ some pool
      → has text pool.used_ips ≡ true
      → Frees
          (ledger m)
          (ledger (with_pool m cidr (record pool { used_ips = erase text pool.used_ips })))
          cidr
          text
  unfolding ledger
  frees_lem pool text found used = elim (Option-cases (lookup text pool.used_ips)) [
    | inl e ↦ cc (rw (e, has) at used)
    | inr (owner, e) ↦ record {
      owner = owner;
      was_owned = ground (arith, found, e);
      entries = λ j t. rw (ledger-with_pool, lookup-erase) (ground (arith, found, eq_iff cidr j));
    }
  ]

  allocate_ip_cases :
      (owner : String)
      → ((e : CniError) × (allocate_ip net m cidr owner ≡ (err e, m)))
        ⊎ ((pool : IpPool) × (ip : Ip) × (lookup cidr m.pools ≡ some pool)
            × (find_ip net pool max_attempts pool.next_ip ≡ some ip)
            × (allocate_ip net m cidr owner
                ≡ (ok ip, with_pool m cidr (take_ip net pool ip owner))))
  unfolding allocate_ip
  allocate_ip_cases owner = elim (Option-cases (lookup cidr m.pools)) [
    | inl missing ↦ inl (pool_not_found cidr, rw (missing, allocate_ip))
    | inr (pool, found) ↦ elim (Option-cases (find_ip net pool max_attempts pool.next_ip)) [
      | inl full ↦ inl (ip_exhaustion cidr, rw (found, full, allocate_ip))
      | inr (ip, hit) ↦ inr (pool, ip, found, hit, rw (found, hit, allocate_ip))
    ]
  ]

  pub allocate_vip_cases :
      (service : String)
      → ((e : CniError) × (allocate_vip net m cidr service ≡ (err e, m)))
        ⊎ ((pool : IpPool) × (ip : Ip) × (lookup cidr m.pools ≡ some pool)
            × (find_vip net pool max_vip_attempts (get_vip_range_start net pool.subnet) ≡ some ip)
            × (allocate_vip net m cidr service
                ≡ (ok ip, with_pool m cidr (take_vip net pool ip service))))
  unfolding allocate_vip
  allocate_vip_cases service = elim (Option-cases (lookup cidr m.pools)) [
    | inl missing ↦ inl (pool_not_found cidr, rw (missing, allocate_vip))
    | inr (pool, found) ↦
        let start = get_vip_range_start net pool.subnet in
        elim (Option-cases (find_vip net pool max_vip_attempts start)) [
          | inl full ↦ inl (vip_exhaustion cidr, rw (found, full, allocate_vip))
          | inr (ip, hit) ↦ inr (pool, ip, found, hit, rw (found, hit, allocate_vip))
        ]
  ]

  -- `AllocateIP` returns an address that had no owner, and records its owner and nothing else; or
  -- it fails, and leaves the manager as it was.
  pub allocate_ip-Grants :
      (owner : String) → GrantsOrFails net m cidr owner (allocate_ip net m cidr owner)
  allocate_ip-Grants owner = elim (allocate_ip_cases owner) [
    | inl (e, r) ↦ rw r refl
    | inr (pool, ip, found, hit, r) ↦ rw r (
        grants_lem pool (take_ip net pool ip owner) ip owner found
          (find_ip-is_free net pool max_attempts pool.next_ip ip hit) (unfold take_ip in refl))
  ]

  -- `AllocateVIP` returns an address that had no owner, and records the service as its owner and
  -- nothing else; or it fails, and leaves the manager as it was.
  pub allocate_vip-Grants :
      (service : String)
      → GrantsOrFails net m cidr (text_append "vip:" service) (allocate_vip net m cidr service)
  allocate_vip-Grants service = elim (allocate_vip_cases service) [
    | inl (e, r) ↦ rw r refl
    | inr (pool, ip, found, hit, r) ↦ rw r (
        grants_lem pool (take_vip net pool ip service) ip (text_append "vip:" service) found
          (find_vip-is_free net pool max_vip_attempts _ ip hit) (unfold take_vip in refl))
  ]

  -- `ReleaseIP` takes an address from its owner and changes nothing else; or it fails, and leaves
  -- the manager as it was.
  pub release_ip-Frees :
      (ip : Ip) → FreesOrFails m cidr (net.ip_string ip) (release_ip net m ip cidr)
  release_ip-Frees ip = elim (Option-cases (lookup cidr m.pools)) [
    | inl missing ↦ unfold release_ip in rw (missing, release_ip) refl
    | inr (pool, found) ↦ elim (Bool-cases (has (net.ip_string ip) pool.used_ips)) [
      | inl used ↦ unfold release_ip in rw (found, used, release_ip) (frees_lem pool _ found used)
      | inr unused ↦ unfold release_ip in rw (found, unused, release_ip) refl
    ]
  ]

  -- The result of `AllocateIP` as an equation, for proofs about its callers.
  pub allocate_ip-result :
      (owner : String)
      → ((e : CniError) × (allocate_ip net m cidr owner ≡ (err e, m)))
        ⊎ ((ip : Ip) × (m' : IpamManager) × (allocate_ip net m cidr owner ≡ (ok ip, m'))
            × Grants (ledger m) (ledger m') cidr (net.ip_string ip) owner)
  allocate_ip-result owner = elim (allocate_ip_cases owner) [
    | inl (e, r) ↦ inl (e, r)
    | inr (pool, ip, found, hit, r) ↦ inr (ip, _, r, rw r at (allocate_ip-Grants owner))
  ]

  pub allocate_vip-result :
      (service : String)
      → ((e : CniError) × (allocate_vip net m cidr service ≡ (err e, m)))
        ⊎ ((ip : Ip) × (m' : IpamManager) × (allocate_vip net m cidr service ≡ (ok ip, m'))
            × Grants (ledger m) (ledger m') cidr (net.ip_string ip) (text_append "vip:" service))
  allocate_vip-result service = elim (allocate_vip_cases service) [
    | inl (e, r) ↦ inl (e, r)
    | inr (pool, ip, found, hit, r) ↦ inr (ip, _, r, rw r at (allocate_vip-Grants service))
  ]
