-- ===== src/Cni/Ipam/Exhaustion.antt =====
-- `AllocateIP` of pkg/cni/ipam.go on subnets small enough for its 256 attempts: when it succeeds,
-- and which addresses it returns.
use swarm_cracker.Prelude.{
  ℕ, ◌+◌, ◌≤◌, ◌≡◌, ◌∙◌, sym, ap, refl, inl, inr, none, some, true, false, lookup, string_eq, arith,
  ok, err, Option-cases, Bool-cases, String, lookup-insert, beq_refl,
}
use swarm_cracker.Cni.Net.{Ip, NetLib}
use swarm_cracker.Cni.Errors.{ip_exhaustion}
use swarm_cracker.Cni.Ip.{increment_ip}
use swarm_cracker.Cni.Ip.Value.{value, value-injective}
use swarm_cracker.Cni.Pool.{IpPool, find_ip, is_free, max_attempts, take_ip}
use swarm_cracker.Cni.Pool.Scan.{candidate, find_ip-none, find_ip-is_free, find_ip-head}
use swarm_cracker.Cni.Pool.Range.{
  SubnetRange, InRange, IsAddress, increment-IsAddress, increment-value_below,
}
use swarm_cracker.Cni.Pool.Coverage.{candidate_covers, candidate-InRange, find_ip-InRange}
use swarm_cracker.Cni.Ipam.{IpamManager, allocate_ip, with_pool}

module _ (net : NetLib) (m : IpamManager) (cidr owner : String) (pool : IpPool)
    (found : lookup cidr m.pools ≡ some pool) where
  -- The result of the call is that of the search.
  allocate_ip-found :
      (ip : Ip)
      → find_ip net pool max_attempts pool.next_ip ≡ some ip
      → allocate_ip net m cidr owner ≡ (ok ip, with_pool m cidr (take_ip net pool ip owner))
  unfolding allocate_ip
  allocate_ip-found ip hit = rw (found, hit, allocate_ip)

  allocate_ip-full :
      find_ip net pool max_attempts pool.next_ip ≡ none
      → allocate_ip net m cidr owner ≡ (err (ip_exhaustion cidr), m)
  unfolding allocate_ip
  allocate_ip-full full = rw (found, full, allocate_ip)

  -- After a successful call the search goes on behind the address that it returned.
  allocated :
      (m' : IpamManager) (ip : Ip)
      → allocate_ip net m cidr owner ≡ (ok ip, m')
      → m' ≡ with_pool m cidr (take_ip net pool ip owner)
  allocated m' ip done = elim (Option-cases (find_ip net pool max_attempts pool.next_ip)) [
    | inl full ↦ cc (ap (λ r. r.0) (sym done ∙ allocate_ip-full full))
    | inr (hit, e) ↦
        let both = sym done ∙ allocate_ip-found hit e in
        let same : ip ≡ hit = cc (ap (λ r. r.0) both) in rw same (ap (λ r. r.1) both)
  ]

  -- An address that passes the test is returned wherever it lies.
  pub allocate_ip_next :
      is_free net pool pool.next_ip ≡ true → (allocate_ip net m cidr owner).0 ≡ ok pool.next_ip
  allocate_ip_next free =
      rw (allocate_ip-found pool.next_ip (find_ip-head net pool 255 pool.next_ip free)) refl

module _ (net : NetLib) (m : IpamManager) (cidr : String) (pool : IpPool) (first limit : ℕ)
    (found : lookup cidr m.pools ≡ some pool) (sub : SubnetRange net pool first limit) where
  -- A failed search has tried each address of the range.
  find_ip-full :
      limit ≤ first + 256
      → InRange pool limit pool.next_ip
      → find_ip net pool max_attempts pool.next_ip ≡ none
      → (ip : Ip) → InRange pool limit ip
      → is_free net pool ip ≡ false
  find_ip-full small start full ip r =
      let (k, few, same_value) =
        candidate_covers net pool first limit sub pool.next_ip (value ip) start r.above r.below in
      let there = candidate-InRange net pool first limit sub k pool.next_ip start in
      let same : candidate net pool k pool.next_ip ≡ ip =
        value-injective _ _ there.address.bytes r.address.bytes
          (there.address.same_length ∙ sym r.address.same_length) same_value in
      let taken =
        find_ip-none net pool max_attempts k pool.next_ip full
          (omega (arith, few, small, sub.gateway_inside)) in
      rw same at taken

  -- If the subnet is a range of at most 256 addresses, and the search starts in it above the
  -- gateway, then `AllocateIP` succeeds whenever an address of the subnet above the gateway is free,
  -- and what it returns is such an address.
  pub allocate_ip_complete :
      (owner : String)
      → limit ≤ first + 256
      → InRange pool limit pool.next_ip
      → (ip : Ip) → InRange pool limit ip
      → is_free net pool ip ≡ true
      → (r : Ip) × ((allocate_ip net m cidr owner).0 ≡ ok r)
        × InRange pool limit r
        × (is_free net pool r ≡ true)
  allocate_ip_complete owner small start ip r free =
      elim (Option-cases (find_ip net pool max_attempts pool.next_ip)) [
        | inl full ↦ absurd (cc (find_ip-full small start full ip r, free))
        | inr (hit, e) ↦ (
          hit,
          rw (allocate_ip-found net m cidr owner pool found hit e) refl,
          find_ip-InRange net pool first limit sub max_attempts pool.next_ip hit start e,
          find_ip-is_free net pool max_attempts pool.next_ip hit e,
        )
      ]

  increment-outside :
      (ip : Ip)
      → IsAddress pool ip
      → value ip + 1 ≡ limit
      → net.contains pool.subnet (increment_ip ip) ≡ false
  increment-outside ip a last = elim (Bool-cases (net.contains pool.subnet (increment_ip ip))) [
    | inr outside ↦ outside
    | inl within ↦
        let next = increment-IsAddress net pool first limit sub ip a in
        let bounds = (sub.contains_iff (increment_ip ip) next).0 within in
        absurd (
          omega (
            arith,
            bounds.1,
            last,
            increment-value_below net pool first limit sub ip a (omega (arith, last)),
          ))
  ]

  -- If `AllocateIP` has returned the last address of a subnet that is a range, and the address after
  -- it is neither used nor reserved, then the next call returns that one, which is not in the subnet.
  pub allocate_ip_escapes :
      (m' : IpamManager) (ip : Ip) (owner owner' : String)
      → allocate_ip net m cidr owner ≡ (ok ip, m')
      → IsAddress pool ip
      → value ip + 1 ≡ limit
      → is_free net (take_ip net pool ip owner) (increment_ip ip) ≡ true
      → ((allocate_ip net m' cidr owner').0 ≡ ok (increment_ip ip))
        × (net.contains pool.subnet (increment_ip ip) ≡ false)
  unfolding take_ip
  allocate_ip_escapes m' ip owner owner' done a last free =
      let after = allocated net m cidr owner pool found m' ip done in
      let found' : lookup cidr m'.pools ≡ some (take_ip net pool ip owner) =
        rw (after, lookup-insert, beq_refl cidr) refl in
      (
        allocate_ip_next net m' cidr owner' (take_ip net pool ip owner) found' free,
        increment-outside ip a last,
      )
