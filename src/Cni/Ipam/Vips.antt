-- ===== src/Cni/Ipam/Vips.antt =====
-- `AllocateVIP`: where in the subnet the addresses of services lie.
use swarm_cracker.Prelude.{
  ℕ, ◌+◌, ◌-◌, ◌%◌, ◌^◌, ◌≤◌, ◌<◌, ◌≡◌, ◌∙◌, inl, inr, some, true, false, ◌↔◌, lookup, string_eq,
  arith, ok, String, length, [], ◌∷◌, Bool-cases,
}
use swarm_cracker.Cni.Net.{Ip, IpNet, NetLib}
use swarm_cracker.Cni.Ip.{get_vip_range_start, add_offset}
use swarm_cracker.Cni.Ip.Value.{IsBytes, value}
use swarm_cracker.Cni.Ip.Offset.{Adds, add_offset-Adds, vip_candidate-value}
use swarm_cracker.Cni.Pool.{IpPool, find_vip, max_vip_attempts}
use swarm_cracker.Cni.Pool.Scan.{find_vip-candidate}
use swarm_cracker.Cni.Ipam.{IpamManager, allocate_vip}
use swarm_cracker.Cni.Ipam.Allocation.{allocate_vip_cases}

-- An IPv4 subnet of `2 ^ host_bits` addresses, at most 256, from `base` on. `IPNet.Contains` on
-- addresses of four bytes is that range.
pub record Ipv4Subnet (net : NetLib) (subnet : IpNet) (a b c d host_bits : ℕ) : Type 0 where
  pub base : net.to4 subnet.ip ≡ some (a ∷ b ∷ c ∷ d ∷ [])
  pub bits : net.mask_bits subnet.mask - net.mask_ones subnet.mask ≡ host_bits
  pub bytes : IsBytes (a ∷ b ∷ c ∷ d ∷ [])
  pub aligned : d + 2 ^ host_bits ≤ 256
  pub contains_iff :
      (ip : Ip)
      → IsBytes ip
      → length ip ≡ 4
      → (net.contains subnet ip ≡ true) ↔ (
          (value (a ∷ b ∷ c ∷ d ∷ []) ≤ value ip)
          × (value ip < value (a ∷ b ∷ c ∷ d ∷ []) + 2 ^ host_bits))

module _ (net : NetLib) (subnet : IpNet) (a b c d host_bits : ℕ)
    (v4 : Ipv4Subnet net subnet a b c d host_bits) where
  abbrev base_ip : Ip
  base_ip = a ∷ b ∷ c ∷ d ∷ []

  last_byte : value base_ip % 256 ≡ d
  unfolding value
  last_byte = omega (arith, v4.bytes.1.1.1.0)

  start-offset : get_vip_range_start net subnet ≡ (add_offset base_ip (2 ^ host_bits - 17)).0
  unfolding get_vip_range_start
  start-offset = rw (v4.base, v4.bits, get_vip_range_start)

  -- The first candidate is the base and the offset.
  start-Adds : Adds base_ip (get_vip_range_start net subnet) (2 ^ host_bits - 17)
  start-Adds =
      let room : value base_ip % 256 + (2 ^ host_bits - 17) < 256 =
        omega (arith, last_byte, v4.aligned, v4.bytes.1.1.1.0) in
      rw start-offset (add_offset-Adds a (b ∷ c ∷ d ∷ []) (2 ^ host_bits - 17) v4.bytes room).1

  -- The candidates lie from the base and the offset downwards, at most fifteen addresses.
  find_vip-value :
      (pool : IpPool) (ip : Ip)
      → pool.subnet ≡ subnet
      → 15 ≤ value base_ip + (2 ^ host_bits - 17)
      → find_vip net pool max_vip_attempts (get_vip_range_start net pool.subnet) ≡ some ip
      → (k : ℕ) × (k < 16)
        × (value ip + k ≡ value base_ip + (2 ^ host_bits - 17))
        × IsBytes ip
        × (length ip ≡ 4)
  find_vip-value pool ip same room hit =
      let (k, few, e) = find_vip-candidate net pool max_vip_attempts _ ip hit in
      let start = start-Adds in
      let down =
        vip_candidate-value k (get_vip_range_start net subnet) start.bytes
          (omega (arith, start.sum)) in
      rw (e, same) (k, few, down.0 ∙ start.sum, down.1, down.2 ∙ start.same_length)

  module _ (m : IpamManager) (cidr service : String) (pool : IpPool) (ip : Ip)
      (found : lookup cidr m.pools ≡ some pool) (same : pool.subnet ≡ subnet)
      (done : (allocate_vip net m cidr service).0 ≡ ok ip) where
    hit : find_vip net pool max_vip_attempts (get_vip_range_start net pool.subnet) ≡ some ip
    hit = elim (allocate_vip_cases net m cidr service) [
      | inl (e, r) ↦ cc (rw r at done)
      | inr (pool', ip', found', hit', r) ↦
          let same_pool : pool ≡ pool' = cc (found, found') in
          let same_ip : ip ≡ ip' = cc (r, done) in rw (same_pool, same_ip) hit'
    ]

    -- In an IPv4 subnet of 32 to 256 addresses what `AllocateVIP` returns lies in the subnet, and is
    -- one of the sixteen addresses before the last sixteen.
    pub allocate_vip_in_subnet :
        32 ≤ 2 ^ host_bits
        → (net.contains subnet ip ≡ true)
          × (value base_ip + 2 ^ host_bits ≤ value ip + 32)
          × (value ip + 17 ≤ value base_ip + 2 ^ host_bits)
    allocate_vip_in_subnet big =
        let (k, few, e, bytes, len) = find_vip-value pool ip same (omega arith) hit in
        (
          (v4.contains_iff ip bytes len).1 (omega (arith, e, few), omega (arith, e, few)),
          omega (arith, e, few),
          omega (arith, e, few),
        )

    -- In an IPv4 subnet of at most 16 addresses, from the address 15 on, what `AllocateVIP` returns
    -- is at most the base address, and is not in the subnet if it lies below that.
    pub allocate_vip_small :
        2 ^ host_bits ≤ 16
        → 15 ≤ value base_ip
        → (value ip ≤ value base_ip) × (value ip < value base_ip → net.contains subnet ip ≡ false)
    allocate_vip_small small room =
        let (k, few, e, bytes, len) = find_vip-value pool ip same (omega arith) hit in
        (
          omega (arith, e),
          λ below. elim (Bool-cases (net.contains subnet ip)) [
            | inr outside ↦ outside
            | inl within ↦
                absurd (omega (arith, below, ((v4.contains_iff ip bytes len).0 within).0))
          ],
        )
