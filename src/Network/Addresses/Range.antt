-- ===== src/Network/Addresses/Range.antt =====
-- pkg/network/manager.go, `hashToIP`: where in an IPv4 subnet the hash of an id lies.
use native.Mathlib.Nat.{mod-lt}
use swarm_cracker.Prelude.{
  ℕ, ◌+◌, ◌-◌, ◌%◌, ◌≤◌, ◌<◌, String, List, some, nat_eq, length, ◌≡◌, arith,
}
use swarm_cracker.Cni.Net.{Ip, NetLib}
use swarm_cracker.Network.Addresses.{
  IpAllocator, be_uint32, put_uint32, range_size, ipv4_candidate, hash_to_ip, u32,
}

-- The big-endian bytes of a 32-bit number spell it.
be_uint32-put_uint32 : (n : ℕ) → n < u32 → be_uint32 (put_uint32 n) ≡ n
be_uint32-put_uint32 n h = omega arith

candidate_inside :
    (base size digest : ℕ)
    → 4 ≤ size
    → base + size ≤ u32
    → (ip : Ip) × (ipv4_candidate base size digest ≡ some ip)
      × (base < be_uint32 ip)
      × (be_uint32 ip + 1 < base + size)
unfolding ipv4_candidate
candidate_inside base size digest large fits =
    let host = digest % (size - 2) in
    let below : host < size - 2 = mod-lt digest (omega arith) in
    let n = (base + host + 1) % u32 in
    let small : n ≡ base + host + 1 = omega arith in
    let spelled = be_uint32-put_uint32 n (omega arith) in
    (
      put_uint32 n,
      ground arith,
      omega (arith, spelled, small),
      omega (arith, spelled, small, below),
    )

-- In an IPv4 subnet of four bytes with at least four addresses, which does not run past the last
-- 32-bit address, the start of the search is returned, and it lies strictly between the subnet's
-- address, as a number, and the subnet's last address.
pub hash_to_ip_inside :
    (net : NetLib) (sha256 : String → List ℕ) (a : IpAllocator) (vm : String) (base : Ip)
    → length a.subnet.ip ≡ 4
    → net.to4 a.subnet.ip ≡ some base
    → 4 ≤ range_size net a.subnet
    → be_uint32 base + range_size net a.subnet ≤ u32
    → (ip : Ip) × (hash_to_ip net sha256 a vm ≡ some ip)
      × (be_uint32 base < be_uint32 ip)
      × (be_uint32 ip + 1 < be_uint32 base + range_size net a.subnet)
unfolding hash_to_ip
hash_to_ip_inside net sha256 a vm base four v4 large fits =
    let inside =
      candidate_inside (be_uint32 base) (range_size net a.subnet) (be_uint32 (sha256 vm)) large
        fits in
    (inside.0, rw (hash_to_ip, four, v4) inside.1, inside.2, inside.3)
