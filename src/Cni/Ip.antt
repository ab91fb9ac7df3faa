-- ===== src/Cni/Ip.antt =====
-- pkg/cni/ipam.go: the byte arithmetic on addresses. The Go loops run from the last byte to the
-- first and stop early; here each returns, beside the bytes that it leaves, whether (or with what
-- offset) the loop goes on to the byte before them.
pub mod Value
pub mod Neighbours
pub mod Offset
use swarm_cracker.Prelude.{
  ℕ, zero, suc, ◌+◌, ◌-◌, ◌/◌, ◌%◌, ◌^◌, [], ◌∷◌, Bool, true, false, none, some, ltb, ◌==◌, nat_eq,
  if◌then◌else◌,
}
use swarm_cracker.Cni.Net.{Ip, IpNet, NetLib}

pub increment_bytes : Ip → Ip × Bool
increment_bytes [] = ([], true)
increment_bytes (b ∷ bs) =
    let (rest, going) = increment_bytes bs in
    if going then ((b + 1) % 256 ∷ rest, (b + 1) % 256 == 0) else (b ∷ rest, false)

unfoldable pub increment_ip : Ip → Ip
unfolding increment_bytes
increment_ip ip = (increment_bytes ip).0

pub decrement_bytes : Ip → Ip × Bool
decrement_bytes [] = ([], true)
decrement_bytes (b ∷ bs) =
    let (rest, going) = decrement_bytes bs in
    if going then ((b + 255) % 256 ∷ rest, (b + 255) % 256 == 255) else (b ∷ rest, false)

unfoldable pub decrement_ip : Ip → Ip
unfolding decrement_bytes
decrement_ip ip = (decrement_bytes ip).0

-- The loop of `getVIPRangeStart`: each byte takes its digit of the offset, and no carry is made.
pub add_offset : Ip → ℕ → Ip × ℕ
add_offset [] offset = ([], offset)
add_offset (b ∷ bs) offset =
    let (rest, left) = add_offset bs offset in
    if ltb 0 left then ((b + left % 256) % 256 ∷ rest, left / 256) else (b ∷ rest, left)

-- An offset below 0 adds nothing, as 0 does. `2 ^ host_bits` does not wrap: `to4` is nil for the
-- masks of more than 32 bits.
unfoldable pub get_vip_range_start : NetLib → IpNet → Ip
unfolding add_offset
get_vip_range_start net subnet = elim (net.to4 subnet.ip) [
  | none ↦ []
  | some base ↦
      let host_bits = net.mask_bits subnet.mask - net.mask_ones subnet.mask in
      (add_offset base (2 ^ host_bits - 17)).0
]

-- The address that the loop of `AllocateVIP` tries after `k` failures.
abbrev pub vip_candidate : ℕ → Ip → Ip
vip_candidate zero ip = ip
vip_candidate (suc k) ip = vip_candidate k (decrement_ip ip)
