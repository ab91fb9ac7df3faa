-- ===== src/Network/Addresses.antt =====
-- pkg/network/manager.go, IPAllocator: the addresses of the VMs, picked by a hash of their ids. SHA-256
-- is a parameter, the first bytes of a digest.
pub mod Ownership
pub mod Owners
pub mod Range
use Prim.Native.Nat.{bit_xor}
use swarm_cracker.Prelude.{
  ℕ, zero, suc, ◌+◌, ◌-◌, ◌*◌, ◌/◌, ◌%◌, ◌^◌, String, List, [], ◌∷◌, ◌++◌, Bool, true, false, not,
  ◌&&◌, Option, none, some, Map, lookup, has, insert, erase, string_eq, nat_eq, ◌==◌, Result, ok,
  err, ltb, length, take, drop, if◌then◌else◌,
}
use swarm_cracker.Cni.Net.{Ip, IpNet, NetLib}
use swarm_cracker.Cni.Ip.{increment_ip}

pub record IpAllocator : Type 0 where
  pub subnet : IpNet
  pub gateway : Ip
  -- the VM of each allocated address, by the address's text
  pub allocated : Map String String

-- `panics` is the division by zero for a subnet of all addresses.
pub data AllocatorError : Type 0 where
  invalid_subnet invalid_gateway : String → AllocatorError
  not_in_subnet : Ip → AllocatorError
  exhausted panics : AllocatorError

unfoldable pub new_ip_allocator : NetLib → String → String → Result AllocatorError IpAllocator
new_ip_allocator net subnet_str gateway_str = elim (net.parse_cidr subnet_str) [
  | none ↦ err (invalid_subnet subnet_str)
  | some (subnet, ip) ↦ elim (net.parse_ip gateway_str) [
    | none ↦ err (invalid_gateway gateway_str)
    | some gateway ↦ ok (record { subnet = subnet; gateway = gateway; allocated = [] })
  ]
]

abbrev pub u32 : ℕ
u32 = 2 ^ 32

-- binary.BigEndian.Uint32, of at least four bytes.
abbrev pub be_uint32 : List ℕ → ℕ
be_uint32 (a ∷ b ∷ c ∷ d ∷ rest) = a * 16777216 + b * 65536 + c * 256 + d
be_uint32 _ = 0

-- binary.BigEndian.PutUint32
abbrev pub put_uint32 : ℕ → Ip
put_uint32 n = n / 16777216 % 256 ∷ n / 65536 % 256 ∷ n / 256 % 256 ∷ n % 256 ∷ []

abbrev pub xor_bytes : List ℕ → List ℕ → List ℕ
xor_bytes [] h = []
xor_bytes (b ∷ bs) [] = []
xor_bytes (b ∷ bs) (h ∷ hs) = bit_xor b h ∷ xor_bytes bs hs

-- `uint32(1) << (bits - ones)`, which is 0 at 32 bits.
abbrev pub range_size : NetLib → IpNet → ℕ
range_size net subnet = 2 ^ (net.mask_bits subnet.mask - net.mask_ones subnet.mask) % u32

unfoldable pub ipv4_candidate : ℕ → ℕ → ℕ → Option Ip
ipv4_candidate base size digest =
    if size == 0
    then none
    else if ltb size 4
    then some (put_uint32 ((base + digest % size) % u32))
    else some (put_uint32 ((base + digest % (size - 2) + 1) % u32))

-- `none` is the panic. A subnet whose address has 16 bytes takes the branch for IPv6.
unfoldable pub hash_to_ip : NetLib → (String → List ℕ) → IpAllocator → String → Option Ip
unfolding ipv4_candidate
hash_to_ip net sha256 a vm_id =
    let ip = a.subnet.ip in
    let hash = sha256 vm_id in
    if length ip == 16 then some (take 8 ip ++ xor_bytes (drop 8 ip) hash) else elim (net.to4 ip) [
      | none ↦ none
      | some base ↦ ipv4_candidate (be_uint32 base) (range_size net a.subnet) (be_uint32 hash)
    ]

-- An IPv4 address of 16 bytes counts in its last four alone.
unfoldable pub inc_ip : NetLib → Ip → Ip
inc_ip net ip = elim (net.to4 ip) [
  | none ↦ increment_ip ip
  | some v4 ↦ if length ip == 16 then take 12 ip ++ increment_ip (drop 12 ip) else increment_ip ip
]

-- The entry of the map that has the VM; its order is Go's, which is not specified.
unfoldable pub address_of : String → Map String String → Option String
address_of vm_id [] = none
address_of vm_id ((ip, id) ∷ rest) =
    let later = address_of vm_id rest in if id == vm_id then some ip else later

unfoldable pub next_probe : NetLib → IpNet → Ip → Ip
next_probe net subnet ip =
    if net.contains subnet (inc_ip net ip) then inc_ip net ip else inc_ip net (inc_ip net subnet.ip)

abbrev pub is_usable : NetLib → IpAllocator → Ip → Bool
is_usable net a ip = not (net.ip_equal ip a.gateway) && not (has (net.ip_string ip) a.allocated)

-- The loop, on the attempts left.
unfoldable pub probe : NetLib → IpAllocator → ℕ → Ip → Option Ip
probe net a zero ip = none
probe net a (suc attempts) ip =
    let rest = probe net a attempts (next_probe net a.subnet ip) in
    if is_usable net a ip then some ip else rest

abbrev pub max_probes : ℕ
max_probes = 256

-- Once the VM has no address yet.
unfoldable pub allocate_new :
    NetLib → (String → List ℕ) → IpAllocator → String → Result AllocatorError String × IpAllocator
allocate_new net sha256 a vm_id = elim (hash_to_ip net sha256 a vm_id) [
  | none ↦ (err panics, a)
  | some start ↦
      if net.contains a.subnet start
      then elim (probe net a max_probes start) [
        | none ↦ (err exhausted, a)
        | some ip ↦ (
          ok (net.ip_string ip),
          record a { allocated = insert (net.ip_string ip) vm_id a.allocated },
        )
      ]
      else (err (not_in_subnet start), a)
]

unfoldable pub allocate :
    NetLib → (String → List ℕ) → IpAllocator → String → Result AllocatorError String × IpAllocator
allocate net sha256 a vm_id = elim (address_of vm_id a.allocated) [
  | some ip ↦ (ok ip, a)
  | none ↦ allocate_new net sha256 a vm_id
]

unfoldable pub release : IpAllocator → String → IpAllocator
release a ip = record a { allocated = erase ip a.allocated }
