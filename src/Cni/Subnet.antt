-- ===== src/Cni/Subnet.antt =====
-- pkg/cni/config.go, GenerateSubnet: the subnet of the network with a given index.
pub mod Period
use Prim.Native.String.{◌++◌ as text_append}
use swarm_cracker.Prelude.{
  ℕ, zero, suc, ◌+◌, ◌-◌, ◌/◌, ◌%◌, String, [], ◌∷◌, Option, none, some, ok, err, ltb, leb, set,
  List, if◌then◌else◌, ◌==◌, nat_eq,
}
use swarm_cracker.Cni.Net.{Ip, NetLib}
use swarm_cracker.Cni.Errors.{Outcome, invalid_subnet, pool_not_ipv4, invalid_pool_subnet}

-- `(32 - poolBits - subnetSize) / 8`, which Go rounds towards 0; `none` stands for what is below 0.
unfoldable pub offset_byte : ℕ → ℕ → Option ℕ
offset_byte pool_bits subnet_size =
    if leb (pool_bits + subnet_size) 32
    then some ((32 - (pool_bits + subnet_size)) / 8)
    else if (pool_bits + subnet_size - 32) / 8 == 0
    then some 0
    else none

-- The two bytes that the index is written to.
unfoldable pub subnet_bytes : Ip → ℕ → ℕ → Ip
subnet_bytes base zero index = set base 0 (index % 256)
subnet_bytes base (suc before) index =
    set (set base (suc before) (index % 256)) before ((index / 256) % 256)

-- "%d.%d.%d.%d/%d", by the printer of numbers.
unfoldable pub format_subnet : (ℕ → String) → Ip → ℕ → String
format_subnet decimal (a ∷ b ∷ c ∷ d ∷ rest) size = text_append (decimal a) (
    text_append "." (
      text_append (decimal b) (
        text_append "." (
          text_append (decimal c)
            (text_append "." (text_append (decimal d) (text_append "/" (decimal size))))))))
format_subnet decimal _ size = ""

-- `To4` returns four bytes, so the writes are in bounds.
unfoldable pub generate_subnet : NetLib → (ℕ → String) → String → ℕ → ℕ → Outcome String
generate_subnet net decimal pool_cidr subnet_size index = elim (net.parse_cidr pool_cidr) [
  | none ↦ err (invalid_subnet pool_cidr)
  | some (pool_net, pool_ip) ↦ elim (net.to4 pool_ip) [
    | none ↦ err pool_not_ipv4
    | some pool_base ↦ elim (offset_byte (net.mask_ones pool_net.mask) subnet_size) [
      | none ↦ err invalid_pool_subnet
      | some offset ↦
          if ltb 3 offset
          then err invalid_pool_subnet
          else ok (format_subnet decimal (subnet_bytes pool_base offset index) subnet_size)
    ]
  ]
]
