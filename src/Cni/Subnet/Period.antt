-- ===== src/Cni/Subnet/Period.antt =====
-- Which indices get the same subnet.
use swarm_cracker.Prelude.{ℕ, zero, suc, ◌+◌, ◌%◌, ◌<◌, ◌≡◌, ◌↔◌, [], ◌∷◌, some, arith, String, ok}
use swarm_cracker.Cni.Net.{Ip, IpNet, NetLib}
use swarm_cracker.Cni.Subnet.{subnet_bytes, offset_byte, generate_subnet, format_subnet}

-- The number of subnets that a byte position can tell apart.
abbrev pub subnet_period : ℕ → ℕ
subnet_period zero = 256
subnet_period (suc before) = 65536

-- Two network indices write the same bytes, at an offset from 0 to 3, exactly if they agree modulo
-- 256 at the offset 0, and modulo 65536 at the others.
pub subnet_bytes-eq_iff :
    (a b c d offset i j : ℕ)
    → offset < 4
    → (subnet_bytes (a ∷ b ∷ c ∷ d ∷ []) offset i ≡ subnet_bytes (a ∷ b ∷ c ∷ d ∷ []) offset j)
      ↔ (i % subnet_period offset ≡ j % subnet_period offset)
unfolding subnet_bytes
subnet_bytes-eq_iff a b c d zero i j h = (λ e. ground (arith, e), λ e. ground (arith, e))
subnet_bytes-eq_iff a b c d (suc zero) i j h = (λ e. ground (arith, e), λ e. ground (arith, e))
subnet_bytes-eq_iff a b c d (suc (suc zero)) i j h =
    (λ e. ground (arith, e), λ e. ground (arith, e))
subnet_bytes-eq_iff a b c d (suc (suc (suc zero))) i j h =
    (λ e. ground (arith, e), λ e. ground (arith, e))
subnet_bytes-eq_iff a b c d (suc (suc (suc (suc n)))) i j h = absurd (omega arith)

offset_byte-zero : (p s : ℕ) → 24 < p + s → p + s < 40 → offset_byte p s ≡ some 0
unfolding offset_byte
offset_byte-zero p s lo hi = ground arith

module _ (net : NetLib) (decimal : ℕ → String) (pool_cidr : String) (pool_net : IpNet)
    (pool_ip : Ip) (a b c d size : ℕ) (parsed : net.parse_cidr pool_cidr ≡ some (pool_net, pool_ip))
    (v4 : net.to4 pool_ip ≡ some (a ∷ b ∷ c ∷ d ∷ []))
    (lo : 24 < net.mask_ones pool_net.mask + size)
    (hi : net.mask_ones pool_net.mask + size < 40) where
  first_byte :
      (i : ℕ)
      → generate_subnet net decimal pool_cidr size i
        ≡ ok (format_subnet decimal (i % 256 ∷ b ∷ c ∷ d ∷ []) size)
  unfolding generate_subnet subnet_bytes
  first_byte i =
      rw (parsed, v4, offset_byte-zero (net.mask_ones pool_net.mask) size lo hi, generate_subnet)

  -- With 25 to 39 bits in the prefixes of an IPv4 pool and of the subnet together, `GenerateSubnet`
  -- writes the index over the first byte of the pool's address, and an index greater by 256 gets
  -- the same subnet.
  pub generate_subnet_first_byte :
      (i : ℕ)
      → (generate_subnet net decimal pool_cidr size i
          ≡ ok (format_subnet decimal (i % 256 ∷ b ∷ c ∷ d ∷ []) size))
        × (generate_subnet net decimal pool_cidr size (i + 256)
            ≡ generate_subnet net decimal pool_cidr size i)
  generate_subnet_first_byte i =
      let same : (i + 256) % 256 ≡ i % 256 = omega arith in
      (first_byte i, rw (first_byte i, first_byte (i + 256), same))
