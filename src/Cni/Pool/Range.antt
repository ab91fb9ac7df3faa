-- ===== src/Cni/Pool/Range.antt =====
-- A pool whose subnet is a range of addresses, and the candidates of `AllocateIP` in that range.
use native.Mathlib.Decide.{dec_lt}
use swarm_cracker.Prelude.{
  ℕ, ◌+◌, ◌^◌, ◌≤◌, ◌<◌, ◌≡◌, refl, ◌∙◌, ◌↔◌, ◌⊎◌, true, arith, inl, inr, Bool-cases, length,
}
use swarm_cracker.Cni.Net.{Ip, NetLib}
use swarm_cracker.Cni.Ip.{increment_ip}
use swarm_cracker.Cni.Ip.Value.{
  IsBytes, value, increment_ip-IsBytes, length-increment_ip, increment_ip-value_below,
}
use swarm_cracker.Cni.Pool.{IpPool, next_candidate}

-- An address in the form of the pool's gateway: as many bytes, each below 256.
pub record IsAddress (pool : IpPool) (ip : Ip) : Type 0 where
  pub bytes : IsBytes ip
  pub same_length : length ip ≡ length pool.gateway

-- `IPNet.Contains` on addresses of the gateway's form: the subnet is the range from `first` up to
-- `limit`. The gateway lies in it, and is not its last address.
pub record SubnetRange (net : NetLib) (pool : IpPool) (first limit : ℕ) : Type 0 where
  pub contains_iff :
      (ip : Ip)
      → IsAddress pool ip
      → (net.contains pool.subnet ip ≡ true) ↔ ((first ≤ value ip) × (value ip < limit))
  pub gateway_bytes : IsBytes pool.gateway
  pub gateway_inside : first ≤ value pool.gateway
  pub gateway_not_last : value pool.gateway + 1 < limit
  pub no_wrap : limit < 256 ^ length pool.gateway

-- Above the gateway and inside the subnet.
pub record InRange (pool : IpPool) (limit : ℕ) (ip : Ip) : Type 0 where
  pub address : IsAddress pool ip
  pub above : value pool.gateway < value ip
  pub below : value ip < limit

module _ (net : NetLib) (pool : IpPool) (first limit : ℕ)
    (sub : SubnetRange net pool first limit) where
  pub increment-IsAddress : (ip : Ip) → IsAddress pool ip → IsAddress pool (increment_ip ip)
  increment-IsAddress ip a = record {
    bytes = increment_ip-IsBytes ip a.bytes;
    same_length = length-increment_ip ip ∙ a.same_length;
  }

  gateway-IsAddress : IsAddress pool pool.gateway
  gateway-IsAddress = record { bytes = sub.gateway_bytes; same_length = refl }

  pub increment-value_below :
      (ip : Ip) → IsAddress pool ip → value ip < limit → value (increment_ip ip) ≡ value ip + 1
  increment-value_below ip a h =
      increment_ip-value_below ip a.bytes (rw a.same_length (omega (arith, sub.no_wrap)))

  -- The next address while that lies in the subnet, and otherwise the one after the gateway.
  next_candidate_cases :
      (ip : Ip)
      → InRange pool limit ip
      → ((next_candidate net pool ip ≡ increment_ip ip) × (value ip + 1 < limit))
        ⊎ ((next_candidate net pool ip ≡ increment_ip pool.gateway) × (value ip + 1 ≡ limit))
  unfolding next_candidate
  next_candidate_cases ip r =
      let next = increment-IsAddress ip r.address in
      let step = increment-value_below ip r.address r.below in
      let inside = sub.contains_iff (increment_ip ip) next in
      elim (Bool-cases (net.contains pool.subnet (increment_ip ip))) [
        | inl within ↦
            let bounds = inside.0 within in inl (rw within, omega (arith, bounds.1, step))
        | inr outside ↦ inr (
          rw outside,
          elim (dec_lt (value ip + 1) limit) [
            | yes room ↦
                let within =
                  inside.1
                    (omega (arith, step, r.above, sub.gateway_inside), omega (arith, step)) in
                absurd (cc (within, outside))
            | no full ↦ omega (arith, r.below)
          ],
        )
      ]

  -- The value of the next candidate.
  pub next_candidate-value :
      (ip : Ip)
      → InRange pool limit ip
      → ((value ip + 1 < limit) × (value (next_candidate net pool ip) ≡ value ip + 1))
        ⊎ ((value ip + 1 ≡ limit) × (value (next_candidate net pool ip) ≡ value pool.gateway + 1))
  next_candidate-value ip r = elim (next_candidate_cases ip r) [
    | inl (e, room) ↦ inl (room, rw e (increment-value_below ip r.address r.below))
    | inr (e, full) ↦ inr (
      full,
      rw e (
          increment-value_below pool.gateway gateway-IsAddress
            (omega (arith, sub.gateway_not_last))),
    )
  ]

  next_candidate-IsAddress :
      (ip : Ip) → InRange pool limit ip → IsAddress pool (next_candidate net pool ip)
  next_candidate-IsAddress ip r = elim (next_candidate_cases ip r) [
    | inl (e, room) ↦ rw e (increment-IsAddress ip r.address)
    | inr (e, full) ↦ rw e (increment-IsAddress pool.gateway gateway-IsAddress)
  ]

  pub next_candidate-InRange :
      (ip : Ip) → InRange pool limit ip → InRange pool limit (next_candidate net pool ip)
  next_candidate-InRange ip r = record {
    address = next_candidate-IsAddress ip r;
    above = omega (arith, next_candidate-value ip r, r.above);
    below = omega (arith, next_candidate-value ip r, sub.gateway_not_last);
  }
