-- ===== src/Cni/Pool/Coverage.antt =====
-- The candidates of `AllocateIP` against the range of addresses of a subnet.
use native.Mathlib.Decide.{dec_lt}
use mathlib.Core.Path.{subst}
use swarm_cracker.Prelude.{ℕ, zero, suc, ◌+◌, ◌-◌, ◌≤◌, ◌<◌, ◌≡◌, inl, inr, arith, some, Bool-cases}
use swarm_cracker.Cni.Net.{Ip, NetLib}
use swarm_cracker.Cni.Ip.Value.{value}
use swarm_cracker.Cni.Pool.{IpPool, next_candidate, find_ip, is_free}
use swarm_cracker.Cni.Pool.Scan.{candidate}
use swarm_cracker.Cni.Pool.Range.{
  SubnetRange, InRange, next_candidate-InRange, next_candidate-value,
}

module _ (net : NetLib) (pool : IpPool) (first limit : ℕ)
    (sub : SubnetRange net pool first limit) where
  pub candidate-InRange :
      (k : ℕ) (ip : Ip) → InRange pool limit ip → InRange pool limit (candidate net pool k ip)
  candidate-InRange zero ip r = r
  candidate-InRange (suc k) ip r =
      candidate-InRange k (next_candidate net pool ip)
        (next_candidate-InRange net pool first limit sub ip r)

  -- Before the end of the subnet the candidates count up.
  candidate_up :
      (k : ℕ) (ip : Ip)
      → InRange pool limit ip
      → value ip + k < limit
      → value (candidate net pool k ip) ≡ value ip + k
  candidate_up zero ip r h = omega arith
  candidate_up (suc k) ip r h =
      let step = next_candidate-value net pool first limit sub ip r in
      let next = next_candidate-InRange net pool first limit sub ip r in
      let e : value (next_candidate net pool ip) ≡ value ip + 1 = omega (arith, step) in
      omega (arith, e, candidate_up k (next_candidate net pool ip) next (omega (arith, e)))

  -- Past its end they go on after the gateway.
  candidate_over :
      (k : ℕ) (ip : Ip)
      → InRange pool limit ip
      → limit ≤ value ip + k
      → value pool.gateway + 1 + (value ip + k) < limit + limit
      → value (candidate net pool k ip) + limit ≡ value pool.gateway + 1 + (value ip + k)
  candidate_over zero ip r h k< = absurd (omega (arith, r.below))
  candidate_over (suc k) ip r h k< =
      let next = next_candidate-InRange net pool first limit sub ip r in
      elim (next_candidate-value net pool first limit sub ip r) [
        | inl (room, e) ↦ omega (
          arith,
          e,
          candidate_over k (next_candidate net pool ip) next (omega (arith, e)) (omega (arith, e)),
        )
        | inr (full, e) ↦
            omega (arith, e, candidate_up k (next_candidate net pool ip) next (omega (arith, e)))
      ]

  -- Each value of the range is that of one of the first `limit - gateway - 1` candidates.
  pub candidate_covers :
      (ip : Ip) (v : ℕ)
      → InRange pool limit ip
      → value pool.gateway < v
      → v < limit
      → (k : ℕ) × (k + value pool.gateway + 1 < limit) × (value (candidate net pool k ip) ≡ v)
  candidate_covers ip v r lo hi = elim (dec_lt v (value ip)) [
    | yes before ↦
        let k = limit + v - value ip - value pool.gateway - 1 in
        (
          k,
          omega (arith, r.below, r.above),
          omega (
            arith,
            r.below,
            r.above,
            candidate_over k ip r (omega (arith, r.below)) (omega (arith, r.below)),
          ),
        )
    | no after ↦
        let k = v - value ip in
        (k, omega (arith, r.above), omega (arith, candidate_up k ip r (omega arith)))
  ]

  -- The address found lies above the gateway and inside the subnet, if the search starts there.
  pub find_ip-InRange :
      (n : ℕ) (ip r : Ip)
      → InRange pool limit ip
      → find_ip net pool n ip ≡ some r
      → InRange pool limit r
  unfolding find_ip
  find_ip-InRange zero ip r start h = cc
  find_ip-InRange (suc n) ip r start h = elim (Bool-cases (is_free net pool ip)) [
    | inl free ↦ subst (InRange pool limit) (ground (arith, h)) start
    | inr taken ↦
        find_ip-InRange n (next_candidate net pool ip) r
          (next_candidate-InRange net pool first limit sub ip start) (rw taken at h)
  ]
