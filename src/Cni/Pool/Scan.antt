-- ===== src/Cni/Pool/Scan.antt =====
-- The results of the loops of `AllocateIP` and `AllocateVIP` against the test on one address.
use swarm_cracker.Prelude.{
  ℕ, zero, suc, ◌<◌, ◌≡◌, none, some, true, false, arith, inl, inr, Bool-cases,
}
use swarm_cracker.Cni.Net.{Ip, NetLib}
use swarm_cracker.Cni.Ip.{decrement_ip, vip_candidate}
use swarm_cracker.Cni.Pool.{IpPool, is_free, next_candidate, find_ip, find_vip}

-- The address that the loop tries after `k` failures.
abbrev pub candidate : NetLib → IpPool → ℕ → Ip → Ip
candidate net pool zero ip = ip
candidate net pool (suc k) ip = candidate net pool k (next_candidate net pool ip)

module _ (net : NetLib) (pool : IpPool) where
  pub find_ip-is_free :
      (n : ℕ) (ip r : Ip) → find_ip net pool n ip ≡ some r → is_free net pool r ≡ true
  unfolding find_ip
  find_ip-is_free zero ip r h = cc
  find_ip-is_free (suc n) ip r h = elim (Bool-cases (is_free net pool ip)) [
    | inl free ↦ ground (arith, free, h)
    | inr taken ↦ find_ip-is_free n (next_candidate net pool ip) r (rw taken at h)
  ]

  -- An address that passes the test is found at once.
  pub find_ip-head :
      (n : ℕ) (ip : Ip) → is_free net pool ip ≡ true → find_ip net pool (suc n) ip ≡ some ip
  unfolding find_ip
  find_ip-head n ip free = rw free

  pub find_ip-none :
      (n k : ℕ) (ip : Ip)
      → find_ip net pool n ip ≡ none
      → k < n
      → is_free net pool (candidate net pool k ip) ≡ false
  unfolding find_ip
  find_ip-none zero k ip h lt = absurd (omega arith)
  find_ip-none (suc n) zero ip h lt = ground (arith, h)
  find_ip-none (suc n) (suc k) ip h lt =
      find_ip-none n k (next_candidate net pool ip) (ground (arith, h)) (omega arith)

  -- The address that `AllocateVIP` returns is one of the first candidates, counting down.
  pub find_vip-candidate :
      (n : ℕ) (ip r : Ip)
      → find_vip net pool n ip ≡ some r
      → (k : ℕ) × (k < n) × (r ≡ vip_candidate k ip)
  unfolding find_vip
  find_vip-candidate zero ip r h = cc
  find_vip-candidate (suc n) ip r h = elim (Bool-cases (is_free net pool ip)) [
    | inl free ↦ (0, omega arith, ground (arith, free, h))
    | inr taken ↦
        let (k, lt, e) = find_vip-candidate n (decrement_ip ip) r (rw taken at h) in
        (suc k, omega arith, e)
  ]

  pub find_vip-is_free :
      (n : ℕ) (ip r : Ip) → find_vip net pool n ip ≡ some r → is_free net pool r ≡ true
  unfolding find_vip
  find_vip-is_free zero ip r h = cc
  find_vip-is_free (suc n) ip r h = elim (Bool-cases (is_free net pool ip)) [
    | inl free ↦ ground (arith, free, h)
    | inr taken ↦ find_vip-is_free n (decrement_ip ip) r (rw taken at h)
  ]
