-- ===== src/Cni/Ipam/Histories.antt =====
-- Histories of calls of the IPAM manager, and who owns an address along them.
use swarm_cracker.Prelude.{
  String, ◌≡◌, ◌≢◌, refl, inl, inr, Option, none, ◌⊎◌, some, Bool, false, ◌&&◌, List, [], ◌∷◌, All,
  lookup, string_eq, ◌==◌, arith, eq_iff, ok, err, Option-cases, beq_refl,
}
use swarm_cracker.Cni.Net.{Ip, NetLib}
use swarm_cracker.Cni.Errors.{Outcome}
use swarm_cracker.Cni.Pool.{IpPool}
use swarm_cracker.Cni.Ipam.{
  IpamManager, create_pool, new_pool, gateway_or_first, allocate_ip, allocate_vip, release_ip,
  with_pool,
}
use swarm_cracker.Cni.Ipam.Views.{ledger, GrantsOrFails, FreesOrFails, Grants, ledger-with_pool}
use swarm_cracker.Cni.Ipam.Allocation.{allocate_ip-Grants, allocate_vip-Grants, release_ip-Frees}

-- The calls that change the manager. `ReleaseVIP` is `ReleaseIP`.
pub data IpamCall : Type 0 where
  creates : String → Option Ip → IpamCall
  allocates : String → String → IpamCall
  allocates_vip : String → String → IpamCall
  releases : Ip → String → IpamCall

unfoldable pub step : NetLib → IpamManager → IpamCall → IpamManager
step net m (creates cidr gateway) = (create_pool net m cidr gateway).1
step net m (allocates cidr owner) = (allocate_ip net m cidr owner).1
step net m (allocates_vip cidr service) = (allocate_vip net m cidr service).1
step net m (releases ip cidr) = (release_ip net m ip cidr).1

unfoldable pub run : NetLib → IpamManager → List IpamCall → IpamManager
run net m [] = m
run net m (call ∷ calls) = run net (step net m call) calls

-- Whether the call releases this address of this subnet.
abbrev pub is_release_of : NetLib → String → String → IpamCall → Bool
is_release_of net cidr text (releases ip j) = j == cidr && net.ip_string ip == text
is_release_of net cidr text _ = false

create_pool_cases :
    (net : NetLib) (m : IpamManager) (j : String) (gateway : Option Ip)
    → ((create_pool net m j gateway).1 ≡ m)
      ⊎ ((pool : IpPool) × (lookup j m.pools ≡ none)
          × (pool.used_ips ≡ [])
          × ((create_pool net m j gateway).1 ≡ with_pool m j pool))
unfolding create_pool
create_pool_cases net m j gateway = elim (Option-cases (lookup j m.pools)) [
  | inr (pool, found) ↦ inl (rw (found, create_pool))
  | inl missing ↦ elim (Option-cases (net.parse_cidr j)) [
    | inl bad ↦ inl (rw (missing, bad, create_pool))
    | inr ((subnet, ip), good) ↦
        let pool = new_pool subnet (gateway_or_first gateway ip) in
        inr (pool, missing, refl, rw (missing, good, create_pool))
  ]
]

module _ (net : NetLib) (m : IpamManager) (cidr text owner : String)
    (owned : ledger m cidr text ≡ some owner) where
  pub grant_keeps :
      (j other : String) (r : Outcome Ip × IpamManager)
      → GrantsOrFails net m j other r
      → ledger r.1 cidr text ≡ some owner
  grant_keeps j other (ok ip, m') g =
      rw g.entries
        (ground (arith, g.was_free, owned, eq_iff j cidr, eq_iff (net.ip_string ip) text))
  grant_keeps j other (err e, m') g = rw g owned

  pub free_keeps :
      (j t : String) (r : Outcome Unit × IpamManager)
      → FreesOrFails m j t r
      → (j == cidr && t == text) ≡ false
      → ledger r.1 cidr text ≡ some owner
  free_keeps j t (ok u, m') g other = rw (g.entries, other) owned
  free_keeps j t (err e, m') g other = rw g owned

  create_keeps :
      (j : String) (gateway : Option Ip)
      → ledger (create_pool net m j gateway).1 cidr text ≡ some owner
  create_keeps j gateway = elim (create_pool_cases net m j gateway) [
    | inl same ↦ rw same owned
    | inr (pool, missing, empty, e) ↦
        rw (e, ledger-with_pool) (unfold ledger in ground (arith, eq_iff j cidr, owned, missing))
  ]

  step_keeps_owner :
      (call : IpamCall)
      → is_release_of net cidr text call ≡ false
      → ledger (step net m call) cidr text ≡ some owner
  unfolding step
  step_keeps_owner (creates j gateway) h = create_keeps j gateway
  step_keeps_owner (allocates j other) h = grant_keeps j other _ (allocate_ip-Grants net m j other)
  step_keeps_owner (allocates_vip j service) h =
      grant_keeps j _ _ (allocate_vip-Grants net m j service)
  step_keeps_owner (releases ip j) h = free_keeps j _ _ (release_ip-Frees net m j ip) h

-- An address that has an owner stays its owner's through any calls of the manager, successful or
-- not, that do not release it.
pub run_keeps_owner :
    (net : NetLib) (m : IpamManager) (cidr text owner : String) (calls : List IpamCall)
    → ledger m cidr text ≡ some owner
    → All (λ call. is_release_of net cidr text call ≡ false) calls
    → ledger (run net m calls) cidr text ≡ some owner
unfolding run
run_keeps_owner net m cidr text owner [] owned h = owned
run_keeps_owner net m cidr text owner (call ∷ calls) owned h =
    run_keeps_owner net (step net m call) cidr text owner calls
      (step_keeps_owner net m cidr text owner owned call h.0) h.1

-- If `AllocateIP` has returned an address, then it does not return it again for the same subnet
-- after any calls of the manager that do not release it.
pub allocate_ip_unique :
    (net : NetLib) (m m' m'' : IpamManager) (cidr owner owner' : String) (ip ip' : Ip)
    (calls : List IpamCall)
    → allocate_ip net m cidr owner ≡ (ok ip, m')
    → All (λ call. is_release_of net cidr (net.ip_string ip) call ≡ false) calls
    → allocate_ip net (run net m' calls) cidr owner' ≡ (ok ip', m'')
    → ip ≢ ip'
allocate_ip_unique net m m' m'' cidr owner owner' ip ip' calls first kept second same =
    let g : Grants (ledger m) (ledger m') cidr (net.ip_string ip) owner =
      rw first at (allocate_ip-Grants net m cidr owner) in
    let g' : Grants (ledger (run net m' calls)) (ledger m'') cidr (net.ip_string ip') owner' =
      rw second at (allocate_ip-Grants net (run net m' calls) cidr owner') in
    let owned : ledger m' cidr (net.ip_string ip) ≡ some owner =
      rw (g.entries, beq_refl cidr, beq_refl (net.ip_string ip)) refl in
    let still = run_keeps_owner net m' cidr (net.ip_string ip) owner calls owned kept in
    cc (still, g'.was_free, same)
