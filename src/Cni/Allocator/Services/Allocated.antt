-- ===== src/Cni/Allocator/Services/Allocated.antt =====
-- pkg/cni/allocator.go, AllocateService: the services that count as allocated.

use swarm_cracker.Prelude.{
  String, ◌≡◌, ◌∙◌, sym, ap, refl, List, [], ◌∷◌, true, some, All, ok, err, Option-cases,
  Result-cases, inl, inr, has, has-insert, string_eq, beq_refl, Bool-cases,
}
use swarm_cracker.Cni.Net.{Ip}
use swarm_cracker.Cni.Errors.{Outcome}
use swarm_cracker.Cni.Ipam.{IpamManager}
use swarm_cracker.Cni.Network.{AllocatedNetwork, ServiceVip}
use swarm_cracker.Cni.Provider.{CniEnv}
use swarm_cracker.Cni.Allocator.{CniAllocator, network_of, write_network, with_ipam}
use swarm_cracker.Cni.Allocator.Pointers.{
  network_of-with_ipam, network_of-write_self, network_of-write_cases,
}
use swarm_cracker.Cni.Allocator.Services.{
  SwarmService, with_service, service_vip, record_vip, allocate_service_vip, allocate_vips,
  ingress_network, publish_ports, has_ports, allocate_service, has_vips, is_service_allocated,
}

-- The network of this id is allocated, and has a virtual address for the service.
record IsServed (a : CniAllocator) (service id : String) : Type 0 where
  network : AllocatedNetwork
  found : network_of a id ≡ some network
  served : has service network.services ≡ true

-- Recording the service in a network leaves it recorded in every network.
write-IsServed :
    (a : CniAllocator) (service id j : String) (network : AllocatedNetwork) (v : ServiceVip)
    → IsServed a service j
    → IsServed (write_network a id (with_service network service v)) service j
write-IsServed a service id j network v s =
    let n = with_service network service v in
    elim (network_of-write_cases a id j n) [
      | inl e ↦ record { network = n; found = e; served = rw (has-insert, beq_refl service) refl }
      | inr e ↦ record { network = s.network; found = e ∙ s.found; served = s.served }
    ]

write-serves :
    (a : CniAllocator) (service id : String) (network : AllocatedNetwork) (v : ServiceVip)
    → network_of a id ≡ some network
    → IsServed (write_network a id (with_service network service v)) service id
write-serves a service id network v found = record {
  network = with_service network service v;
  found = network_of-write_self a id network _ found;
  served = rw (has-insert, beq_refl service) refl;
}

-- What a successful round has done.
record VipRound (a b : CniAllocator) (s : SwarmService) (target : String) : Type 0 where
  ipam : IpamManager
  network : AllocatedNetwork
  v : ServiceVip
  found : network_of a target ≡ some network
  after : b ≡ write_network (with_ipam a ipam) target (with_service network s.id v)

record_vip-VipRound :
    (a b : CniAllocator) (s : SwarmService) (target : String) (network : AllocatedNetwork)
    (result : Outcome Ip × IpamManager)
    → network_of a target ≡ some network
    → record_vip a s target network result ≡ (ok tt, b)
    → VipRound a b s target
unfolding record_vip
record_vip-VipRound a b s target network (err e, ipam) found done = cc
record_vip-VipRound a b s target network (ok vip, ipam) found done = record {
  ipam = ipam;
  network = network;
  v = service_vip s network.id vip;
  found = found;
  after = sym (ap (λ p. p.1) done);
}

module _ (env : CniEnv) (s : SwarmService) where
  vip_round :
      (a b : CniAllocator) (target : String)
      → allocate_service_vip env a s target ≡ (ok tt, b)
      → VipRound a b s target
  unfolding allocate_service_vip
  vip_round a b target e = elim (Option-cases (network_of a target)) [
    | inl missing ↦ cc (rw (missing, allocate_service_vip) at e)
    | inr (network, found) ↦
        record_vip-VipRound a b s target network _ found (rw (found, allocate_service_vip) at e)
  ]

  round-serves :
      (a b : CniAllocator) (target : String) → VipRound a b s target → IsServed b s.id target
  round-serves a b target r = rw r.after (
      write-serves (with_ipam a r.ipam) s.id target r.network r.v
        (network_of-with_ipam a r.ipam target ∙ r.found))

  round-IsServed :
      (a b : CniAllocator) (target j : String)
      → VipRound a b s target
      → IsServed a s.id j
      → IsServed b s.id j
  round-IsServed a b target j r o = rw r.after (
      write-IsServed (with_ipam a r.ipam) s.id target j r.network r.v (record {
        network = o.network;
        found = network_of-with_ipam a r.ipam j ∙ o.found;
        served = o.served;
      }))

  vip_rounds :
      (a b : CniAllocator) (targets : List String)
      → allocate_vips env a s targets ≡ (ok tt, b)
      → All (IsServed b s.id) targets × ((j : String) → IsServed a s.id j → IsServed b s.id j)
  unfolding allocate_vips
  vip_rounds a b [] e = (tt, λ j o. rw (← ap (λ p. p.1) e) o)
  vip_rounds a b (target ∷ rest) e = elim (Result-cases (allocate_service_vip env a s target).0) [
    | inr (failure, r) ↦ cc (rw (r, allocate_vips) at e)
    | inl (u, r) ↦
        let a' = (allocate_service_vip env a s target).1 in
        let round = vip_round a a' target (ap (λ (o : Outcome Unit). (o, a')) r) in
        let ih = vip_rounds a' b rest (rw (r, allocate_vips) at e) in
        (
          (ih.1 target (round-serves a a' target round), ih.0),
          λ j o. ih.1 j (round-IsServed a a' target j round o),
        )
  ]

  publish-IsServed :
      (a : CniAllocator) (order : List String) (j : String)
      → IsServed a s.id j
      → IsServed (publish_ports a s order) s.id j
  unfolding publish_ports
  publish-IsServed a order j o = elim (Bool-cases (has_ports s)) [
    | inr none_published ↦ rw none_published o
    | inl ports ↦ elim (Option-cases (ingress_network a order)) [
      | inl missing ↦ rw (ports, missing, publish_ports) o
      | inr ((id, network), found) ↦
          rw (ports, found, publish_ports)
            (write-IsServed a s.id id j network (service_vip s id []) o)
    ]
  ]

  All-IsServed :
      (a : CniAllocator) (targets : List String)
      → All (IsServed a s.id) targets
      → has_vips a s.id targets ≡ true
  unfolding has_vips
  All-IsServed a [] h = refl
  All-IsServed a (target ∷ rest) h = rw (h.0.found, h.0.served, has_vips) (All-IsServed a rest h.1)

All-map {ℓ} :
    {A : Type ℓ} (P Q : A → Type 0) (xs : List A) → ((x : A) → P x → Q x) → All P xs → All Q xs
All-map P Q [] f h = tt
All-map P Q (x ∷ xs) f h = (f x h.0, All-map P Q xs f h.1)

-- If `AllocateService` succeeds the service counts as allocated, in whatever order the ingress
-- network is looked for.
pub allocate_service_allocated :
    (env : CniEnv) (a b : CniAllocator) (s : SwarmService) (order : List String)
    → allocate_service env a (some s) order ≡ (ok tt, b)
    → is_service_allocated b (some s) ≡ true
unfolding allocate_service is_service_allocated
allocate_service_allocated env a b s order e =
    elim (Result-cases (allocate_vips env a s s.networks).0) [
      | inr (failure, r) ↦ cc (rw (r, allocate_service) at e)
      | inl (u, r) ↦
          let a' = (allocate_vips env a s s.networks).1 in
          let after : publish_ports a' s order ≡ b =
            ap (λ p. p.1) (rw (r, allocate_service) at e) in
          let served =
            (vip_rounds env s a a' s.networks (ap (λ (o : Outcome Unit). (o, a')) r)).0 in
          rw (← after) (
            All-IsServed env s (publish_ports a' s order) s.networks
              (All-map _ _ s.networks (λ j. publish-IsServed env s a' order j) served))
    ]
