-- ===== src/Cni/Allocator/Services.antt =====
-- pkg/cni/allocator.go: the virtual addresses of services.
pub mod Allocated
use swarm_cracker.Prelude.{
  ℕ, String, List, [], ◌∷◌, Bool, true, false, Option, none, some, Map, lookup, has, insert, erase,
  string_eq, ok, err, if◌then◌else◌, map,
}
use swarm_cracker.Cni.Net.{Ip}
use swarm_cracker.Cni.Errors.{Outcome, service_nil, network_not_allocated, allocate_vip_failed}
use swarm_cracker.Cni.Ipam.{IpamManager, allocate_vip, release_vip}
use swarm_cracker.Cni.Network.{AllocatedNetwork, PublishedPort, ServiceVip}
use swarm_cracker.Cni.Provider.{CniEnv}
use swarm_cracker.Cni.Allocator.{CniAllocator, network_of, write_network, with_ipam}

-- api.PortConfig, with the names of its protocol and its mode.
pub record PortConfig : Type 0 where
  pub target_port : ℕ
  pub published_port : ℕ
  pub protocol : String
  pub publish_mode : String

-- api.Service: the targets of its networks, and the ports of its endpoint, `none` for a nil one.
pub record SwarmService : Type 0 where
  pub id : String
  pub networks : List String
  pub endpoint : Option (List PortConfig)

unfoldable pub parse_published_ports : SwarmService → List PublishedPort
parse_published_ports s = elim s.endpoint [
  | none ↦ []
  | some ports ↦
      map
        (λ p. record {
          port = p.target_port;
          published_port = p.published_port;
          protocol = p.protocol;
          publish_mode = p.publish_mode;
        })
        ports
]

unfoldable pub has_vips : CniAllocator → String → List String → Bool
has_vips a service [] = true
has_vips a service (target ∷ rest) =
    let later = has_vips a service rest in
    elim (network_of a target) [
      | none ↦ false
      | some network ↦ if has service network.services then later else false
    ]

unfoldable pub is_service_allocated : CniAllocator → Option SwarmService → Bool
is_service_allocated a none = false
is_service_allocated a (some s) = has_vips a s.id s.networks

abbrev pub service_vip : SwarmService → String → Ip → ServiceVip
service_vip s network_id vip = record {
  service_id = s.id;
  network_id = network_id;
  vip = vip;
  published_ports = parse_published_ports s;
}

abbrev pub with_service : AllocatedNetwork → String → ServiceVip → AllocatedNetwork
with_service network service v = record network { services = insert service v network.services }

-- What a round does with the result of `AllocateVIP`.
unfoldable pub record_vip :
    CniAllocator
    → SwarmService
    → String
    → AllocatedNetwork
    → Outcome Ip × IpamManager
    → Outcome Unit × CniAllocator
record_vip a s target network (err e, ipam) = (err (allocate_vip_failed e), with_ipam a ipam)
record_vip a s target network (ok vip, ipam) = (
  ok tt,
  write_network (with_ipam a ipam) target
      (with_service network s.id (service_vip s network.id vip)),
)

-- One round of the loop over the service's networks.
unfoldable pub allocate_service_vip :
    CniEnv → CniAllocator → SwarmService → String → Outcome Unit × CniAllocator
allocate_service_vip env a s target = elim (network_of a target) [
  | none ↦ (err (network_not_allocated target), a)
  | some network ↦
      record_vip a s target network
        (allocate_vip env.net a.provider.ipam_mgr (env.net.net_string network.subnet) s.id)
]

-- An error ends the loop, and what earlier rounds have allocated stays.
unfoldable pub allocate_vips :
    CniEnv → CniAllocator → SwarmService → List String → Outcome Unit × CniAllocator
allocate_vips env a s [] = (ok tt, a)
allocate_vips env a s (target ∷ rest) =
    let (result, b) = allocate_service_vip env a s target in
    let later = allocate_vips env b s rest in elim result [ err e ↦ (err e, b) | ok _ ↦ later ]

-- The first ingress network in the order in which Go's `range` visits the map, which the language
-- leaves open: `order` lists the ids in that order.
unfoldable pub ingress_network : CniAllocator → List String → Option (String × AllocatedNetwork)
ingress_network a [] = none
ingress_network a (id ∷ rest) =
    let later = ingress_network a rest in
    elim (network_of a id) [
      | none ↦ later
      | some network ↦ if network.ingress then some (id, network) else later
    ]

abbrev pub has_ports : SwarmService → Bool
has_ports s = elim s.endpoint [
  | none ↦ false
  | some ports ↦ elim ports [ [] ↦ false | p ∷ rest ↦ true ]
]

-- The published ports go into the ingress network, with no address.
unfoldable pub publish_ports : CniAllocator → SwarmService → List String → CniAllocator
publish_ports a s order =
    if has_ports s
    then elim (ingress_network a order) [
      | none ↦ a
      | some (id, network) ↦ write_network a id (with_service network s.id (service_vip s id []))
    ]
    else a

unfoldable pub allocate_service :
    CniEnv → CniAllocator → Option SwarmService → List String → Outcome Unit × CniAllocator
allocate_service env a none order = (err service_nil, a)
allocate_service env a (some s) order =
    let (result, b) = allocate_vips env a s s.networks in
    elim result [ err e ↦ (err e, b) | ok _ ↦ (ok tt, publish_ports b s order) ]

-- One round of the loop of `DeallocateService`. The result of `ReleaseVIP` is ignored.
unfoldable pub release_service_vip : CniEnv → CniAllocator → SwarmService → String → CniAllocator
release_service_vip env a s target = elim (network_of a target) [
  | none ↦ a
  | some network ↦ elim (lookup s.id network.services) [
    | none ↦ a
    | some v ↦
        let (result, ipam) =
          release_vip env.net a.provider.ipam_mgr v.vip (env.net.net_string network.subnet) s.id in
        write_network (with_ipam a ipam) target
          (record network { services = erase s.id network.services })
  ]
]

unfoldable pub release_vips : CniEnv → CniAllocator → SwarmService → List String → CniAllocator
release_vips env a s [] = a
release_vips env a s (target ∷ rest) = release_vips env (release_service_vip env a s target) s rest

unfoldable pub leave_ingress : CniAllocator → SwarmService → List String → CniAllocator
leave_ingress a s order = elim (ingress_network a order) [
  | none ↦ a
  | some (id, network) ↦
      write_network a id (record network { services = erase s.id network.services })
]

unfoldable pub deallocate_service :
    CniEnv → CniAllocator → Option SwarmService → List String → Outcome Unit × CniAllocator
deallocate_service env a none order = (err service_nil, a)
deallocate_service env a (some s) order =
    (ok tt, leave_ingress (release_vips env a s s.networks) s order)
