-- ===== src/Cni/Allocator/Nodes.antt =====
-- pkg/cni/allocator.go: the attachments of nodes to networks.
pub mod Attached
use swarm_cracker.Prelude.{
  ℕ, String, List, [], ◌∷◌, Bool, false, Option, none, some, lookup, has, insert, erase, string_eq,
  ◌==◌, ok, err, if◌then◌else◌,
}
use swarm_cracker.Cni.Errors.{
  Outcome, node_or_attachment_nil, network_not_allocated, allocate_attachment_ip_failed,
}
use swarm_cracker.Cni.Net.{Ip, NetLib}
use swarm_cracker.Cni.Ipam.{IpamManager, allocate_ip, release_ip}
use swarm_cracker.Cni.Network.{AllocatedNetwork, NodeAttachment}
use swarm_cracker.Cni.Provider.{CniEnv}
use swarm_cracker.Cni.Allocator.{CniAllocator, network_of, write_network, with_ipam}

-- api.NetworkAttachment of a node: the id of its network, its addresses, and its driver options,
-- of which the allocator writes the VXLAN identifier.
pub record NodeLink : Type 0 where
  pub network : String
  pub addresses : List String
  pub vxlan_vni : Option ℕ

-- What a call returns: the result, the attachment as it is left, and the allocator.
abbrev pub LinkOutcome : Type 0
LinkOutcome = Outcome Unit × Option NodeLink × CniAllocator

abbrev pub both : Option String → Option NodeLink → Option (String × NodeLink)
both none na = none
both (some node) none = none
both (some node) (some na) = some (node, na)

-- What `AllocateAttachment` does with the result of `AllocateIP`.
unfoldable pub record_attachment :
    NetLib
    → CniAllocator
    → String
    → NodeLink
    → AllocatedNetwork
    → Outcome Ip × IpamManager
    → LinkOutcome
record_attachment net a node na network (err e, ipam) =
    (err (allocate_attachment_ip_failed e), some na, with_ipam a ipam)
record_attachment net a node na network (ok ip, ipam) =
    let attachment : NodeAttachment = record {
      node_id = node;
      network_id = network.id;
      ip_address = ip;
      vxlan_vni = network.vxlan_id;
    } in
    (
      ok tt,
      some (record na {
        addresses = net.ip_string ip ∷ [];
        vxlan_vni = if network.driver == "vxlan" then some network.vxlan_id else na.vxlan_vni;
      }),
      write_network (with_ipam a ipam) na.network
          (record network { attachments = insert node attachment network.attachments }),
    )

unfoldable pub attach_node : CniEnv → CniAllocator → String → NodeLink → LinkOutcome
attach_node env a node na = elim (network_of a na.network) [
  | none ↦ (err (network_not_allocated na.network), some na, a)
  | some network ↦
      record_attachment env.net a node na network
        (allocate_ip env.net a.provider.ipam_mgr (env.net.net_string network.subnet) node)
]

-- A nil node or attachment is `none`.
unfoldable pub allocate_attachment :
    CniEnv → CniAllocator → Option String → Option NodeLink → LinkOutcome
allocate_attachment env a node na = elim (both node na) [
  | none ↦ (err node_or_attachment_nil, na, a)
  | some (n, l) ↦ attach_node env a n l
]

unfoldable pub detach_node : CniEnv → CniAllocator → String → NodeLink → LinkOutcome
detach_node env a node na = elim (network_of a na.network) [
  | none ↦ (ok tt, some na, a)
  | some network ↦ elim (lookup node network.attachments) [
    | none ↦ (ok tt, some na, a)
    | some attachment ↦
        let (result, ipam) =
          release_ip env.net a.provider.ipam_mgr attachment.ip_address
            (env.net.net_string network.subnet) in
        (
          ok tt,
          some (record na { addresses = []; vxlan_vni = none }),
          write_network (with_ipam a ipam) na.network
              (record network { attachments = erase node network.attachments }),
        )
  ]
]

unfoldable pub deallocate_attachment :
    CniEnv → CniAllocator → Option String → Option NodeLink → LinkOutcome
deallocate_attachment env a node na = elim (both node na) [
  | none ↦ (err node_or_attachment_nil, na, a)
  | some (n, l) ↦ detach_node env a n l
]

unfoldable pub is_attachment_allocated : CniAllocator → Option String → Option NodeLink → Bool
is_attachment_allocated a node na = elim (both node na) [
  | none ↦ false
  | some (n, l) ↦ elim (network_of a l.network) [
    | none ↦ false
    | some network ↦ has n network.attachments
  ]
]
