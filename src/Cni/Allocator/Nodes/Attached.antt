-- ===== src/Cni/Allocator/Nodes/Attached.antt =====
-- pkg/cni/allocator.go: the attachments that count as allocated.
use swarm_cracker.Prelude.{
  String, ◌≡◌, refl, ap, ◌∙◌, some, true, false, lookup, insert, has, has-insert, has-erase, erase,
  string_eq, ok, err, Option-cases, inl, inr, beq_refl,
}
use swarm_cracker.Cni.Net.{Ip}
use swarm_cracker.Cni.Errors.{Outcome}
use swarm_cracker.Cni.Ipam.{IpamManager, release_ip}
use swarm_cracker.Cni.Network.{AllocatedNetwork, NodeAttachment}
use swarm_cracker.Cni.Provider.{CniEnv}
use swarm_cracker.Cni.Allocator.{CniAllocator, network_of, with_ipam}
use swarm_cracker.Cni.Allocator.Pointers.{network_of-with_ipam, network_of-write_self}
use swarm_cracker.Cni.Allocator.Nodes.{
  NodeLink, allocate_attachment, attach_node, record_attachment, deallocate_attachment, detach_node,
  is_attachment_allocated,
}

module _ (env : CniEnv) (a : CniAllocator) (node : String) (na : NodeLink) where
  record_attachment_lem :
      (network : AllocatedNetwork) (answer : Outcome Ip × IpamManager) (na' : NodeLink)
      (b : CniAllocator)
      → network_of a na.network ≡ some network
      → record_attachment env.net a node na network answer ≡ (ok tt, some na', b)
      → is_attachment_allocated b (some node) (some na') ≡ true
  unfolding record_attachment is_attachment_allocated
  record_attachment_lem network (err e, ipam) na' b found done = cc done
  record_attachment_lem network (ok ip, ipam) na' b found done =
      let c = with_ipam a ipam in
      let attachment : NodeAttachment = record {
        node_id = node;
        network_id = network.id;
        ip_address = ip;
        vxlan_vni = network.vxlan_id;
      } in
      let written = record network { attachments = insert node attachment network.attachments } in
      let there =
        network_of-write_self c na.network network written
          (network_of-with_ipam a ipam na.network ∙ found) in
      let after = ap (λ r. r.2) done in
      let same : na.network ≡ na'.network = cc (ap (λ r. r.1) done) in
      rw (← same, ← after, is_attachment_allocated, there) (rw (has-insert, beq_refl node) refl)

  -- If `AllocateAttachment` succeeds the attachment of the node counts as allocated.
  allocate_attachment_allocated :
      (na' : NodeLink) (b : CniAllocator)
      → allocate_attachment env a (some node) (some na) ≡ (ok tt, some na', b)
      → is_attachment_allocated b (some node) (some na') ≡ true
  unfolding allocate_attachment attach_node
  allocate_attachment_allocated na' b done = elim (Option-cases (network_of a na.network)) [
    | inl missing ↦ cc (rw (missing, attach_node) at done)
    | inr (network, found) ↦
        record_attachment_lem network _ na' b found (rw (found, attach_node) at done)
  ]

  -- `DeallocateAttachment` succeeds, and after it the attachment of the node does not count as
  -- allocated.
  pub deallocate_attachment_lem :
      ((deallocate_attachment env a (some node) (some na)).0 ≡ ok tt)
      × (is_attachment_allocated
            (deallocate_attachment env a (some node) (some na)).2
            (some node)
            (some na)
          ≡ false)
  unfolding deallocate_attachment detach_node is_attachment_allocated
  deallocate_attachment_lem = elim (Option-cases (network_of a na.network)) [
    | inl missing ↦ rw (missing, detach_node) (refl, rw (is_attachment_allocated, missing) refl)
    | inr (network, found) ↦ elim (Option-cases (lookup node network.attachments)) [
      | inl absent ↦
          rw (found, absent, detach_node)
            (refl, rw (is_attachment_allocated, found, has, absent) refl)
      | inr (attachment, there) ↦
          let ipam =
            (release_ip env.net a.provider.ipam_mgr attachment.ip_address
              (env.net.net_string network.subnet)).1 in
          let e =
            network_of-write_self (with_ipam a ipam) na.network network
              (record network { attachments = erase node network.attachments })
              (network_of-with_ipam a ipam na.network ∙ found) in
          rw (found, there, detach_node)
            (refl, rw (is_attachment_allocated, e) (rw (has-erase, beq_refl node) refl))
    ]
  ]
