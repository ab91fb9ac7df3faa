-- ===== src/Cni/Allocator/Pointers.antt =====
-- Writes through the pointers of `allocatedNets`: two ids may share a network.
use swarm_cracker.Prelude.{
  String, ◌≡◌, ◌⊎◌, refl, some, lookup, lookup-insert, string_eq, nat_eq, ◌==◌, Option-cases,
  Bool-cases, inl, inr, beq_refl,
}
use swarm_cracker.Cni.Ipam.{IpamManager}
use swarm_cracker.Cni.Network.{AllocatedNetwork}
use swarm_cracker.Cni.Allocator.{CniAllocator, network_of, write_network, with_ipam}

pub network_of-with_ipam :
    (a : CniAllocator) (ipam : IpamManager) (id : String)
    → network_of (with_ipam a ipam) id ≡ network_of a id
unfolding network_of
network_of-with_ipam a ipam id = refl

-- Through the id that was written through.
pub network_of-write_self :
    (a : CniAllocator) (id : String) (network n : AllocatedNetwork)
    → network_of a id ≡ some network
    → network_of (write_network a id n) id ≡ some n
unfolding network_of write_network
network_of-write_self a id network n found = elim (Option-cases (lookup id a.allocated_nets)) [
  | inl missing ↦ cc (rw missing at found)
  | inr (p, e) ↦ rw (e, e) (rw (lookup-insert, beq_refl p) refl)
]

-- Through any other: the written network, or what was there.
pub network_of-write_cases :
    (a : CniAllocator) (id j : String) (n : AllocatedNetwork)
    → (network_of (write_network a id n) j ≡ some n)
      ⊎ (network_of (write_network a id n) j ≡ network_of a j)
unfolding network_of write_network
network_of-write_cases a id j n = elim (Option-cases (lookup id a.allocated_nets)) [
  | inl missing ↦ inr (rw missing refl)
  | inr (p, e) ↦ elim (Option-cases (lookup j a.allocated_nets)) [
    | inl absent ↦ inr (rw (e, absent) refl)
    | inr (q, e') ↦ elim (Bool-cases (p == q)) [
      | inl same ↦ inl (rw (e, e') (rw (lookup-insert, same) refl))
      | inr other ↦ inr (rw (e, e') (rw (lookup-insert, other) refl))
    ]
  ]
]
