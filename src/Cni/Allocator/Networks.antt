-- ===== src/Cni/Allocator/Networks.antt =====
-- Which networks count as allocated after `Allocate` and `Deallocate`.
use swarm_cracker.Prelude.{
  ℕ, String, ◌≡◌, refl, none, some, false, lookup, has, lookup-insert, lookup-erase, has-insert,
  has-erase, string_eq, nat_eq, ◌==◌, Option-cases, Bool-cases, Result-cases, inl, inr, beq_refl,
  ok, err, is_ok,
}
use swarm_cracker.Cni.Errors.{Outcome}
use swarm_cracker.Cni.Network.{AllocatedNetwork}
use swarm_cracker.Cni.Provider.{CniEnv, CniProvider, validate_network_driver}
use swarm_cracker.Cni.Allocator.{
  CniAllocator, SwarmNetwork, adopt_network, adopt_result, allocate_new, allocate, as_argument,
  deallocate, is_allocated, network_of, driver_or_bridge,
}

-- The network is recorded exactly if the call succeeds, and no other entry changes.
record Records (a : CniAllocator) (n : SwarmNetwork) (r : Outcome SwarmNetwork × CniAllocator)
    : Type 0 where
  recorded : has n.id a.allocated_nets ≡ false → has n.id r.1.allocated_nets ≡ is_ok r.0
  others :
      (j : String) → (n.id == j) ≡ false → lookup j r.1.allocated_nets ≡ lookup j a.allocated_nets

adopt_network-Records :
    (env : CniEnv) (a : CniAllocator) (p : CniProvider) (n : SwarmNetwork) (driver : String)
    (address : ℕ)
    → Records a n (adopt_network env a p n driver address)
unfolding adopt_network
adopt_network-Records env a p n driver address = elim (Option-cases (lookup address p.store)) [
  | inl missing ↦ rw (missing, adopt_network) (record { recorded = λ h. h; others = λ j h. refl })
  | inr (network, found) ↦
      rw (found, adopt_network)
        (record {
          recorded = λ h. rw (has-insert, beq_refl n.id) refl;
          others = λ j h. rw (lookup-insert, h) refl;
        })
]

adopt_result-Records :
    (env : CniEnv) (a : CniAllocator) (n : SwarmNetwork) (driver : String)
    (answer : Outcome ℕ × CniProvider)
    → Records a n (adopt_result env a n driver answer)
unfolding adopt_result
adopt_result-Records env a n driver (err e, p) = record { recorded = λ h. h; others = λ j h. refl }
adopt_result-Records env a n driver (ok address, p) = adopt_network-Records env a p n driver address

allocate_new-Records :
    (env : CniEnv) (a : CniAllocator) (n : SwarmNetwork) → Records a n (allocate_new env a n)
unfolding allocate_new
allocate_new-Records env a n = elim (Result-cases (validate_network_driver n.driver_config)) [
  | inr (e, r) ↦ rw (r, allocate_new) (record { recorded = λ h. h; others = λ j h. refl })
  | inl (u, r) ↦
      rw (r, allocate_new) (adopt_result-Records env a n (driver_or_bridge n.driver_config) _)
]

is_ok-as_argument : (r : Outcome SwarmNetwork × CniAllocator) → is_ok (as_argument r).0 ≡ is_ok r.0
is_ok-as_argument (ok n, b) = refl
is_ok-as_argument (err e, b) = refl

allocator-as_argument : (r : Outcome SwarmNetwork × CniAllocator) → (as_argument r).1 ≡ r.1
allocator-as_argument (ok n, b) = refl
allocator-as_argument (err e, b) = refl

-- After `Allocate` the network counts as allocated exactly if the call has returned no error, and
-- which other networks do has not changed.
pub allocate-is_allocated :
    (env : CniEnv) (a : CniAllocator) (n : SwarmNetwork)
    → (is_allocated (allocate env a (some n)).1 (some n) ≡ is_ok (allocate env a (some n)).0)
      × ((j : SwarmNetwork)
          → (n.id == j.id) ≡ false
          → is_allocated (allocate env a (some n)).1 (some j) ≡ is_allocated a (some j))
unfolding allocate is_allocated
allocate-is_allocated env a n = elim (Bool-cases (has n.id a.allocated_nets)) [
  | inl known ↦ rw (known, allocate) (known, λ j h. refl)
  | inr new ↦
      let r = allocate_new-Records env a n in
      rw (new, allocate, allocator-as_argument, is_ok-as_argument)
        (r.recorded new, λ j h. rw (has, r.others j.id h) refl)
]

-- After `Deallocate` an allocated network no longer counts as allocated, its pool is gone, and every
-- other id has the network that it had.
pub deallocate-is_allocated :
    (env : CniEnv) (a : CniAllocator) (n : SwarmNetwork) (network : AllocatedNetwork)
    → network_of a n.id ≡ some network
    → (is_allocated (deallocate env a (some n)).1 (some n) ≡ false)
      × (lookup
            (env.net.net_string network.subnet)
            (deallocate env a (some n)).1.provider.ipam_mgr.pools
          ≡ none)
      × ((j : String)
          → (n.id == j) ≡ false
          → network_of (deallocate env a (some n)).1 j ≡ network_of a j)
unfolding deallocate is_allocated
deallocate-is_allocated env a n network found =
    rw (found, deallocate)
      (
        rw (has-erase, beq_refl n.id) refl,
        rw (lookup-erase, beq_refl (env.net.net_string network.subnet)) refl,
        λ j h. unfold network_of in rw (lookup-erase, h) refl,
      )
