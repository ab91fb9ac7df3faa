-- ===== src/Tests/Network.antt =====
-- The theorems about the allocator of the VMs' addresses, on 1.0.0.0/24.
use swarm_cracker.Prelude.{ℕ, ◌≡◌, ◌≢◌, refl, String, List, [], ◌∷◌, ok, lookup, insert}
use swarm_cracker.Cni.Ip.{increment_ip}
use swarm_cracker.Cni.Ip.Value.{value}
use swarm_cracker.Network.Addresses.{
  IpAllocator, allocate, allocate_new, address_of, hash_to_ip, ipv4_candidate, probe, next_probe,
  inc_ip,
}
use swarm_cracker.Network.Addresses.Owners.{
  AllocatorCall, allocates, releases, run, allocate_stable,
}
use swarm_cracker.Tests.Net.{go_net, one_24}

-- The same digest for each id, so that the second VM has to probe.
abbrev pub digest : String → List ℕ
digest id = 0 ∷ 0 ∷ 0 ∷ 7 ∷ []

abbrev pub empty : IpAllocator
empty = record { subnet = one_24; gateway = 1 ∷ 0 ∷ 0 ∷ 1 ∷ []; allocated = [] }

abbrev pub taken : IpAllocator
taken = record empty { allocated = ("1.0.0.8", "vm1") ∷ [] }

abbrev later : List AllocatorCall
later = allocates "vm2" ∷ releases "1.0.0.9" ∷ []

pub first_call : allocate go_net digest empty "vm1" ≡ (ok "1.0.0.8", taken)
unfolding allocate allocate_new address_of hash_to_ip ipv4_candidate probe next_probe inc_ip
    increment_ip go_net value insert lookup
first_call = refl

allocate_stable_example :
    (allocate go_net digest (run go_net digest taken later) "vm1"
      ≡ (ok "1.0.0.8", run go_net digest taken later))
    × ((other ip' : String) (a'' : IpAllocator)
        → "vm1" ≢ other
        → allocate go_net digest (run go_net digest taken later) other ≡ (ok ip', a'')
        → "1.0.0.8" ≢ ip')
allocate_stable_example =
    allocate_stable go_net digest empty taken "vm1" "1.0.0.8" later tt first_call (refl, (refl, tt))
