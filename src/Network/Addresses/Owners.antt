-- ===== src/Network/Addresses/Owners.antt =====
-- Which VM has which address, along the calls of the allocator.
use swarm_cracker.Prelude.{
  ℕ, zero, suc, String, List, [], ◌∷◌, Bool, true, false, none, some, lookup, insert, lookup-insert,
  lookup-erase, string_eq, ◌==◌, ◌≡◌, ◌≢◌, ◌⊎◌, inl, inr, refl, sym, ap, ◌∙◌, arith, ok, err,
  eq_iff, Option-cases, Bool-cases, All, beq_refl,
}
use mathlib.Core.Path.{subst}
use swarm_cracker.Cni.Net.{Ip, NetLib}
use swarm_cracker.Network.Addresses.{
  IpAllocator, AllocatorError, panics, exhausted, not_in_subnet, address_of, hash_to_ip, probe,
  max_probes, is_usable, next_probe, allocate_new, allocate, release,
}
use swarm_cracker.Network.Addresses.Ownership.{
  IsOwnership, address_of_iff, insert-IsOwnership, erase-IsOwnership,
}

-- What the loop returns passed the test.
probe-is_usable :
    (net : NetLib) (a : IpAllocator) (attempts : ℕ) (start ip : Ip)
    → probe net a attempts start ≡ some ip
    → is_usable net a ip ≡ true
unfolding probe
probe-is_usable net a zero start ip e = cc
probe-is_usable net a (suc attempts) start ip e = elim (Bool-cases (is_usable net a start)) [
  | inl free ↦ let same : start ≡ ip = cc (rw (probe, free) at e) in rw (← same) free
  | inr taken ↦
      probe-is_usable net a attempts (next_probe net a.subnet start) ip (rw (probe, taken) at e)
]

-- The allocator with one more address.
abbrev with_owner : IpAllocator → String → String → IpAllocator
with_owner a ip vm = record a { allocated = insert ip vm a.allocated }

module _ (net : NetLib) (sha256 : String → List ℕ) (a : IpAllocator) (vm : String) where
  allocate_new_cases :
      ((e : AllocatorError) × (allocate_new net sha256 a vm ≡ (err e, a)))
      ⊎ ((ip : Ip) × (is_usable net a ip ≡ true)
          × (allocate_new net sha256 a vm
              ≡ (ok (net.ip_string ip), with_owner a (net.ip_string ip) vm)))
  unfolding allocate_new
  allocate_new_cases = elim (Option-cases (hash_to_ip net sha256 a vm)) [
    | inl panic ↦ inl (panics, rw (panic, allocate_new))
    | inr (start, hashed) ↦ elim (Bool-cases (net.contains a.subnet start)) [
      | inr outside ↦ inl (not_in_subnet start, rw (hashed, outside, allocate_new))
      | inl inside ↦ elim (Option-cases (probe net a max_probes start)) [
        | inl full ↦ inl (exhausted, rw (hashed, inside, full, allocate_new))
        | inr (ip, hit) ↦ inr (
          ip,
          probe-is_usable net a max_probes start ip hit,
          rw (hashed, inside, hit, allocate_new),
        )
      ]
    ]
  ]

  -- A call returns the VM's address, or gives it a fresh one, or fails and changes nothing.
  allocate_cases :
      ((e : AllocatorError) × (allocate net sha256 a vm ≡ (err e, a)))
      ⊎ ((ip : String) × (address_of vm a.allocated ≡ some ip)
          × (allocate net sha256 a vm ≡ (ok ip, a)))
      ⊎ ((ip : Ip) × (address_of vm a.allocated ≡ none)
          × (is_usable net a ip ≡ true)
          × (allocate net sha256 a vm
              ≡ (ok (net.ip_string ip), with_owner a (net.ip_string ip) vm)))
  unfolding allocate
  allocate_cases = elim (Option-cases (address_of vm a.allocated)) [
    | inr (ip, owns) ↦ inr (inl (ip, owns, rw (allocate, owns)))
    | inl none_yet ↦ elim allocate_new_cases [
      | inl (e, r) ↦ inl (e, rw (allocate, none_yet, r) refl)
      | inr (ip, free, r) ↦ inr (inr (ip, none_yet, free, rw (allocate, none_yet, r) refl))
    ]
  ]

  allocate-IsOwnership :
      IsOwnership a.allocated → IsOwnership (allocate net sha256 a vm).1.allocated
  allocate-IsOwnership h = elim allocate_cases [
    | inl (e, r) ↦ rw r h
    | inr (inl (ip, owns, r)) ↦ rw r h
    | inr (inr (ip, none_yet, free, r)) ↦
        rw r
          (insert-IsOwnership (net.ip_string ip) vm a.allocated (ground (arith, free)) none_yet h)
  ]

  allocate_keeps :
      (ip owner : String)
      → lookup ip a.allocated ≡ some owner
      → lookup ip (allocate net sha256 a vm).1.allocated ≡ some owner
  allocate_keeps ip owner owned = elim allocate_cases [
    | inl (e, r) ↦ rw r owned
    | inr (inl (j, owns, r)) ↦ rw r owned
    | inr (inr (j, none_yet, free, r)) ↦
        rw (r, lookup-insert) (ground (arith, free, owned, eq_iff (net.ip_string j) ip))
  ]

  -- What a successful call has recorded.
  allocate_owns :
      (ip : String) (a' : IpAllocator)
      → IsOwnership a.allocated
      → allocate net sha256 a vm ≡ (ok ip, a')
      → lookup ip a'.allocated ≡ some vm
  allocate_owns ip a' h done = elim allocate_cases [
    | inl (e, r) ↦ cc (sym r ∙ done)
    | inr (inl (j, owns, r)) ↦
        let both = sym r ∙ done in
        let same : j ≡ ip = cc (ap (λ p. p.0) both) in
        rw (← ap (λ p. p.1) both, ← same) ((address_of_iff vm j a.allocated h).0 owns)
    | inr (inr (j, none_yet, free, r)) ↦
        let both = sym r ∙ done in
        let same : net.ip_string j ≡ ip = cc (ap (λ p. p.0) both) in
        rw (← ap (λ p. p.1) both, ← same) (rw (lookup-insert, beq_refl (net.ip_string j)) refl)
  ]

-- The calls that change the allocator.
pub data AllocatorCall : Type 0 where
  allocates releases : String → AllocatorCall

unfoldable pub step : NetLib → (String → List ℕ) → IpAllocator → AllocatorCall → IpAllocator
step net sha256 a (allocates vm) = (allocate net sha256 a vm).1
step net sha256 a (releases ip) = release a ip

unfoldable pub run : NetLib → (String → List ℕ) → IpAllocator → List AllocatorCall → IpAllocator
run net sha256 a [] = a
run net sha256 a (call ∷ calls) = run net sha256 (step net sha256 a call) calls

abbrev pub is_release_of : String → AllocatorCall → Bool
is_release_of ip (releases j) = j == ip
is_release_of ip (allocates vm) = false

step-IsOwnership :
    (net : NetLib) (sha256 : String → List ℕ) (a : IpAllocator) (call : AllocatorCall)
    → IsOwnership a.allocated
    → IsOwnership (step net sha256 a call).allocated
unfolding step release
step-IsOwnership net sha256 a (allocates vm) h = allocate-IsOwnership net sha256 a vm h
step-IsOwnership net sha256 a (releases ip) h = erase-IsOwnership ip a.allocated h

-- From an allocator in which each address and each VM stands once, any calls lead to one of that kind.
pub run-IsOwnership :
    (net : NetLib) (sha256 : String → List ℕ) (a : IpAllocator) (calls : List AllocatorCall)
    → IsOwnership a.allocated
    → IsOwnership (run net sha256 a calls).allocated
unfolding run
run-IsOwnership net sha256 a [] h = h
run-IsOwnership net sha256 a (call ∷ calls) h =
    run-IsOwnership net sha256 (step net sha256 a call) calls (step-IsOwnership net sha256 a call h)

step_keeps :
    (net : NetLib) (sha256 : String → List ℕ) (a : IpAllocator) (ip owner : String)
    (call : AllocatorCall)
    → is_release_of ip call ≡ false
    → lookup ip a.allocated ≡ some owner
    → lookup ip (step net sha256 a call).allocated ≡ some owner
unfolding step release
step_keeps net sha256 a ip owner (allocates vm) other owned =
    allocate_keeps net sha256 a vm ip owner owned
step_keeps net sha256 a ip owner (releases j) other owned = rw (lookup-erase, other) owned

run_keeps :
    (net : NetLib) (sha256 : String → List ℕ) (a : IpAllocator) (ip owner : String)
    (calls : List AllocatorCall)
    → All (λ call. is_release_of ip call ≡ false) calls
    → lookup ip a.allocated ≡ some owner
    → lookup ip (run net sha256 a calls).allocated ≡ some owner
unfolding run
run_keeps net sha256 a ip owner [] others owned = owned
run_keeps net sha256 a ip owner (call ∷ calls) others owned =
    run_keeps net sha256 (step net sha256 a call) ip owner calls others.1
      (step_keeps net sha256 a ip owner call others.0 owned)

-- If each address and each VM stands once, then after `Allocate` has returned an address for a VM, and
-- after any calls that do not release this address, `Allocate` returns it again for that VM and
-- changes nothing, and does not return it for any other VM.
pub allocate_stable :
    (net : NetLib) (sha256 : String → List ℕ) (a a' : IpAllocator) (vm ip : String)
    (calls : List AllocatorCall)
    → IsOwnership a.allocated
    → allocate net sha256 a vm ≡ (ok ip, a')
    → All (λ call. is_release_of ip call ≡ false) calls
    → (allocate net sha256 (run net sha256 a' calls) vm ≡ (ok ip, run net sha256 a' calls))
      × ((other ip' : String) (a'' : IpAllocator)
          → vm ≢ other
          → allocate net sha256 (run net sha256 a' calls) other ≡ (ok ip', a'')
          → ip ≢ ip')
unfolding allocate
allocate_stable net sha256 a a' vm ip calls h done others =
    let b = run net sha256 a' calls in
    let owns = allocate_owns net sha256 a vm ip a' h (unfold allocate in done) in
    let kept = run_keeps net sha256 a' ip vm calls others owns in
    let h' : IsOwnership a'.allocated =
      subst (λ (x : IpAllocator). IsOwnership x.allocated) (ap (λ p. p.1) done)
        (allocate-IsOwnership net sha256 a vm h) in
    let h'' = run-IsOwnership net sha256 a' calls h' in
    (
      rw (allocate, (address_of_iff vm ip b.allocated h'').1 kept),
      λ other ip' a'' differ again same.
          let first = allocate_keeps net sha256 b other ip vm kept in
          let later = allocate_owns net sha256 b other ip' a'' h'' again in
          let final : lookup ip a''.allocated ≡ some vm =
            subst (λ (x : IpAllocator). lookup ip x.allocated ≡ some vm) (ap (λ p. p.1) again)
              first in
          differ (cc (final, later, same)),
    )
