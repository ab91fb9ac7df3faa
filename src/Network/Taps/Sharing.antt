-- ===== src/Network/Taps/Sharing.antt =====
-- pkg/network/manager.go, createTapDevice: the address of a second network of a task.

use swarm_cracker.Prelude.{
  ℕ, String, List, [], true, Option, some, string_eq, ◌==◌, Result, ok, err, Option-cases, inl, inr,
  ◌≡◌, refl, ap, sym, ◌∙◌,
}
use swarm_cracker.Types.{NetworkAttachment}
use swarm_cracker.Network.Addresses.{IpAllocator, allocate}
use swarm_cracker.Network.Addresses.Owners.{run, allocate_stable}
use swarm_cracker.Network.Addresses.Ownership.{IsOwnership}
use swarm_cracker.Network.Taps.{
  TapDevice, TapConfig, TapLib, Links, TapError, local_address, choose_address, create_tap_device,
  make_link, bridge_for, tap_name,
}

-- The address of a device, if one was made.
abbrev ip_of : Result TapError TapDevice → String
ip_of (ok tap) = tap.ip
ip_of (err e) = ""

module _ {W : Type 0} (lib : TapLib) (links : Links W) (config : TapConfig) where
  chosen :
      (addrs : List String) (id ip : String) (a a' : IpAllocator)
      → (config.ip_mode == "static") ≡ true
      → addrs ≡ []
      → allocate lib.net lib.sha256 a id ≡ (ok ip, a')
      → choose_address lib links config id addrs (some a) ≡ (ip, "", some a')
  unfolding choose_address local_address
  chosen addrs id ip a a' static bare given =
      rw (bare, choose_address, local_address, static, given) refl

  made_ip :
      (n : NetworkAttachment) (i : ℕ) (id : String) (allocator : Option IpAllocator) (w : W)
      (tap : TapDevice)
      → (create_tap_device lib links config n i id allocator w).0 ≡ ok tap
      → tap.ip ≡ (choose_address lib links config id n.addresses allocator).0
  unfolding create_tap_device
  made_ip n i id allocator w tap made =
      elim (Option-cases
        (make_link lib links config (tap_name lib links config id i)
          (bridge_for lib links config n.network) (n.network.spec.driver == "overlay") w).0) [
            | inr (e, failed) ↦ cc (rw (create_tap_device, failed) at made)
            | inl fine ↦ sym (ap ip_of (rw (create_tap_device, fine) at made))
          ]

  kept_allocator :
      (n : NetworkAttachment) (i : ℕ) (id : String) (allocator : Option IpAllocator) (w : W)
      → (create_tap_device lib links config n i id allocator w).1
        ≡ (choose_address lib links config id n.addresses allocator).2
  unfolding create_tap_device
  kept_allocator n i id allocator w =
      elim (Option-cases
        (make_link lib links config (tap_name lib links config id i)
          (bridge_for lib links config n.network) (n.network.spec.driver == "overlay") w).0) [
            | inr (e, failed) ↦ rw (create_tap_device, failed) refl
            | inl fine ↦ rw (create_tap_device, fine) refl
          ]

  -- In the static mode, when the allocator gives a task an address, the devices made one after the other
  -- for two networks of the task that bring no address of their own have this same address.
  pub create_tap_device_shares :
      (n m : NetworkAttachment) (i j : ℕ) (id ip : String) (a a' : IpAllocator) (w w' : W)
      (first second : TapDevice)
      → (config.ip_mode == "static") ≡ true
      → IsOwnership a.allocated
      → n.addresses ≡ []
      → m.addresses ≡ []
      → allocate lib.net lib.sha256 a id ≡ (ok ip, a')
      → (create_tap_device lib links config n i id (some a) w).0 ≡ ok first
      → (create_tap_device lib links config m j id
          (create_tap_device lib links config n i id (some a) w).1
          w').0
        ≡ ok second
      → (first.ip ≡ ip) × (second.ip ≡ ip)
  create_tap_device_shares n m i j id ip a a' w w' first second static owners bare bare' given made
        made' =
      let chose = chosen n.addresses id ip a a' static bare given in
      let again = (allocate_stable lib.net lib.sha256 a a' id ip [] owners given tt).0 in
      let kept = kept_allocator n i id (some a) w ∙ ap (λ c. c.2) chose in
      let next = ap (λ al. (choose_address lib links config id m.addresses al).0) kept in
      let chose' = chosen m.addresses id ip a' a' static bare' (unfold run in again) in
      (
        made_ip n i id (some a) w first made ∙ ap (λ c. c.0) chose,
        made_ip m j id _ w' second made' ∙ next ∙ ap (λ c. c.0) chose',
      )
