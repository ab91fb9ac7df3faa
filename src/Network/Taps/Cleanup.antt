-- ===== src/Network/Taps/Cleanup.antt =====
-- pkg/network/manager.go, CleanupNetwork: which devices are left.
use Prim.Native.String.{◌++◌ as text_append}
use swarm_cracker.Prelude.{
  String, [], ◌∷◌, Bool, Option, none, some, Map, lookup, string_eq, eq_iff, if◌then◌else◌,
  Bool-cases, inl, inr, ◌≡◌, ◌≢◌, refl, ap, ◌∙◌, arith,
}
use swarm_cracker.Types.{Task}
use swarm_cracker.Network.Addresses.{IpAllocator}
use swarm_cracker.Network.Taps.{
  TapDevice, TapConfig, TapLib, Links, NetState, is_tap_of, cleanup_taps, cleanup_network,
  release_ip_of, remove_tap_device, tap_key, detach,
}
use swarm_cracker.Network.Taps.Keys.{is_tap_of_starts, is_tap_of_splits}

-- The devices whose keys do not pass the test.
abbrev others : (String → Bool) → Map String TapDevice → Map String TapDevice
others mine [] = []
others mine ((key, tap) ∷ rest) =
    let left = others mine rest in if mine key then left else (key, tap) ∷ left

lookup-others :
    (mine : String → Bool) (key : String) (taps : Map String TapDevice)
    → lookup key (others mine taps) ≡ (if mine key then none else lookup key taps)
unfolding lookup
lookup-others mine key [] = ground arith
lookup-others mine key ((k, tap) ∷ rest) = ground (arith, lookup-others mine key rest, eq_iff k key)

module _ {W : Type 0} (lib : TapLib) (links : Links W) (config : TapConfig) where
  taps-cleanup_taps :
      (id : String) (taps : Map String TapDevice) (allocator : Option IpAllocator) (w : W)
      → (cleanup_taps lib links config id taps allocator w).0.taps ≡ others (is_tap_of id) taps
  unfolding cleanup_taps
  taps-cleanup_taps id [] allocator w = refl
  taps-cleanup_taps id ((key, tap) ∷ rest) allocator w = elim (Bool-cases (is_tap_of id key)) [
    | inl mine ↦
        rw (cleanup_taps, mine)
          (taps-cleanup_taps id rest (release_ip_of lib links config tap allocator)
            (remove_tap_device lib links config tap w))
    | inr other ↦
        rw (cleanup_taps, other)
          (ap (λ ts. (key, tap) ∷ ts) (taps-cleanup_taps id rest allocator w))
  ]

  -- The links of the devices that pass the test are set down and deleted, one after the other.
  abbrev pub take_down : (String → Bool) → Map String TapDevice → W → W
  take_down mine [] w = w
  take_down mine ((key, tap) ∷ rest) w =
      let deleted = (links.delete_link tap.name (links.set_down tap.name w)).1 in
      if mine key then take_down mine rest deleted else take_down mine rest w

  world-cleanup_taps :
      (id : String) (taps : Map String TapDevice) (allocator : Option IpAllocator) (w : W)
      → (cleanup_taps lib links config id taps allocator w).1 ≡ take_down (is_tap_of id) taps w
  unfolding cleanup_taps remove_tap_device
  world-cleanup_taps id [] allocator w = refl
  world-cleanup_taps id ((key, tap) ∷ rest) allocator w = elim (Bool-cases (is_tap_of id key)) [
    | inl mine ↦
        rw (cleanup_taps, mine)
          (world-cleanup_taps id rest (release_ip_of lib links config tap allocator)
            (remove_tap_device lib links config tap w))
    | inr other ↦ rw (cleanup_taps, other) (world-cleanup_taps id rest allocator w)
  ]

  -- After CleanupNetwork there is no device under a key that is the task's identifier, a dash and
  -- anything, such as the keys that PrepareNetwork makes for the task; each key that is not of that form
  -- has the device that it had; and the links of the devices that are gone have been set down and
  -- deleted, before the attachments of CNI.
  pub lookup-cleanup_network :
      (cni : Option (String → String → W → W)) (task : Task) (st : NetState) (w : W)
      → let (st', w') = cleanup_network lib links config cni (some task) st w in
        ((rest : String) → lookup (text_append task.id (text_append "-" rest)) st'.taps ≡ none)
        × ((tap : TapDevice) → lookup (tap_key lib links config task.id tap) st'.taps ≡ none)
        × ((key : String)
            → ((rest : String) → key ≢ text_append task.id (text_append "-" rest))
            → lookup key st'.taps ≡ lookup key st.taps)
        × (w' ≡ detach lib links config cni task (take_down (is_tap_of task.id) st.taps w))
  unfolding cleanup_network
  lookup-cleanup_network cni task st w =
      let at : (key : String)
          → lookup key (cleanup_network lib links config cni (some task) st w).0.taps
            ≡ (if is_tap_of task.id key then none else lookup key st.taps) =
        λ key.
          ap (lookup key) (taps-cleanup_taps task.id st.taps st.allocator w)
          ∙ lookup-others (is_tap_of task.id) key st.taps in
      (
        λ rest. at _ ∙ rw (is_tap_of_starts task.id rest) refl,
        λ tap. at _ ∙ rw (is_tap_of_starts task.id tap.name) refl,
        λ key foreign. elim (Bool-cases (is_tap_of task.id key)) [
          | inl mine ↦ let (rest, e) = is_tap_of_splits task.id key mine in absurd (foreign rest e)
          | inr other ↦ at key ∙ rw other refl
        ],
        ap (detach lib links config cni task) (world-cleanup_taps task.id st.taps st.allocator w),
      )
