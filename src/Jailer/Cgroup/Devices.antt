-- ===== src/Jailer/Cgroup/Devices.antt =====
-- pkg/jailer/cgroup.go, discoverBlockDevices.
use swarm_cracker.Prelude.{
  String, List, [], ◌∷◌, ◌++◌, false, nat_eq, ◌≡◌, refl, ◌∙◌, arith, Bool-cases, Option-cases, inl,
  inr,
}
use swarm_cracker.Jailer.Cgroup.{
  BlockDevice, Cgroups, same_device, is_known, add_device, get_device_for_path, devices_from,
  discover_block_devices,
}

-- No two devices have the same numbers.
unfoldable pub HasDistinctDevices : List BlockDevice → Type 0
HasDistinctDevices [] = Unit
HasDistinctDevices (d ∷ ds) = (is_known d ds ≡ false) × HasDistinctDevices ds

same_device_sym : (d e : BlockDevice) → same_device d e ≡ same_device e d
same_device_sym d e = ground arith

is_known-append :
    (x dev : BlockDevice) (ds : List BlockDevice)
    → is_known x ds ≡ false
    → same_device dev x ≡ false
    → is_known x (ds ++ (dev ∷ [])) ≡ false
unfolding is_known
is_known-append x dev [] fresh other = rw other refl
is_known-append x dev (d ∷ ds) fresh other = elim (Bool-cases (same_device d x)) [
  | inl same ↦ cc (rw same at fresh)
  | inr apart ↦ rw apart (is_known-append x dev ds (rw apart at fresh) other)
]

append-HasDistinctDevices :
    (dev : BlockDevice) (ds : List BlockDevice)
    → HasDistinctDevices ds
    → is_known dev ds ≡ false
    → HasDistinctDevices (ds ++ (dev ∷ []))
unfolding is_known HasDistinctDevices
append-HasDistinctDevices dev [] distinct fresh = (refl, tt)
append-HasDistinctDevices dev (d ∷ ds) (alone, distinct) fresh =
    elim (Bool-cases (same_device d dev)) [
      | inl same ↦ cc (rw same at fresh)
      | inr apart ↦ (
        is_known-append d dev ds alone (same_device_sym dev d ∙ apart),
        append-HasDistinctDevices dev ds distinct (rw apart at fresh),
      )
    ]

add_device-HasDistinctDevices :
    (dev : BlockDevice) (ds : List BlockDevice)
    → HasDistinctDevices ds
    → HasDistinctDevices (add_device dev ds)
add_device-HasDistinctDevices dev ds distinct = elim (Bool-cases (is_known dev ds)) [
  | inl known ↦ rw known distinct
  | inr fresh ↦ rw fresh (append-HasDistinctDevices dev ds distinct fresh)
]

devices_from-HasDistinctDevices :
    {W : Type 0} (c : Cgroups W) (paths : List String) (ds : List BlockDevice) (w : W)
    → HasDistinctDevices ds
    → HasDistinctDevices (devices_from c paths ds w)
unfolding devices_from
devices_from-HasDistinctDevices c [] ds w distinct = distinct
devices_from-HasDistinctDevices c (path ∷ paths) ds w distinct =
    elim (Option-cases (get_device_for_path c path w)) [
      | inl gone ↦ rw (devices_from, gone) (devices_from-HasDistinctDevices c paths ds w distinct)
      | inr (dev, found) ↦
          rw (devices_from, found)
            (devices_from-HasDistinctDevices c paths (add_device dev ds) w
              (add_device-HasDistinctDevices dev ds distinct))
    ]

-- The devices that are discovered have distinct numbers, so each gets one line of limits.
discover_block_devices-HasDistinctDevices :
    {W : Type 0} (c : Cgroups W) (w : W) → HasDistinctDevices (discover_block_devices c w)
unfolding discover_block_devices HasDistinctDevices
discover_block_devices-HasDistinctDevices c w = devices_from-HasDistinctDevices c _ [] w tt
