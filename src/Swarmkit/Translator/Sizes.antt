-- ===== src/Swarmkit/Translator/Sizes.antt =====
-- pkg/swarmkit/translator.go, Translate: the size of a VM.
use swarm_cracker.Prelude.{
  ℕ, suc, ◌≤◌, List, [], ◌∷◌, ok, length, ◌≡◌, refl, ap, arith, code_points, Result-cases,
  Option-cases, inl, inr,
}
use swarm_cracker.Image.Text.{Text}
use swarm_cracker.Types.{Task, Resources, NetworkAttachment, get_container}
use swarm_cracker.Swarmkit.Translator.{
  sizes_for, vm_sizes, interfaces_from, build_network_interfaces, VmConfig, TaskTranslator,
  translate-config_for, translate,
}

sizes_for_bounds : (r : Resources) → (1 ≤ (sizes_for r).0) × (512 ≤ (sizes_for r).1)
unfolding sizes_for
sizes_for_bounds r = ground arith

vm_sizes_bounds : (task : Task) → (1 ≤ (vm_sizes task).0) × (512 ≤ (vm_sizes task).1)
unfolding vm_sizes
vm_sizes_bounds task = elim (Result-cases (get_container task.spec)) [
  | inr (e, failed) ↦ rw (vm_sizes, failed) (omega arith, omega arith)
  | inl (c, found) ↦ elim (Option-cases task.spec.resources.reservations) [
    | inl free ↦ rw (vm_sizes, found, free) (omega arith, omega arith)
    | inr (r, reserved) ↦ rw (vm_sizes, found, reserved) (sizes_for_bounds r)
  ]
]

length-interfaces_from :
    (decimal : ℕ → Text) (digest : Text) (i : ℕ) (ns : List NetworkAttachment)
    → length (interfaces_from decimal digest i ns) ≡ length ns
length-interfaces_from decimal digest i [] = refl
length-interfaces_from decimal digest i (n ∷ ns) =
    ap suc (length-interfaces_from decimal digest (suc i) ns)

-- A task that is translated gets at least one processor, at least 512 MiB of memory, and one interface
-- for each of its networks.
pub translate_sizes :
    (decimal : ℕ → Text) (hex_sha256 : Text → Text) (t : TaskTranslator) (task : Task)
    (config : VmConfig)
    → translate decimal hex_sha256 t task ≡ ok config
    → (1 ≤ config.vcpus)
      × (512 ≤ config.mem_size_mib)
      × (length config.network_interfaces ≡ length task.networks)
unfolding build_network_interfaces
translate_sizes decimal hex_sha256 t task config done =
    let (fine, same) = translate-config_for decimal hex_sha256 t task config done in
    rw (← same) (
      (vm_sizes_bounds task).0,
      (vm_sizes_bounds task).1,
      length-interfaces_from decimal (hex_sha256 (code_points task.id)) 0 task.networks,
    )
