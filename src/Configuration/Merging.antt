-- ===== src/Configuration/Merging.antt =====
-- pkg/config/config.go, Merge: the order of merging.
use swarm_cracker.Prelude.{String, string_eq, ◌==◌, Bool-cases, inl, inr, ℤ, ◌≡◌, refl}
use swarm_cracker.Configuration.{
  Config, ExecutorConfig, NetworkConfig, is_above_zero, override, override_int, merge_executor,
  merge_network, merge,
}

override_assoc : (a b c : String) → override (override a b) c ≡ override a (override b c)
override_assoc a b c = elim (Bool-cases (c == "")) [
  | inl empty ↦ rw empty refl
  | inr full ↦ rw (full, full) refl
]

override_int_assoc :
    (a b c : ℤ) → override_int (override_int a b) c ≡ override_int a (override_int b c)
override_int_assoc a b c = elim (Bool-cases (is_above_zero c)) [
  | inl full ↦ rw (full, full) refl
  | inr empty ↦ rw empty refl
]

merge_executor_assoc :
    (a b c : ExecutorConfig)
    → merge_executor (merge_executor a b) c ≡ merge_executor a (merge_executor b c)
merge_executor_assoc a b c =
    rw
      (
        override_assoc a.kernel_path b.kernel_path c.kernel_path,
        override_assoc a.initrd_path b.initrd_path c.initrd_path,
        override_assoc a.rootfs_dir b.rootfs_dir c.rootfs_dir,
        override_assoc a.socket_dir b.socket_dir c.socket_dir,
        override_int_assoc a.default_vcpus b.default_vcpus c.default_vcpus,
        override_int_assoc a.default_memory_mb b.default_memory_mb c.default_memory_mb,
      )
      refl

merge_network_assoc :
    (a b c : NetworkConfig)
    → merge_network (merge_network a b) c ≡ merge_network a (merge_network b c)
merge_network_assoc a b c =
    rw
      (
        override_assoc a.bridge_name b.bridge_name c.bridge_name,
        override_int_assoc a.max_packets_per_sec b.max_packets_per_sec c.max_packets_per_sec,
      )
      refl

-- Three configurations merge to the same one in whatever order the two merges are made.
pub merge_assoc : (a b c : Config) → merge (merge a b) c ≡ merge a (merge b c)
unfolding merge
merge_assoc a b c =
    rw
      (
        merge_executor_assoc a.executor b.executor c.executor,
        merge_network_assoc a.network b.network c.network,
      )
      refl
