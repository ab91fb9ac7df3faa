-- ===== src/Configuration/Defaults.antt =====
-- pkg/config/config.go, SetDefaults and Validate.
use swarm_cracker.Prelude.{
  String, Bool, true, false, not, ◌&&◌, ◌||◌, none, string_eq, ◌==◌, Bool-cases, inl, inr, ℤ, pos,
  negsuc, zero, suc, ◌≡◌, refl, arith,
}
use swarm_cracker.Configuration.{
  Config, is_above_zero, default_to, int_default_to, set_config_defaults, validate,
}

-- A path that the default gives is missing only where both were.
default_to_given :
    (d s : String)
    → ((s == "") && (d == "")) ≡ false
    → ((default_to d s == "") && (d == "")) ≡ false
default_to_given d s given = elim (Bool-cases (s == "")) [
  | inl empty ↦ rw empty (ground (arith, given, empty))
  | inr full ↦ rw (full, full) refl
]

default_to_nonempty : (d s : String) → (d == "") ≡ false → (default_to d s == "") ≡ false
default_to_nonempty d s full = elim (Bool-cases (s == "")) [
  | inl empty ↦ rw empty full
  | inr given ↦ rw (given, given) refl
]

abbrev is_negative : ℤ → Bool
is_negative (pos n) = false
is_negative (negsuc n) = true

int_default_to_positive :
    (d old given : ℤ)
    → is_above_zero d ≡ true
    → is_negative old ≡ false
    → is_negative given ≡ false
    → is_above_zero (int_default_to d (int_default_to old given)) ≡ true
int_default_to_positive d old (negsuc n) h o g = cc
int_default_to_positive d old (pos (suc n)) h o g = refl
int_default_to_positive d (negsuc n) (pos zero) h o g = cc
int_default_to_positive d (pos zero) (pos zero) h o g = h
int_default_to_positive d (pos (suc n)) (pos zero) h o g = refl

-- A configuration with a path of the kernel and one of the root file systems, without negative
-- numbers of processors or mebibytes, without a jailer, and with a positive limit on packets if it
-- limits them, is valid once the defaults are set.
pub set_config_defaults-validate :
    (c : Config)
    → ((c.executor.kernel_path == "") && (c.legacy_kernel == "")) ≡ false
    → ((c.executor.rootfs_dir == "") && (c.legacy_rootfs == "")) ≡ false
    → is_negative c.executor.default_vcpus ≡ false
    → is_negative c.legacy_vcpus ≡ false
    → is_negative c.executor.default_memory_mb ≡ false
    → is_negative c.legacy_memory ≡ false
    → (c.network.enable_rate_limit && not (is_above_zero c.network.max_packets_per_sec)) ≡ false
    → (c.executor.enable_jailer || c.legacy_enable_jailer) ≡ false
    → validate (set_config_defaults c) ≡ none
unfolding validate set_config_defaults
set_config_defaults-validate c kernel rootfs vcpus old_vcpus memory old_memory packets unjailed =
    rw
      (
        default_to_given c.legacy_kernel c.executor.kernel_path kernel,
        default_to_given c.legacy_rootfs c.executor.rootfs_dir rootfs,
        int_default_to_positive (pos 1) c.legacy_vcpus c.executor.default_vcpus refl old_vcpus
            vcpus,
        int_default_to_positive (pos 512) c.legacy_memory c.executor.default_memory_mb refl
            old_memory memory,
        default_to_nonempty "swarm-br0" c.network.bridge_name refl,
        packets,
        unjailed,
      )
      refl
