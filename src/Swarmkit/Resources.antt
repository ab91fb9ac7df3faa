-- ===== src/Swarmkit/Resources.antt =====
-- pkg/swarmkit/executor.go: the processors and the memory that a node offers to SwarmKit. An `int` and
-- an `int64` have 64 bits; the numbers here, which stay below 2 ^ 63, are not wrapped. What the
-- system and the configuration say is an argument; a negative reservation is not modelled.
use swarm_cracker.Prelude.{
  ℕ, ◌+◌, ◌-◌, ◌*◌, ◌/◌, ◌≤◌, ◌<◌, String, Bool, ◌||◌, string_eq, nat_eq, ◌==◌, ltb, leb,
  if◌then◌else◌, ℤ, pos, negsuc, ◌≡◌, ◌⊎◌, inl, inr, arith, Bool-cases,
}

unfoldable pub arch_supported : String → Bool
arch_supported arch = (arch == "amd64") || (arch == "arm64")

abbrev at_least : ℕ → ℕ → ℕ
at_least least n = if ltb n least then least else n

-- A difference of Go, which may be negative.
abbrev pub minus : ℕ → ℕ → ℤ
minus a b = if ltb a b then negsuc (b - a - 1) else pos (a - b)

-- `totalCPUs - 1` is not negative here: a system has a processor.
unfoldable pub reserved_cpus : ℕ → ℕ → ℕ
reserved_cpus total configured =
    let reserved = if configured == 0 then at_least 1 (total / 10) else configured in
    if leb total reserved then at_least 1 (total - 1) else reserved

unfoldable pub get_cpus : ℕ → ℕ → ℕ
unfolding reserved_cpus
get_cpus total configured = (total - reserved_cpus total configured) * 1000000000

abbrev pub mebibyte : ℕ
mebibyte = 1024 * 1024

-- 8 GiB where /proc/meminfo cannot be read.
abbrev pub total_memory : ℕ → ℕ
total_memory measured = if measured == 0 then 8 * 1024 * mebibyte else measured

unfoldable pub reserved_memory : ℕ → ℕ → ℕ
reserved_memory total configured_mb =
    let reserved =
      (if configured_mb == 0 then at_least 512 (total / 1024 / 1024 / 10) else configured_mb)
      * mebibyte in
    if leb total reserved then at_least (512 * mebibyte) (total / 10) else reserved

unfoldable pub get_memory : ℕ → ℕ → ℤ
unfolding reserved_memory
get_memory measured configured_mb =
    minus (total_memory measured) (reserved_memory (total_memory measured) configured_mb)

reserved_cpus_bounds :
    (total configured : ℕ)
    → 0 < total
    → (0 < reserved_cpus total configured)
      × (reserved_cpus total configured ≤ total)
      × (total ≡ 1 ⊎ reserved_cpus total configured < total)
unfolding reserved_cpus
reserved_cpus_bounds total configured some_cpu = ground arith

reserved_memory_bounds :
    (total configured_mb : ℕ)
    → 512 * mebibyte < total
    → (0 < reserved_memory total configured_mb) × (reserved_memory total configured_mb < total)
unfolding reserved_memory
reserved_memory_bounds total configured_mb large = ground arith

-- On a node with a processor, whatever is reserved, one processor alone is never offered, and of
-- several at least one is offered and at least one kept back.
pub get_cpus_bounds :
    (total configured : ℕ)
    → 0 < total
    → ((total ≡ 1) × (get_cpus total configured ≡ 0))
      ⊎ ((1000000000 ≤ get_cpus total configured)
          × (get_cpus total configured + 1000000000 ≤ total * 1000000000))
unfolding get_cpus
get_cpus_bounds total configured some_cpu =
    let few = reserved_cpus_bounds total configured some_cpu in
    elim (Bool-cases (total == 1)) [
      | inl one ↦ inl (ground (arith, one), ground (arith, one, few))
      | inr more ↦ inr (ground (arith, more, few), ground (arith, more, few))
    ]

-- With more than 512 MiB of memory, whatever is reserved, the memory offered is positive and less
-- than all of it.
pub get_memory_bounds :
    (measured configured_mb : ℕ)
    → 512 * mebibyte < total_memory measured
    → (offered : ℕ) × (get_memory measured configured_mb ≡ pos offered)
      × (0 < offered)
      × (offered < total_memory measured)
unfolding get_memory
get_memory_bounds measured configured_mb large =
    let held = reserved_memory_bounds (total_memory measured) configured_mb large in
    let total = total_memory measured in
    let kept = reserved_memory total configured_mb in
    (total - kept, ground (arith, held), ground (arith, held), ground (arith, held))
