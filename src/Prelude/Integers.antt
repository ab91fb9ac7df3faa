-- ===== src/Prelude/Integers.antt =====
-- Go's signed 64-bit integers.
use Prim.Native.Nat.{ℕ, ◌-◌, ◌%◌, ◌^◌}
use swarm_cracker.Prelude.Tests.{ltb, if◌then◌else◌}

-- `negsuc n` is -(n + 1).
pub data ℤ : Type 0 where
  pos negsuc : ℕ → ℤ

-- The number that the low 64 bits spell in two's complement.
abbrev pub to_int64 : ℕ → ℤ
to_int64 n =
    if ltb (n % 2 ^ 64) (2 ^ 63) then pos (n % 2 ^ 64) else negsuc (2 ^ 64 - 1 - n % 2 ^ 64)
