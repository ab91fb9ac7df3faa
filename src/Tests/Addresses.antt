-- ===== src/Tests/Addresses.antt =====
-- The theorems about the bytes of addresses, about subnets and about names.
use swarm_cracker.Prelude.{◌+◌, ◌%◌, ◌^◌, [], ◌∷◌, arith, ◌≡◌}
use swarm_cracker.Cni.Ip.{increment_ip}
use swarm_cracker.Cni.Ip.Value.{value, increment_ip-value}
use swarm_cracker.Tests.Pools.{ten-IsBytes}

increment_ip-value_example :
    value (increment_ip (10 ∷ 0 ∷ 0 ∷ 255 ∷ [])) ≡ (value (10 ∷ 0 ∷ 0 ∷ 255 ∷ []) + 1) % 256 ^ 4
increment_ip-value_example =
    increment_ip-value (10 ∷ 0 ∷ 0 ∷ 255 ∷ []) (ten-IsBytes 255 (omega arith))
