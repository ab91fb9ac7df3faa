-- ===== src/Cni/Ip/Neighbours.antt =====
-- `decrement_ip` against `increment_ip`, and as a subtraction.
use native.Mathlib.Nat.{pow-suc}
use swarm_cracker.Prelude.{
  ℕ, ◌+◌, ◌*◌, ◌%◌, ◌^◌, ◌<◌, ◌≡◌, refl, ap, [], ◌∷◌, Bool, true, false, arith, length,
  if◌then◌else◌, ◌==◌, nat_eq, Bool-cases, inl, inr,
}
use swarm_cracker.Cni.Net.{Ip}
use swarm_cracker.Cni.Ip.{increment_bytes, increment_ip, decrement_bytes, decrement_ip}
use swarm_cracker.Cni.Ip.Value.{IsBytes, value, value-lt}

decrement-increment_bytes :
    (ip : Ip)
    → IsBytes ip
    → ((decrement_bytes (increment_bytes ip).0).0 ≡ ip)
      × ((decrement_bytes (increment_bytes ip).0).1 ≡ (increment_bytes ip).1)
unfolding increment_bytes decrement_bytes
decrement-increment_bytes [] h = (refl, refl)
decrement-increment_bytes (b ∷ bs) h = ground (arith, decrement-increment_bytes bs h.1)

-- On an address of bytes `decrementIP` undoes `incrementIP`, also where the carry wraps.
pub decrement-increment : (ip : Ip) → IsBytes ip → decrement_ip (increment_ip ip) ≡ ip
unfolding increment_ip decrement_ip
decrement-increment ip h = (decrement-increment_bytes ip h).0

increment-decrement_bytes :
    (ip : Ip)
    → IsBytes ip
    → ((increment_bytes (decrement_bytes ip).0).0 ≡ ip)
      × ((increment_bytes (decrement_bytes ip).0).1 ≡ (decrement_bytes ip).1)
unfolding increment_bytes decrement_bytes
increment-decrement_bytes [] h = (refl, refl)
increment-decrement_bytes (b ∷ bs) h = ground (arith, increment-decrement_bytes bs h.1)

pub increment-decrement : (ip : Ip) → IsBytes ip → increment_ip (decrement_ip ip) ≡ ip
unfolding increment_ip decrement_ip
increment-decrement ip h = (increment-decrement_bytes ip h).0

pub length-decrement_bytes : (ip : Ip) → length (decrement_bytes ip).0 ≡ length ip
unfolding decrement_bytes
length-decrement_bytes [] = refl
length-decrement_bytes (b ∷ bs) = ground (arith, length-decrement_bytes bs)

decrement_bytes-IsBytes : (ip : Ip) → IsBytes ip → IsBytes (decrement_bytes ip).0
unfolding decrement_bytes
decrement_bytes-IsBytes [] h = tt
decrement_bytes-IsBytes (b ∷ bs) h = ground (arith, decrement_bytes-IsBytes bs h.1)

pub decrement_ip-IsBytes : (ip : Ip) → IsBytes ip → IsBytes (decrement_ip ip)
unfolding decrement_ip
decrement_ip-IsBytes = decrement_bytes-IsBytes

abbrev borrowed : Bool → ℕ → ℕ
borrowed going n = if going then n else 0

decrement_byte :
    (going : Bool) (b p v w : ℕ)
    → b < 256
    → w + 1 ≡ v + borrowed going p
    → (if going then (b + 255) % 256 else b) * p + w + 1
      ≡ b * p + v + borrowed (if going then (b + 255) % 256 == 255 else false) (256 * p)
decrement_byte false b p v w hb e = omega arith
decrement_byte true b p v w hb e = elim (Bool-cases ((b + 255) % 256 == 255)) [
  | inl wraps ↦ let bottom : b ≡ 0 = ground arith in rw (wraps, bottom) (omega arith)
  | inr stays ↦
      let small : (b + 255) % 256 + 1 ≡ b = ground arith in
      rw stays (omega (arith, ap (λ (t : ℕ). t * p) small))
]

decrement_bytes-value :
    (ip : Ip)
    → IsBytes ip
    → value (decrement_bytes ip).0 + 1
      ≡ value ip + borrowed (decrement_bytes ip).1 (256 ^ length ip)
unfolding decrement_bytes value
decrement_bytes-value [] h = refl
decrement_bytes-value (b ∷ bs) h = ground (
  arith,
  length-decrement_bytes bs,
  pow-suc 256 (length bs),
  decrement_byte (decrement_bytes bs).1 b (256 ^ length bs) (value bs)
      (value (decrement_bytes bs).0) h.0 (decrement_bytes-value bs h.1),
)

-- On an address of bytes above 0 `decrementIP` takes one from the address as a number.
pub decrement_ip-value :
    (ip : Ip) → IsBytes ip → 0 < value ip → value (decrement_ip ip) + 1 ≡ value ip
unfolding decrement_ip
decrement_ip-value ip h pos =
    let below = value-lt (decrement_bytes ip).0 (decrement_bytes-IsBytes ip h) in
    ground (arith, below, length-decrement_bytes ip, decrement_bytes-value ip h)

pub length-decrement_ip : (ip : Ip) → length (decrement_ip ip) ≡ length ip
unfolding decrement_ip
length-decrement_ip = length-decrement_bytes
