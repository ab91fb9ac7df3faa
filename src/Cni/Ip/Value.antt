-- ===== src/Cni/Ip/Value.antt =====
-- `incrementIP` of pkg/cni/ipam.go, on addresses as numbers.
use native.Mathlib.Nat.{pow-suc, mod-eq_of_lt, mod_self, mul-le-mul_right}
use native.Mathlib.Decide.{dec_lt}
use mathlib.Core.Path.{ap₂}
use swarm_cracker.Prelude.{
  ℕ, suc, ◌+◌, ◌*◌, ◌%◌, ◌^◌, ◌≤◌, ◌<◌, ◌≡◌, refl, sym, ap, ◌∙◌, [], ◌∷◌, Bool, true, false, arith,
  length, All, if◌then◌else◌, ◌==◌, nat_eq, Bool-cases, inl, inr,
}
use swarm_cracker.Cni.Net.{Ip}
use swarm_cracker.Cni.Ip.{increment_bytes, increment_ip}

-- The number that the bytes spell, the most significant first.
unfoldable pub value : Ip → ℕ
value [] = 0
value (b ∷ bs) = b * 256 ^ length bs + value bs

abbrev pub IsBytes : Ip → Type 0
IsBytes = All (λ b. b < 256)

pub length-increment_bytes : (ip : Ip) → length (increment_bytes ip).0 ≡ length ip
unfolding increment_bytes
length-increment_bytes [] = refl
length-increment_bytes (b ∷ bs) = ground (arith, length-increment_bytes bs)

-- What the bytes have left to carry: the number of addresses, while the loop goes on.
abbrev carried : Bool → ℕ → ℕ
carried going n = if going then n else 0

-- One byte of the loop, over a tail that spells numbers below `p`.
increment_byte :
    (going : Bool) (b p v w : ℕ)
    → b < 256
    → w + carried going p ≡ v + 1
    → (if going then (b + 1) % 256 else b) * p
        + w
        + carried (if going then (b + 1) % 256 == 0 else false) (256 * p)
      ≡ b * p + v + 1
increment_byte false b p v w hb e = omega arith
increment_byte true b p v w hb e = elim (Bool-cases ((b + 1) % 256 == 0)) [
  | inl wraps ↦ let top : b ≡ 255 = ground arith in rw (wraps, top) (omega arith)
  | inr stays ↦ let small : (b + 1) % 256 ≡ b + 1 = ground arith in rw (stays, small) (omega arith)
]

increment_bytes-value :
    (ip : Ip)
    → IsBytes ip
    → value (increment_bytes ip).0 + carried (increment_bytes ip).1 (256 ^ length ip) ≡ value ip + 1
unfolding increment_bytes value
increment_bytes-value [] h = refl
increment_bytes-value (b ∷ bs) h = ground (
  arith,
  length-increment_bytes bs,
  pow-suc 256 (length bs),
  increment_byte (increment_bytes bs).1 b (256 ^ length bs) (value bs)
      (value (increment_bytes bs).0) h.0 (increment_bytes-value bs h.1),
)

increment_bytes-IsBytes : (ip : Ip) → IsBytes ip → IsBytes (increment_bytes ip).0
unfolding increment_bytes
increment_bytes-IsBytes [] h = tt
increment_bytes-IsBytes (b ∷ bs) h = ground (arith, increment_bytes-IsBytes bs h.1)

pub increment_ip-IsBytes : (ip : Ip) → IsBytes ip → IsBytes (increment_ip ip)
unfolding increment_ip
increment_ip-IsBytes = increment_bytes-IsBytes

pub length-increment_ip : (ip : Ip) → length (increment_ip ip) ≡ length ip
unfolding increment_ip
length-increment_ip = length-increment_bytes

pub value-lt : (ip : Ip) → IsBytes ip → value ip < 256 ^ length ip
unfolding value
value-lt [] h = omega arith
value-lt (b ∷ bs) h =
    let step : suc b * 256 ^ length bs ≤ 256 * 256 ^ length bs = mul-le-mul_right _ h.0 in
    omega (arith, pow-suc 256 (length bs), step, value-lt bs h.1)

wrapped : (going : Bool) (v w p : ℕ) → w + carried going p ≡ v + 1 → v < p → w < p → w ≡ (v + 1) % p
wrapped false v w p e hv hw = sym (mod-eq_of_lt (omega arith)) ∙ ap (λ t. t % p) (omega arith)
wrapped true v w p e hv hw =
    let zero_rest : w ≡ 0 = omega arith in
    let full : p ≡ v + 1 = omega arith in rw (zero_rest, ← full) (sym (mod_self p))

-- On an address of bytes `incrementIP` adds one to the address as a number, modulo the number of
-- addresses of that length.
pub increment_ip-value :
    (ip : Ip) → IsBytes ip → value (increment_ip ip) ≡ (value ip + 1) % 256 ^ length ip
unfolding increment_ip
increment_ip-value ip h =
    let below = value-lt (increment_bytes ip).0 (increment_bytes-IsBytes ip h) in
    wrapped (increment_bytes ip).1 _ _ _ (increment_bytes-value ip h) (value-lt ip h)
      (rw length-increment_bytes at below)

-- Short of the last address there is no wrap.
pub increment_ip-value_below :
    (ip : Ip) → IsBytes ip → value ip + 1 < 256 ^ length ip → value (increment_ip ip) ≡ value ip + 1
increment_ip-value_below ip h room = increment_ip-value ip h ∙ mod-eq_of_lt room

digit_le : (b c p v w : ℕ) → w < p → b * p + v ≡ c * p + w → b ≤ c
digit_le b c p v w hw e = elim (dec_lt c b) [
  | yes less ↦
      let step : suc c * p ≤ b * p = mul-le-mul_right p less in absurd (omega (arith, step))
  | no not_less ↦ omega arith
]

-- Addresses of one length are told apart by their values.
pub value-injective :
    (xs ys : Ip) → IsBytes xs → IsBytes ys → length xs ≡ length ys → value xs ≡ value ys → xs ≡ ys
unfolding value
value-injective [] [] hx hy l e = refl
value-injective [] (y ∷ ys) hx hy l e = absurd (omega arith)
value-injective (x ∷ xs) [] hx hy l e = absurd (omega arith)
value-injective (x ∷ xs) (y ∷ ys) hx hy l e =
    let p = 256 ^ length xs in
    let same : length ys ≡ length xs = omega arith in
    let e' : x * p + value xs ≡ y * p + value ys = rw same at e in
    let below : value ys < p = rw same at (value-lt ys hy.1) in
    let digit : x ≡ y = omega (
      arith,
      digit_le x y p (value xs) (value ys) below e',
      digit_le y x p (value ys) (value xs) (value-lt xs hx.1) (sym e'),
    ) in
    let rest : value xs ≡ value ys = omega (arith, e', ap (λ (t : ℕ). t * p) digit) in
    ap₂ (λ (b : ℕ) (bs : Ip). b ∷ bs) digit (value-injective xs ys hx.1 hy.1 (sym same) rest)
