-- ===== src/Swarmkit/Translator/Macs.antt =====
-- pkg/swarmkit/translator.go, generateMAC: which interfaces share a hardware address.
use swarm_cracker.Prelude.{ℕ, ◌/◌, ◌%◌, ◌<◌, ◌∷◌, ◌≡◌, ◌↔◌, refl, ap, arith}
use swarm_cracker.Image.Text.{Text}
use swarm_cracker.Swarmkit.Translator.{hex_digit, generate_mac}

hex_digit_injective : (a b : ℕ) → a < 16 → b < 16 → hex_digit a ≡ hex_digit b → a ≡ b
hex_digit_injective a b ha hb e = ground arith

-- The characters of the fourth byte.
abbrev high : Text → ℕ
high (a ∷ b ∷ c ∷ d ∷ e ∷ f ∷ g ∷ h ∷ i ∷ j ∷ rest) = j
high _ = 0

abbrev low : Text → ℕ
low (a ∷ b ∷ c ∷ d ∷ e ∷ f ∷ g ∷ h ∷ i ∷ j ∷ k ∷ rest) = k
low _ = 0

-- Two interfaces get the same address exactly if their indices agree modulo 256: the task is not part
-- of the address.
pub generate_mac_eq_iff : (i j : ℕ) → (generate_mac i ≡ generate_mac j) ↔ (i % 256 ≡ j % 256)
unfolding generate_mac
generate_mac_eq_iff i j = (
  λ e.
      let above : hex_digit (i % 256 / 16) ≡ hex_digit (j % 256 / 16) = ap high e in
      let below : hex_digit (i % 256 % 16) ≡ hex_digit (j % 256 % 16) = ap low e in
      let above' =
        hex_digit_injective (i % 256 / 16) (j % 256 / 16) (omega arith) (omega arith) above in
      let below' =
        hex_digit_injective (i % 256 % 16) (j % 256 % 16) (omega arith) (omega arith) below in
      omega (arith, above', below'),
  λ e. rw e refl,
)
