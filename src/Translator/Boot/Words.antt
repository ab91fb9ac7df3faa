-- ===== src/Translator/Boot/Words.antt =====
-- pkg/translator/translator.go, strings.Split: a text and the parts that it is cut into.
use mathlib.Core.List.{append-nil}
use swarm_cracker.Prelude.{
  ℕ, List, [], ◌∷◌, ◌++◌, false, nat_eq, ◌==◌, ◌≡◌, refl, ap, sym, ◌∙◌, arith, All, Bool-cases, inl,
  inr,
}
use swarm_cracker.Image.Text.{Text, join}
use swarm_cracker.Storage.Volume.{contains_char}
use swarm_cracker.Translator.Boot.{split}

pub split_nonempty : (c : ℕ) (s : Text) → (t : Text) × (ts : List Text) × (split c s ≡ t ∷ ts)
unfolding split
split_nonempty c [] = ([], [], refl)
split_nonempty c (x ∷ xs) =
    let (t, ts, e) = split_nonempty c xs in
    elim (Bool-cases (x == c)) [
      | inl sep ↦ ([], split c xs, rw sep refl)
      | inr other ↦ (x ∷ t, ts, rw (other, e) refl)
    ]

pub split-append : (c : ℕ) (a b : Text) → split c (a ++ c ∷ b) ≡ split c a ++ split c b
unfolding split
split-append c [] b = ground arith
split-append c (x ∷ xs) b =
    let ih = split-append c xs b in
    let (t, ts, e) = split_nonempty c xs in
    elim (Bool-cases (x == c)) [
      | inl sep ↦ rw sep (ap (λ y. [] ∷ y) ih)
      | inr other ↦ rw (other, ih, e) refl
    ]

pub split_plain : (c : ℕ) (s : Text) → contains_char s c ≡ false → split c s ≡ s ∷ []
unfolding split
split_plain c [] plain = refl
split_plain c (x ∷ xs) plain = elim (Bool-cases (x == c)) [
  | inl sep ↦ absurd (ground (arith, sep, plain))
  | inr other ↦ rw (other, split_plain c xs (ground (arith, other, plain))) refl
]

abbrev pub split_all : ℕ → List Text → List Text
split_all c [] = []
split_all c (t ∷ ts) = split c t ++ split_all c ts

pub split-join :
    (c : ℕ) (t : Text) (ts : List Text) → split c (join (t ∷ ts) (c ∷ [])) ≡ split_all c (t ∷ ts)
unfolding join
split-join c t [] = sym (append-nil (split c t))
split-join c t (u ∷ us) =
    split-append c t (join (u ∷ us) (c ∷ [])) ∙ ap (λ y. split c t ++ y) (split-join c u us)

pub split_all_plain :
    (c : ℕ) (ts : List Text) → All (λ t. contains_char t c ≡ false) ts → split_all c ts ≡ ts
split_all_plain c [] plain = refl
split_all_plain c (t ∷ ts) plain = rw (split_plain c t plain.0, split_all_plain c ts plain.1) refl
