-- ===== src/Network/Taps/Keys.antt =====
-- pkg/network/manager.go: the keys of the map of devices, of which CleanupNetwork looks at the beginning.
use Prim.Native.String.append
use Prim.Native.String.{◌++◌ as text_append}
use Prim.Native.Char.{code}
use text.Mathlib.TextEquality.{Char-path}
use text.Mathlib.TextLemmas.{append_assoc}
use mathlib.Core.Path.{subst}
use swarm_cracker.Prelude.{
  String, true, ◌==◌, nat_eq, ◌≡◌, refl, sym, ap, ◌∙◌, Bool-cases, inl, inr, code_points, beq_refl,
}
use swarm_cracker.Storage.Volume.{has_prefix}
use swarm_cracker.Network.Taps.{is_tap_of}

has_prefix-append :
    (p rest : String) → has_prefix (code_points (text_append p rest)) (code_points p) ≡ true
has_prefix-append String.[] rest = refl
has_prefix-append (String.◌∷◌ c p) rest =
    rw (append.cons c p rest) (rw (has_prefix, beq_refl (code c)) (has_prefix-append p rest))

split_prefix :
    (p s : String)
    → has_prefix (code_points s) (code_points p) ≡ true
    → (rest : String) × (s ≡ text_append p rest)
split_prefix String.[] s h = (s, sym (append.nil s))
split_prefix (String.◌∷◌ c p) String.[] h = cc
split_prefix (String.◌∷◌ c p) (String.◌∷◌ d s) h = elim (Bool-cases (code d == code c)) [
  | inr apart ↦ cc (rw (has_prefix, apart) at h)
  | inl same ↦
      let (rest, e) = split_prefix p s (rw (has_prefix, same) at h) in
      let chars : d ≡ c = Char-path d c ((nat_eq.same_iff (code d) (code c)).0 same) in
      (
        rest,
        ap (λ x. String.◌∷◌ x s) chars ∙ ap (λ t. String.◌∷◌ c t) e ∙ sym (append.cons c p rest),
      )
]

-- A key is taken for one of the task exactly if it is the identifier, a dash, and something.
pub is_tap_of_starts :
    (id rest : String) → is_tap_of id (text_append id (text_append "-" rest)) ≡ true
is_tap_of_starts id rest =
    subst (λ (key : String). is_tap_of id key ≡ true) (append_assoc id "-" rest)
      (has_prefix-append (text_append id "-") rest)

pub is_tap_of_splits :
    (id key : String)
    → is_tap_of id key ≡ true
    → (rest : String) × (key ≡ text_append id (text_append "-" rest))
is_tap_of_splits id key mine =
    let (rest, e) = split_prefix (text_append id "-") key mine in
    (rest, e ∙ append_assoc id "-" rest)
