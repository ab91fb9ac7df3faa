-- ===== src/Image/Tar/Cleaning.antt =====
-- Go's filepath.Clean, as pkg/image/preparer.go uses it: what the components of a cleaned path are.
use mathlib.Core.List.{append-nil}
use swarm_cracker.Prelude.{
  ℕ, List, [], ◌∷◌, ◌++◌, false, ◌||◌, nat_eq, ◌==◌, ◌≡◌, refl, ap, ◌∙◌, arith, All, Bool-cases,
  inl, inr,
}
use swarm_cracker.Image.Text.{Text, is_empty, text_eq, join}
use swarm_cracker.Storage.Volume.{contains_char}
use swarm_cracker.Translator.Boot.{split}
use swarm_cracker.Translator.Boot.Words.{split_nonempty, split-join, split_all_plain}
use swarm_cracker.Image.Tar.{drop_last, clean_step, clean_components, turn, clean}

-- A component that cleaning leaves as it is.
abbrev pub IsName : Text → Type 0
IsName t =
    ((is_empty t || text_eq t (46 ∷ [])) ≡ false)
    × (text_eq t (46 ∷ 46 ∷ []) ≡ false)
    × (contains_char t 47 ≡ false)

split_pieces : (c : ℕ) (s : Text) → All (λ t. contains_char t c ≡ false) (split c s)
unfolding split
split_pieces c [] = (refl, tt)
split_pieces c (x ∷ xs) =
    let ih = split_pieces c xs in
    let (t, ts, e) = split_nonempty c xs in
    elim (Bool-cases (x == c)) [
      | inl sep ↦ rw sep (refl, ih)
      | inr other ↦ rw (other, e) (let h = rw e at ih in (ground (arith, other, h.0), h.1))
    ]

clean_step-IsName :
    (stack : List Text) (name : Text)
    → All IsName stack
    → contains_char name 47 ≡ false
    → All IsName (clean_step stack name)
clean_step-IsName stack name names plain =
    elim (Bool-cases (is_empty name || text_eq name (46 ∷ []))) [
      | inl skipped ↦ rw (clean_step, skipped) names
      | inr kept ↦ elim (Bool-cases (text_eq name (46 ∷ 46 ∷ []))) [
        | inr child ↦ rw (clean_step, kept, child) ((kept, child, plain), names)
        | inl up ↦ rw (clean_step, kept, up) (dropped stack names)
      ]
    ]
  where
    dropped : (ts : List Text) → All IsName ts → All IsName (drop_last ts)
    dropped [] h = tt
    dropped (t ∷ ts) h = h.1

clean_components-IsName :
    (names stack : List Text)
    → All (λ t. contains_char t 47 ≡ false) names
    → All IsName stack
    → All IsName (clean_components stack names)
unfolding clean_components
clean_components-IsName [] stack plain good = good
clean_components-IsName (n ∷ ns) stack plain good =
    clean_components-IsName ns (clean_step stack n) plain.1 (clean_step-IsName stack n good plain.0)

turn-IsName : (ts done : List Text) → All IsName ts → All IsName done → All IsName (turn ts done)
turn-IsName [] done h k = k
turn-IsName (t ∷ ts) done h k = turn-IsName ts (t ∷ done) h.1 (h.0, k)

clean_components_names :
    (ts stack : List Text) → All IsName ts → clean_components stack ts ≡ turn ts stack
unfolding clean_components
clean_components_names [] stack h = refl
clean_components_names (t ∷ ts) stack ((kept, child, plain), h) =
    rw (clean_step, kept, child) (clean_components_names ts (t ∷ stack) h)

turn-turn : (ts us vs : List Text) → turn (turn ts us) vs ≡ turn us (ts ++ vs)
turn-turn [] us vs = refl
turn-turn (t ∷ ts) us vs = turn-turn ts (t ∷ us) vs

-- The components below the root.
abbrev pub names_of : Text → List Text
names_of path = turn (clean_components [] (split 47 path)) []

pub names_of-IsName : (path : Text) → All IsName (names_of path)
names_of-IsName path =
    turn-IsName (clean_components [] (split 47 path)) []
      (clean_components-IsName (split 47 path) [] (split_pieces 47 path) tt) tt

plain_names : (ts : List Text) → All IsName ts → All (λ t. contains_char t 47 ≡ false) ts
plain_names [] h = tt
plain_names (t ∷ ts) h = (h.0.2, plain_names ts h.1)

split-join_names :
    (ts : List Text)
    → All IsName ts
    → clean_components [] (split 47 (47 ∷ join ts (47 ∷ []))) ≡ turn ts []
unfolding split join clean_components
split-join_names [] h = refl
split-join_names (t ∷ ts) h =
    ap (λ (names : List Text). clean_components [] ([] ∷ names))
      (split-join 47 t ts ∙ split_all_plain 47 (t ∷ ts) (plain_names (t ∷ ts) h))
    ∙ clean_components_names (t ∷ ts) [] h

-- Cleaning a cleaned path changes nothing.
pub clean-clean : (path : Text) → clean (clean path) ≡ clean path
unfolding clean
clean-clean path =
    let names = names_of path in
    ap (λ (stack : List Text). 47 ∷ join (turn stack []) (47 ∷ []))
      (split-join_names names (names_of-IsName path))
    ∙ ap (λ (ts : List Text). 47 ∷ join ts (47 ∷ [])) (turn-turn names [] [] ∙ append-nil names)

no_parents : (ts : List Text) → All IsName ts → All (λ t. text_eq t (46 ∷ 46 ∷ []) ≡ false) ts
no_parents [] h = tt
no_parents (t ∷ ts) h = (h.0.1, no_parents ts h.1)

join_no_parents :
    (ts : List Text)
    → All IsName ts
    → All (λ t. text_eq t (46 ∷ 46 ∷ []) ≡ false) (split 47 (join ts (47 ∷ [])))
unfolding join split
join_no_parents [] h = (refl, tt)
join_no_parents (t ∷ ts) h =
    rw (split-join 47 t ts ∙ split_all_plain 47 (t ∷ ts) (plain_names (t ∷ ts) h))
      (no_parents (t ∷ ts) h)

-- The components of a cleaned path are no parent directories.
pub split-clean :
    (path : Text) → All (λ t. text_eq t (46 ∷ 46 ∷ []) ≡ false) (split 47 (clean path))
unfolding clean split
split-clean path = (refl, join_no_parents (names_of path) (names_of-IsName path))
