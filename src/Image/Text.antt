-- ===== src/Image/Text.antt =====
-- Texts of scripts as lists of code points, and what pkg/image uses of Go's package strings.
use swarm_cracker.Prelude.{
  ℕ, List, [], ◌∷◌, ◌++◌, Bool, true, false, ◌&&◌, Option, none, some, ◌==◌, nat_eq, if◌then◌else◌,
}

abbrev pub Text : Type 0
Text = List ℕ

abbrev pub text_eq : Text → Text → Bool
text_eq [] [] = true
text_eq [] (d ∷ ds) = false
text_eq (c ∷ cs) [] = false
text_eq (c ∷ cs) (d ∷ ds) = (c == d) && text_eq cs ds

abbrev pub is_empty : Text → Bool
is_empty [] = true
is_empty (c ∷ cs) = false

-- strings.ReplaceAll, of a single character.
unfoldable pub replace_all : Text → ℕ → Text → Text
replace_all [] old new = []
replace_all (c ∷ cs) old new =
    let rest = replace_all cs old new in if c == old then new ++ rest else c ∷ rest

-- strings.Join
unfoldable pub join : List Text → Text → Text
join [] sep = []
join (t ∷ []) sep = t
join (t ∷ u ∷ rest) sep = t ++ (sep ++ join (u ∷ rest) sep)

-- strings.Index of a single character, with the texts before and after it.
unfoldable pub cut : Text → ℕ → Option (Text × Text)
cut [] sep = none
cut (c ∷ cs) sep =
    let rest = cut cs sep in
    if c == sep
    then some ([], cs)
    else elim rest [ none ↦ none | some (before, after) ↦ some (c ∷ before, after) ]

-- strings.TrimPrefix
abbrev pub trim_prefix : Text → Text → Option Text
trim_prefix s [] = some s
trim_prefix [] (p ∷ ps) = none
trim_prefix (c ∷ cs) (p ∷ ps) = if c == p then trim_prefix cs ps else none
