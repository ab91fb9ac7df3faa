-- ===== src/Image/Shell/Reader.antt =====
-- How a POSIX shell splits a simple command into words: an independent description, from the shell's
-- grammar of quoting. It has no expansions: a text in which the shell would expand, redirect, end the
-- command or begin a comment is refused.
use swarm_cracker.Prelude.{
  ℕ, List, [], ◌∷◌, Bool, true, false, ◌||◌, Option, none, some, ◌==◌, nat_eq,
}
use swarm_cracker.Image.Text.{Text}

-- Between words; in a word; between double quotes, and there behind a backslash.
pub data Mode : Type 0 where
  between bare quoted escaped : Mode

-- The characters that mean something to the shell outside quotes.
abbrev pub is_meta : ℕ → Bool
is_meta c =
    c == b'|'
    || c == b'&'
    || c == b';'
    || c == b'<'
    || c == b'>'
    || c == b'('
    || c == b')'
    || c == b'$'
    || c == b'`'
    || c == 92
    || c == b'"'
    || c == b'\''
    || c == 9
    || c == 10
    || c == b'*'
    || c == b'?'
    || c == b'['

-- What a backslash between double quotes quotes.
abbrev pub is_quotable : ℕ → Bool
is_quotable c = c == b'$' || c == b'`' || c == b'"' || c == 92

-- A comment, or a tilde to expand, at the start of a word.
abbrev pub starts_specially : ℕ → Bool
starts_specially c = c == b'#' || c == b'~'

abbrev pub push : ℕ → Option (List Text) → Option (List Text)
push c none = none
push c (some []) = none
push c (some (w ∷ ws)) = some ((c ∷ w) ∷ ws)

abbrev pub new_word : Option (List Text) → Option (List Text)
new_word none = none
new_word (some ws) = some ([] ∷ ws)

unfoldable pub read : Mode → Text → Option (List Text)
read between [] = some []
read bare [] = some ([] ∷ [])
read quoted [] = none
read escaped [] = none
read between (c ∷ cs) = elim (c == 32) [
  | true ↦ read between cs
  | false ↦ elim (c == b'"') [
    | true ↦ read quoted cs
    | false ↦ elim (is_meta c || starts_specially c) [ true ↦ none | false ↦ push c (read bare cs) ]
  ]
]
read bare (c ∷ cs) = elim (c == 32) [
  | true ↦ new_word (read between cs)
  | false ↦ elim (c == b'"') [
    | true ↦ read quoted cs
    | false ↦ elim (is_meta c) [ true ↦ none | false ↦ push c (read bare cs) ]
  ]
]
read quoted (c ∷ cs) = elim (c == b'"') [
  | true ↦ read bare cs
  | false ↦ elim (c == 92) [
    | true ↦ read escaped cs
    | false ↦ elim (c == b'$' || c == b'`') [ true ↦ none | false ↦ push c (read quoted cs) ]
  ]
]
read escaped (c ∷ cs) = elim (is_quotable c) [
  | true ↦ push c (read quoted cs)
  | false ↦ elim (c == 10) [ true ↦ read quoted cs | false ↦ push 92 (push c (read quoted cs)) ]
]
