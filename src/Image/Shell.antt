-- ===== src/Image/Shell.antt =====
-- pkg/image/wrapper.go: the quoting of words for the shell. A text is its code points.
pub mod Reader
pub mod RoundTrip
use swarm_cracker.Prelude.{
  ℕ, List, [], ◌∷◌, ◌++◌, Bool, true, false, not, ◌&&◌, ◌||◌, Option, none, some, ◌==◌, nat_eq, ltb,
  map, if◌then◌else◌, code_points,
}
use swarm_cracker.Image.Text.{Text, is_empty, replace_all, join, cut}

-- The characters of the `switch`.
unfoldable pub is_special : ℕ → Bool
is_special c =
    c == 32
    || c == 9
    || c == b'"'
    || c == b'\''
    || c == 92
    || c == b'$'
    || c == b'`'
    || c == b'!'
    || c == b'*'
    || c == b'?'
    || c == b'['
    || c == b']'
    || c == b'('
    || c == b')'
    || c == b'<'
    || c == b'>'
    || c == b'&'
    || c == b'|'
    || c == b';'
    || c == 10

unfoldable pub needs_shell_escaping : Text → Bool
needs_shell_escaping [] = false
needs_shell_escaping (c ∷ cs) = is_special c || needs_shell_escaping cs

-- Backslashes first, then double quotes, dollar signs and backquotes.
unfoldable pub escape_chars : Text → Text
escape_chars s =
    let backslashes = replace_all s 92 (92 ∷ 92 ∷ []) in
    let quotes = replace_all backslashes b'"' (92 ∷ b'"' ∷ []) in
    let dollars = replace_all quotes b'$' (92 ∷ b'$' ∷ []) in
    replace_all dollars b'`' (92 ∷ b'`' ∷ [])

unfoldable pub shell_escape_value : Text → Text
unfolding escape_chars
shell_escape_value s = b'"' ∷ (escape_chars s ++ b'"' ∷ [])

abbrev pub ends_in : ℕ → Text → Bool
ends_in q [] = false
ends_in q (c ∷ []) = c == q
ends_in q (c ∷ d ∷ rest) = ends_in q (d ∷ rest)

-- At least two characters, the first a quote and the last the same.
unfoldable pub is_quoted : Text → Bool
is_quoted [] = false
is_quoted (c ∷ cs) = (c == b'"' || c == b'\'') && ends_in c cs

unfoldable pub shell_escape : Text → Text
unfolding is_quoted needs_shell_escaping shell_escape_value
shell_escape s =
    if is_quoted s
    then s
    else if is_empty s || not (needs_shell_escaping s)
    then s
    else shell_escape_value s

unfoldable pub parse_env_var : Text → Text × Text
parse_env_var env = elim (cut env b'=') [ none ↦ (env, []) | some (key, value) ↦ (key, value) ]

unfoldable pub build_command_string : List Text → Text
unfolding shell_escape
build_command_string [] = code_points "/bin/sh"
build_command_string (part ∷ rest) = join (map shell_escape (part ∷ rest)) (32 ∷ [])
