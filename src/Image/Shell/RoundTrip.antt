-- ===== src/Image/Shell/RoundTrip.antt =====
-- The shell reads quoted words as they were.
use swarm_cracker.Prelude.{
  ℕ, List, [], ◌∷◌, ◌++◌, true, false, ◌||◌, Option, some, ◌==◌, nat_eq, ◌≡◌, refl, arith, All,
  if◌then◌else◌, Bool-cases, inl, inr, map, ◌⊎◌,
}
use mathlib.Core.List.{append_assoc, append-nil}
use swarm_cracker.Image.Text.{Text, is_empty, replace_all, join}
use swarm_cracker.Image.Shell.{
  is_special, needs_shell_escaping, escape_chars, shell_escape_value, is_quoted, shell_escape,
  build_command_string,
}
use swarm_cracker.Image.Shell.Reader.{
  between, bare, quoted, read, push, is_meta, starts_specially, is_quotable,
}

escape_char : ℕ → Text
escape_char c = if is_quotable c then 92 ∷ c ∷ [] else c ∷ []

escape_chars-cons : (c : ℕ) (cs : Text) → escape_chars (c ∷ cs) ≡ escape_char c ++ escape_chars cs
unfolding escape_chars replace_all escape_char
escape_chars-cons c cs = ground arith

abbrev push_all : Text → Option (List Text) → Option (List Text)
push_all [] r = r
push_all (c ∷ cs) r = push c (push_all cs r)

read-escape_char :
    (c : ℕ) (rest : Text) → read quoted (escape_char c ++ rest) ≡ push c (read quoted rest)
unfolding escape_char read
read-escape_char c rest = ground arith

-- Between double quotes the shell reads the escaped text as the text itself.
read-escape_chars :
    (s rest : Text) → read quoted (escape_chars s ++ rest) ≡ push_all s (read quoted rest)
read-escape_chars [] rest = unfold escape_chars replace_all in refl
read-escape_chars (c ∷ cs) rest =
    rw
      (
        escape_chars-cons c cs,
        append_assoc (escape_char c) (escape_chars cs) rest,
        read-escape_char c (escape_chars cs ++ rest),
        read-escape_chars cs rest,
      )
      refl

-- What follows a word: the end of the text, or a space and further words.
pub record Follows (rest : Text) (ws : List Text) : Type 0 where
  ends : read bare rest ≡ some ([] ∷ ws)

push_all-some : (s : Text) (ws : List Text) → push_all s (some ([] ∷ ws)) ≡ some (s ∷ ws)
push_all-some [] ws = refl
push_all-some (c ∷ cs) ws = rw (push_all-some cs ws) refl

read-shell_escape_value :
    (s rest : Text) (ws : List Text)
    → Follows rest ws
    → read between (shell_escape_value s ++ rest) ≡ some (s ∷ ws)
unfolding shell_escape_value read
read-shell_escape_value s rest ws f = append_assoc_read
  where
    append_assoc_read : read quoted ((escape_chars s ++ b'"' ∷ []) ++ rest) ≡ some (s ∷ ws)
    append_assoc_read =
        rw
          (
            append_assoc (escape_chars s) (b'"' ∷ []) rest,
            read-escape_chars s (b'"' ∷ rest),
            f.ends,
          )
          (push_all-some s ws)

-- A character that needs no quoting means nothing to the shell.
plain-is_meta :
    (c : ℕ)
    → is_special c ≡ false
    → (is_meta c ≡ false) × ((c == 32) ≡ false) × ((c == b'"') ≡ false)
unfolding is_special
plain-is_meta c h = ground arith

read-plain :
    (s rest : Text) (ws : List Text)
    → needs_shell_escaping s ≡ false
    → Follows rest ws
    → read bare (s ++ rest) ≡ some (s ∷ ws)
unfolding needs_shell_escaping read
read-plain [] rest ws plain f = f.ends
read-plain (c ∷ cs) rest ws plain f =
    let here : is_special c ≡ false = ground (arith, plain) in
    let there : needs_shell_escaping cs ≡ false = ground (arith, plain) in
    let m = plain-is_meta c here in rw (read, m.1, m.2, m.0, read-plain cs rest ws there f) refl

-- An argument that the quoting covers: not empty, not between quotes already, and without a `#` or a
-- `~` in front unless something else in it is quoted.
pub record IsArgument (s : Text) : Type 0 where
  pub nonempty : is_empty s ≡ false
  pub unquoted : is_quoted s ≡ false
  pub ordinary_start :
      (c : ℕ) (cs : Text)
      → s ≡ c ∷ cs
      → (needs_shell_escaping s ≡ true) ⊎ (starts_specially c ≡ false)

pub read-word :
    (c : ℕ) (cs rest : Text) (ws : List Text)
    → needs_shell_escaping (c ∷ cs) ≡ false
    → starts_specially c ≡ false
    → Follows rest ws
    → read between ((c ∷ cs) ++ rest) ≡ some ((c ∷ cs) ∷ ws)
unfolding needs_shell_escaping read
read-word c cs rest ws plain ordinary f =
    let here : is_special c ≡ false = ground (arith, plain) in
    let there : needs_shell_escaping cs ≡ false = ground (arith, plain) in
    let m = plain-is_meta c here in
    let starts : (is_meta c || starts_specially c) ≡ false = rw (m.0, ordinary) refl in
    rw (read, m.1, m.2, starts, read-plain cs rest ws there f) refl

read-shell_escape :
    (s rest : Text) (ws : List Text)
    → IsArgument s
    → Follows rest ws
    → read between (shell_escape s ++ rest) ≡ some (s ∷ ws)
unfolding shell_escape
read-shell_escape [] rest ws a f = cc a.nonempty
read-shell_escape (c ∷ cs) rest ws a f = elim (Bool-cases (needs_shell_escaping (c ∷ cs))) [
  | inl quoting ↦ rw (a.unquoted, quoting) (read-shell_escape_value (c ∷ cs) rest ws f)
  | inr plain ↦ elim (a.ordinary_start c cs refl) [
    | inl quoting ↦ cc (plain, quoting)
    | inr ordinary ↦ rw (a.unquoted, plain) (read-word c cs rest ws plain ordinary f)
  ]
]

end-Follows : Follows [] []
unfolding read
end-Follows = record { ends = refl }

pub space-Follows :
    (rest : Text) (ws : List Text) → read between rest ≡ some ws → Follows (32 ∷ rest) ws
unfolding read
space-Follows rest ws later = record { ends = rw (read, later) refl }

read-join :
    (part : Text) (parts : List Text)
    → All IsArgument (part ∷ parts)
    → read between (join (map shell_escape (part ∷ parts)) (32 ∷ [])) ≡ some (part ∷ parts)
unfolding join
read-join part [] h =
    rw (← append-nil (shell_escape part)) (read-shell_escape part [] [] h.0 end-Follows)
read-join part (next ∷ rest) h =
    read-shell_escape part _ (next ∷ rest) h.0 (space-Follows _ _ (read-join next rest h.1))

-- The shell reads a command line that `buildCommandString` has built from one or more arguments, each
-- of which the quoting covers, as these arguments.
pub build_command_string_lem :
    (part : Text) (parts : List Text)
    → All IsArgument (part ∷ parts)
    → read between (build_command_string (part ∷ parts)) ≡ some (part ∷ parts)
unfolding build_command_string
build_command_string_lem part parts h = read-join part parts h
